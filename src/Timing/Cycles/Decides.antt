-- ===== src/Timing/Cycles/Decides.antt =====
-- src/backend/timing-dag.h: `CheckForCycles` ends and decides whether there is a cycle.
use autopiper.Prelude.{
  ℕ, zero, suc, ◌+◌, ◌-◌, ◌<◌, ◌≤◌, ◌==◌, ◌≡◌, refl, sym, ap, subst, ◌∙◌, ◌⊎◌, inl, inr, Bool, true,
  false, List, [], ◌∷◌, ◌++◌, Option, some, arith, Bool-cases, Option-cases, length, get_elem?,
  if◌then◌else◌,
}
use autopiper.Prelude.Member.{
  In, contains, contains-In, contains-false, not-In, In-append, append-In, All-In,
}
use autopiper.Prelude.Positions.{get_elem?-In, get_elem?-lt}
use autopiper.Graph.Visits.{Reach, here, Falls}
use autopiper.Timing.{set}
use autopiper.Timing.Cycles.{
  Search, Found, searched, cycle, clear, follow, turn, on_stack, search_from, search_all,
  check_for_cycles,
}
use autopiper.Timing.Cycles.Invariant.{
  nodes_of, Finished, Invariant, Under-Reach, pop-Invariant, skip-Invariant, push-Invariant,
  off_stack, set-true-inv,
}

module _ (succ : ℕ → List ℕ) where
  -- The edges, and the nodes, that are not seen.
  unfoldable pub cost : List ℕ → List ℕ → ℕ
  cost seen [] = 0
  cost seen (x ∷ r) =
      let rest = cost seen r in if contains x seen then rest else rest + length (succ x) + 1

  cost_mono :
      (seen more all : List ℕ) → ((x : ℕ) → In x seen → In x more) → cost more all ≤ cost seen all
  unfolding cost
  cost_mono seen more [] f = omega arith
  cost_mono seen more (x ∷ r) f =
      let rest = cost_mono seen more r f in
      elim (Bool-cases (contains x seen)) [
        | inl e ↦ ground (arith, rest, (contains-In x more).1 (f x ((contains-In x seen).0 e)))
        | inr e ↦ ground (arith, rest)
      ]

  cost-cons :
      (x : ℕ) (seen all : List ℕ)
      → In x all
      → contains x seen ≡ false
      → cost (x ∷ seen) all + length (succ x) + 1 ≤ cost seen all
  unfolding cost contains
  cost-cons x seen [] i e = absurd i
  cost-cons x seen (y ∷ r) (inl q) e =
      let rest = cost_mono seen (x ∷ seen) r (λ z i. inr i) in
      let unseen = subst (λ z. contains z seen ≡ false) q e in
      let same = ap (λ z. length (succ z)) q in ground (arith, rest, unseen, same)
  cost-cons x seen (y ∷ r) (inr i) e = let rest = cost-cons x seen r i e in ground (arith, rest)

  -- The edges that the nodes of the stack have left.
  abbrev left : List (ℕ × ℕ) → ℕ
  left [] = 0
  left ((n, i) ∷ r) = length (succ n) - i + 1 + left r

  abbrev seen_by : List (ℕ × ℕ) → List ℕ → List ℕ
  seen_by stack visited = nodes_of stack ++ visited

  -- Each turn lowers it.
  abbrev total : List ℕ → List (ℕ × ℕ) → List ℕ → ℕ
  total all stack visited = cost (seen_by stack visited) all + left stack

  abbrev Kept : List ℕ → Search → Type 0
  Kept all s = Invariant succ all s.stack s.visiting s.visited

  -- What a cycle is: an edge to a node from which a path leads back.
  abbrev pub IsCycle : ℕ → ℕ → Type 0
  IsCycle a b = In b (succ a) × Reach succ b a

  abbrev Turned : List ℕ → List (ℕ × ℕ) → List ℕ → Found → Type 0
  Turned all stack visited (cycle a b) = IsCycle a b
  Turned all stack visited (searched t) =
      Kept all t
      × (total all t.stack t.visited < total all stack visited)
      × ((x : ℕ) → In x (seen_by stack visited) → In x (seen_by t.stack t.visited))

  module _ (all : List ℕ) (inside : (x y : ℕ) → In y (succ x) → In x all × In y all) where
    off :
        (visited : List ℕ) (n idx to : ℕ) (r : List (ℕ × ℕ)) (visiting : ℕ → Bool)
        → Invariant succ all ((n, idx) ∷ r) visiting visited
        → set n true visiting to ≡ false
        → contains to visited ≡ false
        → contains to (n ∷ (nodes_of r ++ visited)) ≡ false
    off visited n idx to r visiting inv f g = contains-false to (n ∷ (nodes_of r ++ visited)) (λ i.
        elim (append-In to (n ∷ nodes_of r) visited i) [
          | inl j ↦ off_stack succ visited visiting n idx to r inv.stacked f j
          | inr j ↦ not-In to visited g j
        ])

    follow-Turned :
        (n idx to : ℕ) (r : List (ℕ × ℕ)) (s : Search)
        → get_elem? (succ n) idx ≡ some to
        → Invariant succ all ((n, idx) ∷ r) s.visiting s.visited
        → Turned all ((n, idx) ∷ r) s.visited (follow succ n idx to r s)
    unfolding follow
    follow-Turned n idx to r s e inv =
        let edge = get_elem?-In (succ n) idx to e in
        let lt = get_elem?-lt (succ n) idx to e in
        elim (Bool-cases (set n true s.visiting to)) [
          | inl f ↦
              rw (f, follow)
                (
                  edge,
                  elim (set-true-inv n to s.visiting f) [
                    | inl q ↦ subst (λ z. Reach succ z n) (sym q) here
                    | inr g ↦ elim (inv.flags to g) [
                      | inl q ↦ subst (λ z. Reach succ z n) (sym q) here
                      | inr i ↦ Under-Reach succ s.visiting s.visited n r to inv.stacked.1 i
                    ]
                  ],
                )
          | inr f ↦ elim (Bool-cases (contains to s.visited)) [
            | inl g ↦
                rw (f, g, follow)
                  (
                    skip-Invariant succ all s.visited s.visiting n idx to r e
                        ((contains-In to s.visited).0 g) inv,
                    omega (arith, lt),
                    λ x i. i,
                  )
            | inr g ↦
                rw (f, g, follow)
                  (
                    push-Invariant succ all s.visited s.visiting n idx to r e
                        (not-In to s.visited g) f (inside n to edge).1 inv,
                    omega (
                      arith,
                      lt,
                      cost-cons to (n ∷ (nodes_of r ++ s.visited)) all (inside n to edge).1
                          (off s.visited n idx to r s.visiting inv f g),
                    ),
                    λ x i. inr i,
                  )
          ]
        ]

    turn-Turned :
        (n idx : ℕ) (r : List (ℕ × ℕ)) (s : Search)
        → Invariant succ all ((n, idx) ∷ r) s.visiting s.visited
        → Turned all ((n, idx) ∷ r) s.visited (turn succ n idx r s)
    unfolding turn
    turn-Turned n idx r s inv = elim (Option-cases (get_elem? (succ n) idx)) [
      | inl e ↦
          rw (e, turn)
            (
              pop-Invariant succ all s.visited s.visiting n idx r e inv,
              omega (
                arith,
                cost_mono (n ∷ (nodes_of r ++ s.visited)) (nodes_of r ++ n ∷ s.visited) all
                    (moved n (nodes_of r) s.visited),
              ),
              moved n (nodes_of r) s.visited,
            )
      | inr (to, e) ↦ rw (e, turn) (follow-Turned n idx to r s e inv)
    ]
      where
        moved : (n : ℕ) (l v : List ℕ) (x : ℕ) → In x (n ∷ (l ++ v)) → In x (l ++ n ∷ v)
        moved n l v x (inl q) = In-append x l (n ∷ v) (inr (inl q))
        moved n l v x (inr i) = elim (append-In x l v i) [
          | inl j ↦ In-append x l (n ∷ v) (inl j)
          | inr j ↦ In-append x l (n ∷ v) (inr (inr j))
        ]

    -- What the `while` loop comes to from a stack: a cycle, or an empty stack with all that was on it
    -- visited.
    abbrev Ended : List (ℕ × ℕ) → List ℕ → Found → Type 0
    Ended stack visited (cycle a b) = IsCycle a b
    Ended stack visited (searched t) =
        Invariant succ all [] t.visiting t.visited
        × (t.stack ≡ [])
        × ((x : ℕ) → In x (seen_by stack visited) → In x t.visited)

    Ended-later :
        (stack stack' : List (ℕ × ℕ)) (visited visited' : List ℕ) (f : Found)
        → ((x : ℕ) → In x (seen_by stack visited) → In x (seen_by stack' visited'))
        → Ended stack' visited' f
        → Ended stack visited f
    Ended-later stack stack' visited visited' (cycle a b) m h = h
    Ended-later stack stack' visited visited' (searched t) m (i, e, k) = (i, e, λ x j. k x (m x j))

    search_from-Ended :
        (fuel : ℕ) (stack : List (ℕ × ℕ)) (s : Search)
        → s.stack ≡ stack
        → Invariant succ all stack s.visiting s.visited
        → total all stack s.visited < fuel
        → (f : Found) × (search_from succ fuel s ≡ some f) × Ended stack s.visited f
    unfolding search_from
    search_from-Ended zero stack s st inv lt = absurd (omega arith)
    search_from-Ended (suc fuel) [] s st inv lt =
        (searched s, ap (λ q. on_stack succ q s (search_from succ fuel)) st, (inv, st, λ x i. i))
    search_from-Ended (suc fuel) ((n, idx) ∷ r) s st inv lt =
        let (f, e, h) =
          by_turn (turn succ n idx r s) (turn-Turned n idx r s inv) (search_from-Ended fuel) in
        (f, ap (λ q. on_stack succ q s (search_from succ fuel)) st ∙ e, h)
      where
        by_turn :
            (f : Found)
            → Turned all ((n, idx) ∷ r) s.visited f
            → ((stack : List (ℕ × ℕ)) (t : Search)
                → t.stack ≡ stack
                → Invariant succ all stack t.visiting t.visited
                → total all stack t.visited < fuel
                → (g : Found) × (search_from succ fuel t ≡ some g) × Ended stack t.visited g)
            → (g : Found) × ((elim f as (λ x. Option Found) [
              | cycle a b ↦ some (cycle a b)
              | searched t ↦ search_from succ fuel t
            ])
                ≡ some g)
              × Ended ((n, idx) ∷ r) s.visited g
        by_turn (cycle a b) h go = (cycle a b, refl, h)
        by_turn (searched t) (inv', less, grow) go =
            let (g, e, h) = go t.stack t refl inv' (omega (arith, less, lt)) in
            (g, e, Ended-later ((n, idx) ∷ r) t.stack s.visited t.visited g grow h)

    push_first :
        (n : ℕ) (visiting : ℕ → Bool) (visited : List ℕ)
        → In n all
        → ¬ In n visited
        → Invariant succ all [] visiting visited
        → Invariant succ all ((n, 0) ∷ []) visiting visited
    push_first n visiting visited i new inv = record {
      finished = inv.finished;
      stacked = ((λ j m lt e. absurd (omega (arith, lt))), tt);
      unseen =
          λ x j. elim j [ inl q ↦ (λ k. new (subst (λ z. In z visited) q k)) | inr k ↦ absurd k ];
      distinct = ((λ j. j), tt);
      flags = λ x f. absurd (inv.flags x f);
      within = λ x j. elim j [ inl q ↦ subst (λ z. In z all) (sym q) i | inr k ↦ absurd k ];
    }

    -- What the loop over nodes comes to: a cycle, or each of them visited.
    abbrev Searched : List ℕ → List ℕ → Found → Type 0
    Searched ms visited (cycle a b) = IsCycle a b
    Searched ms visited (searched t) =
        Finished succ t.visited × ((x : ℕ) → In x ms ⊎ In x visited → In x t.visited)

    Searched-later :
        (n : ℕ) (ms visited more : List ℕ) (f : Found)
        → ((x : ℕ) → In x (n ∷ visited) → In x more)
        → Searched ms more f
        → Searched (n ∷ ms) visited f
    Searched-later n ms visited more (cycle a b) g h = h
    Searched-later n ms visited more (searched t) g (i, k) = (
      i,
      λ x j. k x (elim j [
        | inl (inl q) ↦ inr (g x (inl q))
        | inl (inr l) ↦ inl l
        | inr l ↦ inr (g x (inr l))
      ]),
    )

    search_all-Searched :
        (fuel : ℕ) (ms : List ℕ) (s : Search)
        → s.stack ≡ []
        → Invariant succ all [] s.visiting s.visited
        → ((x : ℕ) → In x ms → In x all)
        → cost s.visited all < fuel
        → (f : Found) × (search_all succ fuel ms s ≡ some f) × Searched ms s.visited f
    unfolding search_all
    search_all-Searched fuel [] s st inv h lt =
        (searched s, refl, (inv.finished, λ x j. elim j [ inl i ↦ absurd i | inr i ↦ i ]))
    search_all-Searched fuel (n ∷ ms) s st inv h lt = elim (Bool-cases (contains n s.visited)) [
      | inl e ↦
          let (f, g, k) = search_all-Searched fuel ms s st inv (λ x i. h x (inr i)) lt in
          let seen = (contains-In n s.visited).0 e in
          (
            f,
            rw (e, search_all) g,
            Searched-later n ms s.visited s.visited f
                (λ x j. elim j [ inl q ↦ subst (λ z. In z s.visited) (sym q) seen | inr i ↦ i ]) k,
          )
      | inr e ↦
          let start : Search = record s { stack = (n, 0) ∷ s.stack } in
          let (f, g, k) =
            search_from-Ended fuel ((n, 0) ∷ []) start (ap (λ q. (n, 0) ∷ q) st)
              (push_first n s.visiting s.visited (h n (inl refl)) (not-In n s.visited e) inv)
              (omega (arith, cost-cons n s.visited all (h n (inl refl)) e, lt)) in
          let (f', g', k') = next f k (λ t. search_all-Searched fuel ms t) in
          (f', rw (e, g, search_all) g', k')
    ]
      where
        next :
            (f : Found)
            → Ended ((n, 0) ∷ []) s.visited f
            → ((t : Search)
                → t.stack ≡ []
                → Invariant succ all [] t.visiting t.visited
                → ((x : ℕ) → In x ms → In x all)
                → cost t.visited all < fuel
                → (g : Found) × (search_all succ fuel ms t ≡ some g) × Searched ms t.visited g)
            → (g : Found) × ((elim f as (λ x. Option Found) [
              | cycle a b ↦ some (cycle a b)
              | searched t ↦ search_all succ fuel ms t
            ])
                ≡ some g)
              × Searched (n ∷ ms) s.visited g
        next (cycle a b) k go = (cycle a b, refl, k)
        next (searched t) (i, e, k) go =
            let (g, q, l) =
              go t e i (λ x j. h x (inr j))
                (omega (arith, cost_mono s.visited t.visited all (λ x j. k x (inr j)), lt)) in
            (g, q, Searched-later n ms s.visited t.visited g k l)

  -- The number of nodes that were visited up to a node.
  place : List ℕ → ℕ → ℕ
  place [] x = 0
  place (n ∷ r) x = let rest = place r x in if n == x then length r + 1 else rest

  place-le-length : (l : List ℕ) (x : ℕ) → place l x ≤ length l
  unfolding place
  place-le-length [] x = omega arith
  place-le-length (n ∷ r) x = ground (arith, place-le-length r x)

  place-Finished :
      (l : List ℕ) (x y : ℕ)
      → Finished succ l
      → In x l
      → In y (succ x)
      → In y l × (place l y < place l x)
  unfolding place
  place-Finished [] x y f i j = absurd i
  place-Finished (n ∷ r) x y (a, b, f) (inl q) j =
      let k = All-In (λ m. In m r) y (succ n) b (subst (λ z. In y (succ z)) q j) in
      let ne : ¬ (n ≡ y) = λ e. a (subst (λ z. In z r) (sym e) k) in
      (inr k, ground (arith, place-le-length r y, ne))
  place-Finished (n ∷ r) x y (a, b, f) (inr i) j =
      let (k, lt) = place-Finished r x y f i j in
      let ne : ¬ (n ≡ y) = λ e. a (subst (λ z. In z r) (sym e) k) in
      let ne' : ¬ (n ≡ x) = λ e. a (subst (λ z. In z r) (sym e) i) in
      (inr k, ground (arith, lt, ne, ne'))

-- `CheckForCycles` over all nodes ends, with more fuel than nodes and edges: it returns false only if
-- an edge closes a path to a cycle, and true only if there is no cycle, as a measure shows that falls
-- along each edge.
pub check_for_cycles_decides :
    (succ : ℕ → List ℕ) (nodes : List ℕ) (fuel : ℕ)
    → ((x y : ℕ) → In y (succ x) → In x nodes × In y nodes)
    → cost succ [] nodes < fuel
    → ((check_for_cycles succ fuel nodes ≡ some false) × ((a : ℕ) × (b : ℕ) × IsCycle succ a b))
      ⊎ ((check_for_cycles succ fuel nodes ≡ some true) × ((rank : ℕ → ℕ) × Falls succ rank))
unfolding check_for_cycles clear
check_for_cycles_decides succ nodes fuel inside lt =
    let (f, e, k) =
      search_all-Searched succ nodes inside fuel nodes clear refl
        (record {
          finished = tt;
          stacked = tt;
          unseen = λ x i. absurd i;
          distinct = tt;
          flags = λ x q. absurd (cc q);
          within = λ x i. absurd i;
        })
        (λ x i. i) lt in
    by_found f e k
  where
    by_found :
        (f : Found)
        → search_all succ fuel nodes clear ≡ some f
        → Searched succ nodes inside nodes [] f
        → ((check_for_cycles succ fuel nodes ≡ some false) × ((a : ℕ) × (b : ℕ) × IsCycle succ a b))
          ⊎ ((check_for_cycles succ fuel nodes ≡ some true) × ((rank : ℕ → ℕ) × Falls succ rank))
    by_found (cycle a b) e k = inl (rw (e, check_for_cycles) refl, (a, b, k))
    by_found (searched t) e (fin, all) = inr (
      rw (e, check_for_cycles) refl,
      (
        place succ t.visited,
        λ x y j. (place-Finished succ t.visited x y fin (all x (inl (inside x y j).0)) j).1,
      ),
    )
