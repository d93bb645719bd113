-- ===== src/Timing/Cycles/Invariant.antt =====
-- src/backend/timing-dag.h: the invariant of the loop of `CheckForCycles`.
use autopiper.Prelude.{
  ℕ, suc, ◌+◌, ◌<◌, ◌==◌, ◌≡◌, refl, sym, subst, ◌⊎◌, inl, inr, Bool, true, false, List, [], ◌∷◌,
  none, some, arith, Bool-cases, lt_trichotomy, All, get_elem?,
}
use autopiper.Prelude.Member.{In, Distinct, All-of}
use autopiper.Graph.Visits.{Reach, here, there, Reach-last}
use autopiper.Timing.{set}
use autopiper.Prelude.Positions.{get_elem?-In, In-get_elem?, get_elem?-none}

abbrev pub nodes_of : List (ℕ × ℕ) → List ℕ
nodes_of [] = []
nodes_of ((n, i) ∷ r) = n ∷ nodes_of r

pub set-true : (n x : ℕ) (f : ℕ → Bool) → f x ≡ true → set n true f x ≡ true
unfolding set
set-true n x f h = ground arith

pub set_self : (n : ℕ) (b : Bool) (f : ℕ → Bool) → set n b f n ≡ b
unfolding set
set_self n b f = ground arith

pub set-false : (n x : ℕ) (f : ℕ → Bool) → ¬ (x ≡ n) → f x ≡ true → set n false f x ≡ true
unfolding set
set-false n x f d h = ground arith

pub set-true-inv : (n x : ℕ) (f : ℕ → Bool) → set n true f x ≡ true → (x ≡ n) ⊎ (f x ≡ true)
unfolding set
set-true-inv n x f h = elim (Bool-cases (n == x)) [
  | inl e ↦ inl (ground arith)
  | inr e ↦ inr (ground arith)
]

pub set-false-inv : (n x : ℕ) (f : ℕ → Bool) → set n false f x ≡ true → (¬ (x ≡ n)) × (f x ≡ true)
unfolding set
set-false-inv n x f h = elim (Bool-cases (n == x)) [
  | inl e ↦ absurd (ground arith)
  | inr e ↦ (ground arith, ground arith)
]

module _ (succ : ℕ → List ℕ) where
  -- Each node was visited after all its successors, and once.
  abbrev pub Finished : List ℕ → Type 0
  Finished [] = Unit
  Finished (n ∷ r) = (¬ In n r) × All (λ m. In m r) (succ n) × Finished r

  -- The first edges of a node lead to nodes that are visited.
  abbrev Followed : List ℕ → ℕ → ℕ → Type 0
  Followed visited n i = (j m : ℕ) → j < i → get_elem? (succ n) j ≡ some m → In m visited

  -- Below the top, a node is being visited, and the edge that it followed last leads to the node above.
  abbrev Under : (ℕ → Bool) → List ℕ → ℕ → List (ℕ × ℕ) → Type 0
  Under visiting visited child [] = Unit
  Under visiting visited child ((n, i) ∷ r) =
      (visiting n ≡ true)
      × ((j : ℕ) × (i ≡ suc j) × (get_elem? (succ n) j ≡ some child) × Followed visited n j)
      × Under visiting visited n r

  abbrev Stacked : (ℕ → Bool) → List ℕ → List (ℕ × ℕ) → Type 0
  Stacked visiting visited [] = Unit
  Stacked visiting visited ((n, i) ∷ r) = Followed visited n i × Under visiting visited n r

  pub record Invariant (all : List ℕ) (stack : List (ℕ × ℕ)) (visiting : ℕ → Bool)
      (visited : List ℕ) : Type 0 where
    pub finished : Finished visited
    pub stacked : Stacked visiting visited stack
    pub unseen : (x : ℕ) → In x (nodes_of stack) → ¬ In x visited
    pub distinct : Distinct (nodes_of stack)
    pub flags : (x : ℕ) → visiting x ≡ true → In x (nodes_of stack)
    pub within : (x : ℕ) → In x (nodes_of stack) → In x all

  -- A node on the stack below leads to the node above.
  pub Under-Reach :
      (visiting : ℕ → Bool) (visited : List ℕ) (child : ℕ) (r : List (ℕ × ℕ)) (x : ℕ)
      → Under visiting visited child r
      → In x (nodes_of r)
      → Reach succ x child
  Under-Reach visiting visited child [] x u i = absurd i
  Under-Reach visiting visited child ((n, i) ∷ r) x (v, (j, e, g, f), u) (inl q) =
      subst (λ z. Reach succ z child) (sym q) (there (get_elem?-In (succ n) j child g) here)
  Under-Reach visiting visited child ((n, i) ∷ r) x (v, (j, e, g, f), u) (inr q) =
      Reach-last succ x n child (Under-Reach visiting visited n r x u q)
        (get_elem?-In (succ n) j child g)

  Under-flag :
      (visiting : ℕ → Bool) (visited : List ℕ) (child : ℕ) (r : List (ℕ × ℕ)) (x : ℕ)
      → Under visiting visited child r
      → In x (nodes_of r)
      → visiting x ≡ true
  Under-flag visiting visited child [] x u i = absurd i
  Under-flag visiting visited child ((n, i) ∷ r) x (v, w, u) (inl q) =
      subst (λ z. visiting z ≡ true) (sym q) v
  Under-flag visiting visited child ((n, i) ∷ r) x (v, w, u) (inr q) =
      Under-flag visiting visited n r x u q

  -- More nodes are visited, and the flags of those below stay.
  Under-mono :
      (visiting visiting' : ℕ → Bool) (visited more : List ℕ) (child : ℕ) (r : List (ℕ × ℕ))
      → ((x : ℕ) → In x (nodes_of r) → visiting x ≡ true → visiting' x ≡ true)
      → ((x : ℕ) → In x visited → In x more)
      → Under visiting visited child r
      → Under visiting' more child r
  Under-mono visiting visiting' visited more child [] k f u = tt
  Under-mono visiting visiting' visited more child ((n, i) ∷ r) k f (v, (j, e, g, h), u) = (
    k n (inl refl) v,
    (j, e, g, λ a m lt q. f m (h a m lt q)),
    Under-mono visiting visiting' visited more n r (λ x q. k x (inr q)) f u,
  )

  -- Past the last edge of the top, it is visited.
  pub pop-Invariant :
      (all visited : List ℕ) (visiting : ℕ → Bool) (n idx : ℕ) (r : List (ℕ × ℕ))
      → get_elem? (succ n) idx ≡ none
      → Invariant all ((n, idx) ∷ r) visiting visited
      → Invariant all r (set n false visiting) (n ∷ visited)
  pop-Invariant all visited visiting n idx r e inv =
      let (followed, under) = inv.stacked in
      let (apart, rest) = inv.distinct in
      record {
        finished = (
          inv.unseen n (inl refl),
          All-of (λ m. In m visited) (succ n)
              (λ m i.
                let (j, g, lt) = In-get_elem? (succ n) m i in
                followed j m (omega (arith, lt, get_elem?-none (succ n) idx e)) g),
          inv.finished,
        );
        stacked = below r under apart;
        unseen = λ x i j. elim j [
          | inl q ↦ apart (subst (λ z. In z (nodes_of r)) q i)
          | inr k ↦ inv.unseen x (inr i) k
        ];
        distinct = rest;
        flags = λ x f.
            let (ne, g) = set-false-inv n x visiting f in
            elim (inv.flags x g) [ inl q ↦ absurd (ne q) | inr i ↦ i ];
        within = λ x i. inv.within x (inr i);
      }
    where
      below :
          (q : List (ℕ × ℕ))
          → Under visiting visited n q
          → ¬ In n (nodes_of q)
          → Stacked (set n false visiting) (n ∷ visited) q
      below [] u a = tt
      below ((m, i) ∷ q) (v, (j, e, g, f), u) a = (
        λ k x lt h. elim (lt_trichotomy k j) [
          | inl less ↦ inr (f k x less h)
          | inr (inl more) ↦ absurd (omega (arith, e, lt, more))
          | inr (inr same) ↦ inl (cc (subst (λ z. get_elem? (succ m) z ≡ some x) same h, g))
        ],
        Under-mono visiting (set n false visiting) visited (n ∷ visited) m q
            (λ x l w. set-false n x visiting (λ z. a (inr (subst (λ y. In y (nodes_of q)) z l))) w)
            (λ x l. inr l) u,
      )

  -- An edge to a node that is visited.
  pub skip-Invariant :
      (all visited : List ℕ) (visiting : ℕ → Bool) (n idx to : ℕ) (r : List (ℕ × ℕ))
      → get_elem? (succ n) idx ≡ some to
      → In to visited
      → Invariant all ((n, idx) ∷ r) visiting visited
      → Invariant all ((n, idx + 1) ∷ r) (set n true visiting) visited
  skip-Invariant all visited visiting n idx to r e seen inv =
      let (followed, under) = inv.stacked in
      record {
        finished = inv.finished;
        stacked = (
          λ k x lt h. elim (lt_trichotomy k idx) [
            | inl less ↦ followed k x less h
            | inr (inl more) ↦ absurd (omega (arith, lt, more))
            | inr (inr same) ↦
                subst (λ z. In z visited)
                  (cc (subst (λ z. get_elem? (succ n) z ≡ some x) same h, e)) seen
          ],
          Under-mono visiting (set n true visiting) visited visited n r
              (λ x i v. set-true n x visiting v) (λ x i. i) under,
        );
        unseen = inv.unseen;
        distinct = inv.distinct;
        flags = λ x f. elim (set-true-inv n x visiting f) [ inl q ↦ inl q | inr g ↦ inv.flags x g ];
        within = inv.within;
      }

  -- A node without the flag is not on the stack.
  pub off_stack :
      (visited : List ℕ) (visiting : ℕ → Bool) (n idx to : ℕ) (r : List (ℕ × ℕ))
      → Stacked visiting visited ((n, idx) ∷ r)
      → set n true visiting to ≡ false
      → ¬ In to (n ∷ nodes_of r)
  off_stack visited visiting n idx to r st free (inl q) =
      absurd (cc (subst (λ z. set n true visiting z ≡ false) q free, set_self n true visiting))
  off_stack visited visiting n idx to r st free (inr k) =
      absurd (cc (set-true n to visiting (Under-flag visiting visited n r to st.1 k), free))

  -- An edge to a node that is new.
  pub push-Invariant :
      (all visited : List ℕ) (visiting : ℕ → Bool) (n idx to : ℕ) (r : List (ℕ × ℕ))
      → get_elem? (succ n) idx ≡ some to
      → ¬ In to visited
      → set n true visiting to ≡ false
      → In to all
      → Invariant all ((n, idx) ∷ r) visiting visited
      → Invariant all ((to, 0) ∷ (n, idx + 1) ∷ r) (set n true visiting) visited
  push-Invariant all visited visiting n idx to r e new free i inv =
      let (followed, under) = inv.stacked in
      record {
        finished = inv.finished;
        stacked = (
          λ k x lt h. absurd (omega (arith, lt)),
          (
            set_self n true visiting,
            (idx, omega arith, e, followed),
            Under-mono visiting (set n true visiting) visited visited n r
                (λ x i v. set-true n x visiting v) (λ x i. i) under,
          ),
        );
        unseen = λ x j. elim j [
          | inl q ↦ (λ k. new (subst (λ z. In z visited) q k))
          | inr k ↦ inv.unseen x k
        ];
        distinct = (off_stack visited visiting n idx to r inv.stacked free, inv.distinct);
        flags = λ x f.
            inr (elim (set-true-inv n x visiting f) [ inl q ↦ inl q | inr g ↦ inv.flags x g ]);
        within = λ x j. elim j [ inl q ↦ subst (λ z. In z all) (sym q) i | inr k ↦ inv.within x k ];
      }
