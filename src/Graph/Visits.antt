-- ===== src/Graph/Visits.antt =====
-- src/backend/rpo.h: what the depth-first walk visits, and that it ends.
use autopiper.Prelude.{
  ℕ, zero, suc, ◌<◌, ◌≡◌, refl, sym, subst, ◌⊎◌, inl, inr, ◌↔◌, List, [], ◌∷◌, ◌++◌, Option, some,
  arith, Bool-cases, length,
}
use autopiper.Prelude.Member.{
  In, contains, contains-In, not-In, In-append, append-In, missing, missing_mono, missing-cons,
  missing-le-length, Distinct, Distinct-append, Distinct-reverse, reverse-In, Ordered,
  Ordered-append, Ordered-reverse,
}
use autopiper.Graph.{Walk, start, walk_succs, walk, walk_all, compute, rpo}
use mathlib.Core.List.{reverse}

module _ (succ : ℕ → List ℕ) where
  -- There is a path.
  pub data Reach : ℕ → ℕ → Type 0 where
    here : {n : ℕ} → Reach n n
    there : {n m k : ℕ} → In m (succ n) → Reach m k → Reach n k

  pub Reach-last : (n m k : ℕ) → Reach n m → In k (succ m) → Reach n k
  Reach-last n m k here i = there i here
  Reach-last n m k (there j p) i = there j (Reach-last _ m k p i)

  -- What is finished is visited, and once.
  abbrev Tidy : Walk → Type 0
  Tidy w = ((x : ℕ) → In x w.postorder → In x w.visited) × Distinct w.postorder

  -- A measure that falls along edges: there is no cycle.
  abbrev pub Falls : (ℕ → ℕ) → Type 0
  Falls rank = (x y : ℕ) → In y (succ x) → rank y < rank x

  -- What is visited and not finished is above.
  abbrev Above : (ℕ → ℕ) → Walk → ℕ → Type 0
  Above rank w x = (g : ℕ) → In g w.visited → In g w.postorder ⊎ (rank x < rank g)

  -- What a walk from some of the nodes makes of its variables.
  record Grows (from : ℕ → Type 0) (w v : Walk) : Type 0 where
    grows : (x : ℕ) → In x w.visited → In x v.visited
    kept : (x : ℕ) → In x w.postorder → In x v.postorder
    reached : (x : ℕ) → from x → In x v.visited
    settled : (x : ℕ) → In x v.visited → In x w.visited ⊎ In x v.postorder
    closed : (x y : ℕ) → In x v.postorder → In y (succ x) → In x w.postorder ⊎ In y v.visited
    sound : (x : ℕ) → In x v.visited → In x w.visited ⊎ ((r : ℕ) × from r × Reach r x)
    fresh : (x : ℕ) → In x v.postorder → In x w.postorder ⊎ (¬ In x w.visited)
    tidy : Tidy w → Tidy v
    topo :
        (rank : ℕ → ℕ)
        → Falls rank
        → Tidy w
        → ((x : ℕ) → from x → Above rank w x)
        → Ordered succ [] w.postorder
        → Ordered succ [] v.postorder × ((x : ℕ) → from x → In x v.postorder)

  Grows-none : (w : Walk) → Grows (λ x. ⊥) w w
  Grows-none w = record {
    grows = λ x i. i;
    kept = λ x i. i;
    reached = λ x i. absurd i;
    settled = λ x i. inl i;
    closed = λ x y i j. inl i;
    sound = λ x i. inl i;
    fresh = λ x i. inl i;
    tidy = λ t. t;
    topo = λ rank f t h o. (o, λ x i. absurd i);
  }

  Grows-both :
      (p q : ℕ → Type 0) (u v w : Walk) → Grows p u v → Grows q v w → Grows (λ x. p x ⊎ q x) u w
  Grows-both p q u v w a b = record {
    grows = λ x i. b.grows x (a.grows x i);
    kept = λ x i. b.kept x (a.kept x i);
    reached = λ x i. elim i [ inl h ↦ b.grows x (a.reached x h) | inr h ↦ b.reached x h ];
    settled = λ x i. elim (b.settled x i) [
      | inl j ↦ elim (a.settled x j) [ inl k ↦ inl k | inr k ↦ inr (b.kept x k) ]
      | inr j ↦ inr j
    ];
    closed = λ x y i j. elim (b.closed x y i j) [
      | inl k ↦ elim (a.closed x y k j) [ inl l ↦ inl l | inr l ↦ inr (b.grows y l) ]
      | inr k ↦ inr k
    ];
    sound = λ x i. elim (b.sound x i) [
      | inl j ↦ elim (a.sound x j) [ inl k ↦ inl k | inr (r, h, k) ↦ inr (r, inl h, k) ]
      | inr (r, h, k) ↦ inr (r, inr h, k)
    ];
    fresh = λ x i. elim (b.fresh x i) [ inl j ↦ a.fresh x j | inr n ↦ inr (λ j. n (a.grows x j)) ];
    tidy = λ t. b.tidy (a.tidy t);
    topo = λ rank f t h o.
        let (o', i) = a.topo rank f t (λ x j. h x (inl j)) o in
        let up : (x : ℕ) → q x → Above rank v x = λ x j g k. elim (a.settled g k) [
          | inl l ↦ elim (h x (inr j) g l) [ inl m ↦ inl (a.kept g m) | inr m ↦ inr m ]
          | inr l ↦ inl l
        ] in
        let (o'', k) = b.topo rank f (a.tidy t) up o' in
        (o'', λ x j. elim j [ inl l ↦ b.kept x (i x l) | inr l ↦ k x l ]);
  }

  new_to :
      (n : ℕ) (w v : Walk)
      → Grows (λ x. In x (succ n)) (record w { visited = n ∷ w.visited }) v
      → ¬ In n w.visited
      → Tidy w
      → ¬ In n v.postorder
  new_to n w v a unseen t i = elim (a.fresh n i) [ inl j ↦ unseen (t.0 n j) | inr k ↦ k (inl refl) ]

  Tidy-finish :
      (n : ℕ) (w v : Walk)
      → Grows (λ x. In x (succ n)) (record w { visited = n ∷ w.visited }) v
      → ¬ In n w.visited
      → Tidy w
      → Tidy (record v { postorder = v.postorder ++ n ∷ [] })
  Tidy-finish n w v a unseen t =
      let (f, d) = a.tidy ((λ x i. inr (t.0 x i)), t.1) in
      let new = new_to n w v a unseen t in
      (
        λ x i. elim (append-In x v.postorder (n ∷ []) i) [
          | inl j ↦ f x j
          | inr (inl e) ↦ a.grows x (inl e)
          | inr (inr j) ↦ absurd j
        ],
        Distinct-append v.postorder n d new,
      )

  Grows-preds :
      (p : ℕ → Type 0) (w v : Walk) (ps : List (ℕ × ℕ))
      → Grows p (record w { preds = ps }) v
      → Grows p w v
  Grows-preds p w v ps a = record {
    grows = a.grows;
    kept = a.kept;
    reached = a.reached;
    settled = a.settled;
    closed = a.closed;
    sound = a.sound;
    fresh = a.fresh;
    tidy = a.tidy;
    topo = a.topo;
  }

  -- A node is finished when its successors are.
  Grows-finish :
      (n : ℕ) (w v : Walk)
      → ¬ In n w.visited
      → Grows (λ x. In x (succ n)) (record w { visited = n ∷ w.visited }) v
      → Grows (λ x. x ≡ n) w (record v { postorder = v.postorder ++ n ∷ [] })
  Grows-finish n w v unseen a = record {
    grows = λ x i. a.grows x (inr i);
    kept = λ x i. In-append x v.postorder (n ∷ []) (inl (a.kept x i));
    reached = λ x e. a.grows x (inl e);
    settled = λ x i. elim (a.settled x i) [
      | inl (inl e) ↦ inr (In-append x v.postorder (n ∷ []) (inr (inl e)))
      | inl (inr j) ↦ inl j
      | inr j ↦ inr (In-append x v.postorder (n ∷ []) (inl j))
    ];
    closed = λ x y i j. elim (append-In x v.postorder (n ∷ []) i) [
      | inl k ↦ a.closed x y k j
      | inr (inl e) ↦ inr (a.reached y (subst (λ z. In y (succ z)) e j))
      | inr (inr k) ↦ absurd k
    ];
    sound = λ x i. elim (a.sound x i) [
      | inl (inl e) ↦ inr (n, refl, subst (λ z. Reach n z) (sym e) here)
      | inl (inr j) ↦ inl j
      | inr (r, h, k) ↦ inr (n, refl, there h k)
    ];
    fresh = λ x i. elim (append-In x v.postorder (n ∷ []) i) [
      | inl j ↦ elim (a.fresh x j) [ inl k ↦ inl k | inr k ↦ inr (λ l. k (inr l)) ]
      | inr (inl e) ↦ inr (λ j. unseen (subst (λ z. In z w.visited) e j))
      | inr (inr j) ↦ absurd j
    ];
    tidy = λ t. Tidy-finish n w v a unseen t;
    topo = λ rank f t h o.
        let up : (x : ℕ) → In x (succ n) → Above rank (record w { visited = n ∷ w.visited }) x =
          λ x j g k. elim k [
            | inl e ↦ inr (subst (λ z. rank x < rank z) (sym e) (f n x j))
            | inr l ↦ elim (h n refl g l) [
              | inl m ↦ inl m
              | inr m ↦ inr (omega (arith, m, f n x j))
            ]
          ] in
        let (o', k) = a.topo rank f ((λ x i. inr (t.0 x i)), t.1) up o in
        (
          Ordered-append succ [] v.postorder n o' (λ i. i) (new_to n w v a unseen t)
              (λ m i. inr (k m i)),
          λ x e. In-append x v.postorder (n ∷ []) (inr (inl e)),
        );
  }

  Grows-visited : (n : ℕ) (w : Walk) → In n w.visited → Grows (λ x. x ≡ n) w w
  Grows-visited n w h = record {
    grows = λ x i. i;
    kept = λ x i. i;
    reached = λ x e. subst (λ z. In z w.visited) (sym e) h;
    settled = λ x i. inl i;
    closed = λ x y i j. inl i;
    sound = λ x i. inl i;
    fresh = λ x i. inl i;
    tidy = λ t. t;
    topo = λ rank f t k o. (
      o,
      λ x e. elim (k x e x (subst (λ z. In z w.visited) (sym e) h)) [
        | inl i ↦ i
        | inr i ↦ absurd (omega (arith, i))
      ],
    );
  }

  module _ (all : List ℕ) (inside : (x y : ℕ) → In x all → In y (succ x) → In y all) where
    -- What a call with this much fuel does.
    abbrev Goes : ℕ → (ℕ → Walk → Option Walk) → Type 0
    Goes fuel go =
        (m : ℕ) (w : Walk)
        → In m all
        → missing w.visited all < fuel
        → (v : Walk) × (go m w ≡ some v) × Grows (λ x. x ≡ m) w v

    walk_succs-Grows :
        (fuel : ℕ) (go : ℕ → Walk → Option Walk) (n : ℕ) (ms : List ℕ) (w : Walk)
        → Goes fuel go
        → ((x : ℕ) → In x ms → In x all)
        → missing w.visited all < fuel
        → (v : Walk) × (walk_succs succ go n ms w ≡ some v) × Grows (λ x. In x ms) w v
    unfolding walk_succs
    walk_succs-Grows fuel go n [] w g h lt = (w, refl, Grows-none w)
    walk_succs-Grows fuel go n (m ∷ ms) w g h lt =
        let (v, e, a) = g m (record w { preds = w.preds ++ (m, n) ∷ [] }) (h m (inl refl)) lt in
        let less = missing_mono w.visited v.visited all a.grows in
        let (z, f, b) = walk_succs-Grows fuel go n ms v g (λ x i. h x (inr i)) (omega arith) in
        (
          z,
          rw (e, walk_succs) f,
          Grows-both (λ x. x ≡ m) (λ x. In x ms) w v z (Grows-preds (λ x. x ≡ m) w v _ a) b,
        )

    -- The fuel that suffices is one more than the number of nodes that are not visited.
    walk-Grows : (fuel : ℕ) → Goes fuel (walk succ fuel)
    unfolding walk
    walk-Grows zero n w i lt = absurd (omega arith)
    walk-Grows (suc fuel) n w i lt = elim (Bool-cases (contains n w.visited)) [
      | inl e ↦ (w, rw (e, walk) refl, Grows-visited n w ((contains-In n w.visited).0 e))
      | inr e ↦
          let less = missing-cons n w.visited all i e in
          let (v, f, a) =
            walk_succs-Grows fuel (walk succ fuel) n (succ n) (record w { visited = n ∷ w.visited })
              (walk-Grows fuel) (λ x j. inside n x i j) (omega arith) in
          (
            record v { postorder = v.postorder ++ n ∷ [] },
            rw (e, f, walk) refl,
            Grows-finish n w v (not-In n w.visited e) a,
          )
    ]

    walk_all-Grows :
        (fuel : ℕ) (ms : List ℕ) (w : Walk)
        → ((x : ℕ) → In x ms → In x all)
        → missing w.visited all < fuel
        → (v : Walk) × (walk_all succ fuel ms w ≡ some v) × Grows (λ x. In x ms) w v
    unfolding walk_all
    walk_all-Grows fuel [] w h lt = (w, refl, Grows-none w)
    walk_all-Grows fuel (m ∷ ms) w h lt =
        let (v, e, a) = walk-Grows fuel m w (h m (inl refl)) lt in
        let less = missing_mono w.visited v.visited all a.grows in
        let (z, f, b) = walk_all-Grows fuel ms v (λ x i. h x (inr i)) (omega arith) in
        (z, rw (e, walk_all) f, Grows-both (λ x. x ≡ m) (λ x. In x ms) w v z a b)

    -- What is finished is what is reached, when the walk starts with nothing.
    Reach-In :
        (p : ℕ → Type 0) (v : Walk)
        → Grows p start v
        → (r x : ℕ) → Reach r x
        → In r v.visited
        → In x v.visited
    Reach-In p v a r x here i = i
    Reach-In p v a r x (there {m = m} j k) i = elim (a.settled r i) [
      | inl e ↦ absurd e
      | inr f ↦ elim (a.closed r m f j) [ inl e ↦ absurd e | inr l ↦ Reach-In p v a m x k l ]
    ]

    -- `Compute` from roots within a finite set of nodes that is closed under successors ends, with fuel
    -- above the number of the nodes, and its order holds exactly the nodes that a path leads to from a
    -- root, each once.
    pub compute-Reach :
        (fuel : ℕ) (roots : List ℕ)
        → ((x : ℕ) → In x roots → In x all)
        → length all < fuel
        → (v : Walk) × (compute succ fuel roots ≡ some v)
          × Distinct (rpo v)
          × ((x : ℕ) → In x (rpo v) ↔ ((r : ℕ) × In r roots × Reach r x))
    unfolding compute rpo
    compute-Reach fuel roots h lt =
        let less = missing-le-length [] all in
        let (v, e, a) =
          walk_all-Grows fuel (reverse roots) start (λ x i. h x ((reverse-In x roots).0 i))
            (omega arith) in
        (
          v,
          e,
          Distinct-reverse v.postorder (a.tidy ((λ y j. j), tt)).1,
          λ x. (
            λ i. elim (a.sound x ((a.tidy ((λ y j. j), tt)).0 x ((reverse-In x v.postorder).0 i))) [
              | inl j ↦ absurd j
              | inr (r, j, k) ↦ (r, (reverse-In r roots).0 j, k)
            ],
            λ (r, j, k).
                (reverse-In x v.postorder).1
                  (elim (a.settled x
                    (Reach-In _ v a r x k (a.reached r ((reverse-In r roots).1 j)))) [
                      | inl l ↦ absurd l
                      | inr l ↦ l
                    ]),
          ),
        )

    -- If no path of edges returns to where it began, as a measure shows that falls along each edge, and
    -- the roots lead to every node, then the order of `Compute` has each node once, and after the nodes
    -- that its edges come from.
    pub compute-Ordered :
        (rank : ℕ → ℕ) (ins : ℕ → List ℕ) (fuel : ℕ) (roots : List ℕ)
        → Falls rank
        → ((i m : ℕ) → In m (ins i) ↔ In i (succ m))
        → ((x : ℕ) → In x roots → In x all)
        → ((i m : ℕ) → In i (ins m) → In i all)
        → ((x : ℕ) → In x all → (r : ℕ) × In r roots × Reach r x)
        → length all < fuel
        → (v : Walk) × (compute succ fuel roots ≡ some v)
          × Ordered ins [] (rpo v)
          × ((x : ℕ) → In x all → In x (rpo v))
    unfolding compute rpo
    compute-Ordered rank ins fuel roots falls edges h within cover lt =
        let less = missing-le-length [] all in
        let (v, e, a) =
          walk_all-Grows fuel (reverse roots) start (λ x i. h x ((reverse-In x roots).0 i))
            (omega arith) in
        let (o, k) = a.topo rank falls ((λ y j. j), tt) (λ x i g j. absurd j) tt in
        let every : (x : ℕ) → In x all → In x v.postorder = λ x i.
          let (r, j, path) = cover x i in
          elim (a.settled x (Reach-In _ v a r x path (a.reached r ((reverse-In r roots).1 j)))) [
            | inl l ↦ absurd l
            | inr l ↦ l
          ] in
        (
          v,
          e,
          Ordered-reverse succ ins [] [] v.postorder (λ i m j. (edges i m).0 j) o
              (λ i m j l. inr (every m (within m i l))) (λ i j l. l),
          λ x i. (reverse-In x v.postorder).1 (every x i),
        )
