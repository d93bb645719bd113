-- ===== src/Graph/Dominators/Merge.antt =====
-- src/backend/domtree.h: the nearest common ancestor that `Merge` finds, and `Dom`.
use autopiper.Prelude.{
  ℕ, zero, suc, ◌+◌, ◌<◌, ◌==◌, ◌≡◌, refl, sym, ◌∙◌, ap, subst, ◌⊎◌, inl, inr, ◌↔◌, Bool, true,
  false, Option, none, some, arith, Bool-cases, Option-cases, ltb,
}
use autopiper.Graph.{Walk, rpo_num}
use autopiper.Graph.Dominators.{Parents, later, merge, dom}

-- The ancestors of a node, itself included.
pub data Above (up : Parents) (d : ℕ) : ℕ → Type 0 where
  here : Above up d d
  higher : (n p : ℕ) → up n ≡ some p → Above up d p → Above up d n

-- An ancestor of what may be null.
abbrev pub AboveOf : Parents → ℕ → Option ℕ → Type 0
AboveOf up d none = ⊥
AboveOf up d (some n) = Above up d n

-- A parent has a number that is less.
abbrev pub IsFalling : Walk → Parents → Type 0
IsFalling w up =
    (n p i : ℕ) → up n ≡ some p → rpo_num w n ≡ some i → (j : ℕ) × (rpo_num w p ≡ some j) × (j < i)

AboveOf-up : (up : Parents) (d n : ℕ) → AboveOf up d (up n) → Above up d n
AboveOf-up up d n h = elim (Option-cases (up n)) [
  | inl e ↦ absurd (subst (AboveOf up d) e h)
  | inr (p, e) ↦ higher n p e (subst (AboveOf up d) e h)
]

-- An ancestor is the node or one of its parent.
Above-cases : (up : Parents) (d n : ℕ) → Above up d n → (d ≡ n) ⊎ AboveOf up d (up n)
Above-cases up d n here = inl refl
Above-cases up d n (higher _ p e h) = inr (subst (AboveOf up d) (sym e) h)

pub later-num :
    (w : Walk) (x y i j : ℕ)
    → rpo_num w x ≡ some i
    → rpo_num w y ≡ some j
    → later w x y ≡ some (ltb j i)
unfolding later
later-num w x y i j e f = rw (later, e, f)

module _ (w : Walk) (up : Parents) (falls : IsFalling w up) where
  pub Above-num :
      (d n i : ℕ)
      → Above up d n
      → rpo_num w n ≡ some i
      → (d ≡ n) ⊎ ((j : ℕ) × (rpo_num w d ≡ some j) × (j < i))
  Above-num d n i here e = inl refl
  Above-num d n i (higher _ p f h) e =
      let (j, q, l) = falls n p i f e in
      elim (Above-num d p j h q) [
        | inl r ↦ inr (j, subst (λ x. rpo_num w x ≡ some j) (sym r) q, l)
        | inr (k, r, m) ↦ inr (k, r, omega arith)
      ]

  -- Of two nodes, an ancestor of the other is not the one with the number that is not less.
  Above-up :
      (d x y i j : ℕ)
      → rpo_num w x ≡ some i
      → rpo_num w y ≡ some j
      → ¬ (j < i)
      → ¬ (x ≡ y)
      → Above up d x
      → Above up d y
      → AboveOf up d (up y)
  Above-up d x y i j e f l q g h = elim (Above-cases up d y h) [
    | inr k ↦ k
    | inl r ↦ elim (Above-num d x i g e) [
      | inl s ↦ absurd (q (sym s ∙ r))
      | inr (k, t, m) ↦
          let s : some k ≡ some j = sym t ∙ subst (λ z. rpo_num w z ≡ some j) (sym r) f in
          absurd (ground arith)
    ]
  ]

  abbrev Nearest : ℕ → ℕ → Option ℕ → Type 0
  Nearest x y o =
      ((d : ℕ) → Above up d x → Above up d y → AboveOf up d o)
      × ((d : ℕ) → AboveOf up d o → Above up d x × Above up d y)

  Nearest-up :
      (x y i j : ℕ) (o : Option ℕ)
      → rpo_num w x ≡ some i
      → rpo_num w y ≡ some j
      → ¬ (j < i)
      → ¬ (x ≡ y)
      → ((d : ℕ) → Above up d x → AboveOf up d (up y) → AboveOf up d o)
      → ((d : ℕ) → AboveOf up d o → Above up d x × AboveOf up d (up y))
      → Nearest x y o
  Nearest-up x y i j o e f l q g h = (
    λ d a b. g d a (Above-up d x y i j e f l q a b),
    λ d k. let (a, b) = h d k in (a, AboveOf-up up d y b),
  )

  Nearest-swap : (x y : ℕ) (o : Option ℕ) → Nearest x y o → Nearest y x o
  Nearest-swap x y o (g, h) = (λ d a b. g d b a, λ d k. let (a, b) = h d k in (b, a))

  -- What `Merge` finds of two nodes that may be null.
  abbrev Finds : ℕ → Option ℕ → Option ℕ → Type 0
  Finds fuel x y =
      (o : Option ℕ) × (merge w up fuel x y ≡ some o)
      × (((d : ℕ) → AboveOf up d x → AboveOf up d y → AboveOf up d o)
          × ((d : ℕ) → AboveOf up d o → AboveOf up d x × AboveOf up d y))

  -- The step to the first node's parent, from what is found for a parent.
  after_left :
      (fuel x y i : ℕ)
      → 0 < fuel
      → rpo_num w x ≡ some i
      → ((p k : ℕ) → rpo_num w p ≡ some k → k < i → Finds fuel (some p) (some y))
      → Finds fuel (up x) (some y)
  unfolding merge
  after_left zero x y i l e h = absurd (omega arith)
  after_left (suc fuel) x y i l e h = elim (Option-cases (up x)) [
    | inl q ↦
        subst (λ z. Finds (suc fuel) z (some y)) (sym q) (none, refl, (λ d a b. a, λ d a. absurd a))
    | inr (p, q) ↦
        let (k, r, m) = falls x p i q e in
        subst (λ z. Finds (suc fuel) z (some y)) (sym q) (h p k r m)
  ]

  -- The step to the second node's parent.
  after_right :
      (fuel x y j : ℕ)
      → 0 < fuel
      → rpo_num w y ≡ some j
      → ((p k : ℕ) → rpo_num w p ≡ some k → k < j → Finds fuel (some x) (some p))
      → Finds fuel (some x) (up y)
  unfolding merge
  after_right zero x y j l f h = absurd (omega arith)
  after_right (suc fuel) x y j l f h = elim (Option-cases (up y)) [
    | inl q ↦
        subst (λ z. Finds (suc fuel) (some x) z) (sym q) (none, refl, (λ d a b. b, λ d a. absurd a))
    | inr (p, q) ↦
        let (k, r, m) = falls y p j q f in
        subst (λ z. Finds (suc fuel) (some x) z) (sym q) (h p k r m)
  ]

  -- When every parent has a number that is less, `Merge` of two numbered nodes ends, with more fuel than
  -- the sum of their numbers and one, and gives null if they have no common ancestor, or else the node
  -- whose ancestors are exactly their common ancestors.
  pub merge-nearest :
      (fuel x y i j : ℕ)
      → rpo_num w x ≡ some i
      → rpo_num w y ≡ some j
      → i + j + 1 < fuel
      → (o : Option ℕ) × (merge w up fuel (some x) (some y) ≡ some o)
        × (((d : ℕ) → Above up d x → Above up d y → AboveOf up d o)
            × ((d : ℕ) → AboveOf up d o → Above up d x × Above up d y))
  unfolding merge
  merge-nearest zero x y i j e f l = absurd (omega arith)
  merge-nearest (suc fuel) x y i j e f l = elim (Bool-cases (x == y)) [
    | inl g ↦
        let q : x ≡ y = ground arith in
        (some x, rw (merge, g), (λ d a b. a, λ d a. (a, subst (Above up d) q a)))
    | inr g ↦
        let q : ¬ (x ≡ y) = λ p. ground arith in
        let r : ¬ (y ≡ x) = λ p. q (sym p) in
        elim (Bool-cases (ltb j i)) [
          | inl h ↦
              let t : later w x y ≡ some true = later-num w x y i j e f ∙ ap some h in
              let (o, m, n) =
                after_left fuel x y i (omega arith) e
                  (λ p k a b. merge-nearest fuel p y k j a f (ground arith)) in
              (
                o,
                rw (merge, g, t, m),
                Nearest-swap y x o (
                    Nearest-up y x j i o f e (ground arith) r (λ d a b. n.0 d b a)
                      (λ d a. let (b, c) = n.1 d a in (c, b))),
              )
          | inr h ↦
              let t : later w x y ≡ some false = later-num w x y i j e f ∙ ap some h in
              let (o, m, n) =
                after_right fuel x y j (omega arith) f
                  (λ p k a b. merge-nearest fuel x p i k e a (ground arith)) in
              (o, rw (merge, g, t, m), Nearest-up x y i j o e f (ground arith) q n.0 n.1)
        ]
  ]

  -- When every parent has a number that is less, `Dom` of a numbered node ends, with more fuel than its
  -- number, and says whether the other node is one of its ancestors.
  pub dom-Above :
      (fuel p n i : ℕ)
      → rpo_num w n ≡ some i
      → i < fuel
      → (b : Bool) × (dom up fuel p n ≡ some b) × ((b ≡ true) ↔ Above up p n)
  unfolding dom
  dom-Above zero p n i e l = absurd (omega arith)
  dom-Above (suc fuel) p n i e l = elim (Bool-cases (n == p)) [
    | inl f ↦
        let q : n ≡ p = ground arith in
        (true, rw (dom, f), (λ t. subst (Above up p) (sym q) here, λ h. refl))
    | inr f ↦
        let q : ¬ (p ≡ n) = λ z. ground arith in
        let only : Above up p n → AboveOf up p (up n) =
          λ h. elim (Above-cases up p n h) [ inl z ↦ absurd (q z) | inr k ↦ k ] in
        elim (Option-cases (up n)) [
          | inl g ↦ (
            false,
            rw (dom, f, g),
            (λ t. absurd (cc t), λ h. absurd (subst (AboveOf up p) g (only h))),
          )
          | inr (m, g) ↦
              let (k, r, s) = falls n m i g e in
              let (b, t, (c, d)) = dom-Above fuel p m k r (omega arith) in
              (
                b,
                rw (dom, f, g, t),
                (λ z. higher n m g (c z), λ h. d (subst (AboveOf up p) g (only h))),
              )
        ]
  ]
