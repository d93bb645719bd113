-- ===== src/Graph/Dominators/Rounds.antt =====
-- src/backend/domtree.h: a round of `Compute` ends, and parents come earlier in the order.
use autopiper.Prelude.{
  ℕ, zero, suc, ◌+◌, ◌<◌, ◌≤◌, ◌==◌, ◌≡◌, refl, sym, ◌∙◌, subst, inl, inr, Bool, List, [], ◌∷◌,
  Option, none, some, arith, All, length, ltb, Bool-cases, ◌||◌, not,
}
use autopiper.Graph.{Walk, rpo, rpo_num, index_from, preds_of}
use autopiper.Timing.{set}
use autopiper.Timing.Store.{set_same, set_other}
use autopiper.Graph.Dominators.{Parents, same_node, merge, pick, merge_preds, new_parent, refine}
use autopiper.Graph.Dominators.Merge.{
  Above, here, AboveOf, IsFalling, Above-num, later-num, merge-nearest,
}

index_from-below : (i n k : ℕ) (l : List ℕ) → index_from i n l ≡ some k → k < i + length l
unfolding index_from
index_from-below i n k [] e = absurd (cc e)
index_from-below i n k (m ∷ r) e = elim (Bool-cases (m == n)) [
  | inl f ↦ let q : some i ≡ some k = rw (f, index_from) at e in ground arith
  | inr f ↦ let l = index_from-below (i + 1) n k r (rw (f, index_from) at e) in omega arith
]

-- A node has a number.
abbrev pub Numbered : Walk → ℕ → Type 0
Numbered w n = (i : ℕ) × (rpo_num w n ≡ some i)

-- Null, or a node whose number is less.
abbrev Below : Walk → ℕ → Option ℕ → Type 0
Below w i none = Unit
Below w i (some z) = (k : ℕ) × (rpo_num w z ≡ some k) × (k < i)

module _ (w : Walk) where
  num-below : (n k : ℕ) → rpo_num w n ≡ some k → k < length (rpo w)
  unfolding rpo_num
  num-below n k e = let l = index_from-below 0 n k (rpo w) e in omega arith

  set-IsFalling :
      (up : Parents) (n i : ℕ) (o : Option ℕ)
      → IsFalling w up
      → rpo_num w n ≡ some i
      → Below w i o
      → IsFalling w (set n o up)
  set-IsFalling up n i o falls e b m p k f g = elim (Bool-cases (m == n)) [
    | inl q ↦
        let r : m ≡ n = ground arith in
        let s : o ≡ some p = sym (set_same n o up) ∙ subst (λ z. set n o up z ≡ some p) r f in
        let (j, t, l) = subst (Below w i) s b in
        let u : some i ≡ some k = sym e ∙ subst (λ z. rpo_num w z ≡ some k) r g in
        (j, t, ground arith)
    | inr q ↦
        let r : ¬ (m ≡ n) = λ z. ground arith in falls m p k (sym (set_other n m o up r) ∙ f) g
  ]

  pick-Below :
      (n i : ℕ) (l : List ℕ)
      → rpo_num w n ≡ some i
      → All (Numbered w) l
      → (o : Option ℕ) × (pick w n l ≡ some o) × Below w i o
  unfolding pick
  pick-Below n i [] e h = (none, refl, tt)
  pick-Below n i (p ∷ r) e ((k, f), h) =
      let t = later-num w n p i k e f in
      elim (Bool-cases (ltb k i)) [
        | inl g ↦ (some p, rw (pick, t, g), (k, f, ground arith))
        | inr g ↦ let (o, q, b) = pick-Below n i r e h in (o, rw (pick, t, g, q), b)
      ]

  Above-Below :
      (up : Parents) (o : Option ℕ) (x i k : ℕ)
      → IsFalling w up
      → rpo_num w x ≡ some i
      → i < k
      → ((d : ℕ) → AboveOf up d o → Above up d x)
      → Below w k o
  Above-Below up none x i k falls e l h = tt
  Above-Below up (some z) x i k falls e l h = elim (Above-num w up falls z x i (h z here) e) [
    | inl q ↦ (i, subst (λ n. rpo_num w n ≡ some i) (sym q) e, l)
    | inr (j, f, m) ↦ (j, f, omega arith)
  ]

  merge-Below :
      (up : Parents) (fuel x y i j k : ℕ)
      → IsFalling w up
      → length (rpo w) + length (rpo w) ≤ fuel
      → rpo_num w x ≡ some i
      → rpo_num w y ≡ some j
      → i < k
      → (o : Option ℕ) × (merge w up fuel (some x) (some y) ≡ some o) × Below w k o
  merge-Below up fuel x y i j k falls l e f m =
      let a = num-below x i e in
      let b = num-below y j f in
      let (o, q, (_, h)) = merge-nearest w up falls fuel x y i j e f (omega arith) in
      (o, q, Above-Below up o x i k falls e m (λ d t. (h d t).0))

  -- The merge of what may be null with a node.
  merge_one :
      (up : Parents) (fuel k p j : ℕ) (o : Option ℕ)
      → IsFalling w up
      → length (rpo w) + length (rpo w) ≤ fuel
      → rpo_num w p ≡ some j
      → Below w k o
      → (q : Option ℕ) × (merge w up fuel o (some p) ≡ some q) × Below w k q
  unfolding merge
  merge_one up zero k p j none falls l f b = let m = num-below p j f in absurd (omega arith)
  merge_one up (suc fuel) k p j none falls l f b = (none, refl, tt)
  merge_one up fuel k p j (some z) falls l f (i, e, m) = merge-Below up fuel z p i j k falls l e f m

  merge_preds-Below :
      (up : Parents) (fuel k : ℕ) (l : List ℕ) (o : Option ℕ)
      → IsFalling w up
      → length (rpo w) + length (rpo w) ≤ fuel
      → All (Numbered w) l
      → Below w k o
      → (q : Option ℕ) × (merge_preds w up fuel l o ≡ some q) × Below w k q
  unfolding merge_preds
  merge_preds-Below up fuel k [] o falls l h b = (o, refl, b)
  merge_preds-Below up fuel k (p ∷ r) o falls l ((j, f), h) b =
      elim (Bool-cases (same_node (some p) o)) [
        | inl g ↦
            let (q, e, c) = merge_preds-Below up fuel k r o falls l h b in
            (q, rw (merge_preds, g, e), c)
        | inr g ↦
            let (z, m, c) = merge_one up fuel k p j o falls l f b in
            let (q, e, d) = merge_preds-Below up fuel k r z falls l h c in
            (q, rw (merge_preds, g, m, e), d)
      ]

  -- The merge of all predecessors with the one that was picked.
  after_pick :
      (up : Parents) (fuel n i : ℕ) (o : Option ℕ)
      → IsFalling w up
      → length (rpo w) + length (rpo w) ≤ fuel
      → All (Numbered w) (preds_of n w.preds)
      → pick w n (preds_of n w.preds) ≡ some o
      → Below w i o
      → (q : Option ℕ) × (new_parent w up fuel n ≡ some q) × Below w i q
  unfolding new_parent
  after_pick up fuel n i none falls l h e b = (none, rw (new_parent, e), tt)
  after_pick up fuel n i (some p) falls l h e b =
      let (q, r, c) = merge_preds-Below up fuel i (preds_of n w.preds) (some p) falls l h b in
      (q, rw (new_parent, e, r), c)

  -- If the nodes of a list and their predecessors have numbers and every parent has a number that is
  -- less than its child's, a round over the list ends without an exception, with no less fuel for a
  -- merge than twice the number of nodes, and again every parent has a number that is less.
  pub refine-IsFalling :
      (fuel : ℕ) (l : List ℕ) (up : Parents) (changed : Bool)
      → IsFalling w up
      → length (rpo w) + length (rpo w) ≤ fuel
      → All (λ n. Numbered w n × All (Numbered w) (preds_of n w.preds)) l
      → (v : Parents) × (c : Bool) × (refine w fuel l up changed ≡ some (v, c)) × IsFalling w v
  unfolding refine
  refine-IsFalling fuel [] up changed falls l h = (up, changed, refl, falls)
  refine-IsFalling fuel (n ∷ r) up changed falls l (((i, e), p), h) =
      let (x, a, d) = pick-Below n i (preds_of n w.preds) e p in
      let (o, q, b) = after_pick up fuel n i x falls l p a d in
      let (v, c, f, g) =
        refine-IsFalling fuel r (set n o up) (changed || not (same_node o (up n)))
          (set-IsFalling up n i o falls e b) l h in
      (v, c, rw (refine, q, f), g)
