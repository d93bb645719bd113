-- ===== src/Predicate/Merge.antt =====
-- `Term::OrWith` on two terms: the meaning of the pair, the order of the maps, and the weight.
use autopiper.Prelude.{
  ℕ, ◌+◌, ◌<◌, ◌≡◌, refl, ◌∙◌, ap, Bool, true, false, not, ◌||◌, [], ◌∷◌, arith, inl, inr, Option,
  some, none, Bool-cases,
}
use autopiper.Predicate.{
  merge_by, cancel, Factors, Term, differences, cancelled, or_term, weight, Merged,
}
use autopiper.Predicate.Meaning.{Valuation, factors_hold, term_holds}
use autopiper.Predicate.Order.{
  Ascending, Ascending-erase, factors_hold-differences, erase_left, erase_right,
}

-- What the cancelling branch knows of the factors on one side only.
cancelled-eq-some :
    (xs ys : Factors) (k : ℕ)
    → cancelled xs ys ≡ some k
    → (b : Bool) × (xs ≡ (k, b) ∷ []) × (ys ≡ (k, not b) ∷ [])
unfolding cancelled
cancelled-eq-some [] ys k h = cc
cancelled-eq-some (x ∷ []) [] k h = cc
cancelled-eq-some ((i, b) ∷ []) ((j, c) ∷ []) k h = (b, ground arith, ground arith)
cancelled-eq-some (x ∷ []) (y ∷ z ∷ ys) k h = cc
cancelled-eq-some (x ∷ w ∷ xs) ys k h = cc

-- A merge keeps the disjunction, keeps the maps in order, and is a change exactly if it lowers the
-- weight.
pub record Sound (v : Valuation) (a b : Term) (m : Merged) : Type 0 where
  pub meaning : (term_holds v m.this || term_holds v m.other) ≡ (term_holds v a || term_holds v b)
  pub order : Ascending m.this.factors × Ascending m.other.factors
  pub progress : m.changed ≡ true → weight m.this + weight m.other < weight a + weight b
  pub unchanged : m.changed ≡ false → (m.this ≡ a) × (m.other ≡ b)

module _ (v : Valuation) (a b : Term) (ha : Ascending a.factors) (hb : Ascending b.factors)
    (live_a : a.falsified ≡ false) (live_b : b.falsified ≡ false) where
  cancel-Sound :
      (o : Option ℕ)
      → ((k : ℕ)
          → o ≡ some k
          → (p : Bool) × (differences a.factors b.factors).0 ≡ (k, p) ∷ []
            × (differences a.factors b.factors).1 ≡ (k, not p) ∷ [])
      → Sound v a b (cancel o a b)
  unfolding cancel
  cancel-Sound none h = record {
    meaning = refl;
    order = (ha, hb);
    progress = λ e. cc;
    unchanged = λ e. (refl, refl);
  }
  cancel-Sound (some k) h =
      let (p, e, d) = h k refl in
      let l = erase_left v k p a.factors b.factors ha e in
      let r = erase_right v k (not p) a.factors b.factors hb d in
      let s = factors_hold-differences v a.factors b.factors in
      record {
        meaning = unfold term_holds factors_hold in ground arith;
        order = (Ascending-erase k a.factors ha, Ascending-erase k b.factors hb);
        progress = λ _. unfold weight in ground arith;
        unchanged = λ e. cc;
      }

  merge_by-Sound :
      (xs ys : Factors)
      → differences a.factors b.factors ≡ (xs, ys)
      → Sound v a b (merge_by xs ys a b)
  unfolding merge_by
  merge_by-Sound [] ys e =
      let s = factors_hold-differences v a.factors b.factors in
      record {
        meaning = unfold term_holds factors_hold in ground arith;
        order = (ha, tt);
        progress = λ _. unfold weight in ground arith;
        unchanged = λ e. cc;
      }
  merge_by-Sound (x ∷ xs) [] e =
      let s = factors_hold-differences v a.factors b.factors in
      record {
        meaning = unfold term_holds factors_hold in ground arith;
        order = (tt, hb);
        progress = λ _. unfold weight in ground arith;
        unchanged = λ e. cc;
      }
  merge_by-Sound (x ∷ xs) (y ∷ ys) e = cancel-Sound (cancelled (x ∷ xs) (y ∷ ys)) λ k h.
      let (p, l, r) = cancelled-eq-some (x ∷ xs) (y ∷ ys) k h in
      (p, ap (λ d. d.0) e ∙ l, ap (λ d. d.1) e ∙ r)

pub or_term-Sound :
    (v : Valuation) (a b : Term)
    → Ascending a.factors
    → Ascending b.factors
    → Sound v a b (or_term a b)
unfolding or_term
or_term-Sound v a b h k = elim (Bool-cases (a.falsified || b.falsified)) [
  | inl e ↦
      rw (e, or_term)
        (record {
          meaning = refl;
          order = (h, k);
          progress = λ x. cc;
          unchanged = λ x. (refl, refl);
        })
  | inr e ↦ rw (e, or_term) (merge_by-Sound v a b h k (ground arith) (ground arith) _ _ refl)
]
