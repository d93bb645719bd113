-- ===== src/Predicate/Examples.antt =====
-- src/backend/predicate.h: runs of the predicate operations, and the theorems at concrete inputs.
use autopiper.Prelude.{
  ℕ, ◌≡◌, refl, Bool, true, false, ◌&&◌, ◌||◌, List, [], ◌∷◌, some, inr, arith, ◌↔◌, bool_eq, ◌==◌,
}
use autopiper.Predicate.{
  Predicate, or_with, and_with, and_with_factor, is_false, or_loop, or_pairs, or_row, or_term,
  merge_by, differences, side, cancelled, simplify, new_terms, sort_terms, insert_sorted,
  total_weight, weight, erase, factors_lt,
}
use autopiper.Predicate.Meaning.{Valuation, holds, holds-and_with_factor}
use autopiper.Predicate.Loop.{IsOrdered, or_with_total}
use autopiper.Predicate.Conjunction.{and_with_total}
use autopiper.Predicate.Canonical.{IsSimplified, or_with-IsCanonical, IsCanonical, is_false_iff}

abbrev conjunction : List (ℕ × Bool) → Predicate
conjunction fs = record {
  terms = record { factors = fs; falsified = false } ∷ [];
  backedge = false;
}

-- A & B & C, A & ~B & C.
abbrev upper : Predicate
upper = conjunction ((1, true) ∷ (2, true) ∷ (3, true) ∷ [])

abbrev lower : Predicate
lower = conjunction ((1, true) ∷ (2, false) ∷ (3, true) ∷ [])

-- A & C.
abbrev joined : Predicate
joined = conjunction ((1, true) ∷ (3, true) ∷ [])

or_with_runs : or_with upper lower ≡ some joined
unfolding or_with or_loop or_pairs or_row or_term merge_by differences side cancelled simplify
    new_terms sort_terms insert_sorted total_weight weight erase factors_lt
or_with_runs = refl

or_with_total_example :
    (r : Predicate) × (or_with upper lower ≡ some r)
    × IsOrdered r
    × ((v : Valuation) → holds v r ≡ (holds v upper || holds v lower))
or_with_total_example = or_with_total upper lower (omega arith) (omega arith)

and_with_total_example :
    (r : Predicate) × (and_with upper lower ≡ some r)
    × IsOrdered r
    × ((v : Valuation) → holds v r ≡ (holds v upper && holds v lower))
and_with_total_example = and_with_total upper lower (omega arith)

holds-and_with_factor_example :
    holds (λ k. k == 1) (and_with_factor 4 false upper)
    ≡ (holds (λ k. k == 1) upper && bool_eq false false)
holds-and_with_factor_example = holds-and_with_factor (λ k. k == 1) 4 false upper

or_with-IsCanonical_example :
    (r : Predicate) × (or_with upper lower ≡ some r) × IsCanonical r × IsOrdered r
or_with-IsCanonical_example = or_with-IsCanonical upper lower (omega arith) (omega arith)

joined-IsSimplified : IsSimplified joined
joined-IsSimplified = inr ((refl, refl), tt)

is_false_iff_example : (is_false joined ≡ true) ↔ ((v : Valuation) → holds v joined ≡ false)
is_false_iff_example = is_false_iff joined (omega arith) joined-IsSimplified
