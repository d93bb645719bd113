-- ===== src/Predicate/Conjunction.antt =====
-- `Predicate::AndWith` on a predicate: the order of the maps is kept, the loop ends, and the result
-- is the conjunction.
use autopiper.Prelude.{
  ℕ, ◌≡◌, refl, ◌∙◌, Bool, true, false, ◌&&◌, ◌||◌, List, [], ◌∷◌, map, arith, inl, inr, some,
  Bool-cases, All,
}
use autopiper.Predicate.{
  is_empty, Factors, Term, Predicate, or_all, and_with, is_false, and_with_term, and_with_factor,
  false_predicate, and_factor, and_factors, and_term,
}
use autopiper.Predicate.Meaning.{Valuation, terms_hold, holds, holds-and_with_term}
use autopiper.Predicate.Order.{Ascending, Ascending-assign}
use autopiper.Predicate.Loop.{AllAscending, AllAscending-simplify, IsOrdered, or_with_total}

Ascending-and_factor :
    (t : ℕ) (b : Bool) (a : Term) → Ascending a.factors → Ascending (and_factor t b a).factors
unfolding and_factor
Ascending-and_factor t b a h = ground (arith, Ascending-assign t b a.factors)

Ascending-and_factors :
    (fs : Factors) (a : Term) → Ascending a.factors → Ascending (and_factors fs a).factors
unfolding and_factors
Ascending-and_factors [] a h = h
Ascending-and_factors ((t, b) ∷ r) a h =
    Ascending-and_factors r (and_factor t b a) (Ascending-and_factor t b a h)

Ascending-and_term : (o a : Term) → Ascending a.factors → Ascending (and_term o a).factors
unfolding and_term
Ascending-and_term o a h = ground (arith, Ascending-and_factors o.factors a)

AllAscending-map :
    (f : Term → Term) (ts : List Term)
    → ((a : Term) → Ascending a.factors → Ascending (f a).factors)
    → AllAscending ts
    → AllAscending (map f ts)
AllAscending-map f [] k h = tt
AllAscending-map f (a ∷ r) k h = (k a h.0, AllAscending-map f r k h.1)

-- `AndWith` on a factor keeps the maps in order.
pub and_with_factor-IsOrdered :
    (t : ℕ) (b : Bool) (p : Predicate) → IsOrdered p → IsOrdered (and_with_factor t b p)
unfolding and_with_factor
and_with_factor-IsOrdered t b p h =
    AllAscending-simplify (map (and_factor t b) p.terms)
      (AllAscending-map (and_factor t b) p.terms (Ascending-and_factor t b) h)

and_with_term-IsOrdered : (o : Term) (p : Predicate) → IsOrdered p → IsOrdered (and_with_term o p)
unfolding and_with_term
and_with_term-IsOrdered o p h = elim (Bool-cases o.falsified) [
  | inl e ↦ simp (e, and_with_term) tt
  | inr e ↦
      simp (e, and_with_term)
        (AllAscending-simplify (map (and_term o) p.terms)
          (AllAscending-map (and_term o) p.terms (Ascending-and_term o) h))
]

-- Some predicate of the list holds.
any_holds : Valuation → List Predicate → Bool
any_holds v [] = false
any_holds v (p ∷ r) = holds v p || any_holds v r

or_all_total :
    (p : Predicate) (qs : List Predicate)
    → IsOrdered p
    → All IsOrdered qs
    → (r : Predicate) × (or_all p qs ≡ some r)
      × IsOrdered r
      × ((v : Valuation) → holds v r ≡ (holds v p || any_holds v qs))
unfolding or_all any_holds
or_all_total p [] h k = (p, refl, h, λ v. ground arith)
or_all_total p (q ∷ qs) h k =
    let (s, run, order, mean) = or_with_total p q h k.0 in
    let (r, runs, orders, means) = or_all_total s qs order k.1 in
    (r, rw (run, or_all) runs, orders, λ v. ground (arith, mean v, means v))

intermediates-IsOrdered :
    (p : Predicate) (ts : List Term) → IsOrdered p → All IsOrdered (map (λ t. and_with_term t p) ts)
intermediates-IsOrdered p [] h = tt
intermediates-IsOrdered p (t ∷ ts) h =
    (and_with_term-IsOrdered t p h, intermediates-IsOrdered p ts h)

any_holds-intermediates :
    (v : Valuation) (p : Predicate) (ts : List Term)
    → any_holds v (map (λ t. and_with_term t p) ts) ≡ (holds v p && terms_hold v ts)
unfolding any_holds terms_hold
any_holds-intermediates v p [] = ground arith
any_holds-intermediates v p (t ∷ ts) =
    ground (arith, any_holds-intermediates v p ts, holds-and_with_term v t p)

-- If the terms of the first predicate are ordered maps, `AndWith` on any second predicate ends within
-- its fuel with ordered maps, and under every valuation its result has the value of the conjunction.
pub and_with_total :
    (p q : Predicate)
    → IsOrdered p
    → (r : Predicate) × (and_with p q ≡ some r)
      × IsOrdered r
      × ((v : Valuation) → holds v r ≡ (holds v p && holds v q))
unfolding and_with any_holds holds terms_hold is_false
and_with_total p q h = elim (Bool-cases (is_false q)) [
  | inl e ↦ (false_predicate, rw (e, and_with) refl, tt, λ v. rest v q.terms e)
  | inr e ↦
      let (r, run, order, mean) =
        or_all_total false_predicate (map (λ t. and_with_term t p) q.terms) tt
          (intermediates-IsOrdered p q.terms h) in
      (r, rw (e, and_with) run, order, λ v. mean v ∙ any_holds-intermediates v p q.terms)
]
  where
    rest :
        (v : Valuation) (ts : List Term)
        → is_empty ts ≡ true
        → false ≡ (terms_hold v p.terms && terms_hold v ts)
    rest v [] e = ground arith
    rest v (t ∷ ts) e = cc
