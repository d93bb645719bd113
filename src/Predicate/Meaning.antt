-- ===== src/Predicate/Meaning.antt =====
-- The meaning of a predicate under an assignment of truth values to keys, and what AND-ing does to
-- it.
use autopiper.Prelude.{
  ℕ, ◌≡◌, refl, ◌∙◌, Bool, true, false, not, ◌&&◌, ◌||◌, List, [], ◌∷◌, map, arith, bool_eq, ◌⊎◌,
  inl, inr, some, none, Option-cases, Bool-cases,
}
use autopiper.Predicate.{
  Factors, Term, Predicate, find, assign, and_factor, and_factors, and_term, new_terms,
  insert_sorted, sort_terms, simplify, and_with_factor, and_with_term,
}

-- Which keys hold.
abbrev pub Valuation : Type 0
Valuation = ℕ → Bool

unfoldable pub factors_hold : Valuation → Factors → Bool
factors_hold v [] = true
factors_hold v ((k, b) ∷ r) = bool_eq (v k) b && factors_hold v r

unfoldable pub term_holds : Valuation → Term → Bool
term_holds v a = not a.falsified && factors_hold v a.factors

unfoldable pub terms_hold : Valuation → List Term → Bool
terms_hold v [] = false
terms_hold v (a ∷ r) = term_holds v a || terms_hold v r

-- The truth value of a predicate.
unfoldable pub holds : Valuation → Predicate → Bool
holds v p = terms_hold v p.terms

module _ (v : Valuation) where
  factors_hold-assign :
      (t : ℕ) (p : Bool) (fs : Factors)
      → (find t fs ≡ none) ⊎ (find t fs ≡ some p)
      → factors_hold v (assign t p fs) ≡ (factors_hold v fs && bool_eq (v t) p)
  unfolding factors_hold assign find
  factors_hold-assign t p [] h = ground arith
  factors_hold-assign t p ((k, b) ∷ r) h = ground (arith, factors_hold-assign t p r)

  factors_hold-find :
      (t : ℕ) (p : Bool) (fs : Factors)
      → find t fs ≡ some (not p)
      → (factors_hold v fs && bool_eq (v t) p) ≡ false
  unfolding factors_hold find
  factors_hold-find t p [] h = ground arith
  factors_hold-find t p ((k, b) ∷ r) h = ground (arith, factors_hold-find t p r)

  pub term_holds-and_factor :
      (t : ℕ) (p : Bool) (a : Term)
      → term_holds v (and_factor t p a) ≡ (term_holds v a && bool_eq (v t) p)
  unfolding term_holds and_factor
  term_holds-and_factor t p a =
      ground (arith, factors_hold-assign t p a.factors, factors_hold-find t p a.factors)

  term_holds-and_factors :
      (fs : Factors) (a : Term)
      → term_holds v (and_factors fs a) ≡ (term_holds v a && factors_hold v fs)
  unfolding and_factors factors_hold
  term_holds-and_factors [] a = ground arith
  term_holds-and_factors ((t, p) ∷ r) a =
      ground (arith, term_holds-and_factors r (and_factor t p a), term_holds-and_factor t p a)

  pub term_holds-and_term :
      (o a : Term)
      → o.falsified ≡ false
      → term_holds v (and_term o a) ≡ (term_holds v a && term_holds v o)
  unfolding and_term term_holds
  term_holds-and_term o a h = ground (arith, term_holds-and_factors o.factors a)

  terms_hold-insert_sorted :
      (a : Term) (ts : List Term)
      → terms_hold v (insert_sorted a ts) ≡ (term_holds v a || terms_hold v ts)
  unfolding insert_sorted terms_hold
  terms_hold-insert_sorted a [] = refl
  terms_hold-insert_sorted a (b ∷ r) = ground (arith, terms_hold-insert_sorted a r)

  terms_hold-sort_terms : (ts : List Term) → terms_hold v (sort_terms ts) ≡ terms_hold v ts
  unfolding sort_terms terms_hold
  terms_hold-sort_terms [] = refl
  terms_hold-sort_terms (a ∷ r) =
      ground (arith, terms_hold-insert_sorted a (sort_terms r), terms_hold-sort_terms r)

  terms_hold-new_terms-none : (ts : List Term) → new_terms ts ≡ none → terms_hold v ts ≡ true
  unfolding new_terms terms_hold term_holds factors_hold
  terms_hold-new_terms-none [] h = ground arith
  terms_hold-new_terms-none (a ∷ r) h = ground (arith, terms_hold-new_terms-none r)

  terms_hold-new_terms-some :
      (ts l : List Term) → new_terms ts ≡ some l → terms_hold v ts ≡ terms_hold v l
  unfolding new_terms terms_hold term_holds
  terms_hold-new_terms-some [] l h = ground arith
  terms_hold-new_terms-some (a ∷ r) l h = elim (Option-cases (new_terms r)) [
    | inl e ↦ ground arith
    | inr (m, e) ↦ ground (arith, terms_hold-new_terms-some r m)
  ]

  -- Simplification keeps the meaning.
  pub terms_hold-simplify : (ts : List Term) → terms_hold v (simplify ts) ≡ terms_hold v ts
  unfolding simplify terms_hold term_holds factors_hold
  terms_hold-simplify ts = elim (Option-cases (new_terms ts)) [
    | inl e ↦ ground (arith, terms_hold-new_terms-none ts)
    | inr (l, e) ↦ ground (arith, terms_hold-new_terms-some ts l, terms_hold-sort_terms l)
  ]

  terms_hold-map-and_factor :
      (t : ℕ) (b : Bool) (ts : List Term)
      → terms_hold v (map (and_factor t b) ts) ≡ (terms_hold v ts && bool_eq (v t) b)
  unfolding terms_hold
  terms_hold-map-and_factor t b [] = refl
  terms_hold-map-and_factor t b (a ∷ r) =
      ground (arith, terms_hold-map-and_factor t b r, term_holds-and_factor t b a)

  terms_hold-map-and_term :
      (o : Term) (ts : List Term)
      → o.falsified ≡ false
      → terms_hold v (map (and_term o) ts) ≡ (terms_hold v ts && term_holds v o)
  unfolding terms_hold
  terms_hold-map-and_term o [] h = refl
  terms_hold-map-and_term o (a ∷ r) h =
      ground (arith, terms_hold-map-and_term o r h, term_holds-and_term o a h)

-- Under every valuation, `AndWith` on a key and a polarity gives the conjunction of the predicate, which
-- may be any, with the key having that polarity.
pub holds-and_with_factor :
    (v : Valuation) (t : ℕ) (b : Bool) (p : Predicate)
    → holds v (and_with_factor t b p) ≡ (holds v p && bool_eq (v t) b)
unfolding holds and_with_factor
holds-and_with_factor v t b p =
    terms_hold-simplify v (map (and_factor t b) p.terms) ∙ terms_hold-map-and_factor v t b p.terms

-- `AndWith` on a term gives the conjunction with that term, falsified or not.
pub holds-and_with_term :
    (v : Valuation) (o : Term) (p : Predicate)
    → holds v (and_with_term o p) ≡ (holds v p && term_holds v o)
unfolding holds and_with_term
holds-and_with_term v o p = elim (Bool-cases o.falsified) [
  | inl e ↦ unfold term_holds terms_hold in ground arith
  | inr e ↦
      ground (
        arith,
        terms_hold-simplify v (map (and_term o) p.terms),
        terms_hold-map-and_term v o p.terms,
      )
]
