-- ===== src/Predicate/Canonical.antt =====
-- The canonical form that `Simplify` leaves, and what `IsFalse` says of it.
use autopiper.Prelude.{
  ℕ, zero, suc, ◌≡◌, refl, subst, Bool, true, false, List, [], ◌∷◌, ◌++◌, arith, ◌⊎◌, inl, inr, ◌↔◌,
  some, none, length, Option-cases, Bool-cases, All,
}
use autopiper.Predicate.{
  Factors, Term, Predicate, or_pairs, or_loop, or_with, simplify, new_terms, sort_terms,
  insert_sorted, factors_lt, is_false, is_empty, true_term, find, total_weight,
}
use autopiper.Predicate.Meaning.{Valuation, factors_hold, term_holds, terms_hold, holds}
use autopiper.Predicate.Order.{Ascending, find-AllAbove}
use autopiper.Predicate.Loop.{AllAscending, IsOrdered, or_with_total}

-- A term that says something and is not false.
abbrev IsProper : Term → Type 0
IsProper a = (a.falsified ≡ false) × (is_empty a.factors ≡ false)

-- The terms of constant true, or proper terms only.
abbrev pub AllSimplified : List Term → Type 0
AllSimplified ts = (ts ≡ true_term ∷ []) ⊎ All IsProper ts

abbrev pub IsSimplified : Predicate → Type 0
IsSimplified p = AllSimplified p.terms

-- The terms stand in the order of their maps.
abbrev IsBelow : Term → List Term → Type 0
IsBelow a [] = Unit
IsBelow a (b ∷ r) = factors_lt b.factors a.factors ≡ false

abbrev pub IsSorted : List Term → Type 0
IsSorted [] = Unit
IsSorted (a ∷ r) = IsBelow a r × IsSorted r

-- Canonical: simplified, and in order.
abbrev pub IsCanonical : Predicate → Type 0
IsCanonical p = IsSimplified p × IsSorted p.terms

factors_lt_asym : (xs ys : Factors) → factors_lt xs ys ≡ true → factors_lt ys xs ≡ false
unfolding factors_lt
factors_lt_asym [] [] e = refl
factors_lt_asym [] (y ∷ ys) e = refl
factors_lt_asym (x ∷ xs) [] e = absurd (cc e)
factors_lt_asym ((k, b) ∷ xs) ((j, c) ∷ ys) e = ground (arith, factors_lt_asym xs ys)

insert_sorted-IsBelow :
    (a b : Term) (r : List Term)
    → factors_lt a.factors b.factors ≡ false
    → IsBelow b r
    → IsBelow b (insert_sorted a r)
unfolding insert_sorted
insert_sorted-IsBelow a b [] h k = h
insert_sorted-IsBelow a b (c ∷ r) h k = elim (Bool-cases (factors_lt c.factors a.factors)) [
  | inl e ↦ rw (e, insert_sorted) k
  | inr e ↦ rw (e, insert_sorted) h
]

insert_sorted-IsSorted : (a : Term) (r : List Term) → IsSorted r → IsSorted (insert_sorted a r)
unfolding insert_sorted
insert_sorted-IsSorted a [] h = (tt, tt)
insert_sorted-IsSorted a (b ∷ r) (k, h) = elim (Bool-cases (factors_lt b.factors a.factors)) [
  | inl e ↦
      rw (e, insert_sorted)
        (
          insert_sorted-IsBelow a b r (factors_lt_asym b.factors a.factors e) k,
          insert_sorted-IsSorted a r h,
        )
  | inr e ↦ rw (e, insert_sorted) (e, (k, h))
]

sort_terms-IsSorted : (ts : List Term) → IsSorted (sort_terms ts)
unfolding sort_terms
sort_terms-IsSorted [] = tt
sort_terms-IsSorted (a ∷ r) = insert_sorted-IsSorted a (sort_terms r) (sort_terms-IsSorted r)

insert_sorted-IsProper :
    (a : Term) (ts : List Term) → IsProper a → All IsProper ts → All IsProper (insert_sorted a ts)
unfolding insert_sorted
insert_sorted-IsProper a [] h k = (h, tt)
insert_sorted-IsProper a (b ∷ r) h k = ground (arith, insert_sorted-IsProper a r)

sort_terms-IsProper : (ts : List Term) → All IsProper ts → All IsProper (sort_terms ts)
unfolding sort_terms
sort_terms-IsProper [] h = tt
sort_terms-IsProper (a ∷ r) h =
    insert_sorted-IsProper a (sort_terms r) h.0 (sort_terms-IsProper r h.1)

new_terms-IsProper : (ts l : List Term) → new_terms ts ≡ some l → All IsProper l
unfolding new_terms
new_terms-IsProper [] l e = let d : [] ≡ l = ground arith in rw (← d) tt
new_terms-IsProper (a ∷ r) l e = elim (Option-cases (new_terms r)) [
  | inl q ↦ absurd (ground arith)
  | inr (m, q) ↦
      let ih = new_terms-IsProper r m q in
      elim (Bool-cases a.falsified) [
        | inl f ↦ let d : m ≡ l = ground arith in subst (All IsProper) d ih
        | inr f ↦
            let d : a ∷ m ≡ l = ground arith in
            let n : is_empty a.factors ≡ false = ground arith in subst (All IsProper) d ((f, n), ih)
      ]
]

-- What `Simplify` leaves.
abbrev AllCanonical : List Term → Type 0
AllCanonical ts = AllSimplified ts × IsSorted ts

simplify-AllCanonical : (ts : List Term) → AllCanonical (simplify ts)
unfolding simplify
simplify-AllCanonical ts = elim (Option-cases (new_terms ts)) [
  | inl e ↦ rw (e, simplify) (inl refl, (tt, tt))
  | inr (l, e) ↦
      rw (e, simplify)
        (inr (sort_terms-IsProper l (new_terms-IsProper ts l e)), sort_terms-IsSorted l)
]

or_loop-AllCanonical : (fuel : ℕ) (ts l : List Term) → or_loop fuel ts ≡ some l → AllCanonical l
unfolding or_loop
or_loop-AllCanonical zero ts l e = absurd (cc)
or_loop-AllCanonical (suc fuel) ts l e =
    let p = or_pairs (length ts) ts in
    elim (Bool-cases p.1) [
      | inl c ↦ or_loop-AllCanonical fuel (simplify p.0) l (ground arith)
      | inr c ↦
          let d : simplify p.0 ≡ l = ground arith in
          subst AllCanonical d (simplify-AllCanonical p.0)
    ]

or_with-IsCanonical_lem : (p q r : Predicate) → or_with p q ≡ some r → IsCanonical r
unfolding or_with
or_with-IsCanonical_lem p q r e =
    let ts = p.terms ++ q.terms in
    elim (Option-cases (or_loop (suc (total_weight ts)) ts)) [
      | inl d ↦ absurd (ground arith)
      | inr (l, d) ↦
          let s : l ≡ r.terms = ground arith in
          subst AllCanonical s (or_loop-AllCanonical (suc (total_weight ts)) ts l d)
    ]

-- `OrWith` on predicates whose terms are ordered maps ends with a canonical predicate: constant true as
-- one empty term, or no term that is falsified or empty; the terms are in the order of `operator<`, and
-- are ordered maps again.
pub or_with-IsCanonical :
    (p q : Predicate)
    → IsOrdered p
    → IsOrdered q
    → (r : Predicate) × (or_with p q ≡ some r) × IsCanonical r × IsOrdered r
or_with-IsCanonical p q h k =
    let (r, e, o, _) = or_with_total p q h k in (r, e, or_with-IsCanonical_lem p q r e, o)

-- The valuation that makes a term's factors true.
satisfying : Factors → Valuation
satisfying fs k = elim (find k fs) [ none ↦ false | some b ↦ b ]

-- A valuation agrees with a map on every key of the map.
Agrees : Valuation → Factors → Type 0
Agrees v fs = (k : ℕ) (b : Bool) → find k fs ≡ some b → v k ≡ b

factors_hold-Agrees :
    (v : Valuation) (fs : Factors) → Ascending fs → Agrees v fs → factors_hold v fs ≡ true
unfolding factors_hold Agrees find
factors_hold-Agrees v [] h a = refl
factors_hold-Agrees v ((k, b) ∷ r) h a =
    let head : v k ≡ b = a k b (ground arith) in
    let rest = factors_hold-Agrees v r h.1 λ j c e. a j c (ground (arith, find-AllAbove k r h.0)) in
    ground arith

satisfying-Agrees : (fs : Factors) → Agrees (satisfying fs) fs
unfolding Agrees satisfying
satisfying-Agrees fs k b e = rw (e, satisfying) refl

-- A proper term is satisfiable.
term_holds-satisfying :
    (a : Term)
    → Ascending a.factors
    → a.falsified ≡ false
    → term_holds (satisfying a.factors) a ≡ true
unfolding term_holds
term_holds-satisfying a h f =
    ground
      (arith, factors_hold-Agrees (satisfying a.factors) a.factors h (satisfying-Agrees a.factors))

live_head : (a : Term) (r : List Term) → AllSimplified (a ∷ r) → a.falsified ≡ false
live_head a r (inl e) = cc
live_head a r (inr h) = h.0.0

satisfiable :
    (a : Term) (r : List Term)
    → Ascending a.factors
    → AllSimplified (a ∷ r)
    → terms_hold (satisfying a.factors) (a ∷ r) ≡ true
unfolding terms_hold
satisfiable a r h s = ground (arith, term_holds-satisfying a h (live_head a r s))

is_false_terms :
    (ts : List Term)
    → AllAscending ts
    → AllSimplified ts
    → (is_empty ts ≡ true) ↔ ((v : Valuation) → terms_hold v ts ≡ false)
unfolding terms_hold
is_false_terms [] h s = (λ e v. refl, λ e. refl)
is_false_terms (a ∷ r) h s = (λ e. cc, λ e. cc (e (satisfying a.factors), satisfiable a r h.0 s))

module _ (p : Predicate) (ordered : IsOrdered p) (simplified : IsSimplified p) where
  -- `IsFalse` is exact: for a predicate in canonical form whose terms are ordered maps, it returns true
  -- exactly if no valuation satisfies the predicate.
  pub is_false_iff : (is_false p ≡ true) ↔ ((v : Valuation) → holds v p ≡ false)
  unfolding is_false holds
  is_false_iff = is_false_terms p.terms ordered simplified
