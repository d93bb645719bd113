-- ===== src/Predicate/Loop.antt =====
-- The loops of `Predicate::OrWith`: every round keeps the meaning, and the weight bounds the rounds.
use autopiper.Prelude.{
  ℕ, zero, suc, ◌+◌, ◌<◌, ◌≤◌, ◌≡◌, refl, ◌∙◌, Bool, true, false, ◌||◌, List, [], ◌∷◌, ◌++◌, arith,
  inl, inr, some, none, length, Option-cases, Bool-cases, All, All-append,
}
use autopiper.Predicate.{
  Term, Predicate, or_term, weight, total_weight, or_row, or_pairs, or_loop, or_with, simplify,
  new_terms, sort_terms, insert_sorted,
}
use autopiper.Predicate.Meaning.{Valuation, terms_hold, holds, terms_hold-simplify}
use autopiper.Predicate.Order.{Ascending}
use autopiper.Predicate.Merge.{or_term-Sound}

-- Every term's map is in order.
abbrev pub AllAscending : List Term → Type 0
AllAscending = All (λ a. Ascending a.factors)

-- What a round of updates of the terms keeps.
pub record Kept (v : Valuation) (ts us : List Term) (changed : Bool) : Type 0 where
  pub meaning : terms_hold v us ≡ terms_hold v ts
  pub order : AllAscending us
  pub progress : changed ≡ true → total_weight us < total_weight ts
  pub unchanged : changed ≡ false → us ≡ ts

or_row-Kept :
    (v : Valuation) (a : Term) (r : List Term)
    → Ascending a.factors
    → AllAscending r
    → Kept v (a ∷ r) ((or_row a r).0 ∷ (or_row a r).1) (or_row a r).2
unfolding or_row terms_hold total_weight
or_row-Kept v a [] h k = record {
  meaning = refl;
  order = (h, tt);
  progress = λ e. cc;
  unchanged = λ e. refl;
}
or_row-Kept v a (b ∷ r) h k =
    let m = or_term-Sound v a b h k.0 in
    let ih = or_row-Kept v (or_term a b).this r m.order.0 k.1 in
    record {
      meaning = ground (arith, m.meaning, ih.meaning);
      order = (ih.order.0, (m.order.1, ih.order.1));
      progress = λ e. ground (arith, m.progress, m.unchanged, ih.progress, ih.unchanged);
      unchanged = λ e. ground (arith, m.unchanged, ih.unchanged);
    }

or_pairs-Kept :
    (v : Valuation) (n : ℕ) (ts : List Term)
    → AllAscending ts
    → Kept v ts (or_pairs n ts).0 (or_pairs n ts).1
unfolding or_pairs terms_hold total_weight
or_pairs-Kept v zero ts h = record {
  meaning = refl;
  order = h;
  progress = λ e. cc;
  unchanged = λ e. refl;
}
or_pairs-Kept v (suc n) [] h = record {
  meaning = refl;
  order = h;
  progress = λ e. cc;
  unchanged = λ e. refl;
}
or_pairs-Kept v (suc n) (a ∷ r) h =
    let row = or_row-Kept v a r h.0 h.1 in
    let ih = or_pairs-Kept v n (or_row a r).1 row.order.1 in
    record {
      meaning = ground (arith, row.meaning, ih.meaning);
      order = (row.order.0, ih.order);
      progress = λ e. ground (arith, row.progress, row.unchanged, ih.progress, ih.unchanged);
      unchanged = λ e. ground (arith, row.unchanged, ih.unchanged);
    }

AllAscending-insert_sorted :
    (a : Term) (ts : List Term)
    → Ascending a.factors
    → AllAscending ts
    → AllAscending (insert_sorted a ts)
unfolding insert_sorted
AllAscending-insert_sorted a [] h k = (h, tt)
AllAscending-insert_sorted a (b ∷ r) h k = ground (arith, AllAscending-insert_sorted a r)

AllAscending-sort_terms : (ts : List Term) → AllAscending ts → AllAscending (sort_terms ts)
unfolding sort_terms
AllAscending-sort_terms [] h = tt
AllAscending-sort_terms (a ∷ r) h =
    AllAscending-insert_sorted a (sort_terms r) h.0 (AllAscending-sort_terms r h.1)

total_weight-insert_sorted :
    (a : Term) (ts : List Term) → total_weight (insert_sorted a ts) ≡ weight a + total_weight ts
unfolding insert_sorted total_weight
total_weight-insert_sorted a [] = refl
total_weight-insert_sorted a (b ∷ r) = ground (arith, total_weight-insert_sorted a r)

total_weight-sort_terms : (ts : List Term) → total_weight (sort_terms ts) ≡ total_weight ts
unfolding sort_terms total_weight
total_weight-sort_terms [] = refl
total_weight-sort_terms (a ∷ r) =
    ground (arith, total_weight-insert_sorted a (sort_terms r), total_weight-sort_terms r)

new_terms-none : (ts : List Term) → new_terms ts ≡ none → 1 ≤ total_weight ts
unfolding new_terms total_weight weight
new_terms-none [] h = cc
new_terms-none (a ∷ r) h = ground (arith, new_terms-none r)

new_terms-some :
    (ts l : List Term)
    → new_terms ts ≡ some l
    → AllAscending ts
    → AllAscending l × (total_weight l ≤ total_weight ts)
unfolding new_terms total_weight weight
new_terms-some [] l e h = ground arith
new_terms-some (a ∷ r) l e h = elim (Option-cases (new_terms r)) [
  | inl q ↦ ground arith
  | inr (m, q) ↦ elim (Bool-cases a.falsified) [
    | inl f ↦ ground (arith, new_terms-some r m q h.1)
    | inr f ↦
        let ih = new_terms-some r m q h.1 in
        let d : a ∷ m ≡ l = ground arith in rw (← d) ((h.0, ih.0), ground arith)
  ]
]

pub AllAscending-simplify : (ts : List Term) → AllAscending ts → AllAscending (simplify ts)
unfolding simplify
AllAscending-simplify ts h = elim (Option-cases (new_terms ts)) [
  | inl e ↦ rw (e, simplify) (tt, tt)
  | inr (l, e) ↦ rw (e, simplify) (AllAscending-sort_terms l (new_terms-some ts l e h).0)
]

total_weight-simplify-le :
    (ts : List Term) → AllAscending ts → total_weight (simplify ts) ≤ total_weight ts
unfolding simplify
total_weight-simplify-le ts h = elim (Option-cases (new_terms ts)) [
  | inl e ↦ unfold total_weight weight in ground (arith, new_terms-none ts)
  | inr (l, e) ↦ ground (arith, new_terms-some ts l, total_weight-sort_terms l)
]

-- More fuel than weight is enough.
pub or_loop_total :
    (fuel : ℕ) (ts : List Term)
    → AllAscending ts
    → total_weight ts < fuel
    → (l : List Term) × (or_loop fuel ts ≡ some l)
      × AllAscending l
      × ((v : Valuation) → terms_hold v l ≡ terms_hold v ts)
unfolding or_loop
or_loop_total zero ts h lt = absurd (omega arith)
or_loop_total (suc fuel) ts h lt = elim (Bool-cases (or_pairs (length ts) ts).1) [
  | inl e ↦
      let p = or_pairs (length ts) ts in
      let kept = λ (v : Valuation). or_pairs-Kept v (length ts) ts h in
      let o = (kept (λ _. true)).order in
      let less = total_weight-simplify-le p.0 o in
      let fall = (kept (λ _. true)).progress e in
      let (l, run, order, mean) =
        or_loop_total fuel (simplify p.0) (AllAscending-simplify p.0 o) (omega arith) in
      (l, rw e run, order, λ v. mean v ∙ terms_hold-simplify v p.0 ∙ (kept v).meaning)
  | inr e ↦
      let p = or_pairs (length ts) ts in
      let kept = λ (v : Valuation). or_pairs-Kept v (length ts) ts h in
      let o = (kept (λ _. true)).order in
      (
        simplify p.0,
        rw e refl,
        AllAscending-simplify p.0 o,
        λ v. terms_hold-simplify v p.0 ∙ (kept v).meaning,
      )
]

-- Every term's map is in order.
abbrev pub IsOrdered : Predicate → Type 0
IsOrdered p = AllAscending p.terms

terms_hold-append :
    (v : Valuation) (ts us : List Term)
    → terms_hold v (ts ++ us) ≡ (terms_hold v ts || terms_hold v us)
unfolding terms_hold
terms_hold-append v [] us = refl
terms_hold-append v (a ∷ r) us = ground (arith, terms_hold-append v r us)

-- On predicates whose terms are ordered maps, `OrWith` ends within its fuel with ordered maps, and
-- under every valuation its result has the value of the disjunction.
pub or_with_total :
    (p q : Predicate)
    → IsOrdered p
    → IsOrdered q
    → (r : Predicate) × (or_with p q ≡ some r)
      × IsOrdered r
      × ((v : Valuation) → holds v r ≡ (holds v p || holds v q))
unfolding or_with holds
or_with_total p q hp hq =
    let ts = p.terms ++ q.terms in
    let (l, run, order, mean) =
      or_loop_total (suc (total_weight ts)) ts
        (All-append (λ (a : Term). Ascending a.factors) p.terms q.terms hp hq) (omega arith) in
    (
      record { terms = l; backedge = false },
      rw (run, or_with) refl,
      order,
      λ v. mean v ∙ terms_hold-append v p.terms q.terms,
    )
