-- ===== src/Predicate.antt =====
-- src/backend/predicate.h: predicates in disjunctive normal form, an OR of terms, each an AND of
-- factors with a polarity.
-- The compiler instantiates the template with `IRStmt*`, which is compared by address: a factor's
-- key is a number. The `std::map` of a term is an association list in ascending order of keys.
pub mod Meaning
pub mod Order
pub mod Merge
pub mod Loop
pub mod Conjunction
pub mod Canonical
pub mod Examples
use autopiper.Prelude.{
  ℕ, zero, suc, ◌+◌, Bool, true, false, not, ◌&&◌, ◌||◌, List, [], ◌∷◌, ◌++◌, map, Option, none,
  some, ltb, ◌==◌, if◌then◌else◌, bool_eq, length,
}

abbrev pub Factors : Type 0
Factors = List (ℕ × Bool)

pub record Term : Type 0 where
  pub factors : Factors
  pub falsified : Bool

-- `Term()`: the empty AND.
abbrev pub true_term : Term
true_term = record { factors = []; falsified = false }

-- `factors.find(t)`.
unfoldable pub find : ℕ → Factors → Option Bool
find t [] = none
find t ((k, b) ∷ r) = if k == t then some b else find t r

-- `factors[t] = polarity`.
unfoldable pub assign : ℕ → Bool → Factors → Factors
assign t p [] = (t, p) ∷ []
assign t p ((k, b) ∷ r) =
    if ltb t k then (t, p) ∷ (k, b) ∷ r else if k == t then (k, p) ∷ r else (k, b) ∷ assign t p r

-- `factors.erase(t)`.
unfoldable pub erase : ℕ → Factors → Factors
erase t [] = []
erase t ((k, b) ∷ r) = if k == t then r else (k, b) ∷ erase t r

-- Does the map hold `t` with the opposite polarity?
opposes : Option Bool → Bool → Bool
opposes none p = false
opposes (some b) p = bool_eq b (not p)

-- `Term::AndWith(T t, bool polarity)`.
unfoldable pub and_factor : ℕ → Bool → Term → Term
unfolding opposes
and_factor t p a =
    if a.falsified
    then a
    else if opposes (find t a.factors) p
    then record a { falsified = true }
    else record a { factors = assign t p a.factors }

-- The loop of `Term::AndWith(const Term& other)`.
unfoldable pub and_factors : Factors → Term → Term
and_factors [] a = a
and_factors ((t, p) ∷ r) a = and_factors r (and_factor t p a)

-- `Term::AndWith(const Term& other)`.
unfoldable pub and_term : Term → Term → Term
and_term other a = if a.falsified then a else and_factors other.factors a

-- The branches of the loop of `Term::OrWith` at two factors: the left or the right key is smaller,
-- or the keys are the same, with the same polarity or with opposite ones.
pub data Side : Type 0 where
  left right matched clashed : Side

unfoldable pub side : ℕ × Bool → ℕ × Bool → Side
side (k, b) (j, c) =
    if ltb k j then left else if ltb j k then right else if bool_eq b c then matched else clashed

-- The loops of `Term::OrWith` that collect the factors on one side only, over both maps in order.
unfoldable pub differences : Factors → Factors → Factors × Factors
differences [] ys = ([], ys)
differences (x ∷ xs) [] = (x ∷ xs, [])
differences (x ∷ xs) (y ∷ ys) = elim (side x y) [
  | left ↦ let d = differences xs (y ∷ ys) in (x ∷ d.0, d.1)
  | right ↦ let d = differences (x ∷ xs) ys in (d.0, y ∷ d.1)
  | matched ↦ differences xs ys
  | clashed ↦ let d = differences xs ys in (x ∷ d.0, y ∷ d.1)
]

-- The key that can be cancelled: one factor on each side, the same key, opposite polarities.
unfoldable pub cancelled : Factors → Factors → Option ℕ
cancelled ((k, b) ∷ []) ((j, c) ∷ []) = if k == j && bool_eq b (not c) then some k else none
cancelled _ _ = none

-- What `Term::OrWith` does to both terms, and the `bool` it returns.
pub record Merged : Type 0 where
  pub this : Term
  pub other : Term
  pub changed : Bool

abbrev pub falsify : Term
falsify = record { factors = []; falsified = true }

cancel : Option ℕ → Term → Term → Merged
cancel none a b = record { this = a; other = b; changed = false }
cancel (some k) a b = record {
  this = record a { factors = erase k a.factors };
  other = record b { factors = erase k b.factors };
  changed = true;
}

-- The ladder after the loops, on the factors that each side alone has.
merge_by : Factors → Factors → Term → Term → Merged
unfolding cancel
merge_by [] other_factors a b = record { this = a; other = falsify; changed = true }
merge_by (x ∷ xs) [] a b = record { this = falsify; other = b; changed = true }
merge_by (x ∷ xs) (y ∷ ys) a b = cancel (cancelled (x ∷ xs) (y ∷ ys)) a b

-- `Term::OrWith(Term* other)`.
unfoldable pub or_term : Term → Term → Merged
unfolding merge_by
or_term a b =
    if a.falsified || b.falsified
    then record { this = a; other = b; changed = false }
    else let d = differences a.factors b.factors in merge_by d.0 d.1 a b

pub record Predicate : Type 0 where
  pub terms : List Term
  pub backedge : Bool

-- `Predicate::False()`, `Predicate::True()`.
abbrev pub false_predicate : Predicate
false_predicate = record { terms = []; backedge = false }

abbrev pub true_predicate : Predicate
true_predicate = record { terms = true_term ∷ []; backedge = false }

-- `operator<` of the maps: lexicographic over (key, polarity), false before true.
unfoldable pub factors_lt : Factors → Factors → Bool
factors_lt [] [] = false
factors_lt [] (y ∷ ys) = true
factors_lt (x ∷ xs) [] = false
factors_lt ((k, b) ∷ xs) ((j, c) ∷ ys) =
    if ltb k j
    then true
    else if ltb j k
    then false
    else if not b && c
    then true
    else if b && not c
    then false
    else factors_lt xs ys

unfoldable pub insert_sorted : Term → List Term → List Term
insert_sorted a [] = a ∷ []
insert_sorted a (b ∷ r) =
    if factors_lt b.factors a.factors then b ∷ insert_sorted a r else a ∷ b ∷ r

-- `sort(terms.begin(), terms.end())`.
unfoldable pub sort_terms : List Term → List Term
sort_terms [] = []
sort_terms (a ∷ r) = insert_sorted a (sort_terms r)

abbrev pub is_empty {ℓ} : {A : Type ℓ} → List A → Bool
is_empty [] = true
is_empty (x ∷ xs) = false

-- The loop of `Simplify`: `none` when it breaks at a tautological term.
unfoldable pub new_terms : List Term → Option (List Term)
new_terms [] = some []
new_terms (a ∷ r) =
    let rest = new_terms r in
    if a.falsified
    then rest
    else if is_empty a.factors
    then none
    else elim rest [ none ↦ none | some l ↦ some (a ∷ l) ]

-- `Predicate::Simplify`, on the terms.
unfoldable pub simplify : List Term → List Term
simplify ts = elim (new_terms ts) [ none ↦ true_term ∷ [] | some l ↦ sort_terms l ]

-- `Predicate::AndWith(T t, bool polarity)`.
unfoldable pub and_with_factor : ℕ → Bool → Predicate → Predicate
and_with_factor t polarity p = record {
  terms = simplify (map (and_factor t polarity) p.terms);
  backedge = false;
}

-- `Predicate::AndWith(const Term& other)`.
unfoldable pub and_with_term : Term → Predicate → Predicate
and_with_term other p =
    if other.falsified
    then false_predicate
    else record p { terms = simplify (map (and_term other) p.terms) }

-- The inner loop of `OrWith`: term i against each later term, both updated in place.
unfoldable pub or_row : Term → List Term → Term × List Term × Bool
or_row a [] = (a, [], false)
or_row a (b ∷ r) =
    let m = or_term a b in
    let rest = or_row m.this r in (rest.0, m.other ∷ rest.1, m.changed || rest.2)

-- The outer loop, over the terms left: `n` is at least their number.
unfoldable pub or_pairs : ℕ → List Term → List Term × Bool
or_pairs zero ts = (ts, false)
or_pairs (suc n) [] = ([], false)
or_pairs (suc n) (a ∷ r) =
    let row = or_row a r in let rest = or_pairs n row.1 in (row.0 ∷ rest.0, row.2 || rest.1)

-- `while (changed)` of `OrWith`; `none` means that the fuel ran out.
unfoldable pub or_loop : ℕ → List Term → Option (List Term)
or_loop zero ts = none
or_loop (suc fuel) ts =
    let pass = or_pairs (length ts) ts in
    let next = simplify pass.0 in
    let again = or_loop fuel next in if pass.1 then again else some next

-- A falsified term weighs nothing, any other one more than its factors.
unfoldable pub weight : Term → ℕ
weight a = if a.falsified then 0 else suc (length a.factors)

unfoldable pub total_weight : List Term → ℕ
total_weight [] = 0
total_weight (a ∷ r) = weight a + total_weight r

-- `Predicate::OrWith`; a round that changes anything lowers the weight, which bounds the fuel.
unfoldable pub or_with : Predicate → Predicate → Option Predicate
or_with p q =
    let ts = p.terms ++ q.terms in
    elim (or_loop (suc (total_weight ts)) ts) [
      | none ↦ none
      | some l ↦ some (record { terms = l; backedge = false })
    ]

-- `for (auto& i : intermediates) p = p.OrWith(i)`.
unfoldable pub or_all : Predicate → List Predicate → Option Predicate
or_all p [] = some p
or_all p (i ∷ r) = elim (or_with p i) [ none ↦ none | some q ↦ or_all q r ]

-- `Predicate::IsFalse`.
unfoldable pub is_false : Predicate → Bool
is_false p = is_empty p.terms

-- `Predicate::AndWith(const Predicate& other)`.
unfoldable pub and_with : Predicate → Predicate → Option Predicate
and_with p other =
    if is_false other
    then some false_predicate
    else or_all false_predicate (map (λ t. and_with_term t p) other.terms)

all_plain : List Term → Bool
all_plain [] = true
all_plain (a ∷ r) = if a.falsified || not (is_empty a.factors) then false else all_plain r

-- `Predicate::IsTrue`.
unfoldable pub is_true : Predicate → Bool
unfolding all_plain
is_true p = all_plain p.terms
