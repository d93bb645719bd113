-- ===== src/Predicate/Order.antt =====
-- The maps of terms: keys in strictly ascending order, and what the map operations do to them.
use autopiper.Prelude.{
  ℕ, suc, ◌<◌, ◌≡◌, refl, subst, Bool, true, not, ◌&&◌, [], ◌∷◌, arith, bool_eq, ◌⊎◌, inl, inr,
  none, length,
}
use autopiper.Predicate.{
  Factors, find, assign, erase, differences, Side, left, right, matched, clashed, side,
}
use autopiper.Predicate.Meaning.{Valuation, factors_hold}

-- Every key of the map is above `k`.
abbrev pub AllAbove : ℕ → Factors → Type 0
AllAbove k [] = Unit
AllAbove k ((j, b) ∷ r) = (k < j) × AllAbove k r

-- The invariant of `std::map`: keys strictly ascend.
abbrev pub Ascending : Factors → Type 0
Ascending [] = Unit
Ascending ((k, b) ∷ r) = AllAbove k r × Ascending r

pub AllAbove-lt : (j k : ℕ) (fs : Factors) → j < k → AllAbove k fs → AllAbove j fs
AllAbove-lt j k [] h a = tt
AllAbove-lt j k ((i, b) ∷ r) h a = (omega arith, AllAbove-lt j k r h a.1)

AllAbove-assign :
    (k t : ℕ) (p : Bool) (fs : Factors) → k < t → AllAbove k fs → AllAbove k (assign t p fs)
unfolding assign
AllAbove-assign k t p [] h a = (h, tt)
AllAbove-assign k t p ((j, b) ∷ r) h a = ground (arith, AllAbove-assign k t p r)

pub Ascending-assign : (t : ℕ) (p : Bool) (fs : Factors) → Ascending fs → Ascending (assign t p fs)
unfolding assign
Ascending-assign t p [] h = (tt, tt)
Ascending-assign t p ((k, b) ∷ r) h =
    ground (arith, Ascending-assign t p r, AllAbove-assign k t p r, AllAbove-lt t k r)

AllAbove-erase : (k t : ℕ) (fs : Factors) → AllAbove k fs → AllAbove k (erase t fs)
unfolding erase
AllAbove-erase k t [] a = tt
AllAbove-erase k t ((j, b) ∷ r) a = ground (arith, AllAbove-erase k t r)

pub Ascending-erase : (t : ℕ) (fs : Factors) → Ascending fs → Ascending (erase t fs)
unfolding erase
Ascending-erase t [] h = tt
Ascending-erase t ((k, b) ∷ r) h = ground (arith, Ascending-erase t r, AllAbove-erase k t r)

-- A key above which the map starts is not in the map.
pub find-AllAbove : (k : ℕ) (fs : Factors) → AllAbove k fs → find k fs ≡ none
unfolding find
find-AllAbove k [] a = refl
find-AllAbove k ((j, b) ∷ r) a = ground (arith, find-AllAbove k r)

-- What each branch of the loop knows.
abbrev Knows : ℕ × Bool → ℕ × Bool → Side → Type 0
Knows x y left = x.0 < y.0
Knows x y right = y.0 < x.0
Knows x y matched = (x.0 ≡ y.0) × (x.1 ≡ y.1)
Knows x y clashed = (x.0 ≡ y.0) × (x.1 ≡ not y.1)

side-Knows : (x y : ℕ × Bool) → Knows x y (side x y)
unfolding side
side-Knows (k, b) (j, c) = ground arith

side-cases :
    (x y : ℕ × Bool)
    → ((side x y ≡ left) × (x.0 < y.0))
      ⊎ ((side x y ≡ right) × (y.0 < x.0))
      ⊎ ((side x y ≡ matched) × (x.0 ≡ y.0) × (x.1 ≡ y.1))
      ⊎ ((side x y ≡ clashed) × (x.0 ≡ y.0) × (x.1 ≡ not y.1))
side-cases x y = go (side x y) refl (side-Knows x y)
  where
    go :
        (s : Side)
        → side x y ≡ s
        → Knows x y s
        → ((side x y ≡ left) × (x.0 < y.0))
          ⊎ ((side x y ≡ right) × (y.0 < x.0))
          ⊎ ((side x y ≡ matched) × (x.0 ≡ y.0) × (x.1 ≡ y.1))
          ⊎ ((side x y ≡ clashed) × (x.0 ≡ y.0) × (x.1 ≡ not y.1))
    go left e h = inl (e, h)
    go right e h = inr (inl (e, h))
    go matched e h = inr (inr (inl (e, h.0, h.1)))
    go clashed e h = inr (inr (inr (e, h.0, h.1)))

-- The factors on one side only are factors of that side.
AllAbove-differences :
    (k : ℕ) (xs ys : Factors)
    → (AllAbove k xs → AllAbove k (differences xs ys).0)
      × (AllAbove k ys → AllAbove k (differences xs ys).1)
unfolding differences
AllAbove-differences k [] ys = (λ a. tt, λ a. a)
AllAbove-differences k (x ∷ xs) [] = (λ a. a, λ a. tt)
AllAbove-differences k (x ∷ xs) (y ∷ ys) = ground (
  arith,
  AllAbove-differences k xs (y ∷ ys),
  AllAbove-differences k (x ∷ xs) ys,
  AllAbove-differences k xs ys,
)

-- What both sides say.
pub common : Valuation → Factors → Factors → Bool
common v [] ys = true
common v (x ∷ xs) [] = true
common v (x ∷ xs) (y ∷ ys) = elim (side x y) [
  | left ↦ common v xs (y ∷ ys)
  | right ↦ common v (x ∷ xs) ys
  | matched ↦ bool_eq (v x.0) x.1 && common v xs ys
  | clashed ↦ common v xs ys
]

pub factors_hold-differences :
    (v : Valuation) (xs ys : Factors)
    → (factors_hold v xs ≡ (common v xs ys && factors_hold v (differences xs ys).0))
      × (factors_hold v ys ≡ (common v xs ys && factors_hold v (differences xs ys).1))
unfolding differences factors_hold common
factors_hold-differences v [] ys = (refl, refl)
factors_hold-differences v (x ∷ xs) [] = (refl, refl)
factors_hold-differences v (x ∷ xs) (y ∷ ys) = elim (side-cases x y) [
  | inl (e, h) ↦ ground (arith, factors_hold-differences v xs (y ∷ ys))
  | inr (inl (e, h)) ↦ ground (arith, factors_hold-differences v (x ∷ xs) ys)
  | inr (inr (inl (e, h, q))) ↦ ground (arith, factors_hold-differences v xs ys)
  | inr (inr (inr (e, h, q))) ↦ ground (arith, factors_hold-differences v xs ys)
]

left_above :
    (i k : ℕ) (b : Bool) (xs ys : Factors)
    → AllAbove i xs
    → (differences xs ys).0 ≡ (k, b) ∷ []
    → i < k
left_above i k b xs ys a e = (subst (AllAbove i) e ((AllAbove-differences i xs ys).0 a)).0

right_above :
    (i k : ℕ) (b : Bool) (xs ys : Factors)
    → AllAbove i ys
    → (differences xs ys).1 ≡ (k, b) ∷ []
    → i < k
right_above i k b xs ys a e = (subst (AllAbove i) e ((AllAbove-differences i xs ys).1 a)).0

-- With one factor on the left side only, erasing its key leaves what both sides have.
pub erase_left :
    (v : Valuation) (k : ℕ) (b : Bool) (xs ys : Factors)
    → Ascending xs
    → (differences xs ys).0 ≡ (k, b) ∷ []
    → (factors_hold v (erase k xs) ≡ common v xs ys) × (suc (length (erase k xs)) ≡ length xs)
unfolding differences erase factors_hold common
erase_left v k b [] ys a e = ground arith
erase_left v k b (x ∷ xs) [] a e = ground arith
erase_left v k b (x ∷ xs) (y ∷ ys) a e = elim (side-cases x y) [
  | inl (s, h) ↦ ground (arith, factors_hold-differences v xs (y ∷ ys))
  | inr (inl (s, h)) ↦ ground (arith, erase_left v k b (x ∷ xs) ys)
  | inr (inr (inl (s, h, q))) ↦ ground (arith, erase_left v k b xs ys, left_above x.0 k b xs ys)
  | inr (inr (inr (s, h, q))) ↦ ground (arith, factors_hold-differences v xs ys)
]

pub erase_right :
    (v : Valuation) (k : ℕ) (b : Bool) (xs ys : Factors)
    → Ascending ys
    → (differences xs ys).1 ≡ (k, b) ∷ []
    → (factors_hold v (erase k ys) ≡ common v xs ys) × (suc (length (erase k ys)) ≡ length ys)
unfolding differences erase factors_hold common
erase_right v k b [] ys a e = rw e (ground arith)
erase_right v k b (x ∷ xs) [] a e = ground arith
erase_right v k b (x ∷ xs) (y ∷ ys) a e = elim (side-cases x y) [
  | inl (s, h) ↦ ground (arith, erase_right v k b xs (y ∷ ys))
  | inr (inl (s, h)) ↦ ground (arith, factors_hold-differences v (x ∷ xs) ys)
  | inr (inr (inl (s, h, q))) ↦ ground (arith, erase_right v k b xs ys, right_above y.0 k b xs ys)
  | inr (inr (inr (s, h, q))) ↦ ground (arith, factors_hold-differences v xs ys)
]
