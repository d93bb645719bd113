-- ===== src/Prelude/Positions.antt =====
-- The positions of a list's elements.
use autopiper.Prelude.{
  ℕ, zero, suc, ◌<◌, ◌≤◌, ◌≡◌, sym, ap, inl, inr, List, [], ◌∷◌, none, some, arith, length,
  get_elem?,
}
use autopiper.Prelude.Member.{In}

pub get_elem?-In : (l : List ℕ) (i x : ℕ) → get_elem? l i ≡ some x → In x l
get_elem?-In [] i x e = absurd (cc)
get_elem?-In (y ∷ r) zero x e = inl (cc)
get_elem?-In (y ∷ r) (suc i) x e = inr (get_elem?-In r i x e)

pub In-get_elem? :
    (l : List ℕ) (x : ℕ) → In x l → (i : ℕ) × (get_elem? l i ≡ some x) × (i < length l)
In-get_elem? [] x h = absurd h
In-get_elem? (y ∷ r) x (inl e) = (0, ap some (sym e), omega arith)
In-get_elem? (y ∷ r) x (inr h) = let (i, e, lt) = In-get_elem? r x h in (suc i, e, omega arith)

pub get_elem?-lt : {A : Type 0} (l : List A) (i : ℕ) (x : A) → get_elem? l i ≡ some x → i < length l
get_elem?-lt [] i x e = absurd (cc)
get_elem?-lt (y ∷ r) zero x e = omega arith
get_elem?-lt (y ∷ r) (suc i) x e = omega (arith, get_elem?-lt r i x e)

pub get_elem?-none : {A : Type 0} (l : List A) (i : ℕ) → get_elem? l i ≡ none → length l ≤ i
get_elem?-none [] i e = omega arith
get_elem?-none (y ∷ r) zero e = absurd (cc)
get_elem?-none (y ∷ r) (suc i) e = omega (arith, get_elem?-none r i e)
