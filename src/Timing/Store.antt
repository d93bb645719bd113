-- ===== src/Timing/Store.antt =====
-- Stores by address, of which one address is changed.
use autopiper.Prelude.{ℕ, ◌==◌, ◌≡◌, ◌⊎◌, ◌∙◌, ap, subst, inl, inr, true, arith, Bool-cases}
use mathlib.Core.Path.{fun_ext}
use autopiper.Timing.{set}

pub set_same : {A : Type 0} (i : ℕ) (x : A) (at : ℕ → A) → set i x at i ≡ x
unfolding set
set_same i x at = ground arith

pub set_other : {A : Type 0} (i j : ℕ) (x : A) (at : ℕ → A) → ¬ (j ≡ i) → set i x at j ≡ at j
unfolding set
set_other i j x at h = ground arith

i_eq : (i j : ℕ) → (i == j) ≡ true → i ≡ j
i_eq i j e = ground arith

pub set_keeps :
    {A B : Type 0} (f : A → B) (i j : ℕ) (x : A) (at : ℕ → A)
    → f x ≡ f (at i)
    → f (set i x at j) ≡ f (at j)
set_keeps f i j x at h = elim (Bool-cases (i == j)) [
  | inl e ↦
      let z = i_eq i j e in subst (λ k. f (set i x at k) ≡ f (at k)) z (ap f (set_same i x at) ∙ h)
  | inr e ↦ ap f (set_other i j x at (ground arith))
]

-- A value that is there already changes nothing.
pub set_there : {A : Type 0} (i : ℕ) (x : A) (at : ℕ → A) → x ≡ at i → set i x at ≡ at
set_there i x at h = fun_ext (λ j. elim (Bool-cases (i == j)) [
  | inl e ↦ let z = i_eq i j e in subst (λ k. set i x at k ≡ at k) z (set_same i x at ∙ h)
  | inr e ↦ set_other i j x at (ground arith)
])

pub address-cases : (i j : ℕ) → (i ≡ j) ⊎ (¬ (i ≡ j))
address-cases i j = elim (Bool-cases (i == j)) [
  | inl e ↦ inl (ground arith)
  | inr e ↦ inr (ground arith)
]
