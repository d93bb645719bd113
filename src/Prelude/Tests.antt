-- ===== src/Prelude/Tests.antt =====
-- Boolean tests on the native numbers, the conditional, and case splits that keep an equation.
use Prim.Native.Nat.{ℕ, ◌≤◌, ◌<◌, compare, Ordering}
use mathlib.Core.Path.{◌≡◌, refl}
use mathlib.Core.Logic.{◌↔◌, ◌⊎◌, inl, inr}
use mathlib.Core.Bool.{Bool, true, false, not, ◌&&◌}
use mathlib.Core.Option.{Option, none, some}
use native.Mathlib.Omega.{arith}

abbrev pub ltb : ℕ → ℕ → Bool
ltb a b = elim (compare a b) [ Ordering.lt ↦ true | _ ↦ false ]

abbrev pub leb : ℕ → ℕ → Bool
leb a b = elim (compare a b) [ Ordering.gt ↦ false | _ ↦ true ]

infix 50 ◌==◌
abbrev pub ◌==◌ : ℕ → ℕ → Bool
a == b = elim (compare a b) [ Ordering.eq ↦ true | _ ↦ false ]

infix 1 if◌then◌else◌
abbrev pub if◌then◌else◌ {ℓ} : {A : Type ℓ} → Bool → A → A → A
if true then x else y = x
if false then x else y = y

-- Equality of Booleans.
abbrev pub bool_eq : Bool → Bool → Bool
bool_eq true b = b
bool_eq false true = false
bool_eq false false = true

pub ltb→lt : (a b : ℕ) → ltb a b ≡ true → a < b
ltb→lt a b h = ground arith

pub lt→ltb : (a b : ℕ) → a < b → ltb a b ≡ true
lt→ltb a b h = ground arith

pub leb→le : (a b : ℕ) → leb a b ≡ true → a ≤ b
leb→le a b h = ground arith

pub ==_iff : (a b : ℕ) → ((a == b) ≡ true) ↔ (a ≡ b)
==_iff a b = ground arith

pub ruleset tests = (arith, ltb→lt, lt→ltb, leb→le)

pub Bool-cases : (b : Bool) → (b ≡ true) ⊎ (b ≡ false)
Bool-cases true = inl refl
Bool-cases false = inr refl

pub Option-cases {ℓ} : {A : Type ℓ} (o : Option A) → (o ≡ none) ⊎ ((a : A) × (o ≡ some a))
Option-cases none = inl refl
Option-cases (some a) = inr (a, refl)

-- The three ways in which two numbers compare.
pub lt_trichotomy : (a b : ℕ) → (a < b) ⊎ (b < a) ⊎ (a ≡ b)
lt_trichotomy a b = omega arith

-- A Boolean is another one or its opposite.
pub bool_eq-cases : (a b : Bool) → (a ≡ b) ⊎ (a ≡ not b)
bool_eq-cases true true = inl refl
bool_eq-cases true false = inr refl
bool_eq-cases false true = inr refl
bool_eq-cases false false = inl refl

pub and_true : (a b : Bool) → (a && b) ≡ true → (a ≡ true) × (b ≡ true)
and_true a b h = ground arith

-- Equivalences compose, and go under products.
pub iff_trans {ℓ κ μ} : {A : Type ℓ} {B : Type κ} {C : Type μ} → A ↔ B → B ↔ C → A ↔ C
iff_trans f g = (λ a. g.0 (f.0 a), λ c. f.1 (g.1 c))

pub iff_refl {ℓ} : {A : Type ℓ} → A ↔ A
iff_refl = (λ a. a, λ a. a)

pub iff_prod {ℓ κ μ ν} :
    {A : Type ℓ} {B : Type κ} {C : Type μ} {D : Type ν} → A ↔ B → C ↔ D → (A × C) ↔ (B × D)
iff_prod f g = (λ p. (f.0 p.0, g.0 p.1), λ p. (f.1 p.0, g.1 p.1))

pub iff_exists {ℓ κ μ ν} :
    {W : Type ℓ} {H : W → Type κ} {P : W → Type μ} {Q : W → Type ν}
    → ((w : W) → P w ↔ Q w)
    → ((w : W) × H w × P w) ↔ ((w : W) × H w × Q w)
iff_exists f = (λ (w, h, p). (w, h, (f w).0 p), λ (w, h, q). (w, h, (f w).1 q))
