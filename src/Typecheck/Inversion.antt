-- ===== src/Typecheck/Inversion.antt =====
-- What follows from a sequence of checks that returned true.
use autopiper.Prelude.{◌≡◌, refl, sym, ◌∙◌, ◌↔◌, Bool, true, false, List, [], ◌∷◌, ◌++◌, All}
use autopiper.Typecheck.{
  Error, Result, ok, failed, fault, Checked, ◌>>=◌, ◌>>◌, after, pass, require, each,
}

module _ {ℓ} {A : Type ℓ} where
  pub after-eq-ok :
      (e : List Error) (m : Result A) {a : A} {f : List Error}
      → after e m ≡ ok a f
      → (g : List Error) × (m ≡ ok a g) × (f ≡ e ++ g)
  after-eq-ok e (ok a g) h = (g, cc, cc)
  after-eq-ok e (failed g) h = cc
  after-eq-ok e fault h = cc

pub >>=-eq-ok {ℓ κ} :
    {A : Type ℓ} {B : Type κ} (m : Result A) (f : A → Result B) {b : B} {e : List Error}
    → (m >>= f) ≡ ok b e
    → (a : A) × (c : List Error) × (d : List Error) × (m ≡ ok a c) × (f a ≡ ok b d) × (e ≡ c ++ d)
>>=-eq-ok (ok a c) f h = let (d, p, q) = after-eq-ok c (f a) h in (a, c, d, refl, p, q)
>>=-eq-ok (failed c) f h = cc
>>=-eq-ok fault f h = cc

pub require-eq-ok :
    (b : Bool) (e : Error) {u : Unit {0}} {f : List Error}
    → require b e ≡ ok u f
    → (b ≡ true) × (f ≡ [])
require-eq-ok true e h = (refl, cc)
require-eq-ok false e h = cc

pub each-eq-ok {ℓ} :
    {A : Type ℓ} (t : A → Bool) (e : Error) (l : List A) {u : Unit {0}} {f : List Error}
    → each (λ x. require (t x) e) l ≡ ok u f
    → All (λ x. t x ≡ true) l × (f ≡ [])
unfolding each
each-eq-ok t e [] h = (tt, cc)
each-eq-ok t e (x ∷ r) h =
    let (a, c, d, p, q, s) = >>=-eq-ok (require (t x) e) (λ _. each (λ x. require (t x) e) r) h in
    let (b, k) = require-eq-ok (t x) e p in let (all, g) = each-eq-ok t e r q in ((b, all), cc)

-- The checks of a list pass if each element passes.
pub each-pass {ℓ} :
    {A : Type ℓ} (f : A → Checked) (l : List A) → All (λ x. f x ≡ pass) l → each f l ≡ pass
unfolding each
each-pass f [] h = refl
each-pass f (x ∷ r) h = rw (h.0, each-pass f r h.1) refl

-- Nothing was reported in a sequence: nothing was reported in its parts.
pub append-eq-nil : (e c d : List Error) → e ≡ c ++ d → e ≡ [] → (c ≡ []) × (d ≡ [])
append-eq-nil e [] d h k = (refl, sym h ∙ k)
append-eq-nil e (x ∷ c) d h k = cc

-- Sequences of checks that pass, as equivalences.
pub after-nil {ℓ} : {A : Type ℓ} (m : Result A) → after [] m ≡ m
after-nil (ok a e) = refl
after-nil (failed e) = refl
after-nil fault = refl

pub require_iff : (b : Bool) (e : Error) → (require b e ≡ pass) ↔ (b ≡ true)
require_iff true e = (λ _. refl, λ _. refl)
require_iff false e = (λ h. cc, λ h. cc)

pub >>_iff : (m k : Checked) → ((m >> k) ≡ pass) ↔ ((m ≡ pass) × (k ≡ pass))
>>_iff (ok u []) k = (λ h. (refl, sym (after-nil k) ∙ h), λ h. after-nil k ∙ h.1)
>>_iff (ok u (x ∷ e)) (ok v f) = (λ h. absurd (cc), λ h. absurd (cc))
>>_iff (ok u (x ∷ e)) (failed f) = (λ h. absurd (cc), λ h. absurd (cc))
>>_iff (ok u (x ∷ e)) fault = (λ h. absurd (cc), λ h. absurd (cc))
>>_iff (failed e) k = (λ h. absurd (cc), λ h. absurd (cc))
>>_iff fault k = (λ h. absurd (cc), λ h. absurd (cc))

require-pass {ℓ} :
    {A : Type ℓ} (t : A → Bool) (e : Error) (l : List A)
    → All (λ x. t x ≡ true) l
    → All (λ x. require (t x) e ≡ pass) l
require-pass t e [] h = tt
require-pass t e (x ∷ r) h = ((require_iff (t x) e).1 h.0, require-pass t e r h.1)

pub each_iff {ℓ} :
    {A : Type ℓ} (t : A → Bool) (e : Error) (l : List A)
    → (each (λ x. require (t x) e) l ≡ pass) ↔ All (λ x. t x ≡ true) l
each_iff t e l =
    (λ h. (each-eq-ok t e l h).0, λ h. each-pass (λ x. require (t x) e) l (require-pass t e l h))
