-- ===== src/Crosslink/Keys.antt =====
-- src/backend/ir-crosslinker.cc: the maps from labels and value numbers.
use autopiper.Prelude.{
  ℕ, ◌≡◌, refl, sym, ◌∙◌, ap, subst, ◌⊎◌, inl, inr, ◌↔◌, Bool, true, List, [], ◌∷◌, ◌++◌, none,
  some, arith, map, All, Bool-cases, Option-cases,
}
use mathlib.Core.List.{append_assoc, append-nil}
use autopiper.Prelude.Member.{In, In-append}
use autopiper.Crosslink.{Name, name_eq, CrossError, crossed, bad, find_key, index, resolve}

pub name_eq_iff : (m n : Name) → (name_eq m n ≡ true) ↔ (m ≡ n)
unfolding name_eq
name_eq_iff [] [] = (λ e. refl, λ e. refl)
name_eq_iff [] (d ∷ s) = (λ e. absurd (cc), λ e. absurd (cc))
name_eq_iff (c ∷ r) [] = (λ e. absurd (cc), λ e. absurd (cc))
name_eq_iff (c ∷ r) (d ∷ s) =
    (λ e. ground (arith, name_eq_iff r s), λ e. ground (arith, name_eq_iff r s))

-- An element of a list, with what stands before it.
abbrev pub Splits {ℓ} : {A : Type ℓ} → List A → List A → A → Type ℓ
Splits {A = A} l before x = (after : List A) × (l ≡ before ++ x ∷ after)

module _ {K : Type 0} (eq : K → K → Bool) (eq_iff : (a b : K) → (eq a b ≡ true) ↔ (a ≡ b))
    (key : ℕ → K) where
  abbrev pub pairs : List ℕ → List (K × ℕ)
  pairs [] = []
  pairs (x ∷ r) = (key x, x) ∷ pairs r

  -- No two elements have the same key.
  abbrev pub IsKeyed : List ℕ → Type 0
  IsKeyed [] = Unit
  IsKeyed (x ∷ r) = ((y : ℕ) → In y r → ¬ (key y ≡ key x)) × IsKeyed r

  pairs-behind : (l : List ℕ) (x : ℕ) → pairs l ++ (key x, x) ∷ [] ≡ pairs (l ++ x ∷ [])
  pairs-behind [] x = refl
  pairs-behind (y ∷ r) x = ap (λ l. (key y, y) ∷ l) (pairs-behind r x)

  find_key-some :
      (k : K) (xs : List ℕ) (x : ℕ) → find_key eq k (pairs xs) ≡ some x → In x xs × (key x ≡ k)
  unfolding find_key
  find_key-some k [] x e = absurd (cc e)
  find_key-some k (y ∷ r) x e = elim (Bool-cases (eq (key y) k)) [
    | inl f ↦
        let q : y ≡ x = cc (rw (f, find_key) at e) in
        (inl (sym q), subst (λ z. key z ≡ k) q ((eq_iff (key y) k).0 f))
    | inr f ↦ let (i, q) = find_key-some k r x (rw (f, find_key) at e) in (inr i, q)
  ]

  find_key-none :
      (k : K) (xs : List ℕ) → find_key eq k (pairs xs) ≡ none → (x : ℕ) → In x xs → ¬ (key x ≡ k)
  unfolding find_key
  find_key-none k [] e x i q = i
  find_key-none k (y ∷ r) e x i q = elim (Bool-cases (eq (key y) k)) [
    | inl f ↦ absurd (cc (rw (f, find_key) at e))
    | inr f ↦ elim i [
      | inl p ↦ absurd (cc (f, (eq_iff (key y) k).1 (subst (λ z. key z ≡ k) p q)))
      | inr j ↦ find_key-none k r (rw (f, find_key) at e) x j q
    ]
  ]

  -- An element whose key stands before it.
  abbrev pub Repeats : List ℕ → List ℕ → ℕ → Type 0
  Repeats done l x =
      (before : List ℕ) × Splits l before x × (y : ℕ) × In y (done ++ before) × (key y ≡ key x)

  -- The map has all elements, whose keys are new and differ, or an element is refused for its key.
  pub index-outcome :
      (dup : ℕ → CrossError) (done l : List ℕ)
      → ((index eq key dup l (pairs done) ≡ crossed (pairs (done ++ l)))
          × IsKeyed l
          × ((x y : ℕ) → In x l → In y done → ¬ (key y ≡ key x)))
        ⊎ ((x : ℕ) × (index eq key dup l (pairs done) ≡ bad (dup x)) × Repeats done l x)
  unfolding index
  index-outcome dup done [] =
      inl (ap (λ l. crossed (pairs l)) (sym (append-nil done)), tt, λ x y i. absurd i)
  index-outcome dup done (x ∷ r) = elim (Option-cases (find_key eq (key x) (pairs done))) [
    | inr (y, f) ↦
        let (i, q) = find_key-some (key x) done y f in
        inr (x, rw (f, index) refl, ([], (r, refl), y, In-append y done [] (inl i), q))
    | inl f ↦
        let fresh = find_key-none (key x) done f in
        let shift : done ++ x ∷ r ≡ (done ++ x ∷ []) ++ r = sym (append_assoc done (x ∷ []) r) in
        elim (index-outcome dup (done ++ x ∷ []) r) [
          | inl (e, k, h) ↦ inl (
            rw (f, index) (rw (pairs-behind done x, shift) e),
            (λ y i q. h y x i (In-append x done (x ∷ []) (inr (inl refl))) (sym q), k),
            λ z y i j. elim i [
              | inl p ↦ λ q. fresh y j (q ∙ ap key p)
              | inr i ↦ h z y i (In-append y done (x ∷ []) (inl j))
            ],
          )
          | inr (z, e, (before, (after, s), y, j, q)) ↦ inr (
            z,
            rw (f, index) (rw (pairs-behind done x) e),
            (
              x ∷ before,
              (after, ap (λ l. x ∷ l) s),
              y,
              subst (λ l. In y l) (append_assoc done (x ∷ []) before) j,
              q,
            ),
          )
        ]
  ]

  -- The keys are found, each for the element that has it, or one of them no element has.
  pub resolve-outcome :
      (xs : List ℕ) (e : CrossError) (ks : List K) (got : List ℕ)
      → ((new : List ℕ) × (resolve eq (pairs xs) e ks got ≡ crossed (got ++ new))
          × (map key new ≡ ks)
          × All (λ x. In x xs) new)
        ⊎ ((k : K) × (resolve eq (pairs xs) e ks got ≡ bad e)
            × ((before : List K) × Splits ks before k)
            × ((x : ℕ) → In x xs → ¬ (key x ≡ k)))
  unfolding resolve
  resolve-outcome xs e [] got = inl ([], ap crossed (sym (append-nil got)), refl, tt)
  resolve-outcome xs e (k ∷ r) got = elim (Option-cases (find_key eq k (pairs xs))) [
    | inl f ↦ inr (k, rw (f, resolve) refl, ([], (r, refl)), find_key-none k xs f)
    | inr (x, f) ↦
        let (i, q) = find_key-some k xs x f in
        elim (resolve-outcome xs e r (got ++ x ∷ [])) [
          | inl (new, p, m, a) ↦ inl (
            x ∷ new,
            rw (f, resolve) (p ∙ ap crossed (append_assoc got (x ∷ []) new)),
            cc (q, m),
            (i, a),
          )
          | inr (j, p, (before, (after, s)), h) ↦
              inr (j, rw (f, resolve) p, (k ∷ before, (after, ap (λ l. k ∷ l) s)), h)
        ]
  ]
