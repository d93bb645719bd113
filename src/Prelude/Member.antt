-- ===== src/Prelude/Member.antt =====
-- Membership in a list of addresses, and lists as sets.
use autopiper.Prelude.{
  ℕ, ◌==◌, ◌≡◌, refl, sym, subst, ◌↔◌, ◌⊎◌, inl, inr, Bool, true, false, ◌||◌, List, [], ◌∷◌, ◌++◌,
  arith, All, if◌then◌else◌, ◌≤◌, ◌<◌, ◌+◌, Bool-cases, length,
}
use mathlib.Core.List.{reverse, reverse-cons}

abbrev pub In : ℕ → List ℕ → Type 0
In x [] = ⊥
In x (y ∷ ys) = (x ≡ y) ⊎ In x ys

unfoldable pub contains : ℕ → List ℕ → Bool
contains x [] = false
contains x (y ∷ r) = x == y || contains x r

pub contains-In : (x : ℕ) (l : List ℕ) → (contains x l ≡ true) ↔ In x l
unfolding contains
contains-In x [] = (λ e. absurd (cc), λ h. absurd h)
contains-In x (y ∷ r) = (
  λ e. ground (arith, contains-In x r),
  λ h. elim h [ inl e ↦ ground arith | inr i ↦ ground (arith, (contains-In x r).1 i) ],
)

pub not-In : (x : ℕ) (l : List ℕ) → contains x l ≡ false → ¬ In x l
not-In x l e i = absurd (cc (e, (contains-In x l).1 i))

pub contains-false : (x : ℕ) (l : List ℕ) → ¬ In x l → contains x l ≡ false
contains-false x l h = elim (Bool-cases (contains x l)) [
  | inl e ↦ absurd (h ((contains-In x l).0 e))
  | inr e ↦ e
]

pub All-In : (P : ℕ → Type 0) (x : ℕ) (xs : List ℕ) → All P xs → In x xs → P x
All-In P x [] h i = absurd i
All-In P x (y ∷ ys) (h, k) (inl e) = subst P (sym e) h
All-In P x (y ∷ ys) (h, k) (inr i) = All-In P x ys k i

pub All-of : (P : ℕ → Type 0) (xs : List ℕ) → ((x : ℕ) → In x xs → P x) → All P xs
All-of P [] f = tt
All-of P (x ∷ xs) f = (f x (inl refl), All-of P xs (λ y i. f y (inr i)))

pub In-append : (x : ℕ) (xs ys : List ℕ) → In x xs ⊎ In x ys → In x (xs ++ ys)
In-append x [] ys (inl i) = absurd i
In-append x [] ys (inr i) = i
In-append x (y ∷ xs) ys (inl (inl e)) = inl e
In-append x (y ∷ xs) ys (inl (inr i)) = inr (In-append x xs ys (inl i))
In-append x (y ∷ xs) ys (inr i) = inr (In-append x xs ys (inr i))

pub append-In : (x : ℕ) (xs ys : List ℕ) → In x (xs ++ ys) → In x xs ⊎ In x ys
append-In x [] ys i = inr i
append-In x (y ∷ xs) ys (inl e) = inl (inl e)
append-In x (y ∷ xs) ys (inr i) = elim (append-In x xs ys i) [ inl h ↦ inl (inr h) | inr h ↦ inr h ]

-- How many elements are not in a list.
unfoldable pub missing : List ℕ → List ℕ → ℕ
missing seen [] = 0
missing seen (x ∷ r) = let rest = missing seen r in if contains x seen then rest else rest + 1

-- A list with more elements leaves fewer out.
pub missing_mono :
    (seen more all : List ℕ)
    → ((x : ℕ) → In x seen → In x more)
    → missing more all ≤ missing seen all
unfolding missing
missing_mono seen more [] f = omega arith
missing_mono seen more (x ∷ r) f =
    let rest = missing_mono seen more r f in
    elim (Bool-cases (contains x seen)) [
      | inl e ↦ ground (arith, rest, (contains-In x more).1 (f x ((contains-In x seen).0 e)))
      | inr e ↦ ground (arith, rest)
    ]

pub missing-cons :
    (x : ℕ) (seen all : List ℕ)
    → In x all
    → contains x seen ≡ false
    → missing (x ∷ seen) all < missing seen all
unfolding missing contains
missing-cons x seen [] i e = absurd i
missing-cons x seen (y ∷ r) (inl q) e =
    let rest = missing_mono seen (x ∷ seen) r (λ z i. inr i) in
    let unseen = subst (λ z. contains z seen ≡ false) q e in ground (arith, rest, unseen)
missing-cons x seen (y ∷ r) (inr i) e = let rest = missing-cons x seen r i e in ground (arith, rest)

-- No element comes twice.
abbrev pub Distinct : List ℕ → Type 0
Distinct [] = Unit
Distinct (x ∷ r) = (¬ In x r) × Distinct r

pub Distinct-append : (l : List ℕ) (n : ℕ) → Distinct l → ¬ In n l → Distinct (l ++ n ∷ [])
Distinct-append [] n d h = (λ i. i, tt)
Distinct-append (x ∷ r) n (d, ds) h = (
  λ i. elim (append-In x r (n ∷ []) i) [
    | inl j ↦ d j
    | inr (inl e) ↦ h (inl (sym e))
    | inr (inr j) ↦ j
  ],
  Distinct-append r n ds (λ j. h (inr j)),
)

pub reverse-In : (x : ℕ) (l : List ℕ) → In x (reverse l) ↔ In x l
reverse-In x [] = (λ i. i, λ i. i)
reverse-In x (y ∷ r) =
    let e = reverse-cons y r in
    (
      λ i. elim (append-In x (reverse r) (y ∷ []) (subst (λ l. In x l) e i)) [
        | inl j ↦ inr ((reverse-In x r).0 j)
        | inr (inl q) ↦ inl q
        | inr (inr j) ↦ absurd j
      ],
      λ i.
          subst (λ l. In x l) (sym e)
            (In-append x (reverse r) (y ∷ [])
              (elim i [ inl q ↦ inr (inl q) | inr j ↦ inl ((reverse-In x r).1 j) ])),
    )

pub missing-le-length : (seen all : List ℕ) → missing seen all ≤ length all
unfolding missing
missing-le-length seen [] = omega arith
missing-le-length seen (x ∷ r) = ground (arith, missing-le-length seen r)

pub Distinct-reverse : (l : List ℕ) → Distinct l → Distinct (reverse l)
Distinct-reverse [] d = tt
Distinct-reverse (x ∷ r) (h, d) =
    subst Distinct (sym (reverse-cons x r))
      (Distinct-append (reverse r) x (Distinct-reverse r d) (λ i. h ((reverse-In x r).0 i)))

-- Each node of the list comes once and after the nodes that its edges come from; some are done before.
abbrev pub Ordered : (ℕ → List ℕ) → List ℕ → List ℕ → Type 0
Ordered ins done [] = Unit
Ordered ins done (i ∷ r) = (¬ In i done) × All (λ m. In m done) (ins i) × Ordered ins (i ∷ done) r

pub Ordered-append :
    (ins : ℕ → List ℕ) (done l : List ℕ) (x : ℕ)
    → Ordered ins done l
    → ¬ In x done
    → ¬ In x l
    → ((m : ℕ) → In m (ins x) → In m done ⊎ In m l)
    → Ordered ins done (l ++ x ∷ [])
Ordered-append ins done [] x o f g h =
    (f, All-of _ (ins x) (λ m i. elim (h m i) [ inl j ↦ j | inr j ↦ absurd j ]), tt)
Ordered-append ins done (y ∷ r) x (a, b, o) f g h = (
  a,
  b,
  Ordered-append ins (y ∷ done) r x o (λ i. elim i [ inl e ↦ g (inl e) | inr j ↦ f j ])
      (λ i. g (inr i))
      (λ m i. elim (h m i) [
        | inl j ↦ inl (inr j)
        | inr (inl e) ↦ inl (inl e)
        | inr (inr j) ↦ inr j
      ]),
)

Ordered-fresh :
    (ins : ℕ → List ℕ) (done l : List ℕ) (x : ℕ) → Ordered ins done l → In x l → ¬ In x done
Ordered-fresh ins done [] x o j i = absurd j
Ordered-fresh ins done (y ∷ r) x (a, b, o) (inl e) i = a (subst (λ z. In z done) e i)
Ordered-fresh ins done (y ∷ r) x (a, b, o) (inr j) i = Ordered-fresh ins (y ∷ done) r x o j (inr i)

-- An order by successors, reversed, is one by predecessors.
pub Ordered-reverse :
    (succ ins : ℕ → List ℕ) (done after l : List ℕ)
    → ((i m : ℕ) → In m (ins i) → In i (succ m))
    → Ordered succ done l
    → ((i m : ℕ) → In i l → In m (ins i) → In m after ⊎ In m l)
    → ((i : ℕ) → In i l → ¬ In i after)
    → Ordered ins after (reverse l)
Ordered-reverse succ ins done after [] back o h k = tt
Ordered-reverse succ ins done after (x ∷ r) back (a, b, o) h k =
    let own : (m : ℕ) → In m (ins x) → In m after ⊎ In m r = λ m i. elim (h x m (inl refl) i) [
      | inl j ↦ inl j
      | inr (inl e) ↦ absurd (a (All-In _ x (succ x) b (back x x (subst (λ z. In z (ins x)) e i))))
      | inr (inr j) ↦ inr j
    ] in
    let rest : (i m : ℕ) → In i r → In m (ins i) → In m after ⊎ In m r = λ i m j q.
      elim (h i m (inr j) q) [
        | inl l ↦ inl l
        | inr (inl e) ↦ absurd (
            Ordered-fresh succ (x ∷ done) r i o j
              (inr (All-In _ i (succ x) b (back i x (subst (λ z. In z (ins i)) e q)))))
        | inr (inr l) ↦ inr l
      ] in
    subst (Ordered ins after) (sym (reverse-cons x r)) (
      Ordered-append ins after (reverse r) x
        (Ordered-reverse succ ins (x ∷ done) after r back o rest (λ i j. k i (inr j)))
        (k x (inl refl))
        (λ i. Ordered-fresh succ (x ∷ done) r x o ((reverse-In x r).0 i) (inl refl))
        (λ m i. elim (own m i) [ inl j ↦ inl j | inr j ↦ inr ((reverse-In m r).1 j) ]))
