-- ===== src/Crosslink/Groups.antt =====
-- src/backend/ir-crosslinker.cc: the maps from names to statements.
use autopiper.Prelude.{
  ℕ, ◌≡◌, refl, sym, ◌∙◌, ap, subst, ◌⊎◌, inl, inr, Bool, true, false, ◌&&◌, List, [], ◌∷◌, ◌++◌,
  Option, none, some, if◌then◌else◌, arith, Bool-cases, Option-cases,
}
use mathlib.Core.List.{append_assoc, append-nil}
use autopiper.Prelude.Member.{In}
use autopiper.Ir.{StmtType}
use autopiper.Crosslink.{
  Name, name_eq, name_lt, CrossError, crossed, bad, Raw, Groups, find_group, push_group, new_group,
  add_to, gather,
}
use autopiper.Crosslink.Keys.{name_eq_iff}

pub name_lt_total : (m n : Name) → name_lt m n ≡ false → ¬ (m ≡ n) → name_lt n m ≡ true
unfolding name_lt
name_lt_total [] [] e h = absurd (h refl)
name_lt_total [] (d ∷ s) e h = absurd (cc e)
name_lt_total (c ∷ r) [] e h = refl
name_lt_total (c ∷ r) (d ∷ s) e h =
    let apart : c ≡ d → ¬ (r ≡ s) = λ p q. h (ap (λ z. z ∷ r) p ∙ ap (λ l. d ∷ l) q) in
    ground (arith, name_lt_total r s, apart)

-- The names are in order, and different.
abbrev pub IsAbove : Name → Groups → Type 0
IsAbove n [] = Unit
IsAbove n ((k, g) ∷ r) = name_lt n k ≡ true

abbrev pub IsSorted : Groups → Type 0
IsSorted [] = Unit
IsSorted ((k, g) ∷ r) = IsAbove k r × IsSorted r

abbrev pub group_of : Option (List ℕ) → List ℕ
group_of none = []
group_of (some g) = g

-- The statements of a name in a list.
unfoldable pub named : (ℕ → Raw) → (StmtType → Bool) → Name → List ℕ → List ℕ
named raw takes n [] = []
named raw takes n (s ∷ r) =
    let rest = named raw takes n r in
    if takes (raw s).type && name_eq (raw s).port_name n then s ∷ rest else rest

new_group-IsAbove :
    (k n : Name) (h : List ℕ) (m : Groups)
    → name_lt k n ≡ true
    → IsAbove k m
    → IsAbove k (new_group n h m)
unfolding new_group
new_group-IsAbove k n h [] e a = e
new_group-IsAbove k n h ((j, g) ∷ r) e a = elim (Bool-cases (name_lt n j)) [
  | inl f ↦ rw (f, new_group) e
  | inr f ↦ rw (f, new_group) a
]

find_group-tail :
    (n k : Name) (g : List ℕ) (r : Groups)
    → find_group n ((k, g) ∷ r) ≡ none
    → (name_eq k n ≡ false) × (find_group n r ≡ none)
unfolding find_group
find_group-tail n k g r e = elim (Bool-cases (name_eq k n)) [
  | inl f ↦ absurd (cc (rw (f, find_group) at e))
  | inr f ↦ (f, rw (f, find_group) at e)
]

new_group-IsSorted :
    (n : Name) (h : List ℕ) (m : Groups)
    → find_group n m ≡ none
    → IsSorted m
    → IsSorted (new_group n h m)
unfolding new_group
new_group-IsSorted n h [] e w = (tt, tt)
new_group-IsSorted n h ((k, g) ∷ r) e (a, w) =
    let (d, f) = find_group-tail n k g r e in
    elim (Bool-cases (name_lt n k)) [
      | inl q ↦ rw (q, new_group) (q, (a, w))
      | inr q ↦
          rw (q, new_group)
            (
              new_group-IsAbove k n h r
                  (name_lt_total n k q (λ p. absurd (cc (d, (name_eq_iff k n).1 (sym p))))) a,
              new_group-IsSorted n h r f w,
            )
    ]

push_group-IsAbove : (k n : Name) (s : ℕ) (m : Groups) → IsAbove k m → IsAbove k (push_group n s m)
unfolding push_group
push_group-IsAbove k n s [] a = a
push_group-IsAbove k n s ((j, g) ∷ r) a = elim (Bool-cases (name_eq j n)) [
  | inl f ↦ rw (f, push_group) a
  | inr f ↦ rw (f, push_group) a
]

push_group-IsSorted : (n : Name) (s : ℕ) (m : Groups) → IsSorted m → IsSorted (push_group n s m)
unfolding push_group
push_group-IsSorted n s [] w = w
push_group-IsSorted n s ((j, g) ∷ r) (a, w) = elim (Bool-cases (name_eq j n)) [
  | inl f ↦ rw (f, push_group) (a, w)
  | inr f ↦ rw (f, push_group) (push_group-IsAbove j n s r a, push_group-IsSorted n s r w)
]

pub add_to-IsSorted : (n : Name) (s : ℕ) (m : Groups) → IsSorted m → IsSorted (add_to n s m)
unfolding add_to
add_to-IsSorted n s m w = elim (Option-cases (find_group n m)) [
  | inl e ↦ rw (e, add_to) (new_group-IsSorted n (s ∷ []) m e w)
  | inr (g, e) ↦ rw (e, add_to) (push_group-IsSorted n s m w)
]

same_name : (n : Name) → name_eq n n ≡ true
same_name n = (name_eq_iff n n).1 refl

-- The group of a name, and those of the others, after a change.
find_group-new_group :
    (n : Name) (h : List ℕ) (m : Groups)
    → find_group n m ≡ none
    → find_group n (new_group n h m) ≡ some h
unfolding new_group find_group
find_group-new_group n h [] e = rw (same_name n, find_group) refl
find_group-new_group n h ((j, g) ∷ r) e =
    let (d, f) = find_group-tail n j g r e in
    elim (Bool-cases (name_lt n j)) [
      | inl q ↦ rw (q, same_name n, find_group, new_group) refl
      | inr q ↦ rw (q, d, find_group, new_group) (find_group-new_group n h r f)
    ]

find_group-new_other :
    (n k : Name) (h : List ℕ) (m : Groups)
    → name_eq k n ≡ false
    → find_group n (new_group k h m) ≡ find_group n m
unfolding new_group find_group
find_group-new_other n k h [] e = rw (e, find_group) refl
find_group-new_other n k h ((j, g) ∷ r) e = elim (Bool-cases (name_lt k j)) [
  | inl q ↦ rw (q, e, find_group, new_group) refl
  | inr q ↦ elim (Bool-cases (name_eq j n)) [
    | inl p ↦ rw (q, p, find_group, new_group) refl
    | inr p ↦ rw (q, p, find_group, new_group) (find_group-new_other n k h r e)
  ]
]

find_group-push_group :
    (n : Name) (s : ℕ) (g : List ℕ) (m : Groups)
    → find_group n m ≡ some g
    → find_group n (push_group n s m) ≡ some (g ++ s ∷ [])
unfolding push_group find_group
find_group-push_group n s g [] e = absurd (cc e)
find_group-push_group n s g ((j, h) ∷ r) e = elim (Bool-cases (name_eq j n)) [
  | inl p ↦
      let q : h ≡ g = cc (rw (p, find_group) at e) in
      rw (p, find_group, push_group, p) (ap (λ l. some (l ++ s ∷ [])) q)
  | inr p ↦
      rw (p, find_group, push_group, p) (find_group-push_group n s g r (rw (p, find_group) at e))
]

find_group-push_other :
    (n k : Name) (s : ℕ) (m : Groups)
    → name_eq k n ≡ false
    → find_group n (push_group k s m) ≡ find_group n m
unfolding push_group find_group
find_group-push_other n k s [] e = refl
find_group-push_other n k s ((j, h) ∷ r) e = elim (Bool-cases (name_eq j k)) [
  | inl p ↦
      let d : name_eq j n ≡ false =
        subst (λ z. name_eq z n ≡ false) (sym ((name_eq_iff j k).0 p)) e in
      rw (p, d, find_group, push_group) refl
  | inr p ↦ elim (Bool-cases (name_eq j n)) [
    | inl q ↦ rw (p, q, find_group, push_group) refl
    | inr q ↦ rw (p, q, find_group, push_group) (find_group-push_other n k s r e)
  ]
]

group_of-add_to :
    (n : Name) (s : ℕ) (m : Groups)
    → group_of (find_group n (add_to n s m)) ≡ group_of (find_group n m) ++ s ∷ []
unfolding add_to
group_of-add_to n s m = elim (Option-cases (find_group n m)) [
  | inl e ↦ rw (e, add_to) (ap group_of (find_group-new_group n (s ∷ []) m e))
  | inr (g, e) ↦ rw (e, add_to) (ap group_of (find_group-push_group n s g m e))
]

find_group-add_other :
    (n k : Name) (s : ℕ) (m : Groups)
    → name_eq k n ≡ false
    → find_group n (add_to k s m) ≡ find_group n m
unfolding add_to
find_group-add_other n k s m e = elim (Option-cases (find_group k m)) [
  | inl f ↦ rw (f, add_to) (find_group-new_other n k (s ∷ []) m e)
  | inr (g, f) ↦ rw (f, add_to) (find_group-push_other n k s m e)
]

-- No name has an empty group.
abbrev pub IsFull : Groups → Type 0
IsFull m = (n : Name) (g : List ℕ) → find_group n m ≡ some g → ¬ (g ≡ [])

pushed_nonempty : (g : List ℕ) (s : ℕ) → ¬ (g ++ s ∷ [] ≡ [])
pushed_nonempty [] s e = cc e
pushed_nonempty (x ∷ g) s e = cc e

add_to-IsFull : (n : Name) (s : ℕ) (m : Groups) → IsFull m → IsFull (add_to n s m)
unfolding add_to
add_to-IsFull n s m w k g e z = elim (Bool-cases (name_eq n k)) [
  | inr d ↦ w k g (sym (find_group-add_other k n s m d) ∙ e) z
  | inl d ↦
      let q : n ≡ k = (name_eq_iff n k).0 d in
      let f : find_group n (add_to n s m) ≡ some g =
        subst (λ x. find_group x (add_to n s m) ≡ some g) (sym q) e in
      let h : g ≡ group_of (find_group n m) ++ s ∷ [] =
        sym (ap group_of f) ∙ group_of-add_to n s m in
      pushed_nonempty (group_of (find_group n m)) s (sym h ∙ z)
]

-- A name is the empty string.
abbrev pub IsNameless : (ℕ → Raw) → (StmtType → Bool) → List ℕ → ℕ → Type 0
IsNameless raw takes l s = In s l × (takes (raw s).type ≡ true) × ((raw s).port_name ≡ [])

-- What a map of the statements by their names is to be.
record Gathered (raw : ℕ → Raw) (takes : StmtType → Bool) (l : List ℕ) (m o : Groups) : Type 0 where
  sorted : IsSorted o
  full : IsFull o
  nonempty : (s : ℕ) → In s l → takes (raw s).type ≡ true → ¬ ((raw s).port_name ≡ [])
  groups : (n : Name) → group_of (find_group n o) ≡ group_of (find_group n m) ++ named raw takes n l

named-cons :
    (raw : ℕ → Raw) (takes : StmtType → Bool) (s : ℕ) (r : List ℕ) (m : Groups) (n : Name)
    → takes (raw s).type ≡ true
    → group_of (find_group n (add_to (raw s).port_name s m)) ++ named raw takes n r
      ≡ group_of (find_group n m) ++ named raw takes n (s ∷ r)
unfolding named
named-cons raw takes s r m n e =
    let k = (raw s).port_name in
    elim (Bool-cases (name_eq k n)) [
      | inl p ↦
          let q = (name_eq_iff k n).0 p in
          rw (e, p, named)
            (subst
              (λ z.
                group_of (find_group z (add_to k s m)) ++ named raw takes n r
                ≡ group_of (find_group z m) ++ s ∷ named raw takes n r)
              q
              (ap (λ l. l ++ named raw takes n r) (group_of-add_to k s m)
                ∙ append_assoc (group_of (find_group k m)) (s ∷ []) (named raw takes n r)))
      | inr p ↦
          rw (e, p, named)
            (ap (λ o. group_of o ++ named raw takes n r) (find_group-add_other n k s m p))
    ]

gather-outcome :
    (raw : ℕ → Raw) (takes : StmtType → Bool) (empty : ℕ → CrossError) (l : List ℕ) (m : Groups)
    → IsSorted m
    → IsFull m
    → ((o : Groups) × (gather raw takes empty l m ≡ crossed o) × Gathered raw takes l m o)
      ⊎ ((s : ℕ) × (gather raw takes empty l m ≡ bad (empty s)) × IsNameless raw takes l s)
unfolding gather named
gather-outcome raw takes empty [] m w v = inl (
  m,
  refl,
  record {
    sorted = w;
    full = v;
    nonempty = λ s i. absurd i;
    groups = λ n. sym (append-nil (group_of (find_group n m)));
  },
)
gather-outcome raw takes empty (s ∷ r) m w v = elim (Bool-cases (takes (raw s).type)) [
  | inr e ↦ elim (gather-outcome raw takes empty r m w v) [
    | inl (o, f, h) ↦ inl (
      o,
      rw (e, gather) f,
      record {
        sorted = h.sorted;
        full = h.full;
        nonempty = λ t i k. elim i [
          | inl q ↦ absurd (cc (e, subst (λ z. takes (raw z).type ≡ true) q k))
          | inr j ↦ h.nonempty t j k
        ];
        groups = λ n. rw (e, named) (h.groups n);
      },
    )
    | inr (t, f, (i, k, z)) ↦ inr (t, rw (e, gather) f, (inr i, k, z))
  ]
  | inl e ↦ elim (Bool-cases (name_eq (raw s).port_name [])) [
    | inl p ↦ inr (s, rw (e, p, gather) refl, (inl refl, e, (name_eq_iff (raw s).port_name []).0 p))
    | inr p ↦
        elim (gather-outcome raw takes empty r (add_to (raw s).port_name s m)
          (add_to-IsSorted (raw s).port_name s m w) (add_to-IsFull (raw s).port_name s m v)) [
            | inl (o, f, h) ↦ inl (
              o,
              rw (e, p, gather) f,
              record {
                sorted = h.sorted;
                full = h.full;
                nonempty = λ t i k. elim i [
                  | inl q ↦ λ z.
                      let own : (raw s).port_name ≡ [] = subst (λ z. (raw z).port_name ≡ []) q z in
                      absurd (cc (p, (name_eq_iff (raw s).port_name []).1 own))
                  | inr j ↦ h.nonempty t j k
                ];
                groups = λ n. h.groups n ∙ named-cons raw takes s r m n e;
              },
            )
            | inr (t, f, (i, k, z)) ↦ inr (t, rw (e, p, gather) f, (inr i, k, z))
          ]
  ]
]

-- The loop that maps names to the statements of some types, from the empty map. Either each statement of
-- these types has a name, and then the names of the map are different and in order, each name in it has
-- a statement, and every name has just the statements of these types with this name, in the order of
-- the program; or a statement of these types that has the empty name is reported.
pub gather-groups :
    (raw : ℕ → Raw) (takes : StmtType → Bool) (empty : ℕ → CrossError) (l : List ℕ)
    → ((o : Groups) × (gather raw takes empty l [] ≡ crossed o)
        × ((s : ℕ) → In s l → takes (raw s).type ≡ true → ¬ ((raw s).port_name ≡ []))
        × IsSorted o
        × IsFull o
        × ((n : Name) → group_of (find_group n o) ≡ named raw takes n l))
      ⊎ ((s : ℕ) × (gather raw takes empty l [] ≡ bad (empty s)) × IsNameless raw takes l s)
unfolding find_group
gather-groups raw takes empty l =
    elim (gather-outcome raw takes empty l [] tt (λ n g e. absurd (cc e))) [
      | inl (o, e, h) ↦ inl (o, e, h.nonempty, h.sorted, h.full, h.groups)
      | inr (s, e, h) ↦ inr (s, e, h)
    ]
