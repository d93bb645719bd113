-- ===== src/Timing/Stages.antt =====
-- src/backend/timing-dag.h: `SetAnchors`, `FindStageSets` and `StageCount`.
use autopiper.Prelude.{
  ℕ, zero, suc, ◌+◌, ◌<◌, ◌≤◌, ◌==◌, ◌≡◌, refl, sym, ◌∙◌, ap, subst, inl, inr, Bool, true, false,
  not, ◌&&◌, ◌||◌, List, [], ◌∷◌, ◌++◌, Option, none, some, if◌then◌else◌, length, get_elem?, arith,
  Bool-cases, All,
}
use autopiper.Prelude.Int.{ℤ, pos, negsuc, eq_ℤ, ltb_ℤ}
use autopiper.Timing.{Node, unknown, known, set}
use mathlib.Core.List.{append_assoc, append-nil}

abbrev is_empty : List ℕ → Bool
is_empty [] = true
is_empty _ = false

-- `SetAnchors`, over the nodes in the order they were added.
unfoldable pub set_anchors : List ℕ → (ℕ → Node) → ℕ → Node
set_anchors [] at = at
set_anchors (i ∷ r) at =
    let n = at i in
    set_anchors r (
      if n.lifted || is_empty n.outs
      then set i (record n { anchored = true; anchored_stage = n.stage }) at
      else at)

-- The first loop of `FindStageSets`.
unfoldable pub max_stage : (ℕ → Node) → List ℕ → ℤ → ℤ
max_stage at [] m = m
max_stage at (i ∷ r) m =
    let s = (at i).stage in
    max_stage at r (if known s && (not (known m) || ltb_ℤ m s) then s else m)

empty_stages_by : ℕ → List (List ℕ)
empty_stages_by zero = []
empty_stages_by (suc n) = [] ∷ empty_stages_by n

-- The second loop of `FindStageSets`: a stage for each number up to the greatest.
unfoldable pub empty_stages : ℤ → List (List ℕ)
unfolding empty_stages_by
empty_stages (pos n) = empty_stages_by (n + 1)
empty_stages (negsuc n) = []

-- `stages_[k]->nodes.push_back(i)`; `none` is out of range.
unfoldable pub add_at : ℕ → ℕ → List (List ℕ) → Option (List (List ℕ))
add_at k i [] = none
add_at zero i (l ∷ r) = some ((l ++ i ∷ []) ∷ r)
add_at (suc k) i (l ∷ r) = elim (add_at k i r) [ none ↦ none | some q ↦ some (l ∷ q) ]

abbrev add_stage : ℤ → ℕ → List (List ℕ) → Option (List (List ℕ))
add_stage (pos k) i ss = add_at k i ss
add_stage (negsuc k) i ss = none

-- The third loop of `FindStageSets`.
unfoldable pub collect : (ℕ → Node) → List ℕ → List (List ℕ) → Option (List (List ℕ))
collect at [] ss = some ss
collect at (i ∷ r) ss = elim (add_stage (at i).stage i ss) [ none ↦ none | some q ↦ collect at r q ]

unfoldable pub find_stage_sets : (ℕ → Node) → List ℕ → Option (List (List ℕ))
find_stage_sets at nodes = collect at nodes (empty_stages (max_stage at nodes unknown))

-- The nodes of a stage, in order.
abbrev pub of_stage : (ℕ → Node) → ℕ → List ℕ → List ℕ
of_stage at k [] = []
of_stage at k (i ∷ r) =
    let rest = of_stage at k r in if eq_ℤ (at i).stage (pos k) then i ∷ rest else rest

suc-== : (j k : ℕ) → (suc j == suc k) ≡ (j == k)
suc-== j k = elim (Bool-cases (j == k)) [ inl e ↦ ground arith | inr e ↦ ground arith ]

zero-==-suc : (k : ℕ) → (zero == suc k) ≡ false
zero-==-suc k = ground arith

-- What the stage `k` has after a node is added to the stage `j`.
abbrev added : ℕ → ℕ → ℕ → List ℕ → List ℕ
added j k i l = if j == k then l ++ i ∷ [] else l

added-zero :
    (i : ℕ) (l : List ℕ) (r : List (List ℕ)) (k : ℕ) (m : List ℕ)
    → get_elem? (l ∷ r) k ≡ some m
    → get_elem? ((l ++ i ∷ []) ∷ r) k ≡ some (added zero k i m)
added-zero i l r zero m e =
    ap (λ (o : Option (List ℕ)). elim o [ none ↦ none | some x ↦ some (x ++ i ∷ []) ]) e
added-zero i l r (suc k) m e =
    e ∙ ap (λ b. some (if b then m ++ i ∷ [] else m)) (sym (zero-==-suc k))

added-suc :
    (j i : ℕ) (l : List ℕ) (r q : List (List ℕ)) (k : ℕ) (m : List ℕ)
    → ((k : ℕ) (m : List ℕ) → get_elem? r k ≡ some m → get_elem? q k ≡ some (added j k i m))
    → get_elem? (l ∷ r) k ≡ some m
    → get_elem? (l ∷ q) k ≡ some (added (suc j) k i m)
added-suc j i l r q zero m f e = e ∙ ground arith
added-suc j i l r q (suc k) m f e =
    f k m e ∙ ap (λ b. some (if b then m ++ i ∷ [] else m)) (sym (suc-== j k))

-- A stage's nodes, before and after one is added.
get_elem?-add_at :
    (j i : ℕ) (ss : List (List ℕ))
    → j < length ss
    → (qs : List (List ℕ)) × (add_at j i ss ≡ some qs)
      × (length qs ≡ length ss)
      × ((k : ℕ) (l : List ℕ) → get_elem? ss k ≡ some l → get_elem? qs k ≡ some (added j k i l))
unfolding add_at
get_elem?-add_at j i [] h = absurd (omega arith)
get_elem?-add_at zero i (l ∷ r) h = ((l ++ i ∷ []) ∷ r, refl, refl, added-zero i l r)
get_elem?-add_at (suc j) i (l ∷ r) h =
    let (q, e, n, f) = get_elem?-add_at j i r (omega arith) in
    (l ∷ q, rw (e, add_at) refl, ap suc n, λ k m. added-suc j i l r q k m f)

-- Each node of the list is in a stage below a bound.
abbrev pub InRange : (ℕ → Node) → ℕ → List ℕ → Type 0
InRange at n [] = Unit
InRange at n (i ∷ r) = ((k : ℕ) × ((at i).stage ≡ pos k) × (k < n)) × InRange at n r

of_stage-cons :
    (at : ℕ → Node) (i j k : ℕ) (r l : List ℕ)
    → (at i).stage ≡ pos j
    → added j k i l ++ of_stage at k r ≡ l ++ of_stage at k (i ∷ r)
of_stage-cons at i j k r l e = elim (Bool-cases (j == k)) [
  | inl f ↦ rw (e, f) (append_assoc l (i ∷ []) (of_stage at k r))
  | inr f ↦ rw (e, f) refl
]

collect-step :
    (at : ℕ → Node) (i j : ℕ) (r : List ℕ) (ss q z : List (List ℕ))
    → (at i).stage ≡ pos j
    → add_at j i ss ≡ some q
    → collect at r q ≡ some z
    → collect at (i ∷ r) ss ≡ some z
unfolding collect
collect-step at i j r ss q z e a b = rw (e, a, b, collect) refl

collect-of_stage :
    (at : ℕ → Node) (nodes : List ℕ) (ss : List (List ℕ))
    → InRange at (length ss) nodes
    → (qs : List (List ℕ)) × (collect at nodes ss ≡ some qs)
      × (length qs ≡ length ss)
      × ((k : ℕ) (l : List ℕ)
          → get_elem? ss k ≡ some l
          → get_elem? qs k ≡ some (l ++ of_stage at k nodes))
unfolding collect
collect-of_stage at [] ss h = (ss, refl, refl, λ k l e. e ∙ ap some (sym (append-nil l)))
collect-of_stage at (i ∷ r) ss ((j, e, lt), h) =
    let (q, a, n, f) = get_elem?-add_at j i ss lt in
    let (z, b, m, g) = collect-of_stage at r q (subst (λ x. InRange at x r) (sym n) h) in
    (
      z,
      collect-step at i j r ss q z e a b,
      m ∙ n,
      λ k l p. g k (added j k i l) (f k l p) ∙ ap some (of_stage-cons at i j k r l e),
    )

-- The number of stages when the greatest is known.
abbrev limit : ℤ → ℕ
limit (pos n) = n + 1
limit (negsuc n) = 0

length-empty_stages_by : (n : ℕ) → length (empty_stages_by n) ≡ n
unfolding empty_stages_by
length-empty_stages_by zero = refl
length-empty_stages_by (suc n) = ap suc (length-empty_stages_by n)

length-empty_stages : (m : ℤ) → length (empty_stages m) ≡ limit m
unfolding empty_stages
length-empty_stages (pos n) = length-empty_stages_by (n + 1)
length-empty_stages (negsuc n) = refl

get_elem?-empty_stages_by : (n k : ℕ) → k < n → get_elem? (empty_stages_by n) k ≡ some []
unfolding empty_stages_by
get_elem?-empty_stages_by zero k h = absurd (omega arith)
get_elem?-empty_stages_by (suc n) zero h = refl
get_elem?-empty_stages_by (suc n) (suc k) h = get_elem?-empty_stages_by n k (omega arith)

get_elem?-empty_stages : (m : ℤ) (k : ℕ) → k < limit m → get_elem? (empty_stages m) k ≡ some []
unfolding empty_stages
get_elem?-empty_stages (pos n) k h = get_elem?-empty_stages_by (n + 1) k h
get_elem?-empty_stages (negsuc n) k h = absurd (omega arith)

abbrev higher : ℤ → ℤ → ℤ
higher m s = if known s && (not (known m) || ltb_ℤ m s) then s else m

limit-higher :
    (m : ℤ) (k : ℕ) → (limit m ≤ limit (higher m (pos k))) × (k < limit (higher m (pos k)))
limit-higher (pos n) k = ground arith
limit-higher (negsuc n) k = ground arith

-- Each node of the list has a stage that is not negative.
abbrev pub IsPlaced : (ℕ → Node) → ℕ → Type 0
IsPlaced at i = (k : ℕ) × ((at i).stage ≡ pos k)

max_stage-InRange :
    (at : ℕ → Node) (nodes : List ℕ) (m : ℤ)
    → All (IsPlaced at) nodes
    → (limit m ≤ limit (max_stage at nodes m)) × InRange at (limit (max_stage at nodes m)) nodes
unfolding max_stage
max_stage-InRange at [] m h = (omega arith, tt)
max_stage-InRange at (i ∷ r) m ((k, e), h) =
    let (a, b) = max_stage-InRange at r (higher m (at i).stage) h in
    let (c, d) =
      subst (λ s. (limit m ≤ limit (higher m s)) × (k < limit (higher m s))) (sym e)
        (limit-higher m k) in
    (omega (arith, a, c), ((k, e, omega (arith, a, d)), b))

-- If each node has a stage that is not negative, then `FindStageSets` adds no node out of range, and
-- gives for each stage, below a number above the stage of every node, the nodes of that stage in the
-- order in which they were added.
pub find_stage_sets-of_stage :
    (at : ℕ → Node) (nodes : List ℕ)
    → All (IsPlaced at) nodes
    → (ss : List (List ℕ)) × (find_stage_sets at nodes ≡ some ss)
      × InRange at (length ss) nodes
      × ((k : ℕ) → k < length ss → get_elem? ss k ≡ some (of_stage at k nodes))
unfolding find_stage_sets
find_stage_sets-of_stage at nodes h =
    let m = max_stage at nodes unknown in
    let (a, range) = max_stage-InRange at nodes unknown h in
    let n = length-empty_stages m in
    let (ss, e, l, f) =
      collect-of_stage at nodes (empty_stages m) (subst (λ x. InRange at x nodes) (sym n) range) in
    (
      ss,
      e,
      subst (λ x. InRange at x nodes) (sym (l ∙ n)) range,
      λ k lt. f k [] (get_elem?-empty_stages m k (omega (arith, lt, l, n))),
    )
