-- ===== src/Graph/Dominators.antt =====
-- src/backend/domtree.h: `DomTree`, the immediate dominators by rounds over a reverse postorder.
-- The parent of a node is a node or null, `none`. A result `none` is too little fuel, or the exception
-- for a node that has no number.
pub mod Merge
pub mod Rounds
pub mod Examples
use autopiper.Prelude.{
  ℕ, zero, suc, ◌==◌, Bool, true, false, ◌||◌, not, List, [], ◌∷◌, Option, none, some,
  if◌then◌else◌, ltb,
}
use autopiper.Graph.{Walk, compute, rpo, rpo_num, preds_of}
use autopiper.Timing.{set}

abbrev pub Parents : Type 0
Parents = ℕ → Option ℕ

-- Equality of pointers that may be null.
abbrev pub same_node : Option ℕ → Option ℕ → Bool
same_node none none = true
same_node none (some y) = false
same_node (some x) none = false
same_node (some x) (some y) = x == y

module _ (w : Walk) where
  -- `rpo1 > rpo2`.
  unfoldable pub later : ℕ → ℕ → Option Bool
  later x y = elim (rpo_num w x) [
    | none ↦ none
    | some i ↦ elim (rpo_num w y) [ none ↦ none | some j ↦ some (ltb j i) ]
  ]

  -- `Merge`.
  unfoldable pub merge : Parents → ℕ → Option ℕ → Option ℕ → Option (Option ℕ)
  merge up zero a b = none
  merge up (suc fuel) none none = some none
  merge up (suc fuel) none (some y) = some none
  merge up (suc fuel) (some x) none = some none
  merge up (suc fuel) (some x) (some y) = elim (x == y) [
    | true ↦ some (some x)
    | false ↦ elim (later x y) [
      | none ↦ none
      | some b ↦ elim b [
        | true ↦ merge up fuel (up x) (some y)
        | false ↦ merge up fuel (some x) (up y)
      ]
    ]
  ]

  -- The first predecessor that is earlier in the order.
  unfoldable pub pick : ℕ → List ℕ → Option (Option ℕ)
  pick n [] = some none
  pick n (p ∷ r) = elim (later n p) [
    | none ↦ none
    | some b ↦ elim b [ true ↦ some (some p) | false ↦ pick n r ]
  ]

  -- The merge of the other predecessors.
  unfoldable pub merge_preds : Parents → ℕ → List ℕ → Option ℕ → Option (Option ℕ)
  merge_preds up fuel [] parent = some parent
  merge_preds up fuel (p ∷ r) parent = elim (same_node (some p) parent) [
    | true ↦ merge_preds up fuel r parent
    | false ↦ elim (merge up fuel parent (some p)) [
      | none ↦ none
      | some q ↦ merge_preds up fuel r q
    ]
  ]

  -- The parent that a node gets.
  unfoldable pub new_parent : Parents → ℕ → ℕ → Option (Option ℕ)
  new_parent up fuel n =
      let preds = preds_of n w.preds in
      elim (pick n preds) [
        | none ↦ none
        | some o ↦ elim o [ none ↦ some none | some p ↦ merge_preds up fuel preds (some p) ]
      ]

  -- A round over the nodes, with `changed`.
  unfoldable pub refine : ℕ → List ℕ → Parents → Bool → Option (Parents × Bool)
  refine fuel [] up changed = some (up, changed)
  refine fuel (n ∷ r) up changed = elim (new_parent up fuel n) [
    | none ↦ none
    | some o ↦ refine fuel r (set n o up) (changed || not (same_node o (up n)))
  ]

  -- The rounds of `Compute`.
  unfoldable pub refine_all : ℕ → ℕ → Parents → Option Parents
  refine_all merges zero up = none
  refine_all merges (suc fuel) up = elim (refine merges (rpo w) up false) [
    | none ↦ none
    | some (v, c) ↦ elim c [ true ↦ refine_all merges fuel v | false ↦ some v ]
  ]

-- `Compute`.
unfoldable pub dominators : (ℕ → List ℕ) → ℕ → List ℕ → Option Parents
dominators succ fuel roots = elim (compute succ fuel roots) [
  | none ↦ none
  | some w ↦ refine_all w fuel fuel (λ n. none)
]

-- `IDom`, for nodes of the tree.
unfoldable pub idom : Parents → ℕ → ℕ → Bool
idom up p n = same_node (up n) (some p)

-- `Dom`, for nodes of the tree.
unfoldable pub dom : Parents → ℕ → ℕ → ℕ → Option Bool
dom up zero p n = none
dom up (suc fuel) p n = elim (n == p) [
  | true ↦ some true
  | false ↦ elim (up n) [ none ↦ some false | some q ↦ dom up fuel p q ]
]
