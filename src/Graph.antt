-- ===== src/Graph.antt =====
-- src/backend/rpo.h: `ReversePostorder`, the depth-first walk from a list of roots.
-- A node is an address, and `succ` is what the template's `SuccFunc` gives for it.
pub mod Visits
pub mod Roots
pub mod Examples
pub mod Dominators
use autopiper.Prelude.{
  ℕ, zero, suc, ◌+◌, ◌==◌, Bool, true, false, List, [], ◌∷◌, ◌++◌, Option, none, some,
  if◌then◌else◌,
}
use autopiper.Prelude.Member.{contains}
use mathlib.Core.List.{reverse}

-- The variables of `DFS`; `preds` holds each pair of a successor and the node that it was found from,
-- in the order of the insertions.
pub record Walk : Type 0 where
  pub visited : List ℕ
  pub postorder : List ℕ
  pub preds : List (ℕ × ℕ)

abbrev pub start : Walk
start = record { visited = []; postorder = []; preds = [] }

module _ (succ : ℕ → List ℕ) where
  -- The loop of `DoDFS` over successors; `go` is `DoDFS`.
  unfoldable pub walk_succs : (ℕ → Walk → Option Walk) → ℕ → List ℕ → Walk → Option Walk
  walk_succs go n [] w = some w
  walk_succs go n (m ∷ r) w = elim (go m (record w { preds = w.preds ++ (m, n) ∷ [] })) [
    | none ↦ none
    | some v ↦ walk_succs go n r v
  ]

  -- `DoDFS`, with fuel for the depth of the calls.
  unfoldable pub walk : ℕ → ℕ → Walk → Option Walk
  walk zero n w = none
  walk (suc fuel) n w = elim (contains n w.visited) [
    | true ↦ some w
    | false ↦ elim (walk_succs (walk fuel) n (succ n) (record w { visited = n ∷ w.visited })) [
      | none ↦ none
      | some v ↦ some (record v { postorder = v.postorder ++ n ∷ [] })
    ]
  ]

  unfoldable pub walk_all : ℕ → List ℕ → Walk → Option Walk
  walk_all fuel [] w = some w
  walk_all fuel (n ∷ r) w = elim (walk fuel n w) [ none ↦ none | some v ↦ walk_all fuel r v ]

  -- `Compute`: the roots are walked in reverse order.
  unfoldable pub compute : ℕ → List ℕ → Option Walk
  compute fuel roots = walk_all fuel (reverse roots) start

  -- `set::erase`.
  unfoldable pub erase : ℕ → List ℕ → List ℕ
  erase x [] = []
  erase x (y ∷ r) = let rest = erase x r in if x == y then rest else y ∷ rest

  -- The removal of all successors of a node from the candidates.
  unfoldable pub erase_all : List ℕ → List ℕ → List ℕ
  erase_all [] l = l
  erase_all (x ∷ r) l = erase_all r (erase x l)

  unfoldable pub roots_among : List ℕ → List ℕ → List ℕ
  roots_among [] l = l
  roots_among (n ∷ r) l = roots_among r (erase_all (succ n) l)

  -- `FindRoots`; the set of pointers stands in the order of the list, not of the addresses.
  unfoldable pub find_roots : List ℕ → List ℕ
  find_roots nodes = roots_among nodes nodes

-- `RPO`.
unfoldable pub rpo : Walk → List ℕ
rpo w = reverse w.postorder

index_from : ℕ → ℕ → List ℕ → Option ℕ
index_from i n [] = none
index_from i n (m ∷ r) = let rest = index_from (i + 1) n r in if m == n then some i else rest

-- `RPONum`; `none` is the exception of `map::at`.
unfoldable pub rpo_num : Walk → ℕ → Option ℕ
unfolding index_from rpo
rpo_num w n = index_from 0 n (rpo w)

-- `Preds`.
unfoldable pub preds_of : ℕ → List (ℕ × ℕ) → List ℕ
preds_of n [] = []
preds_of n ((m, p) ∷ r) = let rest = preds_of n r in if m == n then p ∷ rest else rest
