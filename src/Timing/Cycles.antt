-- ===== src/Timing/Cycles.antt =====
-- src/backend/timing-dag.h: `TimingDAG::CheckForCycles`, a depth-first search on a stack of its own.
-- `succ` gives the other ends of a node's out-edges.
pub mod Invariant
pub mod Decides
pub mod Examples
use autopiper.Prelude.{
  ℕ, zero, suc, ◌+◌, ◌==◌, Bool, true, false, List, [], ◌∷◌, Option, none, some, if◌then◌else◌,
  length, get_elem?,
}
use autopiper.Prelude.Member.{contains}
use autopiper.Timing.{set}

-- The stack of nodes with the edge that is next, and the flags `cycle_check_visiting` and
-- `cycle_check_visited`; the nodes with the latter are listed from the last on.
pub record Search : Type 0 where
  pub stack : List (ℕ × ℕ)
  pub visiting : ℕ → Bool
  pub visited : List ℕ

-- What the search finds: no cycle yet, or an edge back to a node that is being visited.
pub data Found : Type 0 where
  searched : Search → Found
  cycle : ℕ → ℕ → Found

-- No node has a flag.
unfoldable pub clear : Search
clear = record { stack = []; visiting = λ n. false; visited = [] }

module _ (succ : ℕ → List ℕ) where
  -- An edge from the top of the stack.
  unfoldable pub follow : ℕ → ℕ → ℕ → List (ℕ × ℕ) → Search → Found
  follow n idx to r s =
      let visiting = set n true s.visiting in
      if visiting to
      then cycle n to
      else if contains to s.visited
      then searched (record s { stack = (n, idx + 1) ∷ r; visiting = visiting })
      else searched (record s { stack = (to, 0) ∷ (n, idx + 1) ∷ r; visiting = visiting })

  -- The body of the `while` loop, on a stack with a top; past the last edge, the node is visited.
  unfoldable pub turn : ℕ → ℕ → List (ℕ × ℕ) → Search → Found
  turn n idx r s = elim (get_elem? (succ n) idx) [
    | none ↦
        searched (record { stack = r; visiting = set n false s.visiting; visited = n ∷ s.visited })
    | some to ↦ follow n idx to r s
  ]

  abbrev pub on_stack : List (ℕ × ℕ) → Search → (Search → Option Found) → Option Found
  on_stack [] s go = some (searched s)
  on_stack ((n, idx) ∷ r) s go = elim (turn n idx r s) [
    | cycle a b ↦ some (cycle a b)
    | searched t ↦ go t
  ]

  -- The `while` loop, on fuel.
  unfoldable pub search_from : ℕ → Search → Option Found
  search_from zero s = none
  search_from (suc fuel) s = on_stack s.stack s (search_from fuel)

  -- The loop over the nodes.
  unfoldable pub search_all : ℕ → List ℕ → Search → Option Found
  search_all fuel [] s = some (searched s)
  search_all fuel (n ∷ r) s = elim (contains n s.visited) [
    | true ↦ search_all fuel r s
    | false ↦ elim (search_from fuel (record s { stack = (n, 0) ∷ s.stack })) [
      | none ↦ none
      | some f ↦ elim f [ cycle a b ↦ some (cycle a b) | searched t ↦ search_all fuel r t ]
    ]
  ]

  abbrev answer : Option Found → Option Bool
  answer none = none
  answer (some (searched s)) = some true
  answer (some (cycle a b)) = some false

  -- `CheckForCycles`.
  unfoldable pub check_for_cycles : ℕ → List ℕ → Option Bool
  check_for_cycles fuel nodes = answer (search_all fuel nodes clear)
