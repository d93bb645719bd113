-- ===== src/Timing/Solve.antt =====
-- src/backend/timing-dag.h: `TimingDAG::Solve`.
pub mod Correct
pub mod Examples
use autopiper.Prelude.{ℕ, Bool, true, false, List, Option, none, some}
use autopiper.Prelude.Int.{ℤ}
use autopiper.Graph.{Walk, compute, find_roots, rpo}
use autopiper.Timing.{Node, Dag}
use autopiper.Timing.Cycles.{check_for_cycles}
use autopiper.Timing.Phase.{Visit, placed, do_phase}
use autopiper.Timing.Stages.{set_anchors, find_stage_sets}

-- What the first half comes to: a cycle is reported, or the first phase ran in an order.
pub data Begun : Type 0 where
  cyclic : Begun
  phased : List ℕ → Visit → Begun

-- What `Solve` comes to; `stopped` is an error in a phase, `out_of_range` a stage that is not there.
pub data Solved : Type 0 where
  not_acyclic : Solved
  stopped : Visit → Solved
  out_of_range : Solved
  solved : Dag → List (List ℕ) → Solved

abbrev pub outs_of : Dag → ℕ → List ℕ
outs_of g i = (g.node_at i).outs

module _ (per_stage : ℤ) (fuel : ℕ) (nodes : List ℕ) where
  -- The first phase, over the reverse postorder.
  unfoldable pub first_phase : Dag → Option Walk → Option Begun
  first_phase g none = none
  first_phase g (some w) = elim (do_phase per_stage true false fuel (rpo w) g) [
    | none ↦ none
    | some v ↦ some (phased (rpo w) v)
  ]

  -- `Solve` to the end of the first phase.
  unfoldable pub begin : Dag → Option Begun
  begin g = elim (check_for_cycles (outs_of g) fuel nodes) [
    | none ↦ none
    | some b ↦ elim b [
      | false ↦ some cyclic
      | true ↦ first_phase g (compute (outs_of g) fuel (find_roots (outs_of g) nodes))
    ]
  ]

  unfoldable pub last_phase : List ℕ → Dag → Option Solved
  last_phase order h = elim (do_phase per_stage false true fuel order h) [
    | none ↦ none
    | some (placed k d) ↦ elim (find_stage_sets k.node_at nodes) [
      | none ↦ some out_of_range
      | some ss ↦ some (solved k ss)
    ]
    | some v ↦ some (stopped v)
  ]

  -- `Solve`: the anchors, the second phase and the sets of the stages.
  unfoldable pub solve : Dag → Option Solved
  solve g = elim (begin g) [
    | none ↦ none
    | some cyclic ↦ some not_acyclic
    | some (phased order (placed h c)) ↦
        last_phase order (record h { node_at = set_anchors nodes h.node_at })
    | some (phased order v) ↦ some (stopped v)
  ]
