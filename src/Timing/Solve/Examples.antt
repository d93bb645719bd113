-- ===== src/Timing/Solve/Examples.antt =====
-- src/backend/timing-dag.h: `Solve` on two nodes, one of which takes the other's result.
use autopiper.Prelude.{ℕ, ◌≡◌, refl, inl, List, [], ◌∷◌, Option, some, false, arith}
use autopiper.Prelude.Int.{pos, ◌+ℤ◌, ◌-ℤ◌}
use autopiper.Prelude.Member.{contains}
use autopiper.Graph.{
  compute, walk_all, walk, walk_succs, rpo, find_roots, roots_among, erase_all, erase,
}
use autopiper.Graph.Examples.{edge, edge_back, edge_both, edge_inside}
use autopiper.Timing.{Node, Dag, unknown, set}
use autopiper.Timing.Cycles.{check_for_cycles, search_all, search_from, turn, follow, clear}
use autopiper.Timing.Cycles.Decides.{cost}
use autopiper.Timing.Phase.{
  do_phase, pass, visit, natural, input, input_forward, input_backward, pushes, bump, bump_by,
  default_place, snap, settle, push_vars, push_var, moved,
}
use autopiper.Timing.Stages.{set_anchors, find_stage_sets, max_stage, empty_stages, collect, add_at}
use autopiper.Timing.Schedule.Stable.{room}
use autopiper.Timing.Solve.{Begun, Solved, solved, begin, solve, first_phase, last_phase}
use autopiper.Timing.Solve.Correct.{IsBegun, begin-IsBegun}

-- Both have the delay 3, and name one variable.
abbrev two : ℕ → Node
two i = record {
  lifted = false;
  delay = pos 3;
  stage = unknown;
  stage_offset = unknown;
  anchored = false;
  anchored_stage = unknown;
  ins = edge_back i;
  outs = edge i;
  vars = (0, pos i) ∷ [];
}

abbrev graph : Dag
graph = record { node_at = two; var_at = λ v. record { stage = unknown; updates = 0 } }

abbrev sets_of : Option Solved → List (List ℕ)
sets_of (some (solved g ss)) = ss
sets_of _ = []

two_stages : sets_of (solve (pos 5) 200 (0 ∷ 1 ∷ []) graph) ≡ (0 ∷ []) ∷ (1 ∷ []) ∷ []
unfolding solve first_phase last_phase begin check_for_cycles search_all search_from turn follow
    clear contains set compute walk_all walk walk_succs rpo find_roots roots_among erase_all erase
    do_phase pass visit natural input input_forward input_backward pushes bump bump_by default_place
    snap settle push_vars push_var moved set_anchors find_stage_sets max_stage empty_stages collect
    add_at ◌+ℤ◌ ◌-ℤ◌
two_stages = refl

begin-IsBegun_example :
    (b : Begun) × (begin (pos 5) 200 (0 ∷ 1 ∷ []) graph ≡ some b)
    × IsBegun (pos 5) (0 ∷ 1 ∷ []) graph b
unfolding cost contains room
begin-IsBegun_example =
    begin-IsBegun (pos 5) 200 (0 ∷ 1 ∷ []) (0 ∷ []) graph
      (record { both_ends = edge_both; edges_in = edge_inside; vars_in = λ i. (inl refl, tt) })
      (omega arith) (omega arith) (omega arith)
