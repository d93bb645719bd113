-- ===== src/Timing/Pipes/Examples.antt =====
-- src/backend/pipe-timing.cc: two pipes of one statement each.
use autopiper.Prelude.{
  ℕ, zero, suc, ◌≡◌, refl, inl, List, [], ◌∷◌, Option, none, some, ◌==◌, if◌then◌else◌, arith,
}
use autopiper.Prelude.Int.{ℤ, pos, ◌+ℤ◌, ◌-ℤ◌}
use autopiper.Prelude.Member.{In, contains}
use autopiper.Graph.{
  compute, walk_all, walk, walk_succs, rpo, find_roots, roots_among, erase_all, erase,
}
use autopiper.Timing.{new_node, set}
use autopiper.Timing.Build.{Builder, lookup, insert, add_node, get_var, add_var, add_edge}
use autopiper.Timing.Cycles.{check_for_cycles, search_all, search_from, turn, follow, clear}
use autopiper.Timing.Phase.{
  do_phase, pass, visit, natural, input, input_forward, input_backward, pushes, bump, bump_by,
  default_place, snap, settle, push_vars, push_var, moved,
}
use autopiper.Timing.Stages.{set_anchors, find_stage_sets, max_stage, empty_stages, collect, add_at}
use autopiper.Timing.Solve.{Begun, begin, solve, first_phase, last_phase}
use autopiper.Timing.Pipes.{
  Wires, no_builder, PipeStage, Staging, Timed, timed, add_nodes, add_edges, wire, wire_all, build,
  extend, push_back, place_stage, place_all, give_stages, time_pipe,
}
use autopiper.Timing.Pipes.Wired.{IsWired, Has, build-Has}
use autopiper.Timing.Pipes.Begun.{KeepsOrder, build-begin}
use autopiper.Timing.Cycles.Decides.{cost}
use autopiper.Timing.Schedule.Stable.{room}
use autopiper.Timing.Pipes.Extended.{nodes_at}
use autopiper.Timing.Pipes.Pointed.{IsStageOf, give_stages-IsStageOf}
use autopiper.Timing.Pipes.Staged.{IsDistributed, give_stages-IsDistributed}

-- The statement 1 of pipe 1 takes the result of the statement 0 of pipe 0.
abbrev two : ℕ → Wires
two zero = record {
  args = [];
  pipedag_deps = [];
  valid_in = none;
  timevar = none;
  time_offset = pos 0;
  pipe = 0;
}
two _ = record {
  args = 0 ∷ [];
  pipedag_deps = [];
  valid_in = none;
  timevar = some 3;
  time_offset = pos 1;
  pipe = 1;
}

abbrev stmts : List ℕ
stmts = 0 ∷ 1 ∷ []

abbrev delay_three : ℕ → ℤ
delay_three s = pos 3

abbrev stages_of : ℕ → Option Timed → List PipeStage
stages_of q (some (timed p)) = p.stages q
stages_of q _ = []

-- The same with the addresses 5 and 7.
abbrev apart : ℕ → Wires
apart s = if s == 5 then two 0 else record (two 1) { args = 5 ∷ [] }

abbrev stage_of_stmt : ℕ → Option Timed → Option (ℕ × ℕ)
stage_of_stmt s (some (timed p)) = p.stage_of s
stage_of_stmt s _ = none

two_pipes :
    (stages_of 1 (time_pipe (pos 5) 200 delay_three apart (5 ∷ 7 ∷ []))
      ≡ (record { stage = 0; stmts = [] })
        ∷ (record { stage = 1; stmts = [] })
        ∷ (record { stage = 2; stmts = 7 ∷ [] })
        ∷ [])
    × (stage_of_stmt 7 (time_pipe (pos 5) 200 delay_three apart (5 ∷ 7 ∷ [])) ≡ some (1, 2))
unfolding time_pipe build wire_all wire add_edges add_nodes add_node get_var add_var add_edge lookup
    insert new_node solve first_phase last_phase begin check_for_cycles search_all search_from turn
    follow clear contains set compute walk_all walk walk_succs rpo find_roots roots_among erase_all
    erase do_phase pass visit natural input input_forward input_backward pushes bump bump_by
    default_place snap settle push_vars push_var moved set_anchors find_stage_sets max_stage
    empty_stages collect add_at ◌+ℤ◌ ◌-ℤ◌ give_stages place_all place_stage extend push_back
two_pipes = (refl, refl)

two-IsWired : (s : ℕ) → In s stmts → IsWired stmts (two s)
two-IsWired zero i = (tt, tt, λ v e. absurd (cc))
two-IsWired (suc s) i = ((inl refl, tt), tt, λ v e. absurd (cc))

build-Has_example : (b : Builder) × (build delay_three two stmts ≡ some b) × Has stmts b
build-Has_example = build-Has delay_three two stmts two-IsWired

abbrev built_of : Option Builder → Builder
built_of none = no_builder
built_of (some b) = b

abbrev two_built : Builder
two_built = built_of (build delay_three two stmts)

build-begin_example :
    (v : Begun) × (begin (pos 5) 200 two_built.nodes two_built.dag ≡ some v)
    × KeepsOrder (pos 5) two stmts two_built v
unfolding build wire_all wire add_edges add_nodes add_node get_var add_var add_edge lookup insert
    new_node set cost contains room
build-begin_example =
    build-begin (pos 5) 200 delay_three two stmts two_built two-IsWired refl (omega arith)
      (omega arith) (omega arith)

give_stages-IsDistributed_example :
    (o : Staging) × (give_stages two ((0 ∷ []) ∷ (1 ∷ []) ∷ []) ≡ some o)
    × IsDistributed two ((0 ∷ []) ∷ (1 ∷ []) ∷ []) o
give_stages-IsDistributed_example = give_stages-IsDistributed two ((0 ∷ []) ∷ (1 ∷ []) ∷ [])

give_stages-IsStageOf_example :
    (o : Staging) × (give_stages two ((0 ∷ []) ∷ (1 ∷ []) ∷ []) ≡ some o)
    × ((s j : ℕ)
        → In s (nodes_at ((0 ∷ []) ∷ (1 ∷ []) ∷ []) j)
        → (k : ℕ × ℕ) × (o.stage_of s ≡ some k))
    × ((s : ℕ) (k : ℕ × ℕ) → o.stage_of s ≡ some k → IsStageOf two o s k)
give_stages-IsStageOf_example = give_stages-IsStageOf two ((0 ∷ []) ∷ (1 ∷ []) ∷ [])
