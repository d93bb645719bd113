-- ===== src/Timing/Examples.antt =====
-- src/backend/timing-dag.h and pipe-timing.cc: the placement of a graph of three nodes, and delays.
use autopiper.Ir.{Stmt, expr, op_cmp_lt, op_add}
use autopiper.Timing.Delay.{delay, log2, log2_by, expr_delay, add_stages}
use autopiper.Timing.Comparisons.{delay-compare, log2-bounds}
use autopiper.Typecheck.Stmts.Typing.{check_stmt_iff}
use autopiper.Prelude.{
  ℕ, zero, suc, ◌+◌, ◌^◌, ◌≤◌, ◌<◌, ◌≡◌, refl, inl, inr, true, false, some, length, get_elem?, List,
  [], ◌∷◌, arith,
}
use autopiper.Prelude.Int.{ℤ, pos, negsuc, ◌+ℤ◌, ◌-ℤ◌}
use autopiper.Timing.{Node, Var, Dag, unknown, set}
use autopiper.Timing.Phase.{
  Visit, placed, pass, visit, natural, input, input_forward, pushes, bump, bump_by, default_place,
  snap, settle, push_vars, push_var, moved,
}
use autopiper.Timing.Stages.{
  set_anchors, find_stage_sets, max_stage, empty_stages, collect, add_at, InRange, of_stage,
  find_stage_sets-of_stage,
}
use autopiper.Timing.Schedule.Pass.{Outcome, pass-Outcome}

abbrev node : ℤ → List ℕ → List ℕ → List (ℕ × ℤ) → Node
node delay ins outs vars = record {
  lifted = false;
  delay = delay;
  stage = unknown;
  stage_offset = unknown;
  anchored = false;
  anchored_stage = unknown;
  ins = ins;
  outs = outs;
  vars = vars;
}

-- Node 2 takes the results of nodes 0 and 1; node 1 that of node 0.
abbrev nodes : ℕ → Node
nodes zero = node (pos 3) [] (1 ∷ 2 ∷ []) []
nodes (suc zero) = node (pos 2) (0 ∷ []) (2 ∷ []) ((0, pos 2) ∷ [])
nodes _ = node (pos 4) (0 ∷ 1 ∷ []) [] []

abbrev some_var : Var
some_var = record { stage = unknown; updates = 0 }

abbrev graph : Dag
graph = record { node_at = nodes; var_at = λ v. some_var }

abbrev stages_of : Visit → List ℤ
stages_of (placed h c) =
    (h.node_at 0).stage
    ∷ (h.node_at 1).stage
    ∷ (h.node_at 1).stage_offset
    ∷ (h.node_at 2).stage
    ∷ (h.var_at 0).stage
    ∷ []
stages_of _ = []

-- Node 1 fits behind node 0 in stage 0, node 2 does not; the variable gets the stage that node 1 had.
placed_by_pass :
    stages_of (pass (pos 5) true false (0 ∷ 1 ∷ 2 ∷ []) graph false)
    ≡ pos 0 ∷ pos 0 ∷ pos 3 ∷ pos 1 ∷ negsuc 2 ∷ []
unfolding pass visit natural input input_forward pushes bump bump_by default_place snap settle
    push_vars push_var moved set ◌+ℤ◌ ◌-ℤ◌
placed_by_pass = refl

pass-Outcome_example :
    Outcome (pos 5) (0 ∷ 1 ∷ 2 ∷ []) graph (pass (pos 5) true false (0 ∷ 1 ∷ 2 ∷ []) graph false)
pass-Outcome_example = pass-Outcome (pos 5) (0 ∷ 1 ∷ 2 ∷ []) graph false (
  (λ i. i),
  tt,
  (
    λ i. elim i [ inl e ↦ absurd (omega (arith, e)) | inr i ↦ i ],
    (inl refl, tt),
    (
      λ i. elim i [
        | inl e ↦ absurd (omega (arith, e))
        | inr i ↦ elim i [ inl e ↦ absurd (omega (arith, e)) | inr i ↦ i ]
      ],
      (inr (inl refl), (inl refl, tt)),
      tt,
    ),
  ),
)

-- The nodes with the stages 0, 0 and 1.
abbrev staged : ℕ → Node
staged zero = record (nodes 0) { stage = pos 0 }
staged (suc zero) = record (nodes 1) { stage = pos 0 }
staged (suc (suc n)) = record (nodes 2) { stage = pos 1 }

anchored_last : (set_anchors (0 ∷ 1 ∷ 2 ∷ []) staged 2).anchored_stage ≡ pos 1
unfolding set_anchors set
anchored_last = refl

sets_of_staged : find_stage_sets staged (0 ∷ 1 ∷ 2 ∷ []) ≡ some ((0 ∷ 1 ∷ []) ∷ (2 ∷ []) ∷ [])
unfolding find_stage_sets max_stage empty_stages collect add_at
sets_of_staged = refl

find_stage_sets-of_stage_example :
    (ss : List (List ℕ)) × (find_stage_sets staged (0 ∷ 1 ∷ 2 ∷ []) ≡ some ss)
    × InRange staged (length ss) (0 ∷ 1 ∷ 2 ∷ [])
    × ((k : ℕ) → k < length ss → get_elem? ss k ≡ some (of_stage staged k (0 ∷ 1 ∷ 2 ∷ [])))
find_stage_sets-of_stage_example =
    find_stage_sets-of_stage staged (0 ∷ 1 ∷ 2 ∷ []) ((0, refl), ((0, refl), ((1, refl), tt)))

abbrev statement : ℤ → List ℕ → Stmt
statement width args = record {
  type = expr;
  op = op_cmp_lt;
  bb = 0;
  args = args;
  constant = pos 0;
  targets = [];
  width = width;
}

-- The operands have 64 bits.
abbrev operands : ℕ → Stmt
operands a = statement (pos 64) []

abbrev compared : Stmt
compared = statement (pos 1) (0 ∷ 1 ∷ [])

-- An addition of 64 bits has the delay 26.
sum_delay :
    delay (λ n. n) operands (record compared { op = op_add; width = pos 64 }) ≡ some (pos 26)
unfolding delay expr_delay add_stages log2 log2_by
sum_delay = refl

delay-compare_example : delay (λ n. n) operands compared ≡ some (pos 2)
delay-compare_example =
    delay-compare (λ n. n) operands (λ n. n) compared refl refl
      ((check_stmt_iff operands (λ n. n) compared).1
        ((λ e. absurd (cc e)), (pos 64, (0, refl, refl), (1, refl, refl), refl)))

log2-bounds_example : (2 ^ log2 (pos 20) ≤ 20) × (20 < 2 ^ (log2 (pos 20) + 1))
log2-bounds_example = log2-bounds 20 (omega arith)
