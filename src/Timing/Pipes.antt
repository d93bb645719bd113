-- ===== src/Timing/Pipes.antt =====
-- src/backend/pipe-timing.cc: `PipeTimer::TimePipe`, which builds the graph of all pipes, solves it
-- and gives each pipe its stages. A statement and a timing variable are addresses; the delays are the
-- model's. No statement is lifted.
pub mod Wired
pub mod Begun
pub mod Linked
pub mod Pointed
pub mod Staged
pub mod Extended
pub mod Examples
use autopiper.Prelude.{
  map, ◌-◌, ℕ, zero, suc, ◌+◌, ◌<◌, ◌==◌, ◌≡◌, Bool, true, false, List, [], ◌∷◌, ◌++◌, Option, none,
  some, if◌then◌else◌, length, ltb,
}
use autopiper.Prelude.Int.{ℤ}
use autopiper.Timing.{Dag, Node, Var, new_node, unknown, set}
use autopiper.Timing.Build.{Builder, add_node, add_edge, add_var}
use autopiper.Timing.Solve.{Solved, solved, solve}

-- The fields of `IRStmt` that the timing reads.
pub record Wires : Type 0 where
  pub args : List ℕ
  pub pipedag_deps : List ℕ
  pub valid_in : Option ℕ
  pub timevar : Option ℕ
  pub time_offset : ℤ
  pub pipe : ℕ

infixl 5 ◌>>=◌
abbrev pub ◌>>=◌ {ℓ κ} : {A : Type ℓ} {B : Type κ} → Option A → (A → Option B) → Option B
none >>= f = none
some a >>= f = f a

-- `TimingDAG()`: nothing is in the graph.
abbrev pub no_builder : Builder
no_builder = record {
  dag = record {
    node_at = λ i. new_node unknown;
    var_at = λ v. record { stage = unknown; updates = 0 };
  };
  nodes = [];
  vars = [];
  node_map = [];
  var_map = [];
  stmt_of = λ i. 0;
  next_node = 0;
  next_var = 0;
}

-- The first loop, over the statements of all pipes.
unfoldable pub add_nodes : (ℕ → ℤ) → List ℕ → Builder → Builder
add_nodes delay [] b = b
add_nodes delay (s ∷ r) b = add_nodes delay r (add_node s (delay s) b)

unfoldable pub add_edges : List ℕ → ℕ → Builder → Option Builder
add_edges [] s b = some b
add_edges (a ∷ r) s b = add_edge a s b >>= add_edges r s

abbrev pub add_valid : Option ℕ → ℕ → Builder → Option Builder
add_valid none s b = some b
add_valid (some v) s b = add_edge v s b

abbrev pub add_timevar : Option ℕ → ℤ → ℕ → Builder → Option Builder
add_timevar none offset s b = some b
add_timevar (some u) offset s b = add_var s u offset b

-- The body of the second loop.
unfoldable pub wire : Wires → ℕ → Builder → Option Builder
wire w s b = do
  c ← add_edges w.args s b
  d ← add_edges w.pipedag_deps s c
  e ← add_valid w.valid_in s d
  add_timevar w.timevar w.time_offset s e

unfoldable pub wire_all : (ℕ → Wires) → List ℕ → Builder → Option Builder
wire_all at [] b = some b
wire_all at (s ∷ r) b = wire (at s) s b >>= wire_all at r

-- The two loops.
unfoldable pub build : (ℕ → ℤ) → (ℕ → Wires) → List ℕ → Option Builder
build delay at stmts = wire_all at stmts (add_nodes delay stmts no_builder)

-- `PipeStage`.
pub record PipeStage : Type 0 where
  pub stage : ℕ
  pub stmts : List ℕ

abbrev pub is_behind : ℕ → List PipeStage → Bool
is_behind number [] = true
is_behind number (s ∷ []) = ltb s.stage number
is_behind number (s ∷ t ∷ r) = is_behind number (t ∷ r)

-- The `while` loop that adds stages at the end of a pipe, on fuel.
unfoldable pub extend : ℕ → ℕ → List PipeStage → Option (List PipeStage)
extend zero number ss = none
extend (suc fuel) number ss = elim (is_behind number ss) [
  | false ↦ some ss
  | true ↦ extend fuel number (ss ++ (record { stage = length ss; stmts = [] }) ∷ [])
]

-- The statement is pushed to the pipe's last stage.
unfoldable pub push_back : ℕ → List PipeStage → List PipeStage
push_back s [] = []
push_back s (t ∷ []) = record t { stmts = t.stmts ++ s ∷ [] } ∷ []
push_back s (t ∷ u ∷ r) = t ∷ push_back s (u ∷ r)

-- The stages of the pipes, by address.
abbrev pub Stages : Type 0
Stages = ℕ → List PipeStage

-- The pipes' stages, and `IRStmt::stage`: the pipe of the stage and its position there.
pub record Staging : Type 0 where
  pub stages : Stages
  pub stage_of : ℕ → Option (ℕ × ℕ)

-- A statement that is pushed to the last stage of its pipe.
abbrev pub place : ℕ → ℕ → List PipeStage → Staging → Staging
place s pipe ss p = record {
  stages = set pipe (push_back s ss) p.stages;
  stage_of = set s (some (pipe, length ss - 1)) p.stage_of;
}

-- The inner loop over the statements of a stage; the fuel of the `while` loop is one more than the
-- stages that it may have to add.
unfoldable pub place_stage : (ℕ → Wires) → ℕ → List ℕ → Staging → Option Staging
place_stage at number [] p = some p
place_stage at number (s ∷ r) p =
    let pipe = (at s).pipe in
    extend (number + 2) number (p.stages pipe) >>= λ ss. place_stage at number r (place s pipe ss p)

-- The loop over the stages from the given number on.
unfoldable pub place_all : (ℕ → Wires) → ℕ → List (List ℕ) → Staging → Option Staging
place_all at number [] p = some p
place_all at number (stmts ∷ r) p = place_stage at number stmts p >>= place_all at (number + 1) r

-- From `number` 1 on, with no stages in any pipe.
unfoldable pub give_stages : (ℕ → Wires) → List (List ℕ) → Option Staging
give_stages at sets = place_all at 1 sets (record { stages = λ pipe. []; stage_of = λ s. none })

-- `NodesInStage` for each stage: the statements of the nodes.
abbrev pub stmts_in : (ℕ → ℕ) → List (List ℕ) → List (List ℕ)
stmts_in stmt_of [] = []
stmts_in stmt_of (nodes ∷ r) = map stmt_of nodes ∷ stmts_in stmt_of r

-- What `TimePipe` comes to: a false result with what `Solve` reports, or the stages.
pub data Timed : Type 0 where
  untimed : Solved → Timed
  timed : Staging → Timed

-- `TimePipe`; `none` is an assertion that fails, or too little fuel.
unfoldable pub time_pipe : ℤ → ℕ → (ℕ → ℤ) → (ℕ → Wires) → List ℕ → Option Timed
time_pipe per_stage fuel delay at stmts = do
  b ← build delay at stmts
  s ← solve per_stage fuel b.nodes b.dag
  elim s [
    | solved g sets ↦ give_stages at (stmts_in b.stmt_of sets) >>= λ p. some (timed p)
    | s ↦ some (untimed s)
  ]
