-- ===== src/Timing.antt =====
-- src/backend/timing-dag.h: the graph of nodes with delays that is placed into pipeline stages.
-- A pointer to a node or a variable is its address in a store; an edge is the address of its other
-- end. The assertion on the delay at a node's input is the outcome `failed`.
pub mod Phase
pub mod Schedule
pub mod Examples
pub mod Delay
pub mod Comparisons
pub mod Stages
pub mod Cycles
pub mod Store
pub mod Solve
pub mod Build
pub mod Pipes
use autopiper.Prelude.{ℕ, ◌==◌, Bool, List, if◌then◌else◌, not, true, false, [], ◌∷◌}
use autopiper.Prelude.Int.{ℤ, pos, negsuc, eq_ℤ}

-- `kUnknown`.
abbrev pub unknown : ℤ
unknown = negsuc 0

abbrev pub known : ℤ → Bool
known s = not (eq_ℤ s unknown)

pub record Node : Type 0 where
  pub lifted : Bool
  pub delay : ℤ
  pub stage : ℤ
  pub stage_offset : ℤ
  pub anchored : Bool
  pub anchored_stage : ℤ
  pub ins : List ℕ
  pub outs : List ℕ
  pub vars : List (ℕ × ℤ)

-- A node with a delay, as `Node` makes it.
unfoldable pub new_node : ℤ → Node
new_node delay = record {
  lifted = false;
  delay = delay;
  stage = unknown;
  stage_offset = unknown;
  anchored = false;
  anchored_stage = unknown;
  ins = [];
  outs = [];
  vars = [];
}

pub record Var : Type 0 where
  pub stage : ℤ
  pub updates : ℕ

pub record Dag : Type 0 where
  pub node_at : ℕ → Node
  pub var_at : ℕ → Var

-- The position of a node: a stage, and the delay from its start.
pub record Place : Type 0 where
  pub stage : ℤ
  pub offset : ℤ

-- A store with one address changed.
unfoldable pub set {ℓ} : {A : Type ℓ} → ℕ → A → (ℕ → A) → ℕ → A
set i x at j = if i == j then x else at j
