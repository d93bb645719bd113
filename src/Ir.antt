-- ===== src/Ir.antt =====
-- src/backend/ir.h and ir.cc: the intermediate representation, in the fields that the type checker,
-- the control flow and the timing read.
-- A pointer is an address, a number; a program's statements and blocks are read through `stmt` and
-- `block`, which give what stands at an address.
use autopiper.Prelude.{
  ℕ, ◌+◌, ◌==◌, Bool, true, false, List, [], ◌∷◌, ◌++◌, Option, none, some, if◌then◌else◌,
}
use autopiper.Prelude.Member.{contains}
use autopiper.Prelude.Int.{ℤ, negsuc}

-- `IRStmtType`.
pub data StmtType : Type 0 where
  expr phi if_stmt jmp port_read port_write chan_read chan_write port_export reg_read : StmtType
  reg_write array_read array_write array_size spawn kill kill_younger done : StmtType
  kill_if bypass_start bypass_end bypass_write bypass_present bypass_ready : StmtType
  bypass_read timing_barrier backedge restart_value restart_value_src none_type : StmtType

-- `IRStmtOp`.
pub data StmtOp : Type 0 where
  op_none op_const op_add op_sub op_mul op_div op_rem op_and op_or op_xor : StmtOp
  op_not op_lsh op_rsh op_bitslice op_concat op_select op_cmp_lt op_cmp_le : StmtOp
  op_cmp_eq op_cmp_ne op_cmp_gt op_cmp_ge : StmtOp

-- `kIRStmtWidthTxnID`.
abbrev pub width_txn_id : ℤ
width_txn_id = negsuc 1

-- `IRStmt`: `args` and `targets` are addresses of statements and of blocks.
pub record Stmt : Type 0 where
  pub type : StmtType
  pub op : StmtOp
  pub bb : ℕ
  pub args : List ℕ
  pub constant : ℤ
  pub targets : List ℕ
  pub width : ℤ

-- `IRBB`: its statements, owned by it.
pub record Block : Type 0 where
  pub stmts : List ℕ

pub data PortType : Type 0 where
  port chan : PortType

-- `IRPort`.
pub record Port : Type 0 where
  pub width : ℤ
  pub type : PortType
  pub exported : Bool
  pub defs : List ℕ
  pub uses : List ℕ
  pub exports : List ℕ

-- `IRStorage`.
pub record Storage : Type 0 where
  pub data_width : ℤ
  pub index_width : ℤ
  pub writers : List ℕ
  pub readers : List ℕ

-- `IRBypass`: null `start` and `end` are `none`.
pub record Bypass : Type 0 where
  pub start : Option ℕ
  pub end : Option ℕ
  pub reads : List ℕ
  pub writes : List ℕ
  pub width : ℤ

-- `IRProgram`, with the memory that its pointers lead to.
pub record Program : Type 0 where
  pub stmt : ℕ → Stmt
  pub block : ℕ → Block
  pub bbs : List ℕ
  pub ports : List Port
  pub storage : List Storage
  pub bypasses : List Bypass
  pub entries : List ℕ

abbrev pub is_jump : StmtType → Bool
is_jump jmp = true
is_jump if_stmt = true
is_jump _ = false

abbrev pub is_spawn : StmtType → Bool
is_spawn spawn = true
is_spawn _ = false

-- `IRBB::SuccStmt`: the first jump or if of the block.
unfoldable pub succ_stmt : (ℕ → Stmt) → List ℕ → Option ℕ
succ_stmt at [] = none
succ_stmt at (s ∷ r) = if is_jump (at s).type then some s else succ_stmt at r

-- `IRBB::Succs`.
unfoldable pub succs : Program → ℕ → List ℕ
succs p b = elim (succ_stmt p.stmt (p.block b).stmts) [ none ↦ [] | some s ↦ (p.stmt s).targets ]

-- The position at which `WhichSucc` finds the block, counted from `i`.
which_from : ℕ → ℕ → List ℕ → Option ℕ
which_from target i [] = none
which_from target i (s ∷ r) = if s == target then some i else which_from target (i + 1) r

-- `IRBB::WhichSucc`; -1 is `none`.
unfoldable pub which_succ : Program → ℕ → ℕ → Option ℕ
unfolding which_from
which_succ p b target = which_from target 0 (succs p b)

-- The innermost loop of `Roots`: the targets of one spawn that were not found before are pushed.
unfoldable pub add_targets : List ℕ → List ℕ → List ℕ
add_targets found [] = found
add_targets found (t ∷ r) = add_targets (if contains t found then found else found ++ t ∷ []) r

-- The loop of `Roots` over a block's statements.
unfoldable pub spawn_targets : (ℕ → Stmt) → List ℕ → List ℕ → List ℕ
spawn_targets at found [] = found
spawn_targets at found (s ∷ r) =
    spawn_targets at (if is_spawn (at s).type then add_targets found (at s).targets else found) r

-- The loop of `Roots` over the blocks.
unfoldable pub block_targets : Program → List ℕ → List ℕ → List ℕ
block_targets p found [] = found
block_targets p found (b ∷ r) = block_targets p (spawn_targets p.stmt found (p.block b).stmts) r

-- `IRProgram::Roots`: the entries, then the targets of spawns in the order in which they are found.
unfoldable pub roots : Program → List ℕ
roots p = p.entries ++ block_targets p [] p.bbs
