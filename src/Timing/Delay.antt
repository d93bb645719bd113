-- ===== src/Timing/Delay.antt =====
-- src/backend/pipe-timing.cc: the delay of a statement in the standard timing model.
use autopiper.Prelude.{
  ℕ, zero, suc, ◌+◌, ◌*◌, ◌/◌, ltb, ◌&&◌, Bool, true, false, Option, none, some, if◌then◌else◌,
  get_elem?,
}
use autopiper.Prelude.Int.{ℤ, pos, negsuc, sub_ℕ, ◌+ℤ◌}
use autopiper.Ir.{
  Stmt, StmtType, expr, StmtOp, op_const, op_add, op_sub, op_mul, op_div, op_rem, op_and, op_or,
  op_xor, op_not, op_lsh, op_rsh, op_select, op_cmp_lt, op_cmp_le, op_cmp_gt, op_cmp_ge, op_cmp_eq,
  op_cmp_ne,
}

-- The loop of `Log2`, on fuel.
unfoldable pub log2_by : ℕ → ℕ → ℕ
log2_by zero n = 0
log2_by (suc fuel) n = let rest = log2_by fuel (n / 2) in if ltb 1 n then rest + 1 else 0

-- `Log2`: a number of at most 1 is not shifted.
unfoldable pub log2 : ℤ → ℕ
log2 (pos n) = log2_by n n
log2 (negsuc n) = 0

-- `k * n` for an `int` n.
scale : ℕ → ℤ → ℤ
scale k (pos n) = pos (k * n)
scale k (negsuc n) = sub_ℕ 0 (k * (n + 1))

unfoldable pub add_stages : ℤ → ℤ
add_stages n = pos (4 * log2 n + 2)

div_stages : ℤ → ℤ → ℤ
unfolding scale
div_stages n dividend = scale (2 * (4 * log2 dividend + 2)) n

barrel_shifter : ℤ → ℤ
unfolding scale
barrel_shifter shiftamt_width = scale 2 shiftamt_width

is_expr : StmtType → Bool
is_expr expr = true
is_expr _ = false

is_const : StmtOp → Bool
is_const op_const = true
is_const _ = false

abbrev pub is_compare : StmtOp → Bool
is_compare op_cmp_lt = true
is_compare op_cmp_le = true
is_compare op_cmp_gt = true
is_compare op_cmp_ge = true
is_compare op_cmp_eq = true
is_compare op_cmp_ne = true
is_compare _ = false

-- `kGatesPerStage`, which `DelayPerStage` gives.
abbrev pub gates_per_stage : ℤ
gates_per_stage = pos 32

-- `floor_log2 n` is what the conversion of `log2(n) + 1` to `int` gives, with the C library's `log2`.
module _ (floor_log2 : ℤ → ℤ) (at : ℕ → Stmt) where
  mul_stages : ℤ → ℤ
  unfolding scale
  mul_stages n = scale 3 (floor_log2 n) +ℤ add_stages n

  arg_at : Stmt → ℕ → Option Stmt
  arg_at s i = elim (get_elem? s.args i) [ none ↦ none | some a ↦ some (at a) ]

  div_delay : Stmt → Option ℤ
  unfolding arg_at div_stages
  div_delay s = elim (arg_at s 0) [
    | none ↦ none
    | some a ↦ elim (arg_at s 1) [ none ↦ none | some b ↦ some (div_stages s.width a.width) ]
  ]

  shift_delay : Stmt → Option ℤ
  unfolding arg_at is_expr is_const barrel_shifter
  shift_delay s = elim (arg_at s 1) [
    | none ↦ none
    | some b ↦
        if is_expr b.type && is_const b.op
        then some (pos 0)
        else elim (arg_at s 0) [ none ↦ none | some a ↦ some (barrel_shifter b.width) ]
  ]

  -- The `switch` on the operator; `none` reads an argument that is not there.
  unfoldable pub expr_delay : StmtOp → Stmt → Option ℤ
  unfolding mul_stages div_delay shift_delay
  expr_delay op_add s = some (add_stages s.width)
  expr_delay op_sub s = some (add_stages s.width)
  expr_delay op_mul s = some (mul_stages s.width)
  expr_delay op_div s = div_delay s
  expr_delay op_rem s = div_delay s
  expr_delay op_and s = some (pos 1)
  expr_delay op_or s = some (pos 1)
  expr_delay op_not s = some (pos 1)
  expr_delay op_xor s = some (pos 2)
  expr_delay op_lsh s = shift_delay s
  expr_delay op_rsh s = shift_delay s
  expr_delay op_select s = some (pos 2)
  expr_delay op_cmp_lt s = some (add_stages s.width)
  expr_delay op_cmp_le s = some (add_stages s.width)
  expr_delay op_cmp_gt s = some (add_stages s.width)
  expr_delay op_cmp_ge s = some (add_stages s.width)
  expr_delay op_cmp_eq s = some (pos (2 + log2 s.width))
  expr_delay op_cmp_ne s = some (pos (2 + log2 s.width))
  expr_delay _ s = some (pos 0)

  -- `StandardTimingModel::Delay`.
  unfoldable pub delay : Stmt → Option ℤ
  delay s = elim s.type [ expr ↦ expr_delay s.op s | _ ↦ some (pos 0) ]
