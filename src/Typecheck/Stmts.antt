-- ===== src/Typecheck/Stmts.antt =====
-- src/backend/ir-typechecker.cc: `CheckStmtWidth` and its helpers, and `CheckBB`.
pub mod Typing
pub mod Strict
use autopiper.Prelude.{
  ℕ, ◌+◌, ◌==◌, Bool, true, false, not, ◌&&◌, ◌||◌, List, [], ◌∷◌, ◌++◌, Option, none, some,
  if◌then◌else◌, get_elem?,
}
use autopiper.Prelude.Int.{ℤ, pos, negsuc, eq_ℤ, ltb_ℤ, ◌+ℤ◌, ◌-ℤ◌}
use autopiper.Ir.{
  Stmt, StmtType, StmtOp, Block, width_txn_id, expr, phi, if_stmt, spawn, kill_if, jmp, kill, done,
  op_none, op_const, op_add, op_sub, op_mul, op_div, op_rem, op_and, op_or, op_xor, op_not, op_lsh,
  op_rsh, op_bitslice, op_concat, op_select, op_cmp_lt, op_cmp_le, op_cmp_eq, op_cmp_ne, op_cmp_gt,
  op_cmp_ge,
}
use autopiper.Typecheck.{
  Error, arg_width, exact_width, min_width, txn_in_expr, slice_not_const, select_widths,
  select_cond, compare_widths, if_cond, kill_if_arg, empty_block, no_terminator, same_targets,
  Result, ok, failed, fault, Checked, ◌>>=◌, ◌>>◌, pass, require, report_unless, each, arg,
  arg_width_of,
}

-- `CheckExactWidth`.
unfoldable pub check_exact_width : Stmt → ℤ → Checked
check_exact_width s w = require (eq_ℤ s.width w) exact_width

-- `CheckMinWidth`.
unfoldable pub check_min_width : Stmt → ℤ → Checked
check_min_width s w = require (not (ltb_ℤ s.width w)) min_width

abbrev is_const : StmtOp → Bool
is_const op_const = true
is_const _ = false

-- The width of a bit slice from bit `low` to bit `high`: `static_cast<int>(diff) + 1`, negated if
-- negative; the cast is the Boost library's.
unfoldable pub slice_width : (ℤ → ℤ) → ℤ → ℤ → ℤ
slice_width to_int high low =
    let w = to_int (high -ℤ low) +ℤ pos 1 in if ltb_ℤ w (pos 0) then pos 0 -ℤ w else w

-- The sum of the widths of the statements at the addresses, from `w` on.
unfoldable pub sum_widths : (ℕ → Stmt) → ℤ → List ℕ → ℤ
sum_widths at w [] = w
sum_widths at w (a ∷ r) = sum_widths at (w +ℤ (at a).width) r

abbrev one_arg : List ℕ → Bool
one_arg (_ ∷ []) = true
one_arg _ = false

abbrev is_terminator : StmtType → Bool
is_terminator if_stmt = true
is_terminator jmp = true
is_terminator kill = true
is_terminator done = true
is_terminator _ = false

abbrev last : List ℕ → Option ℕ
last [] = none
last (s ∷ []) = some s
last (s ∷ t ∷ r) = last (t ∷ r)

-- `last->targets[0] == last->targets[1]`.
abbrev distinct_targets : List ℕ → Checked
distinct_targets (a ∷ b ∷ r) = require (not (a == b)) same_targets
distinct_targets _ = fault

module _ (at : ℕ → Stmt) (to_int : ℤ → ℤ) where
  -- `CheckStmtWidthMatchesArgs`.
  unfoldable pub check_matches_args : Stmt → Checked
  check_matches_args s = each (λ a. require (eq_ℤ (at a).width s.width) arg_width) s.args

  -- The cases of `CheckStmtWidth` for expressions that share a body.
  unfoldable pub check_same_widths : Stmt → Checked
  check_same_widths s = check_min_width s (pos 1) >> check_matches_args s

  unfoldable pub check_first_width : Stmt → Checked
  check_first_width s = do a ← arg_width_of at s 0; check_exact_width s a

  unfoldable pub check_difference : Stmt → Checked
  check_difference s = do
    a ← arg_width_of at s 0
    b ← arg_width_of at s 1
    check_exact_width s (a -ℤ b)

  unfoldable pub check_product : Stmt → Checked
  check_product s = do
    a ← arg_width_of at s 0
    b ← arg_width_of at s 1
    check_exact_width s (a +ℤ b)

  unfoldable pub check_slice : Stmt → Checked
  check_slice s = do
    a ← arg at s 1
    require (is_const a.op) slice_not_const
    b ← arg at s 2
    require (is_const b.op) slice_not_const
    check_exact_width s (slice_width to_int a.constant b.constant)

  unfoldable pub check_select : Stmt → Checked
  check_select s = do
    a ← arg_width_of at s 1
    b ← arg_width_of at s 2
    require (eq_ℤ a b && eq_ℤ a s.width) select_widths
    c ← arg_width_of at s 0
    require (eq_ℤ c (pos 1)) select_cond

  unfoldable pub check_compare : Stmt → Checked
  check_compare s = do
    a ← arg_width_of at s 0
    b ← arg_width_of at s 1
    require (eq_ℤ a b) compare_widths
    check_exact_width s (pos 1)

  -- The inner `switch` of `CheckStmtWidth`.
  unfoldable pub check_expr : StmtOp → Stmt → Checked
  check_expr op_const s = pass
  check_expr op_none s = check_same_widths s
  check_expr op_add s = check_same_widths s
  check_expr op_sub s = check_same_widths s
  check_expr op_and s = check_same_widths s
  check_expr op_or s = check_same_widths s
  check_expr op_xor s = check_same_widths s
  check_expr op_not s = check_same_widths s
  check_expr op_lsh s = check_first_width s
  check_expr op_rsh s = check_first_width s
  check_expr op_mul s = check_product s
  check_expr op_div s = check_difference s
  check_expr op_rem s = check_difference s
  check_expr op_bitslice s = check_slice s
  check_expr op_concat s = check_exact_width s (sum_widths at (pos 0) s.args)
  check_expr op_select s = check_select s
  check_expr op_cmp_lt s = check_compare s
  check_expr op_cmp_le s = check_compare s
  check_expr op_cmp_eq s = check_compare s
  check_expr op_cmp_ne s = check_compare s
  check_expr op_cmp_gt s = check_compare s
  check_expr op_cmp_ge s = check_compare s

  -- `stmt->args.size() != 1 || stmt->args[0]->width != 1`, negated.
  check_kill_if : Stmt → Checked
  check_kill_if s =
      if one_arg s.args
      then (arg_width_of at s 0 >>= λ a. require (eq_ℤ a (pos 1)) kill_if_arg)
      else failed (kill_if_arg ∷ [])

  -- The outer `switch` of `CheckStmtWidth`.
  check_type : StmtType → Stmt → Checked
  check_type expr s = require (not (eq_ℤ s.width width_txn_id)) txn_in_expr >> check_expr s.op s
  check_type phi s = check_matches_args s
  check_type if_stmt s = arg_width_of at s 0 >>= λ a. require (eq_ℤ a (pos 1)) if_cond
  check_type spawn s = check_exact_width s width_txn_id
  check_type kill_if s = check_kill_if s
  check_type _ s = pass

  -- `CheckStmtWidth`, which is all of `CheckStmt`.
  unfoldable pub check_stmt : Stmt → Checked
  unfolding check_type check_kill_if
  check_stmt s = check_type s.type s

  check_last : Stmt → Checked
  check_last s =
      require (is_terminator s.type) no_terminator
      >> elim s.type [ if_stmt ↦ distinct_targets s.targets | _ ↦ pass ]

  -- `CheckBB`.
  unfoldable pub check_block : Block → Checked
  unfolding check_last
  check_block b = elim (last b.stmts) [
    | none ↦ failed (empty_block ∷ [])
    | some s ↦ check_last (at s)
  ]
