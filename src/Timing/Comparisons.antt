-- ===== src/Timing/Comparisons.antt =====
-- src/backend/pipe-timing.cc: the delay of comparisons, and `Log2`.
use native.Mathlib.Nat.{two-pow-succ}
use autopiper.Prelude.{
  ℕ, zero, suc, ◌+◌, ◌/◌, ◌^◌, ◌<◌, ◌≤◌, ◌≡◌, refl, sym, subst, inl, inr, ltb, true, false, some,
  arith, Bool-cases,
}
use autopiper.Prelude.Int.{ℤ, pos}
use autopiper.Typecheck.{pass}
use autopiper.Ir.{
  Stmt, StmtOp, expr, op_cmp_lt, op_cmp_le, op_cmp_gt, op_cmp_ge, op_cmp_eq, op_cmp_ne,
}
use autopiper.Typecheck.Stmts.{check_stmt}
use autopiper.Typecheck.Stmts.Typing.{check_stmt_iff, ExprRule, StmtRule}
use autopiper.Timing.Delay.{log2_by, log2, add_stages, is_compare, expr_delay, delay}

compare_width :
    (at : ℕ → Stmt) (to_int : ℤ → ℤ) (op : StmtOp) (s : Stmt)
    → is_compare op ≡ true
    → ExprRule at to_int op s
    → s.width ≡ pos 1
compare_width at to_int op_cmp_lt s c (a, h, k, w) = w
compare_width at to_int op_cmp_le s c (a, h, k, w) = w
compare_width at to_int op_cmp_gt s c (a, h, k, w) = w
compare_width at to_int op_cmp_ge s c (a, h, k, w) = w
compare_width at to_int op_cmp_eq s c (a, h, k, w) = w
compare_width at to_int op_cmp_ne s c (a, h, k, w) = w
compare_width at to_int op s c r = absurd (cc c)

compare_delay :
    (floor_log2 : ℤ → ℤ) (at : ℕ → Stmt) (op : StmtOp) (s : Stmt)
    → is_compare op ≡ true
    → s.width ≡ pos 1
    → expr_delay floor_log2 at op s ≡ some (pos 2)
unfolding expr_delay add_stages log2 log2_by
compare_delay floor_log2 at op_cmp_lt s c w = rw (w) refl
compare_delay floor_log2 at op_cmp_le s c w = rw (w) refl
compare_delay floor_log2 at op_cmp_gt s c w = rw (w) refl
compare_delay floor_log2 at op_cmp_ge s c w = rw (w) refl
compare_delay floor_log2 at op_cmp_eq s c w = rw (w) refl
compare_delay floor_log2 at op_cmp_ne s c w = rw (w) refl
compare_delay floor_log2 at op s c w = absurd (cc c)

-- A comparison that passes the type checker has the delay 2, of however many bits its operands are:
-- the delay is computed from the width of the result, which is 1.
pub delay-compare :
    (floor_log2 : ℤ → ℤ) (at : ℕ → Stmt) (to_int : ℤ → ℤ) (s : Stmt)
    → s.type ≡ expr
    → is_compare s.op ≡ true
    → check_stmt at to_int s ≡ pass
    → delay floor_log2 at s ≡ some (pos 2)
unfolding delay
delay-compare floor_log2 at to_int s e c ok =
    let rule = subst (λ t. StmtRule at to_int t s) e ((check_stmt_iff at to_int s).0 ok) in
    rw (e, delay) (compare_delay floor_log2 at s.op s c (compare_width at to_int s.op s c rule.1))

one_less : (n : ℕ) → ltb 1 n ≡ true → 2 ≤ n
one_less n e = ground arith

at_most_one : (n : ℕ) → ltb 1 n ≡ false → n ≤ 1
at_most_one n e = ground arith

pow_double : (r : ℕ) → 2 ^ (r + 1) ≡ 2 ^ r + 2 ^ r
pow_double r =
    let e : suc r ≡ r + 1 = omega arith in subst (λ k. 2 ^ k ≡ 2 ^ r + 2 ^ r) e (two-pow-succ r)

log2_by-turn : (fuel n : ℕ) → ltb 1 n ≡ true → log2_by (suc fuel) n ≡ log2_by fuel (n / 2) + 1
unfolding log2_by
log2_by-turn fuel n e = rw (e, log2_by) refl

log2_by-bounds :
    (fuel n : ℕ) → 1 ≤ n → n ≤ fuel → (2 ^ log2_by fuel n ≤ n) × (n < 2 ^ (log2_by fuel n + 1))
unfolding log2_by
log2_by-bounds zero n h k = absurd (omega arith)
log2_by-bounds (suc fuel) n h k = elim (Bool-cases (ltb 1 n)) [
  | inl e ↦
      let (l, u) =
        log2_by-bounds fuel (n / 2) (omega (arith, one_less n e)) (omega (arith, one_less n e)) in
      subst (λ r. (2 ^ r ≤ n) × (n < 2 ^ (r + 1))) (sym (log2_by-turn fuel n e))
        (
          omega (arith, l, pow_double (log2_by fuel (n / 2))),
          omega (arith, u, pow_double (log2_by fuel (n / 2) + 1)),
        )
  | inr e ↦ rw (e, log2_by) (h, omega (arith, h, at_most_one n e))
]

-- `Log2` of a positive number is the exponent of the greatest power of two that is at most the number.
pub log2-bounds : (n : ℕ) → 1 ≤ n → (2 ^ log2 (pos n) ≤ n) × (n < 2 ^ (log2 (pos n) + 1))
unfolding log2
log2-bounds n h = log2_by-bounds n n h (omega arith)
