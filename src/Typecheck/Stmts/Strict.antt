-- ===== src/Typecheck/Stmts/Strict.antt =====
-- src/backend/ir-typechecker.cc: `CheckStmtWidth` returns false whenever it reports something.
use autopiper.Prelude.{
  ℕ, ◌≡◌, refl, sym, subst, ◌⊎◌, inl, inr, Bool, true, false, List, [], ◌∷◌, Option, none, some,
  get_elem?, if◌then◌else◌,
}
use autopiper.Prelude.Int.{ℤ}
use autopiper.Ir.{
  Stmt, StmtType, StmtOp, expr, phi, if_stmt, spawn, kill_if, op_const, op_mul, op_div, op_rem,
  op_lsh, op_rsh, op_bitslice, op_concat, op_select, op_cmp_lt, op_cmp_le, op_cmp_eq, op_cmp_ne,
  op_cmp_gt, op_cmp_ge,
}
use autopiper.Typecheck.{
  Error, Result, ok, failed, fault, Checked, ◌>>=◌, pass, require, each, read, arg, arg_width_of,
}
use autopiper.Typecheck.Inversion.{after-nil}
use autopiper.Typecheck.Stmts.{
  check_stmt, check_type, check_expr, check_exact_width, check_min_width, check_matches_args,
  check_same_widths, check_first_width, check_difference, check_product, check_slice, check_select,
  check_compare, check_kill_if, one_arg,
}
use autopiper.Typecheck.Stmts.Typing.{StmtRule, check_stmt_iff}

-- A result that is true has no report, and one that is false has one.
IsStrict : {A : Type 0} → Result A → Type 0
IsStrict (ok a e) = e ≡ []
IsStrict (failed e) = ¬ (e ≡ [])
IsStrict fault = Unit

>>=-IsStrict :
    {A B : Type 0} (m : Result A) (f : A → Result B)
    → IsStrict m
    → ((a : A) → IsStrict (f a))
    → IsStrict (m >>= f)
unfolding IsStrict
>>=-IsStrict (ok a []) f h k = subst IsStrict (sym (after-nil (f a))) (k a)
>>=-IsStrict (ok a (x ∷ e)) f h k = absurd (cc h)
>>=-IsStrict (failed e) f h k = h
>>=-IsStrict fault f h k = tt

require-IsStrict : (b : Bool) (e : Error) → IsStrict (require b e)
unfolding IsStrict
require-IsStrict true e = refl
require-IsStrict false e = λ h. cc h

pass-IsStrict : IsStrict pass
unfolding IsStrict
pass-IsStrict = refl

each-IsStrict :
    {A : Type 0} (f : A → Checked) (l : List A) → ((a : A) → IsStrict (f a)) → IsStrict (each f l)
unfolding each
each-IsStrict f [] h = pass-IsStrict
each-IsStrict f (x ∷ r) h = >>=-IsStrict (f x) _ (h x) (λ _. each-IsStrict f r h)

read-IsStrict : {A : Type 0} (o : Option A) → IsStrict (read o)
unfolding IsStrict
read-IsStrict none = tt
read-IsStrict (some a) = refl

ok-IsStrict : {A : Type 0} (a : A) → IsStrict (ok a [])
unfolding IsStrict
ok-IsStrict a = refl

module _ (at : ℕ → Stmt) (to_int : ℤ → ℤ) where
  arg-IsStrict : (s : Stmt) (i : ℕ) → IsStrict (arg at s i)
  unfolding arg
  arg-IsStrict s i =
      >>=-IsStrict (read (get_elem? s.args i)) _ (read-IsStrict (get_elem? s.args i))
        (λ a. ok-IsStrict (at a))

  width-IsStrict : (s : Stmt) (i : ℕ) → IsStrict (arg_width_of at s i)
  unfolding arg_width_of
  width-IsStrict s i = >>=-IsStrict (arg at s i) _ (arg-IsStrict s i) (λ a. ok-IsStrict a.width)

  exact-IsStrict : (s : Stmt) (w : ℤ) → IsStrict (check_exact_width s w)
  unfolding check_exact_width
  exact-IsStrict s w = require-IsStrict _ _

  matches-IsStrict : (s : Stmt) → IsStrict (check_matches_args at to_int s)
  unfolding check_matches_args
  matches-IsStrict s = each-IsStrict _ s.args (λ a. require-IsStrict _ _)

  same_widths-IsStrict : (s : Stmt) → IsStrict (check_same_widths at to_int s)
  unfolding check_same_widths check_min_width
  same_widths-IsStrict s = >>=-IsStrict _ _ (require-IsStrict _ _) (λ _. matches-IsStrict s)

  first_width-IsStrict : (s : Stmt) → IsStrict (check_first_width at to_int s)
  unfolding check_first_width
  first_width-IsStrict s = >>=-IsStrict _ _ (width-IsStrict s 0) (λ a. exact-IsStrict s a)

  product-IsStrict : (s : Stmt) → IsStrict (check_product at to_int s)
  unfolding check_product
  product-IsStrict s =
      >>=-IsStrict _ _ (width-IsStrict s 0)
        (λ a. >>=-IsStrict _ _ (width-IsStrict s 1) (λ b. exact-IsStrict s _))

  difference-IsStrict : (s : Stmt) → IsStrict (check_difference at to_int s)
  unfolding check_difference
  difference-IsStrict s =
      >>=-IsStrict _ _ (width-IsStrict s 0)
        (λ a. >>=-IsStrict _ _ (width-IsStrict s 1) (λ b. exact-IsStrict s _))

  slice-IsStrict : (s : Stmt) → IsStrict (check_slice at to_int s)
  unfolding check_slice
  slice-IsStrict s = >>=-IsStrict _ _ (arg-IsStrict s 1) (λ a.
      >>=-IsStrict _ _ (require-IsStrict _ _) (λ _.
        >>=-IsStrict _ _ (arg-IsStrict s 2)
          (λ b. >>=-IsStrict _ _ (require-IsStrict _ _) (λ _. exact-IsStrict s _))))

  select-IsStrict : (s : Stmt) → IsStrict (check_select at to_int s)
  unfolding check_select
  select-IsStrict s = >>=-IsStrict _ _ (width-IsStrict s 1) (λ a.
      >>=-IsStrict _ _ (width-IsStrict s 2) (λ b.
        >>=-IsStrict _ _ (require-IsStrict _ _)
          (λ _. >>=-IsStrict _ _ (width-IsStrict s 0) (λ c. require-IsStrict _ _))))

  compare-IsStrict : (s : Stmt) → IsStrict (check_compare at to_int s)
  unfolding check_compare
  compare-IsStrict s = >>=-IsStrict _ _ (width-IsStrict s 0) (λ a.
      >>=-IsStrict _ _ (width-IsStrict s 1)
        (λ b. >>=-IsStrict _ _ (require-IsStrict _ _) (λ _. exact-IsStrict s _)))

  expr-IsStrict : (o : StmtOp) (s : Stmt) → IsStrict (check_expr at to_int o s)
  unfolding check_expr
  expr-IsStrict op_const s = pass-IsStrict
  expr-IsStrict op_lsh s = first_width-IsStrict s
  expr-IsStrict op_rsh s = first_width-IsStrict s
  expr-IsStrict op_mul s = product-IsStrict s
  expr-IsStrict op_div s = difference-IsStrict s
  expr-IsStrict op_rem s = difference-IsStrict s
  expr-IsStrict op_bitslice s = slice-IsStrict s
  expr-IsStrict op_concat s = exact-IsStrict s _
  expr-IsStrict op_select s = select-IsStrict s
  expr-IsStrict op_cmp_lt s = compare-IsStrict s
  expr-IsStrict op_cmp_le s = compare-IsStrict s
  expr-IsStrict op_cmp_eq s = compare-IsStrict s
  expr-IsStrict op_cmp_ne s = compare-IsStrict s
  expr-IsStrict op_cmp_gt s = compare-IsStrict s
  expr-IsStrict op_cmp_ge s = compare-IsStrict s
  expr-IsStrict _ s = same_widths-IsStrict s

  if_one_arg :
      (b : Bool) (m : Checked) (e : Error)
      → IsStrict m
      → IsStrict (if b then m else failed (e ∷ []))
  unfolding IsStrict
  if_one_arg true m e h = h
  if_one_arg false m e h = λ k. cc k

  type-IsStrict : (t : StmtType) (s : Stmt) → IsStrict (check_type at to_int t s)
  unfolding check_type check_kill_if
  type-IsStrict expr s = >>=-IsStrict _ _ (require-IsStrict _ _) (λ _. expr-IsStrict s.op s)
  type-IsStrict phi s = matches-IsStrict s
  type-IsStrict if_stmt s = >>=-IsStrict _ _ (width-IsStrict s 0) (λ a. require-IsStrict _ _)
  type-IsStrict spawn s = exact-IsStrict s _
  type-IsStrict kill_if s =
      if_one_arg (one_arg s.args) _ _
        (>>=-IsStrict _ _ (width-IsStrict s 0) (λ a. require-IsStrict _ _))
  type-IsStrict _ s = pass-IsStrict

-- The check returns false and has reported something, or it reads an argument that is not there.
abbrev pub IsRefused : Checked → Type 0
IsRefused m = ((e : List Error) × (m ≡ failed e) × (¬ (e ≡ []))) ⊎ (m ≡ fault)

Strict-cases : (m : Checked) → IsStrict m → (m ≡ pass) ⊎ IsRefused m
unfolding IsStrict
Strict-cases (ok tt []) h = inl refl
Strict-cases (ok a (x ∷ e)) h = absurd (cc h)
Strict-cases (failed e) h = inr (inl (e, refl, h))
Strict-cases fault h = inr (inr refl)

pass_refused : IsRefused pass → ⊥
pass_refused (inl (e, h, k)) = absurd (cc h)
pass_refused (inr h) = absurd (cc h)

-- `CheckStmtWidth` either passes a statement without a report, and the typing rule of its kind and
-- operator holds, or it returns false and has reported something, or reads an argument that is not
-- there, and the rule does not hold; whatever the conversion of a difference of constants gives.
pub check_stmt_decides :
    (at : ℕ → Stmt) (to_int : ℤ → ℤ) (s : Stmt)
    → ((check_stmt at to_int s ≡ pass) × StmtRule at to_int s.type s)
      ⊎ ((¬ StmtRule at to_int s.type s) × IsRefused (check_stmt at to_int s))
unfolding check_stmt
check_stmt_decides at to_int s =
    let rule = check_stmt_iff at to_int s in
    elim (Strict-cases (check_stmt at to_int s) (type-IsStrict at to_int s.type s)) [
      | inl e ↦ inl (e, rule.0 e)
      | inr r ↦ inr (λ h. pass_refused (subst IsRefused (rule.1 h) r), r)
    ]
