-- ===== src/Typecheck/Stmts/Typing.antt =====
-- The typing rules of statements, and the proof that `CheckStmtWidth` decides them.
use autopiper.Prelude.{
  if◌then◌else◌, ◌⊎◌, iff_trans, iff_refl, iff_prod, iff_exists, ℕ, ◌≡◌, ◌≢◌, refl, sym, ◌∙◌, ap,
  ◌↔◌, true, false, not, ◌&&◌, List, [], ◌∷◌, Option, some, none, get_elem?, All, arith, inl, inr,
}
use autopiper.Prelude.Int.{ℤ, pos, eq_ℤ, eq_ℤ_iff, ltb_ℤ, ◌+ℤ◌, ◌-ℤ◌, ◌≤ℤ◌}
use autopiper.Ir.{
  Stmt, StmtType, StmtOp, width_txn_id, expr, phi, if_stmt, spawn, kill_if, op_none, op_const,
  op_add, op_sub, op_mul, op_div, op_rem, op_and, op_or, op_xor, op_not, op_lsh, op_rsh,
  op_bitslice, op_concat, op_select, op_cmp_lt, op_cmp_le, op_cmp_eq, op_cmp_ne, op_cmp_gt,
  op_cmp_ge,
}
use autopiper.Typecheck.{
  Error, ok, failed, Checked, ◌>>=◌, ◌>>◌, pass, require, read, arg, arg_width_of, arg_width,
  slice_not_const, kill_if_arg,
}
use autopiper.Typecheck.Inversion.{each_iff, require_iff, >>_iff, after-nil}
use autopiper.Typecheck.Stmts.{
  check_stmt, check_type, check_expr, check_exact_width, check_min_width, check_matches_args,
  check_same_widths, check_first_width, check_difference, check_product, check_slice, check_select,
  check_compare, check_kill_if, slice_width, sum_widths, is_const, one_arg,
}

both_equal : (a b w : ℤ) → ((eq_ℤ a b && eq_ℤ a w) ≡ true) ↔ ((a ≡ b) × (a ≡ w))
both_equal a b w = ground (arith, eq_ℤ_iff a b, eq_ℤ_iff a w)

not_equal : (a b : ℤ) → (not (eq_ℤ a b) ≡ true) ↔ (a ≢ b)
not_equal a b = ground (arith, eq_ℤ_iff a b)

one_arg-cases : (l : List ℕ) → (one_arg l ≡ false) ⊎ ((a : ℕ) × (l ≡ a ∷ []))
one_arg-cases [] = inl refl
one_arg-cases (a ∷ []) = inr (a, refl)
one_arg-cases (a ∷ b ∷ l) = inl refl

module _ (at : ℕ → Stmt) (to_int : ℤ → ℤ) where
  -- Argument `i` of the statement has width `w`.
  abbrev pub HasWidth : Stmt → ℕ → ℤ → Type 0
  HasWidth s i w = (a : ℕ) × (get_elem? s.args i ≡ some a) × ((at a).width ≡ w)

  -- All arguments have the statement's width.
  abbrev pub Uniform : Stmt → Type 0
  Uniform s = All (λ a. (at a).width ≡ s.width) s.args

  -- The first two arguments have widths `a` and `b`.
  abbrev pub TwoWidths : Stmt → ℤ → ℤ → Type 0
  TwoWidths s a b = HasWidth s 0 a × HasWidth s 1 b

  -- Argument `i` is the constant `c`.
  abbrev pub HasConst : Stmt → ℕ → ℤ → Type 0
  HasConst s i c =
      (a : ℕ) × (get_elem? s.args i ≡ some a) × (is_const (at a).op ≡ true) × ((at a).constant ≡ c)

  abbrev pub Shaped : Stmt → Type 0
  Shaped s = (pos 1 ≤ℤ s.width) × Uniform s

  abbrev pub Product : Stmt → Type 0
  Product s = (a : ℤ) × HasWidth s 0 a × ((b : ℤ) × HasWidth s 1 b × (s.width ≡ a +ℤ b))

  abbrev pub Difference : Stmt → Type 0
  Difference s = (a : ℤ) × HasWidth s 0 a × ((b : ℤ) × HasWidth s 1 b × (s.width ≡ a -ℤ b))

  abbrev pub Compared : Stmt → Type 0
  Compared s = (a : ℤ) × HasWidth s 0 a × HasWidth s 1 a × (s.width ≡ pos 1)

  -- The typing rule of each operator.
  abbrev pub ExprRule : StmtOp → Stmt → Type 0
  ExprRule op_const s = Unit
  ExprRule op_none s = Shaped s
  ExprRule op_add s = Shaped s
  ExprRule op_sub s = Shaped s
  ExprRule op_and s = Shaped s
  ExprRule op_or s = Shaped s
  ExprRule op_xor s = Shaped s
  ExprRule op_not s = Shaped s
  ExprRule op_lsh s = HasWidth s 0 s.width
  ExprRule op_rsh s = HasWidth s 0 s.width
  ExprRule op_mul s = Product s
  ExprRule op_div s = Difference s
  ExprRule op_rem s = Difference s
  ExprRule op_bitslice s =
      (high : ℤ) × HasConst s 1 high
      × ((low : ℤ) × HasConst s 2 low × (s.width ≡ slice_width to_int high low))
  ExprRule op_concat s = s.width ≡ sum_widths at (pos 0) s.args
  ExprRule op_select s = HasWidth s 1 s.width × HasWidth s 2 s.width × HasWidth s 0 (pos 1)
  ExprRule op_cmp_lt s = Compared s
  ExprRule op_cmp_le s = Compared s
  ExprRule op_cmp_eq s = Compared s
  ExprRule op_cmp_ne s = Compared s
  ExprRule op_cmp_gt s = Compared s
  ExprRule op_cmp_ge s = Compared s

  -- The typing rule of each statement.
  abbrev pub StmtRule : StmtType → Stmt → Type 0
  StmtRule expr s = (s.width ≢ width_txn_id) × ExprRule s.op s
  StmtRule phi s = Uniform s
  StmtRule if_stmt s = HasWidth s 0 (pos 1)
  StmtRule spawn s = s.width ≡ width_txn_id
  StmtRule kill_if s = (a : ℕ) × (s.args ≡ a ∷ []) × ((at a).width ≡ pos 1)
  StmtRule _ s = Unit

  read_iff :
      {A : Type 0} (o : Option ℕ) (g : Stmt → A) (f : A → Checked)
      → (((read o >>= λ a. ok (at a) []) >>= λ (t : Stmt). ok (g t) []) >>= f ≡ pass)
        ↔ ((a : ℕ) × (o ≡ some a) × (f (g (at a)) ≡ pass))
  read_iff none g f = (λ h. absurd (cc), λ h. absurd (cc (h.1)))
  read_iff (some a) g f = (
    λ h. (a, refl, sym (after-nil (f (g (at a)))) ∙ h),
    λ (b, e, q). after-nil (f (g (at a))) ∙ cc,
  )

  arg_width_of_iff :
      (s : Stmt) (i : ℕ) (f : ℤ → Checked)
      → ((arg_width_of at s i >>= f) ≡ pass) ↔ ((w : ℤ) × HasWidth s i w × (f w ≡ pass))
  unfolding arg_width_of
  arg_width_of_iff s i f =
      let r = read_iff (get_elem? s.args i) (λ t. t.width) f in
      (
        λ h. let (a, e, q) = r.0 h in ((at a).width, (a, e, refl), q),
        λ (w, (a, e, p), q). r.1 (a, e, ap f p ∙ q),
      )

  exact_iff : (s : Stmt) (w : ℤ) → (check_exact_width s w ≡ pass) ↔ (s.width ≡ w)
  unfolding check_exact_width
  exact_iff s w = iff_trans (require_iff (eq_ℤ s.width w) _) (eq_ℤ_iff s.width w)

  matches_iff : (s : Stmt) → (check_matches_args at to_int s ≡ pass) ↔ Uniform s
  unfolding check_matches_args
  matches_iff s =
      iff_trans (each_iff (λ a. eq_ℤ (at a).width s.width) arg_width s.args) (widths s.args)
    where
      widths :
          (l : List ℕ)
          → All (λ a. eq_ℤ (at a).width s.width ≡ true) l ↔ All (λ a. (at a).width ≡ s.width) l
      widths [] = iff_refl
      widths (a ∷ l) = iff_prod (eq_ℤ_iff (at a).width s.width) (widths l)

  same_widths_iff : (s : Stmt) → (check_same_widths at to_int s ≡ pass) ↔ Shaped s
  unfolding check_same_widths check_min_width
  same_widths_iff s =
      iff_trans (>>_iff (check_min_width s (pos 1)) (check_matches_args at to_int s)) (
        iff_prod
          (iff_trans (require_iff (not (ltb_ℤ s.width (pos 1))) _)
            ((λ h. ground arith), (λ h. ground arith)))
          (matches_iff s))

  first_width_iff : (s : Stmt) → (check_first_width at to_int s ≡ pass) ↔ HasWidth s 0 s.width
  unfolding check_first_width
  first_width_iff s = iff_trans (arg_width_of_iff s 0 (check_exact_width s)) (
    λ (w, (a, e, p), q). (a, e, p ∙ sym ((exact_iff s w).0 q)),
    λ h. (s.width, h, (exact_iff s s.width).1 refl),
  )

  check_product_iff : (s : Stmt) → (check_product at to_int s ≡ pass) ↔ Product s
  unfolding check_product
  check_product_iff s = iff_trans (arg_width_of_iff s 0 _) (
      iff_exists λ a.
        iff_trans (arg_width_of_iff s 1 (λ b. check_exact_width s (a +ℤ b)))
          (iff_exists λ b. exact_iff s (a +ℤ b)))

  check_difference_iff : (s : Stmt) → (check_difference at to_int s ≡ pass) ↔ Difference s
  unfolding check_difference
  check_difference_iff s = iff_trans (arg_width_of_iff s 0 _) (
      iff_exists λ a.
        iff_trans (arg_width_of_iff s 1 (λ b. check_exact_width s (a -ℤ b)))
          (iff_exists λ b. exact_iff s (a -ℤ b)))

  compare_iff : (s : Stmt) → (check_compare at to_int s ≡ pass) ↔ Compared s
  unfolding check_compare
  compare_iff s = iff_trans (arg_width_of_iff s 0 _) (
      iff_trans
        (iff_exists λ a.
          iff_trans
            (arg_width_of_iff s 1 (λ b. require (eq_ℤ a b) _ >> check_exact_width s (pos 1)))
            (iff_exists λ b.
              iff_trans (>>_iff (require (eq_ℤ a b) _) (check_exact_width s (pos 1))) (
                iff_prod (iff_trans (require_iff (eq_ℤ a b) _) (eq_ℤ_iff a b))
                  (exact_iff s (pos 1)))))
        (
          λ (a, h, (b, (i, e, p), (q, w))). (a, h, (i, e, p ∙ sym q), w),
          λ (a, h, k, w). (a, h, (a, k, (refl, w))),
        ))

  const_arg_iff :
      (x : Error) (s : Stmt) (i : ℕ) (f : ℤ → Checked)
      → ((arg at s i >>= λ a. require (is_const a.op) x >> f a.constant) ≡ pass)
        ↔ ((c : ℤ) × HasConst s i c × (f c ≡ pass))
  unfolding arg
  const_arg_iff x s i f = by_arg (get_elem? s.args i)
    where
      by_arg :
          (o : Option ℕ)
          → (((read o >>= λ a. ok (at a) []) >>= λ (a : Stmt).
                require (is_const a.op) x >> f a.constant)
              ≡ pass)
            ↔ ((c : ℤ) × ((a : ℕ) × (o ≡ some a)
                  × (is_const (at a).op ≡ true)
                  × ((at a).constant ≡ c))
                × (f c ≡ pass))
      by_arg none = (λ h. absurd (cc), λ (c, (a, e, k, q), p). absurd (cc))
      by_arg (some a) =
          let m = require (is_const (at a).op) x >> f (at a).constant in
          let r = >>_iff (require (is_const (at a).op) x) (f (at a).constant) in
          let k = require_iff (is_const (at a).op) x in
          (
            λ h.
                let (p, q) = r.0 (sym (after-nil m) ∙ h) in
                ((at a).constant, (a, refl, k.0 p, refl), q),
            λ (c, (b, e, p, q), w).
                let same : a ≡ b = cc in
                after-nil m
                ∙ r.1 (
                  k.1 (ap (λ y. is_const (at y).op) same ∙ p),
                  ap (λ y. f (at y).constant) same ∙ ap f q ∙ w,
                ),
          )

  slice_iff : (s : Stmt) → (check_slice at to_int s ≡ pass) ↔ ExprRule op_bitslice s
  unfolding check_slice
  slice_iff s = iff_trans (const_arg_iff slice_not_const s 1 _) (
      iff_exists λ high.
        iff_trans
          (const_arg_iff slice_not_const s 2
            (λ low. check_exact_width s (slice_width to_int high low)))
          (iff_exists λ low. exact_iff s (slice_width to_int high low)))

  select_iff : (s : Stmt) → (check_select at to_int s ≡ pass) ↔ ExprRule op_select s
  unfolding check_select
  select_iff s = iff_trans (arg_width_of_iff s 1 _) (
      iff_trans
        (iff_exists λ a. iff_trans (arg_width_of_iff s 2 _) (
          iff_exists λ b. iff_trans (>>_iff (require (eq_ℤ a b && eq_ℤ a s.width) _) _) (
            iff_prod
              (iff_trans (require_iff (eq_ℤ a b && eq_ℤ a s.width) _) (both_equal a b s.width))
              (iff_trans (arg_width_of_iff s 0 (λ c. require (eq_ℤ c (pos 1)) _)) (
                iff_exists λ c. iff_trans (require_iff (eq_ℤ c (pos 1)) _) (eq_ℤ_iff c (pos 1)))))))
        (
          λ (a, (i, e, p), (b, (j, f, q), ((ab, aw), (c, (k, g, r), z)))).
              ((i, e, p ∙ aw), (j, f, q ∙ sym ab ∙ aw), (k, g, r ∙ z)),
          λ (h, l, m). (s.width, h, (s.width, l, ((refl, refl), (pos 1, m, refl)))),
        ))

  kill_if_iff : (s : Stmt) → (check_kill_if at to_int s ≡ pass) ↔ StmtRule kill_if s
  unfolding check_kill_if
  kill_if_iff s = elim (one_arg-cases s.args) [
    | inl no_arg ↦ (
      λ h.
          absurd (cc (sym (ap (λ b. if b then checked else failed (kill_if_arg ∷ [])) no_arg) ∙ h)),
      λ (a, e, p). absurd (cc (sym (ap one_arg e) ∙ no_arg)),
    )
    | inr (a, e) ↦
        let step = ap (λ b. if b then checked else failed (kill_if_arg ∷ [])) (ap one_arg e) in
        let r = arg_width_of_iff s 0 (λ w. require (eq_ℤ w (pos 1)) kill_if_arg) in
        let first : get_elem? s.args 0 ≡ some a = ap (λ l. get_elem? l 0) e in
        (
          λ h.
              let (w, (b, f, p), q) = r.0 (sym step ∙ h) in
              let same : b ≡ a = cc in
              (
                a,
                e,
                sym (ap (λ x. (at x).width) same)
                    ∙ p
                    ∙ (eq_ℤ_iff w (pos 1)).0 ((require_iff _ _).0 q),
              ),
          λ (b, f, p).
              let same : a ≡ b = cc in step ∙ r.1 (pos 1, (b, first ∙ ap some same, p), refl),
        )
  ]
    where
      checked : Checked
      checked = arg_width_of at s 0 >>= λ w. require (eq_ℤ w (pos 1)) kill_if_arg

  expr_iff : (o : StmtOp) (s : Stmt) → (check_expr at to_int o s ≡ pass) ↔ ExprRule o s
  unfolding check_expr
  expr_iff op_const s = (λ _. tt, λ _. refl)
  expr_iff op_lsh s = first_width_iff s
  expr_iff op_rsh s = first_width_iff s
  expr_iff op_mul s = check_product_iff s
  expr_iff op_div s = check_difference_iff s
  expr_iff op_rem s = check_difference_iff s
  expr_iff op_bitslice s = slice_iff s
  expr_iff op_concat s = exact_iff s (sum_widths at (pos 0) s.args)
  expr_iff op_select s = select_iff s
  expr_iff op_cmp_lt s = compare_iff s
  expr_iff op_cmp_le s = compare_iff s
  expr_iff op_cmp_eq s = compare_iff s
  expr_iff op_cmp_ne s = compare_iff s
  expr_iff op_cmp_gt s = compare_iff s
  expr_iff op_cmp_ge s = compare_iff s
  expr_iff _ s = same_widths_iff s

  type_iff : (t : StmtType) (s : Stmt) → (check_type at to_int t s ≡ pass) ↔ StmtRule t s
  unfolding check_type
  type_iff expr s =
      iff_trans (>>_iff (require (not (eq_ℤ s.width width_txn_id)) _) (check_expr at to_int s.op s))
        (iff_prod
          (iff_trans (require_iff (not (eq_ℤ s.width width_txn_id)) _)
            (not_equal s.width width_txn_id))
          (expr_iff s.op s))
  type_iff phi s = matches_iff s
  type_iff if_stmt s = iff_trans (arg_width_of_iff s 0 _) (
      iff_trans (iff_exists λ a. iff_trans (require_iff (eq_ℤ a (pos 1)) _) (eq_ℤ_iff a (pos 1)))
        (λ (a, (i, e, p), q). (i, e, p ∙ q), λ h. (pos 1, h, refl)))
  type_iff spawn s = exact_iff s width_txn_id
  type_iff kill_if s = kill_if_iff s
  type_iff _ s = (λ _. tt, λ _. refl)

-- `CheckStmtWidth` passes a statement, reporting nothing, exactly if the typing rule of its kind and
-- operator holds.
pub check_stmt_iff :
    (at : ℕ → Stmt) (to_int : ℤ → ℤ) (s : Stmt)
    → (check_stmt at to_int s ≡ pass) ↔ StmtRule at to_int s.type s
unfolding check_stmt
check_stmt_iff at to_int s = type_iff at to_int s.type s
