-- ===== src/Typecheck/Storages/Consistent.antt =====
-- What the check of a writer leaves when it goes on.
use autopiper.Prelude.{
  if◌then◌else◌, Bool-cases, inl, inr, ◌≡◌, refl, sym, ◌∙◌, subst, Bool, true, false, not, ◌||◌,
  List, [], arith,
}
use autopiper.Prelude.Int.{ℤ, pos, negsuc, eq_ℤ, eq_ℤ_iff, ltb_ℤ}
use autopiper.Ir.{StmtType}
use autopiper.Typecheck.{
  index_width_not_positive, index_width_too_large, writer_index_width, writer_data_not_positive,
  Error, ok, require, report_unless, writer_data_width,
}
use autopiper.Typecheck.Inversion.{>>=-eq-ok, require-eq-ok, append-eq-nil}
use autopiper.Typecheck.Storages.{Widths, is_array_write, check_writer}

report_unless-eq-ok :
    (b : Bool) (x : Error) {u : Unit {0}} {f : List Error}
    → report_unless b x ≡ ok u f
    → f ≡ []
    → b ≡ true
report_unless-eq-ok true x h k = refl
report_unless-eq-ok false x h k = cc

unguard : (a b : Bool) → (not a || b) ≡ true → a ≡ true → b ≡ true
unguard a b h k = ground arith

index_after :
    (a b c : ℤ)
    → (eq_ℤ a (negsuc 0) || eq_ℤ a b) ≡ true
    → (if eq_ℤ a (negsuc 0) then b else a) ≡ c
    → (c ≡ b) × (eq_ℤ a (negsuc 0) ≡ false → a ≡ b)
index_after a b c h k = ground (arith, eq_ℤ_iff a b)

content_after :
    (a b c : ℤ)
    → (not (eq_ℤ a (negsuc 0)) || ltb_ℤ (pos 0) b) ≡ true
    → (if eq_ℤ a (negsuc 0) then b else a) ≡ c
    → (eq_ℤ a (negsuc 0) ≡ false → c ≡ a)
      × ((eq_ℤ a (negsuc 0) || eq_ℤ a b) ≡ true → c ≡ b)
      × (eq_ℤ a (negsuc 0) ≡ true → ltb_ℤ (pos 0) c ≡ true)
content_after a b c h k = elim (Bool-cases (eq_ℤ a (negsuc 0))) [
  | inl e ↦
      let same : b ≡ c = rw e at k in
      (λ d. cc, λ _. sym same, λ _. subst (λ x. ltb_ℤ (pos 0) x ≡ true) same (rw e at h))
  | inr e ↦
      let same : a ≡ c = rw e at k in
      (λ _. sym same, λ d. sym same ∙ (eq_ℤ_iff a b).0 (rw e at d), λ d. cc)
]

-- Widths after a writer: those of the writer, if nothing was reported, and those before it.
pub record Follows (t : StmtType) (iw dw : ℤ) (s r : Widths) (quiet : Type 0) : Type 0 where
  pub index : r.index ≡ iw
  pub index_kept : eq_ℤ s.index (negsuc 0) ≡ false → s.index ≡ iw
  pub content_kept : eq_ℤ s.content (negsuc 0) ≡ false → r.content ≡ s.content
  pub content : quiet → r.content ≡ dw
  pub array_index : is_array_write t ≡ true → ltb_ℤ (pos 0) iw ≡ true
  pub positive : eq_ℤ s.content (negsuc 0) ≡ true → ltb_ℤ (pos 0) r.content ≡ true

widths_of :
    (a b : ℤ) (r : Widths) {e f : List Error}
    → ok (record { index = a; content = b }) e ≡ ok r f
    → (a ≡ r.index) × (b ≡ r.content)
widths_of a b r h = ground arith

pub check_writer-eq-ok :
    (t : StmtType) (iw dw : ℤ) (s r : Widths) {e : List Error}
    → check_writer t iw dw s ≡ ok r e
    → Follows t iw dw s r (e ≡ [])
unfolding check_writer
check_writer-eq-ok t iw dw s r {e} h =
    let (_, c1, d1, p1, h1, e1) =
      >>=-eq-ok (require (not (is_array_write t) || ltb_ℤ (pos 0) iw) index_width_not_positive) _
        h in
    let (_, c2, d2, p2, h2, e2) =
      >>=-eq-ok (require (not (is_array_write t) || ltb_ℤ iw (pos 64)) index_width_too_large) _
        h1 in
    let (_, c3, d3, p3, h3, e3) =
      >>=-eq-ok (require (eq_ℤ s.index (negsuc 0) || eq_ℤ s.index iw) writer_index_width) _ h2 in
    let (_, c4, d4, p4, h4, e4) =
      >>=-eq-ok
        (require (not (eq_ℤ s.content (negsuc 0)) || ltb_ℤ (pos 0) dw) writer_data_not_positive) _
        h3 in
    let (_, c5, d5, p5, h5, e5) =
      >>=-eq-ok (report_unless (eq_ℤ s.content (negsuc 0) || eq_ℤ s.content dw) writer_data_width) _
        h4 in
    let (k3, _) = require-eq-ok _ _ p3 in
    let (k4, _) = require-eq-ok _ _ p4 in
    let (ki, kk) = index_after s.index iw r.index k3 (widths_of _ _ r h5).0 in
    let (kc, kq, kp) = content_after s.content dw r.content k4 (widths_of _ _ r h5).1 in
    record {
      index = ki;
      index_kept = kk;
      content_kept = kc;
      content = λ k.
          let (_, q1) = append-eq-nil e c1 d1 e1 k in
          let (_, q2) = append-eq-nil d1 c2 d2 e2 q1 in
          let (_, q3) = append-eq-nil d2 c3 d3 e3 q2 in
          let (_, q4) = append-eq-nil d3 c4 d4 e4 q3 in
          let (q5, _) = append-eq-nil d4 c5 d5 e5 q4 in kq (report_unless-eq-ok _ _ p5 q5);
      array_index = λ a. unguard _ _ (require-eq-ok _ _ p1).0 a;
      positive = kp;
    }
