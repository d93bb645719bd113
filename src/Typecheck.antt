-- ===== src/Typecheck.antt =====
-- src/backend/ir-typechecker.cc: how checks report errors and are put in sequence.
-- A check logs errors; it returns true (`ok`), returns false (`failed`), or reads an argument that is
-- not there, which the source does not guard against, or fails an assertion (`fault`).
pub mod Inversion
pub mod Ports
pub mod Storages
pub mod Stmts
pub mod Examples
pub mod Phis
use autopiper.Prelude.{
  ℕ, ◌+◌, Bool, true, false, List, [], ◌∷◌, ◌++◌, Option, none, some, get_elem?,
}
use autopiper.Prelude.Int.{ℤ}
use autopiper.Ir.{Stmt}

-- The errors that the checker reports, one for each message.
pub data Error : Type 0 where
  no_entry port_read_width port_write_width use_wrong_type def_wrong_type : Error
  chan_exported no_writers index_width_not_positive index_width_too_large : Error
  writer_index_width writer_data_not_positive writer_data_width reader_index_not_positive : Error
  reader_index_width reader_data_width bypass_incomplete bypass_write_arg : Error
  bypass_write_width bypass_read_width arg_width exact_width min_width txn_in_expr : Error
  slice_not_const select_widths select_cond compare_widths if_cond kill_if_arg : Error
  empty_block no_terminator same_targets : Error
  phi_arg_count phi_pred_list phi_arg_list phi_input phi_dominance use_dominance : Error

pub data Result {ℓ} (A : Type ℓ) : Type ℓ where
  ok : A → List Error → Result A
  failed : List Error → Result A
  fault : Result A

-- What `bool` functions return.
abbrev pub Checked : Type 0
Checked = Result (Unit {0})

abbrev pub after {ℓ} : {A : Type ℓ} → List Error → Result A → Result A
after e (ok a f) = ok a (e ++ f)
after e (failed f) = failed (e ++ f)
after e fault = fault

infixl 5 ◌>>=◌ ◌>>◌
abbrev pub ◌>>=◌ {ℓ κ} : {A : Type ℓ} {B : Type κ} → Result A → (A → Result B) → Result B
ok a e >>= f = after e (f a)
failed e >>= f = failed e
fault >>= f = fault

abbrev pub ◌>>◌ {κ} : {B : Type κ} → Checked → Result B → Result B
m >> k = m >>= λ _. k

abbrev pub pass : Checked
pass = ok tt []

-- `if (!b) { ReportError(e); return false; }`.
abbrev pub require : Bool → Error → Checked
require true e = pass
require false e = failed (e ∷ [])

-- `assert(b)`.
abbrev pub assert : Bool → Checked
assert true = pass
assert false = fault

-- `if (!b) { ReportError(e); }`.
abbrev pub report_unless : Bool → Error → Checked
report_unless true e = pass
report_unless false e = ok tt (e ∷ [])

-- A loop that returns false at the first failure.
unfoldable pub each {ℓ} : {A : Type ℓ} → (A → Checked) → List A → Checked
each f [] = pass
each f (x ∷ r) = let rest = each f r in f x >>= λ _. rest

abbrev pub read {ℓ} : {A : Type ℓ} → Option A → Result A
read none = fault
read (some a) = ok a []

-- `s->args[i]`.
unfoldable pub arg : (ℕ → Stmt) → Stmt → ℕ → Result Stmt
arg at s i = read (get_elem? s.args i) >>= λ a. ok (at a) []

-- `s->args[i]->width`.
unfoldable pub arg_width_of : (ℕ → Stmt) → Stmt → ℕ → Result ℤ
unfolding arg
arg_width_of at s i = arg at s i >>= λ a. ok a.width []
