-- ===== src/Typecheck/Examples.antt =====
-- src/backend/ir-typechecker.cc: runs of the checks, and the theorems at concrete inputs.
use autopiper.Prelude.{ℕ, ◌⊎◌, ◌==◌, ◌≡◌, refl, Bool, true, List, [], ◌∷◌, All, ◌↔◌, if◌then◌else◌}
use autopiper.Prelude.Int.{ℤ, pos, ltb_ℤ}
use autopiper.Ir.{
  Stmt, Port, Storage, port, expr, array_write, array_read, port_write, port_read, op_none, op_add,
  op_const,
}
use autopiper.Typecheck.{Error, ok, pass, arg_width_of, arg, each, writer_data_width}
use autopiper.Typecheck.Ports.{derive_port_width, port_width, check_port}
use autopiper.Typecheck.Ports.Consistent.{IsConsistent, derive_port_width-IsConsistent}
use autopiper.Typecheck.Storages.{
  derive_storage_size, survey_writers, check_writer, writer_widths, reader_index, check_reader,
}
use autopiper.Typecheck.Storages.Derived.{WriterFits, ReaderFits, derive_storage_size-fits}
use autopiper.Ir.{Program, phi, jmp, succs, succ_stmt}
use autopiper.Prelude.Member.{contains}
use autopiper.Typecheck.Phis.{
  check_phis, check_uses, check_if_phi, check_phi, check_inputs, preds_among, IsJoined, IsDominated,
  check_phis_iff,
}
use autopiper.Typecheck.Stmts.{check_stmt}
use autopiper.Typecheck.Stmts.Typing.{StmtRule}
use autopiper.Typecheck.Stmts.Strict.{IsRefused, check_stmt_decides}

-- A constant of eight bits, one of two bits, a write and a read of a port, and a write and a read of
-- an array at the small constant.
abbrev plain : Stmt
plain = record {
  type = expr;
  op = op_const;
  bb = 0;
  args = [];
  constant = pos 0;
  targets = [];
  width = pos 8;
}

abbrev memory : ℕ → Stmt
memory n =
    if n == 0
    then plain
    else if n == 1
    then record plain { width = pos 2 }
    else if n == 2
    then record plain { type = port_write; op = op_none; args = 0 ∷ [] }
    else if n == 3
    then record plain { type = port_read; op = op_none }
    else if n == 4
    then record plain { type = array_write; op = op_none; args = 1 ∷ 0 ∷ [] }
    else if n == 5
    then record plain { type = array_read; op = op_none; args = 1 ∷ [] }
    else record plain { op = op_add; args = 0 ∷ 0 ∷ [] }

abbrev a_port : Port
a_port = record {
  width = pos 0;
  type = port;
  exported = true;
  defs = 2 ∷ [];
  uses = 3 ∷ [];
  exports = [];
}

abbrev sized_port : Port
sized_port = record a_port { width = pos 8 }

derive_port_width_runs : derive_port_width memory a_port ≡ ok sized_port []
unfolding derive_port_width port_width check_port arg_width_of arg each
derive_port_width_runs = refl

derive_port_width-IsConsistent_example :
    IsConsistent memory sized_port
    × (sized_port ≡ record a_port { width = sized_port.width })
    × (◌≡◌ {A = List Error} [] [] → sized_port.exported ≡ true → sized_port.type ≡ port)
derive_port_width-IsConsistent_example =
    derive_port_width-IsConsistent memory a_port sized_port derive_port_width_runs

abbrev an_array : Storage
an_array = record { data_width = pos 0; index_width = pos 0; writers = 4 ∷ []; readers = 5 ∷ [] }

abbrev sized_array : Storage
sized_array = record an_array { data_width = pos 8; index_width = pos 2 }

derive_storage_size_runs : derive_storage_size memory an_array ≡ ok sized_array []
unfolding derive_storage_size survey_writers check_writer writer_widths reader_index check_reader
    arg_width_of arg each
derive_storage_size_runs = refl

derive_storage_size-fits_example :
    (ltb_ℤ (pos 0) sized_array.data_width ≡ true)
    × All
        (WriterFits memory sized_array.index_width sized_array.data_width
          (◌≡◌ {A = List Error} [] []))
        an_array.writers
    × All (ReaderFits memory sized_array) an_array.readers
derive_storage_size-fits_example =
    derive_storage_size-fits memory an_array sized_array [] (refl, tt) derive_storage_size_runs

-- A writer with another data width is reported, and the check goes on.
mismatch_goes_on :
    check_writer array_write (pos 2) (pos 7) (record { index = pos 2; content = pos 8 })
    ≡ ok (record { index = pos 2; content = pos 8 }) (writer_data_width ∷ [])
unfolding check_writer
mismatch_goes_on = refl

abbrev same_int : ℤ → ℤ
same_int n = n

check_stmt_decides_example :
    ((check_stmt memory same_int (memory 6) ≡ pass) × StmtRule memory same_int expr (memory 6))
    ⊎ ((¬ StmtRule memory same_int expr (memory 6))
        × IsRefused (check_stmt memory same_int (memory 6)))
check_stmt_decides_example = check_stmt_decides memory same_int (memory 6)

-- A block that jumps to another, whose phi takes the first one's constant.
abbrev joined_at : ℕ → Stmt
joined_at n =
    if n == 0
    then plain
    else if n == 1
    then record plain { type = jmp; op = op_none; targets = 1 ∷ [] }
    else record plain { type = phi; op = op_none; bb = 1; args = 0 ∷ []; targets = 0 ∷ [] }

abbrev joined_program : Program
joined_program = record {
  stmt = joined_at;
  block = λ b. if b == 0 then record { stmts = 0 ∷ 1 ∷ [] } else record { stmts = 2 ∷ [] };
  bbs = 0 ∷ 1 ∷ [];
  ports = [];
  storage = [];
  bypasses = [];
  entries = 0 ∷ [];
}

abbrev above_all : ℕ → ℕ → Bool
above_all a b = a == 0

joined_passes : check_phis joined_program above_all ≡ pass
unfolding check_phis each check_if_phi check_phi check_inputs preds_among contains check_uses succs
    succ_stmt
joined_passes = refl

check_phis_iff_example : (check_phis joined_program above_all ≡ pass) ↔ (
    All
      (λ b. All (IsJoined joined_program above_all b) (joined_program.block b).stmts)
      joined_program.bbs
    × All
        (λ b. All (IsDominated joined_program above_all b) (joined_program.block b).stmts)
        joined_program.bbs)
check_phis_iff_example = check_phis_iff joined_program above_all
