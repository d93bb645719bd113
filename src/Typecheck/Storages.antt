-- ===== src/Typecheck/Storages.antt =====
-- src/backend/ir-typechecker.cc: `DeriveStorageSize`.
pub mod Consistent
pub mod Derived
use autopiper.Prelude.{
  ℕ, ◌+◌, Bool, true, false, not, ◌&&◌, ◌||◌, List, [], ◌∷◌, ◌++◌, Option, none, some,
  if◌then◌else◌,
}
use autopiper.Prelude.Int.{ℤ, pos, negsuc, eq_ℤ, ltb_ℤ}
use autopiper.Ir.{Stmt, StmtType, Storage, reg_write, reg_read, array_read, array_write}
use autopiper.Typecheck.{
  Error, no_writers, index_width_not_positive, index_width_too_large, writer_index_width,
  writer_data_not_positive, writer_data_width, reader_index_not_positive, reader_index_width,
  reader_data_width, Result, ok, failed, fault, Checked, ◌>>=◌, ◌>>◌, pass, require, assert,
  report_unless, each, arg_width_of,
}

abbrev unknown_width : ℤ
unknown_width = negsuc 0

abbrev is_reg_write : StmtType → Bool
is_reg_write reg_write = true
is_reg_write _ = false

abbrev is_array_write : StmtType → Bool
is_array_write array_write = true
is_array_write _ = false

abbrev is_reg_read : StmtType → Bool
is_reg_read reg_read = true
is_reg_read _ = false

abbrev is_array_read : StmtType → Bool
is_array_read array_read = true
is_array_read _ = false

abbrev is_empty : List ℕ → Bool
is_empty [] = true
is_empty (_ ∷ _) = false

-- The index width and the data width found so far.
pub record Widths : Type 0 where
  pub index : ℤ
  pub content : ℤ

-- The checks of the loop over the writers, on the widths of one writer.
unfoldable pub check_writer : StmtType → ℤ → ℤ → Widths → Result Widths
check_writer t iw dw s = do
  require (not (is_array_write t) || ltb_ℤ (pos 0) iw) index_width_not_positive
  require (not (is_array_write t) || ltb_ℤ iw (pos 64)) index_width_too_large
  require (eq_ℤ s.index unknown_width || eq_ℤ s.index iw) writer_index_width
  require (not (eq_ℤ s.content unknown_width) || ltb_ℤ (pos 0) dw) writer_data_not_positive
  report_unless (eq_ℤ s.content unknown_width || eq_ℤ s.content dw) writer_data_width
  ok
      (record {
        index = if eq_ℤ s.index unknown_width then iw else s.index;
        content = if eq_ℤ s.content unknown_width then dw else s.content;
      })
      []

module _ (at : ℕ → Stmt) where
  -- `stmt_index_width` and `stmt_data_width` of a writer.
  unfoldable pub writer_widths : Stmt → Result Widths
  writer_widths s =
      if is_reg_write s.type
      then (arg_width_of at s 0 >>= λ d. ok (record { index = pos 0; content = d }) [])
      else (arg_width_of at s 0 >>= λ i.
          arg_width_of at s 1 >>= λ d. ok (record { index = i; content = d }) [])

  -- The loop over the writers.
  unfoldable pub survey_writers : List ℕ → Widths → Result Widths
  survey_writers [] w = ok w []
  survey_writers (s ∷ r) w =
      let rest = survey_writers r in
      writer_widths (at s) >>= λ v. check_writer (at s).type v.index v.content w >>= rest

  -- `stmt_index_width` of a reader.
  unfoldable pub reader_index : Stmt → Result ℤ
  reader_index s = if is_reg_read s.type then ok (pos 0) [] else arg_width_of at s 0

  -- The body of the loop over the readers.
  unfoldable pub check_reader : Storage → ℕ → Checked
  check_reader st s = do
    iw ← reader_index (at s)
    require (not (is_array_read (at s).type) || ltb_ℤ (pos 0) iw) reader_index_not_positive
    require (eq_ℤ iw st.index_width) reader_index_width
    require (eq_ℤ (at s).width st.data_width) reader_data_width

  -- `DeriveStorageSize`: the storage with its widths set; an assertion that fails is a fault.
  unfoldable pub derive_storage_size : Storage → Result Storage
  derive_storage_size st = do
    require (not (is_empty st.writers)) no_writers
    w ← survey_writers st.writers (record { index = unknown_width; content = unknown_width })
    assert (not (ltb_ℤ w.index (pos 0)))
    assert (not (ltb_ℤ w.content (pos 0)))
    let sized = record st { index_width = w.index; data_width = w.content }
    each (check_reader sized) st.readers
    ok sized []
