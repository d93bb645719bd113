-- ===== src/Typecheck/Storages/Derived.antt =====
-- The widths that `DeriveStorageSize` derives, against every writer and every reader.
use autopiper.Prelude.{
  Bool-cases, inl, inr, ℕ, ◌≡◌, refl, sym, ◌∙◌, subst, Bool, true, false, not, ◌||◌, List, [], ◌∷◌,
  All, arith,
}
use autopiper.Prelude.Int.{ℤ, pos, negsuc, eq_ℤ, eq_ℤ_iff, ltb_ℤ}
use autopiper.Ir.{Stmt, StmtType, Storage, reg_write, array_write}
use autopiper.Typecheck.{
  Error, arg, ok, require, assert, each, arg_width_of, no_writers, reader_index_not_positive,
  reader_index_width,
}
use autopiper.Typecheck.Inversion.{>>=-eq-ok, require-eq-ok, append-eq-nil}
use autopiper.Typecheck.Storages.{
  Widths, is_array_write, is_reg_write, is_array_read, is_empty, check_writer, writer_widths,
  survey_writers, reader_index, check_reader, derive_storage_size,
}
use autopiper.Typecheck.Storages.Consistent.{Follows, check_writer-eq-ok}

-- Both widths are determined.
Known : Widths → Type 0
Known s = (eq_ℤ s.index (negsuc 0) ≡ false) × (eq_ℤ s.content (negsuc 0) ≡ false)

positive_known : (w : ℤ) → ltb_ℤ (pos 0) w ≡ true → eq_ℤ w (negsuc 0) ≡ false
positive_known (pos n) h = refl
positive_known (negsuc n) h = ground arith

-- `IRWritesStorage`.
abbrev pub writes_storage : StmtType → Bool
writes_storage reg_write = true
writes_storage array_write = true
writes_storage _ = false

abbrev unknown_widths : Widths
unknown_widths = record { index = negsuc 0; content = negsuc 0 }

other_writer :
    (t : StmtType) → writes_storage t ≡ true → is_reg_write t ≡ false → is_array_write t ≡ true
other_writer t h k = ground arith

module _ (at : ℕ → Stmt) where
  -- A writer's index and data widths are the storage's, the latter if nothing was reported.
  pub record WriterFits (index content : ℤ) (quiet : Type 0) (s : ℕ) : Type 0 where
    pub own : Widths
    pub found : writer_widths at (at s) ≡ ok own []
    pub same_index : own.index ≡ index
    pub same_content : quiet → own.content ≡ content

  arg_width_of-no_errors :
      (s : Stmt) (i : ℕ) {w : ℤ} {e : List Error} → arg_width_of at s i ≡ ok w e → e ≡ []
  unfolding arg_width_of arg
  arg_width_of-no_errors s i h = ground arith

  writer_widths-no_errors :
      (s : Stmt) {v : Widths} {e : List Error} → writer_widths at s ≡ ok v e → e ≡ []
  unfolding writer_widths arg_width_of arg
  writer_widths-no_errors s h = ground arith

  weaken :
      (i c : ℤ) (quiet quieter : Type 0)
      → (quieter → quiet)
      → (ws : List ℕ) → All (WriterFits i c quiet) ws
      → All (WriterFits i c quieter) ws
  weaken i c quiet quieter f [] h = tt
  weaken i c quiet quieter f (w ∷ ws) h = (
    record {
      own = h.0.own;
      found = h.0.found;
      same_index = h.0.same_index;
      same_content = λ q. h.0.same_content (f q);
    },
    weaken i c quiet quieter f ws h.1,
  )

  -- Later writers leave widths that are determined, and agree with them.
  survey-Known :
      (ws : List ℕ) (s r : Widths) (e : List Error)
      → Known s
      → survey_writers at ws s ≡ ok r e
      → (r ≡ s) × All (WriterFits s.index s.content (e ≡ [])) ws
  unfolding survey_writers Known
  survey-Known [] s r e k h = (cc, tt)
  survey-Known (w ∷ ws) s r e k h =
      let (v, c1, d1, p1, h1, e1) = >>=-eq-ok (writer_widths at (at w)) _ h in
      let (m, c2, d2, p2, h2, e2) =
        >>=-eq-ok (check_writer (at w).type v.index v.content s) (survey_writers at ws) h1 in
      let f = check_writer-eq-ok (at w).type v.index v.content s m p2 in
      let index : s.index ≡ v.index = f.index_kept k.0 in
      let same : m ≡ s =
        λ i. record { index = (f.index ∙ sym index) i; content = f.content_kept k.1 i } in
      let (ends, all) =
        survey-Known ws s r d2 k (subst (λ x. survey_writers at ws x ≡ ok r d2) same h2) in
      let quiet : e ≡ [] → (c2 ≡ []) × (d2 ≡ []) =
        λ q. append-eq-nil d1 c2 d2 e2 (append-eq-nil e c1 d1 e1 q).1 in
      (
        ends,
        (
          record {
            own = v;
            found =
                subst (λ x. writer_widths at (at w) ≡ ok v x) (writer_widths-no_errors (at w) p1)
                  p1;
            same_index = sym index;
            same_content = λ q. sym (f.content (quiet q).0) ∙ f.content_kept k.1;
          },
          weaken s.index s.content (d2 ≡ []) (e ≡ []) (λ q. (quiet q).1) ws all,
        ),
      )

  reg_write_index :
      (s : Stmt) {v : Widths} {e : List Error}
      → is_reg_write s.type ≡ true
      → writer_widths at s ≡ ok v e
      → v.index ≡ pos 0
  unfolding writer_widths arg_width_of arg
  reg_write_index s t h = ground arith

  first_index :
      (s : Stmt) (v r : Widths) {e : List Error} (quiet : Type 0)
      → writes_storage s.type ≡ true
      → writer_widths at s ≡ ok v e
      → Follows s.type v.index v.content unknown_widths r quiet
      → eq_ℤ v.index (negsuc 0) ≡ false
  first_index s v r quiet t h f = elim (Bool-cases (is_reg_write s.type)) [
    | inl e ↦ rw (reg_write_index s e h) refl
    | inr e ↦ positive_known v.index (f.array_index (other_writer s.type t e))
  ]

  -- The whole loop over the writers determines both widths.
  survey-fresh :
      (w : ℕ) (ws : List ℕ) (r : Widths) (e : List Error)
      → writes_storage (at w).type ≡ true
      → survey_writers at (w ∷ ws) unknown_widths ≡ ok r e
      → (ltb_ℤ (pos 0) r.content ≡ true) × All (WriterFits r.index r.content (e ≡ [])) (w ∷ ws)
  unfolding survey_writers Known
  survey-fresh w ws r e t h =
      let (v, c1, d1, p1, h1, e1) = >>=-eq-ok (writer_widths at (at w)) _ h in
      let (m, c2, d2, p2, h2, e2) =
        >>=-eq-ok (check_writer (at w).type v.index v.content unknown_widths) (survey_writers at ws)
          h1 in
      let f = check_writer-eq-ok (at w).type v.index v.content unknown_widths m p2 in
      let known_index : eq_ℤ m.index (negsuc 0) ≡ false =
        subst (λ x. eq_ℤ x (negsuc 0) ≡ false) (sym f.index)
          (first_index (at w) v m (c2 ≡ []) t p1 f) in
      let positive = f.positive refl in
      let (ends, all) =
        survey-Known ws m r d2 (known_index, positive_known m.content positive) h2 in
      let quiet : e ≡ [] → (c2 ≡ []) × (d2 ≡ []) =
        λ q. append-eq-nil d1 c2 d2 e2 (append-eq-nil e c1 d1 e1 q).1 in
      subst
        (λ x.
          (ltb_ℤ (pos 0) x.content ≡ true) × All (WriterFits x.index x.content (e ≡ [])) (w ∷ ws))
        (sym ends)
        (
          positive,
          (
            record {
              own = v;
              found =
                  subst (λ x. writer_widths at (at w) ≡ ok v x) (writer_widths-no_errors (at w) p1)
                    p1;
              same_index = sym f.index;
              same_content = λ q. sym (f.content (quiet q).0);
            },
            weaken m.index m.content (d2 ≡ []) (e ≡ []) (λ q. (quiet q).1) ws all,
          ),
        )

  -- A reader's index and data widths are the storage's.
  abbrev pub ReaderFits : Storage → ℕ → Type 0
  ReaderFits st s = (reader_index at (at s) ≡ ok st.index_width []) × ((at s).width ≡ st.data_width)

  reader_index-no_errors : (s : Stmt) {w : ℤ} {e : List Error} → reader_index at s ≡ ok w e → e ≡ []
  unfolding reader_index arg_width_of arg
  reader_index-no_errors s h = ground arith

  check_reader-eq-ok :
      (st : Storage) (s : ℕ) {u : Unit {0}} {e : List Error}
      → check_reader at st s ≡ ok u e
      → ReaderFits st s
  unfolding check_reader
  check_reader-eq-ok st s h =
      let (w, c1, d1, p1, h1, e1) = >>=-eq-ok (reader_index at (at s)) _ h in
      let (_, c2, d2, p2, h2, e2) =
        >>=-eq-ok
          (require (not (is_array_read (at s).type) || ltb_ℤ (pos 0) w) reader_index_not_positive) _
          h1 in
      let (_, c3, d3, p3, h3, e3) =
        >>=-eq-ok (require (eq_ℤ w st.index_width) reader_index_width) _ h2 in
      let same = (eq_ℤ_iff w st.index_width).0 (require-eq-ok _ _ p3).0 in
      (
        p1 ∙ cc (same, reader_index-no_errors (at s) p1),
        (eq_ℤ_iff (at s).width st.data_width).0 (require-eq-ok _ _ h3).0,
      )

  readers-eq-ok :
      (st : Storage) (l : List ℕ) {u : Unit {0}} {e : List Error}
      → each (check_reader at st) l ≡ ok u e
      → All (ReaderFits st) l
  unfolding each
  readers-eq-ok st [] h = tt
  readers-eq-ok st (s ∷ l) h =
      let (_, c1, d1, p1, h1, e1) = >>=-eq-ok (check_reader at st s) _ h in
      (check_reader-eq-ok st s p1, readers-eq-ok st l h1)

-- If all writers are register or array writes and `DeriveStorageSize` returns true, the data width is positive, every reader has the derived index
-- and data widths, every writer the derived index width, and, if nothing was reported, the derived
-- data width.
pub derive_storage_size-fits :
    (at : ℕ → Stmt) (st q : Storage) (e : List Error)
    → All (λ s. writes_storage (at s).type ≡ true) st.writers
    → derive_storage_size at st ≡ ok q e
    → (ltb_ℤ (pos 0) q.data_width ≡ true)
      × All (WriterFits at q.index_width q.data_width (e ≡ [])) st.writers
      × All (ReaderFits at q) st.readers
unfolding derive_storage_size
derive_storage_size-fits at st q e t h = by_writers st.writers st.readers refl refl t
  where
    by_writers :
        (ws rs : List ℕ)
        → st.writers ≡ ws
        → st.readers ≡ rs
        → All (λ s. writes_storage (at s).type ≡ true) ws
        → (ltb_ℤ (pos 0) q.data_width ≡ true)
          × All (WriterFits at q.index_width q.data_width (e ≡ [])) ws
          × All (ReaderFits at q) rs
    by_writers [] rs k _ t =
        let (_, c1, d1, p1, h1, e1) =
          >>=-eq-ok (require (not (is_empty st.writers)) no_writers) _ h in
        let full = subst (λ x. not (is_empty x) ≡ true) k (require-eq-ok _ _ p1).0 in cc
    by_writers (w ∷ ws) rs k l t =
        let (_, c1, d1, p1, h1, e1) =
          >>=-eq-ok (require (not (is_empty st.writers)) no_writers) _ h in
        let (m, c2, d2, p2, h2, e2) =
          >>=-eq-ok (survey_writers at st.writers unknown_widths) _ h1 in
        let sized = record st { index_width = m.index; data_width = m.content } in
        let (_, ca, da, pa, ha, ea) = >>=-eq-ok (assert (not (ltb_ℤ m.index (pos 0)))) _ h2 in
        let (_, cb, db, pb, hb, eb) = >>=-eq-ok (assert (not (ltb_ℤ m.content (pos 0)))) _ ha in
        let (_, c3, d3, p3, h3, e3) = >>=-eq-ok (each (check_reader at sized) st.readers) _ hb in
        let (positive, writers) =
          survey-fresh at w ws m c2 t.0
            (subst (λ x. survey_writers at x unknown_widths ≡ ok m c2) k p2) in
        let readers =
          readers-eq-ok at sized rs (subst (λ x. each (check_reader at sized) x ≡ ok tt c3) l p3) in
        let same : sized ≡ q = cc in
        let quiet : e ≡ [] → c2 ≡ [] =
          λ n. (append-eq-nil d1 c2 d2 e2 (append-eq-nil e c1 d1 e1 n).1).0 in
        subst
          (λ x.
            (ltb_ℤ (pos 0) x.data_width ≡ true)
            × All (WriterFits at x.index_width x.data_width (e ≡ [])) (w ∷ ws)
            × All (ReaderFits at x) rs)
          same
          (positive, weaken at m.index m.content (c2 ≡ []) (e ≡ []) quiet (w ∷ ws) writers, readers)
