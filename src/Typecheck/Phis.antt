-- ===== src/Typecheck/Phis.antt =====
-- src/backend/ir-typechecker.cc: `CheckPhis`, on the tree of dominators.
use autopiper.Prelude.{
  ℕ, ◌==◌, ◌≡◌, refl, ◌↔◌, Bool, true, false, ◌&&◌, List, [], ◌∷◌, Option, some, if◌then◌else◌,
  length, All, arith, Bool-cases, inl, inr,
}
use autopiper.Prelude.Member.{contains}
use autopiper.Ir.{StmtType, phi, Stmt, Program, succs}
use autopiper.Graph.Dominators.{Parents, dom}
use autopiper.Typecheck.{
  phi_arg_count, phi_pred_list, phi_arg_list, phi_input, phi_dominance, use_dominance, failed,
  fault, Checked, ◌>>◌, pass, require, each,
}
use autopiper.Typecheck.Inversion.{require_iff, >>_iff}

-- `DomTree::Dom`, for a tree of the nodes of an order; out of fuel is `none`.
abbrev pub dom_in : List ℕ → Parents → ℕ → ℕ → ℕ → Option Bool
dom_in order up fuel a b =
    if contains a order && contains b order then dom up fuel a b else some false

abbrev is_phi : StmtType → Bool
is_phi phi = true
is_phi _ = false

-- `doms` is `Dom` of the tree that `Compute` makes for the roots of the program.
module _ (p : Program) (doms : ℕ → ℕ → Bool) where
  -- The set of the predecessors of a block.
  unfoldable pub preds_among : ℕ → List ℕ → List ℕ
  preds_among b [] = []
  preds_among b (x ∷ r) =
      let rest = preds_among b r in if contains b (succs p x) then x ∷ rest else rest

  -- The loop over the inputs of a phi; the lists have the same length.
  unfoldable pub check_inputs : List ℕ → List ℕ → List ℕ → Checked
  check_inputs expected [] blocks = pass
  check_inputs expected (v ∷ r) [] = fault
  check_inputs expected (v ∷ r) (b ∷ s) =
      let rest = check_inputs expected r s in
      require (contains b expected) phi_input
      >> (require (doms (p.stmt v).bb b) phi_dominance >> rest)

  unfoldable pub check_phi : ℕ → Stmt → Checked
  check_phi b s =
      let expected = preds_among b p.bbs in
      elim (length s.targets == length s.args) [
        | false ↦ fault
        | true ↦ elim (length expected == length s.args) [
          | false ↦ failed (phi_arg_count ∷ phi_pred_list ∷ phi_arg_list ∷ [])
          | true ↦ check_inputs expected s.args s.targets
        ]
      ]

  -- The bodies of the two loops over blocks and statements.
  unfoldable pub check_if_phi : ℕ → ℕ → Checked
  check_if_phi b s = elim (is_phi (p.stmt s).type) [ true ↦ check_phi b (p.stmt s) | false ↦ pass ]

  unfoldable pub check_uses : ℕ → ℕ → Checked
  check_uses b s = elim (is_phi (p.stmt s).type) [
    | true ↦ pass
    | false ↦ each (λ a. require (doms (p.stmt a).bb b) use_dominance) (p.stmt s).args
  ]

  -- `CheckPhis`.
  unfoldable pub check_phis : Checked
  check_phis =
      each (λ b. each (check_if_phi b) (p.block b).stmts) p.bbs
      >> each (λ b. each (check_uses b) (p.block b).stmts) p.bbs

  -- What the inputs are to be: from expected blocks, which the blocks of the values dominate.
  abbrev pub AreInputs : List ℕ → List ℕ → List ℕ → Type 0
  AreInputs expected [] blocks = Unit
  AreInputs expected (v ∷ r) [] = ⊥
  AreInputs expected (v ∷ r) (b ∷ s) =
      (contains b expected ≡ true) × (doms (p.stmt v).bb b ≡ true) × AreInputs expected r s

  -- A phi has as many inputs as its block has predecessors, each from a predecessor.
  abbrev pub IsJoined : ℕ → ℕ → Type 0
  IsJoined b i =
      let s = p.stmt i in
      is_phi s.type ≡ true
      → (length s.targets ≡ length s.args)
        × (length (preds_among b p.bbs) ≡ length s.args)
        × AreInputs (preds_among b p.bbs) s.args s.targets

  -- Any other statement stands in a block that the blocks of its arguments dominate.
  abbrev pub IsDominated : ℕ → ℕ → Type 0
  IsDominated b i =
      is_phi (p.stmt i).type ≡ false → All (λ a. doms (p.stmt a).bb b ≡ true) (p.stmt i).args

  check_inputs_iff :
      (expected args blocks : List ℕ)
      → (check_inputs expected args blocks ≡ pass) ↔ AreInputs expected args blocks
  unfolding check_inputs
  check_inputs_iff expected [] blocks = (λ e. tt, λ h. refl)
  check_inputs_iff expected (v ∷ r) [] = (λ e. absurd (cc), λ h. absurd h)
  check_inputs_iff expected (v ∷ r) (b ∷ s) =
      let rest = check_inputs expected r s in
      let known = require (contains b expected) phi_input in
      let above = require (doms (p.stmt v).bb b) phi_dominance in
      (
        λ e.
            let (h, k) = (>>_iff known (above >> rest)).0 e in
            let (i, j) = (>>_iff above rest).0 k in
            (
              (require_iff (contains b expected) phi_input).0 h,
              (require_iff (doms (p.stmt v).bb b) phi_dominance).0 i,
              (check_inputs_iff expected r s).0 j,
            ),
        λ (x, y, z). (>>_iff known (above >> rest)).1 (
          (require_iff (contains b expected) phi_input).1 x,
          (>>_iff above rest).1 (
            (require_iff (doms (p.stmt v).bb b) phi_dominance).1 y,
            (check_inputs_iff expected r s).1 z,
          ),
        ),
      )

  All-pass_iff :
      (f : ℕ → Checked) (P : ℕ → Type 0)
      → ((x : ℕ) → (f x ≡ pass) ↔ P x)
      → (l : List ℕ) → (each f l ≡ pass) ↔ All P l
  unfolding each
  All-pass_iff f P h [] = (λ e. tt, λ i. refl)
  All-pass_iff f P h (x ∷ r) = (
    λ e. let (i, j) = (>>_iff (f x) (each f r)).0 e in ((h x).0 i, (All-pass_iff f P h r).0 j),
    λ (i, j). (>>_iff (f x) (each f r)).1 ((h x).1 i, (All-pass_iff f P h r).1 j),
  )

  equal_lengths : (a b : ℕ) → (a == b) ≡ true → a ≡ b
  equal_lengths a b e = ground arith

  lengths_equal : (a b : ℕ) → a ≡ b → (a == b) ≡ true
  lengths_equal a b e = ground arith

  check_phi-IsJoined : (b i : ℕ) → (check_if_phi b i ≡ pass) ↔ IsJoined b i
  unfolding check_phi check_if_phi
  check_phi-IsJoined b i =
      let s = p.stmt i in
      let expected = preds_among b p.bbs in
      let inputs = check_inputs_iff expected s.args s.targets in
      elim (Bool-cases (is_phi s.type)) [
        | inr e ↦ (λ h k. absurd (cc (e, k)), λ h. rw (e, check_if_phi) refl)
        | inl e ↦ (
          λ h k. elim (Bool-cases (length s.targets == length s.args)) [
            | inr f ↦ absurd (cc (rw (e, f, check_if_phi, check_phi) at h))
            | inl f ↦ elim (Bool-cases (length expected == length s.args)) [
              | inr g ↦ absurd (cc (rw (e, f, g, check_if_phi, check_phi) at h))
              | inl g ↦ (
                equal_lengths (length s.targets) (length s.args) f,
                equal_lengths (length expected) (length s.args) g,
                inputs.0 (rw (e, f, g, check_if_phi, check_phi) at h),
              )
            ]
          ],
          λ h.
              let (x, y, z) = h e in
              let f = lengths_equal (length s.targets) (length s.args) x in
              let g = lengths_equal (length expected) (length s.args) y in
              rw (e, f, g, check_if_phi, check_phi) (inputs.1 z),
        )
      ]

  check_uses-IsDominated : (b i : ℕ) → (check_uses b i ≡ pass) ↔ IsDominated b i
  unfolding check_uses
  check_uses-IsDominated b i =
      let s = p.stmt i in
      let uses =
        All-pass_iff (λ a. require (doms (p.stmt a).bb b) use_dominance)
          (λ a. doms (p.stmt a).bb b ≡ true) (λ a. require_iff (doms (p.stmt a).bb b) use_dominance)
          s.args in
      elim (Bool-cases (is_phi s.type)) [
        | inl e ↦ (λ h k. absurd (cc (e, k)), λ h. rw (e, check_uses) refl)
        | inr e ↦ (λ h k. uses.0 (rw (e, check_uses) at h), λ h. rw (e, check_uses) (uses.1 (h e)))
      ]

  -- `CheckPhis` passes without a report just when each phi has as many inputs as its block has
  -- predecessors, each input from a predecessor that the block of its value dominates, and each other
  -- statement stands in a block that the blocks of its arguments dominate; for any answers of `Dom`.
  pub check_phis_iff : (check_phis ≡ pass) ↔ (
      All (λ b. All (IsJoined b) (p.block b).stmts) p.bbs
      × All (λ b. All (IsDominated b) (p.block b).stmts) p.bbs)
  unfolding check_phis
  check_phis_iff =
      let joins =
        All-pass_iff (λ b. each (check_if_phi b) (p.block b).stmts)
          (λ b. All (IsJoined b) (p.block b).stmts)
          (λ b. All-pass_iff (check_if_phi b) (IsJoined b) (check_phi-IsJoined b) (p.block b).stmts)
          p.bbs in
      let uses =
        All-pass_iff (λ b. each (check_uses b) (p.block b).stmts)
          (λ b. All (IsDominated b) (p.block b).stmts)
          (λ b.
            All-pass_iff (check_uses b) (IsDominated b) (check_uses-IsDominated b)
              (p.block b).stmts)
          p.bbs in
      (
        λ e.
            let (h, k) =
              (>>_iff (each (λ b. each (check_if_phi b) (p.block b).stmts) p.bbs)
                  (each (λ b. each (check_uses b) (p.block b).stmts) p.bbs)).0
                e in
            (joins.0 h, uses.0 k),
        λ (h, k).
            (>>_iff (each (λ b. each (check_if_phi b) (p.block b).stmts) p.bbs)
                (each (λ b. each (check_uses b) (p.block b).stmts) p.bbs)).1
              (joins.1 h, uses.1 k),
      )
