-- ===== src/Crosslink/Link.antt =====
-- src/backend/ir-crosslinker.cc: the labels and the value numbers of statements are resolved.
use autopiper.Prelude.{ℕ, ◌≡◌, refl, sym, ◌∙◌, subst, ◌⊎◌, inl, inr, List, [], ◌∷◌, map, All}
use autopiper.Prelude.Int.{ℤ, eq_ℤ, eq_ℤ_iff}
use autopiper.Prelude.Member.{In}
use autopiper.Timing.{set}
use autopiper.Timing.Store.{set_same, set_other}
use autopiper.Crosslink.{
  Name, name_eq, CrossError, duplicate_label, duplicate_valnum, unknown_target, unknown_arg,
  crossed, bad, Raw, Links, no_links, link_stmt, link_stmts, link_all,
}
use autopiper.Crosslink.Keys.{
  name_eq_iff, Splits, pairs, IsKeyed, Repeats, index-outcome, resolve-outcome,
}

module _ (label : ℕ → Name) (raw : ℕ → Raw) (bbs stmts : List ℕ) where
  abbrev number : ℕ → ℤ
  number s = (raw s).valnum

  -- What a statement's names and numbers are to lead to.
  pub record IsLinked (s : ℕ) (l : Links) : Type 0 where
    pub targets_eq : map label l.targets ≡ (raw s).target_names
    pub targets_in : All (λ b. In b bbs) l.targets
    pub args_eq : map number l.args ≡ (raw s).arg_nums
    pub args_in : All (λ t. In t stmts) l.args

  -- What the errors mean: the key of an earlier one stands again, or a name of the statement is not there.
  abbrev pub IsReason : CrossError → Type 0
  IsReason (duplicate_label b) = Repeats name_eq name_eq_iff label [] bbs b
  IsReason (duplicate_valnum s) = Repeats eq_ℤ eq_ℤ_iff number [] stmts s
  IsReason (unknown_target s) =
      In s stmts
      × (k : Name) × ((before : List Name) × Splits (raw s).target_names before k)
      × ((b : ℕ) → In b bbs → ¬ (label b ≡ k))
  IsReason (unknown_arg s) =
      In s stmts
      × (k : ℤ) × ((before : List ℤ) × Splits (raw s).arg_nums before k)
      × ((t : ℕ) → In t stmts → ¬ (number t ≡ k))
  IsReason _ = ⊥

  abbrev targets_map : List (Name × ℕ)
  targets_map = pairs name_eq name_eq_iff label bbs

  abbrev valnums_map : List (ℤ × ℕ)
  valnums_map = pairs eq_ℤ eq_ℤ_iff number stmts

  link_stmt-outcome :
      (s : ℕ)
      → In s stmts
      → ((l : Links) × (link_stmt raw targets_map valnums_map s no_links ≡ crossed l)
          × IsLinked s l)
        ⊎ ((e : CrossError) × (link_stmt raw targets_map valnums_map s no_links ≡ bad e)
            × IsReason e)
  unfolding link_stmt
  link_stmt-outcome s i =
      elim (resolve-outcome name_eq name_eq_iff label bbs (unknown_target s) (raw s).target_names
        []) [
          | inr (k, e, w, h) ↦ inr (unknown_target s, rw (e, link_stmt) refl, (i, k, w, h))
          | inl (ts, e, te, ti) ↦
              elim (resolve-outcome eq_ℤ eq_ℤ_iff number stmts (unknown_arg s) (raw s).arg_nums
                []) [
                  | inr (k, f, w, h) ↦ inr (unknown_arg s, rw (e, f, link_stmt) refl, (i, k, w, h))
                  | inl (xs, f, xe, xi) ↦ inl (
                    record no_links { targets = ts; args = xs },
                    rw (e, f, link_stmt) refl,
                    record { targets_eq = te; targets_in = ti; args_eq = xe; args_in = xi },
                  )
                ]
        ]

  -- The statements of a list are linked, and all others are as they were.
  record Linking (l : List ℕ) (at o : ℕ → Links) : Type 0 where
    linked : (s : ℕ) → In s l → IsLinked s (o s)
    others : (s : ℕ) → ¬ In s l → o s ≡ at s

  link_stmts-outcome :
      (l : List ℕ) (at : ℕ → Links)
      → IsKeyed eq_ℤ eq_ℤ_iff number l
      → ((s : ℕ) → In s l → In s stmts)
      → ((s : ℕ) → In s l → at s ≡ no_links)
      → ((o : ℕ → Links) × (link_stmts raw targets_map valnums_map l at ≡ crossed o)
          × Linking l at o)
        ⊎ ((e : CrossError) × (link_stmts raw targets_map valnums_map l at ≡ bad e) × IsReason e)
  unfolding link_stmts
  link_stmts-outcome [] at k i n =
      inl (at, refl, record { linked = λ s j. absurd j; others = λ s j. refl })
  link_stmts-outcome (s ∷ r) at (d, k) i n =
      let once : ¬ In s r = λ j. d s j refl in
      let from = n s (inl refl) in
      elim (link_stmt-outcome s (i s (inl refl))) [
        | inr (e, q, h) ↦ inr (e, rw (from, q, link_stmts) refl, h)
        | inl (l, q, h) ↦
            elim (link_stmts-outcome r (set s l at) k (λ t j. i t (inr j))
              (λ t j. set_other s t l at (λ e. once (subst (λ z. In z r) e j)) ∙ n t (inr j))) [
                | inr (e, p, h) ↦ inr (e, rw (from, q, link_stmts) p, h)
                | inl (o, p, w) ↦ inl (
                  o,
                  rw (from, q, link_stmts) p,
                  record {
                    linked = λ t j. elim j [
                      | inl e ↦
                          subst (λ z. IsLinked z (o z)) (sym e)
                            (subst (IsLinked s) (sym (w.others s once ∙ set_same s l at)) h)
                      | inr j ↦ w.linked t j
                    ];
                    others =
                        λ t j. w.others t (λ c. j (inr c)) ∙ set_other s t l at (λ e. j (inl e));
                  },
                )
              ]
      ]

-- What the first part of `Crosslink` comes to on statements without links: the labels of the blocks and
-- the numbers of the statements are all different, and each statement has just the blocks with its
-- target labels and the statements with its argument numbers, in their order; or the error that is
-- reported is one: a label or a number that stood before, a target that is no block's label, or an
-- argument that is no statement's number.
pub link_all-outcome :
    (label : ℕ → Name) (raw : ℕ → Raw) (bbs stmts : List ℕ)
    → ((o : ℕ → Links) × (link_all label raw bbs stmts (λ s. no_links) ≡ crossed o)
        × IsKeyed name_eq name_eq_iff label bbs
        × IsKeyed eq_ℤ eq_ℤ_iff (λ s. (raw s).valnum) stmts
        × ((s : ℕ) → In s stmts → IsLinked label raw bbs stmts s (o s)))
      ⊎ ((e : CrossError) × (link_all label raw bbs stmts (λ s. no_links) ≡ bad e)
          × IsReason label raw bbs stmts e)
unfolding link_all
link_all-outcome label raw bbs stmts =
    elim (index-outcome name_eq name_eq_iff label duplicate_label [] bbs) [
      | inr (b, e, h) ↦ inr (duplicate_label b, rw (e, link_all) refl, h)
      | inl (e, k, h) ↦
          elim (index-outcome eq_ℤ eq_ℤ_iff (λ s. (raw s).valnum) duplicate_valnum [] stmts) [
            | inr (s, f, h) ↦ inr (duplicate_valnum s, rw (e, f, link_all) refl, h)
            | inl (f, n, g) ↦
                elim (link_stmts-outcome label raw bbs stmts stmts (λ s. no_links) n (λ s i. i)
                  (λ s i. refl)) [
                    | inr (c, q, w) ↦ inr (c, rw (e, f, link_all) q, w)
                    | inl (o, q, w) ↦ inl (o, rw (e, f, link_all) q, k, n, w.linked)
                  ]
          ]
    ]
