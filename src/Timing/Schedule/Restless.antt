-- ===== src/Timing/Schedule/Restless.antt =====
-- src/backend/timing-dag.h: the updates of variables in `DoPhase`, where they end the phase.
use autopiper.Prelude.{
  ℕ, ◌+◌, ◌<◌, ltb, ◌≡◌, refl, sym, ◌∙◌, ap, subst, ◌⊎◌, inl, inr, Bool, not, ◌||◌, List, [], ◌∷◌,
  arith, Bool-cases,
}
use autopiper.Prelude.Int.{ℤ, ltb_ℤ, ◌-ℤ◌}
use autopiper.Timing.{Node, Var, Dag, set, known}
use autopiper.Timing.Store.{set_same}
use autopiper.Timing.Phase.{Pushed, pushed, over, push_var, push_vars, max_var_updates}

pub Pushed-cases :
    (x : Pushed)
    → ((at : ℕ → Var) × (c : Bool) × (x ≡ pushed at c))
      ⊎ ((v : ℕ) × (at : ℕ → Var) × (x ≡ over v at))
Pushed-cases (pushed at c) = inl (at, c, refl)
Pushed-cases (over v at) = inr (v, at, refl)

-- A variable of a node.
abbrev pub Names : ℕ → List (ℕ × ℤ) → Type 0
Names v [] = ⊥
Names v ((u, offset) ∷ r) = (v ≡ u) ⊎ Names v r

-- A node and a variable of it that has now had more updates than it may.
abbrev pub IsRestless : (ℕ → Node) → ℕ → ℕ → Dag → Type 0
IsRestless at j v h = Names v (at j).vars × (max_var_updates < (h.var_at v).updates)

over_inj : (v w : ℕ) (at au : ℕ → Var) → over v at ≡ over w au → (v ≡ w) × (at ≡ au)
over_inj v w at au e = (cc, cc)

push_var-over :
    (old new : ℤ) (u : ℕ) (offset : ℤ) (at at' : ℕ → Var) (c : Bool) (v : ℕ)
    → push_var old new u offset at c ≡ over v at'
    → (v ≡ u) × (max_var_updates < (at' v).updates)
unfolding push_var
push_var-over old new u offset at at' c v e =
    elim (Bool-cases (not (known (at u).stage) || ltb_ℤ (at u).stage (new -ℤ offset))) [
      | inr f ↦ absurd (cc (rw (f, push_var) at e))
      | inl f ↦ elim (Bool-cases (ltb max_var_updates ((at u).updates + 1))) [
        | inr g ↦ absurd (cc (rw (f, g, push_var) at e))
        | inl g ↦
            let x : Var = record { stage = old -ℤ offset; updates = (at u).updates + 1 } in
            let k = over_inj u v (set u x at) at' (rw (f, g, push_var) at e) in
            let n = ap (λ (y : Var). y.updates) (set_same u x at) in
            let l : max_var_updates < (at u).updates + 1 = ground (arith, g) in
            let m : max_var_updates < (set u x at u).updates = omega (arith, n, l) in
            (
              sym k.0,
              subst (λ z. max_var_updates < (at' z).updates) k.0
                  (subst (λ z. max_var_updates < (z u).updates) k.1 m),
            )
      ]
    ]

-- The updates of a node's variables end at one of them that has too many.
pub push_vars-over :
    (old new : ℤ) (vs : List (ℕ × ℤ)) (at at' : ℕ → Var) (c : Bool) (v : ℕ)
    → push_vars old new vs at c ≡ over v at'
    → Names v vs × (max_var_updates < (at' v).updates)
unfolding push_vars
push_vars-over old new [] at at' c v e = absurd (cc e)
push_vars-over old new ((u, offset) ∷ r) at at' c v e =
    elim (Pushed-cases (push_var old new u offset at c)) [
      | inl (at₁, c₁, f) ↦
          let (i, m) = push_vars-over old new r at₁ at' c₁ v (rw (f, push_vars) at e) in (inr i, m)
      | inr (w, au, f) ↦
          let k = over_inj w v au at' (rw (f, push_vars) at e) in
          let (i, m) = push_var-over old new u offset at au c w f in
          (
            inl (sym k.0 ∙ i),
            subst (λ z. max_var_updates < (at' z).updates) k.0
                (subst (λ z. max_var_updates < (z w).updates) k.1 m),
          )
    ]
