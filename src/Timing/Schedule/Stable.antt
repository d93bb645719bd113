-- ===== src/Timing/Schedule/Stable.antt =====
-- src/backend/timing-dag.h: a pass of the forward phase of `DoPhase` that updates no variable leaves
-- places that the next pass does not change.
use autopiper.Prelude.{
  ℕ, ◌+◌, ◌-◌, ◌<◌, ◌≤◌, ◌==◌, ltb, ◌≡◌, refl, sym, ◌∙◌, ap, subst, ◌⊎◌, inl, inr, Bool, true,
  false, not, ◌||◌, List, [], ◌∷◌, arith, Bool-cases,
}
use autopiper.Prelude.Member.{In}
use autopiper.Prelude.Int.{ℤ, ltb_ℤ, ◌-ℤ◌}
use autopiper.Timing.{Var, set, known}
use autopiper.Timing.Store.{set_same, set_other}
use autopiper.Timing.Phase.{pushed, push_var, push_vars, max_var_updates}
use autopiper.Timing.Schedule.Restless.{Pushed-cases}

-- A variable that a node's place does not update.
abbrev pub Rests : ℤ → ℤ → Var → Type 0
Rests new offset v = (not (known v.stage) || ltb_ℤ v.stage (new -ℤ offset)) ≡ false

abbrev pub Quiet : ℤ → List (ℕ × ℤ) → (ℕ → Var) → Type 0
Quiet new [] at = Unit
Quiet new ((v, offset) ∷ r) at = Rests new offset (at v) × Quiet new r at

-- The updates that the variables have left, with one to spare for each.
unfoldable pub room : List ℕ → (ℕ → Var) → ℕ
room [] at = 0
room (v ∷ r) at = max_var_updates + 1 - (at v).updates + room r at

abbrev pub Within : List ℕ → List (ℕ × ℤ) → Type 0
Within all [] = Unit
Within all ((v, offset) ∷ r) = In v all × Within all r

room-set :
    (all : List ℕ) (v : ℕ) (s : ℤ) (at : ℕ → Var)
    → (at v).updates + 1 ≤ max_var_updates
    → (room all (set v (record { stage = s; updates = (at v).updates + 1 }) at) ≤ room all at)
      × (In v all
          → room all (set v (record { stage = s; updates = (at v).updates + 1 }) at) < room all at)
unfolding room
room-set [] v s at h = (omega arith, λ i. absurd i)
room-set (u ∷ r) v s at h =
    let (le, lt) = room-set r v s at h in
    elim (Bool-cases (v == u)) [
      | inl e ↦
          let q : v ≡ u = ground arith in
          let x : Var = record { stage = s; updates = (at v).updates + 1 } in
          let w =
            subst (λ z. (set v x at z).updates ≡ (at z).updates + 1) q
              (ap (λ (y : Var). y.updates) (set_same v x at)) in
          let h' = subst (λ z. (at z).updates + 1 ≤ max_var_updates) q h in
          (omega (arith, w, h', le), λ i. omega (arith, w, h', le))
      | inr e ↦
          let ne : ¬ (u ≡ v) = ground arith in
          let x : Var = record { stage = s; updates = (at v).updates + 1 } in
          let w = ap (λ (y : Var). y.updates) (set_other v u x at ne) in
          (
            omega (arith, w, le),
            λ i. elim i [ inl q ↦ absurd (ne (sym q)) | inr j ↦ omega (arith, w, lt j) ],
          )
    ]

-- What the updates of a node's variables come to.
abbrev pub Pushes : List ℕ → ℤ → List (ℕ × ℤ) → (ℕ → Var) → Bool → (ℕ → Var) → Bool → Type 0
Pushes all new vs at c at' c' =
    (room all at' < room all at) ⊎ ((at' ≡ at) × (c' ≡ c) × Quiet new vs at)

pushed_inj : (a b : ℕ → Var) (c d : Bool) → pushed a c ≡ pushed b d → (a ≡ b) × (c ≡ d)
pushed_inj a b c d e = (cc, cc)

push_var-Pushes :
    (all : List ℕ) (old new : ℤ) (v : ℕ) (offset : ℤ) (at at' : ℕ → Var) (c c' : Bool)
    → In v all
    → push_var old new v offset at c ≡ pushed at' c'
    → (room all at' < room all at) ⊎ ((at' ≡ at) × (c' ≡ c) × Rests new offset (at v))
unfolding push_var
push_var-Pushes all old new v offset at at' c c' i e =
    elim (Bool-cases (not (known (at v).stage) || ltb_ℤ (at v).stage (new -ℤ offset))) [
      | inr f ↦ let k = pushed_inj at at' c c' (rw (f, push_var) at e) in inr (sym k.0, sym k.1, f)
      | inl f ↦ elim (Bool-cases (ltb max_var_updates ((at v).updates + 1))) [
        | inl g ↦ absurd (cc (rw (f, g, push_var) at e))
        | inr g ↦
            let k = pushed_inj _ at' true c' (rw (f, g, push_var) at e) in
            let lt = (room-set all v (old -ℤ offset) at (ground arith)).1 i in
            inl (subst (λ z. room all z < room all at) k.0 lt)
      ]
    ]

both :
    (all : List ℕ) (new : ℤ) (v : ℕ) (offset : ℤ) (r : List (ℕ × ℤ)) (at at₁ at' : ℕ → Var)
    (c c₁ c' : Bool)
    → (room all at₁ < room all at) ⊎ ((at₁ ≡ at) × (c₁ ≡ c) × Rests new offset (at v))
    → Pushes all new r at₁ c₁ at' c'
    → Pushes all new ((v, offset) ∷ r) at c at' c'
both all new v offset r at at₁ at' c c₁ c' (inl h) (inl k) = inl (omega (arith, h, k))
both all new v offset r at at₁ at' c c₁ c' (inl h) (inr (k, l, q)) =
    inl (subst (λ z. room all z < room all at) (sym k) h)
both all new v offset r at at₁ at' c c₁ c' (inr (h, l, q)) (inl k) =
    inl (subst (λ z. room all at' < room all z) h k)
both all new v offset r at at₁ at' c c₁ c' (inr (h, l, q)) (inr (h', l', q')) =
    inr (h' ∙ h, l' ∙ l, (q, subst (λ z. Quiet new r z) h q'))

pub push_vars-Pushes :
    (all : List ℕ) (old new : ℤ) (vs : List (ℕ × ℤ)) (at at' : ℕ → Var) (c c' : Bool)
    → Within all vs
    → push_vars old new vs at c ≡ pushed at' c'
    → Pushes all new vs at c at' c'
unfolding push_vars
push_vars-Pushes all old new [] at at' c c' w e =
    let k = pushed_inj at at' c c' e in inr (sym k.0, sym k.1, tt)
push_vars-Pushes all old new ((v, offset) ∷ r) at at' c c' (i, w) e =
    elim (Pushed-cases (push_var old new v offset at c)) [
      | inr (u, au, f) ↦ absurd (cc (rw (f, push_vars) at e))
      | inl (at₁, c₁, f) ↦
          let first = push_var-Pushes all old new v offset at at₁ c c₁ i f in
          let rest = push_vars-Pushes all old new r at₁ at' c₁ c' w (rw (f, push_vars) at e) in
          both all new v offset r at at₁ at' c c₁ c' first rest
    ]

-- Nothing is pushed where the variables rest, whatever the stage that the node had.
pub push_vars-Quiet :
    (old new : ℤ) (vs : List (ℕ × ℤ)) (at : ℕ → Var) (c : Bool)
    → Quiet new vs at
    → push_vars old new vs at c ≡ pushed at c
unfolding push_vars push_var
push_vars-Quiet old new [] at c q = refl
push_vars-Quiet old new ((v, offset) ∷ r) at c (h, q) =
    rw (h, push_vars, push_var) (push_vars-Quiet old new r at c q)
