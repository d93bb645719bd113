-- ===== src/Timing/Schedule/Ends.antt =====
-- src/backend/timing-dag.h: the forward phase of `DoPhase` ends.
use autopiper.Prelude.{
  ℕ, zero, suc, ◌+◌, ◌<◌, ◌≤◌, ◌≡◌, refl, sym, ◌∙◌, ap, subst, ◌⊎◌, inl, inr, Bool, true, false,
  not, ◌&&◌, ◌||◌, List, [], ◌∷◌, Option, none, some, if◌then◌else◌, arith, Bool-cases,
  Option-cases, All,
}
use mathlib.Core.Path.{fun_ext}
use autopiper.Prelude.Member.{In, All-In, Ordered}
use autopiper.Prelude.Int.{ℤ, eq_ℤ_iff, ltb_ℤ}
use autopiper.Timing.{Node, Var, Dag, Place, set, known, unknown}
use autopiper.Timing.Store.{set_same, set_other, set_keeps, set_there}
use autopiper.Timing.Phase.{
  Visit, placed, slow, restless, failed, push_vars, moved, bump, input, input_forward, natural,
  pushes, default_place, snap, settle, visit, pass, do_phase,
}
use autopiper.Timing.Schedule.{place_of}
use autopiper.Timing.Schedule.Pass.{Outcome, pass-Outcome, IsScheduled}
use autopiper.Timing.Schedule.Restless.{Pushed-cases, Names, IsRestless}
use autopiper.Timing.Schedule.Stable.{Quiet, Within, room, push_vars-Pushes, push_vars-Quiet}

and_false : (b : Bool) → (b && (not true || not true)) ≡ false
and_false true = refl
and_false false = refl

Visit-cases :
    (v : Visit)
    → ((h : Dag) × (d : Bool) × (v ≡ placed h d))
      ⊎ ((j : ℕ) × (v ≡ slow j))
      ⊎ ((j : ℕ) × (u : ℕ) × (h : Dag) × (v ≡ restless j u h))
      ⊎ (v ≡ failed)
Visit-cases (placed h d) = inl (h, d, refl)
Visit-cases (slow j) = inr (inl (j, refl))
Visit-cases (restless j u h) = inr (inr (inl (j, u, h, refl)))
Visit-cases failed = inr (inr (inr refl))

module _ (per_stage : ℤ) where
  -- The place that a visit gives to a node.
  abbrev wanted_by : (ℕ → Var) → Node → Option Place → Option Place
  wanted_by vars n none = none
  wanted_by vars n (some p) =
      some (bump per_stage true vars n.vars (default_place per_stage true p))

  abbrev wanted : (ℕ → Node) → (ℕ → Var) → Node → Option Place
  wanted at vars n =
      if ltb_ℤ per_stage n.delay
      then none
      else wanted_by vars n (natural per_stage true at n n.ins (snap per_stage true false n))

  visit-cases :
      (i : ℕ) (g : Dag)
      → (visit per_stage true false i g ≡ slow i)
        ⊎ (visit per_stage true false i g ≡ failed)
        ⊎ ((f : Place) × (wanted g.node_at g.var_at (g.node_at i) ≡ some f)
            × (visit per_stage true false i g ≡ settle per_stage true i (g.node_at i) f g))
  unfolding visit
  visit-cases i g = elim (Bool-cases (ltb_ℤ per_stage (g.node_at i).delay)) [
    | inl e ↦ inl (rw (e, visit) refl)
    | inr e ↦
        let n = g.node_at i in
        elim (Option-cases
          (natural per_stage true g.node_at n n.ins (snap per_stage true false n))) [
            | inl h ↦ inr (inl (rw (e, h, visit) refl))
            | inr (p, h) ↦ inr (
                inr (
                  bump per_stage true g.var_at n.vars (default_place per_stage true p),
                  rw (e, h) refl,
                  rw (e, h, visit) refl,
                ))
          ]
  ]

  visit-wanted :
      (i : ℕ) (g : Dag) (f : Place)
      → wanted g.node_at g.var_at (g.node_at i) ≡ some f
      → visit per_stage true false i g ≡ settle per_stage true i (g.node_at i) f g
  unfolding visit
  visit-wanted i g f w = elim (Bool-cases (ltb_ℤ per_stage (g.node_at i).delay)) [
    | inl e ↦ absurd (cc (rw (e) at w))
    | inr e ↦
        let n = g.node_at i in
        elim (Option-cases
          (natural per_stage true g.node_at n n.ins (snap per_stage true false n))) [
            | inl h ↦ absurd (cc (rw (e, h) at w))
            | inr (p, h) ↦
                let same : bump per_stage true g.var_at n.vars (default_place per_stage true p)
                    ≡ f =
                  cc (rw (e, h) at w) in
                rw (e, h, visit) (ap (λ x. settle per_stage true i n x g) same)
          ]
  ]

  -- A node's place depends on its delay, its edges and its variables, and on the nodes before it.
  input-same :
      (n n' m m' : Node)
      → n'.delay ≡ n.delay
      → m' ≡ m
      → input per_stage true n' m' ≡ input per_stage true n m
  unfolding input input_forward
  input-same n n' m m' d e =
      ap (λ z. input per_stage true n' z) e
      ∙ ap (λ z. input per_stage true (record m { delay = z }) m) d

  natural-same :
      (at at' : ℕ → Node) (n n' : Node) (ms : List ℕ) (p : Place)
      → n'.delay ≡ n.delay
      → ((m : ℕ) → In m ms → at' m ≡ at m)
      → natural per_stage true at' n' ms p ≡ natural per_stage true at n ms p
  unfolding natural input input_forward
  natural-same at at' n n' [] p e h = refl
  natural-same at at' n n' (m ∷ ms) p e h =
      let q = input-same n n' (at m) (at' m) e (h m (inl refl)) in
      elim (Option-cases (input per_stage true n (at m))) [
        | inl z ↦ rw (q ∙ z, z, natural) refl
        | inr (i, z) ↦
            rw (q ∙ z, z, natural)
              (natural-same at at' n n' ms (if pushes per_stage true i p then i else p) e
                (λ x j. h x (inr j)))
      ]

  wanted-same :
      (at at' : ℕ → Node) (vars : ℕ → Var) (n n' : Node)
      → n'.delay ≡ n.delay
      → n'.ins ≡ n.ins
      → n'.vars ≡ n.vars
      → ((m : ℕ) → In m n.ins → at' m ≡ at m)
      → wanted at' vars n' ≡ wanted at vars n
  unfolding snap
  wanted-same at at' vars n n' d i v h =
      let p : Place = record { stage = unknown; offset = unknown } in
      let a =
        ap (λ l. natural per_stage true at' n' l p) i ∙ natural-same at at' n n' n.ins p d h in
      let w = λ (delay : ℤ) (vs : List (ℕ × ℤ)) (o : Option Place).
        if ltb_ℤ per_stage delay then none else elim o as (λ x. Option Place) [
          | none ↦ none
          | some q ↦ some (bump per_stage true vars vs (default_place per_stage true q))
        ] in
      ap (λ z. w z n'.vars (natural per_stage true at' n' n'.ins p)) d
      ∙ ap (λ z. w n.delay z (natural per_stage true at' n' n'.ins p)) v
      ∙ ap (λ z. w n.delay n.vars z) a

  -- A visit of the node would leave it and its variables as they are.
  abbrev IsStable : (ℕ → Node) → (ℕ → Var) → ℕ → Type 0
  IsStable at vars i =
      (wanted at vars (at i) ≡ some (place_of (at i))) × Quiet (at i).stage (at i).vars vars

  IsStable-same :
      (at at' : ℕ → Node) (vars : ℕ → Var) (i : ℕ)
      → at' i ≡ at i
      → ((m : ℕ) → In m (at i).ins → at' m ≡ at m)
      → IsStable at vars i
      → IsStable at' vars i
  IsStable-same at at' vars i e h (w, q) = (
    wanted-same at at' vars (at i) (at' i) (ap (λ (n : Node). n.delay) e)
          (ap (λ (n : Node). n.ins) e) (ap (λ (n : Node). n.vars) e) h
        ∙ w
        ∙ ap (λ n. some (place_of n)) (sym e),
    subst (λ n. Quiet n.stage n.vars vars) (sym e) q,
  )

  abbrev placed_at : Node → Place → Node
  placed_at n f = record n { stage = f.stage; stage_offset = f.offset }

  module _ (all : List ℕ) where
    -- What a visit that places its node comes to.
    Placed : ℕ → Dag → Dag → Type 0
    Placed i g h =
        (f : Place) × (wanted g.node_at g.var_at (g.node_at i) ≡ some f)
        × (h.node_at ≡ set i (placed_at (g.node_at i) f) g.node_at)
        × ((room all h.var_at < room all g.var_at)
            ⊎ ((h.var_at ≡ g.var_at) × Quiet f.stage (g.node_at i).vars g.var_at))

    placed_inj : (a b : Dag) (c d : Bool) → placed a c ≡ placed b d → a ≡ b
    placed_inj a b c d e = cc

    settle-Placed :
        (i : ℕ) (g h : Dag) (d : Bool) (f : Place)
        → Within all (g.node_at i).vars
        → wanted g.node_at g.var_at (g.node_at i) ≡ some f
        → settle per_stage true i (g.node_at i) f g ≡ placed h d
        → Placed i g h
    unfolding settle Placed
    settle-Placed i g h d f w e s =
        let n = g.node_at i in
        elim (Pushed-cases (push_vars n.stage f.stage n.vars g.var_at (moved n f))) [
          | inr (v, at, q) ↦ absurd (cc (rw (q, settle) at s))
          | inl (at, c, q) ↦
              let same = placed_inj _ h c d (rw (q, settle) at s) in
              let p = push_vars-Pushes all n.stage f.stage n.vars g.var_at at (moved n f) c w q in
              (
                f,
                e,
                sym (ap (λ (x : Dag). x.node_at) same),
                elim p [
                  | inl lt ↦
                      inl (subst (λ (x : Dag). room all x.var_at < room all g.var_at) same lt)
                  | inr (a, b, quiet) ↦ inr (sym (ap (λ (x : Dag). x.var_at) same) ∙ a, quiet)
                ],
              )
        ]

    visit-Placed :
        (i : ℕ) (g h : Dag) (d : Bool)
        → Within all (g.node_at i).vars
        → visit per_stage true false i g ≡ placed h d
        → Placed i g h
    visit-Placed i g h d w e = elim (visit-cases i g) [
      | inl s ↦ absurd (cc)
      | inr (inl s) ↦ absurd (cc)
      | inr (inr (f, a, s)) ↦ settle-Placed i g h d f w a (sym s ∙ e)
    ]

  -- A node that is stable stays as it is.
  moved-place_of : (n : Node) → moved n (place_of n) ≡ false
  unfolding moved
  moved-place_of n =
      rw ((eq_ℤ_iff n.stage n.stage).1 refl, (eq_ℤ_iff n.stage_offset n.stage_offset).1 refl, moved)
        (and_false (known n.stage))

  visit-IsStable :
      (i : ℕ) (g : Dag)
      → IsStable g.node_at g.var_at i
      → visit per_stage true false i g ≡ placed g false
  unfolding settle
  visit-IsStable i g (w, q) =
      let n = g.node_at i in
      visit-wanted i g (place_of n) w
      ∙ rw
          (
            push_vars-Quiet n.stage n.stage n.vars g.var_at (moved n (place_of n)) q,
            settle,
            moved-place_of n,
          )
          (ap (λ (at : ℕ → Node). placed (record { node_at = at; var_at = g.var_at }) false)
            (set_there i n g.node_at refl))

  pass-stable :
      (order : List ℕ) (g : Dag)
      → ((i : ℕ) → In i order → IsStable g.node_at g.var_at i)
      → pass per_stage true false order g false ≡ placed g false
  unfolding pass
  pass-stable [] g h = refl
  pass-stable (i ∷ r) g h =
      rw (visit-IsStable i g (h i (inl refl)), pass) (pass-stable r g (λ j k. h j (inr k)))

  pass-inv :
      (i : ℕ) (r : List ℕ) (g h : Dag) (c d : Bool)
      → pass per_stage true false (i ∷ r) g c ≡ placed h d
      → (k : Dag) × (b : Bool) × (visit per_stage true false i g ≡ placed k b)
        × (pass per_stage true false r k (c || b) ≡ placed h d)
  unfolding pass
  pass-inv i r g h c d e = elim (Visit-cases (visit per_stage true false i g)) [
    | inl (k, b, q) ↦ (k, b, q, rw (q, pass) at e)
    | inr (inl (j, q)) ↦ absurd (cc (rw (q, pass) at e))
    | inr (inr (inl (j, v, k, q))) ↦ absurd (cc (rw (q, pass) at e))
    | inr (inr (inr q)) ↦ absurd (cc (rw (q, pass) at e))
  ]

  -- Passes leave edges, variables and delays of the nodes as they are.
  pub record Same (start at : ℕ → Node) : Type 0 where
    pub ins_eq : (i : ℕ) → (at i).ins ≡ (start i).ins
    pub vars_eq : (i : ℕ) → (at i).vars ≡ (start i).vars
    pub delay_eq : (i : ℕ) → (at i).delay ≡ (start i).delay

  Same-set :
      (start at at' : ℕ → Node) (i : ℕ) (f : Place)
      → Same start at
      → at' ≡ set i (placed_at (at i) f) at
      → Same start at'
  Same-set start at at' i f s e = record {
    ins_eq = λ j.
        ap (λ t. (t j).ins) e
        ∙ set_keeps (λ x. x.ins) i j (placed_at (at i) f) at refl
        ∙ s.ins_eq j;
    vars_eq = λ j.
        ap (λ t. (t j).vars) e
        ∙ set_keeps (λ x. x.vars) i j (placed_at (at i) f) at refl
        ∙ s.vars_eq j;
    delay_eq = λ j.
        ap (λ t. (t j).delay) e
        ∙ set_keeps (λ x. x.delay) i j (placed_at (at i) f) at refl
        ∙ s.delay_eq j;
  }

  -- What the forward phase comes to.
  abbrev pub Phased : (ℕ → Node) → List ℕ → Visit → Type 0
  Phased start order failed = ⊥
  Phased start order (restless j v h) = In j order × IsRestless start j v h
  Phased start order (slow j) = ltb_ℤ per_stage (start j).delay ≡ true
  Phased start order (placed h c) =
      ((i : ℕ) → In i order → IsScheduled per_stage h.node_at (start i).ins i)
      × Same start h.node_at

  module _ (all : List ℕ) (start : ℕ → Node) (within : (i : ℕ) → Within all (start i).vars) where
    step-Placed :
        (i : ℕ) (g h : Dag) (d : Bool)
        → Same start g.node_at
        → visit per_stage true false i g ≡ placed h d
        → Placed all i g h
    step-Placed i g h d s e =
        visit-Placed all i g h d (subst (Within all) (sym (s.vars_eq i)) (within i)) e

    room-le : (i : ℕ) (g h : Dag) → Placed all i g h → room all h.var_at ≤ room all g.var_at
    unfolding Placed
    room-le i g h (f, w, e, inl lt) = omega (arith, lt)
    room-le i g h (f, w, e, inr (v, q)) =
        subst (λ x. room all x ≤ room all g.var_at) (sym v) (omega arith)

    step-Same : (i : ℕ) (g h : Dag) → Placed all i g h → Same start g.node_at → Same start h.node_at
    unfolding Placed
    step-Same i g h (f, w, e, p) s = Same-set start g.node_at h.node_at i f s e

    pass-room :
        (order : List ℕ) (g h : Dag) (c d : Bool)
        → Same start g.node_at
        → pass per_stage true false order g c ≡ placed h d
        → (room all h.var_at ≤ room all g.var_at) × Same start h.node_at
    unfolding pass
    pass-room [] g h c d s e =
        let q = placed_inj all g h c d e in
        (
          subst (λ (x : Dag). room all x.var_at ≤ room all g.var_at) q (omega arith),
          subst (λ (x : Dag). Same start x.node_at) q s,
        )
    pass-room (i ∷ r) g h c d s e =
        let (k, b, v, p) = pass-inv i r g h c d e in
        let one = step-Placed i g k b s v in
        let (le, t) = pass-room r k h (c || b) d (step-Same i g k one s) p in
        (omega (arith, le, room-le i g k one), t)

    -- The nodes that are done are stable.
    record Settled (g : Dag) (done : List ℕ) : Type 0 where
      stable : (i : ℕ) → In i done → IsStable g.node_at g.var_at i
      closed : (i m : ℕ) → In i done → In m (start i).ins → In m done
      same : Same start g.node_at

    step-Settled :
        (i : ℕ) (g h : Dag) (done : List ℕ) (f : Place)
        → Settled g done
        → ¬ In i done
        → All (λ m. In m done) (start i).ins
        → wanted g.node_at g.var_at (g.node_at i) ≡ some f
        → h.node_at ≡ set i (placed_at (g.node_at i) f) g.node_at
        → h.var_at ≡ g.var_at
        → Quiet f.stage (g.node_at i).vars g.var_at
        → Settled h (i ∷ done)
    step-Settled i g h done f s fresh preds w e v q =
        let n = placed_at (g.node_at i) f in
        let mine : h.node_at i ≡ n = ap (λ t. t i) e ∙ set_same i n g.node_at in
        let other : (j : ℕ) → In j done → h.node_at j ≡ g.node_at j = λ j k.
          ap (λ t. t j) e ∙ set_other i j n g.node_at (λ z. fresh (subst (λ y. In y done) z k)) in
        let before : (m : ℕ) → In m (g.node_at i).ins → In m done = λ m k.
          All-In (λ y. In y done) m (start i).ins preds (subst (λ l. In m l) (s.same.ins_eq i) k) in
        let self : IsStable h.node_at h.var_at i =
          subst (λ t. IsStable h.node_at t i) (sym v)
            (
              wanted-same g.node_at h.node_at g.var_at (g.node_at i) (h.node_at i)
                    (ap (λ (x : Node). x.delay) mine) (ap (λ (x : Node). x.ins) mine)
                    (ap (λ (x : Node). x.vars) mine) (λ m k. other m (before m k))
                  ∙ w
                  ∙ ap (λ x. some (place_of x)) (sym mine),
              subst (λ x. Quiet x.stage x.vars g.var_at) (sym mine) q,
            ) in
        record {
          stable = λ j k. elim k [
            | inl z ↦ subst (λ y. IsStable h.node_at h.var_at y) (sym z) self
            | inr l ↦
                subst (λ t. IsStable h.node_at t j) (sym v)
                  (IsStable-same g.node_at h.node_at g.var_at j (other j l)
                    (λ m x. other m (s.closed j m l (subst (λ t. In m t) (s.same.ins_eq j) x)))
                    (s.stable j l))
          ];
          closed = λ j m k x. inr (elim k [
            | inl z ↦
                All-In (λ y. In y done) m (start i).ins preds (subst (λ y. In m (start y).ins) z x)
            | inr l ↦ s.closed j m l x
          ]);
          same = Same-set start g.node_at h.node_at i f s.same e;
        }

    -- A pass updates a variable, or makes every node stable.
    pass-Settled :
        (order done : List ℕ) (g h : Dag) (c d : Bool)
        → Ordered (λ j. (start j).ins) done order
        → Settled g done
        → pass per_stage true false order g c ≡ placed h d
        → (room all h.var_at < room all g.var_at)
          ⊎ ((i : ℕ) → In i order ⊎ In i done → IsStable h.node_at h.var_at i)
    unfolding pass Placed
    pass-Settled [] done g h c d o s e =
        let q = placed_inj all g h c d e in
        inr (
          subst (λ (x : Dag). (i : ℕ) → In i [] ⊎ In i done → IsStable x.node_at x.var_at i) q
            (λ i k. elim k [ inl z ↦ absurd z | inr z ↦ s.stable i z ]))
    pass-Settled (i ∷ r) done g h c d (fresh, preds, o) s e =
        let (k, b, v, p) = pass-inv i r g h c d e in
        let one = step-Placed i g k b s.same v in
        let more = (pass-room r k h (c || b) d (step-Same i g k one s.same) p).0 in
        by_room k one more (λ t. pass-Settled r (i ∷ done) k h (c || b) d o t p)
      where
        by_room :
            (k : Dag)
            → Placed all i g k
            → room all h.var_at ≤ room all k.var_at
            → (Settled k (i ∷ done)
                → (room all h.var_at < room all k.var_at)
                  ⊎ ((j : ℕ) → In j r ⊎ In j (i ∷ done) → IsStable h.node_at h.var_at j))
            → (room all h.var_at < room all g.var_at)
              ⊎ ((j : ℕ) → In j (i ∷ r) ⊎ In j done → IsStable h.node_at h.var_at j)
        by_room k (f, w, q, inl lt) more go = inl (omega (arith, lt, more))
        by_room k (f, w, q, inr (v, quiet)) more go =
            elim (go (step-Settled i g k done f s fresh preds w q v quiet)) [
              | inl lt ↦ inl (subst (λ t. room all h.var_at < room all t) v lt)
              | inr t ↦ inr (λ j x. t j (elim x [
                | inl (inl z) ↦ inr (inl z)
                | inl (inr y) ↦ inl y
                | inr y ↦ inr (inr y)
              ]))
            ]

    Settled-none : (g : Dag) → Same start g.node_at → Settled g []
    Settled-none g s = record { stable = λ i k. absurd k; closed = λ i m k x. absurd k; same = s }

    phase-stable :
        (fuel : ℕ) (order : List ℕ) (h : Dag)
        → 0 < fuel
        → pass per_stage true false order h false ≡ placed h false
        → do_phase per_stage true false fuel order h ≡ some (placed h false)
    unfolding do_phase
    phase-stable zero order h lt e = absurd (omega arith)
    phase-stable (suc fuel) order h lt e = rw (e, do_phase) refl

    -- The forward phase, with fuel for a pass after each update of a variable and two more.
    pub phase-Outcome :
        (fuel : ℕ) (order : List ℕ) (g : Dag)
        → Ordered (λ j. (start j).ins) [] order
        → Same start g.node_at
        → room all g.var_at + 1 < fuel
        → (v : Visit) × (do_phase per_stage true false fuel order g ≡ some v) × Phased start order v
    unfolding do_phase
    phase-Outcome zero order g o s lt = absurd (omega arith)
    phase-Outcome (suc fuel) order g o s lt =
        let out =
          pass-Outcome per_stage order g false
            (subst (λ f. Ordered f [] order) (fun_ext (λ j. sym (s.ins_eq j))) o) in
        elim (Visit-cases (pass per_stage true false order g false)) [
          | inr (inl (j, e)) ↦ (
            slow j,
            rw (e, do_phase) refl,
            subst (λ w. ltb_ℤ per_stage w ≡ true) (s.delay_eq j)
                (subst (λ v. Outcome per_stage order g v) e out),
          )
          | inr (inr (inl (j, v, h, e))) ↦
              let (k, (i, m)) = subst (λ v. Outcome per_stage order g v) e out in
              (restless j v h, rw (e, do_phase) refl, (k, (subst (Names v) (s.vars_eq j) i, m)))
          | inr (inr (inr e)) ↦ absurd (subst (λ v. Outcome per_stage order g v) e out)
          | inl (h, d, e) ↦
              let same = (pass-room order g h false d s e).1 in
              let done : (i : ℕ) → In i order → IsScheduled per_stage h.node_at (start i).ins i =
                λ i k.
                  subst (λ l. IsScheduled per_stage h.node_at l i) (s.ins_eq i)
                    (subst (λ v. Outcome per_stage order g v) e out i k) in
              elim (Bool-cases d) [
                | inr f ↦ (placed h d, rw (e, f, do_phase) refl, (done, same))
                | inl f ↦ elim (pass-Settled order [] g h false d o (Settled-none g s) e) [
                  | inl less ↦
                      let (v, q, w) = phase-Outcome fuel order h o same (omega (arith, less, lt)) in
                      (v, rw (e, f, do_phase) q, w)
                  | inr stable ↦
                      let last = pass-stable order h (λ i k. stable i (inl k)) in
                      (
                        placed h false,
                        rw (e, f, do_phase) (phase-stable fuel order h (omega (arith, lt)) last),
                        (done, same),
                      )
                ]
              ]
        ]
