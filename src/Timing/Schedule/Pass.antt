-- ===== src/Timing/Schedule/Pass.antt =====
-- src/backend/timing-dag.h: a pass of the forward phase of `DoPhase` over nodes in dependence order.
use autopiper.Prelude.{
  ℕ, ◌≡◌, refl, sym, ◌∙◌, ap, subst, ◌⊎◌, inl, inr, Bool, true, false, ◌||◌, List, [], ◌∷◌,
  Bool-cases, All,
}
use autopiper.Prelude.Member.{In, All-In, All-of, Ordered}
use autopiper.Prelude.Int.{ℤ, ltb_ℤ}
use autopiper.Timing.{Node, Dag, Place, set}
use autopiper.Timing.Store.{set_same, set_other, set_keeps}
use autopiper.Timing.Phase.{
  Visit, placed, slow, restless, failed, push_vars, moved, bump, default_place, snap, settle, visit,
  pass,
}
use autopiper.Timing.Schedule.Restless.{Pushed-cases, Names, IsRestless, push_vars-over}
use autopiper.Timing.Schedule.{
  Ready, EndsIn, place_of, natural-Settles, default-AtMost, bump-AtMost, Ready-AtMost,
  AtMost-AtMost, not_past,
}

All-map : (P Q : ℕ → Type 0) (xs : List ℕ) → ((x : ℕ) → P x → Q x) → All P xs → All Q xs
All-map P Q [] f h = tt
All-map P Q (x ∷ xs) f (h, k) = (f x h, All-map P Q xs f k)

-- A node ends in its stage, and begins when the nodes that its edges come from are ready.
abbrev pub IsScheduled : ℤ → (ℕ → Node) → List ℕ → ℕ → Type 0
IsScheduled per_stage at ins i =
    EndsIn per_stage (at i) (place_of (at i)) × All (λ m. Ready (at m) (place_of (at i))) ins

module _ (per_stage : ℤ) where
  -- What a visit of a node with these edges comes to.
  abbrev Visited : ℕ → Dag → List ℕ → Visit → Type 0
  Visited i g ins failed = ⊥
  Visited i g ins (restless j v h) = (j ≡ i) × IsRestless g.node_at i v h
  Visited i g ins (slow j) = ltb_ℤ per_stage (g.node_at j).delay ≡ true
  Visited i g ins (placed h c) =
      (f : Place) × (h.node_at
        ≡ set i (record (g.node_at i) { stage = f.stage; stage_offset = f.offset }) g.node_at)
      × EndsIn per_stage (g.node_at i) f
      × All (λ m. Ready (g.node_at m) f) ins

  settle-Visited :
      (i : ℕ) (g : Dag) (f : Place) (ins : List ℕ)
      → EndsIn per_stage (g.node_at i) f
      → All (λ m. Ready (g.node_at m) f) ins
      → Visited i g ins (settle per_stage true i (g.node_at i) f g)
  unfolding settle
  settle-Visited i g f ins e r =
      elim (Pushed-cases (
        push_vars (g.node_at i).stage f.stage (g.node_at i).vars g.var_at
          (moved (g.node_at i) f))) [
            | inl (at, c, q) ↦ rw (q, settle) (f, refl, e, r)
            | inr (v, at, q) ↦ rw (q, settle) (refl, push_vars-over _ _ _ _ at _ v q)
          ]

  visit-Visited :
      (i : ℕ) (g : Dag)
      → All (λ m. EndsIn per_stage (g.node_at m) (place_of (g.node_at m))) (g.node_at i).ins
      → Visited i g (g.node_at i).ins (visit per_stage true false i g)
  unfolding visit snap
  visit-Visited i g es = elim (Bool-cases (ltb_ℤ per_stage (g.node_at i).delay)) [
    | inl e ↦ rw (e, visit) e
    | inr e ↦
        let n = g.node_at i in
        let d = not_past per_stage n.delay e in
        let (q, a, k) =
          natural-Settles per_stage g.node_at n n.ins (snap per_stage true false n) d es
            (inl refl) in
        let (h, l) = default-AtMost per_stage n q d k.holds in
        let (h', l') =
          bump-AtMost per_stage n g.var_at n.vars (default_place per_stage true q) d h in
        let on = AtMost-AtMost per_stage q _ _ l l' in
        rw (e, a, visit)
          (settle-Visited i g (bump per_stage true g.var_at n.vars (default_place per_stage true q))
            n.ins h' (All-map _ _ n.ins (λ m r. Ready-AtMost (g.node_at m) q _ r on) k.all_ready))
  ]

  -- A schedule depends on the node and on those that its edges come from.
  IsScheduled-same :
      (at at' : ℕ → Node) (ins : List ℕ) (i : ℕ)
      → at' i ≡ at i
      → ((m : ℕ) → In m ins → at' m ≡ at m)
      → IsScheduled per_stage at ins i
      → IsScheduled per_stage at' ins i
  IsScheduled-same at at' ins i e f (h, k) = (
    subst (λ n. EndsIn per_stage n (place_of n)) (sym e) h,
    All-of _ ins (λ m q.
        subst (λ n. Ready n (place_of (at' i))) (sym (f m q))
          (subst (λ n. Ready (at m) (place_of n)) (sym e) (All-In _ m ins k q))),
  )

  module _ (start : ℕ → Node) where
    -- The nodes that are done are scheduled, and a pass leaves edges and delays as they are.
    record Done (at : ℕ → Node) (done : List ℕ) : Type 0 where
      scheduled : (i : ℕ) → In i done → IsScheduled per_stage at (start i).ins i
      closed : (i m : ℕ) → In i done → In m (start i).ins → In m done
      ins_eq : (i : ℕ) → (at i).ins ≡ (start i).ins
      delay_eq : (i : ℕ) → (at i).delay ≡ (start i).delay
      vars_eq : (i : ℕ) → (at i).vars ≡ (start i).vars

    visit-Done :
        (i : ℕ) (at at' : ℕ → Node) (done : List ℕ) (f : Place)
        → Done at done
        → ¬ In i done
        → All (λ m. In m done) (start i).ins
        → at' ≡ set i (record (at i) { stage = f.stage; stage_offset = f.offset }) at
        → EndsIn per_stage (at i) f
        → All (λ m. Ready (at m) f) (start i).ins
        → Done at' (i ∷ done)
    visit-Done i at at' done f d fresh preds e ends ready =
        let n = record (at i) { stage = f.stage; stage_offset = f.offset } in
        let mine = ap (λ s. s i) e ∙ set_same i n at in
        let other = λ (j : ℕ) (q : In j done).
          ap (λ s. s j) e ∙ set_other i j n at (λ z. fresh (subst (λ y. In y done) z q)) in
        let self : IsScheduled per_stage at' (start i).ins i = (
          subst (λ x. EndsIn per_stage x (place_of x)) (sym mine) ends,
          All-of (λ m. Ready (at' m) (place_of (at' i))) (start i).ins
              (λ m r.
                subst (λ x. Ready x (place_of (at' i))) (sym (other m (All-In _ m _ preds r)))
                  (subst (λ x. Ready (at m) (place_of x)) (sym mine) (All-In _ m _ ready r))),
        ) in
        record {
          scheduled = λ j q. elim q [
            | inl z ↦ subst (λ y. IsScheduled per_stage at' (start y).ins y) (sym z) self
            | inr q ↦
                IsScheduled-same at at' (start j).ins j (other j q)
                  (λ m r. other m (d.closed j m q r)) (d.scheduled j q)
          ];
          closed = λ j m q r. inr (elim q [
            | inl z ↦ All-In (λ m. In m done) m _ preds (subst (λ y. In m (start y).ins) z r)
            | inr q ↦ d.closed j m q r
          ]);
          ins_eq = λ j. ap (λ s. (s j).ins) e ∙ set_keeps (λ x. x.ins) i j n at refl ∙ d.ins_eq j;
          delay_eq =
              λ j. ap (λ s. (s j).delay) e ∙ set_keeps (λ x. x.delay) i j n at refl ∙ d.delay_eq j;
          vars_eq =
              λ j. ap (λ s. (s j).vars) e ∙ set_keeps (λ x. x.vars) i j n at refl ∙ d.vars_eq j;
        }

    -- What a pass over nodes comes to, when others are done before.
    abbrev Passed : List ℕ → List ℕ → Visit → Type 0
    Passed done order failed = ⊥
    Passed done order (restless j v h) = In j order × IsRestless start j v h
    Passed done order (slow j) = ltb_ℤ per_stage (start j).delay ≡ true
    Passed done order (placed h c) =
        (i : ℕ) → In i order ⊎ In i done → IsScheduled per_stage h.node_at (start i).ins i

    Passed-cons :
        (i : ℕ) (done r : List ℕ) (v : Visit) → Passed (i ∷ done) r v → Passed done (i ∷ r) v
    Passed-cons i done r failed h = h
    Passed-cons i done r (restless j v g) (k, h) = (inr k, h)
    Passed-cons i done r (slow j) h = h
    Passed-cons i done r (placed g c) h = λ j q.
        h j (elim q [ inl (inl z) ↦ inr (inl z) | inl (inr y) ↦ inl y | inr y ↦ inr (inr y) ])

    pass-Passed :
        (order done : List ℕ) (g : Dag) (c : Bool)
        → Ordered (λ j. (start j).ins) done order
        → Done g.node_at done
        → Passed done order (pass per_stage true false order g c)
    unfolding pass
    pass-Passed [] done g c o d = λ i q. elim q [ inl z ↦ absurd z | inr z ↦ d.scheduled i z ]
    pass-Passed (i ∷ r) done g c (fresh, preds, o) d =
        by_visit (visit per_stage true false i g) refl
          (subst (λ l. Visited i g l (visit per_stage true false i g)) (d.ins_eq i)
            (visit-Visited i g (
              subst (λ l. All (λ m. EndsIn per_stage (g.node_at m) (place_of (g.node_at m))) l)
                (sym (d.ins_eq i))
                (All-of _ (start i).ins (λ m q. (d.scheduled m (All-In _ m _ preds q)).0)))))
          (λ h b k. pass-Passed r (i ∷ done) h (c || b) o k)
      where
        by_visit :
            (v : Visit)
            → visit per_stage true false i g ≡ v
            → Visited i g (start i).ins v
            → ((h : Dag)
                → (b : Bool) → Done h.node_at (i ∷ done)
                → Passed (i ∷ done) r (pass per_stage true false r h (c || b)))
            → Passed done (i ∷ r) (pass per_stage true false (i ∷ r) g c)
        by_visit failed e w go = absurd w
        by_visit (restless j v h) e (q, (k, m)) go =
            rw (e, pass)
              (
                inl q,
                (subst (λ z. Names v (start z).vars) (sym q) (subst (Names v) (d.vars_eq i) k), m),
              )
        by_visit (slow j) e w go =
            rw (e, pass) (subst (λ w'. ltb_ℤ per_stage w' ≡ true) (d.delay_eq j) w)
        by_visit (placed h b) e (f, q, ends, ready) go = Passed-cons i done r _ (
            rw (e, pass)
              (go h b (visit-Done i g.node_at h.node_at done f d fresh preds q ends ready)))

  -- What a pass over nodes in dependence order comes to: a node whose delay is greater than a stage's, or
  -- a variable with too many updates, or a schedule.
  abbrev pub Outcome : List ℕ → Dag → Visit → Type 0
  Outcome order g failed = ⊥
  Outcome order g (restless j v h) = In j order × IsRestless g.node_at j v h
  Outcome order g (slow j) = ltb_ℤ per_stage (g.node_at j).delay ≡ true
  Outcome order g (placed h c) =
      (i : ℕ) → In i order → IsScheduled per_stage h.node_at (g.node_at i).ins i

  Passed-Outcome :
      (order : List ℕ) (g : Dag) (v : Visit) → Passed g.node_at [] order v → Outcome order g v
  Passed-Outcome order g failed w = w
  Passed-Outcome order g (restless j v h) w = w
  Passed-Outcome order g (slow j) w = w
  Passed-Outcome order g (placed h c) w = λ i q. w i (inl q)

  -- A forward pass over nodes in dependence order, in which each comes once and after the nodes that its
  -- edges come from, never fails the assertion on delays. It stops at a variable of a node that has by
  -- then been updated more often than a variable may, or at a node whose delay is greater than a stage's, or it places every node such that it ends within
  -- its stage and begins when the nodes that its edges come from are ready, whatever the variables
  -- demand and wherever the nodes were before.
  pub pass-Outcome :
      (order : List ℕ) (g : Dag) (c : Bool)
      → Ordered (λ j. (g.node_at j).ins) [] order
      → Outcome order g (pass per_stage true false order g c)
  pass-Outcome order g c o = Passed-Outcome order g _ (
      pass-Passed g.node_at order [] g c o (record {
        scheduled = λ i q. absurd q;
        closed = λ i m q r. absurd q;
        ins_eq = λ i. refl;
        delay_eq = λ i. refl;
        vars_eq = λ i. refl;
      }))
