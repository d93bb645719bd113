-- ===== src/Timing/Schedule.antt =====
-- src/backend/timing-dag.h: what the forward phase of `DoPhase` promises of a schedule.
pub mod Restless
pub mod Pass
pub mod Stable
pub mod Ends
use autopiper.Prelude.{
  ℕ, ◌+◌, ◌<◌, ◌≤◌, ◌≡◌, ◌≢◌, refl, sym, ◌∙◌, ap, subst, ◌⊎◌, inl, inr, Bool, true, false, not,
  ◌&&◌, ◌||◌, List, [], ◌∷◌, Option, none, some, if◌then◌else◌, arith, Bool-cases, All, and_true,
}
use autopiper.Prelude.Int.{
  ℤ, pos, negsuc, pos_part, neg_part, ltb_ℤ, eq_ℤ, ◌+ℤ◌, ◌-ℤ◌, ◌≤ℤ◌, int_laws, +ℤ_parts, -ℤ_parts,
  eq_of_parts,
}
use autopiper.Timing.{unknown, known, Node, Var, Dag, Place, set}
use autopiper.Timing.Phase.{
  Visit, placed, slow, restless, failed, Pushed, pushed, over, push_vars, moved, input_forward,
  input, past, pushes, natural, bump_by, bump, default_place, snap, settle, visit, pass,
}

infix 50 ◌<ℤ◌
abbrev ◌<ℤ◌ : ℤ → ℤ → Type 0
a <ℤ b = pos_part a + neg_part b < pos_part b + neg_part a

-- The output of a node is ready at a place: the place is in a later stage, or in the same stage after
-- the node's delay.
abbrev pub Ready : Node → Place → Type 0
Ready m p = (m.stage <ℤ p.stage) ⊎ ((m.stage ≡ p.stage) × (m.stage_offset +ℤ m.delay ≤ℤ p.offset))

abbrev AtMost : Place → Place → Type 0
AtMost p q = (p.stage <ℤ q.stage) ⊎ ((p.stage ≡ q.stage) × (p.offset ≤ℤ q.offset))

-- A node ends within the stage it is in.
abbrev pub EndsIn : ℤ → Node → Place → Type 0
EndsIn per_stage n p = (pos 0 ≤ℤ p.stage) × (p.offset +ℤ n.delay ≤ℤ per_stage)

Ready-AtMost : (m : Node) (p q : Place) → Ready m p → AtMost p q → Ready m q
Ready-AtMost m p q (inl h) (inl k) = inl (omega (arith, h, k))
Ready-AtMost m p q (inl h) (inr (k, l)) = inl (subst (λ s. m.stage <ℤ s) k h)
Ready-AtMost m p q (inr (h, i)) (inl k) = inl (subst (λ s. s <ℤ q.stage) (sym h) k)
Ready-AtMost m p q (inr (h, i)) (inr (k, l)) = inr (h ∙ k, omega (arith, i, l))

known_pos : (s : ℤ) → pos 0 ≤ℤ s → known s ≡ true
known_pos (pos n) h = refl
known_pos (negsuc n) h = absurd (omega arith)

-- The place that a node has.
abbrev pub place_of : Node → Place
place_of n = record { stage = n.stage; offset = n.stage_offset }

abbrev demand_next : Node → Place
demand_next m = record { stage = m.stage +ℤ pos 1; offset = pos 0 }

abbrev demand_same : Node → Place
demand_same m = record { stage = m.stage; offset = m.stage_offset +ℤ m.delay }

next_stage : (s : ℤ) → (s <ℤ (s +ℤ pos 1)) × (pos 0 ≤ℤ s → pos 0 ≤ℤ s +ℤ pos 1)
next_stage s = (omega (arith, +ℤ_parts s (pos 1)), λ h. omega (arith, +ℤ_parts s (pos 1), h))

zero_offset : (d w : ℤ) → d ≤ℤ w → pos 0 +ℤ d ≤ℤ w
zero_offset d w h = omega (arith, +ℤ_parts (pos 0) d, h)

not_past : (a b : ℤ) → ltb_ℤ a b ≡ false → b ≤ℤ a
not_past a b h = ground arith

is_past : (a b : ℤ) → ltb_ℤ a b ≡ true → a <ℤ b
is_past a b h = ground arith

unknown_lt : (s : ℤ) → known s ≡ false → s <ℤ pos 0
unknown_lt (pos n) e = absurd (ground arith)
unknown_lt (negsuc n) e = omega arith

module _ (per_stage : ℤ) where
  -- An edge's demand is met by the place that it names.
  input_forward-Ready :
      (n m : Node)
      → n.delay ≤ℤ per_stage
      → EndsIn per_stage m (place_of m)
      → (i : Place) × (input_forward per_stage n m ≡ some i) × EndsIn per_stage n i × Ready m i
  unfolding input_forward
  input_forward-Ready n m d (h, k) =
      elim (Bool-cases (ltb_ℤ per_stage (m.stage_offset +ℤ m.delay))) [
        | inl e ↦ absurd (omega (arith, is_past per_stage (m.stage_offset +ℤ m.delay) e, k))
        | inr e ↦ elim (Bool-cases (ltb_ℤ per_stage (m.stage_offset +ℤ m.delay +ℤ n.delay))) [
          | inl f ↦ (
            demand_next m,
            rw (e, f, input_forward) refl,
            ((next_stage m.stage).1 h, zero_offset n.delay per_stage d),
            inl (next_stage m.stage).0,
          )
          | inr f ↦ (
            demand_same m,
            rw (e, f, input_forward) refl,
            (h, not_past per_stage (m.stage_offset +ℤ m.delay +ℤ n.delay) f),
            inr (refl, omega arith),
          )
        ]
      ]

  -- A place that is unknown yet, or one in which the node ends within the stage.
  abbrev Holds : Node → Place → Type 0
  Holds n p = (known p.stage ≡ false) ⊎ EndsIn per_stage n p

  pushes-past : (i p : Place) → pushes per_stage true i p ≡ true → known p.stage ≡ true → AtMost p i
  unfolding pushes
  pushes-past i p h k = grind int_laws

  pushes-not_past :
      (i p : Place)
      → pushes per_stage true i p ≡ false
      → known i.stage ≡ true
      → known p.stage ≡ true
      → AtMost i p
  unfolding pushes
  pushes-not_past i p h k l = grind int_laws

  -- What holds of a node's place after an edge: it is known, ends in the stage, is not before.
  pushes-AtMost :
      (n m : Node) (i p : Place)
      → EndsIn per_stage n i
      → Ready m i
      → Holds n p
      → (q : Place) × ((if pushes per_stage true i p then i else p) ≡ q)
        × EndsIn per_stage n q
        × Ready m q
        × ((known p.stage ≡ false) ⊎ AtMost p q)
  unfolding pushes
  pushes-AtMost n m i p e r (inl h) = (i, rw (known_pos i.stage e.0, h, pushes) refl, e, r, inl h)
  pushes-AtMost n m i p e r (inr h) = elim (Bool-cases (pushes per_stage true i p)) [
    | inl f ↦ (i, rw (f) refl, e, r, inr (pushes-past i p f (known_pos p.stage h.0)))
    | inr f ↦ (
      p,
      rw (f) refl,
      h,
      Ready-AtMost m i p r (pushes-not_past i p f (known_pos i.stage e.0) (known_pos p.stage h.0)),
      inr (inr (refl, omega arith)),
    )
  ]

  AtMost-AtMost : (p q r : Place) → AtMost p q → AtMost q r → AtMost p r
  AtMost-AtMost p q r (inl h) (inl k) = inl (omega (arith, h, k))
  AtMost-AtMost p q r (inl h) (inr (k, l)) = inl (subst (λ s. p.stage <ℤ s) k h)
  AtMost-AtMost p q r (inr (h, i)) (inl k) = inl (subst (λ s. s <ℤ r.stage) (sym h) k)
  AtMost-AtMost p q r (inr (h, i)) (inr (k, l)) = inr (h ∙ k, omega (arith, i, l))

  -- What the edges come to, from a place on.
  record Settles (at : ℕ → Node) (n : Node) (ms : List ℕ) (p q : Place) : Type 0 where
    not_before : (known p.stage ≡ false) ⊎ AtMost p q
    all_ready : All (λ m. Ready (at m) q) ms
    holds : Holds n q

  was_known : (p q : Place) → pos 0 ≤ℤ p.stage → (known p.stage ≡ false) ⊎ AtMost p q → AtMost p q
  was_known p q h (inl e) = absurd (cc (known_pos p.stage h))
  was_known p q h (inr a) = a

  step :
      (at : ℕ → Node) (n : Node) (m : ℕ) (ms : List ℕ) (p i q z : Place)
      → known (at m).stage ≡ true
      → input_forward per_stage n (at m) ≡ some i
      → (if pushes per_stage true i p then i else p) ≡ q
      → natural per_stage true at n ms q ≡ some z
      → natural per_stage true at n (m ∷ ms) p ≡ some z
  unfolding natural input
  step at n m ms p i q z k a b c = rw (k, a, b, c, natural) refl

  natural-Settles :
      (at : ℕ → Node) (n : Node) (ms : List ℕ) (p : Place)
      → n.delay ≤ℤ per_stage
      → All (λ m. EndsIn per_stage (at m) (place_of (at m))) ms
      → Holds n p
      → (q : Place) × (natural per_stage true at n ms p ≡ some q) × Settles at n ms p q
  unfolding natural input
  natural-Settles at n [] p d es h =
      (p, refl, record { not_before = inr (inr (refl, omega arith)); all_ready = tt; holds = h })
  natural-Settles at n (m ∷ ms) p d (e, es) h =
      let (i, a, f, r) = input_forward-Ready n (at m) d e in
      let (q, b, g, s, l) = pushes-AtMost n (at m) i p f r h in
      let (z, c, k) = natural-Settles at n ms q d es (inr g) in
      let on = was_known q z g.0 k.not_before in
      (
        z,
        step at n m ms p i q z (known_pos (at m).stage e.0) a b c,
        record {
          not_before = elim l [ inl u ↦ inl u | inr u ↦ inr (AtMost-AtMost p q z u on) ];
          all_ready = (Ready-AtMost (at m) q z s on, k.all_ready);
          holds = k.holds;
        },
      )

  default-AtMost :
      (n : Node) (p : Place)
      → n.delay ≤ℤ per_stage
      → Holds n p
      → EndsIn per_stage n (default_place per_stage true p)
        × AtMost p (default_place per_stage true p)
  unfolding default_place
  default-AtMost n p d (inl e) =
      rw (e, default_place)
        ((omega arith, zero_offset n.delay per_stage d), inl (unknown_lt p.stage e))
  default-AtMost n p d (inr h) =
      rw (known_pos p.stage h.0, default_place) (h, inr (refl, omega arith))

  bump_by-AtMost :
      (n : Node) (s offset : ℤ) (p : Place)
      → n.delay ≤ℤ per_stage
      → EndsIn per_stage n p
      → EndsIn per_stage n (bump_by per_stage true s offset p)
        × AtMost p (bump_by per_stage true s offset p)
  unfolding bump_by
  bump_by-AtMost n s offset p d h =
      elim (Bool-cases (known s && past per_stage true (s +ℤ offset) p.stage)) [
        | inl e ↦
            let later = is_past p.stage (s +ℤ offset) (and_true (known s) _ e).1 in
            rw (e, bump_by)
              ((omega (arith, later, h.0), zero_offset n.delay per_stage d), inl later)
        | inr e ↦ rw (e, bump_by) (h, inr (refl, omega arith))
      ]

  bump-AtMost :
      (n : Node) (at : ℕ → Var) (vs : List (ℕ × ℤ)) (p : Place)
      → n.delay ≤ℤ per_stage
      → EndsIn per_stage n p
      → EndsIn per_stage n (bump per_stage true at vs p) × AtMost p (bump per_stage true at vs p)
  unfolding bump
  bump-AtMost n at [] p d h = (h, inr (refl, omega arith))
  bump-AtMost n at ((v, offset) ∷ vs) p d h =
      let (k, a) = bump_by-AtMost n (at v).stage offset p d h in
      let (l, b) = bump-AtMost n at vs (bump_by per_stage true (at v).stage offset p) d k in
      (l, AtMost-AtMost p _ _ a b)
