-- ===== src/Timing/Pipes/Pointed.antt =====
-- src/backend/pipe-timing.cc: the stage that `TimePipe` gives to each statement.
use autopiper.Prelude.{
  ℕ, zero, suc, ◌+◌, ◌-◌, ◌≡◌, refl, sym, ◌∙◌, ap, subst, ◌⊎◌, inl, inr, List, [], ◌∷◌, none, some,
  arith, length,
}
use autopiper.Prelude.Member.{In, In-append}
use autopiper.Timing.{set}
use autopiper.Timing.Store.{set_same, set_other, address-cases}
use autopiper.Timing.Pipes.{
  Wires, PipeStage, Staging, place, push_back, place_stage, place_all, give_stages,
}
use autopiper.Timing.Pipes.Extended.{stmts_at, of_pipe, nodes_at, Extended, extend-Extended}
use autopiper.Timing.Pipes.Staged.{
  Placed, IsStaged, set-Placed, push_back-Placed, place_stage-Placed, give_stages-IsDistributed,
}

-- What a statement's stage is: one of its own pipe that holds it.
abbrev pub IsStageOf : (ℕ → Wires) → Staging → ℕ → ℕ × ℕ → Type 0
IsStageOf at p s k = (k.0 ≡ (at s).pipe) × In s (stmts_at (p.stages k.0) k.1)

-- Every stage that is given is right.
abbrev IsPointed : (ℕ → Wires) → Staging → Type 0
IsPointed at p = (s : ℕ) (k : ℕ × ℕ) → p.stage_of s ≡ some k → IsStageOf at p s k

abbrev HasStage : Staging → ℕ → Type 0
HasStage p s = (k : ℕ × ℕ) × (p.stage_of s ≡ some k)

Placed-In :
    (number s j : ℕ) (more : List ℕ) (ss os : List PipeStage)
    → Placed number more ss os
    → In s (stmts_at ss j)
    → In s (stmts_at os j)
Placed-In number s j more ss os a i = elim (address-cases j number) [
  | inl e ↦
      subst (λ z. In s (stmts_at os z)) (sym e)
        (subst (In s) (sym a.own)
          (In-append s (stmts_at ss number) more (inl (subst (λ z. In s (stmts_at ss z)) e i))))
  | inr n ↦ subst (In s) (sym (a.others j n)) i
]

place-IsPointed :
    (at : ℕ → Wires) (number s : ℕ) (p : Staging) (ts : List PipeStage)
    → IsStaged (number + 1) p.stages
    → Extended number (p.stages (at s).pipe) ts
    → IsPointed at p
    → IsPointed at (place s (at s).pipe ts p)
place-IsPointed at number s p ts w x h t k e = elim (address-cases t s) [
  | inr n ↦
      let (a, b) =
        h t k (sym (set_other s t (some ((at s).pipe, length ts - 1)) p.stage_of n) ∙ e) in
      (a, Placed-In number t k.1 _ _ _ (set-Placed at number s p.stages ts w x k.0) b)
  | inl q ↦
      let f : some ((at s).pipe, number) ≡ some k =
        ap (λ n. some ((at s).pipe, n)) (ground (arith, x.reaches))
        ∙ sym (set_same s (some ((at s).pipe, length ts - 1)) p.stage_of)
        ∙ subst (λ z. set s (some ((at s).pipe, length ts - 1)) p.stage_of z ≡ some k) q e in
      let g : ((at s).pipe, number) ≡ k = cc f in
      let pipe = (at s).pipe in
      let y = push_back-Placed number s (p.stages pipe) ts x in
      let own : In s (stmts_at (set pipe (push_back s ts) p.stages pipe) number) =
        subst (λ l. In s (stmts_at l number)) (sym (set_same pipe (push_back s ts) p.stages))
          (subst (In s) (sym y.own)
            (In-append s (stmts_at (p.stages pipe) number) (s ∷ []) (inr (inl refl)))) in
      subst (λ z. IsStageOf at (place s pipe ts p) z k) (sym q)
        (subst (IsStageOf at (place s pipe ts p) s) g (refl, own))
]

place-HasStage :
    (s pipe t : ℕ) (ts : List PipeStage) (p : Staging)
    → (t ≡ s) ⊎ HasStage p t
    → HasStage (place s pipe ts p) t
place-HasStage s pipe t ts p h = elim (address-cases t s) [
  | inl q ↦
      let k : ℕ × ℕ = (pipe, length ts - 1) in
      (
        k,
        subst (λ z. set s (some k) p.stage_of z ≡ some k) (sym q) (set_same s (some k) p.stage_of),
      )
  | inr n ↦ elim h [
    | inl q ↦ absurd (n q)
    | inr (k, e) ↦ (k, set_other s t (some (pipe, length ts - 1)) p.stage_of n ∙ e)
  ]
]

-- The stages that are given are right, and these statements and those that had one have one.
record Marked (at : ℕ → Wires) (stmts : List ℕ) (p o : Staging) : Type 0 where
  pointed : IsPointed at o
  kept : (s : ℕ) → HasStage p s → HasStage o s
  given : (s : ℕ) → In s stmts → HasStage o s

place_stage-Marked :
    (at : ℕ → Wires) (number : ℕ) (stmts : List ℕ) (p o : Staging)
    → IsStaged (number + 1) p.stages
    → IsPointed at p
    → place_stage at number stmts p ≡ some o
    → Marked at stmts p o
unfolding place_stage of_pipe
place_stage-Marked at number [] p o w h e =
    let q : p ≡ o = cc e in
    subst (Marked at [] p) q (record { pointed = h; kept = λ s k. k; given = λ s i. absurd i })
place_stage-Marked at number (s ∷ r) p o w h e =
    let pipe = (at s).pipe in
    let (n, l) = w pipe in
    let (ts, f, x) = extend-Extended (number + 2) number (p.stages pipe) n l (omega arith) in
    let here = set-Placed at number s p.stages ts w x in
    let m =
      place_stage-Marked at number r (place s pipe ts p) o
        (λ q. ((here q).numbered, (here q).bounded)) (place-IsPointed at number s p ts w x h)
        (rw (f, place_stage) at e) in
    record {
      pointed = m.pointed;
      kept = λ t k. m.kept t (place-HasStage s pipe t ts p (inr k));
      given = λ t i. elim i [
        | inl q ↦ m.kept t (place-HasStage s pipe t ts p (inl q))
        | inr j ↦ m.given t j
      ];
    }

place_all-Marked :
    (at : ℕ → Wires) (number : ℕ) (sets : List (List ℕ)) (p o : Staging)
    → IsStaged number p.stages
    → IsPointed at p
    → place_all at number sets p ≡ some o
    → IsPointed at o
      × ((s : ℕ) → HasStage p s → HasStage o s)
      × ((s j : ℕ) → In s (nodes_at sets j) → HasStage o s)
unfolding place_all nodes_at
place_all-Marked at number [] p o w h e =
    let q : p ≡ o = cc e in
    (subst (IsPointed at) q h, λ s k. subst (λ o. HasStage o s) q k, λ s j i. absurd i)
place_all-Marked at number (stmts ∷ r) p o w h e =
    let wide : IsStaged (number + 1) p.stages = λ q. ((w q).0, omega (arith, (w q).1)) in
    let (u, f, here) = place_stage-Placed at number stmts p wide in
    let m = place_stage-Marked at number stmts p u wide h f in
    let (a, b, c) =
      place_all-Marked at (number + 1) r u o (λ q. ((here q).numbered, (here q).bounded)) m.pointed
        (rw (f, place_all) at e) in
    (
      a,
      λ s k. b s (m.kept s k),
      λ s j. elim j as (λ j. In s (nodes_at (stmts ∷ r) j) → HasStage o s) [
        | zero ↦ λ i. b s (m.given s i)
        | suc k ↦ λ i. c s k i
      ],
    )

-- The loops that give the pipes their stages end. Every statement of the graph's stages then has a
-- stage, and any stage that a statement has is one of its own pipe and holds it.
pub give_stages-IsStageOf :
    (at : ℕ → Wires) (sets : List (List ℕ))
    → (o : Staging) × (give_stages at sets ≡ some o)
      × ((s j : ℕ) → In s (nodes_at sets j) → (k : ℕ × ℕ) × (o.stage_of s ≡ some k))
      × ((s : ℕ) (k : ℕ × ℕ) → o.stage_of s ≡ some k → IsStageOf at o s k)
unfolding give_stages
give_stages-IsStageOf at sets =
    let (o, e, _) = give_stages-IsDistributed at sets in
    let (a, _, c) =
      place_all-Marked at 1 sets (record { stages = λ q. []; stage_of = λ s. none }) o
        (λ q. (tt, omega arith)) (λ s k f. absurd (cc f)) e in
    (o, e, c, a)
