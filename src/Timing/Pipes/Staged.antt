-- ===== src/Timing/Pipes/Staged.antt =====
-- src/backend/pipe-timing.cc: the stages that `TimePipe` gives to each pipe.
use autopiper.Prelude.{
  ℕ, zero, suc, ◌+◌, ◌≤◌, ◌<◌, ◌≡◌, refl, sym, ◌∙◌, ap, subst, inl, inr, List, [], ◌∷◌, ◌++◌, some,
  arith, length, none,
}
use mathlib.Core.List.{append_assoc}
use autopiper.Timing.{set}
use autopiper.Timing.Store.{set_same, set_other, address-cases}
use autopiper.Timing.Pipes.{
  Wires, PipeStage, Stages, Staging, place, push_back, place_stage, place_all, give_stages,
}
use autopiper.Timing.Pipes.Extended.{
  IsNumbered, stmts_at, of_pipe, nodes_at, Extended, extend-Extended, push_back-IsNumbered,
  length-push_back, push_back-last, push_back-before,
}

-- What more statements in the last stage make of a pipe.
pub record Placed (number : ℕ) (more : List ℕ) (ss os : List PipeStage) : Type 0 where
  pub numbered : IsNumbered 0 os
  pub bounded : length os ≤ number + 1
  pub own : stmts_at os number ≡ stmts_at ss number ++ more
  pub others : (j : ℕ) → ¬ (j ≡ number) → stmts_at os j ≡ stmts_at ss j

Placed-trans :
    (number : ℕ) (more last : List ℕ) (ss os us : List PipeStage)
    → Placed number more ss os
    → Placed number last os us
    → Placed number (more ++ last) ss us
Placed-trans number more last ss os us a b = record {
  numbered = b.numbered;
  bounded = b.bounded;
  own = b.own ∙ ap (λ l. l ++ last) a.own ∙ append_assoc (stmts_at ss number) more last;
  others = λ j n. b.others j n ∙ a.others j n;
}

of_pipe-own :
    (at : ℕ → Wires) (q s : ℕ) (r : List ℕ)
    → q ≡ (at s).pipe
    → of_pipe at q (s ∷ r) ≡ s ∷ of_pipe at q r
unfolding of_pipe
of_pipe-own at q s r e = ground (arith, e)

of_pipe-other :
    (at : ℕ → Wires) (q s : ℕ) (r : List ℕ)
    → ¬ (q ≡ (at s).pipe)
    → of_pipe at q (s ∷ r) ≡ of_pipe at q r
unfolding of_pipe
of_pipe-other at q s r n = ground (arith, n)

of_pipe-cons :
    (at : ℕ → Wires) (q s : ℕ) (r : List ℕ)
    → of_pipe at q (s ∷ r) ≡ of_pipe at q (s ∷ []) ++ of_pipe at q r
unfolding of_pipe
of_pipe-cons at q s r = elim (address-cases q (at s).pipe) [
  | inl e ↦ of_pipe-own at q s r e ∙ sym (ap (λ l. l ++ of_pipe at q r) (of_pipe-own at q s [] e))
  | inr n ↦
      of_pipe-other at q s r n ∙ sym (ap (λ l. l ++ of_pipe at q r) (of_pipe-other at q s [] n))
]

-- A statement at the end of an extended pipe.
pub push_back-Placed :
    (number s : ℕ) (ss ts : List PipeStage)
    → Extended number ss ts
    → Placed number (s ∷ []) ss (push_back s ts)
push_back-Placed number s ss ts x = record {
  numbered = push_back-IsNumbered s 0 ts x.numbered;
  bounded = omega (arith, length-push_back s ts, x.reaches);
  own = push_back-last s number ts x.reaches ∙ ap (λ l. l ++ s ∷ []) (x.stmts_eq number);
  others = λ j n. push_back-before s number j ts x.reaches n ∙ x.stmts_eq j;
}

append_nil : (l : List ℕ) → l ++ [] ≡ l
append_nil [] = refl
append_nil (x ∷ r) = ap (λ l. x ∷ l) (append_nil r)

-- A pipe that is left as it is.
kept-Placed :
    (number : ℕ) (ss : List PipeStage)
    → IsNumbered 0 ss
    → length ss ≤ number + 1
    → Placed number [] ss ss
kept-Placed number ss n l = record {
  numbered = n;
  bounded = l;
  own = sym (append_nil (stmts_at ss number));
  others = λ j n. refl;
}

-- The pipes have numbered stages, at most so many.
abbrev pub IsStaged : ℕ → Stages → Type 0
IsStaged n p = (q : ℕ) → IsNumbered 0 (p q) × (length (p q) ≤ n)

pub set-Placed :
    (at : ℕ → Wires) (number s : ℕ) (p : Stages) (ts : List PipeStage)
    → IsStaged (number + 1) p
    → Extended number (p (at s).pipe) ts
    → (q : ℕ) → Placed number (of_pipe at q (s ∷ [])) (p q) (set (at s).pipe (push_back s ts) p q)
unfolding of_pipe
set-Placed at number s p ts w x q =
    let pipe = (at s).pipe in
    let new = push_back s ts in
    elim (address-cases q pipe) [
      | inl e ↦
          subst (λ l. Placed number l (p q) (set pipe new p q)) (sym (of_pipe-own at q s [] e))
            (subst (λ z. Placed number (s ∷ []) (p z) (set pipe new p z)) (sym e)
              (subst (λ o. Placed number (s ∷ []) (p pipe) o) (sym (set_same pipe new p))
                (push_back-Placed number s (p pipe) ts x)))
      | inr n ↦
          subst (λ l. Placed number l (p q) (set pipe new p q)) (sym (of_pipe-other at q s [] n))
            (subst (λ o. Placed number [] (p q) o) (sym (set_other pipe q new p n))
              (kept-Placed number (p q) (w q).0 (w q).1))
    ]

pub place_stage-Placed :
    (at : ℕ → Wires) (number : ℕ) (nodes : List ℕ) (p : Staging)
    → IsStaged (number + 1) p.stages
    → (o : Staging) × (place_stage at number nodes p ≡ some o)
      × ((q : ℕ) → Placed number (of_pipe at q nodes) (p.stages q) (o.stages q))
unfolding place_stage of_pipe
place_stage-Placed at number [] p w =
    (p, refl, λ q. kept-Placed number (p.stages q) (w q).0 (w q).1)
place_stage-Placed at number (s ∷ r) p w =
    let pipe = (at s).pipe in
    let (n, l) = w pipe in
    let (ts, e, x) = extend-Extended (number + 2) number (p.stages pipe) n l (omega arith) in
    let here = set-Placed at number s p.stages ts w x in
    let (o, f, rest) =
      place_stage-Placed at number r (place s pipe ts p)
        (λ q. ((here q).numbered, (here q).bounded)) in
    (
      o,
      rw (e, place_stage) f,
      λ q.
          subst (λ l. Placed number l (p.stages q) (o.stages q)) (sym (of_pipe-cons at q s r))
            (Placed-trans number (of_pipe at q (s ∷ [])) (of_pipe at q r) (p.stages q)
              (set pipe (push_back s ts) p.stages q) (o.stages q) (here q) (rest q)),
    )

stmts_at-behind : (ss : List PipeStage) (j : ℕ) → length ss ≤ j → stmts_at ss j ≡ []
unfolding stmts_at
stmts_at-behind [] j l = refl
stmts_at-behind (s ∷ r) zero l = absurd (omega (arith, l))
stmts_at-behind (s ∷ r) (suc j) l = stmts_at-behind r j (omega (arith, l))

-- What the loop over the stages makes of a pipe.
record Filled (at : ℕ → Wires) (number q : ℕ) (sets : List (List ℕ)) (ss os : List PipeStage)
    : Type 0 where
  pub numbered : IsNumbered 0 os
  filled : (j : ℕ) → stmts_at os (number + j) ≡ of_pipe at q (nodes_at sets j)
  before : (j : ℕ) → j < number → stmts_at os j ≡ stmts_at ss j

Filled-cons :
    (at : ℕ → Wires) (number q : ℕ) (nodes : List ℕ) (sets : List (List ℕ))
    (ss os us : List PipeStage)
    → length ss ≤ number
    → Placed number (of_pipe at q nodes) ss os
    → Filled at (number + 1) q sets os us
    → Filled at number q (nodes ∷ sets) ss us
unfolding nodes_at
Filled-cons at number q nodes sets ss os us l a b = record {
  numbered = b.numbered;
  filled = λ j.
      elim j as (λ j. stmts_at us (number + j) ≡ of_pipe at q (nodes_at (nodes ∷ sets) j)) [
        | zero ↦
            ap (stmts_at us) (omega arith)
            ∙ b.before number (omega arith)
            ∙ a.own
            ∙ ap (λ l. l ++ of_pipe at q nodes) (stmts_at-behind ss number l)
        | suc i ↦ ap (stmts_at us) (omega arith) ∙ b.filled i
      ];
  before = λ j h. b.before j (omega (arith, h)) ∙ a.others j (omega (arith, h));
}

place_all-Filled :
    (at : ℕ → Wires) (number : ℕ) (sets : List (List ℕ)) (p : Staging)
    → IsStaged number p.stages
    → (o : Staging) × (place_all at number sets p ≡ some o)
      × ((q : ℕ) → Filled at number q sets (p.stages q) (o.stages q))
unfolding place_all nodes_at of_pipe
place_all-Filled at number [] p w = (
  p,
  refl,
  λ q. record {
    numbered = (w q).0;
    filled = λ j. stmts_at-behind (p.stages q) (number + j) (omega (arith, (w q).1));
    before = λ j h. refl;
  },
)
place_all-Filled at number (nodes ∷ r) p w =
    let (o, e, here) =
      place_stage-Placed at number nodes p (λ q. ((w q).0, omega (arith, (w q).1))) in
    let (u, f, rest) =
      place_all-Filled at (number + 1) r o (λ q. ((here q).numbered, (here q).bounded)) in
    (
      u,
      rw (e, place_all) f,
      λ q.
          Filled-cons at number q nodes r (p.stages q) (o.stages q) (u.stages q) (w q).1 (here q)
            (rest q),
    )

-- What the stages of a pipe are to be: numbered from 0 on, with nothing in the first one, and in each
-- further one the pipe's own nodes of the stage before it in the graph.
abbrev pub IsDistributed : (ℕ → Wires) → List (List ℕ) → Staging → Type 0
IsDistributed at sets o =
    (q : ℕ)
    → IsNumbered 0 (o.stages q)
      × (stmts_at (o.stages q) 0 ≡ [])
      × ((j : ℕ) → stmts_at (o.stages q) (j + 1) ≡ of_pipe at q (nodes_at sets j))

-- The loops that give the pipes their stages end. Every pipe then has stages that are numbered by their
-- positions, from 0 on; the first has no statements, and the one with the number j + 1 has just the
-- statements of this pipe that the graph has in its stage j, in the graph's order.
pub give_stages-IsDistributed :
    (at : ℕ → Wires) (sets : List (List ℕ))
    → (o : Staging) × (give_stages at sets ≡ some o) × IsDistributed at sets o
unfolding give_stages stmts_at
give_stages-IsDistributed at sets =
    let none_yet : Staging = record { stages = λ q. []; stage_of = λ s. none } in
    let (o, e, f) = place_all-Filled at 1 sets none_yet (λ q. (tt, omega arith)) in
    (
      o,
      e,
      λ q. (
        (f q).numbered,
        (f q).before 0 (omega arith),
        λ j. ap (stmts_at (o.stages q)) (omega arith) ∙ (f q).filled j,
      ),
    )
