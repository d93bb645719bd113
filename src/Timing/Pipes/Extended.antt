-- ===== src/Timing/Pipes/Extended.antt =====
-- src/backend/pipe-timing.cc: a pipe with one more statement in its last stage.
use autopiper.Prelude.{
  ℕ, zero, suc, ◌+◌, ◌≤◌, ◌<◌, ◌==◌, ◌≡◌, refl, ◌∙◌, ap, subst, inl, inr, List, [], ◌∷◌, ◌++◌, some,
  if◌then◌else◌, arith, length, ltb, Bool-cases,
}
use autopiper.Timing.Pipes.{Wires, PipeStage, is_behind, extend, push_back}

-- The stages have the numbers of their positions, which begin with the given one.
abbrev pub IsNumbered : ℕ → List PipeStage → Type 0
IsNumbered i [] = Unit
IsNumbered i (s ∷ r) = (s.stage ≡ i) × IsNumbered (i + 1) r

-- The statements of the stage at a position.
unfoldable pub stmts_at : List PipeStage → ℕ → List ℕ
stmts_at [] j = []
stmts_at (s ∷ r) zero = s.stmts
stmts_at (s ∷ r) (suc j) = stmts_at r j

-- The statements of a pipe.
unfoldable pub of_pipe : (ℕ → Wires) → ℕ → List ℕ → List ℕ
of_pipe at q [] = []
of_pipe at q (s ∷ r) = let rest = of_pipe at q r in if (at s).pipe == q then s ∷ rest else rest

unfoldable pub nodes_at : List (List ℕ) → ℕ → List ℕ
nodes_at [] j = []
nodes_at (ns ∷ r) zero = ns
nodes_at (ns ∷ r) (suc j) = nodes_at r j

behind-length :
    (i number : ℕ) (s : PipeStage) (ss : List PipeStage)
    → IsNumbered i (s ∷ ss)
    → is_behind number (s ∷ ss) ≡ ltb (i + length ss) number
behind-length i number s [] (e, n) = ap (λ k. ltb k number) (omega (arith, e))
behind-length i number s (t ∷ r) (e, n) =
    behind-length (i + 1) number t r n ∙ ap (λ k. ltb k number) (omega arith)

is_behind-length :
    (number : ℕ) (ss : List PipeStage)
    → IsNumbered 0 ss
    → is_behind number ss ≡ ltb (length ss) (number + 1)
is_behind-length number [] n = ground arith
is_behind-length number (s ∷ r) n = ground (arith, behind-length 0 number s r n)

blank : ℕ → PipeStage
blank k = record { stage = k; stmts = [] }

IsNumbered-blank :
    (i : ℕ) (ss : List PipeStage)
    → IsNumbered i ss
    → IsNumbered i (ss ++ blank (i + length ss) ∷ [])
unfolding blank
IsNumbered-blank i [] n = (omega arith, tt)
IsNumbered-blank i (s ∷ r) (e, n) = (
  e,
  subst (λ k. IsNumbered (i + 1) (r ++ blank k ∷ [])) (omega arith) (IsNumbered-blank (i + 1) r n),
)

stmts_at-blank : (ss : List PipeStage) (k j : ℕ) → stmts_at (ss ++ blank k ∷ []) j ≡ stmts_at ss j
unfolding stmts_at blank
stmts_at-blank [] k zero = refl
stmts_at-blank [] k (suc j) = refl
stmts_at-blank (s ∷ r) k zero = refl
stmts_at-blank (s ∷ r) k (suc j) = stmts_at-blank r k j

length-behind : (ss : List PipeStage) (t : PipeStage) → length (ss ++ t ∷ []) ≡ length ss + 1
length-behind [] t = refl
length-behind (s ∷ r) t = omega (arith, length-behind r t)

-- The `while` loop adds stages without statements up to the number.
pub record Extended (number : ℕ) (ss ts : List PipeStage) : Type 0 where
  pub numbered : IsNumbered 0 ts
  pub reaches : length ts ≡ number + 1
  pub stmts_eq : (j : ℕ) → stmts_at ts j ≡ stmts_at ss j

pub extend-Extended :
    (fuel number : ℕ) (ss : List PipeStage)
    → IsNumbered 0 ss
    → length ss ≤ number + 1
    → number + 1 < fuel + length ss
    → (ts : List PipeStage) × (extend fuel number ss ≡ some ts) × Extended number ss ts
unfolding extend blank
extend-Extended zero number ss n l f = absurd (omega arith)
extend-Extended (suc fuel) number ss n l f =
    let e = is_behind-length number ss n in
    elim (Bool-cases (is_behind number ss)) [
      | inr b ↦ (
        ss,
        rw (b, extend) refl,
        record { numbered = n; reaches = ground (arith, e, b); stmts_eq = λ j. refl },
      )
      | inl b ↦
          let m = length-behind ss (blank (length ss)) in
          let lt : length ss < number + 1 = ground (arith, e, b) in
          let (ts, q, x) =
            extend-Extended fuel number (ss ++ blank (length ss) ∷ [])
              (subst (λ k. IsNumbered 0 (ss ++ blank k ∷ [])) (omega arith)
                (IsNumbered-blank 0 ss n))
              (omega (arith, m, lt)) (omega (arith, m)) in
          (
            ts,
            rw (b, extend) q,
            record {
              numbered = x.numbered;
              reaches = x.reaches;
              stmts_eq = λ j. x.stmts_eq j ∙ stmts_at-blank ss (length ss) j;
            },
          )
    ]

pub push_back-IsNumbered :
    (s i : ℕ) (ss : List PipeStage) → IsNumbered i ss → IsNumbered i (push_back s ss)
unfolding push_back
push_back-IsNumbered s i [] n = n
push_back-IsNumbered s i (t ∷ []) n = n
push_back-IsNumbered s i (t ∷ u ∷ r) (e, n) = (e, push_back-IsNumbered s (i + 1) (u ∷ r) n)

pub length-push_back : (s : ℕ) (ss : List PipeStage) → length (push_back s ss) ≡ length ss
unfolding push_back
length-push_back s [] = refl
length-push_back s (t ∷ []) = refl
length-push_back s (t ∷ u ∷ r) = omega (arith, length-push_back s (u ∷ r))

pub push_back-last :
    (s k : ℕ) (ss : List PipeStage)
    → length ss ≡ k + 1
    → stmts_at (push_back s ss) k ≡ stmts_at ss k ++ s ∷ []
unfolding push_back stmts_at
push_back-last s k [] e = absurd (omega (arith, e))
push_back-last s zero (t ∷ []) e = refl
push_back-last s (suc k) (t ∷ []) e = absurd (omega (arith, e))
push_back-last s zero (t ∷ u ∷ r) e = absurd (omega (arith, e))
push_back-last s (suc k) (t ∷ u ∷ r) e = push_back-last s k (u ∷ r) (omega (arith, e))

pub push_back-before :
    (s k j : ℕ) (ss : List PipeStage)
    → length ss ≡ k + 1
    → ¬ (j ≡ k)
    → stmts_at (push_back s ss) j ≡ stmts_at ss j
unfolding push_back stmts_at
push_back-before s k j [] e n = absurd (omega (arith, e))
push_back-before s k zero (t ∷ []) e n = absurd (n (omega (arith, e)))
push_back-before s k (suc j) (t ∷ []) e n = refl
push_back-before s k zero (t ∷ u ∷ r) e n = refl
push_back-before s zero (suc j) (t ∷ u ∷ r) e n = absurd (omega (arith, e))
push_back-before s (suc k) (suc j) (t ∷ u ∷ r) e n =
    push_back-before s k j (u ∷ r) (omega (arith, e)) (λ q. n (ap suc q))
