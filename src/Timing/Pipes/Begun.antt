-- ===== src/Timing/Pipes/Begun.antt =====
-- src/backend/pipe-timing.cc and timing-dag.h: `TimePipe` up to the end of the first phase of `Solve`.
use autopiper.Prelude.{ℕ, ◌+◌, ◌<◌, ◌≡◌, subst, true, List, [], some, length}
use autopiper.Prelude.Int.{ℤ, ltb_ℤ}
use autopiper.Prelude.Member.{In, All-In}
use autopiper.Timing.Phase.{placed, slow, restless, failed}
use autopiper.Timing.Build.{Builder, IsBuilt, lookup}
use autopiper.Timing.Cycles.Decides.{IsCycle, cost}
use autopiper.Timing.Schedule.{EndsIn, Ready, place_of}
use autopiper.Timing.Schedule.Restless.{IsRestless}
use autopiper.Timing.Schedule.Stable.{room}
use autopiper.Timing.Solve.{Begun, cyclic, phased, outs_of, begin}
use autopiper.Timing.Solve.Correct.{IsBegun, begin-IsBegun}
use autopiper.Timing.Pipes.{Wires, build}
use autopiper.Timing.Pipes.Wired.{IsWired, build-Has}
use autopiper.Timing.Pipes.Linked.{IsLinked, WaitsFor, build-IsLinked}

-- Either there is a cycle, a variable that is updated too often or a delay that is too long, or each
-- statement ends within its stage and begins when what it waits for is ready.
abbrev pub KeepsOrder : ℤ → (ℕ → Wires) → List ℕ → Builder → Begun → Type 0
KeepsOrder per_stage at stmts b cyclic = (x : ℕ) × (y : ℕ) × IsCycle (outs_of b.dag) x y
KeepsOrder per_stage at stmts b (phased order failed) = ⊥
KeepsOrder per_stage at stmts b (phased order (restless j v h)) = IsRestless b.dag.node_at j v h
KeepsOrder per_stage at stmts b (phased order (slow j)) =
    ltb_ℤ per_stage (b.dag.node_at j).delay ≡ true
KeepsOrder per_stage at stmts b (phased order (placed h c)) =
    (s x : ℕ)
    → In s stmts
    → WaitsFor (at s) x
    → (f : ℕ) × (t : ℕ) × (lookup x b.node_map ≡ some f)
      × (lookup s b.node_map ≡ some t)
      × EndsIn per_stage (h.node_at t) (place_of (h.node_at t))
      × Ready (h.node_at f) (place_of (h.node_at t))

keeps :
    (per_stage : ℤ) (at : ℕ → Wires) (stmts : List ℕ) (b : Builder) (v : Begun)
    → IsBuilt b
    → ((s x : ℕ) → In s stmts → WaitsFor (at s) x → IsLinked b x s)
    → IsBegun per_stage b.nodes b.dag v
    → KeepsOrder per_stage at stmts b v
keeps per_stage at stmts b cyclic w l k = k
keeps per_stage at stmts b (phased order failed) w l k = k
keeps per_stage at stmts b (phased order (restless j v h)) w l k = k
keeps per_stage at stmts b (phased order (slow j)) w l k = k
keeps per_stage at stmts b (phased order (placed h c)) w l k = λ s x i j.
    let (f, t, p, q, m) = l s x i j in
    let (ends, ready) = k t (w.node_map_in s t q) in (f, t, p, q, ends, All-In _ f _ ready m)

built :
    (delay : ℕ → ℤ) (at : ℕ → Wires) (stmts : List ℕ) (b : Builder)
    → ((s : ℕ) → In s stmts → IsWired stmts (at s))
    → build delay at stmts ≡ some b
    → IsBuilt b
built delay at stmts b f e =
    let (c, q, h) = build-Has delay at stmts f in subst IsBuilt (cc (q, e)) h.is_built

-- On the graph of the statements of all pipes, whose arguments, dependences and valid signals are such
-- statements, `Solve` gets to the end of its first phase, with more fuel than nodes and edges, than
-- nodes, and than the updates that the variables may have. It reports a cycle only if there is one.
-- Otherwise it reports a delay greater than a stage's, or a variable of a node that has by then been
-- updated more often than a variable may, or it places the nodes such that each statement that waits for
-- an argument, a dependence or a valid signal ends within its stage and begins when the node of what it
-- waits for is ready.
pub build-begin :
    (per_stage : ℤ) (fuel : ℕ) (delay : ℕ → ℤ) (at : ℕ → Wires) (stmts : List ℕ) (b : Builder)
    → ((s : ℕ) → In s stmts → IsWired stmts (at s))
    → build delay at stmts ≡ some b
    → cost (outs_of b.dag) [] b.nodes < fuel
    → length b.nodes < fuel
    → room b.vars b.dag.var_at + 1 < fuel
    → (v : Begun) × (begin per_stage fuel b.nodes b.dag ≡ some v)
      × KeepsOrder per_stage at stmts b v
build-begin per_stage fuel delay at stmts b f e l m n =
    let w = built delay at stmts b f e in
    let (v, q, k) = begin-IsBegun per_stage fuel b.nodes b.vars b.dag w.is_graph l m n in
    (v, q, keeps per_stage at stmts b v w (build-IsLinked delay at stmts b e) k)
