-- ===== src/Timing/Solve/Correct.antt =====
-- src/backend/timing-dag.h: what `Solve` promises after its first phase.
use autopiper.Prelude.{ℕ, ◌+◌, ◌<◌, ◌≡◌, refl, ◌↔◌, inl, inr, true, List, [], some, length}
use autopiper.Prelude.Int.{ℤ, ltb_ℤ}
use autopiper.Prelude.Member.{In}
use autopiper.Graph.{rpo}
use autopiper.Graph.Roots.{compute-find_roots}
use autopiper.Timing.{Dag}
use autopiper.Timing.Cycles.Decides.{IsCycle, cost, check_for_cycles_decides}
use autopiper.Timing.Phase.{Visit, placed, slow, restless, failed}
use autopiper.Timing.Schedule.Pass.{IsScheduled}
use autopiper.Timing.Schedule.Restless.{IsRestless}
use autopiper.Timing.Schedule.Stable.{Within, room}
use autopiper.Timing.Schedule.Ends.{phase-Outcome, Phased}
use autopiper.Timing.Solve.{Begun, cyclic, phased, outs_of, first_phase, begin}

-- What `AddNode`, `AddEdge` and `AddVar` make: edges are known at both ends and join nodes, and nodes
-- name variables of the graph.
pub record IsGraph (nodes vars : List ℕ) (g : Dag) : Type 0 where
  pub both_ends : (i m : ℕ) → In m (g.node_at i).ins ↔ In i (g.node_at m).outs
  pub edges_in : (x y : ℕ) → In y (g.node_at x).outs → In x nodes × In y nodes
  pub vars_in : (i : ℕ) → Within vars (g.node_at i).vars

-- What the first half of `Solve` promises.
abbrev pub IsBegun : ℤ → List ℕ → Dag → Begun → Type 0
IsBegun per_stage nodes g cyclic = (a : ℕ) × (b : ℕ) × IsCycle (outs_of g) a b
IsBegun per_stage nodes g (phased order failed) = ⊥
IsBegun per_stage nodes g (phased order (restless j v h)) = IsRestless g.node_at j v h
IsBegun per_stage nodes g (phased order (slow j)) = ltb_ℤ per_stage (g.node_at j).delay ≡ true
IsBegun per_stage nodes g (phased order (placed h c)) =
    (i : ℕ) → In i nodes → IsScheduled per_stage h.node_at (g.node_at i).ins i

begun :
    (per_stage : ℤ) (nodes order : List ℕ) (g : Dag) (v : Visit)
    → ((i : ℕ) → In i nodes → In i order)
    → Phased per_stage g.node_at order v
    → IsBegun per_stage nodes g (phased order v)
begun per_stage nodes order g failed every p = p
begun per_stage nodes order g (restless j v h) every p = p.1
begun per_stage nodes order g (slow j) every p = p
begun per_stage nodes order g (placed h c) every p = λ i k. p.0 i (every i k)

-- `Solve` gets to the end of its first phase, with more fuel than nodes and edges, than nodes, and
-- than the updates that the variables may have. It reports a cycle only if there is one. Otherwise the
-- phase never fails its assertion: it reports a node whose delay is greater than a stage's, or a variable
-- of a node that has by then been updated more often than a variable may, or it places every node of the graph such that it ends within its stage and
-- begins when the nodes that its edges come from are ready.
pub begin-IsBegun :
    (per_stage : ℤ) (fuel : ℕ) (nodes vars : List ℕ) (g : Dag)
    → IsGraph nodes vars g
    → cost (outs_of g) [] nodes < fuel
    → length nodes < fuel
    → room vars g.var_at + 1 < fuel
    → (b : Begun) × (begin per_stage fuel nodes g ≡ some b) × IsBegun per_stage nodes g b
unfolding begin first_phase
begin-IsBegun per_stage fuel nodes vars g wf l₁ l₂ l₃ =
    elim (check_for_cycles_decides (outs_of g) nodes fuel wf.edges_in l₁) [
      | inl (e, cyc) ↦ (cyclic, rw (e, begin) refl, cyc)
      | inr (e, (rank, falls)) ↦
          let (w, f, o, every) =
            compute-find_roots (outs_of g) rank (λ i. (g.node_at i).ins) nodes fuel falls
              wf.both_ends wf.edges_in l₂ in
          let (v, q, p) =
            phase-Outcome per_stage vars g.node_at wf.vars_in fuel (rpo w) g o
              (record { ins_eq = λ i. refl; vars_eq = λ i. refl; delay_eq = λ i. refl }) l₃ in
          (
            phased (rpo w) v,
            rw (e, f, q, begin, first_phase) refl,
            begun per_stage nodes (rpo w) g v every p,
          )
    ]
