-- ===== src/Timing/Build.antt =====
-- src/backend/timing-dag.h: `AddNode`, `AddVar`, `AddEdge` and `LiftNode`.
-- The keys are the pointers of the client; `node_map_` and `var_map_` give addresses for them. An
-- assertion that fails is `none`.
pub mod Invariant
pub mod Edges
use autopiper.Prelude.{
  ℕ, suc, ◌+◌, ◌<◌, ◌≤◌, ◌==◌, ◌≡◌, refl, sym, ◌∙◌, ap, subst, ◌⊎◌, inl, inr, ◌↔◌, Bool, true,
  false, List, [], ◌∷◌, ◌++◌, Option, none, some, if◌then◌else◌, arith, Bool-cases, Option-cases,
}
use autopiper.Prelude.Int.{ℤ}
use autopiper.Prelude.Member.{In, In-append, append-In}
use autopiper.Timing.{Node, Var, Dag, new_node, unknown, set}
use autopiper.Timing.Store.{set_same, set_other}
use autopiper.Timing.Schedule.Stable.{Within}
use autopiper.Timing.Solve.Correct.{IsGraph}

-- `nodes_`, `vars_` and the maps, with `Node::t` and the addresses of the next allocations.
pub record Builder : Type 0 where
  pub dag : Dag
  pub nodes : List ℕ
  pub vars : List ℕ
  pub node_map : List (ℕ × ℕ)
  pub var_map : List (ℕ × ℕ)
  pub stmt_of : ℕ → ℕ
  pub next_node : ℕ
  pub next_var : ℕ

unfoldable pub lookup : ℕ → List (ℕ × ℕ) → Option ℕ
lookup k [] = none
lookup k ((j, a) ∷ r) = let rest = lookup k r in if j == k then some a else rest

-- `map::insert`: a key that is there keeps its value.
unfoldable pub insert : ℕ → ℕ → List (ℕ × ℕ) → List (ℕ × ℕ)
unfolding lookup
insert k a m = elim (lookup k m) [ none ↦ m ++ (k, a) ∷ [] | some b ↦ m ]

unfoldable pub add_node : ℕ → ℤ → Builder → Builder
add_node t delay b = record b {
  dag = record b.dag { node_at = set b.next_node (new_node delay) b.dag.node_at };
  nodes = b.nodes ++ b.next_node ∷ [];
  node_map = insert t b.next_node b.node_map;
  stmt_of = set b.next_node t b.stmt_of;
  next_node = b.next_node + 1;
}

-- The variable of a key, made if it is not there.
unfoldable pub get_var : ℕ → Builder → ℕ × Builder
get_var u b = elim (lookup u b.var_map) [
  | some v ↦ (v, b)
  | none ↦ (
    b.next_var,
    record b {
      dag = record b.dag {
        var_at = set b.next_var (record { stage = unknown; updates = 0 }) b.dag.var_at;
      };
      vars = b.vars ++ b.next_var ∷ [];
      var_map = insert u b.next_var b.var_map;
      next_var = b.next_var + 1;
    },
  )
]

abbrev pub at_node : ℕ → (Node → Node) → Builder → Builder
at_node a f b = record b {
  dag = record b.dag { node_at = set a (f (b.dag.node_at a)) b.dag.node_at };
}

unfoldable pub add_var : ℕ → ℕ → ℤ → Builder → Option Builder
add_var t u offset b =
    let (v, c) = get_var u b in
    elim (lookup t c.node_map) [
      | none ↦ none
      | some a ↦ some (at_node a (λ n. record n { vars = n.vars ++ (v, offset) ∷ [] }) c)
    ]

unfoldable pub add_edge : ℕ → ℕ → Builder → Option Builder
add_edge from to b = elim (lookup from b.node_map) [
  | none ↦ none
  | some f ↦ elim (lookup to b.node_map) [
    | none ↦ none
    | some t ↦ some (
        at_node t (λ n. record n { ins = n.ins ++ f ∷ [] })
          (at_node f (λ n. record n { outs = n.outs ++ t ∷ [] }) b))
  ]
]

unfoldable pub lift_node : ℕ → Builder → Option Builder
lift_node t b = elim (lookup t b.node_map) [
  | none ↦ none
  | some a ↦ some (at_node a (λ n. record n { lifted = true }) b)
]

-- The graph is one, the maps lead to what is in it, and allocations are new.
pub record IsBuilt (b : Builder) : Type 0 where
  pub is_graph : IsGraph b.nodes b.vars b.dag
  pub node_map_in : (t a : ℕ) → lookup t b.node_map ≡ some a → In a b.nodes
  pub var_map_in : (u v : ℕ) → lookup u b.var_map ≡ some v → In v b.vars
  pub nodes_below : (a : ℕ) → In a b.nodes → a < b.next_node
  pub vars_below : (v : ℕ) → In v b.vars → v < b.next_var
