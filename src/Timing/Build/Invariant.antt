-- ===== src/Timing/Build/Invariant.antt =====
-- src/backend/timing-dag.h: the operations that build the graph keep its invariant.
use autopiper.Prelude.{
  ℕ, ◌+◌, ◌<◌, ◌==◌, ◌≡◌, refl, sym, subst, ◌⊎◌, inl, inr, List, [], ◌∷◌, ◌++◌, some, arith,
  Bool-cases, Option-cases,
}
use autopiper.Prelude.Int.{ℤ}
use autopiper.Prelude.Member.{In, In-append, append-In}
use autopiper.Timing.{Node, Dag, new_node, set}
use autopiper.Timing.Store.{set_same, set_other, address-cases}
use autopiper.Timing.Schedule.Stable.{Within}
use autopiper.Timing.Solve.Correct.{IsGraph}
use autopiper.Timing.Build.{Builder, IsBuilt, lookup, insert, add_node, get_var}

lookup-append :
    (k j a b : ℕ) (m : List (ℕ × ℕ))
    → lookup k (m ++ (j, a) ∷ []) ≡ some b
    → (lookup k m ≡ some b) ⊎ (b ≡ a)
unfolding lookup
lookup-append k j a b [] e = elim (Bool-cases (j == k)) [
  | inl f ↦ inr (cc (rw (f, lookup) at e))
  | inr f ↦ absurd (cc (rw (f, lookup) at e))
]
lookup-append k j a b ((i, c) ∷ r) e = elim (Bool-cases (i == k)) [
  | inl f ↦ inl (rw (f, lookup) (rw (f, lookup) at e))
  | inr f ↦ rw (f, lookup) (lookup-append k j a b r (rw (f, lookup) at e))
]

lookup-insert :
    (k j a b : ℕ) (m : List (ℕ × ℕ))
    → lookup k (insert j a m) ≡ some b
    → (lookup k m ≡ some b) ⊎ (b ≡ a)
unfolding insert
lookup-insert k j a b m e = elim (Option-cases (lookup j m)) [
  | inl f ↦ lookup-append k j a b m (rw (f, insert) at e)
  | inr (c, f) ↦ inl (rw (f, insert) at e)
]

Within-append : (all more : List ℕ) (vs : List (ℕ × ℤ)) → Within all vs → Within (all ++ more) vs
Within-append all more [] w = tt
Within-append all more ((v, o) ∷ r) (i, w) =
    (In-append v all more (inl i), Within-append all more r w)

pub Within-last :
    (all : List ℕ) (vs : List (ℕ × ℤ)) (v : ℕ) (o : ℤ)
    → Within all vs
    → In v all
    → Within all (vs ++ (v, o) ∷ [])
Within-last all [] v o w i = (i, tt)
Within-last all ((u, q) ∷ r) v o (j, w) i = (j, Within-last all r v o w i)

below_append :
    (l : List ℕ) (k : ℕ) → ((x : ℕ) → In x l → x < k) → (x : ℕ) → In x (l ++ k ∷ []) → x < k + 1
below_append l k h x i = elim (append-In x l (k ∷ []) i) [
  | inl j ↦ omega (arith, h x j)
  | inr (inl e) ↦ omega (arith, e)
  | inr (inr j) ↦ absurd j
]

-- A store whose new node has no edges has the edges that it had.
module _ (nodes vars : List ℕ) (g : Dag) (k : ℕ) (delay : ℤ) (new : ¬ In k nodes)
    (w : IsGraph nodes vars g) where
  more : ℕ → Node
  more = set k (new_node delay) g.node_at

  keeps : (i : ℕ) → In i nodes → more i ≡ g.node_at i
  unfolding more
  keeps i h = set_other k i (new_node delay) g.node_at (λ e. new (subst (λ z. In z nodes) e h))

  more-cases : (i : ℕ) → (more i ≡ new_node delay) ⊎ (more i ≡ g.node_at i)
  unfolding more
  more-cases i = elim (address-cases i k) [
    | inl e ↦ inl (
        subst (λ z. set k (new_node delay) g.node_at z ≡ new_node delay) (sym e)
          (set_same k (new_node delay) g.node_at))
    | inr ne ↦ inr (set_other k i (new_node delay) g.node_at ne)
  ]

  ins_before : (i m : ℕ) → In m (more i).ins → In m (g.node_at i).ins
  unfolding new_node
  ins_before i m h = elim (more-cases i) [
    | inl e ↦ absurd (subst (λ n. In m n.ins) e h)
    | inr e ↦ subst (λ n. In m n.ins) e h
  ]

  outs_before : (i m : ℕ) → In m (more i).outs → In m (g.node_at i).outs
  unfolding new_node
  outs_before i m h = elim (more-cases i) [
    | inl e ↦ absurd (subst (λ n. In m n.outs) e h)
    | inr e ↦ subst (λ n. In m n.outs) e h
  ]

  add_node-IsGraph : IsGraph (nodes ++ k ∷ []) vars (record g { node_at = more })
  unfolding new_node
  add_node-IsGraph =
      let widen : (x : ℕ) → In x nodes → In x (nodes ++ k ∷ []) =
        λ x h. In-append x nodes (k ∷ []) (inl h) in
      record {
        both_ends = λ i m. (
          λ h.
              let q = (w.both_ends i m).0 (ins_before i m h) in
              subst (λ n. In i n.outs) (sym (keeps m (w.edges_in m i q).0)) q,
          λ h.
              let q = outs_before m i h in
              subst (λ n. In m n.ins) (sym (keeps i (w.edges_in m i q).1)) ((w.both_ends i m).1 q),
        );
        edges_in =
            λ x y h. let q = w.edges_in x y (outs_before x y h) in (widen x q.0, widen y q.1);
        vars_in = λ i. elim (more-cases i) [
          | inl e ↦ subst (λ n. Within vars n.vars) (sym e) tt
          | inr e ↦ subst (λ n. Within vars n.vars) (sym e) (w.vars_in i)
        ];
      }

-- A new node has no edges.
pub add_node-IsBuilt : (t : ℕ) (delay : ℤ) (b : Builder) → IsBuilt b → IsBuilt (add_node t delay b)
unfolding add_node more
add_node-IsBuilt t delay b w =
    let k = b.next_node in
    record {
      is_graph =
          add_node-IsGraph b.nodes b.vars b.dag k delay
            (λ i. absurd (omega (arith, w.nodes_below k i))) w.is_graph;
      node_map_in = λ u a e. elim (lookup-insert u t k a b.node_map e) [
        | inl f ↦ In-append a b.nodes (k ∷ []) (inl (w.node_map_in u a f))
        | inr q ↦ In-append a b.nodes (k ∷ []) (inr (inl q))
      ];
      var_map_in = w.var_map_in;
      nodes_below = below_append b.nodes k w.nodes_below;
      vars_below = w.vars_below;
    }

-- More variables, in a map that leads to them.
pub get_var-IsBuilt :
    (u : ℕ) (b : Builder)
    → IsBuilt b
    → IsBuilt (get_var u b).1 × In (get_var u b).0 (get_var u b).1.vars
unfolding get_var
get_var-IsBuilt u b w = elim (Option-cases (lookup u b.var_map)) [
  | inr (v, f) ↦ rw (f, get_var) (w, w.var_map_in u v f)
  | inl f ↦
      let k = b.next_var in
      let g = w.is_graph in
      rw (f, get_var)
        (
          record {
            is_graph = record {
              both_ends = g.both_ends;
              edges_in = g.edges_in;
              vars_in = λ i. Within-append b.vars (k ∷ []) (b.dag.node_at i).vars (g.vars_in i);
            };
            node_map_in = w.node_map_in;
            var_map_in = λ t a e. elim (lookup-insert t u k a b.var_map e) [
              | inl q ↦ In-append a b.vars (k ∷ []) (inl (w.var_map_in t a q))
              | inr q ↦ In-append a b.vars (k ∷ []) (inr (inl q))
            ];
            nodes_below = w.nodes_below;
            vars_below = below_append b.vars k w.vars_below;
          },
          In-append k b.vars (k ∷ []) (inr (inl refl)),
        )
]
