-- ===== src/Timing/Pipes/Wired.antt =====
-- src/backend/pipe-timing.cc: the graph that `TimePipe` builds.
use autopiper.Prelude.{
  ℕ, ◌≡◌, ◌==◌, refl, sym, ◌∙◌, ap, subst, ◌⊎◌, inl, inr, List, [], ◌∷◌, ◌++◌, Option, none, some,
  arith, Option-cases, Bool-cases, All,
}
use autopiper.Prelude.Int.{ℤ}
use autopiper.Prelude.Member.{In}
use autopiper.Timing.{new_node}
use autopiper.Timing.Build.{
  Builder, IsBuilt, lookup, insert, add_node, get_var, at_node, add_var, add_edge,
}
use autopiper.Timing.Build.Invariant.{add_node-IsBuilt}
use autopiper.Timing.Build.Edges.{add_edge-IsBuilt, add_var-IsBuilt}
use autopiper.Timing.Pipes.{
  Wires, ◌>>=◌, no_builder, add_nodes, add_edges, add_valid, add_timevar, wire, wire_all, build,
}

-- The graph is one, and these keys have nodes.
pub record Has (keys : List ℕ) (b : Builder) : Type 0 where
  pub is_built : IsBuilt b
  pub has_node : (k : ℕ) → In k keys → (a : ℕ) × (lookup k b.node_map ≡ some a)

-- What an operation that keeps the nodes comes to.
abbrev Makes : List ℕ → Option Builder → Type 0
Makes keys o = (c : Builder) × (o ≡ some c) × Has keys c

add_edge-Makes :
    (keys : List ℕ) (from to : ℕ) (b : Builder)
    → Has keys b
    → In from keys
    → In to keys
    → Makes keys (add_edge from to b)
unfolding add_edge
add_edge-Makes keys from to b h i j =
    let (f, q) = h.has_node from i in
    let (t, r) = h.has_node to j in
    let c =
      at_node t (λ n. record n { ins = n.ins ++ f ∷ [] })
        (at_node f (λ n. record n { outs = n.outs ++ t ∷ [] }) b) in
    let e : add_edge from to b ≡ some c = rw (q, r, add_edge) refl in
    (c, e, record { is_built = add_edge-IsBuilt from to b c h.is_built e; has_node = h.has_node })

get_var_nodes : (u : ℕ) (b : Builder) → (get_var u b).1.node_map ≡ b.node_map
unfolding get_var
get_var_nodes u b = elim (Option-cases (lookup u b.var_map)) [
  | inl f ↦ rw (f, get_var) refl
  | inr (v, f) ↦ rw (f, get_var) refl
]

add_var-Makes :
    (keys : List ℕ) (t u : ℕ) (offset : ℤ) (b : Builder)
    → Has keys b
    → In t keys
    → Makes keys (add_var t u offset b)
unfolding add_var
add_var-Makes keys t u offset b h i =
    let (a, q) = h.has_node t i in
    let e = get_var_nodes u b in
    let r : lookup t (get_var u b).1.node_map ≡ some a = ap (lookup t) e ∙ q in
    let v = (get_var u b).0 in
    let c = at_node a (λ n. record n { vars = n.vars ++ (v, offset) ∷ [] }) (get_var u b).1 in
    let p : add_var t u offset b ≡ some c = rw (r, add_var) refl in
    (
      c,
      p,
      record {
        is_built = add_var-IsBuilt t u offset b c h.is_built p;
        has_node = λ k j. let (d, s) = h.has_node k j in (d, ap (lookup k) e ∙ s);
      },
    )

-- One operation after another.
Makes-then :
    (keys : List ℕ) (o : Option Builder) (f : Builder → Option Builder)
    → Makes keys o
    → ((c : Builder) → Has keys c → Makes keys (f c))
    → Makes keys (o >>= f)
Makes-then keys o f (c, e, h) k = subst (λ o. Makes keys (o >>= f)) (sym e) (k c h)

add_edges-Makes :
    (keys l : List ℕ) (s : ℕ) (b : Builder)
    → Has keys b
    → All (λ a. In a keys) l
    → In s keys
    → Makes keys (add_edges l s b)
unfolding add_edges
add_edges-Makes keys [] s b h i j = (b, refl, h)
add_edges-Makes keys (a ∷ r) s b h (i, is) j =
    Makes-then keys (add_edge a s b) (add_edges r s) (add_edge-Makes keys a s b h i j)
      (λ c k. add_edges-Makes keys r s c k is j)

-- What a statement is wired to is among the statements.
abbrev pub IsWired : List ℕ → Wires → Type 0
IsWired keys w =
    All (λ a. In a keys) w.args
    × All (λ a. In a keys) w.pipedag_deps
    × ((v : ℕ) → w.valid_in ≡ some v → In v keys)

add_valid-Makes :
    (keys : List ℕ) (v : Option ℕ) (s : ℕ) (b : Builder)
    → Has keys b
    → ((x : ℕ) → v ≡ some x → In x keys)
    → In s keys
    → Makes keys (add_valid v s b)
add_valid-Makes keys none s b h f j = (b, refl, h)
add_valid-Makes keys (some x) s b h f j = add_edge-Makes keys x s b h (f x refl) j

add_timevar-Makes :
    (keys : List ℕ) (u : Option ℕ) (offset : ℤ) (s : ℕ) (b : Builder)
    → Has keys b
    → In s keys
    → Makes keys (add_timevar u offset s b)
add_timevar-Makes keys none offset s b h j = (b, refl, h)
add_timevar-Makes keys (some u) offset s b h j = add_var-Makes keys s u offset b h j

wire-Makes :
    (keys : List ℕ) (w : Wires) (s : ℕ) (b : Builder)
    → Has keys b
    → IsWired keys w
    → In s keys
    → Makes keys (wire w s b)
unfolding wire
wire-Makes keys w s b h (x, y, z) j =
    Makes-then keys (add_edges w.args s b) _ (add_edges-Makes keys w.args s b h x j) (λ c hc.
      Makes-then keys (add_edges w.pipedag_deps s c) _
        (add_edges-Makes keys w.pipedag_deps s c hc y j)
        (λ d hd.
          Makes-then keys (add_valid w.valid_in s d) _ (add_valid-Makes keys w.valid_in s d hd z j)
            (λ e he. add_timevar-Makes keys w.timevar w.time_offset s e he j)))

wire_all-Makes :
    (keys : List ℕ) (at : ℕ → Wires) (l : List ℕ) (b : Builder)
    → Has keys b
    → ((s : ℕ) → In s l → In s keys × IsWired keys (at s))
    → Makes keys (wire_all at l b)
unfolding wire_all
wire_all-Makes keys at [] b h f = (b, refl, h)
wire_all-Makes keys at (s ∷ r) b h f =
    let (i, w) = f s (inl refl) in
    Makes-then keys (wire (at s) s b) (wire_all at r) (wire-Makes keys (at s) s b h w i)
      (λ c k. wire_all-Makes keys at r c k (λ t j. f t (inr j)))

lookup_behind :
    (k j a : ℕ) (m : List (ℕ × ℕ))
    → (k ≡ j) ⊎ ((c : ℕ) × (lookup k m ≡ some c))
    → (c : ℕ) × (lookup k (m ++ (j, a) ∷ []) ≡ some c)
unfolding lookup
lookup_behind k j a [] (inl e) = (a, ground (arith, e))
lookup_behind k j a [] (inr (c, e)) = absurd (cc e)
lookup_behind k j a ((i, b) ∷ r) h = elim (Bool-cases (i == k)) [
  | inl f ↦ (b, rw (f, lookup) refl)
  | inr f ↦
      let (c, q) =
        lookup_behind k j a r
          (elim h [ inl e ↦ inl e | inr (c, e) ↦ inr (c, rw (f, lookup) at e) ]) in
      (c, rw (f, lookup) q)
]

lookup_added :
    (k j a : ℕ) (m : List (ℕ × ℕ))
    → (k ≡ j) ⊎ ((c : ℕ) × (lookup k m ≡ some c))
    → (c : ℕ) × (lookup k (insert j a m) ≡ some c)
unfolding insert
lookup_added k j a m h = elim (Option-cases (lookup j m)) [
  | inl f ↦ rw (f, insert) (lookup_behind k j a m h)
  | inr (b, f) ↦
      rw (f, insert)
        (elim h [ inl e ↦ (b, subst (λ z. lookup z m ≡ some b) (sym e) f) | inr p ↦ p ])
]

-- The empty graph.
no_builder-IsBuilt : IsBuilt no_builder
unfolding lookup new_node
no_builder-IsBuilt = record {
  is_graph = record {
    both_ends = λ i m. (λ h. absurd h, λ h. absurd h);
    edges_in = λ x y h. absurd h;
    vars_in = λ i. tt;
  };
  node_map_in = λ t a e. absurd (cc e);
  var_map_in = λ u v e. absurd (cc e);
  nodes_below = λ a h. absurd h;
  vars_below = λ v h. absurd h;
}

add_nodes-Has :
    (delay : ℕ → ℤ) (keys l : List ℕ) (b : Builder)
    → IsBuilt b
    → ((k : ℕ) → In k keys → In k l ⊎ ((a : ℕ) × (lookup k b.node_map ≡ some a)))
    → Has keys (add_nodes delay l b)
unfolding add_nodes add_node
add_nodes-Has delay keys [] b w f = record {
  is_built = w;
  has_node = λ k i. elim (f k i) [ inl j ↦ absurd j | inr h ↦ h ];
}
add_nodes-Has delay keys (s ∷ r) b w f =
    add_nodes-Has delay keys r (add_node s (delay s) b) (add_node-IsBuilt s (delay s) b w) (λ k i.
      elim (f k i) [
        | inl (inl e) ↦ inr (lookup_added k s b.next_node b.node_map (inl e))
        | inl (inr j) ↦ inl j
        | inr h ↦ inr (lookup_added k s b.next_node b.node_map (inr h))
      ])

-- If the arguments, the dependences and the valid signals of all statements are statements of the
-- pipes, no assertion fails, and the graph has a node for each statement, edges that are known at both
-- of their ends and join nodes, and nodes that name its own variables.
pub build-Has :
    (delay : ℕ → ℤ) (at : ℕ → Wires) (stmts : List ℕ)
    → ((s : ℕ) → In s stmts → IsWired stmts (at s))
    → (b : Builder) × (build delay at stmts ≡ some b) × Has stmts b
unfolding build
build-Has delay at stmts f =
    wire_all-Makes stmts at stmts (add_nodes delay stmts no_builder)
      (add_nodes-Has delay stmts stmts no_builder no_builder-IsBuilt (λ k i. inl i))
      (λ s i. (i, f s i))
