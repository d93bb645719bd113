-- ===== src/Timing/Build/Edges.antt =====
-- src/backend/timing-dag.h: the operations on the nodes that are there keep the invariant.
use autopiper.Prelude.{
  ℕ, ◌≡◌, refl, sym, ◌∙◌, ap, subst, ◌⊎◌, inl, inr, ◌↔◌, true, List, [], ◌∷◌, ◌++◌, some,
  Option-cases,
}
use autopiper.Prelude.Int.{ℤ}
use autopiper.Prelude.Member.{In, In-append, append-In}
use autopiper.Timing.{Node, Dag, set}
use autopiper.Timing.Store.{set_same, set_other, set_keeps, address-cases}
use autopiper.Timing.Schedule.Stable.{Within}
use autopiper.Timing.Solve.Correct.{IsGraph}
use autopiper.Timing.Build.{Builder, IsBuilt, lookup, get_var, add_var, add_edge, lift_node}
use autopiper.Timing.Build.Invariant.{Within-last, get_var-IsBuilt}

-- One more element of a list in a store.
one_more :
    (list : Node → List ℕ) (at : ℕ → Node) (a x : ℕ) (n : Node)
    → list n ≡ list (at a) ++ x ∷ []
    → (i y : ℕ) → In y (list (set a n at i)) ↔ (In y (list (at i)) ⊎ ((i ≡ a) × (y ≡ x)))
one_more list at a x n e i y = elim (address-cases i a) [
  | inr ne ↦
      let q = set_other a i n at ne in
      (
        λ h. inl (subst (λ m. In y (list m)) q h),
        λ h. elim h [ inl j ↦ subst (λ m. In y (list m)) (sym q) j | inr p ↦ absurd (ne p.0) ],
      )
  | inl q ↦
      let own : list (set a n at i) ≡ list (at i) ++ x ∷ [] =
        subst (λ z. list (set a n at z) ≡ list (at z) ++ x ∷ []) (sym q)
          (ap list (set_same a n at) ∙ e) in
      (
        λ h. elim (append-In y (list (at i)) (x ∷ []) (subst (λ l. In y l) own h)) [
          | inl j ↦ inl j
          | inr (inl r) ↦ inr (q, r)
          | inr (inr j) ↦ absurd j
        ],
        λ h.
            subst (λ l. In y l) (sym own)
              (In-append y (list (at i)) (x ∷ [])
                (elim h [ inl j ↦ inl j | inr p ↦ inr (inl p.1) ])),
      )
]

-- An edge at both of its ends.
joined-IsGraph :
    (nodes vars : List ℕ) (g : Dag) (f t : ℕ) (at' : ℕ → Node)
    → IsGraph nodes vars g
    → In f nodes
    → In t nodes
    → ((i y : ℕ) → In y (at' i).outs ↔ (In y (g.node_at i).outs ⊎ ((i ≡ f) × (y ≡ t))))
    → ((i y : ℕ) → In y (at' i).ins ↔ (In y (g.node_at i).ins ⊎ ((i ≡ t) × (y ≡ f))))
    → ((i : ℕ) → (at' i).vars ≡ (g.node_at i).vars)
    → IsGraph nodes vars (record g { node_at = at' })
joined-IsGraph nodes vars g f t at' w kf kt outs ins same = record {
  both_ends = λ i m. (
    λ h.
        (outs m i).1
          (elim ((ins i m).0 h) [ inl j ↦ inl ((w.both_ends i m).0 j) | inr p ↦ inr (p.1, p.0) ]),
    λ h.
        (ins i m).1
          (elim ((outs m i).0 h) [ inl j ↦ inl ((w.both_ends i m).1 j) | inr p ↦ inr (p.1, p.0) ]),
  );
  edges_in = λ x y h. elim ((outs x y).0 h) [
    | inl j ↦ w.edges_in x y j
    | inr p ↦ (subst (λ z. In z nodes) (sym p.0) kf, subst (λ z. In z nodes) (sym p.1) kt)
  ];
  vars_in = λ i. subst (Within vars) (sym (same i)) (w.vars_in i);
}

-- A change that leaves the edges.
edges-IsGraph :
    (nodes vars : List ℕ) (g : Dag) (at' : ℕ → Node)
    → IsGraph nodes vars g
    → ((i : ℕ) → (at' i).outs ≡ (g.node_at i).outs)
    → ((i : ℕ) → (at' i).ins ≡ (g.node_at i).ins)
    → ((i : ℕ) → Within vars (at' i).vars)
    → IsGraph nodes vars (record g { node_at = at' })
edges-IsGraph nodes vars g at' w outs ins h = record {
  both_ends = λ i m. rw (outs m, ins i) (w.both_ends i m);
  edges_in = λ x y j. w.edges_in x y (subst (λ l. In y l) (outs x) j);
  vars_in = h;
}

with_graph :
    (b : Builder) (g : Dag) → IsBuilt b → IsGraph b.nodes b.vars g → IsBuilt (record b { dag = g })
with_graph b g w h = record {
  is_graph = h;
  node_map_in = w.node_map_in;
  var_map_in = w.var_map_in;
  nodes_below = w.nodes_below;
  vars_below = w.vars_below;
}

pub add_edge-IsBuilt :
    (from to : ℕ) (b c : Builder) → IsBuilt b → add_edge from to b ≡ some c → IsBuilt c
unfolding add_edge
add_edge-IsBuilt from to b c w e = elim (Option-cases (lookup from b.node_map)) [
  | inl q ↦ absurd (cc (rw (q, add_edge) at e))
  | inr (f, q) ↦ elim (Option-cases (lookup to b.node_map)) [
    | inl r ↦ absurd (cc (rw (q, r, add_edge) at e))
    | inr (t, r) ↦
        let at = b.dag.node_at in
        let left = record (at f) { outs = (at f).outs ++ t ∷ [] } in
        let mid = set f left at in
        let right = record (mid t) { ins = (mid t).ins ++ f ∷ [] } in
        subst IsBuilt (cc (rw (q, r, add_edge) at e)) (
          with_graph b (record b.dag { node_at = set t right mid }) w
            (joined-IsGraph b.nodes b.vars b.dag f t (set t right mid) w.is_graph
              (w.node_map_in from f q) (w.node_map_in to t r)
              (λ i y.
                subst (λ l. In y l ↔ (In y (at i).outs ⊎ ((i ≡ f) × (y ≡ t))))
                  (sym (set_keeps (λ m. m.outs) t i right mid refl))
                  (one_more (λ m. m.outs) at f t left refl i y))
              (λ i y.
                subst (λ l. In y (set t right mid i).ins ↔ (In y l ⊎ ((i ≡ t) × (y ≡ f))))
                  (set_keeps (λ m. m.ins) f i left at refl)
                  (one_more (λ m. m.ins) mid t f right refl i y))
              (λ i.
                set_keeps (λ m. m.vars) t i right mid refl
                ∙ set_keeps (λ m. m.vars) f i left at refl)))
  ]
]

pub lift_node-IsBuilt : (t : ℕ) (b c : Builder) → IsBuilt b → lift_node t b ≡ some c → IsBuilt c
unfolding lift_node
lift_node-IsBuilt t b c w e = elim (Option-cases (lookup t b.node_map)) [
  | inl f ↦ absurd (cc (rw (f, lift_node) at e))
  | inr (a, f) ↦
      let n = record (b.dag.node_at a) { lifted = true } in
      let at = b.dag.node_at in
      subst IsBuilt (cc (rw (f, lift_node) at e)) (
        with_graph b (record b.dag { node_at = set a n at }) w
          (edges-IsGraph b.nodes b.vars b.dag (set a n at) w.is_graph
            (λ i. set_keeps (λ m. m.outs) a i n at refl) (λ i. set_keeps (λ m. m.ins) a i n at refl)
            (λ i.
              subst (Within b.vars) (sym (set_keeps (λ m. m.vars) a i n at refl))
                (w.is_graph.vars_in i))))
]

pub add_var-IsBuilt :
    (t u : ℕ) (offset : ℤ) (b c : Builder) → IsBuilt b → add_var t u offset b ≡ some c → IsBuilt c
unfolding add_var
add_var-IsBuilt t u offset b c w e =
    let d = (get_var u b).1 in
    let v = (get_var u b).0 in
    let (wd, iv) = get_var-IsBuilt u b w in
    elim (Option-cases (lookup t d.node_map)) [
      | inl f ↦ absurd (cc (rw (f, add_var) at e))
      | inr (a, f) ↦
          let at = d.dag.node_at in
          let n = record (at a) { vars = (at a).vars ++ (v, offset) ∷ [] } in
          subst IsBuilt (cc (rw (f, add_var) at e)) (
            with_graph d (record d.dag { node_at = set a n at }) wd
              (edges-IsGraph d.nodes d.vars d.dag (set a n at) wd.is_graph
                (λ i. set_keeps (λ m. m.outs) a i n at refl)
                (λ i. set_keeps (λ m. m.ins) a i n at refl)
                (λ i. elim (address-cases i a) [
                  | inl q ↦
                      subst (λ z. Within d.vars (set a n at z).vars) (sym q)
                        (subst (λ m. Within d.vars m.vars) (sym (set_same a n at))
                          (Within-last d.vars (at a).vars v offset (wd.is_graph.vars_in a) iv))
                  | inr ne ↦
                      subst (λ m. Within d.vars m.vars) (sym (set_other a i n at ne))
                        (wd.is_graph.vars_in i)
                ])))
    ]
