-- ===== src/Timing/Pipes/Linked.antt =====
-- src/backend/pipe-timing.cc: the edges of the graph that `TimePipe` builds, and what its schedule
-- means for the statements.
use autopiper.Prelude.{
  ℕ, ◌≡◌, refl, sym, ◌∙◌, ap, subst, ◌⊎◌, inl, inr, List, [], ◌∷◌, ◌++◌, Option, none, some,
  Option-cases,
}
use autopiper.Prelude.Int.{ℤ}
use autopiper.Prelude.Member.{In, In-append}
use autopiper.Timing.{Node, set}
use autopiper.Timing.Store.{set_same, set_other, address-cases}
use autopiper.Timing.Build.{Builder, lookup, get_var, at_node, add_var, add_edge}
use autopiper.Timing.Pipes.{
  Wires, ◌>>=◌, add_nodes, add_edges, add_valid, add_timevar, wire, wire_all, build, no_builder,
}

-- The edges into nodes are kept.
record Grows (b c : Builder) : Type 0 where
  same_map : c.node_map ≡ b.node_map
  keeps_ins : (t f : ℕ) → In f (b.dag.node_at t).ins → In f (c.dag.node_at t).ins

Grows-refl : (b : Builder) → Grows b b
Grows-refl b = record { same_map = refl; keeps_ins = λ t f i. i }

Grows-trans : (a b c : Builder) → Grows a b → Grows b c → Grows a c
Grows-trans a b c g h = record {
  same_map = h.same_map ∙ g.same_map;
  keeps_ins = λ t f i. h.keeps_ins t f (g.keeps_ins t f i);
}

-- The statements have nodes, and an edge leads from the first to the second.
abbrev pub IsLinked : Builder → ℕ → ℕ → Type 0
IsLinked b x y =
    (f : ℕ) × (t : ℕ) × (lookup x b.node_map ≡ some f)
    × (lookup y b.node_map ≡ some t)
    × In f (b.dag.node_at t).ins

IsLinked-Grows : (b c : Builder) (x y : ℕ) → Grows b c → IsLinked b x y → IsLinked c x y
IsLinked-Grows b c x y g (f, t, p, q, i) =
    (f, t, ap (lookup x) g.same_map ∙ p, ap (lookup y) g.same_map ∙ q, g.keeps_ins t f i)

at_node-Grows :
    (a : ℕ) (h : Node → Node) (b : Builder)
    → ((n : Node) (f : ℕ) → In f n.ins → In f (h n).ins)
    → Grows b (at_node a h b)
at_node-Grows a h b k = record {
  same_map = refl;
  keeps_ins = λ t f i. elim (address-cases t a) [
    | inl e ↦
        subst (λ n. In f n.ins)
          (sym (
            subst (λ z. set a (h (b.dag.node_at a)) b.dag.node_at z ≡ h (b.dag.node_at a)) (sym e)
              (set_same a (h (b.dag.node_at a)) b.dag.node_at)))
          (k (b.dag.node_at a) f (subst (λ z. In f (b.dag.node_at z).ins) e i))
    | inr e ↦ subst (λ n. In f n.ins) (sym (set_other a t (h (b.dag.node_at a)) b.dag.node_at e)) i
  ];
}

add_edge-IsLinked : (x y : ℕ) (b c : Builder) → add_edge x y b ≡ some c → Grows b c × IsLinked c x y
unfolding add_edge
add_edge-IsLinked x y b c e = elim (Option-cases (lookup x b.node_map)) [
  | inl g ↦ absurd (cc (rw (g, add_edge) at e))
  | inr (f, g) ↦ elim (Option-cases (lookup y b.node_map)) [
    | inl h ↦ absurd (cc (rw (g, h, add_edge) at e))
    | inr (t, h) ↦
        let d = at_node f (λ n. record n { outs = n.outs ++ t ∷ [] }) b in
        let into = λ (n : Node). record n { ins = n.ins ++ f ∷ [] } in
        let q : at_node t into d ≡ c = cc (rw (g, h, add_edge) at e) in
        let grows =
          Grows-trans b d (at_node t into d)
            (at_node-Grows f (λ n. record n { outs = n.outs ++ t ∷ [] }) b (λ n k i. i))
            (at_node-Grows t into d (λ n k i. In-append k n.ins (f ∷ []) (inl i))) in
        let here : In f ((at_node t into d).dag.node_at t).ins =
          subst (λ n. In f n.ins) (sym (set_same t (into (d.dag.node_at t)) d.dag.node_at))
            (In-append f (d.dag.node_at t).ins (f ∷ []) (inr (inl refl))) in
        subst (λ c. Grows b c × IsLinked c x y) q (grows, (f, t, g, h, here))
  ]
]

get_var-Grows : (u : ℕ) (b : Builder) → Grows b (get_var u b).1
unfolding get_var
get_var-Grows u b = elim (Option-cases (lookup u b.var_map)) [
  | inl f ↦ rw (f, get_var) (record { same_map = refl; keeps_ins = λ t f i. i })
  | inr (v, f) ↦ rw (f, get_var) (Grows-refl b)
]

add_var-Grows : (t u : ℕ) (offset : ℤ) (b c : Builder) → add_var t u offset b ≡ some c → Grows b c
unfolding add_var
add_var-Grows t u offset b c e =
    let (v, d) = get_var u b in
    elim (Option-cases (lookup t d.node_map)) [
      | inl g ↦ absurd (cc (rw (g, add_var) at e))
      | inr (a, g) ↦
          let more = λ (n : Node). record n { vars = n.vars ++ (v, offset) ∷ [] } in
          let q : at_node a more d ≡ c = cc (rw (g, add_var) at e) in
          subst (Grows b) q (
            Grows-trans b d (at_node a more d) (get_var-Grows u b)
              (at_node-Grows a more d (λ n k i. i)))
    ]

bind-some :
    (o : Option Builder) (k : Builder → Option Builder) (c : Builder)
    → (o >>= k) ≡ some c
    → (b : Builder) × (o ≡ some b) × (k b ≡ some c)
bind-some none k c e = absurd (cc e)
bind-some (some b) k c e = (b, refl, e)

add_edges-IsLinked :
    (l : List ℕ) (s : ℕ) (b c : Builder)
    → add_edges l s b ≡ some c
    → Grows b c × ((x : ℕ) → In x l → IsLinked c x s)
unfolding add_edges
add_edges-IsLinked [] s b c e =
    let q : b ≡ c = cc e in (subst (Grows b) q (Grows-refl b), λ x i. absurd i)
add_edges-IsLinked (a ∷ r) s b c e =
    let (d, f, h) = bind-some (add_edge a s b) (add_edges r s) c e in
    let (g, k) = add_edge-IsLinked a s b d f in
    let (m, n) = add_edges-IsLinked r s d c h in
    (
      Grows-trans b d c g m,
      λ x i. elim i [
        | inl q ↦ subst (λ z. IsLinked c z s) (sym q) (IsLinked-Grows d c a s m k)
        | inr j ↦ n x j
      ],
    )

add_valid-IsLinked :
    (v : Option ℕ) (s : ℕ) (b c : Builder)
    → add_valid v s b ≡ some c
    → Grows b c × ((x : ℕ) → v ≡ some x → IsLinked c x s)
add_valid-IsLinked none s b c e =
    let q : b ≡ c = cc e in (subst (Grows b) q (Grows-refl b), λ x i. absurd (cc i))
add_valid-IsLinked (some v) s b c e =
    let (g, k) = add_edge-IsLinked v s b c e in
    (g, λ x i. let q : v ≡ x = cc i in subst (λ z. IsLinked c z s) q k)

add_timevar-Grows :
    (u : Option ℕ) (offset : ℤ) (s : ℕ) (b c : Builder)
    → add_timevar u offset s b ≡ some c
    → Grows b c
add_timevar-Grows none offset s b c e = let q : b ≡ c = cc e in subst (Grows b) q (Grows-refl b)
add_timevar-Grows (some u) offset s b c e = add_var-Grows s u offset b c e

-- What a statement waits for: its arguments, its dependences and its valid signal.
abbrev pub WaitsFor : Wires → ℕ → Type 0
WaitsFor w x = In x w.args ⊎ (In x w.pipedag_deps ⊎ (w.valid_in ≡ some x))

wire-IsLinked :
    (w : Wires) (s : ℕ) (b c : Builder)
    → wire w s b ≡ some c
    → Grows b c × ((x : ℕ) → WaitsFor w x → IsLinked c x s)
unfolding wire
wire-IsLinked w s b c e =
    let (d, f, h) = bind-some (add_edges w.args s b) _ c e in
    let (p, q, r) = bind-some (add_edges w.pipedag_deps s d) _ c h in
    let (k, l, m) = bind-some (add_valid w.valid_in s p) _ c r in
    let (g1, l1) = add_edges-IsLinked w.args s b d f in
    let (g2, l2) = add_edges-IsLinked w.pipedag_deps s d p q in
    let (g3, l3) = add_valid-IsLinked w.valid_in s p k l in
    let g4 = add_timevar-Grows w.timevar w.time_offset s k c m in
    let g34 = Grows-trans p k c g3 g4 in
    let g234 = Grows-trans d p c g2 g34 in
    (
      Grows-trans b d c g1 g234,
      λ x i. elim i [
        | inl j ↦ IsLinked-Grows d c x s g234 (l1 x j)
        | inr (inl j) ↦ IsLinked-Grows p c x s g34 (l2 x j)
        | inr (inr j) ↦ IsLinked-Grows k c x s g4 (l3 x j)
      ],
    )

wire_all-IsLinked :
    (at : ℕ → Wires) (l : List ℕ) (b c : Builder)
    → wire_all at l b ≡ some c
    → Grows b c × ((s x : ℕ) → In s l → WaitsFor (at s) x → IsLinked c x s)
unfolding wire_all
wire_all-IsLinked at [] b c e =
    let q : b ≡ c = cc e in (subst (Grows b) q (Grows-refl b), λ s x i. absurd i)
wire_all-IsLinked at (s ∷ r) b c e =
    let (d, f, h) = bind-some (wire (at s) s b) (wire_all at r) c e in
    let (g, k) = wire-IsLinked (at s) s b d f in
    let (m, n) = wire_all-IsLinked at r d c h in
    (
      Grows-trans b d c g m,
      λ t x i j. elim i [
        | inl q ↦
            subst (IsLinked c x) (sym q)
              (IsLinked-Grows d c x s m (k x (subst (λ z. WaitsFor (at z) x) q j)))
        | inr i ↦ n t x i j
      ],
    )

-- In the graph that is built, an edge leads to each statement from what it waits for.
pub build-IsLinked :
    (delay : ℕ → ℤ) (at : ℕ → Wires) (stmts : List ℕ) (c : Builder)
    → build delay at stmts ≡ some c
    → (s x : ℕ) → In s stmts
    → WaitsFor (at s) x
    → IsLinked c x s
unfolding build
build-IsLinked delay at stmts c e =
    (wire_all-IsLinked at stmts (add_nodes delay stmts no_builder) c e).1
