-- ===== src/Timing/Phase.antt =====
-- src/backend/timing-dag.h: `TimingDAG::DoPhase`.
use autopiper.Prelude.{
  ℕ, zero, suc, ◌+◌, ltb, Bool, true, false, not, ◌&&◌, ◌||◌, List, [], ◌∷◌, Option, none, some,
  if◌then◌else◌,
}
use mathlib.Core.List.{reverse}
use autopiper.Prelude.Int.{ℤ, pos, eq_ℤ, ltb_ℤ, ◌+ℤ◌, ◌-ℤ◌}
use autopiper.Timing.{unknown, known, Node, Var, Dag, Place, set}

-- `kMaxVarUpdates`.
abbrev pub max_var_updates : ℕ
max_var_updates = 100

-- The variables after a node is placed, and whether anything changed; or a variable with too many
-- updates, with the variables as they are then.
pub data Pushed : Type 0 where
  pushed : (ℕ → Var) → Bool → Pushed
  over : ℕ → (ℕ → Var) → Pushed

-- What a visit of a node or of several comes to: the graph and whether anything changed; a node whose
-- delay is greater than a stage's; a node and its variable with too many updates, and the graph as it
-- is then; the failed assertion.
pub data Visit : Type 0 where
  placed : Dag → Bool → Visit
  slow : ℕ → Visit
  restless : ℕ → ℕ → Dag → Visit
  failed : Visit

-- Whether a node's move is noticed: its first placement is not.
unfoldable pub moved : Node → Place → Bool
moved n p = known n.stage && (not (eq_ℤ n.stage p.stage) || not (eq_ℤ n.stage_offset p.offset))

-- One variable is updated: by the stage that the node had, if the stage that it gets is later than
-- the variable's.
unfoldable pub push_var : ℤ → ℤ → ℕ → ℤ → (ℕ → Var) → Bool → Pushed
push_var old new v offset at c =
    if not (known (at v).stage) || ltb_ℤ (at v).stage (new -ℤ offset)
    then if ltb max_var_updates ((at v).updates + 1)
      then over v (set v (record { stage = old -ℤ offset; updates = (at v).updates + 1 }) at)
      else pushed (set v (record { stage = old -ℤ offset; updates = (at v).updates + 1 }) at) true
    else pushed at c

unfoldable pub push_vars : ℤ → ℤ → List (ℕ × ℤ) → (ℕ → Var) → Bool → Pushed
push_vars old new [] at c = pushed at c
push_vars old new ((v, offset) ∷ vs) at c = elim (push_var old new v offset at c) [
  | pushed at' c' ↦ push_vars old new vs at' c'
  | over w u ↦ over w u
]

module _ (per_stage : ℤ) where
  -- What an edge from `m` demands of `n`.
  unfoldable pub input_forward : Node → Node → Option Place
  input_forward n m =
      let start = m.stage_offset +ℤ m.delay in
      if ltb_ℤ per_stage start
      then none
      else if ltb_ℤ per_stage (start +ℤ n.delay)
      then some (record { stage = m.stage +ℤ pos 1; offset = pos 0 })
      else some (record { stage = m.stage; offset = start })

  -- What an edge to `m` demands of `n`.
  unfoldable pub input_backward : Node → Node → Place
  input_backward n m =
      let start = m.stage_offset -ℤ n.delay in
      if ltb_ℤ start (pos 0)
      then record { stage = m.stage -ℤ pos 1; offset = per_stage -ℤ n.delay }
      else record { stage = m.stage; offset = start }

  module _ (forward : Bool) where
    unfoldable pub input : Node → Node → Option Place
    input n m =
        if known m.stage
        then if forward then input_forward n m else some (input_backward n m)
        else some (record { stage = unknown; offset = pos 0 })

    abbrev pub past : ℤ → ℤ → Bool
    past a b = if forward then ltb_ℤ b a else ltb_ℤ a b

    -- Whether an input moves the node on.
    unfoldable pub pushes : Place → Place → Bool
    pushes i p =
        known i.stage
        && (not (known p.stage)
            || past i.stage p.stage
            || eq_ℤ i.stage p.stage && past i.offset p.offset)

    -- The place by the edges.
    unfoldable pub natural : (ℕ → Node) → Node → List ℕ → Place → Option Place
    natural at n [] p = some p
    natural at n (m ∷ ms) p = elim (input n (at m)) [
      | none ↦ none
      | some i ↦ natural at n ms (if pushes i p then i else p)
    ]

    unfoldable pub bump_by : ℤ → ℤ → Place → Place
    bump_by s offset p =
        if known s && past (s +ℤ offset) p.stage
        then record { stage = s +ℤ offset; offset = if forward then pos 0 else per_stage }
        else p

    -- The place by the variables.
    unfoldable pub bump : (ℕ → Var) → List (ℕ × ℤ) → Place → Place
    bump at [] p = p
    bump at ((v, offset) ∷ vs) p = bump at vs (bump_by (at v).stage offset p)

    unfoldable pub default_place : Place → Place
    default_place p = if known p.stage then p else record { stage = pos 0; offset = pos 0 }

    -- The place of an anchored node.
    unfoldable pub snap : Bool → Node → Place
    snap respect_anchors n =
        if respect_anchors && n.anchored
        then record {
          stage = n.anchored_stage;
          offset = if forward then pos 0 else per_stage -ℤ n.delay;
        }
        else record { stage = unknown; offset = unknown }

    -- A node at its place, and its variables.
    unfoldable pub settle : ℕ → Node → Place → Dag → Visit
    settle i n p g = elim (push_vars n.stage p.stage n.vars g.var_at (moved n p)) [
      | over v at ↦ restless i v (record g { var_at = at })
      | pushed at c ↦
          placed
            (record {
              node_at = set i (record n { stage = p.stage; stage_offset = p.offset }) g.node_at;
              var_at = at;
            })
            c
    ]

    -- The body of the loop over the nodes.
    unfoldable pub visit : Bool → ℕ → Dag → Visit
    visit respect_anchors i g =
        let n = g.node_at i in
        if ltb_ℤ per_stage n.delay
        then slow i
        else elim (natural g.node_at n (if forward then n.ins else n.outs)
            (snap respect_anchors n)) [
              | none ↦ failed
              | some p ↦ settle i n (bump g.var_at n.vars (default_place p)) g
            ]

    -- The loop over the nodes.
    unfoldable pub pass : Bool → List ℕ → Dag → Bool → Visit
    pass respect_anchors [] g c = placed g c
    pass respect_anchors (i ∷ r) g c = elim (visit respect_anchors i g) [
      | placed h d ↦ pass respect_anchors r h (c || d)
      | slow j ↦ slow j
      | restless j v h ↦ restless j v h
      | failed ↦ failed
    ]

    -- The loop until nothing changes, over the nodes in the order of the direction.
    unfoldable pub do_phase : Bool → ℕ → List ℕ → Dag → Option Visit
    do_phase respect_anchors zero order g = none
    do_phase respect_anchors (suc fuel) order g =
        elim (pass respect_anchors (if forward then order else reverse order) g false) [
          | placed h true ↦ do_phase respect_anchors fuel order h
          | other ↦ some other
        ]
