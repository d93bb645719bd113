-- ===== src/Graph/Dominators/Examples.antt =====
-- src/backend/domtree.h: a diamond, a loop, and two roots.
use autopiper.Prelude.{
  ℕ, zero, suc, ◌≡◌, ◌<◌, refl, ◌↔◌, Bool, true, false, arith, subst, List, [], ◌∷◌, Option, none,
  some,
}
use autopiper.Prelude.Member.{contains}
use autopiper.Timing.{set}
use autopiper.Graph.{
  Walk, start, compute, walk_all, walk, walk_succs, rpo, rpo_num, index_from, preds_of,
}
use autopiper.Graph.Examples.{edge}
use autopiper.Graph.Dominators.{
  Parents, dom, later, merge, pick, merge_preds, new_parent, refine, refine_all, dominators,
}
use autopiper.Graph.Dominators.Merge.{Above, AboveOf, IsFalling, merge-nearest, dom-Above}
use autopiper.Graph.Dominators.Rounds.{refine-IsFalling}

-- From 0 to 1 and 2, and from both to 3.
abbrev diamond : ℕ → List ℕ
diamond zero = 1 ∷ 2 ∷ []
diamond (suc zero) = 3 ∷ []
diamond (suc (suc zero)) = 3 ∷ []
diamond _ = []

-- From 0 to 1, from 1 to 2 and 3, and from 2 back to 1.
abbrev loop : ℕ → List ℕ
loop zero = 1 ∷ []
loop (suc zero) = 2 ∷ 3 ∷ []
loop (suc (suc zero)) = 1 ∷ []
loop _ = []

abbrev parent_of : ℕ → Option Parents → Option ℕ
parent_of n none = none
parent_of n (some up) = up n

join_under_fork : parent_of 3 (dominators diamond 20 (0 ∷ [])) ≡ some 0
unfolding dominators compute walk_all walk walk_succs contains rpo rpo_num index_from preds_of
    refine_all refine new_parent pick later merge_preds merge set
join_under_fork = refl

-- The head of the loop, which only 0 leads to from outside, stays without a parent.
head_without_parent : parent_of 1 (dominators loop 20 (0 ∷ [])) ≡ none
unfolding dominators compute walk_all walk walk_succs contains rpo rpo_num index_from preds_of
    refine_all refine new_parent pick later merge_preds merge set
head_without_parent = refl

body_under_head : parent_of 3 (dominators loop 20 (0 ∷ [])) ≡ some 1
unfolding dominators compute walk_all walk walk_succs contains rpo rpo_num index_from preds_of
    refine_all refine new_parent pick later merge_preds merge set
body_under_head = refl

-- A root with an edge from another root gets that root as its parent.
root_under_root : parent_of 1 (dominators edge 20 (0 ∷ 1 ∷ [])) ≡ some 0
unfolding dominators compute walk_all walk walk_succs contains rpo rpo_num index_from preds_of
    refine_all refine new_parent pick later merge_preds merge set
root_under_root = refl

abbrev walk_of : Option Walk → Walk
walk_of none = start
walk_of (some w) = w

abbrev diamond_walk : Walk
diamond_walk = walk_of (compute diamond 20 (0 ∷ []))

-- 1 and 2 under 0.
abbrev forked : Parents
forked (suc zero) = some 0
forked (suc (suc zero)) = some 0
forked _ = none

forked-IsFalling : IsFalling diamond_walk forked
unfolding compute walk_all walk walk_succs contains rpo rpo_num index_from
forked-IsFalling zero p i e f = absurd (cc e)
forked-IsFalling (suc zero) p i e f =
    let q : 0 ≡ p = cc e in
    subst (λ z. (j : ℕ) × (rpo_num diamond_walk z ≡ some j) × (j < i)) q
      (0, refl, ground (arith, f))
forked-IsFalling (suc (suc zero)) p i e f =
    let q : 0 ≡ p = cc e in
    subst (λ z. (j : ℕ) × (rpo_num diamond_walk z ≡ some j) × (j < i)) q
      (0, refl, ground (arith, f))
forked-IsFalling (suc (suc (suc n))) p i e f = absurd (cc e)

merge-nearest_example :
    (o : Option ℕ) × (merge diamond_walk forked 9 (some 1) (some 2) ≡ some o)
    × (((d : ℕ) → Above forked d 1 → Above forked d 2 → AboveOf forked d o)
        × ((d : ℕ) → AboveOf forked d o → Above forked d 1 × Above forked d 2))
unfolding compute walk_all walk walk_succs contains rpo rpo_num index_from
merge-nearest_example =
    merge-nearest diamond_walk forked forked-IsFalling 9 1 2 2 1 refl refl (omega arith)

dom-Above_example : (b : Bool) × (dom forked 5 0 2 ≡ some b) × ((b ≡ true) ↔ Above forked 0 2)
unfolding compute walk_all walk walk_succs contains rpo rpo_num index_from
dom-Above_example = dom-Above diamond_walk forked forked-IsFalling 5 0 2 1 refl (omega arith)

refine-IsFalling_example :
    (v : Parents) × (c : Bool) × (refine diamond_walk 8 (3 ∷ 1 ∷ []) forked false ≡ some (v, c))
    × IsFalling diamond_walk v
unfolding compute walk_all walk walk_succs contains rpo rpo_num index_from preds_of
refine-IsFalling_example =
    refine-IsFalling diamond_walk 8 (3 ∷ 1 ∷ []) forked false forked-IsFalling (omega arith)
      (((3, refl), ((2, refl), ((1, refl), tt))), (((2, refl), ((0, refl), tt)), tt))
