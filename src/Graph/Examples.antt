-- ===== src/Graph/Examples.antt =====
-- src/backend/rpo.h: the walk of a graph with four nodes.
use autopiper.Prelude.{
  ℕ, zero, suc, ◌<◌, ◌≡◌, refl, sym, subst, inl, inr, ◌↔◌, List, [], ◌∷◌, Option, none, some, arith,
}
use autopiper.Prelude.Member.{In, contains, Distinct, Ordered}
use autopiper.Graph.{
  Walk, compute, walk_all, walk, walk_succs, rpo, preds_of, find_roots, roots_among, erase_all,
  erase,
}
use autopiper.Graph.Visits.{Reach, compute-Reach}
use autopiper.Graph.Roots.{compute-find_roots}

-- A diamond: 0 leads to 1 and 2, and those lead to 3.
abbrev diamond : ℕ → List ℕ
diamond zero = 1 ∷ 2 ∷ []
diamond (suc zero) = 3 ∷ []
diamond (suc (suc zero)) = 3 ∷ []
diamond (suc (suc (suc n))) = []

abbrev order_of : Option Walk → List ℕ
order_of none = []
order_of (some w) = rpo w

abbrev preds_in : ℕ → Option Walk → List ℕ
preds_in n none = []
preds_in n (some w) = preds_of n w.preds

diamond_order : order_of (compute diamond 5 (0 ∷ [])) ≡ 0 ∷ 2 ∷ 1 ∷ 3 ∷ []
unfolding compute walk_all walk walk_succs rpo contains
diamond_order = refl

diamond_preds : preds_in 3 (compute diamond 5 (0 ∷ [])) ≡ 1 ∷ 2 ∷ []
unfolding compute walk_all walk walk_succs preds_of contains
diamond_preds = refl

diamond_roots : find_roots diamond (0 ∷ 1 ∷ 2 ∷ 3 ∷ []) ≡ 0 ∷ []
unfolding find_roots roots_among erase_all erase
diamond_roots = refl

abbrev nodes : List ℕ
nodes = 0 ∷ 1 ∷ 2 ∷ 3 ∷ []

diamond_within : (x y : ℕ) → In x nodes → In y (diamond x) → In y nodes
diamond_within zero y i (inl e) = inr (inl e)
diamond_within zero y i (inr (inl e)) = inr (inr (inl e))
diamond_within zero y i (inr (inr j)) = absurd j
diamond_within (suc zero) y i (inl e) = inr (inr (inr (inl e)))
diamond_within (suc zero) y i (inr j) = absurd j
diamond_within (suc (suc zero)) y i (inl e) = inr (inr (inr (inl e)))
diamond_within (suc (suc zero)) y i (inr j) = absurd j
diamond_within (suc (suc (suc n))) y i j = absurd j

compute-Reach_example :
    (v : Walk) × (compute diamond 5 (0 ∷ []) ≡ some v)
    × Distinct (rpo v)
    × ((x : ℕ) → In x (rpo v) ↔ ((r : ℕ) × In r (0 ∷ []) × Reach diamond r x))
compute-Reach_example =
    compute-Reach diamond nodes diamond_within 5 (0 ∷ [])
      (λ x i. elim i [ inl e ↦ inl e | inr j ↦ absurd j ]) (omega arith)

-- One edge, from 0 to 1.
abbrev pub edge : ℕ → List ℕ
edge zero = 1 ∷ []
edge (suc n) = []

abbrev pub edge_back : ℕ → List ℕ
edge_back zero = []
edge_back (suc zero) = 0 ∷ []
edge_back (suc (suc n)) = []

abbrev height : ℕ → ℕ
height zero = 1
height (suc n) = 0

edge_falls : (x y : ℕ) → In y (edge x) → height y < height x
edge_falls zero y (inl e) = subst (λ z. height z < 1) (sym e) (omega arith)
edge_falls zero y (inr i) = absurd i
edge_falls (suc n) y i = absurd i

pub edge_both : (i m : ℕ) → In m (edge_back i) ↔ In i (edge m)
edge_both zero zero = (λ j. absurd j, λ j. elim j [ inl e ↦ absurd (omega (arith, e)) | inr k ↦ k ])
edge_both zero (suc m) = (λ j. j, λ j. j)
edge_both (suc zero) zero = (λ j. inl refl, λ j. inl refl)
edge_both (suc zero) (suc m) =
    (λ j. elim j [ inl e ↦ absurd (omega (arith, e)) | inr k ↦ k ], λ j. absurd j)
edge_both (suc (suc i)) zero =
    (λ j. absurd j, λ j. elim j [ inl e ↦ absurd (omega (arith, e)) | inr k ↦ k ])
edge_both (suc (suc i)) (suc m) = (λ j. j, λ j. j)

pub edge_inside : (x y : ℕ) → In y (edge x) → In x (0 ∷ 1 ∷ []) × In y (0 ∷ 1 ∷ [])
edge_inside zero y (inl e) = (inl refl, inr (inl e))
edge_inside zero y (inr i) = absurd i
edge_inside (suc n) y i = absurd i

compute-find_roots_example :
    (v : Walk) × (compute edge 3 (find_roots edge (0 ∷ 1 ∷ [])) ≡ some v)
    × Ordered edge_back [] (rpo v)
    × ((x : ℕ) → In x (0 ∷ 1 ∷ []) → In x (rpo v))
compute-find_roots_example =
    compute-find_roots edge height edge_back (0 ∷ 1 ∷ []) 3 edge_falls edge_both edge_inside
      (omega arith)
