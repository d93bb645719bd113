-- ===== src/Timing/Cycles/Examples.antt =====
-- src/backend/timing-dag.h: `CheckForCycles` on two small graphs.
use autopiper.Prelude.{ℕ, zero, suc, ◌≡◌, refl, ◌⊎◌, List, [], ◌∷◌, some, true, false, arith}
use autopiper.Prelude.Member.{contains}
use autopiper.Graph.Examples.{edge, edge_inside}
use autopiper.Graph.Visits.{Falls}
use autopiper.Timing.{set}
use autopiper.Timing.Cycles.{check_for_cycles, search_all, search_from, turn, follow, clear}
use autopiper.Timing.Cycles.Decides.{IsCycle, cost, check_for_cycles_decides}

-- Two nodes that lead to one another.
abbrev round : ℕ → List ℕ
round zero = 1 ∷ []
round (suc zero) = 0 ∷ []
round (suc (suc n)) = []

round_is_cycle : check_for_cycles round 10 (0 ∷ 1 ∷ []) ≡ some false
unfolding check_for_cycles search_all search_from turn follow clear contains set
round_is_cycle = refl

check_for_cycles_decides_example :
    ((check_for_cycles edge 4 (0 ∷ 1 ∷ []) ≡ some false) × ((a : ℕ) × (b : ℕ) × IsCycle edge a b))
    ⊎ ((check_for_cycles edge 4 (0 ∷ 1 ∷ []) ≡ some true) × ((rank : ℕ → ℕ) × Falls edge rank))
unfolding cost contains
check_for_cycles_decides_example =
    check_for_cycles_decides edge (0 ∷ 1 ∷ []) 4 edge_inside (omega arith)
