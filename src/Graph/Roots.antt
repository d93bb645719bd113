-- ===== src/Graph/Roots.antt =====
-- src/backend/rpo.h: `FindRoots`, and that the roots of a graph without cycles lead to every node.
use autopiper.Prelude.{
  ℕ, zero, suc, ◌+◌, ◌<◌, ◌≤◌, ◌==◌, ◌≡◌, refl, sym, subst, ◌⊎◌, inl, inr, ◌↔◌, List, [], ◌∷◌,
  arith, Bool-cases, ltb, if◌then◌else◌, length, some,
}
use autopiper.Prelude.Member.{In, Ordered}
use autopiper.Graph.{Walk, erase, erase_all, roots_among, find_roots, compute, rpo}
use autopiper.Graph.Visits.{Reach, here, Reach-last, Falls, compute-Ordered}

module _ (succ : ℕ → List ℕ) where
  erase-In : (x y : ℕ) (l : List ℕ) → In y l → (x ≡ y) ⊎ In y (erase succ x l)
  unfolding erase
  erase-In x y [] i = absurd i
  erase-In x y (z ∷ r) (inl q) = elim (Bool-cases (x == z)) [
    | inl e ↦ inl (ground arith)
    | inr e ↦ inr (rw (e, erase) (inl q))
  ]
  erase-In x y (z ∷ r) (inr i) = elim (erase-In x y r i) [
    | inl e ↦ inl e
    | inr j ↦ elim (Bool-cases (x == z)) [
      | inl e ↦ inr (rw (e, erase) j)
      | inr e ↦ inr (rw (e, erase) (inr j))
    ]
  ]

  In-erase : (x y : ℕ) (l : List ℕ) → In y (erase succ x l) → In y l
  unfolding erase
  In-erase x y [] i = i
  In-erase x y (z ∷ r) i = elim (Bool-cases (x == z)) [
    | inl e ↦ inr (In-erase x y r (rw (e, erase) at i))
    | inr e ↦ elim (rw (e, erase) at i) [ inl q ↦ inl q | inr j ↦ inr (In-erase x y r j) ]
  ]

  erase_all-In : (xs : List ℕ) (y : ℕ) (l : List ℕ) → In y l → In y xs ⊎ In y (erase_all succ xs l)
  unfolding erase_all
  erase_all-In [] y l i = inr i
  erase_all-In (x ∷ xs) y l i = elim (erase-In x y l i) [
    | inl e ↦ inl (inl (sym e))
    | inr j ↦ elim (erase_all-In xs y (erase succ x l) j) [ inl k ↦ inl (inr k) | inr k ↦ inr k ]
  ]

  In-erase_all : (xs : List ℕ) (y : ℕ) (l : List ℕ) → In y (erase_all succ xs l) → In y l
  unfolding erase_all
  In-erase_all [] y l i = i
  In-erase_all (x ∷ xs) y l i = In-erase x y l (In-erase_all xs y (erase succ x l) i)

  -- A node is a root, or the successor of another.
  roots_among-In :
      (ns : List ℕ) (y : ℕ) (l : List ℕ)
      → In y l
      → ((n : ℕ) × In n ns × In y (succ n)) ⊎ In y (roots_among succ ns l)
  unfolding roots_among
  roots_among-In [] y l i = inr i
  roots_among-In (n ∷ ns) y l i = elim (erase_all-In (succ n) y l i) [
    | inl j ↦ inl (n, inl refl, j)
    | inr j ↦ elim (roots_among-In ns y (erase_all succ (succ n) l) j) [
      | inl (m, k, e) ↦ inl (m, inr k, e)
      | inr k ↦ inr k
    ]
  ]

  roots_among-within : (ns : List ℕ) (y : ℕ) (l : List ℕ) → In y (roots_among succ ns l) → In y l
  unfolding roots_among
  roots_among-within [] y l i = i
  roots_among-within (n ∷ ns) y l i =
      In-erase_all (succ n) y l (roots_among-within ns y (erase_all succ (succ n) l) i)

  pub find_roots-within : (nodes : List ℕ) (y : ℕ) → In y (find_roots succ nodes) → In y nodes
  unfolding find_roots
  find_roots-within nodes y i = roots_among-within nodes y nodes i

  highest : (ℕ → ℕ) → List ℕ → ℕ
  highest rank [] = 0
  highest rank (x ∷ r) = let rest = highest rank r in if ltb rest (rank x) then rank x else rest

  highest-ge : (rank : ℕ → ℕ) (l : List ℕ) (x : ℕ) → In x l → rank x ≤ highest rank l
  unfolding highest
  highest-ge rank [] x i = absurd i
  highest-ge rank (y ∷ r) x (inl q) =
      subst (λ z. rank z ≤ highest rank (y ∷ r)) (sym q) (ground arith)
  highest-ge rank (y ∷ r) x (inr i) = ground (arith, highest-ge rank r x i)

  -- Going back along edges ends at a root.
  from_root :
      (rank : ℕ → ℕ) (nodes : List ℕ)
      → Falls succ rank
      → (k x : ℕ) → In x nodes
      → highest rank nodes < rank x + k
      → (r : ℕ) × In r (find_roots succ nodes) × Reach succ r x
  unfolding find_roots
  from_root rank nodes f zero x i lt = absurd (omega (arith, highest-ge rank nodes x i))
  from_root rank nodes f (suc k) x i lt = elim (roots_among-In nodes x nodes i) [
    | inl (n, j, e) ↦
        let (r, h, p) = from_root rank nodes f k n j (omega (arith, f n x e)) in
        (r, h, Reach-last succ r n x p e)
    | inr j ↦ (x, j, here)
  ]

  -- The order of `Compute` from the roots that `FindRoots` gives, in a graph without cycles, has every
  -- node, each once, and after the nodes that its edges come from.
  pub compute-find_roots :
      (rank : ℕ → ℕ) (ins : ℕ → List ℕ) (nodes : List ℕ) (fuel : ℕ)
      → Falls succ rank
      → ((i m : ℕ) → In m (ins i) ↔ In i (succ m))
      → ((x y : ℕ) → In y (succ x) → In x nodes × In y nodes)
      → length nodes < fuel
      → (v : Walk) × (compute succ fuel (find_roots succ nodes) ≡ some v)
        × Ordered ins [] (rpo v)
        × ((x : ℕ) → In x nodes → In x (rpo v))
  compute-find_roots rank ins nodes fuel f edges inside lt =
      compute-Ordered succ nodes (λ x y i j. (inside x y j).1) rank ins fuel (find_roots succ nodes)
        f edges (find_roots-within nodes) (λ i m j. (inside i m ((edges m i).0 j)).0)
        (λ x i. from_root rank nodes f (suc (highest rank nodes)) x i (omega arith)) lt
