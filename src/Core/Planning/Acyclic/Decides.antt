-- ===== src/Core/Planning/Acyclic/Decides.antt =====
-- `validate_acyclic` decides whether the dependency graph has a cycle.
use resolve.Base.{
  ℕ, suc, ◌<◌, ◌≡◌, ◌≢◌, refl, ap, subst, ◌⊎◌, inl, inr, true, none, some, arith, length, ok, err,
  Bool-cases,
}
use resolve.Base.Canonical.{contains}
use resolve.Core.Types.{CommitmentId}
use resolve.Core.Equality.{identifier_eq}
use resolve.Core.Error.{dependency_cycle}
use resolve.Core.Planning.Acyclic.{
  Graph, Colours, Search, done, cyclic, exhausted, visit_root, visit_all, node_keys, IsEdge,
  Depends, direct, further, validate_acyclic, to_result,
}
use resolve.Core.Planning.Acyclic.Extends.{Extends-refl, done_injective, done_ne_cyclic, not_in_nil}
use resolve.Core.Planning.Acyclic.Sound.{Inv, Visited, each-VisitedAll, visit-Visited}
use resolve.Core.Planning.Acyclic.Complete.{GreyAbove, Cycle, each-cyclic, visit-cyclic}
use resolve.Core.Planning.Acyclic.Fuel.{
  white-le-length, NodeColour-cases, no_dependencies, whites, each-ends, visit-ends,
}

module _ (g : Graph) where
  Inv-start : Inv g (λ _. none)
  Inv-start = record { closed = λ u v b e. cc; clear = λ u b p. cc }

  root-Visited :
      (fuel : ℕ) (n : CommitmentId) (c c' : Colours)
      → visit_root g fuel n c ≡ done c'
      → Inv g c
      → Visited g n c c'
  unfolding visit_root
  root-Visited fuel n c c' h i = elim (NodeColour-cases (c n)) [
    | inl e ↦ visit-Visited g fuel n c c' (rw (e, visit_root) at h) i
    | inr (inl e) ↦ visit-Visited g fuel n c c' (rw (e, visit_root) at h) i
    | inr (inr e) ↦
        subst (Visited g n c) (done_injective (rw (e, visit_root) at h))
          (record { inv = i; extends = Extends-refl c; blackened = e })
  ]

  root-cyclic :
      (fuel : ℕ) (n : CommitmentId) (c : Colours)
      → visit_root g fuel n c ≡ cyclic
      → Inv g c
      → GreyAbove g n c
      → Cycle g
  unfolding visit_root
  root-cyclic fuel n c h i above = elim (NodeColour-cases (c n)) [
    | inl e ↦ visit-cyclic g fuel n c (rw (e, visit_root) at h) i above
    | inr (inl e) ↦ visit-cyclic g fuel n c (rw (e, visit_root) at h) i above
    | inr (inr e) ↦ absurd (done_ne_cyclic (rw (e, visit_root) at h))
  ]

  root-ends :
      (fuel : ℕ) (n : CommitmentId) (c : Colours)
      → Inv g c
      → whites g c < fuel
      → visit_root g fuel n c ≢ exhausted
  unfolding visit_root
  root-ends fuel n c i enough = elim (NodeColour-cases (c n)) [
    | inl e ↦ rw (e, visit_root) (visit-ends g fuel n c i enough)
    | inr (inl e) ↦ rw (e, visit_root) (visit-ends g fuel n c i enough)
    | inr (inr e) ↦ rw (e, visit_root) (λ h. cc)
  ]

  key_of_edge : (u v : CommitmentId) → IsEdge g u v → contains (node_keys g) u ≡ true
  key_of_edge u v e = elim (Bool-cases (contains (node_keys g) u)) [
    | inl key ↦ key
    | inr leaf ↦
        absurd (not_in_nil v (subst (λ ds. contains ds v ≡ true) (no_dependencies g u leaf) e))
  ]

  -- Only a key has dependencies, so a node on a cycle is a key.
  first_key : {u v : CommitmentId} → Depends g u v → contains (node_keys g) u ≡ true
  first_key {u} (direct {v} e) = key_of_edge u v e
  first_key (further p e) = first_key p

  abbrev no_colours : Colours
  no_colours = λ _. none

  abbrev whole : Search
  whole = visit_all g (suc (length g))

  whole-acyclic : (c : Colours) → whole ≡ done c → (u : CommitmentId) → ¬ Depends g u u
  unfolding visit_all
  whole-acyclic c h u p =
      let v =
        each-VisitedAll g (visit_root g (suc (length g))) (root-Visited (suc (length g)))
          (node_keys g) no_colours c h Inv-start in
      v.inv.clear u (v.blackened u (first_key p)) p

  whole-cyclic : whole ≡ cyclic → Cycle g
  unfolding visit_all
  whole-cyclic h =
      each-cyclic g (visit_root g (suc (length g))) (root-Visited (suc (length g))) (GreyAbove g)
        (Cycle g) (root-cyclic (suc (length g))) (node_keys g) no_colours h Inv-start
        λ n d inside x u e. absurd (ground (arith, x.no_new_grey u e))

  whole-ends : whole ≢ exhausted
  unfolding visit_all
  whole-ends =
      each-ends g (visit_root g (suc (length g))) (root-Visited (suc (length g))) (suc (length g))
        (root-ends (suc (length g))) (node_keys g) no_colours Inv-start
        (omega (arith, white-le-length g no_colours))

  verdict_done : (c : Colours) → whole ≡ done c → validate_acyclic g ≡ some (ok tt)
  unfolding validate_acyclic
  verdict_done c h = ap to_result h

  verdict_cyclic : whole ≡ cyclic → validate_acyclic g ≡ some (err dependency_cycle)
  unfolding validate_acyclic
  verdict_cyclic h = ap to_result h

  -- `validate_acyclic` accepts a graph in which no node depends on itself, and refuses one in which
  -- some node does; it always has one of these results, so its recursion ends.
  pub validate_acyclic_decides :
      ((validate_acyclic g ≡ some (ok tt)) × ((u : CommitmentId) → ¬ Depends g u u))
      ⊎ ((validate_acyclic g ≡ some (err dependency_cycle)) × ((u : CommitmentId) × Depends g u u))
  validate_acyclic_decides = go whole refl
    where
      go :
          (s : Search)
          → whole ≡ s
          → ((validate_acyclic g ≡ some (ok tt)) × ((u : CommitmentId) → ¬ Depends g u u))
            ⊎ ((validate_acyclic g ≡ some (err dependency_cycle))
                × ((u : CommitmentId) × Depends g u u))
      go (done c) h = inl (verdict_done c h, whole-acyclic c h)
      go cyclic h = inr (verdict_cyclic h, whole-cyclic h)
      go exhausted h = absurd (whole-ends h)
