-- ===== src/Core/Planning/Acyclic.antt =====
-- `validate_acyclic` and `visit` of planning.rs: a depth-first search with two colours. The graph is
-- the list of the entries of the `BTreeMap`, in the order of iteration. `visit` takes fuel for its
-- depth; the number of entries is enough.
pub mod Extends
pub mod Sound
pub mod Complete
pub mod Fuel
pub mod Decides
use resolve.Base.{
  ℕ, zero, suc, ◌≡◌, Bool, true, false, List, [], ◌∷◌, Option, some, none, ok, err, ite, ◌≟◌,
  length, map,
}
use resolve.Base.Canonical.{contains}
use resolve.Core.Types.{CommitmentId}
use resolve.Core.Equality.{identifier_eq}
use resolve.Core.Error.{Domain, dependency_cycle}

abbrev pub Graph : Type 0
Graph = List (CommitmentId × List CommitmentId)

pub data NodeColour : Type 0 where
  grey black : NodeColour

abbrev pub Colours : Type 0
Colours = CommitmentId → Option NodeColour

-- `graph.get(node)`, with no dependencies where there is no entry
unfoldable pub dependencies_of : Graph → CommitmentId → List CommitmentId
dependencies_of [] node = []
dependencies_of ((key, ds) ∷ g) node = ite (key ≟ node) ds (dependencies_of g node)

abbrev pub node_keys : Graph → List CommitmentId
node_keys g = map (λ e. e.0) g

-- `colours.insert(node, colour)`
abbrev pub paint : CommitmentId → NodeColour → Colours → Colours
paint node colour colours n = ite (n ≟ node) (some colour) (colours n)

-- A search ends with the colours that it left, with a cycle, or for want of fuel.
pub data Search : Type 0 where
  done : Colours → Search
  cyclic exhausted : Search

abbrev pub and_then : Search → (Colours → Search) → Search
and_then (done colours) k = k colours
and_then cyclic k = cyclic
and_then exhausted k = exhausted

unfoldable pub each : (CommitmentId → Colours → Search) → List CommitmentId → Colours → Search
each step [] colours = done colours
each step (n ∷ ns) colours = elim (step n colours) [
  | done colours' ↦ each step ns colours'
  | cyclic ↦ cyclic
  | exhausted ↦ exhausted
]

abbrev pub blacken : CommitmentId → Search → Search
blacken node s = and_then s (λ colours. done (paint node black colours))

-- The `match` on the node's colour; `deeper` visits a dependency.
unfoldable pub visit_coloured :
    Graph → (CommitmentId → Colours → Search) → CommitmentId → Colours → Option NodeColour → Search
unfolding each
visit_coloured g deeper node colours (some grey) = cyclic
visit_coloured g deeper node colours (some black) = done colours
visit_coloured g deeper node colours none =
    blacken node (each deeper (dependencies_of g node) (paint node grey colours))

unfoldable pub visit : Graph → ℕ → CommitmentId → Colours → Search
visit g zero node colours = exhausted
visit g (suc fuel) node colours = visit_coloured g (visit g fuel) node colours (colours node)

-- The loop over the keys skips black nodes.
unfoldable pub visit_root : Graph → ℕ → CommitmentId → Colours → Search
visit_root g fuel node colours = elim (colours node) [
  | some black ↦ done colours
  | _ ↦ visit g fuel node colours
]

unfoldable pub visit_all : Graph → ℕ → Search
visit_all g fuel = each (visit_root g fuel) (node_keys g) (λ _. none)

-- `none` says that the fuel ran out, which the code has no result for.
abbrev pub to_result : Search → Option (Domain (Unit {0}))
to_result (done colours) = some (ok tt)
to_result cyclic = some (err dependency_cycle)
to_result exhausted = none

unfoldable pub validate_acyclic : Graph → Option (Domain (Unit {0}))
validate_acyclic g = to_result (visit_all g (suc (length g)))

-- `v` is a dependency of `u`.
abbrev pub IsEdge : Graph → CommitmentId → CommitmentId → Type 0
IsEdge g u v = contains (dependencies_of g u) v ≡ true

-- `v` is reached from `u` by one dependency or more.
pub data Depends (g : Graph) (u : CommitmentId) : CommitmentId → Type 0 where
  direct : {v : CommitmentId} → IsEdge g u v → Depends g u v
  further : {v w : CommitmentId} → Depends g u v → IsEdge g v w → Depends g u w
