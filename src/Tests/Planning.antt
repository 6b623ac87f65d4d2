-- ===== src/Tests/Planning.antt =====
-- Proposals and dependency graphs.
use resolve.Base.{
  some, ◌≡◌, ◌≢◌, refl, ◌↔◌, ◌⊎◌, [], ◌∷◌, ok, err, is_empty, true, false, ℕ_discrete,
}
use resolve.Base.Text.{text}
use resolve.Base.Canonical.{contains}
use resolve.Core.Types.{CommitmentId, commitment}
use resolve.Core.Equality.{Identifier-discrete, identifier_eq, prerequisite_eq}
use resolve.Core.Error.{dependency_cycle}
use resolve.Core.Planning.{
  NewCommitment, decompose, validate_proposal_shape, has_duplicate_prerequisites,
}
use resolve.Core.Planning.Shape.{
  ids, IsDistinct, DistinctChildren, decompose_shape, has_duplicate_prerequisites_iff,
}
use resolve.Core.Planning.Acyclic.{
  Graph, Depends, validate_acyclic, visit_all, visit_root, visit, visit_coloured, each,
  dependencies_of,
}
use resolve.Core.Planning.Acyclic.Decides.{validate_acyclic_decides}
use resolve.Tests.Samples.{id}

abbrev a : CommitmentId
a = id "a"

abbrev b : CommitmentId
b = id "b"

abbrev c : CommitmentId
c = id "c"

abbrev ring : Graph
ring = (a, b ∷ []) ∷ (b, c ∷ []) ∷ (c, a ∷ []) ∷ []

abbrev chain : Graph
chain = (a, b ∷ c ∷ []) ∷ (b, c ∷ []) ∷ []

runs :
    (validate_acyclic ring ≡ some (err dependency_cycle)) × (validate_acyclic chain ≡ some (ok tt))
unfolding validate_acyclic visit_all visit_root visit visit_coloured each dependencies_of
    Identifier-discrete ℕ_discrete
runs = (refl, refl)

validate_acyclic_decides_example :
    ((validate_acyclic ring ≡ some (ok tt)) × ((u : CommitmentId) → ¬ Depends ring u u))
    ⊎ ((validate_acyclic ring ≡ some (err dependency_cycle))
        × ((u : CommitmentId) × Depends ring u u))
validate_acyclic_decides_example = validate_acyclic_decides ring

abbrev child : NewCommitment
child = record {
  commitment_id = a;
  description = text "a";
  prerequisites = commitment b ∷ [];
  acceptance_refs = [];
}

decompose_shape_example : (validate_proposal_shape (decompose c 1 (child ∷ []) a) ≡ ok tt) ↔ (
    (is_empty (child ∷ []) ≡ false)
    × IsDistinct (ids (child ∷ []))
    × (c ≢ a)
    × (contains (ids (child ∷ [])) a ≡ true)
    × DistinctChildren (child ∷ []))
decompose_shape_example = decompose_shape c a 1 (child ∷ [])

has_duplicate_prerequisites_iff_example :
    (has_duplicate_prerequisites (commitment a ∷ commitment a ∷ []) ≡ false)
    ↔ IsDistinct (commitment a ∷ commitment a ∷ [])
has_duplicate_prerequisites_iff_example =
    has_duplicate_prerequisites_iff (commitment a ∷ commitment a ∷ [])
