-- ===== src/Core/Planning.antt =====
-- crates/resolve-core/src/planning.rs: the closed structural proposals and their local rules. The
-- search for a dependency cycle stands in `Acyclic`.
pub mod Shape
pub mod Acyclic
use resolve.Base.{
  ℕ, ◌≡◌, Bool, true, false, List, [], ◌∷◌, Result, ok, err, reject, ensure, is_empty, ite, ◌≟◌,
  ◌||◌, ◌>>=◌, ◌>>◌,
}
use resolve.Base.Text.{Text, is_blank}
use resolve.Base.Canonical.{contains}
use resolve.Core.Types.{CommitmentId, ClaimEpoch, Prerequisite, AcceptanceRef, commitment}
use resolve.Core.Equality.{identifier_eq, prerequisite_eq}
use resolve.Core.Error.{Domain, empty_description, invalid_structural_proposal}

pub record NewCommitment : Type 0 where
  pub commitment_id : CommitmentId
  pub description : Text
  pub prerequisites : List Prerequisite
  pub acceptance_refs : List AcceptanceRef

pub data StructuralProposal : Type 0 where
  decompose :
      (target : CommitmentId) (epoch : ClaimEpoch) (children : List NewCommitment)
      (replacement_terminal_id : CommitmentId)
      → StructuralProposal
  add_prerequisite :
      (target : CommitmentId) (prerequisite : Prerequisite) (epoch : ClaimEpoch)
      → StructuralProposal
  abandon_target :
      (target : CommitmentId) (epoch : ClaimEpoch) (rationale : Text) → StructuralProposal

-- `prerequisites[..index].contains(prerequisite)` for some index; `seen` is the part before it.
duplicate_after : List Prerequisite → List Prerequisite → Bool
duplicate_after seen [] = false
duplicate_after seen (p ∷ ps) = contains seen p || duplicate_after (p ∷ seen) ps

unfoldable pub has_duplicate_prerequisites : List Prerequisite → Bool
unfolding duplicate_after
has_duplicate_prerequisites ps = duplicate_after [] ps

unfoldable pub new_commitment_new :
    CommitmentId → Text → List Prerequisite → List AcceptanceRef → Domain NewCommitment
new_commitment_new commitment_id description prerequisites acceptance_refs = do
  reject (is_blank description) empty_description
  reject (has_duplicate_prerequisites prerequisites)
      (invalid_structural_proposal "child prerequisites must be unique")
  ok (record {
    commitment_id = commitment_id;
    description = description;
    prerequisites = prerequisites;
    acceptance_refs = acceptance_refs;
  })

unfoldable pub validate_child_prerequisites : List NewCommitment → Domain (Unit {0})
validate_child_prerequisites [] = ok tt
validate_child_prerequisites (child ∷ children) = do
  reject (has_duplicate_prerequisites child.prerequisites)
      (invalid_structural_proposal "child prerequisites must be unique")
  validate_child_prerequisites children

-- The loop that fills the set of child ids, and refuses a second insertion.
pub insert_ids : List NewCommitment → List CommitmentId → Domain (List CommitmentId)
insert_ids [] ids = ok ids
insert_ids (child ∷ children) ids = do
  reject (contains ids child.commitment_id)
      (invalid_structural_proposal "decomposition child IDs must be unique")
  insert_ids children (child.commitment_id ∷ ids)

abbrev same_id : CommitmentId → CommitmentId → Bool
same_id a b = elim (a ≟ b) [ yes _ ↦ true | no _ ↦ false ]

validate_decomposition : CommitmentId → List NewCommitment → CommitmentId → Domain (Unit {0})
validate_decomposition target children replacement_terminal_id = do
  reject (is_empty children)
      (invalid_structural_proposal "decomposition must contain at least one child")
  ids ← insert_ids children []
  reject (same_id target replacement_terminal_id)
      (invalid_structural_proposal "replacement terminal must be a new child")
  ensure (contains ids replacement_terminal_id)
      (invalid_structural_proposal "replacement terminal must identify one proposed child")
  validate_child_prerequisites children

validate_prerequisite : Prerequisite → Domain (Unit {0})
validate_prerequisite (commitment id) =
    reject (is_blank id.value)
      (invalid_structural_proposal "commitment prerequisite ID must not be empty")
validate_prerequisite _ = ok tt

unfoldable pub validate_proposal_shape : StructuralProposal → Domain (Unit {0})
unfolding validate_decomposition validate_prerequisite
validate_proposal_shape (decompose target epoch children replacement_terminal_id) =
    validate_decomposition target children replacement_terminal_id
validate_proposal_shape (add_prerequisite target prerequisite epoch) =
    validate_prerequisite prerequisite
validate_proposal_shape (abandon_target target epoch rationale) =
    reject (is_blank rationale) (invalid_structural_proposal "abandon rationale must not be empty")
