-- ===== src/Core/Error.antt =====
-- crates/resolve-core/src/error.rs: the errors of the domain.
use resolve.Base.{String, Result}
use resolve.Core.Types.{ClaimEpoch, CommitmentState, GoalRevision, TethersActionRef, WorkerId}

pub data DomainError : Type 0 where
  invalid_identifier : (kind : String) → DomainError
  empty_description : DomainError
  invalid_goal_revision : (expected actual : GoalRevision) → DomainError
  invalid_transition : (from to : CommitmentState) → DomainError
  terminal_commitment_immutable : (state : CommitmentState) → DomainError
  commitment_already_claimed : (worker_id : WorkerId) (epoch : ClaimEpoch) → DomainError
  not_claimed : DomainError
  claim_owner_mismatch : (expected actual : WorkerId) → DomainError
  stale_epoch : (expected actual : ClaimEpoch) → DomainError
  epoch_exhausted revision_exhausted invalid_duration : DomainError
  invalid_lease_deadline time_overflow : DomainError
  invalid_numeric_value : (kind : String) → DomainError
  empty_scope_set : DomainError
  recovery_required : (action_ref : TethersActionRef) → DomainError
  invalid_restored_state : (reason : String) → DomainError
  dependency_cycle : DomainError
  invalid_structural_proposal : (reason : String) → DomainError

-- `Result<A, DomainError>`
abbrev pub Domain {ℓ} : Type ℓ → Type ℓ
Domain A = Result DomainError A
