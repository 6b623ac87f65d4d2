-- ===== src/Core/Events.antt =====
-- `WorkEvent` and `StructuralChange` of domain.rs, and `change_for_decomposition` of planning.rs.
use resolve.Base.{List, Option}
use resolve.Base.Text.{Text}
use resolve.Core.Types.{
  GoalId, GoalRevision, CommitmentId, WorkerId, ClaimEpoch, WaitingReason, GuardId,
  TethersActionRef, TethersPreparationDigest, TethersOutcome, AttentionId, Prerequisite,
}

-- Typed immutable evidence for an accepted structural mutation.
pub data StructuralChange : Type 0 where
  decomposed :
      (children : List CommitmentId) (replacement_terminal_id : CommitmentId) → StructuralChange
  prerequisite_added : (prerequisite : Prerequisite) → StructuralChange
  change_abandoned : (rationale : Text) → StructuralChange

pub data WorkEvent : Type 0 where
  goal_created goal_revised : (goal_id : GoalId) (revision : GoalRevision) → WorkEvent
  commitment_created : (commitment_id : CommitmentId) (goal_id : GoalId) → WorkEvent
  commitment_activated : (commitment_id : CommitmentId) → WorkEvent
  commitment_claimed :
      (commitment_id : CommitmentId) (worker_id : WorkerId) (epoch : ClaimEpoch) → WorkEvent
  commitment_started : (commitment_id : CommitmentId) → WorkEvent
  commitment_waiting : (commitment_id : CommitmentId) (reason : WaitingReason) → WorkEvent
  commitment_recovery_pending commitment_completion_proposed :
      (commitment_id : CommitmentId) → WorkEvent
  commitment_completed commitment_cancelled commitment_abandoned :
      (commitment_id : CommitmentId) → WorkEvent
  heartbeat_accepted lease_expired :
      (commitment_id : CommitmentId) (worker_id : WorkerId) (epoch : ClaimEpoch) → WorkEvent
  guard_issued :
      (guard_id : GuardId) (commitment_id : CommitmentId) (claim_epoch : ClaimEpoch) → WorkEvent
  guard_admitted :
      (guard_id : GuardId) (commitment_id : CommitmentId) (action_ref : TethersActionRef)
      (preparation_digest : Option TethersPreparationDigest)
      → WorkEvent
  guard_invalidated guard_reservation_expired : (guard_id : GuardId) → WorkEvent
  tethers_outcome_recorded :
      (outcome : TethersOutcome) (preparation_digest : Option TethersPreparationDigest) → WorkEvent
  recovery_completed : (commitment_id : CommitmentId) (action_ref : TethersActionRef) → WorkEvent
  recovery_released : (commitment_id : CommitmentId) → WorkEvent
  structural_proposal_applied : (target : CommitmentId) (change : StructuralChange) → WorkEvent
  attention_raised : (attention_id : AttentionId) (commitment_id : Option CommitmentId) → WorkEvent
  attention_cleared : (attention_id : AttentionId) → WorkEvent

unfoldable pub change_for_decomposition : List CommitmentId → CommitmentId → StructuralChange
change_for_decomposition children replacement_terminal_id =
    decomposed children replacement_terminal_id
