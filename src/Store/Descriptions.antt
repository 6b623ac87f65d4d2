-- ===== src/Store/Descriptions.antt =====
-- What an event says of a commitment: `event_commitment_id`, `validate_commitment_event` and
-- `validate_commitment_event_state` of sqlite.rs.
use resolve.Base.{
  Bool, true, false, Option, some, none, String, ensure, is_value, ℕ_discrete, holds,
}
use resolve.Core.Types.{
  CommitmentId, CommitmentState, ready, claimed, working, waiting, recovery_pending,
  completion_proposed, completed, cancelled, abandoned, WaitingReason,
}
use resolve.Core.Equality.{identifier_eq}
use resolve.Core.Events.{
  WorkEvent, goal_created, goal_revised, commitment_created, commitment_activated,
  commitment_claimed, commitment_started, commitment_waiting, commitment_recovery_pending,
  commitment_completion_proposed, commitment_completed, commitment_cancelled, commitment_abandoned,
  heartbeat_accepted, lease_expired, guard_issued, guard_admitted, guard_invalidated,
  guard_reservation_expired, tethers_outcome_recorded, recovery_completed, recovery_released,
  structural_proposal_applied, attention_raised, attention_cleared,
}
use resolve.Store.Error.{Stored, invalid_mutation, message, requires_commitment_event}

abbrev pub event_commitment_id : WorkEvent → Option CommitmentId
event_commitment_id (commitment_created commitment_id goal_id) = some commitment_id
event_commitment_id (commitment_activated commitment_id) = some commitment_id
event_commitment_id (commitment_claimed commitment_id worker_id epoch) = some commitment_id
event_commitment_id (commitment_started commitment_id) = some commitment_id
event_commitment_id (commitment_waiting commitment_id reason) = some commitment_id
event_commitment_id (commitment_recovery_pending commitment_id) = some commitment_id
event_commitment_id (commitment_completion_proposed commitment_id) = some commitment_id
event_commitment_id (commitment_completed commitment_id) = some commitment_id
event_commitment_id (commitment_cancelled commitment_id) = some commitment_id
event_commitment_id (commitment_abandoned commitment_id) = some commitment_id
event_commitment_id (heartbeat_accepted commitment_id worker_id epoch) = some commitment_id
event_commitment_id (lease_expired commitment_id worker_id epoch) = some commitment_id
event_commitment_id (guard_issued guard_id commitment_id epoch) = some commitment_id
event_commitment_id (guard_admitted guard_id commitment_id action_ref digest) = some commitment_id
event_commitment_id (recovery_completed commitment_id action_ref) = some commitment_id
event_commitment_id (recovery_released commitment_id) = some commitment_id
event_commitment_id (attention_raised attention_id commitment_id) = commitment_id
event_commitment_id (structural_proposal_applied target change) = some target
event_commitment_id (goal_created goal_id revision) = none
event_commitment_id (goal_revised goal_id revision) = none
event_commitment_id (guard_invalidated guard_id) = none
event_commitment_id (guard_reservation_expired guard_id) = none
event_commitment_id (tethers_outcome_recorded outcome digest) = none
event_commitment_id (attention_cleared attention_id) = none

unfoldable pub validate_commitment_event : WorkEvent → CommitmentId → String → Stored (Unit {0})
validate_commitment_event event commitment_id operation =
    ensure (is_value (event_commitment_id event) commitment_id)
      (invalid_mutation (requires_commitment_event operation commitment_id.value))

unfoldable pub WaitingReason-discrete : Discrete WaitingReason
WaitingReason-discrete = hlevel ℕ_discrete

abbrev pub waits_on : WaitingReason → CommitmentState → Bool
waits_on reason (waiting candidate) = holds (WaitingReason-discrete candidate reason)
waits_on reason _ = false

-- The state that the event describes.
abbrev pub describes : WorkEvent → CommitmentState → Bool
describes (commitment_activated commitment_id) ready = true
describes (commitment_claimed commitment_id worker_id epoch) claimed = true
describes (commitment_started commitment_id) working = true
describes (commitment_waiting commitment_id reason) state = waits_on reason state
describes (commitment_recovery_pending commitment_id) recovery_pending = true
describes (commitment_completion_proposed commitment_id) completion_proposed = true
describes (commitment_completed commitment_id) completed = true
describes (commitment_cancelled commitment_id) cancelled = true
describes (commitment_abandoned commitment_id) abandoned = true
describes _ _ = false

unfoldable pub validate_commitment_event_state : WorkEvent → CommitmentState → Stored (Unit {0})
validate_commitment_event_state event state =
    ensure (describes event state)
      (invalid_mutation (message "commitment event does not describe the candidate state"))
