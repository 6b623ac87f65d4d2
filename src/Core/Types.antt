-- ===== src/Core/Types.antt =====
-- The data of crates/resolve-core/src/domain.rs, guards.rs and planning.rs: identifiers, numbers,
-- states and events. A `u64` is a natural number, and the operations on it check its range.
use resolve.Base.{ℕ, Bool, true, false, not}
use resolve.Base.Int.{ℤ}
use resolve.Base.Text.{Text}

-- One kind for each instance of the macro `string_id!`, and one for `ScopeKey`.
pub data IdKind : Type 0 where
  goal_kind commitment_kind worker_kind action_kind contract_kind human_decision_kind : IdKind
  acceptance_kind attention_kind guard_kind scope_kind : IdKind

pub record Identifier (k : IdKind) : Type 0 where
  pub value : Text

abbrev pub GoalId : Type 0
GoalId = Identifier goal_kind

abbrev pub CommitmentId : Type 0
CommitmentId = Identifier commitment_kind

abbrev pub WorkerId : Type 0
WorkerId = Identifier worker_kind

abbrev pub TethersActionRef : Type 0
TethersActionRef = Identifier action_kind

abbrev pub TethersContractRef : Type 0
TethersContractRef = Identifier contract_kind

abbrev pub HumanDecisionRef : Type 0
HumanDecisionRef = Identifier human_decision_kind

abbrev pub AcceptanceRef : Type 0
AcceptanceRef = Identifier acceptance_kind

abbrev pub AttentionId : Type 0
AttentionId = Identifier attention_kind

abbrev pub GuardId : Type 0
GuardId = Identifier guard_kind

abbrev pub ScopeKey : Type 0
ScopeKey = Identifier scope_kind

pub record TethersPreparationDigest : Type 0 where
  pub digest : Text

abbrev pub GoalRevision : Type 0
GoalRevision = ℕ

abbrev pub ClaimEpoch : Type 0
ClaimEpoch = ℕ

abbrev pub Timestamp : Type 0
Timestamp = ℤ

abbrev pub MonotonicInstant : Type 0
MonotonicInstant = ℕ

abbrev pub MonotonicDuration : Type 0
MonotonicDuration = ℕ

abbrev pub BootGeneration : Type 0
BootGeneration = ℕ

pub data GoalState : Type 0 where
  active goal_completed goal_cancelled goal_abandoned : GoalState

pub data Prerequisite : Type 0 where
  commitment : CommitmentId → Prerequisite
  tethers_verification : TethersContractRef → Prerequisite
  human_decision : HumanDecisionRef → Prerequisite

pub record ClaimLease : Type 0 where
  pub worker_id : WorkerId
  pub epoch : ClaimEpoch
  pub last_heartbeat : MonotonicInstant

pub data WaitingReason : Type 0 where
  on_prerequisite : CommitmentId → WaitingReason
  authority : TethersActionRef → WaitingReason
  on_human_decision : HumanDecisionRef → WaitingReason
  verification : TethersContractRef → WaitingReason
  uncertain_action : TethersActionRef → WaitingReason
  external : Text → WaitingReason

abbrev pub is_uncertain_action : WaitingReason → Bool
is_uncertain_action (uncertain_action a) = true
is_uncertain_action _ = false

pub data CommitmentState : Type 0 where
  proposed ready claimed working : CommitmentState
  waiting : WaitingReason → CommitmentState
  recovery_pending completion_proposed completed cancelled abandoned : CommitmentState

abbrev pub is_terminal : CommitmentState → Bool
is_terminal completed = true
is_terminal cancelled = true
is_terminal abandoned = true
is_terminal _ = false

-- States whose operational meaning includes a live worker claim.
abbrev pub requires_active_claim : CommitmentState → Bool
requires_active_claim claimed = true
requires_active_claim working = true
requires_active_claim completion_proposed = true
requires_active_claim (waiting reason) = not (is_uncertain_action reason)
requires_active_claim _ = false

pub data ResumeTarget : Type 0 where
  to_ready to_working : ResumeTarget

pub data AttentionState : Type 0 where
  open_attention cleared : AttentionState

pub data TethersOutcome : Type 0 where
  succeeded failed uncertain : TethersActionRef → TethersOutcome

abbrev pub action_ref : TethersOutcome → TethersActionRef
action_ref (succeeded a) = a
action_ref (failed a) = a
action_ref (uncertain a) = a

abbrev pub is_uncertain : TethersOutcome → Bool
is_uncertain (uncertain a) = true
is_uncertain _ = false
