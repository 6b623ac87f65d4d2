-- ===== src/Store/Error.antt =====
-- crates/resolve-store/src/error.rs. A message that `format!` builds is kept as its parts.
use resolve.Base.{ℕ, String, Result}
use resolve.Base.Int.{ℤ}
use resolve.Base.Text.{Text}
use resolve.Core.Types.{CommitmentState, WorkerId, ClaimEpoch}
use resolve.Core.Error.{DomainError}

pub data GuardAdmissionRejection : Type 0 where
  guard_revoked guard_already_bound guard_expired task_not_active : GuardAdmissionRejection
  ownership_changed fence_changed action_mismatch : GuardAdmissionRejection
  preparation_mismatch scope_keys_mismatch internal_integrity : GuardAdmissionRejection

pub data Message : Type 0 where
  message : String → Message
  not_work_owning heartbeat_not_valid claim_in outcome_not_valid : CommitmentState → Message
  claim_belongs_to : (stored : Text) (worker_id : WorkerId) → Message
  claim_epoch_is : (stored : ℤ) (claim_epoch : ClaimEpoch) → Message
  does_not_fit : (field : String) → Message
  invalid_id : (kind : String) (value : Text) → Message
  requires_goal_event : (operation : String) → Message
  requires_commitment_event : (operation : String) (commitment_id : Text) → Message
  revision_must_be : (expected : ℤ) (received : ℕ) → Message
  must_be_positive must_not_be_negative : (field : String) (value : ℤ) → Message
  unknown_goal_state unknown_attention_state unknown_prerequisite_type : (value : Text) → Message

-- A failure that SQLite reports for a statement.
pub data SqliteError : Type 0 where
  constraint_violated query_returned_no_rows to_sql_conversion_failure : SqliteError

pub data StoreError : Type 0 where
  domain : DomainError → StoreError
  sqlite : SqliteError → StoreError
  serialization : StoreError
  invalid_persisted_data invalid_mutation : Message → StoreError
  not_found : (entity : String) (id : Text) → StoreError
  version_conflict : (entity : String) (id : Text) (expected actual : ℤ) → StoreError
  duplicate_immutable_revision : (goal_id : Text) (revision : ℕ) → StoreError
  unsupported_schema_version : (version : ℤ) → StoreError
  scope_locked : (scope_key guard_id : Text) → StoreError
  guard_invalid : (guard_id : Text) (reason : Message) → StoreError
  claim_mismatch : (commitment_id : Text) (reason : Message) → StoreError
  outstanding_action : (commitment_id action_ref : Text) → StoreError
  outcome_conflict outcome_preparation_mismatch : (action_ref : Text) → StoreError
  outcome_preparation_binding_missing outcome_correlation_mismatch :
      (action_ref : Text) → StoreError
  guard_admission_rejected : GuardAdmissionRejection → StoreError
  recovery_blocked : (commitment_id : Text) (reason : Message) → StoreError
  lease_has_expired : (commitment_id : Text) → StoreError

-- `Result<A, StoreError>`
abbrev pub Stored {ℓ} : Type ℓ → Type ℓ
Stored A = Result StoreError A
