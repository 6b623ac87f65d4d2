-- ===== src/Store/Codec.antt =====
-- The conversions between columns and domain values of sqlite.rs. `serde_json` is represented by the
-- type `Json` of the columns.
pub mod RoundTrip
use resolve.Base.{
  ℕ, zero, suc, ◌+◌, Option, some, none, String, ok, err, map_err, if◌then◌else◌, ltb, ◌>>=◌,
}
use resolve.Base.Int.{ℤ, pos, negsuc, i64_bound, is_positive, is_nonneg, as_u64}
use resolve.Base.Text.{Text}
use resolve.Core.Types.{
  IdKind, Identifier, commitment_kind, action_kind, human_decision_kind, contract_kind,
  CommitmentState, proposed, ready, claimed, working, waiting, recovery_pending,
  completion_proposed, completed, cancelled, abandoned, WaitingReason, on_prerequisite, authority,
  on_human_decision, verification, uncertain_action, external,
}
use resolve.Core.Equality.{identifier_eq}
use resolve.Core.Error.{Domain}
use resolve.Core.Ids.{try_new}
use resolve.Store.Error.{
  Stored, domain, invalid_persisted_data, invalid_mutation, message, does_not_fit, invalid_id,
  sqlite, to_sql_conversion_failure, must_be_positive, must_not_be_negative,
}
use resolve.Store.Tables.{
  StoredWaitingReason, stored_prerequisite, stored_authority, stored_human_decision,
  stored_verification, stored_uncertain_action, stored_external, StoredCommitmentState,
  stored_proposed, stored_ready, stored_claimed, stored_working, stored_waiting,
  stored_recovery_pending, stored_completion_proposed, stored_completed, stored_cancelled,
  stored_abandoned, Json, json, respelled, malformed,
}

-- `From<DomainError>`, as `?` applies it
abbrev pub from_domain {ℓ} : {A : Type ℓ} → Domain A → Stored A
from_domain r = map_err domain r

-- `i64::try_from(value)`
unfoldable pub checked_i64 : ℕ → String → Stored ℤ
checked_i64 value field =
    if ltb value i64_bound then ok (pos value) else err (invalid_mutation (does_not_fit field))

-- `current.checked_add(1)` on `i64`
unfoldable pub next_state_version : ℤ → Stored ℤ
next_state_version (negsuc zero) = ok (pos 0)
next_state_version (negsuc (suc n)) = ok (negsuc n)
next_state_version (pos n) =
    if ltb (n + 1) i64_bound
    then ok (pos (n + 1))
    else err (invalid_mutation (message "state version space is exhausted"))

-- `parse_id(value, kind, T::try_new)`, with the constructor of the identifiers of kind `k`
unfoldable pub parse_id : (k : IdKind) → Text → String → Stored (Identifier k)
parse_id k value kind =
    map_err (λ _. invalid_persisted_data (invalid_id kind value)) (try_new k value)

abbrev pub stored_reason : WaitingReason → StoredWaitingReason
stored_reason (on_prerequisite i) = stored_prerequisite i.value
stored_reason (authority i) = stored_authority i.value
stored_reason (on_human_decision i) = stored_human_decision i.value
stored_reason (verification i) = stored_verification i.value
stored_reason (uncertain_action i) = stored_uncertain_action i.value
stored_reason (external value) = stored_external value

abbrev pub stored_state : CommitmentState → StoredCommitmentState
stored_state proposed = stored_proposed
stored_state ready = stored_ready
stored_state claimed = stored_claimed
stored_state working = stored_working
stored_state (waiting reason) = stored_waiting (stored_reason reason)
stored_state recovery_pending = stored_recovery_pending
stored_state completion_proposed = stored_completion_proposed
stored_state completed = stored_completed
stored_state cancelled = stored_cancelled
stored_state abandoned = stored_abandoned

abbrev pub encode_commitment_state : CommitmentState → Json StoredCommitmentState
encode_commitment_state state = json (stored_state state)

unfoldable pub reason_into_domain : StoredWaitingReason → Stored WaitingReason
unfolding parse_id
reason_into_domain (stored_prerequisite value) = do
  i ← parse_id commitment_kind value "commitment"
  ok (on_prerequisite i)
reason_into_domain (stored_authority value) = do
  i ← parse_id action_kind value "Tethers action"
  ok (authority i)
reason_into_domain (stored_human_decision value) = do
  i ← parse_id human_decision_kind value "human decision"
  ok (on_human_decision i)
reason_into_domain (stored_verification value) = do
  i ← parse_id contract_kind value "Tethers contract"
  ok (verification i)
reason_into_domain (stored_uncertain_action value) = do
  i ← parse_id action_kind value "Tethers action"
  ok (uncertain_action i)
reason_into_domain (stored_external value) = ok (external value)

unfoldable pub state_into_domain : StoredCommitmentState → Stored CommitmentState
unfolding reason_into_domain
state_into_domain stored_proposed = ok proposed
state_into_domain stored_ready = ok ready
state_into_domain stored_claimed = ok claimed
state_into_domain stored_working = ok working
state_into_domain (stored_waiting reason) = do
  reason' ← reason_into_domain reason
  ok (waiting reason')
state_into_domain stored_recovery_pending = ok recovery_pending
state_into_domain stored_completion_proposed = ok completion_proposed
state_into_domain stored_completed = ok completed
state_into_domain stored_cancelled = ok cancelled
state_into_domain stored_abandoned = ok abandoned

unfoldable pub decode_commitment_state : Json StoredCommitmentState → Stored CommitmentState
unfolding state_into_domain
decode_commitment_state (json stored) = state_into_domain stored
decode_commitment_state (respelled text stored) = state_into_domain stored
decode_commitment_state malformed =
    err (invalid_persisted_data (message "invalid commitment state JSON"))

-- `option.map(f).transpose()`
abbrev pub transpose {ℓ κ} :
    {A : Type ℓ} {B : Type κ} → (A → Stored B) → Option A → Stored (Option B)
transpose f none = ok none
transpose f (some a) = f a >>= λ b. ok (some b)

-- A `u64` as a parameter of a statement, which rusqlite refuses past INTEGER.
unfoldable pub to_sql : ℕ → Stored ℤ
to_sql value =
    if ltb value i64_bound then ok (pos value) else err (sqlite to_sql_conversion_failure)

unfoldable pub positive_u64 : ℤ → String → Stored ℕ
positive_u64 value field =
    if is_positive value
    then ok (as_u64 value)
    else err (invalid_persisted_data (must_be_positive field value))

unfoldable pub nonnegative_u64 : ℤ → String → Stored ℕ
nonnegative_u64 value field =
    if is_nonneg value
    then ok (as_u64 value)
    else err (invalid_persisted_data (must_not_be_negative field value))
