-- ===== src/Store/GuardRows.antt =====
-- The rows of `execution_guards` as guards: `decode_guard_state` and `decode_guard_row` of sqlite.rs.
use resolve.Base.{
  Bool, true, false, Option, String, ok, err, map_err, ok_or, reject, is_some, ◌||◌, ◌&&◌, not,
  ◌>>=◌, ◌>>◌, ◌≠?◌,
}
use resolve.Base.Int.{ℤ}
use resolve.Base.Text.{Text}
use resolve.Core.Types.{
  commitment_kind, action_kind, guard_kind, GuardId, CommitmentId, ClaimEpoch, BootGeneration,
  MonotonicInstant, TethersPreparationDigest, TethersOutcome, succeeded, failed, uncertain,
  action_ref,
}
use resolve.Core.Equality.{identifier_eq}
use resolve.Core.Ids.{digest_try_new}
use resolve.Core.Numbers.{claim_epoch_try_from_raw, boot_try_from_raw, instant_try_from_raw}
use resolve.Core.Guards.{GuardState, issued, admitted, resolved, uncertain_guard, invalidated}
use resolve.Store.Error.{Stored, StoreError, serialization, invalid_persisted_data, message}
use resolve.Store.Tables.{
  StoredTethersOutcome, stored_succeeded, stored_failed, stored_uncertain, Json, json, respelled,
  malformed, GuardStateColumn, issued_column, admitted_column, resolved_column, uncertain_column,
  invalidated_column, RawGuardColumns,
}
use resolve.Store.Codec.{from_domain, parse_id, transpose}

unfoldable pub outcome_into_domain : StoredTethersOutcome → Stored TethersOutcome
unfolding parse_id
outcome_into_domain (stored_succeeded value) = do
  i ← parse_id action_kind value "Tethers action"
  ok (succeeded i)
outcome_into_domain (stored_failed value) = do
  i ← parse_id action_kind value "Tethers action"
  ok (failed i)
outcome_into_domain (stored_uncertain value) = do
  i ← parse_id action_kind value "Tethers action"
  ok (uncertain i)

unfoldable pub decode_outcome : Json StoredTethersOutcome → Stored TethersOutcome
unfolding outcome_into_domain
decode_outcome (json stored) = outcome_into_domain stored
decode_outcome (respelled text stored) = outcome_into_domain stored
decode_outcome malformed = err serialization

abbrev invalid_guard_fields : String → StoreError
invalid_guard_fields reason = invalid_persisted_data (message reason)

decode_resolved : Text → Json StoredTethersOutcome → Option ℤ → Stored GuardState
unfolding parse_id decode_outcome
decode_resolved action outcome_json reservation_expires_at = do
  reject (is_some reservation_expires_at)
      (invalid_guard_fields "resolved guard has a reservation expiration")
  outcome ← decode_outcome outcome_json
  action' ← parse_id action_kind action "Tethers action"
  reject (action_ref outcome ≠? action')
      (invalid_guard_fields "resolved guard action and outcome disagree")
  ok (resolved action' outcome)

unfoldable pub decode_guard_state :
    GuardStateColumn
    → Option Text
    → Option (Json StoredTethersOutcome)
    → Option ℤ
    → Stored GuardState
unfolding parse_id decode_resolved
decode_guard_state issued_column action outcome_json reservation_expires_at = do
  reject (is_some action || is_some outcome_json || not (is_some reservation_expires_at))
      (invalid_guard_fields "issued guard has inconsistent lifecycle fields")
  ok issued
decode_guard_state admitted_column action outcome_json reservation_expires_at = do
  action' ← ok_or action (invalid_guard_fields "admitted guard is missing action_ref")
  reject (is_some outcome_json || is_some reservation_expires_at)
      (invalid_guard_fields "admitted guard has inconsistent lifecycle fields")
  a ← parse_id action_kind action' "Tethers action"
  ok (admitted a)
decode_guard_state resolved_column action outcome_json reservation_expires_at = do
  action' ← ok_or action (invalid_guard_fields "resolved guard is missing action_ref")
  outcome ← ok_or outcome_json (invalid_guard_fields "resolved guard is missing outcome")
  decode_resolved action' outcome reservation_expires_at
decode_guard_state uncertain_column action outcome_json reservation_expires_at = do
  action' ← ok_or action (invalid_guard_fields "uncertain guard is missing action_ref")
  reject (is_some outcome_json || is_some reservation_expires_at)
      (invalid_guard_fields "uncertain guard has inconsistent lifecycle fields")
  a ← parse_id action_kind action' "Tethers action"
  ok (uncertain_guard a)
decode_guard_state invalidated_column action outcome_json reservation_expires_at = do
  reject (is_some action || is_some outcome_json || is_some reservation_expires_at)
      (invalid_guard_fields "invalidated guard has lifecycle fields")
  ok invalidated

pub record GuardRow : Type 0 where
  pub guard_id : GuardId
  pub commitment_id : CommitmentId
  pub claim_epoch : ClaimEpoch
  pub boot_generation : BootGeneration
  pub state : GuardState
  pub reservation_expires_at : Option MonotonicInstant
  pub state_version : ℤ
  pub preparation_digest : Option TethersPreparationDigest

abbrev pub is_unadmitted : GuardState → Bool
is_unadmitted issued = true
is_unadmitted invalidated = true
is_unadmitted _ = false

unfoldable pub decode_guard_row : RawGuardColumns → Stored GuardRow
decode_guard_row columns = do
  state ←
      decode_guard_state columns.state columns.action_ref columns.outcome_json
        columns.reservation_expires_at
  preparation_digest ←
      transpose
        (λ d.
          map_err
            (λ e.
              invalid_persisted_data
                (message "Tethers preparation digest identifier must not be empty"))
            (digest_try_new d))
        columns.preparation_digest
  reject (is_some preparation_digest && is_unadmitted state)
      (invalid_persisted_data (message "unadmitted guard has a Tethers preparation binding"))
  guard_id ← parse_id guard_kind columns.guard_id "guard"
  commitment_id ← parse_id commitment_kind columns.commitment_id "commitment"
  claim_epoch ← from_domain (claim_epoch_try_from_raw columns.claim_epoch)
  boot_generation ← from_domain (boot_try_from_raw columns.boot_generation)
  reservation_expires_at ←
      transpose (λ t. from_domain (instant_try_from_raw t)) columns.reservation_expires_at
  ok (record {
    guard_id = guard_id;
    commitment_id = commitment_id;
    claim_epoch = claim_epoch;
    boot_generation = boot_generation;
    state = state;
    reservation_expires_at = reservation_expires_at;
    state_version = columns.state_version;
    preparation_digest = preparation_digest;
  })
