-- ===== src/Store/Outcomes.antt =====
-- `record_tethers_outcome` of sqlite.rs.
pub mod Record
pub mod Writes
pub mod Recorded
pub mod Recording
pub mod Replay
use mathlib.Core.Option
use resolve.Base.{
  ℕ, ◌≡◌, Bool, true, false, List, Option, some, none, Result, ok, err, ok_or, ensure, reject, ◌=?◌,
  ◌≠?◌, ◌&&◌, is_value, ◌==◌, length, if◌then◌else◌,
}
use resolve.Base
use resolve.Base.Int.{ℤ}
use resolve.Base.Text.{Text}
use resolve.Core.Types.{
  GuardId, GoalId, CommitmentId, TethersActionRef, TethersPreparationDigest, TethersOutcome,
  succeeded, failed, uncertain, action_ref, is_uncertain, CommitmentState, ready, working, waiting,
  recovery_pending, uncertain_action, goal_kind, guard_kind,
}
use resolve.Core.Equality.{identifier_eq, digest_eq, outcome_eq}
use resolve.Core.Events.{tethers_outcome_recorded, commitment_waiting, recovery_completed}
use resolve.Core.Guards.{
  ScopeSet, GuardState, issued, admitted, resolved, uncertain_guard, invalidated,
}
use resolve.Store.Error.{
  Stored, StoreError, not_found, sqlite, query_returned_no_rows,
  outcome_preparation_binding_missing, outcome_preparation_mismatch, outcome_conflict,
  outcome_correlation_mismatch, guard_invalid, invalid_mutation, message, outcome_not_valid,
}
use resolve.Store.Sql.{select, update, delete, count}
use resolve.Store.Tables.{
  Db, CommitmentRow, ClaimRow, RawGuardColumns, LockRow, held, admitted_column, resolved_column,
  uncertain_column, json, StoredTethersOutcome, stored_succeeded, stored_failed, stored_uncertain,
  text_eq, int_eq, lock_state_eq, guard_state_eq,
}
use resolve.Store.Codec.{
  parse_id, next_state_version, decode_commitment_state, encode_commitment_state,
}
use resolve.Store.GuardRows.{GuardRow}
use resolve.Store.Tx.{Tx, ◌>>=◌, ◌>>◌, try, check, execute, execute_count, return, append_event}
use resolve.Store.Guards.{query_guard, query_guard_scopes}

pub data OutcomeRecording : Type 0 where
  was_recorded already_recorded : OutcomeRecording

-- The arguments of `record_tethers_outcome_internal`.
pub record Report : Type 0 where
  pub outcome : TethersOutcome
  pub preparation_digest : Option TethersPreparationDigest
  pub created_at : ℤ

abbrev pub action_of : Report → TethersActionRef
action_of report = action_ref report.outcome

abbrev pub encode_stored_outcome : TethersOutcome → StoredTethersOutcome
encode_stored_outcome (succeeded a) = stored_succeeded a.value
encode_stored_outcome (failed a) = stored_failed a.value
encode_stored_outcome (uncertain a) = stored_uncertain a.value

-- The guard that the action is bound to.
unfoldable pub find_guard : TethersActionRef → Db → Stored GuardId
find_guard action db =
    Base.◌>>=◌
      (ok_or (select (λ g. is_value g.action_ref action.value) db.execution_guards)
        (not_found "Tethers action" action.value))
      λ g. parse_id guard_kind g.guard_id "guard"

unfoldable pub check_binding :
    TethersActionRef
    → Option TethersPreparationDigest
    → Option TethersPreparationDigest
    → Stored (Unit {0})
check_binding action none none = ok tt
check_binding action none (some given) = err (outcome_preparation_binding_missing action.value)
check_binding action (some pinned) none = err (outcome_preparation_mismatch action.value)
check_binding action (some pinned) (some given) =
    ensure (pinned =? given) (outcome_preparation_mismatch action.value)

-- Whether the outcome is there already; `false` is for one to be recorded.
unfoldable pub is_known : Report → GuardId → GuardState → Stored Bool
is_known report guard_id (resolved existing_action existing_outcome) =
    Base.◌>>◌
      (ensure (existing_action =? action_of report && existing_outcome =? report.outcome)
        (outcome_conflict (action_of report).value))
      (ok true)
is_known report guard_id (uncertain_guard existing_action) =
    Base.◌>>◌
      (ensure (existing_action =? action_of report && is_uncertain report.outcome)
        (outcome_conflict (action_of report).value))
      (ok true)
is_known report guard_id (admitted existing_action) =
    Base.◌>>◌
      (ensure (existing_action =? action_of report)
        (guard_invalid guard_id.value (message "outcome requires an admitted guard")))
      (ok false)
is_known report guard_id _ =
    err (guard_invalid guard_id.value (message "outcome requires an admitted guard"))

abbrev pub may_have_outcome : CommitmentState → Bool
may_have_outcome working = true
may_have_outcome recovery_pending = true
may_have_outcome _ = false

-- The commitment has the action outstanding, and its state admits an outcome.
unfoldable pub check_outstanding : Report → GuardId → CommitmentRow → Stored CommitmentState
check_outstanding report guard_id row =
    Base.◌>>◌
      (ensure (is_value row.outstanding_action (action_of report).value)
        (outcome_correlation_mismatch (action_of report).value))
      (Base.◌>>=◌ (decode_commitment_state row.state_json) λ state.
        Base.◌>>◌
          (ensure (may_have_outcome state) (guard_invalid guard_id.value (outcome_not_valid state)))
          (ok state))

abbrev pub read_commitment : GuardRow → Db → Stored CommitmentRow
read_commitment guard db =
    ok_or (select (λ c. c.commitment_id =? guard.commitment_id.value) db.commitments)
      (sqlite query_returned_no_rows)

abbrev pub is_bound_to : Text → ℤ → TethersActionRef → CommitmentRow → Bool
is_bound_to id version action c =
    c.commitment_id =? id
    && c.state_version =? version
    && is_value c.outstanding_action action.value

abbrev pub set_waiting : Text → ℤ → TethersActionRef → ℤ → Db → Db
set_waiting id version action next_version db = record db {
  commitments =
      update (is_bound_to id version action)
        (λ c. record c {
          state_json = encode_commitment_state (waiting (uncertain_action action));
          state_version = next_version;
        })
        db.commitments;
}

abbrev pub set_done : Text → ℤ → TethersActionRef → CommitmentState → ℤ → Db → Db
set_done id version action state next_version db = record db {
  commitments =
      update (is_bound_to id version action)
        (λ c. record c {
          state_json = encode_commitment_state state;
          outstanding_action = none;
          state_version = next_version;
        })
        db.commitments;
}

abbrev pub is_admitted_version : Text → ℤ → RawGuardColumns → Bool
is_admitted_version guard_id version g =
    g.guard_id =? guard_id && g.state =? admitted_column && g.state_version =? version

abbrev pub set_uncertain : Text → ℤ → ℤ → Db → Db
set_uncertain guard_id version next_version db = record db {
  execution_guards =
      update (is_admitted_version guard_id version)
        (λ g. record g {
          state = uncertain_column;
          outcome_json = none;
          reservation_expires_at = none;
          state_version = next_version;
        })
        db.execution_guards;
}

abbrev pub set_resolved : Text → ℤ → TethersOutcome → ℤ → Db → Db
set_resolved guard_id version outcome next_version db = record db {
  execution_guards =
      update (is_admitted_version guard_id version)
        (λ g. record g {
          state = resolved_column;
          outcome_json = some (json (encode_stored_outcome outcome));
          reservation_expires_at = none;
          state_version = next_version;
        })
        db.execution_guards;
}

abbrev pub is_held_lock_of : Text → LockRow → Bool
is_held_lock_of guard_id l = l.guard_id =? guard_id && l.lock_state =? held

abbrev pub release_held : Text → Db → Db
release_held guard_id db = record db {
  scope_locks = delete (is_held_lock_of guard_id) db.scope_locks;
}

abbrev pub drop_claims : Text → Db → Db
drop_claims id db = record db { claims = delete (λ c. c.commitment_id =? id) db.claims }
