-- ===== src/Tests/Protocol.antt =====
-- The admitted guard of the previous tests across later calls: its outcome, reported twice; and the
-- release of a composite whose replacement terminal is completed.
use resolve.Base.{
  ◌≡◌, refl, true, false, [], ◌∷◌, ◌++◌, List, some, none, ok, arith, ℕ_discrete, ◌⊎◌, map,
}
use resolve.Base.Int.{pos}
use resolve.Base.Canonical.{canonicalize}
use resolve.Base.Order.{text_lt}
use resolve.Base.Text.{text}
use resolve.Core.Types.{CommitmentState, GuardId, succeeded, is_uncertain}
use resolve.Core.Equality.{Identifier-discrete, Outcome-discrete}
use resolve.Core.Ids.{try_new}
use resolve.Core.Numbers.{claim_epoch_try_from_raw, boot_try_from_raw, instant_try_from_raw}
use resolve.Core.Guards.{scope_set_try_new}
use resolve.Core.Events.{tethers_outcome_recorded, commitment_completed}
use resolve.Store.Sql.{select, select_all, exists, update, delete, count, order_by, order_by_text}
use resolve.Store.Tables.{
  Db, CommitmentRow, EventRow, LockRow, json, held, stored_completed, stored_recovery_pending,
  stored_succeeded, resolved_column, Text-discrete, Int-discrete, LockState-discrete,
  GuardStateColumn-discrete,
}
use resolve.Store.Codec.{
  checked_i64, parse_id, decode_commitment_state, state_into_domain, next_state_version,
}
use resolve.Store.GuardRows.{GuardRow, decode_guard_row, decode_guard_state}
use resolve.Store.Tx.{append_event}
use resolve.Store.Guards.{query_guard, query_guard_scopes}
use resolve.Store.Guards.Issue.{lock_on}
use resolve.Store.Outcomes.{
  Report, was_recorded, already_recorded, find_guard, check_binding, is_known, check_outstanding,
}
use resolve.Store.Outcomes.Record.{
  record_tethers_outcome, record_unless, record_new, record_by, record_safe, report_recovery,
}
use resolve.Store.Outcomes.Recorded.{Outstanding, Settled, Waits}
use resolve.Store.Outcomes.Recording.{record_tethers_outcome_lem}
use resolve.Store.Outcomes.Replay.{record_tethers_outcome-replay}
use resolve.Store.Protocol.{Call, admitting, reporting, expiring, run}
use resolve.Store.Protocol.Keeps.{identity}
use resolve.Store.Protocol.Runs.{releases}
use resolve.Store.Protocol.Log.{run-Extends, run-identity}
use resolve.Store.Protocol.Locks.{IsUnique, LockRun, view}
use resolve.Store.Protocol.Locks.Refine.{run-Refines}
use resolve.Store.Protocol.Locks.Survive.{run-held}
use resolve.Store.Recovery.Cascade.{
  check_child, parents_of, count_parent, check_kinship, check_barrier, check_no_held,
  complete_unless, complete_parent, complete_parents, cascade_loop,
  complete_composite_barrier_cascade,
}
use resolve.Store.Recovery.Release.{
  recover_without_action, release_by, check_releasable, check_replacement,
}
use resolve.Store.Recovery.Ends.{recover_without_action-ends}
use resolve.Tests.Samples.{id, action}
use resolve.Tests.Store.{lib_key, db, lib_lock, guard_row, commitment_row'}
use resolve.Tests.Admission.{admission, working_row, working_db, admitted_db}

abbrev report : Report
report = record { outcome = succeeded action; preparation_digest = none; created_at = pos 40 }

abbrev resolved_db : Db
resolved_db = record admitted_db {
  commitments = record working_row { state_version = pos 4 } ∷ [];
  execution_guards =
      record guard_row {
        state = resolved_column;
        action_ref = some action.value;
        outcome_json = some (json (stored_succeeded action.value));
        reservation_expires_at = none;
        state_version = pos 3;
      }
      ∷ [];
  scope_locks = [];
  work_events =
      admitted_db.work_events
      ++ record {
        goal_id = text "goal-1";
        event = tethers_outcome_recorded (succeeded action) none;
        created_at = pos 40;
      }
        ∷ [];
}

recorded_run : record_tethers_outcome report admitted_db ≡ ok (was_recorded, resolved_db)
unfolding record_tethers_outcome record_unless record_new record_by record_safe report_recovery
    find_guard check_binding is_known check_outstanding query_guard query_guard_scopes
    decode_guard_row decode_guard_state checked_i64 parse_id decode_commitment_state
    state_into_domain next_state_version append_event select select_all update delete count order_by
    scope_set_try_new canonicalize claim_epoch_try_from_raw boot_try_from_raw instant_try_from_raw
    try_new Text-discrete Int-discrete LockState-discrete GuardStateColumn-discrete
    Identifier-discrete Outcome-discrete ℕ_discrete
recorded_run = refl

record_tethers_outcome_lem_example :
    (guard_id : GuardId) × (guard : GuardRow) × (row : CommitmentRow) × (state : CommitmentState)
    × Outstanding report guard_id guard row state admitted_db
    × (((is_uncertain report.outcome ≡ false)
          × Settled report guard row state admitted_db resolved_db)
        ⊎ ((is_uncertain report.outcome ≡ true) × Waits report guard row admitted_db resolved_db))
record_tethers_outcome_lem_example =
    record_tethers_outcome_lem report admitted_db resolved_db recorded_run

record_tethers_outcome-replay_example :
    record_tethers_outcome report resolved_db ≡ ok (already_recorded, resolved_db)
record_tethers_outcome-replay_example =
    record_tethers_outcome-replay report admitted_db resolved_db recorded_run

abbrev calls : List Call
calls = admitting admission ∷ expiring 200 30 ∷ reporting report ∷ []

run-Extends_example :
    (rows : List EventRow) × ((run calls working_db).work_events ≡ working_db.work_events ++ rows)
run-Extends_example = run-Extends calls working_db

run-identity_example :
    map identity (run calls working_db).commitments ≡ map identity working_db.commitments
run-identity_example = run-identity calls working_db

IsUnique-lib : IsUnique lib_key working_db
unfolding count Text-discrete ℕ_discrete
IsUnique-lib = ground arith

run-Refines_example :
    IsUnique lib_key (run calls working_db)
    × LockRun calls (view lib_key working_db) (view lib_key (run calls working_db))
run-Refines_example = run-Refines lib_key calls working_db IsUnique-lib

abbrev held_lock : LockRow
held_lock = record lib_lock {
  lock_state = held;
  action_ref = some action.value;
  reservation_expires_at = none;
}

held_on_lib : lock_on lib_key admitted_db ≡ some held_lock
unfolding select Text-discrete ℕ_discrete
held_on_lib = refl

run-held_example :
    (lock_on lib_key (run calls admitted_db) ≡ some held_lock)
    ⊎ ((before : List Call) × (call : Call) × (after : List Call) × (calls ≡ before ++ call ∷ after)
        × (releases call (run before admitted_db) ≡ some held_lock.guard_id))
run-held_example = run-held lib_key held_lock calls admitted_db refl held_on_lib

abbrev terminal_row : CommitmentRow
terminal_row = record commitment_row' {
  commitment_id = text "commitment-2";
  parent_id = some (text "commitment-1");
  state_json = json stored_completed;
  last_claim_epoch = none;
}

abbrev composite_row : CommitmentRow
composite_row = record commitment_row' {
  state_json = json stored_recovery_pending;
  replacement_terminal_id = some (text "commitment-2");
}

abbrev composite_db : Db
composite_db = record db { commitments = composite_row ∷ terminal_row ∷ []; claims = [] }

abbrev completed_db : Db
completed_db = record composite_db {
  commitments =
      record composite_row { state_json = json stored_completed; state_version = pos 3 }
      ∷ terminal_row
      ∷ [];
  work_events =
      record {
        goal_id = text "goal-1";
        event = commitment_completed (id "commitment-1");
        created_at = pos 50;
      }
      ∷ [];
}

-- The whole chain is completed.
released_run :
    recover_without_action (id "commitment-1") (pos 50) composite_db ≡ ok (some tt, completed_db)
unfolding recover_without_action release_by check_releasable check_replacement
    complete_composite_barrier_cascade cascade_loop complete_parents complete_parent complete_unless
    check_child parents_of count_parent check_kinship check_barrier check_no_held parse_id try_new
    decode_commitment_state state_into_domain next_state_version append_event select select_all
    exists update delete count order_by_text text_lt Text-discrete Int-discrete LockState-discrete
    Identifier-discrete ℕ_discrete
released_run = refl

recover_without_action-ends_example :
    ¬ (recover_without_action (id "commitment-1") (pos 50) composite_db ≡ ok (none, completed_db))
recover_without_action-ends_example =
    recover_without_action-ends (id "commitment-1") (pos 50) composite_db completed_db
