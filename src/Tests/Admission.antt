-- ===== src/Tests/Admission.antt =====
-- The guard of the previous tests, admitted; and a heartbeat on its claim.
use resolve.Base.{◌=?◌, ◌↔◌, ◌≡◌, refl, true, [], ◌∷◌, ◌++◌, some, none, ok, ℕ_discrete}
use resolve.Base.Int.{pos}
use resolve.Base.Canonical.{canonicalize}
use resolve.Base.Text.{text}
use resolve.Core.Types.{working}
use resolve.Core.Equality.{Identifier-discrete}
use resolve.Core.Ids.{try_new}
use resolve.Core.Numbers.{
  claim_epoch_try_from_raw, boot_try_from_raw, instant_try_from_raw, deadline_from,
}
use resolve.Core.Guards.{ScopeSet-discrete, scope_set_try_new}
use resolve.Core.Events.{guard_admitted, heartbeat_accepted}
use resolve.Store.Sql.{select, select_all, exists, update, count, order_by}
use resolve.Store.Tables.{
  Db, CommitmentRow, ClaimRow, Json, json, respelled, json_value, StoredCommitmentState,
  stored_working, held, admitted_column, Text-discrete, Int-discrete, LockState-discrete,
  GuardStateColumn-discrete, text_eq,
}
use resolve.Store.Codec.{
  checked_i64, parse_id, decode_commitment_state, state_into_domain, next_state_version,
}
use resolve.Store.Codec.RoundTrip.{is_named, decode_commitment_state_iff}
use resolve.Store.GuardRows.{GuardRow, decode_guard_row, decode_guard_state}
use resolve.Store.Tx.{append_event, current_boot_generation, boot_of}
use resolve.Store.Guards.{
  expired_guards, expire_each, expire_relevant_reservations, query_guard, query_guard_scopes,
}
use resolve.Store.Guards.Admit.{
  AdmitRequest, was_admitted, inspect, check_reservation, locks_match, commitment_context,
  check_task, check_fence,
}
use resolve.Store.Guards.Admit.Apply.{is_taken, bind_action, admit_issued, admit_found, admit_guard}
use resolve.Store.Guards.Admit.Promotion.{Admissible}
use resolve.Store.Guards.Admit.Writes.{Promoted}
use resolve.Store.Guards.Admit.Admission.{admit_guard_lem}
use resolve.Store.Claims.{
  Heartbeat, recorded, claimed_row, check_beat, check_time, write_beat, finish_beat,
  record_heartbeat,
}
use resolve.Store.Claims.Beats.{Accepts, record_heartbeat_lem}
use resolve.Tests.Samples.{id, alice, action}
use resolve.Tests.Store.{lib_key, db, lib_lock, guard_row, issued_db, commitment_row', claim_row'}

abbrev pub working_row : CommitmentRow
working_row = record commitment_row' { state_json = json stored_working }

abbrev pub working_db : Db
working_db = record issued_db { commitments = working_row ∷ [] }

abbrev pub admission : AdmitRequest
admission = record {
  guard_id = id "guard-1";
  scope_keys = record { keys = lib_key ∷ [] };
  action_ref = action;
  preparation_digest = none;
  now = 22;
}

abbrev pub admitted_db : Db
admitted_db = record working_db {
  commitments =
      record working_row { outstanding_action = some action.value; state_version = pos 3 } ∷ [];
  execution_guards =
      record guard_row {
        state = admitted_column;
        action_ref = some action.value;
        reservation_expires_at = none;
        state_version = pos 2;
      }
      ∷ [];
  scope_locks =
      record lib_lock {
        lock_state = held;
        action_ref = some action.value;
        reservation_expires_at = none;
      }
      ∷ [];
  work_events =
      working_db.work_events
      ++ record {
        goal_id = text "goal-1";
        event = guard_admitted (id "guard-1") (id "commitment-1") action none;
        created_at = pos 22;
      }
        ∷ [];
}

admitted_run : admit_guard admission working_db ≡ ok (was_admitted, admitted_db)
unfolding is_taken admit_guard admit_found admit_issued bind_action inspect check_reservation
    locks_match commitment_context check_task check_fence query_guard query_guard_scopes
    expired_guards expire_each expire_relevant_reservations decode_guard_row decode_guard_state
    checked_i64 parse_id decode_commitment_state state_into_domain next_state_version append_event
    current_boot_generation boot_of select select_all exists update count order_by scope_set_try_new
    canonicalize claim_epoch_try_from_raw boot_try_from_raw instant_try_from_raw try_new
    Text-discrete Int-discrete LockState-discrete GuardStateColumn-discrete ScopeSet-discrete
    Identifier-discrete ℕ_discrete
admitted_run = refl

admit_guard_lem_example :
    (guard : GuardRow) × (row : CommitmentRow) × (claim : ClaimRow) × (before : Db)
    × (expire_relevant_reservations (lib_key ∷ []) (pos 22) working_db ≡ ok (tt, before))
    × (query_guard_scopes (id "guard-1") working_db ≡ ok (record { keys = lib_key ∷ [] }))
    × Admissible admission guard row claim before
    × Promoted admission guard row admitted_db
admit_guard_lem_example = admit_guard_lem admission working_db admitted_db admitted_run

abbrev beat : Heartbeat
beat = record {
  commitment_id = id "commitment-1";
  worker_id = alice;
  epoch = 1;
  now = 30;
  claim_lease_duration = 30;
}

abbrev beaten_db : Db
beaten_db = record db {
  claims = record claim_row' { last_heartbeat = pos 30 } ∷ [];
  work_events =
      record {
        goal_id = text "goal-1";
        event = heartbeat_accepted (id "commitment-1") alice 1;
        created_at = pos 30;
      }
      ∷ [];
}

beaten_run : record_heartbeat beat db ≡ ok (recorded, beaten_db)
unfolding record_heartbeat finish_beat write_beat check_beat check_time claimed_row checked_i64
    parse_id decode_commitment_state state_into_domain append_event current_boot_generation boot_of
    select update count claim_epoch_try_from_raw boot_try_from_raw instant_try_from_raw
    deadline_from try_new Text-discrete Int-discrete ℕ_discrete
beaten_run = refl

record_heartbeat_lem_example :
    (row : CommitmentRow) × (claim : ClaimRow) × Accepts beat row claim db
    × (select (λ c. c.commitment_id =? beat.commitment_id.value) beaten_db.claims
        ≡ some (record claim { last_heartbeat = pos 30 }))
record_heartbeat_lem_example = record_heartbeat_lem beat recorded db beaten_db beaten_run

abbrev spaced : Json StoredCommitmentState
spaced = respelled (text "{ \"state\": \"Working\" }") stored_working

decode_commitment_state_iff_example :
    (decode_commitment_state spaced ≡ ok working)
    ↔ ((json_value spaced ≡ some stored_working) × (is_named working ≡ true))
decode_commitment_state_iff_example = decode_commitment_state_iff spaced working
