-- ===== src/Tests/Store.antt =====
-- A database with one claimed commitment, and the guards that are issued on it.
use resolve.Base.{◌≡◌, refl, true, [], ◌∷◌, some, none, ok, ℕ_discrete}
use resolve.Base.Canonical.{contains}
use resolve.Base.Int.{pos}
use resolve.Base.Text.{text}
use resolve.Core.Types.{ScopeKey}
use resolve.Core.Equality.{Identifier-discrete, identifier_eq}
use resolve.Core.Ids.{try_new}
use resolve.Core.Numbers.{
  claim_epoch_try_from_raw, boot_try_from_raw, instant_try_from_raw, deadline_from,
}
use resolve.Core.Guards.{ExecutionGuard, issued, issue, reservation_deadline}
use resolve.Core.Events.{guard_issued}
use resolve.Store.Sql.{select, select_all, exists}
use resolve.Store.Tables.{
  boot_value, Db, CommitmentRow, ClaimRow, LockRow, RawGuardColumns, reserved, issued_column, json,
  stored_claimed, held, Text-discrete, Int-discrete, LockState-discrete,
}
use resolve.Store.Codec.{checked_i64, parse_id, decode_commitment_state, state_into_domain}
use resolve.Store.Tx.{append_event, current_boot_generation, boot_of}
use resolve.Store.Guards.{expired_guards, expire_each, expire_relevant_reservations}
use resolve.Store.Guards.Issue.{
  GuardIssueRequest, check_issuable, check_owner, check_boot, check_lease, check_unlocked,
  check_request, insert_guard, insert_scope, insert_lock, reserve_key, reserve, free_scopes,
  write_guard, issue_guard, lock_on, reserved_lock,
}
use resolve.Store.Guards.Locks.{issue_guard-held}
use resolve.Store.Guards.Fence.{HoldsClaim, issue_guard-HoldsClaim}
use resolve.Store.Guards.Reserved.{issue_guard-locks}
use resolve.Tests.Samples.{id, alice}

abbrev pub lib_key : ScopeKey
lib_key = id "repo:lib"

abbrev pub commitment_row' : CommitmentRow
commitment_row' = record {
  commitment_id = text "commitment-1";
  goal_id = text "goal-1";
  parent_id = none;
  description = text "change";
  state_json = json stored_claimed;
  outstanding_action = none;
  state_version = pos 2;
  last_claim_epoch = some (pos 1);
  replacement_terminal_id = none;
}

abbrev pub claim_row' : ClaimRow
claim_row' = record {
  commitment_id = text "commitment-1";
  worker_id = alice.value;
  claim_epoch = pos 1;
  last_heartbeat = pos 10;
  boot_generation = pos 0;
}

abbrev pub db : Db
db = record {
  boot_generation = boot_value (pos 0);
  goals = [];
  goal_revisions = [];
  commitment_prerequisites = [];
  commitment_acceptance_refs = [];
  attention_items = [];
  commitments = commitment_row' ∷ [];
  claims = claim_row' ∷ [];
  execution_guards = [];
  execution_guard_scopes = [];
  scope_locks = [];
  work_events = [];
}

abbrev request : GuardIssueRequest
request = record {
  guard_id = id "guard-1";
  commitment_id = id "commitment-1";
  worker_id = alice;
  claim_epoch = 1;
  scope_keys = record { keys = lib_key ∷ [] };
  boot_generation = 0;
  now = 20;
  guard_ttl = 5;
  claim_lease_duration = 30;
}

abbrev guard : ExecutionGuard
guard = record {
  guard_id = id "guard-1";
  commitment_id = id "commitment-1";
  claim_epoch = 1;
  scope_set = record { keys = lib_key ∷ [] };
  boot_generation = 0;
  state = issued;
  reservation_expires_at = 25;
}

abbrev pub lib_lock : LockRow
lib_lock = record {
  scope_key = lib_key.value;
  guard_id = text "guard-1";
  commitment_id = text "commitment-1";
  lock_state = reserved;
  action_ref = none;
  reservation_expires_at = some (pos 25);
}

abbrev pub guard_row : RawGuardColumns
guard_row = record {
  guard_id = text "guard-1";
  commitment_id = text "commitment-1";
  claim_epoch = pos 1;
  boot_generation = pos 0;
  state = issued_column;
  action_ref = none;
  outcome_json = none;
  reservation_expires_at = some (pos 25);
  state_version = pos 1;
  preparation_digest = none;
}

abbrev pub issued_db : Db
issued_db = record db {
  execution_guards = guard_row ∷ [];
  execution_guard_scopes =
      record { guard_id = text "guard-1"; ordinal = 0; scope_key = lib_key.value } ∷ [];
  scope_locks = lib_lock ∷ [];
  work_events =
      record {
        goal_id = text "goal-1";
        event = guard_issued (id "guard-1") (id "commitment-1") 1;
        created_at = pos 20;
      }
      ∷ [];
}

issued_run : issue_guard request db ≡ ok (guard, issued_db)
unfolding issue_guard write_guard free_scopes reserve reserve_key insert_guard insert_scope
    insert_lock check_request check_issuable check_owner check_boot check_lease check_unlocked
    expired_guards expire_each expire_relevant_reservations checked_i64 parse_id
    decode_commitment_state state_into_domain append_event current_boot_generation boot_of select
    select_all exists issue reservation_deadline claim_epoch_try_from_raw boot_try_from_raw
    instant_try_from_raw deadline_from try_new Text-discrete Int-discrete LockState-discrete
    Identifier-discrete ℕ_discrete
issued_run = refl

issue_guard-HoldsClaim_example : HoldsClaim request db 25
issue_guard-HoldsClaim_example = issue_guard-HoldsClaim request guard db issued_db issued_run

contains_lib : contains (lib_key ∷ []) lib_key ≡ true
unfolding contains Identifier-discrete ℕ_discrete
contains_lib = refl

issue_guard-locks_example :
    lock_on lib_key issued_db ≡ some (reserved_lock request (pos 25) lib_key)
issue_guard-locks_example =
    issue_guard-locks request guard lib_key db issued_db issued_run contains_lib

abbrev held_lock : LockRow
held_lock = record lib_lock { lock_state = held; reservation_expires_at = none }

abbrev held_db : Db
held_db = record db { scope_locks = held_lock ∷ [] }

held_on_lib : lock_on lib_key held_db ≡ some held_lock
unfolding select Text-discrete ℕ_discrete
held_on_lib = refl

issue_guard-held_example : ¬ (issue_guard request held_db ≡ ok (guard, issued_db))
issue_guard-held_example =
    issue_guard-held request lib_key held_lock held_db contains_lib held_on_lib refl guard issued_db
