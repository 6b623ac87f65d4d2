-- ===== src/Tests/Invalidation.antt =====
-- The invalidation of the guard that the tests of the store issue.
use resolve.Base.{◌≡◌, refl, [], ◌∷◌, ◌++◌, none, ok, ℕ_discrete}
use resolve.Base.Int.{pos}
use resolve.Base.Canonical.{canonicalize}
use resolve.Base.Text.{text}
use resolve.Core.Equality.{Identifier-discrete}
use resolve.Core.Ids.{try_new}
use resolve.Core.Numbers.{
  claim_epoch_try_from_raw, boot_try_from_raw, instant_try_from_raw, deadline_from,
}
use resolve.Core.Guards.{ScopeSet, scope_set_try_new}
use resolve.Core.Events.{guard_invalidated}
use resolve.Store.Sql.{select, select_all, exists, update, delete, count, order_by}
use resolve.Store.Tables.{
  Db, CommitmentRow, ClaimRow, invalidated_column, Text-discrete, Int-discrete, LockState-discrete,
  GuardStateColumn-discrete,
}
use resolve.Store.Codec.{checked_i64, parse_id, next_state_version}
use resolve.Store.GuardRows.{GuardRow, decode_guard_row, decode_guard_state}
use resolve.Store.Tx.{append_event, current_boot_generation, boot_of}
use resolve.Store.Guards.{
  expired_guards, expire_each, expire_relevant_reservations, query_guard, query_guard_scopes,
}
use resolve.Store.Guards.Invalidate.{
  Invalidation, check_issued, check_unexpired, check_claimant, write_invalidated, invalidate_guard,
}
use resolve.Store.Guards.Invalidated.{Invalidates, Retired, invalidate_guard_lem}
use resolve.Store.Claims.{claimed_row}
use resolve.Tests.Samples.{id, alice}
use resolve.Tests.Store.{guard_row, issued_db}

abbrev invalidation : Invalidation
invalidation = record {
  guard_id = id "guard-1";
  worker_id = alice;
  claim_epoch = 1;
  now = 22;
  claim_lease_duration = 30;
}

abbrev invalidated_db : Db
invalidated_db = record issued_db {
  execution_guards =
      record guard_row {
        state = invalidated_column;
        reservation_expires_at = none;
        state_version = pos 2;
      }
      ∷ [];
  scope_locks = [];
  work_events =
      issued_db.work_events
      ++ record {
        goal_id = text "goal-1";
        event = guard_invalidated (id "guard-1");
        created_at = pos 22;
      }
        ∷ [];
}

invalidated_run : invalidate_guard invalidation issued_db ≡ ok (tt, invalidated_db)
unfolding invalidate_guard check_issued check_unexpired check_claimant write_invalidated claimed_row
    query_guard query_guard_scopes expired_guards expire_each expire_relevant_reservations
    decode_guard_row decode_guard_state checked_i64 parse_id next_state_version append_event
    current_boot_generation boot_of select select_all exists update delete count order_by
    scope_set_try_new canonicalize claim_epoch_try_from_raw boot_try_from_raw instant_try_from_raw
    deadline_from try_new Text-discrete Int-discrete LockState-discrete GuardStateColumn-discrete
    Identifier-discrete ℕ_discrete
invalidated_run = refl

invalidate_guard_lem_example :
    (keys : ScopeSet) × (guard : GuardRow) × (row : CommitmentRow) × (claim : ClaimRow)
    × (before : Db) × (query_guard_scopes (id "guard-1") issued_db ≡ ok keys)
    × (expire_relevant_reservations keys.keys (pos 22) issued_db ≡ ok (tt, before))
    × Invalidates invalidation guard row claim before
    × Retired invalidation guard before invalidated_db
invalidate_guard_lem_example =
    invalidate_guard_lem invalidation issued_db invalidated_db invalidated_run
