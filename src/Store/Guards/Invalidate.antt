-- ===== src/Store/Guards/Invalidate.antt =====
-- `invalidate_guard` of sqlite.rs.
use resolve.Base.{
  ◌≡◌, Bool, List, Option, some, none, Result, ok, err, ok_or, ensure, reject, ◌=?◌, ◌≠?◌, ◌&&◌,
  ◌||◌, not, leb, ◌==◌, ℕ,
}
use resolve.Base
use resolve.Base.Int.{ℤ}
use resolve.Base.Text.{Text}
use resolve.Core.Types.{
  GuardId, WorkerId, ClaimEpoch, MonotonicInstant, MonotonicDuration, goal_kind,
}
use resolve.Core.Equality.{nat_eq}
use resolve.Core.Events.{guard_invalidated}
use resolve.Core.Numbers.{instant_try_from_raw, deadline_from}
use resolve.Store.Error.{
  Stored, StoreError, guard_invalid, claim_mismatch, lease_has_expired, invalid_mutation, message,
}
use resolve.Store.Sql.{update, count}
use resolve.Store.Tables.{
  Db, CommitmentRow, ClaimRow, RawGuardColumns, issued_column, invalidated_column, text_eq, int_eq,
  guard_state_eq,
}
use resolve.Store.Codec.{from_domain, parse_id, checked_i64, next_state_version}
use resolve.Store.GuardRows.{GuardRow}
use resolve.Store.Tx.{
  Tx, ◌>>=◌, ◌>>◌, try, check, execute, execute_count, append_event, current_boot_generation,
}
use resolve.Store.Guards.{
  query_guard, query_guard_scopes, expire_relevant_reservations, release_reserved,
}
use resolve.Store.Guards.Admit.{is_issued, is_over}
use resolve.Store.Claims.{claimed_row}

-- The arguments of `invalidate_guard`.
pub record Invalidation : Type 0 where
  pub guard_id : GuardId
  pub worker_id : WorkerId
  pub claim_epoch : ClaimEpoch
  pub now : MonotonicInstant
  pub claim_lease_duration : MonotonicDuration

unfoldable pub check_issued : Invalidation → GuardRow → Stored (Unit {0})
check_issued request guard =
    ensure (is_issued guard.state)
      (guard_invalid request.guard_id.value (message "only an issued guard can be invalidated"))

-- After the expiry the guard is still issued, and its reservation has not run out.
unfoldable pub check_unexpired : Invalidation → GuardRow → Stored (Unit {0})
check_unexpired request guard =
    Base.◌>>◌ (ensure (is_issued guard.state) (lease_has_expired guard.commitment_id.value)) (
      reject (is_over guard.reservation_expires_at request.now)
        (lease_has_expired guard.commitment_id.value))

abbrev pub read_claimed : GuardRow → Db → Stored (CommitmentRow × ClaimRow)
read_claimed guard db =
    ok_or (claimed_row guard.commitment_id.value db)
      (claim_mismatch guard.commitment_id.value (message "commitment has no current claim"))

abbrev not_claimant : GuardRow → StoreError
not_claimant guard =
    claim_mismatch guard.commitment_id.value
      (message "invalidation request does not match the current claim")

-- The lease, the worker, the epoch and the boot generation of the claim.
unfoldable pub check_claimant : Invalidation → GuardRow → ClaimRow → Db → Stored (Unit {0})
check_claimant request guard claim db =
    Base.◌>>=◌ (from_domain (instant_try_from_raw claim.last_heartbeat)) λ heartbeat.
      Base.◌>>=◌ (from_domain (deadline_from request.claim_lease_duration heartbeat)) λ deadline.
        Base.◌>>◌ (reject (leb deadline request.now) (lease_has_expired guard.commitment_id.value))
          (Base.◌>>◌ (ensure (claim.worker_id =? request.worker_id.value) (not_claimant guard)) (
            Base.◌>>=◌ (checked_i64 request.claim_epoch "claim epoch") λ claim_epoch_ticks.
              Base.◌>>◌ (ensure (claim.claim_epoch =? claim_epoch_ticks) (not_claimant guard)) (
                Base.◌>>=◌ (current_boot_generation db) λ current_boot.
                  Base.◌>>=◌ (checked_i64 current_boot "boot generation") λ current_boot_ticks.
                    reject
                      (claim.boot_generation ≠? current_boot_ticks
                        || guard.boot_generation ≠? current_boot)
                      (claim_mismatch guard.commitment_id.value
                        (message "claim and guard are not from the current boot generation")))))

abbrev pub is_issued_version : Text → ℤ → RawGuardColumns → Bool
is_issued_version guard_id version g =
    g.guard_id =? guard_id && g.state =? issued_column && g.state_version =? version

abbrev pub set_invalidated : Text → ℤ → ℤ → Db → Db
set_invalidated guard_id version next_version db = record db {
  execution_guards =
      update (is_issued_version guard_id version)
        (λ g. record g {
          state = invalidated_column;
          reservation_expires_at = none;
          state_version = next_version;
        })
        db.execution_guards;
}

abbrev pub count_issued : Text → ℤ → Db → ℕ
count_issued guard_id version db = count (is_issued_version guard_id version) db.execution_guards

unfoldable pub write_invalidated : Invalidation → GuardRow → Text → ℤ → Tx (Unit {0})
write_invalidated request guard goal now_ticks = do
  execute (release_reserved request.guard_id.value)
  next_version ← try (next_state_version guard.state_version)
  execute_count (count_issued request.guard_id.value guard.state_version)
      (set_invalidated request.guard_id.value guard.state_version next_version) 1
      (invalid_mutation (message "guard changed while invalidating"))
  goal_id ← try (parse_id goal_kind goal "goal")
  append_event goal_id (guard_invalidated request.guard_id) now_ticks

unfoldable pub invalidate_guard : Invalidation → Tx (Unit {0})
invalidate_guard request = do
  now_ticks ← try (checked_i64 request.now "current monotonic instant")
  found ← check (query_guard request.guard_id)
  try (check_issued request found)
  scope_keys ← check (query_guard_scopes request.guard_id)
  expire_relevant_reservations scope_keys.keys now_ticks
  guard ← check (query_guard request.guard_id)
  try (check_unexpired request guard)
  (row, claim) ← check (read_claimed guard)
  check (check_claimant request guard claim)
  write_invalidated request guard row.goal_id now_ticks
