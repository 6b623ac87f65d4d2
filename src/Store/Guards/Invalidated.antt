-- ===== src/Store/Guards/Invalidated.antt =====
-- What `invalidate_guard` of sqlite.rs has checked when it succeeds, and the locks that it leaves.
use resolve.Base.{◌≡◌, ◌<◌, ◌+◌, true, false, some, ok, arith, and_then-ok, ok_or-ok}
use resolve.Base.Int.{ℤ, pos}
use resolve.Base.Text.{Text}
use resolve.Core.Types.{MonotonicInstant, goal_kind}
use resolve.Core.Numbers.{instant_try_from_raw, deadline_from, boot_try_from_raw}
use resolve.Core.Guards.{ScopeSet}
use resolve.Store.Error.{invalid_mutation, message}
use resolve.Store.Sql.{delete}
use resolve.Store.Tables.{boot_value, Db, CommitmentRow, ClaimRow, text_eq, int_eq}
use resolve.Store.Codec.{from_domain, checked_i64, next_state_version, parse_id}
use resolve.Store.GuardRows.{GuardRow}
use resolve.Store.Tx.{
  execute_count, append_event, bind-ok, try-ok, check-ok, checked_i64-then, current_boot_generation,
  boot_of,
}
use resolve.Store.Guards.{
  query_guard, query_guard_scopes, expire_relevant_reservations, is_reserved_by, release_reserved,
}
use resolve.Store.Guards.Admit.{is_issued, is_over}
use resolve.Store.Guards.Invalidate.{
  Invalidation, invalidate_guard, check_issued, check_unexpired, check_claimant, write_invalidated,
  read_claimed, set_invalidated, count_issued,
}
use resolve.Store.Claims.{claimed_row}

-- The guard is issued and its reservation has not run out; the requester holds the claim of its
-- commitment, with a live lease, and both belong to the current boot.
pub record Invalidates (request : Invalidation) (guard : GuardRow) (row : CommitmentRow)
    (claim : ClaimRow) (db : Db) : Type 0 where
  pub last : MonotonicInstant
  pub found : query_guard request.guard_id db ≡ ok guard
  pub issued : is_issued guard.state ≡ true
  pub unexpired : is_over guard.reservation_expires_at request.now ≡ false
  pub is_claimed : claimed_row guard.commitment_id.value db ≡ some (row, claim)
  pub same_worker : claim.worker_id ≡ request.worker_id.value
  pub same_epoch : claim.claim_epoch ≡ pos request.claim_epoch
  pub claim_boot : db.boot_generation ≡ boot_value claim.boot_generation
  pub guard_boot : db.boot_generation ≡ boot_value (pos guard.boot_generation)
  pub last_beat : claim.last_heartbeat ≡ pos last
  pub in_lease : request.now < last + request.claim_lease_duration

check_claimant-ok :
    (request : Invalidation) (guard : GuardRow) (claim : ClaimRow) (db : Db)
    → check_claimant request guard claim db ≡ ok tt
    → (last : MonotonicInstant) × (claim.last_heartbeat ≡ pos last)
      × (request.now < last + request.claim_lease_duration)
      × (claim.worker_id ≡ request.worker_id.value)
      × (claim.claim_epoch ≡ pos request.claim_epoch)
      × (db.boot_generation ≡ boot_value claim.boot_generation)
      × (db.boot_generation ≡ boot_value (pos guard.boot_generation))
unfolding check_claimant instant_try_from_raw deadline_from checked_i64 current_boot_generation
    boot_of boot_try_from_raw
check_claimant-ok request guard claim db e =
    let (last, beat, r1) =
      and_then-ok (from_domain (instant_try_from_raw claim.last_heartbeat)) _ tt e in
    (last, ground arith, ground arith, ground arith, ground arith, ground arith, ground arith)

check_unexpired-ok :
    (request : Invalidation) (guard : GuardRow)
    → check_unexpired request guard ≡ ok tt
    → (is_issued guard.state ≡ true) × (is_over guard.reservation_expires_at request.now ≡ false)
unfolding check_unexpired
check_unexpired-ok request guard e = (ground arith, ground arith)

-- The reservations of the guard are gone, its one row is invalidated in the next version, and the
-- commitments and the claims are as they were.
pub record Retired (request : Invalidation) (guard : GuardRow) (db db' : Db) : Type 0 where
  pub version : ℤ
  pub next : next_state_version guard.state_version ≡ ok version
  pub only : count_issued request.guard_id.value guard.state_version db ≡ 1
  pub guards :
      db'.execution_guards
      ≡ (set_invalidated request.guard_id.value guard.state_version version db).execution_guards
  pub locks : db'.scope_locks ≡ delete (is_reserved_by request.guard_id.value) db.scope_locks
  pub commitments : db'.commitments ≡ db.commitments
  pub claims : db'.claims ≡ db.claims

write_invalidated-Retired :
    (request : Invalidation) (guard : GuardRow) (goal : Text) (ticks : ℤ) (db db' : Db)
    → write_invalidated request guard goal ticks db ≡ ok (tt, db')
    → Retired request guard db db'
unfolding write_invalidated append_event
write_invalidated-Retired request guard goal ticks db db' e =
    let (v, next, r1) = try-ok (next_state_version guard.state_version) _ tt _ db' e in
    let (_, db₁, write, r2) =
      bind-ok
        (execute_count (count_issued request.guard_id.value guard.state_version)
          (set_invalidated request.guard_id.value guard.state_version v) 1
          (invalid_mutation (message "guard changed while invalidating")))
        _ tt (release_reserved request.guard_id.value db) db' r1 in
    let (named, _, r3) = try-ok (parse_id goal_kind goal "goal") _ tt db₁ db' r2 in
    record {
      version = v;
      next = next;
      only = ground arith;
      guards = ground arith;
      locks = ground arith;
      commitments = ground arith;
      claims = ground arith;
    }

-- When invalidate_guard succeeds, there is the database that the reactive expiry of its scope keys
-- leaves, in which the guard was issued and had not run out, and the requester held the claim of its
-- commitment at the requested epoch, in a live lease and in the current boot; the locks left are
-- those of that database but the reservations of the guard, its one row is invalidated in the next
-- version, and the commitments and the claims are as they were.
pub invalidate_guard_lem :
    (request : Invalidation) (db db' : Db)
    → invalidate_guard request db ≡ ok (tt, db')
    → (keys : ScopeSet) × (guard : GuardRow) × (row : CommitmentRow) × (claim : ClaimRow)
      × (db₁ : Db) × (query_guard_scopes request.guard_id db ≡ ok keys)
      × (expire_relevant_reservations keys.keys (pos request.now) db ≡ ok (tt, db₁))
      × Invalidates request guard row claim db₁
      × Retired request guard db₁ db'
unfolding invalidate_guard
invalidate_guard_lem request db db' e =
    let r1 = checked_i64-then request.now "current monotonic instant" _ tt db db' e in
    let (first, _, r2) = check-ok (query_guard request.guard_id) _ tt db db' r1 in
    let (_, _, r3) = try-ok (check_issued request first) _ tt db db' r2 in
    let (keys, scopes, r4) = check-ok (query_guard_scopes request.guard_id) _ tt db db' r3 in
    let (_, db₁, expired, r5) =
      bind-ok (expire_relevant_reservations keys.keys (pos request.now)) _ tt db db' r4 in
    let (guard, found, r6) = check-ok (query_guard request.guard_id) _ tt db₁ db' r5 in
    let (_, fresh, r7) = try-ok (check_unexpired request guard) _ tt db₁ db' r6 in
    let ((row, claim), read, r8) = check-ok (read_claimed guard) _ tt db₁ db' r7 in
    let (_, owned, r9) = check-ok (check_claimant request guard claim) _ tt db₁ db' r8 in
    let (is_new, in_time) = check_unexpired-ok request guard fresh in
    let (last, beat, lease, worker, epoch, claim_boot, guard_boot) =
      check_claimant-ok request guard claim db₁ owned in
    let is_read = ok_or-ok (claimed_row guard.commitment_id.value db₁) _ (row, claim) read in
    (
      keys,
      guard,
      row,
      claim,
      db₁,
      scopes,
      expired,
      record {
        last = last;
        found = found;
        issued = is_new;
        unexpired = in_time;
        is_claimed = is_read;
        same_worker = worker;
        same_epoch = epoch;
        claim_boot = claim_boot;
        guard_boot = guard_boot;
        last_beat = beat;
        in_lease = lease;
      },
      write_invalidated-Retired request guard row.goal_id (pos request.now) db₁ db' r9,
    )
