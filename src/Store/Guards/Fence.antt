-- ===== src/Store/Guards/Fence.antt =====
-- What `issue_guard` of sqlite.rs has checked of the claim when it issues a guard.
use resolve.Base.{
  and_then-ok, ok_or, ok_or-ok, subst, sym, ℕ, ◌≡◌, refl, some, none, ok, arith, ◌⊎◌, ◌<◌, ◌+◌, min,
}
use resolve.Base.Int.{pos, as_u64}
use resolve.Base.Text.{Text}
use resolve.Core.Types.{MonotonicInstant}
use resolve.Core.Numbers.{
  claim_epoch_try_from_raw, boot_try_from_raw, instant_try_from_raw, deadline_from,
}
use resolve.Core.Guards.{ExecutionGuard, reservation_deadline, issue}
use resolve.Store.Tables.{
  boot_value, Db, CommitmentRow, ClaimRow, json_value, stored_claimed, stored_working,
}
use resolve.Store.Codec.{decode_commitment_state, state_into_domain, checked_i64}
use resolve.Store.Error.{Stored}
use resolve.Store.Tx.{current_boot_generation, boot_of}
use resolve.Store.Guards.Issue.{
  GuardIssueRequest, commitment_row, claim_row, check_issuable, check_owner, check_boot,
  check_lease, check_request, issue_guard,
}
use resolve.Store.Guards.Locks.{issue_guard-run}

-- The requester holds the live claim of the commitment, at the durable high-water epoch and in the
-- current boot, and the commitment is claimed or working with no outstanding action.
pub record HoldsClaim (request : GuardIssueRequest) (db : Db) (expires : MonotonicInstant)
    : Type 0 where
  pub row : CommitmentRow
  pub claim : ClaimRow
  pub heartbeat : ℕ
  pub is_commitment : commitment_row request.commitment_id.value db ≡ some row
  pub is_claim : claim_row request.commitment_id.value db ≡ some claim
  pub work_owning :
      (json_value row.state_json ≡ some stored_claimed)
      ⊎ (json_value row.state_json ≡ some stored_working)
  pub no_action : row.outstanding_action ≡ none
  pub same_worker : claim.worker_id ≡ request.worker_id.value
  pub same_epoch : claim.claim_epoch ≡ pos request.claim_epoch
  pub high_water : row.last_claim_epoch ≡ some (pos request.claim_epoch)
  pub claim_boot : claim.boot_generation ≡ pos request.boot_generation
  pub current_boot : db.boot_generation ≡ boot_value (pos request.boot_generation)
  pub last_beat : claim.last_heartbeat ≡ pos heartbeat
  pub alive : request.now < heartbeat + request.claim_lease_duration
  pub in_lease :
      expires ≡ min (request.now + request.guard_ttl) (heartbeat + request.claim_lease_duration)

check_issuable-ok :
    (request : GuardIssueRequest) (row : CommitmentRow)
    → check_issuable request row ≡ ok tt
    → ((json_value row.state_json ≡ some stored_claimed)
        ⊎ (json_value row.state_json ≡ some stored_working))
      × (row.outstanding_action ≡ none)
unfolding check_issuable decode_commitment_state state_into_domain
check_issuable-ok request row e = ground arith

check_owner-ok :
    (request : GuardIssueRequest) (row : CommitmentRow) (claim : ClaimRow)
    → check_owner request (pos request.claim_epoch) row claim ≡ ok tt
    → (claim.worker_id ≡ request.worker_id.value)
      × (claim.claim_epoch ≡ pos request.claim_epoch)
      × (row.last_claim_epoch ≡ some (pos request.claim_epoch))
unfolding check_owner claim_epoch_try_from_raw
check_owner-ok request row claim e = ground arith

check_boot-ok :
    (request : GuardIssueRequest) (claim : ClaimRow) (db : Db)
    → check_boot request claim db ≡ ok tt
    → (claim.boot_generation ≡ pos request.boot_generation)
      × (db.boot_generation ≡ boot_value (pos request.boot_generation))
unfolding check_boot current_boot_generation boot_of boot_try_from_raw checked_i64
check_boot-ok request claim db e = ground arith

check_lease-ok :
    (request : GuardIssueRequest) (claim : ClaimRow) (expires : MonotonicInstant)
    → check_lease request claim ≡ ok expires
    → (heartbeat : ℕ) × (claim.last_heartbeat ≡ pos heartbeat)
      × (request.now < heartbeat + request.claim_lease_duration)
      × (expires ≡ min (request.now + request.guard_ttl) (heartbeat + request.claim_lease_duration))
unfolding check_lease instant_try_from_raw deadline_from reservation_deadline
check_lease-ok request claim expires e =
    (as_u64 claim.last_heartbeat, ground arith, ground arith, ground arith)

last_of :
    (t t' : Text) (e e' d : MonotonicInstant) (r : Stored (Text × MonotonicInstant))
    → r ≡ ok (t, e)
    → r ≡ ok (t', e')
    → e ≡ d
    → e' ≡ d
last_of t t' e e' d r h h' k = ground arith

pub check_request-ok :
    (request : GuardIssueRequest) (db : Db) (goal_id : Text) (expires : MonotonicInstant)
    → check_request request (pos request.claim_epoch) db ≡ ok (goal_id, expires)
    → HoldsClaim request db expires
unfolding check_request
check_request-ok request db goal_id expires e =
    let (row, row_read, r1) =
      and_then-ok (ok_or (commitment_row request.commitment_id.value db) _) _ (goal_id, expires)
        e in
    let (_, issuable, r2) = and_then-ok (check_issuable request row) _ (goal_id, expires) r1 in
    let (claim, claim_read, r3) =
      and_then-ok (ok_or (claim_row request.commitment_id.value db) _) _ (goal_id, expires) r2 in
    let (_, owner, r4) =
      and_then-ok (check_owner request (pos request.claim_epoch) row claim) _ (goal_id, expires)
        r3 in
    let (_, boot, r5) = and_then-ok (check_boot request claim db) _ (goal_id, expires) r4 in
    let (end, lease, r6) = and_then-ok (check_lease request claim) _ (goal_id, expires) r5 in
    let (state, action) = check_issuable-ok request row issuable in
    let (worker, epoch, mark) = check_owner-ok request row claim owner in
    let (of_claim, current) = check_boot-ok request claim db boot in
    let (heartbeat, beat, alive, deadline) = check_lease-ok request claim end lease in
    record {
      row = row;
      claim = claim;
      heartbeat = heartbeat;
      is_commitment = ok_or-ok _ _ row row_read;
      is_claim = ok_or-ok _ _ claim claim_read;
      work_owning = state;
      no_action = action;
      same_worker = worker;
      same_epoch = epoch;
      high_water = mark;
      claim_boot = of_claim;
      current_boot = current;
      last_beat = beat;
      alive = alive;
      in_lease = last_of row.goal_id goal_id end expires _ (ok (row.goal_id, end)) refl r6 deadline;
    }

-- When a guard is issued, the requester holds the live claim of the commitment in the sense of
-- `HoldsClaim`, and the guard expires at the earlier of its time to live and the end of the lease.
pub issue_guard-HoldsClaim :
    (request : GuardIssueRequest) (guard : ExecutionGuard) (db db' : Db)
    → issue_guard request db ≡ ok (guard, db')
    → HoldsClaim request db guard.reservation_expires_at
unfolding issue
issue_guard-HoldsClaim request guard db db' e =
    let run = issue_guard-run request guard db db' e in
    subst (λ g. HoldsClaim request db g.reservation_expires_at) (sym run.result)
      (check_request-ok request db run.goal_id run.expires run.checked)
