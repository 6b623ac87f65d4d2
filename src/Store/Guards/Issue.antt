-- ===== src/Store/Guards/Issue.antt =====
-- `issue_guard` of sqlite.rs: the checks of the claim, the reactive expiry, the search for a lock,
-- and the writes.
use resolve.Base.{
  ℕ, zero, suc, ◌+◌, ◌≡◌, Bool, true, false, List, [], ◌∷◌, ◌++◌, Option, some, none, Result, ok,
  err, ok_or, ensure, reject, is_some, ◌=?◌, ◌≠?◌, ◌&&◌, ◌||◌, not, leb, is_value,
}
use resolve.Base
use resolve.Base.Int.{ℤ, pos}
use resolve.Base.Text.{Text}
use resolve.Core.Types.{
  GuardId, CommitmentId, WorkerId, ClaimEpoch, BootGeneration, MonotonicInstant, MonotonicDuration,
  ScopeKey, CommitmentState, claimed, working, goal_kind,
}
use resolve.Core.Equality.{nat_eq, identifier_eq}
use resolve.Core.Events.{guard_issued}
use resolve.Core.Numbers.{claim_epoch_try_from_raw, instant_try_from_raw, deadline_from}
use resolve.Core.Guards.{ScopeSet, ExecutionGuard, issue, reservation_deadline}
use resolve.Store.Error.{
  Stored, sqlite, constraint_violated, not_found, guard_invalid, claim_mismatch, scope_locked,
  lease_has_expired, invalid_persisted_data, message, not_work_owning, claim_belongs_to,
  claim_epoch_is,
}
use resolve.Store.Sql.{select, insert_unique}
use resolve.Store.Tables.{
  Db, CommitmentRow, ClaimRow, RawGuardColumns, GuardScopeRow, LockRow, reserved, issued_column,
  text_eq, int_eq,
}
use resolve.Store.Codec.{from_domain, parse_id, transpose, checked_i64, decode_commitment_state}
use resolve.Store.Tx.{Tx, ◌>>=◌, ◌>>◌, try, check, return, append_event, current_boot_generation}
use resolve.Store.Guards.{expire_relevant_reservations}

pub record GuardIssueRequest : Type 0 where
  pub guard_id : GuardId
  pub commitment_id : CommitmentId
  pub worker_id : WorkerId
  pub claim_epoch : ClaimEpoch
  pub scope_keys : ScopeSet
  pub boot_generation : BootGeneration
  pub now : MonotonicInstant
  pub guard_ttl : MonotonicDuration
  pub claim_lease_duration : MonotonicDuration

abbrev pub commitment_row : Text → Db → Option CommitmentRow
commitment_row id db = select (λ c. c.commitment_id =? id) db.commitments

abbrev pub claim_row : Text → Db → Option ClaimRow
claim_row id db = select (λ c. c.commitment_id =? id) db.claims

abbrev is_work_owning : CommitmentState → Bool
is_work_owning claimed = true
is_work_owning working = true
is_work_owning _ = false

-- The state of the commitment.
unfoldable pub check_issuable : GuardIssueRequest → CommitmentRow → Stored (Unit {0})
check_issuable request row = Base.◌>>=◌ (decode_commitment_state row.state_json) λ state.
    Base.◌>>◌
      (ensure (is_work_owning state) (guard_invalid request.guard_id.value (not_work_owning state)))
      (reject (is_some row.outstanding_action) (
        guard_invalid request.guard_id.value
          (message "commitment already has an outstanding action")))

-- The worker and the epoch of the claim, and the high-water mark of the commitment.
unfoldable pub check_owner : GuardIssueRequest → ℤ → CommitmentRow → ClaimRow → Stored (Unit {0})
check_owner request claim_epoch_ticks row claim =
    Base.◌>>◌
      (ensure (claim.worker_id =? request.worker_id.value) (
        claim_mismatch request.commitment_id.value
          (claim_belongs_to claim.worker_id request.worker_id)))
      (Base.◌>>◌
        (ensure (claim.claim_epoch =? claim_epoch_ticks) (
          claim_mismatch request.commitment_id.value
            (claim_epoch_is claim.claim_epoch request.claim_epoch)))
        (Base.◌>>=◌ (transpose (λ e. from_domain (claim_epoch_try_from_raw e)) row.last_claim_epoch)
          λ last. ensure (is_value last request.claim_epoch) (
            invalid_persisted_data
              (message "active claim epoch does not equal the durable high-water mark"))))

-- The boot generation of the claim and of the request.
unfoldable pub check_boot : GuardIssueRequest → ClaimRow → Db → Stored (Unit {0})
check_boot request claim db = Base.◌>>=◌ (current_boot_generation db) λ current_boot.
    Base.◌>>=◌ (checked_i64 current_boot "boot generation") λ current_boot_ticks.
      reject
        (claim.boot_generation ≠? current_boot_ticks || request.boot_generation ≠? current_boot)
        (claim_mismatch request.commitment_id.value
          (message "claim and guard request are not from the current boot generation"))

-- The end of the claim's lease, which must lie ahead, and that of the reservation.
unfoldable pub check_lease : GuardIssueRequest → ClaimRow → Stored MonotonicInstant
check_lease request claim =
    Base.◌>>=◌ (from_domain (instant_try_from_raw claim.last_heartbeat)) λ heartbeat.
      Base.◌>>=◌ (from_domain (deadline_from request.claim_lease_duration heartbeat))
        λ lease_deadline.
          Base.◌>>◌
            (reject (leb lease_deadline request.now)
              (lease_has_expired request.commitment_id.value))
            (from_domain (reservation_deadline request.now request.guard_ttl lease_deadline))

abbrev pub lock_on : ScopeKey → Db → Option LockRow
lock_on key db = select (λ l. l.scope_key =? key.value) db.scope_locks

-- The first requested key that is locked refuses the request.
unfoldable pub check_unlocked : List ScopeKey → Db → Stored (Unit {0})
check_unlocked [] db = ok tt
check_unlocked (key ∷ keys) db = elim (lock_on key db) [
  | some l ↦ err (scope_locked key.value l.guard_id)
  | none ↦ check_unlocked keys db
]

abbrev pub issued_row : GuardIssueRequest → ℤ → ℤ → ℤ → RawGuardColumns
issued_row request claim_epoch_ticks boot_ticks reservation_ticks = record {
  guard_id = request.guard_id.value;
  commitment_id = request.commitment_id.value;
  claim_epoch = claim_epoch_ticks;
  boot_generation = boot_ticks;
  state = issued_column;
  action_ref = none;
  outcome_json = none;
  reservation_expires_at = some reservation_ticks;
  state_version = pos 1;
  preparation_digest = none;
}

unfoldable pub insert_guard : RawGuardColumns → Db → Stored Db
insert_guard row db =
    Base.◌>>=◌
      (ok_or (insert_unique (λ g. g.guard_id =? row.guard_id) row db.execution_guards)
        (sqlite constraint_violated))
      λ rows. ok (record db { execution_guards = rows })

unfoldable pub insert_scope : GuardScopeRow → Db → Stored Db
insert_scope row db =
    Base.◌>>=◌
      (ok_or
        (insert_unique
          (λ r.
            r.guard_id =? row.guard_id
            && (Base.◌=?◌ r.ordinal row.ordinal || r.scope_key =? row.scope_key))
          row db.execution_guard_scopes)
        (sqlite constraint_violated))
      λ rows. ok (record db { execution_guard_scopes = rows })

unfoldable pub insert_lock : LockRow → Db → Stored Db
insert_lock row db =
    Base.◌>>=◌
      (ok_or (insert_unique (λ l. l.scope_key =? row.scope_key) row db.scope_locks)
        (sqlite constraint_violated))
      λ rows. ok (record db { scope_locks = rows })

-- A statement that may be refused.
abbrev pub statement : (Db → Stored Db) → Tx (Unit {0})
statement f db = Base.◌>>=◌ (f db) λ db'. ok (tt, db')

abbrev pub reserved_lock : GuardIssueRequest → ℤ → ScopeKey → LockRow
reserved_lock request reservation_ticks key = record {
  scope_key = key.value;
  guard_id = request.guard_id.value;
  commitment_id = request.commitment_id.value;
  lock_state = reserved;
  action_ref = none;
  reservation_expires_at = some reservation_ticks;
}

-- One scope row and one lock for each key.
unfoldable pub reserve_key : GuardIssueRequest → ℤ → ℕ → ScopeKey → Tx (Unit {0})
reserve_key request reservation_ticks ordinal key = do
  statement (
      insert_scope
        (record { guard_id = request.guard_id.value; ordinal = ordinal; scope_key = key.value }))
  statement (insert_lock (reserved_lock request reservation_ticks key))

unfoldable pub reserve : GuardIssueRequest → ℤ → ℕ → List ScopeKey → Tx (Unit {0})
reserve request reservation_ticks ordinal [] = return tt
reserve request reservation_ticks ordinal (key ∷ keys) = do
  reserve_key request reservation_ticks ordinal key
  reserve request reservation_ticks (suc ordinal) keys

-- The reads of the transaction: the goal and the end of the reservation.
unfoldable pub check_request : GuardIssueRequest → ℤ → Db → Stored (Text × MonotonicInstant)
check_request request claim_epoch_ticks db =
    Base.◌>>=◌
      (ok_or (commitment_row request.commitment_id.value db)
        (not_found "commitment" request.commitment_id.value))
      λ row. Base.◌>>◌ (check_issuable request row) (
        Base.◌>>=◌
          (ok_or (claim_row request.commitment_id.value db) (
            claim_mismatch request.commitment_id.value (message "commitment has no current claim")))
          λ claim. Base.◌>>◌ (check_owner request claim_epoch_ticks row claim) (
            Base.◌>>◌ (check_boot request claim db)
              (Base.◌>>=◌ (check_lease request claim) λ expires. ok (row.goal_id, expires))))

-- The reactive expiry and the search for a lock.
unfoldable pub free_scopes : GuardIssueRequest → ℤ → Tx (Unit {0})
free_scopes request now_ticks = do
  expire_relevant_reservations request.scope_keys.keys now_ticks
  check (check_unlocked request.scope_keys.keys)

-- The writes.
unfoldable pub write_guard : GuardIssueRequest → ℤ → ℤ → ℤ → ℤ → Text → Tx (Unit {0})
write_guard request now_ticks claim_epoch_ticks boot_ticks reservation_ticks goal_id = do
  goal ← try (parse_id goal_kind goal_id "goal")
  statement (insert_guard (issued_row request claim_epoch_ticks boot_ticks reservation_ticks))
  reserve request reservation_ticks 0 request.scope_keys.keys
  append_event goal (guard_issued request.guard_id request.commitment_id request.claim_epoch)
      now_ticks

unfoldable pub issue_guard : GuardIssueRequest → Tx ExecutionGuard
issue_guard request = do
  now_ticks ← try (checked_i64 request.now "current monotonic instant")
  claim_epoch_ticks ← try (checked_i64 request.claim_epoch "claim epoch")
  boot_ticks ← try (checked_i64 request.boot_generation "boot generation")
  (goal_id, expires) ← check (check_request request claim_epoch_ticks)
  reservation_ticks ← try (checked_i64 expires "guard reservation expiration")
  free_scopes request now_ticks
  write_guard request now_ticks claim_epoch_ticks boot_ticks reservation_ticks goal_id
  return (
      issue request.guard_id request.commitment_id request.claim_epoch request.scope_keys
        request.boot_generation expires)
