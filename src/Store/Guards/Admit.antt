-- ===== src/Store/Guards/Admit.antt =====
-- `admit_guard` of sqlite.rs: the state of the guard, the reactive expiry, the locks, the claim, and
-- the promotion of the reservation together with the outstanding action.
pub mod Apply
pub mod Promotion
pub mod Writes
pub mod Admission
use resolve.Base.{
  ℕ, ◌≡◌, Bool, true, false, List, [], ◌∷◌, Option, some, none, Result, ok, err, ok_or, ensure,
  reject, is_some, ◌=?◌, ◌≠?◌, ◌&&◌, ◌||◌, not, leb, is_value, if◌then◌else◌, ◌==◌, map, length,
}
use mathlib.Core.Option
use resolve.Base
use resolve.Base.Int.{ℤ}
use resolve.Base.Text.{Text}
use resolve.Core.Types.{
  GuardId, MonotonicInstant, ScopeKey, TethersActionRef, TethersPreparationDigest, CommitmentState,
  working, worker_kind, goal_kind,
}
use resolve.Core.Equality.{nat_eq, identifier_eq, digest_eq}
use resolve.Core.Events.{guard_admitted}
use resolve.Core.Numbers.{claim_epoch_try_from_raw}
use resolve.Core.Guards.{ScopeSet, scope_set_eq, GuardState, issued, admitted}
use resolve.Store.Error.{
  Stored, GuardAdmissionRejection, guard_revoked, guard_already_bound, guard_expired,
  task_not_active, ownership_changed, fence_changed, action_mismatch, preparation_mismatch,
  scope_keys_mismatch, internal_integrity, StoreError, guard_admission_rejected, not_found,
  invalid_persisted_data, invalid_mutation, message,
}
use resolve.Store.Sql.{select, update, count, exists}
use resolve.Store.Tables.{
  Db, CommitmentRow, ClaimRow, RawGuardColumns, held, issued_column, admitted_column, text_eq,
  int_eq, lock_state_eq, guard_state_eq,
}
use resolve.Store.Codec.{
  from_domain, parse_id, transpose, checked_i64, next_state_version, decode_commitment_state,
}
use resolve.Store.GuardRows.{GuardRow}
use resolve.Store.Tx.{
  Tx, ◌>>=◌, ◌>>◌, try, check, query, execute, return, append_event, current_boot_generation,
}
use resolve.Store.Guards.{
  query_guard, query_guard_scopes, expire_relevant_reservations, is_reserved_by,
}

pub data GuardAdmission : Type 0 where
  was_admitted already_admitted : GuardAdmission

-- The arguments of `admit_guard_internal`.
pub record AdmitRequest : Type 0 where
  pub guard_id : GuardId
  pub scope_keys : ScopeSet
  pub action_ref : TethersActionRef
  pub preparation_digest : Option TethersPreparationDigest
  pub now : MonotonicInstant

abbrev pub rejected : GuardAdmissionRejection → StoreError
rejected reason = guard_admission_rejected reason

abbrev pub same_option {ℓ} : {A : Type ℓ} ⦃e : Base.DecEq A⦄ → Option A → Option A → Bool
same_option none none = true
same_option none (some b) = false
same_option (some a) none = false
same_option (some a) (some b) = a =? b

-- What the state that is found says of a request: a repeated one, one to be refused, or a new one.
pub data Found : Type 0 where
  repeated fresh : Found

abbrev pub repeat : AdmitRequest → GuardRow → ScopeSet → TethersActionRef → Stored Found
repeat request guard stored_scope_keys existing =
    Base.◌>>◌ (ensure (existing =? request.action_ref) (rejected guard_already_bound)) (
      Base.◌>>◌
        (ensure (same_option guard.preparation_digest request.preparation_digest)
          (rejected preparation_mismatch))
        (Base.◌>>◌ (ensure (stored_scope_keys =? request.scope_keys) (rejected scope_keys_mismatch))
          (ok repeated)))

abbrev pub found : AdmitRequest → GuardRow → ScopeSet → GuardState → Stored Found
found request guard stored_scope_keys (admitted existing) =
    repeat request guard stored_scope_keys existing
found request guard stored_scope_keys issued = ok fresh
found request guard stored_scope_keys _ = err (rejected guard_revoked)

unfoldable pub inspect : AdmitRequest → GuardRow → ScopeSet → Stored Found
inspect request guard stored_scope_keys = found request guard stored_scope_keys guard.state

abbrev pub is_issued : GuardState → Bool
is_issued issued = true
is_issued _ = false

-- Each key has a lock that the guard holds as reserved.
unfoldable pub locks_match : List ScopeKey → GuardId → Db → Bool
locks_match [] guard_id db = true
locks_match (key ∷ keys) guard_id db =
    exists (λ l. l.scope_key =? key.value && is_reserved_by guard_id.value l) db.scope_locks
    && locks_match keys guard_id db

-- `deadline.is_none_or(|deadline| deadline <= now)`
abbrev pub is_over : Option MonotonicInstant → MonotonicInstant → Bool
is_over none now = true
is_over (some deadline) now = leb deadline now

-- What is checked of the guard after the expiry.
unfoldable pub check_reservation : AdmitRequest → ScopeSet → GuardRow → Db → Stored (Unit {0})
check_reservation request stored_scope_keys guard db =
    Base.◌>>◌ (ensure (is_issued guard.state) (rejected guard_expired)) (
      Base.◌>>◌ (ensure (stored_scope_keys =? request.scope_keys) (rejected scope_keys_mismatch)) (
        Base.◌>>◌
          (ensure (locks_match stored_scope_keys.keys request.guard_id db)
            (rejected internal_integrity))
          (reject (is_over guard.reservation_expires_at request.now) (rejected guard_expired))))

-- The row of the LEFT JOIN with its claim.
pub record CommitmentContext : Type 0 where
  pub commitment : CommitmentRow
  pub claim : Option ClaimRow

unfoldable pub commitment_context : Text → Db → Option CommitmentContext
commitment_context id db = elim (select (λ c. c.commitment_id =? id) db.commitments) [
  | none ↦ none
  | some row ↦ some (record {
    commitment = row;
    claim = select (λ c. c.commitment_id =? row.commitment_id) db.claims;
  })
]

abbrev pub is_working : CommitmentState → Bool
is_working working = true
is_working _ = false

-- The task is active and has no outstanding action.
unfoldable pub check_task : CommitmentRow → Stored (Unit {0})
check_task row = Base.◌>>=◌ (decode_commitment_state row.state_json) λ state.
    Base.◌>>◌ (ensure (is_working state) (rejected task_not_active))
      (reject (is_some row.outstanding_action) (rejected action_mismatch))

-- The claim that the guard was issued under is still there.
unfoldable pub check_fence : GuardRow → CommitmentContext → Db → Stored (Unit {0})
check_fence guard context db =
    Base.◌>>=◌ (ok_or context.claim (rejected ownership_changed)) λ claim.
      Base.◌>>=◌ (checked_i64 guard.claim_epoch "claim epoch") λ claim_epoch_ticks.
        Base.◌>>◌ (ensure (claim.claim_epoch =? claim_epoch_ticks) (rejected fence_changed)) (
          Base.◌>>=◌
            (transpose (λ e. from_domain (claim_epoch_try_from_raw e))
              context.commitment.last_claim_epoch)
            λ last.
              Base.◌>>◌
                (ensure (is_value last guard.claim_epoch) (
                  invalid_persisted_data
                    (message "active claim epoch does not equal the durable high-water mark")))
                (Base.◌>>=◌ (parse_id worker_kind claim.worker_id "worker") λ _.
                  Base.◌>>=◌ (current_boot_generation db) λ current_boot.
                    Base.◌>>=◌ (checked_i64 current_boot "boot generation") λ current_boot_ticks.
                      reject
                        (claim.boot_generation ≠? current_boot_ticks
                          || guard.boot_generation ≠? current_boot)
                        (rejected fence_changed)))
