-- ===== src/Store/Claims.antt =====
-- `record_heartbeat` of sqlite.rs.
pub mod Beats
use resolve.Base.{
  ℕ, ◌≡◌, Bool, true, false, List, [], ◌∷◌, Option, some, none, Result, ok, err, ok_or, ensure,
  reject, ◌=?◌, ◌≠?◌, ◌&&◌, ◌||◌, leb, is_value, ◌==◌,
}
use resolve.Base
use resolve.Base.Int.{ℤ, leb_ℤ}
use resolve.Base.Text.{Text}
use resolve.Core.Types.{
  CommitmentId, WorkerId, ClaimEpoch, MonotonicInstant, MonotonicDuration, goal_kind,
  requires_active_claim,
}
use resolve.Core.Equality.{nat_eq}
use resolve.Core.Events.{heartbeat_accepted}
use resolve.Core.Numbers.{claim_epoch_try_from_raw, instant_try_from_raw, deadline_from}
use resolve.Store.Error.{
  Stored, claim_mismatch, lease_has_expired, invalid_persisted_data, invalid_mutation, message,
  heartbeat_not_valid,
}
use resolve.Store.Sql.{select, update, count}
use resolve.Store.Tables.{Db, CommitmentRow, ClaimRow, text_eq, int_eq}
use resolve.Store.Codec.{from_domain, parse_id, transpose, checked_i64, decode_commitment_state}
use resolve.Store.Tx.{
  Tx, ◌>>=◌, ◌>>◌, try, check, query, execute, return, append_event, current_boot_generation,
}

pub data HeartbeatResult : Type 0 where
  recorded already_current : HeartbeatResult

-- The arguments of `record_heartbeat`.
pub record Heartbeat : Type 0 where
  pub commitment_id : CommitmentId
  pub worker_id : WorkerId
  pub epoch : ClaimEpoch
  pub now : MonotonicInstant
  pub claim_lease_duration : MonotonicDuration

-- The row of the JOIN of a commitment and its claim.
unfoldable pub claimed_row : Text → Db → Option (CommitmentRow × ClaimRow)
claimed_row id db = elim (select (λ c. c.commitment_id =? id) db.commitments) [
  | none ↦ none
  | some row ↦ elim (select (λ c. c.commitment_id =? row.commitment_id) db.claims) [
    | none ↦ none
    | some claim ↦ some (row, claim)
  ]
]

-- The fence of a heartbeat: the state, the worker, the epoch, the boot and the high-water mark.
unfoldable pub check_beat : Heartbeat → ℤ → CommitmentRow → ClaimRow → Db → Stored (Unit {0})
check_beat beat epoch_ticks row claim db =
    Base.◌>>=◌ (decode_commitment_state row.state_json) λ state.
      Base.◌>>◌
        (ensure (requires_active_claim state)
          (claim_mismatch beat.commitment_id.value (heartbeat_not_valid state)))
        (Base.◌>>=◌ (current_boot_generation db) λ current_boot.
          Base.◌>>=◌ (checked_i64 current_boot "boot generation") λ current_boot_ticks.
            Base.◌>>◌
              (reject
                (claim.worker_id ≠? beat.worker_id.value
                  || claim.claim_epoch ≠? epoch_ticks
                  || claim.boot_generation ≠? current_boot_ticks)
                (claim_mismatch beat.commitment_id.value
                  (message "heartbeat does not match the current worker, epoch, or boot")))
              (Base.◌>>=◌
                (transpose (λ e. from_domain (claim_epoch_try_from_raw e)) row.last_claim_epoch)
                λ last. ensure (is_value last beat.epoch) (
                  invalid_persisted_data
                    (message "active claim epoch does not equal the durable high-water mark"))))

-- The lease is live and time does not run backwards; the last heartbeat.
unfoldable pub check_time : Heartbeat → ℤ → ClaimRow → Stored MonotonicInstant
check_time beat now_ticks claim =
    Base.◌>>=◌ (from_domain (instant_try_from_raw claim.last_heartbeat)) λ heartbeat.
      Base.◌>>=◌ (from_domain (deadline_from beat.claim_lease_duration heartbeat)) λ lease_deadline.
        Base.◌>>◌
          (reject (leb lease_deadline beat.now) (lease_has_expired beat.commitment_id.value))
          (Base.◌>>◌
            (ensure (leb_ℤ claim.last_heartbeat now_ticks)
              (invalid_mutation (message "claim heartbeat cannot move backwards")))
            (ok heartbeat))

abbrev pub is_beating : Heartbeat → ℤ → ℤ → ClaimRow → Bool
is_beating beat epoch_ticks heartbeat_ticks c =
    c.commitment_id =? beat.commitment_id.value
    && c.worker_id =? beat.worker_id.value
    && c.claim_epoch =? epoch_ticks
    && c.last_heartbeat =? heartbeat_ticks

abbrev pub set_heartbeat : Heartbeat → ℤ → ℤ → ℤ → Db → Db
set_heartbeat beat epoch_ticks heartbeat_ticks now_ticks db = record db {
  claims =
      update (is_beating beat epoch_ticks heartbeat_ticks)
        (λ c. record c { last_heartbeat = now_ticks }) db.claims;
}

unfoldable pub write_beat : Heartbeat → ℤ → ℤ → Text → ℤ → Tx HeartbeatResult
write_beat beat now_ticks epoch_ticks goal heartbeat_ticks = do
  changed ← query (λ db. count (is_beating beat epoch_ticks heartbeat_ticks) db.claims)
  try (ensure (changed == 1) (invalid_mutation (message "claim changed while recording heartbeat")))
  execute (set_heartbeat beat epoch_ticks heartbeat_ticks now_ticks)
  goal_id ← try (parse_id goal_kind goal "goal")
  append_event goal_id (heartbeat_accepted beat.commitment_id beat.worker_id beat.epoch) now_ticks
  return recorded

unfoldable pub finish_beat : Bool → Heartbeat → ℤ → ℤ → Text → ℤ → Tx HeartbeatResult
finish_beat true beat now_ticks epoch_ticks goal heartbeat_ticks = return already_current
finish_beat false beat now_ticks epoch_ticks goal heartbeat_ticks =
    write_beat beat now_ticks epoch_ticks goal heartbeat_ticks

abbrev pub read_claim : Heartbeat → Db → Stored (CommitmentRow × ClaimRow)
read_claim beat db =
    ok_or (claimed_row beat.commitment_id.value db)
      (claim_mismatch beat.commitment_id.value (message "commitment has no current claim"))

unfoldable pub record_heartbeat : Heartbeat → Tx HeartbeatResult
unfolding finish_beat
record_heartbeat beat = do
  now_ticks ← try (checked_i64 beat.now "current monotonic instant")
  epoch_ticks ← try (checked_i64 beat.epoch "claim epoch")
  (row, claim) ← check (read_claim beat)
  check (check_beat beat epoch_ticks row claim)
  heartbeat ← try (check_time beat now_ticks claim)
  finish_beat (beat.now == heartbeat) beat now_ticks epoch_ticks row.goal_id claim.last_heartbeat
