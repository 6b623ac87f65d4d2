-- ===== src/Store/Claims/Beats.antt =====
-- What `record_heartbeat` of sqlite.rs has checked when it succeeds, and the row that it leaves.
use resolve.Base.{
  ◌≡◌, refl, Bool, true, false, some, ok, arith, ◌<◌, ◌≤◌, ◌+◌, ◌=?◌, ◌==◌, and_then-ok, ok_or-ok,
  Option-cases, inl, inr, subst,
}
use resolve.Base.Int.{ℤ, pos}
use resolve.Base.Text.{Text}
use resolve.Core.Types.{CommitmentState, requires_active_claim, MonotonicInstant}
use resolve.Core.Numbers.{
  claim_epoch_try_from_raw, boot_try_from_raw, instant_try_from_raw, deadline_from,
}
use resolve.Store.Sql.{select}
use resolve.Store.Sql.Select.{select-test, select-update}
use resolve.Store.Tables.{boot_value, Db, CommitmentRow, ClaimRow, text_eq, int_eq}
use resolve.Store.Codec.{checked_i64, decode_commitment_state}
use resolve.Store.Tx.{
  current_boot_generation, boot_of, append_event, try-ok, check-ok, checked_i64-then,
}
use resolve.Store.Claims.{
  Heartbeat, HeartbeatResult, record_heartbeat, finish_beat, write_beat, claimed_row, check_beat,
  check_time, is_beating, read_claim,
}

-- The sender holds the claim, at the durable high-water epoch and in the current boot, in a state
-- that has a claim; the lease is live, and the last heartbeat is not later than this one.
pub record Accepts (beat : Heartbeat) (row : CommitmentRow) (claim : ClaimRow) (db : Db)
    : Type 0 where
  pub state : CommitmentState
  pub last : MonotonicInstant
  pub is_claimed : claimed_row beat.commitment_id.value db ≡ some (row, claim)
  pub decoded : decode_commitment_state row.state_json ≡ ok state
  pub live : requires_active_claim state ≡ true
  pub same_worker : claim.worker_id ≡ beat.worker_id.value
  pub same_epoch : claim.claim_epoch ≡ pos beat.epoch
  pub high_water : row.last_claim_epoch ≡ some (pos beat.epoch)
  pub same_boot : db.boot_generation ≡ boot_value claim.boot_generation
  pub last_beat : claim.last_heartbeat ≡ pos last
  pub forwards : last ≤ beat.now
  pub in_lease : beat.now < last + beat.claim_lease_duration

check_beat-ok :
    (beat : Heartbeat) (row : CommitmentRow) (claim : ClaimRow) (db : Db)
    → check_beat beat (pos beat.epoch) row claim db ≡ ok tt
    → (state : CommitmentState) × (decode_commitment_state row.state_json ≡ ok state)
      × (requires_active_claim state ≡ true)
      × (claim.worker_id ≡ beat.worker_id.value)
      × (claim.claim_epoch ≡ pos beat.epoch)
      × (row.last_claim_epoch ≡ some (pos beat.epoch))
      × (db.boot_generation ≡ boot_value claim.boot_generation)
unfolding check_beat claim_epoch_try_from_raw current_boot_generation boot_of boot_try_from_raw
    checked_i64
check_beat-ok beat row claim db e =
    let (state, decoded, rest) = and_then-ok (decode_commitment_state row.state_json) _ tt e in
    (state, decoded, ground arith, ground arith, ground arith, ground arith, ground arith)

check_time-ok :
    (beat : Heartbeat) (claim : ClaimRow) (heartbeat : MonotonicInstant)
    → check_time beat (pos beat.now) claim ≡ ok heartbeat
    → (claim.last_heartbeat ≡ pos heartbeat)
      × (heartbeat ≤ beat.now)
      × (beat.now < heartbeat + beat.claim_lease_duration)
unfolding check_time instant_try_from_raw deadline_from
check_time-ok beat claim heartbeat e = (ground arith, ground arith, ground arith)

write_beat-row :
    (beat : Heartbeat) (goal : Text) (claim : ClaimRow) (z : ℤ) (result : HeartbeatResult)
    (db db' : Db)
    → select (λ c. c.commitment_id =? beat.commitment_id.value) db.claims ≡ some claim
    → is_beating beat (pos beat.epoch) z claim ≡ true
    → write_beat beat (pos beat.now) (pos beat.epoch) goal z db ≡ ok (result, db')
    → select (λ c. c.commitment_id =? beat.commitment_id.value) db'.claims
      ≡ some (record claim { last_heartbeat = pos beat.now })
unfolding write_beat append_event
write_beat-row beat goal claim z result db db' s h e =
    let row =
      select-update (λ c. c.commitment_id =? beat.commitment_id.value)
        (is_beating beat (pos beat.epoch) z) (λ c. record c { last_heartbeat = pos beat.now }) claim
        db.claims (λ q. refl) s h in
    ground arith

claimed_row-select :
    (id : Text) (row : CommitmentRow) (claim : ClaimRow) (db : Db)
    → claimed_row id db ≡ some (row, claim)
    → select (λ c. c.commitment_id =? id) db.claims ≡ some claim
unfolding claimed_row
claimed_row-select id row claim db e =
    elim (Option-cases (select (λ c. c.commitment_id =? id) db.commitments)) [
      | inl n ↦ absurd (ground arith)
      | inr (r, s) ↦
          let same = select-test (λ c. c.commitment_id =? id) r db.commitments s in
          let here : r.commitment_id ≡ id = ground arith in
          let found : select (λ c. c.commitment_id =? r.commitment_id) db.claims ≡ some claim =
            ground arith in
          subst (λ i. select (λ c. c.commitment_id =? i) db.claims ≡ some claim) here found
    ]

finish_beat-row :
    (beat : Heartbeat) (goal : Text) (claim : ClaimRow) (last : MonotonicInstant)
    (result : HeartbeatResult) (db db' : Db)
    → select (λ c. c.commitment_id =? beat.commitment_id.value) db.claims ≡ some claim
    → claim.worker_id ≡ beat.worker_id.value
    → claim.claim_epoch ≡ pos beat.epoch
    → claim.last_heartbeat ≡ pos last
    → (same : Bool) → (beat.now == last) ≡ same
    → finish_beat same beat (pos beat.now) (pos beat.epoch) goal claim.last_heartbeat db
      ≡ ok (result, db')
    → select (λ c. c.commitment_id =? beat.commitment_id.value) db'.claims
      ≡ some (record claim { last_heartbeat = pos beat.now })
unfolding finish_beat
finish_beat-row beat goal claim last result db db' s w p l true same e = ground arith
finish_beat-row beat goal claim last result db db' s w p l false same e =
    let test = select-test (λ c. c.commitment_id =? beat.commitment_id.value) claim db.claims s in
    let hit : is_beating beat (pos beat.epoch) claim.last_heartbeat claim ≡ true = ground arith in
    write_beat-row beat goal claim claim.last_heartbeat result db db' s hit e

-- When a heartbeat is accepted, its sender holds the claim in the sense of `Accepts`, and the claim
-- row then has the instant of the heartbeat and is otherwise unchanged.
pub record_heartbeat_lem :
    (beat : Heartbeat) (result : HeartbeatResult) (db db' : Db)
    → record_heartbeat beat db ≡ ok (result, db')
    → (row : CommitmentRow) × (claim : ClaimRow) × Accepts beat row claim db
      × (select (λ c. c.commitment_id =? beat.commitment_id.value) db'.claims
          ≡ some (record claim { last_heartbeat = pos beat.now }))
unfolding record_heartbeat
record_heartbeat_lem beat result db db' e =
    let r1 = checked_i64-then beat.now "current monotonic instant" _ result db db' e in
    let r2 = checked_i64-then beat.epoch "claim epoch" _ result db db' r1 in
    let ((row, claim), read, r3) = check-ok (read_claim beat) _ result db db' r2 in
    let (_, fenced, r4) =
      check-ok (check_beat beat (pos beat.epoch) row claim) _ result db db' r3 in
    let (last, timed, r5) = try-ok (check_time beat (pos beat.now) claim) _ result db db' r4 in
    let (state, decoded, live, worker, epoch, mark, boot) =
      check_beat-ok beat row claim db fenced in
    let (stored, forwards, alive) = check_time-ok beat claim last timed in
    let claimed = ok_or-ok (claimed_row beat.commitment_id.value db) _ (row, claim) read in
    let found = claimed_row-select beat.commitment_id.value row claim db claimed in
    (
      row,
      claim,
      record {
        state = state;
        last = last;
        is_claimed = claimed;
        decoded = decoded;
        live = live;
        same_worker = worker;
        same_epoch = epoch;
        high_water = mark;
        same_boot = boot;
        last_beat = stored;
        forwards = forwards;
        in_lease = alive;
      },
      finish_beat-row beat row.goal_id claim last result db db' found worker epoch stored _ refl r5,
    )
