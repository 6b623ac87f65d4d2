-- ===== src/Store/Recovery/Expiry.antt =====
-- `process_expired_claims` of sqlite.rs.
use resolve.Base.{
  ℕ, suc, ◌+◌, ◌≡◌, Bool, true, false, List, [], ◌∷◌, Option, some, none, Result, ok, err, ensure,
  reject, ◌=?◌, ◌≠?◌, ◌&&◌, ◌||◌, not, leb, is_value, is_some, ◌==◌,
}
use resolve.Base
use resolve.Base.Int.{ℤ, pos}
use resolve.Base.Text.{Text}
use resolve.Core.Types.{
  GoalId, ClaimEpoch, MonotonicInstant, MonotonicDuration, CommitmentState, working,
  recovery_pending, requires_active_claim, goal_kind, commitment_kind, worker_kind, guard_kind,
}
use resolve.Core.Equality.{nat_eq}
use resolve.Core.Events.{lease_expired, commitment_recovery_pending, guard_invalidated}
use resolve.Core.Numbers.{claim_epoch_try_from_raw, instant_try_from_raw, deadline_from}
use resolve.Store.Error.{
  Stored, StoreError, recovery_blocked, invalid_persisted_data, invalid_mutation, message, claim_in,
}
use resolve.Store.Sql.{select_all, update, delete, count, order_by_text, select}
use resolve.Store.Tables.{
  Db, CommitmentRow, ClaimRow, RawGuardColumns, issued_column, text_eq, int_eq, guard_state_eq,
}
use resolve.Store.Codec.{
  from_domain, parse_id, transpose, checked_i64, next_state_version, decode_commitment_state,
  encode_commitment_state,
}
use resolve.Store.Tx.{
  Tx, ◌>>=◌, ◌>>◌, try, check, query, execute, execute_count, return, append_event,
  current_boot_generation,
}
use resolve.Store.Guards.{release_reserved}
use resolve.Store.Guards.Invalidate.{set_invalidated}

-- The rows of the JOIN of the commitments, in this order, with their claims.
unfoldable pub claimed_rows_of :
    List CommitmentRow → List ClaimRow → List (CommitmentRow × ClaimRow)
claimed_rows_of [] claims = []
claimed_rows_of (row ∷ rows) claims =
    elim (select (λ c. c.commitment_id =? row.commitment_id) claims) [
      | none ↦ claimed_rows_of rows claims
      | some claim ↦ (row, claim) ∷ claimed_rows_of rows claims
    ]

unfoldable pub claimed_rows : Db → List (CommitmentRow × ClaimRow)
unfolding claimed_rows_of
claimed_rows db = claimed_rows_of (order_by_text (λ c. c.commitment_id) db.commitments) db.claims

abbrev is_working : CommitmentState → Bool
is_working working = true
is_working _ = false

-- An expired claim may stand beside an outstanding action in WORKING only.
unfoldable pub check_action :
    CommitmentRow → CommitmentState → ClaimEpoch → Bool → Stored (ClaimEpoch × Bool)
check_action row state epoch false = ok (epoch, false)
check_action row state epoch true =
    Base.◌>>◌
      (reject (is_some row.outstanding_action && not (is_working state)) (
        invalid_persisted_data
          (message "claim-bearing commitment has an outstanding action outside WORKING")))
      (ok (epoch, true))

-- The state of a commitment whose claim belongs to this boot.
unfoldable pub check_current : ℤ → CommitmentRow → ClaimRow → Stored CommitmentState
check_current current_boot_ticks row claim =
    Base.◌>>◌
      (ensure (claim.boot_generation =? current_boot_ticks)
        (recovery_blocked row.commitment_id (message "claim belongs to an older boot generation")))
      (Base.◌>>=◌ (decode_commitment_state row.state_json) λ state.
        Base.◌>>◌ (ensure (requires_active_claim state) (invalid_persisted_data (claim_in state)))
          (ok state))

-- The epoch of a claim, which is the durable high-water mark, and the deadline of its lease.
unfoldable pub read_lease :
    MonotonicDuration → CommitmentRow → ClaimRow → Stored (ClaimEpoch × MonotonicInstant)
read_lease claim_lease_duration row claim =
    Base.◌>>=◌ (from_domain (claim_epoch_try_from_raw claim.claim_epoch)) λ epoch.
      Base.◌>>=◌ (transpose (λ e. from_domain (claim_epoch_try_from_raw e)) row.last_claim_epoch)
        λ last.
          Base.◌>>◌
            (ensure (is_value last epoch) (
              invalid_persisted_data
                (message "active claim epoch does not equal the durable high-water mark")))
            (Base.◌>>=◌ (from_domain (instant_try_from_raw claim.last_heartbeat)) λ heartbeat.
              Base.◌>>=◌ (from_domain (deadline_from claim_lease_duration heartbeat))
                λ deadline. ok (epoch, deadline))

-- Whether the lease of a claim has run out, with its epoch.
unfoldable pub check_claim :
    MonotonicInstant → MonotonicDuration → ℤ → CommitmentRow → ClaimRow → Stored (ClaimEpoch × Bool)
check_claim now claim_lease_duration current_boot_ticks row claim =
    Base.◌>>=◌ (check_current current_boot_ticks row claim) λ state.
      Base.◌>>=◌ (read_lease claim_lease_duration row claim)
        λ (epoch, deadline). check_action row state epoch (leb deadline now)

-- One `UPDATE … SET state_json, state_version WHERE commitment_id AND state_version`.
abbrev pub is_at : Text → ℤ → CommitmentRow → Bool
is_at id version c = c.commitment_id =? id && c.state_version =? version

abbrev pub set_state : Text → ℤ → CommitmentState → ℤ → Db → Db
set_state id version state next_version db = record db {
  commitments =
      update (is_at id version)
        (λ c. record c { state_json = encode_commitment_state state; state_version = next_version })
        db.commitments;
}

abbrev pub change_state : Text → ℤ → CommitmentState → ℤ → StoreError → Tx (Unit {0})
change_state id version state next_version error =
    execute_count (λ db. count (is_at id version) db.commitments)
      (set_state id version state next_version) 1 error

abbrev pub is_claim_of : Text → ℤ → ClaimRow → Bool
is_claim_of id epoch c = c.commitment_id =? id && c.claim_epoch =? epoch

abbrev pub drop_claim : Text → ℤ → Db → Db
drop_claim id epoch db = record db { claims = delete (is_claim_of id epoch) db.claims }

abbrev pub is_issued_for : Text → ℤ → RawGuardColumns → Bool
is_issued_for id epoch g =
    g.commitment_id =? id && g.claim_epoch =? epoch && g.state =? issued_column

unfoldable pub invalidate_each : GoalId → ℤ → List RawGuardColumns → Tx (Unit {0})
invalidate_each goal_id now_ticks [] = return tt
invalidate_each goal_id now_ticks (g ∷ gs) = do
  execute (release_reserved g.guard_id)
  next_version ← try (next_state_version g.state_version)
  execute (set_invalidated g.guard_id g.state_version next_version)
  guard_id ← try (parse_id guard_kind g.guard_id "guard")
  append_event goal_id (guard_invalidated guard_id) now_ticks
  invalidate_each goal_id now_ticks gs

-- The writes for one expired claim.
unfoldable pub expire_claim : ℤ → CommitmentRow → ClaimRow → ClaimEpoch → Tx (Unit {0})
expire_claim now_ticks row claim epoch = do
  next_version ← try (next_state_version row.state_version)
  change_state row.commitment_id row.state_version recovery_pending next_version
      (invalid_mutation (message "commitment changed while expiring claim"))
  execute (drop_claim row.commitment_id (pos epoch))
  commitment_id ← try (parse_id commitment_kind row.commitment_id "commitment")
  goal_id ← try (parse_id goal_kind row.goal_id "goal")
  worker_id ← try (parse_id worker_kind claim.worker_id "worker")
  append_event goal_id (lease_expired commitment_id worker_id epoch) now_ticks
  append_event goal_id (commitment_recovery_pending commitment_id) now_ticks
  issued ←
      query (λ db. select_all (is_issued_for row.commitment_id (pos epoch)) db.execution_guards)
  invalidate_each goal_id now_ticks issued

unfoldable pub expire_if : Bool → ℤ → CommitmentRow → ClaimRow → ClaimEpoch → Tx ℕ
expire_if false now_ticks row claim epoch = return 0
expire_if true now_ticks row claim epoch = do expire_claim now_ticks row claim epoch; return 1

unfoldable pub expire_claims :
    MonotonicInstant → MonotonicDuration → ℤ → ℤ → List (CommitmentRow × ClaimRow) → Tx ℕ
expire_claims now claim_lease_duration now_ticks current_boot_ticks [] = return 0
expire_claims now claim_lease_duration now_ticks current_boot_ticks ((row, claim) ∷ rest) = do
  (epoch, due) ← try (check_claim now claim_lease_duration current_boot_ticks row claim)
  expired ← expire_if due now_ticks row claim epoch
  later ← expire_claims now claim_lease_duration now_ticks current_boot_ticks rest
  return (expired + later)

unfoldable pub process_expired_claims : MonotonicInstant → MonotonicDuration → Tx ℕ
process_expired_claims now claim_lease_duration = do
  now_ticks ← try (checked_i64 now "current monotonic instant")
  current_boot ← check current_boot_generation
  current_boot_ticks ← try (checked_i64 current_boot "boot generation")
  claims ← query claimed_rows
  expire_claims now claim_lease_duration now_ticks current_boot_ticks claims
