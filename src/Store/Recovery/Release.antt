-- ===== src/Store/Recovery/Release.antt =====
-- `recover_without_action` of sqlite.rs.
use resolve.Base.{
  ℕ, Bool, true, false, Option, some, none, ok_or, ensure, ◌=?◌, ◌&&◌, ◌==◌, not, is_some, Result,
  ok, err, ◌≡◌,
}
use resolve.Base
use resolve.Base.Int.{ℤ}
use resolve.Base.Text.{Text}
use resolve.Core.Types.{CommitmentId, ready, commitment_kind, goal_kind}
use resolve.Core.Events.{recovery_released}
use resolve.Store.Error.{
  Stored, not_found, invalid_persisted_data, invalid_mutation, recovery_blocked, message,
}
use resolve.Store.Sql.{count, exists}
use resolve.Store.Tables.{Db, CommitmentRow, text_eq, int_eq}
use resolve.Store.Codec.{parse_id, next_state_version, decode_commitment_state}
use resolve.Store.Tx.{Tx, ◌>>=◌, ◌>>◌, try, check, append_event, return}
use resolve.Store.Recovery.Expiry.{change_state}
use resolve.Store.Recovery.Cascade.{
  find_commitment, is_completed, is_recovery_pending, is_held_for,
  complete_composite_barrier_cascade,
}

-- RECOVERY_PENDING, with no claim, action or held lock.
unfoldable pub check_releasable : CommitmentId → CommitmentRow → Db → Stored (Unit {0})
check_releasable commitment_id row db = Base.◌>>=◌ (decode_commitment_state row.state_json) λ state.
    ensure
      (is_recovery_pending state
        && not (is_some row.outstanding_action)
        && count (is_held_for commitment_id.value) db.scope_locks == 0
        && not (exists (λ c. c.commitment_id =? commitment_id.value) db.claims))
      (recovery_blocked commitment_id.value
        (message "recovery requires RECOVERY_PENDING with no claim, action, or held lock"))

-- The replacement terminal of a composite is completed.
unfoldable pub check_replacement : CommitmentId → Text → Db → Stored CommitmentId
check_replacement commitment_id replacement_terminal_id db =
    Base.◌>>=◌
      (ok_or (find_commitment replacement_terminal_id db)
        (invalid_persisted_data (message "replacement terminal commitment is missing")))
      λ row. Base.◌>>=◌ (decode_commitment_state row.state_json) λ state.
        Base.◌>>◌
          (ensure (is_completed state)
            (recovery_blocked commitment_id.value (message "composite barrier is incomplete")))
          (parse_id commitment_kind replacement_terminal_id "replacement terminal")

unfoldable pub release_by : Option Text → CommitmentId → ℤ → CommitmentRow → Tx (Option (Unit {0}))
release_by (some replacement_terminal_id) commitment_id created_at row = do
  completed_id ← check (check_replacement commitment_id replacement_terminal_id)
  complete_composite_barrier_cascade completed_id created_at
release_by none commitment_id created_at row = do
  next_version ← try (next_state_version row.state_version)
  change_state commitment_id.value row.state_version ready next_version
      (invalid_mutation (message "commitment changed while releasing recovery"))
  goal_id ← try (parse_id goal_kind row.goal_id "goal")
  append_event goal_id (recovery_released commitment_id) created_at
  return (some tt)

abbrev pub read_released : CommitmentId → Db → Stored CommitmentRow
read_released commitment_id db =
    ok_or (find_commitment commitment_id.value db) (not_found "commitment" commitment_id.value)

-- `none` says that the fuel of the cascade ran out.
unfoldable pub recover_without_action : CommitmentId → ℤ → Tx (Option (Unit {0}))
recover_without_action commitment_id created_at = do
  row ← check (read_released commitment_id)
  check (check_releasable commitment_id row)
  release_by row.replacement_terminal_id commitment_id created_at row
