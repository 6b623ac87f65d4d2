-- ===== src/Store/Recovery/Cascade.antt =====
-- `complete_composite_barrier_cascade` of sqlite.rs, on fuel. Each turn pops one completed child and
-- pushes the parents that it completes, of which there are no more than commitments.
use resolve.Base.{
  ℕ, zero, suc, ◌+◌, Bool, true, false, List, [], ◌∷◌, Option, some, none, ok, ok_or, ensure,
  reject, ◌=?◌, ◌&&◌, ◌||◌, leb, ltb, is_value, is_some, ◌==◌, length,
}
use resolve.Base
use resolve.Base.Int.{ℤ, i64_bound}
use resolve.Base.Text.{Text}
use resolve.Core.Types.{
  GoalId, CommitmentId, CommitmentState, completed, waiting, on_prerequisite, recovery_pending,
  is_terminal, commitment_kind, goal_kind,
}
use resolve.Core.Equality.{identifier_eq}
use resolve.Core.Events.{commitment_completed}
use resolve.Store.Error.{
  Stored, StoreError, sqlite, query_returned_no_rows, invalid_persisted_data, invalid_mutation,
  recovery_blocked, message,
}
use resolve.Store.Sql.{select, select_all, update, count, order_by_text}
use resolve.Store.Tables.{Db, CommitmentRow, LockRow, held, text_eq, int_eq, lock_state_eq}
use resolve.Store.Codec.{
  parse_id, next_state_version, decode_commitment_state, encode_commitment_state,
}
use resolve.Store.Tx.{Tx, ◌>>=◌, ◌>>◌, try, check, execute, return, append_event, query}
use resolve.Store.Guards.Admit.Apply.{is_unbound}
use resolve.Store.Outcomes.{drop_claims}

abbrev corrupt : Base.String → StoreError
corrupt reason = invalid_persisted_data (message reason)

abbrev pub find_commitment : Text → Db → Option CommitmentRow
find_commitment id db = select (λ c. c.commitment_id =? id) db.commitments

abbrev pub is_completed : CommitmentState → Bool
is_completed completed = true
is_completed _ = false

abbrev pub is_recovery_pending : CommitmentState → Bool
is_recovery_pending recovery_pending = true
is_recovery_pending _ = false

abbrev pub is_waiting_on : CommitmentId → CommitmentState → Bool
is_waiting_on child_id (waiting (on_prerequisite prerequisite)) = prerequisite =? child_id
is_waiting_on child_id _ = false

unfoldable pub check_child : CommitmentId → Db → Stored (Unit {0})
check_child child_id db =
    Base.◌>>=◌
      (ok_or (find_commitment child_id.value db)
        (corrupt "composite barrier cascade child is missing"))
      λ row. Base.◌>>=◌ (decode_commitment_state row.state_json) λ state.
        ensure (is_completed state) (corrupt "composite barrier cascade child is not completed")

-- A parent as it was read, with its parsed identifiers.
pub record Parent : Type 0 where
  pub commitment_id : CommitmentId
  pub goal_id : GoalId
  pub row : CommitmentRow

parse_parents : List CommitmentRow → Stored (List Parent)
parse_parents [] = ok []
parse_parents (row ∷ rows) =
    Base.◌>>=◌ (parse_id commitment_kind row.commitment_id "parent commitment") λ commitment_id.
      Base.◌>>=◌ (parse_id goal_kind row.goal_id "goal") λ goal_id.
        Base.◌>>=◌ (parse_parents rows) λ parents.
          ok (record { commitment_id = commitment_id; goal_id = goal_id; row = row } ∷ parents)

-- The commitments whose replacement terminal is the child.
unfoldable pub parents_of : CommitmentId → Db → Stored (List Parent)
unfolding parse_parents
parents_of child_id db = parse_parents (
    order_by_text (λ c. c.commitment_id)
      (select_all (λ c. is_value c.replacement_terminal_id child_id.value) db.commitments))

-- `processed.checked_add(1)` on `i64`, which stays within the number of the commitments
unfoldable pub count_parent : ℕ → ℕ → Stored ℕ
count_parent total processed =
    Base.◌>>◌
      (ensure (ltb (suc processed) i64_bound)
        (invalid_mutation (message "composite barrier cascade count overflowed")))
      (Base.◌>>◌
        (ensure (leb (suc processed) total)
          (corrupt "composite barrier cascade exceeded commitment count"))
        (ok (suc processed)))

-- The child is a direct child of the parent, in the same goal.
unfoldable pub check_kinship : CommitmentId → Parent → Db → Stored (Unit {0})
check_kinship child_id parent db =
    Base.◌>>=◌ (ok_or (find_commitment child_id.value db) (sqlite query_returned_no_rows)) λ child.
      ensure
        (is_value child.parent_id parent.commitment_id.value
          && child.goal_id =? parent.goal_id.value)
        (corrupt "composite barrier child is not a direct same-goal child")

-- COMPLETED is terminal, so that the source's second test for it is never met.
unfoldable pub check_barrier : CommitmentId → Parent → CommitmentState → Stored (Unit {0})
check_barrier child_id parent state =
    Base.◌>>◌
      (reject (is_some parent.row.outstanding_action) (
        recovery_blocked parent.commitment_id.value
          (message "composite barrier parent has an outstanding action")))
      (ensure (is_waiting_on child_id state || is_recovery_pending state)
        (corrupt "composite barrier parent is not waiting on its replacement terminal"))

abbrev pub is_held_for : Text → LockRow → Bool
is_held_for commitment_id l = l.commitment_id =? commitment_id && l.lock_state =? held

unfoldable pub check_no_held : Parent → Db → Stored (Unit {0})
check_no_held parent db =
    ensure (count (is_held_for parent.commitment_id.value) db.scope_locks == 0) (
      recovery_blocked parent.commitment_id.value
        (message "composite barrier parent still owns a held lock"))

abbrev pub set_completed : Text → ℤ → ℤ → Db → Db
set_completed id version next_version db = record db {
  commitments =
      update (is_unbound id version)
        (λ c. record c {
          state_json = encode_commitment_state completed;
          state_version = next_version;
        })
        db.commitments;
}

unfoldable pub complete_unless :
    Bool → CommitmentId → ℤ → Parent → CommitmentState → List CommitmentId → Tx (List CommitmentId)
complete_unless true child_id created_at parent state pending = return pending
complete_unless false child_id created_at parent state pending = do
  try (check_barrier child_id parent state)
  check (check_no_held parent)
  next_version ← try (next_state_version parent.row.state_version)
  execute (set_completed parent.commitment_id.value parent.row.state_version next_version)
  execute (drop_claims parent.commitment_id.value)
  append_event parent.goal_id (commitment_completed parent.commitment_id) created_at
  return (parent.commitment_id ∷ pending)

unfoldable pub complete_parent :
    CommitmentId → ℤ → Parent → List CommitmentId → Tx (List CommitmentId)
complete_parent child_id created_at parent pending = do
  check (check_kinship child_id parent)
  state ← try (decode_commitment_state parent.row.state_json)
  complete_unless (is_terminal state) child_id created_at parent state pending

-- The parents of one child, with the count of those processed and the stack, its top first.
unfoldable pub complete_parents :
    ℕ → CommitmentId → ℤ → List Parent → ℕ → List CommitmentId → Tx (ℕ × List CommitmentId)
complete_parents total child_id created_at [] processed pending = return (processed, pending)
complete_parents total child_id created_at (parent ∷ parents) processed pending = do
  counted ← try (count_parent total processed)
  pushed ← complete_parent child_id created_at parent pending
  complete_parents total child_id created_at parents counted pushed

-- The loop; `none` says that the fuel ran out.
unfoldable pub cascade_loop : ℕ → ℕ → ℤ → ℕ → List CommitmentId → Tx (Option (Unit {0}))
cascade_loop fuel total created_at processed [] = return (some tt)
cascade_loop zero total created_at processed (child_id ∷ pending) = return none
cascade_loop (suc fuel) total created_at processed (child_id ∷ pending) = do
  check (check_child child_id)
  parents ← check (parents_of child_id)
  next ← complete_parents total child_id created_at parents processed pending
  cascade_loop fuel total created_at next.0 next.1

-- One turn for the completed child, and one for each commitment.
unfoldable pub complete_composite_barrier_cascade : CommitmentId → ℤ → Tx (Option (Unit {0}))
complete_composite_barrier_cascade completed_id created_at = do
  total ← query (λ db. length db.commitments)
  cascade_loop (suc total) total created_at 0 (completed_id ∷ [])
