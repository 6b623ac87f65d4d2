-- ===== src/Store/Outcomes/Record.antt =====
-- `record_tethers_outcome` of sqlite.rs: the writes, and the whole transaction.
use resolve.Base.{ℕ, Bool, true, false, length}
use resolve.Base.Int.{ℤ}
use resolve.Base.Text.{Text}
use resolve.Core.Types.{
  GuardId, GoalId, TethersActionRef, CommitmentState, ready, recovery_pending, uncertain_action,
  is_uncertain, goal_kind,
}
use resolve.Core.Events.{tethers_outcome_recorded, commitment_waiting, recovery_completed}
use resolve.Core.Guards.{ScopeSet}
use resolve.Store.Error.{invalid_mutation, message}
use resolve.Store.Sql.{count}
use resolve.Store.Tables.{Db, CommitmentRow}
use resolve.Store.Codec.{parse_id, next_state_version}
use resolve.Store.GuardRows.{GuardRow}
use resolve.Store.Tx.{Tx, ◌>>=◌, ◌>>◌, try, check, execute, execute_count, return, append_event}
use resolve.Store.Guards.{query_guard, query_guard_scopes}
use resolve.Store.Outcomes.{
  OutcomeRecording, was_recorded, already_recorded, Report, action_of, find_guard, check_binding,
  is_known, check_outstanding, read_commitment, is_bound_to, set_waiting, set_done,
  is_admitted_version, set_uncertain, set_resolved, is_held_lock_of, release_held, drop_claims,
}

abbrev pub count_bound : Text → ℤ → TethersActionRef → Db → ℕ
count_bound id version action db = count (is_bound_to id version action) db.commitments

abbrev pub count_admitted : Text → ℤ → Db → ℕ
count_admitted guard_id version db =
    count (is_admitted_version guard_id version) db.execution_guards

abbrev pub wait_on_action : Report → GuardRow → CommitmentRow → ℤ → Tx (Unit {0})
wait_on_action report guard row next_version =
    execute_count (count_bound guard.commitment_id.value row.state_version (action_of report))
      (set_waiting guard.commitment_id.value row.state_version (action_of report) next_version) 1
      (invalid_mutation (message "commitment changed while recording uncertain outcome"))

abbrev pub mark_uncertain : GuardRow → ℤ → Tx (Unit {0})
mark_uncertain guard next_guard_version =
    execute_count (count_admitted guard.guard_id.value guard.state_version)
      (set_uncertain guard.guard_id.value guard.state_version next_guard_version) 1
      (invalid_mutation (message "guard changed while recording uncertain outcome"))

-- An uncertain outcome: the commitment waits without a claim, and the locks stay held.
unfoldable pub record_uncertain : Report → GuardRow → CommitmentRow → GoalId → Tx (Unit {0})
record_uncertain report guard row goal_id = do
  next_version ← try (next_state_version row.state_version)
  wait_on_action report guard row next_version
  execute (drop_claims guard.commitment_id.value)
  next_guard_version ← try (next_state_version guard.state_version)
  mark_uncertain guard next_guard_version
  append_event goal_id
      (commitment_waiting guard.commitment_id (uncertain_action (action_of report)))
      report.created_at

abbrev pub is_recovery_pending : CommitmentState → Bool
is_recovery_pending recovery_pending = true
is_recovery_pending _ = false

-- Recovery ends in READY; a working commitment stays as it is.
abbrev pub state_after : CommitmentState → CommitmentState
state_after recovery_pending = ready
state_after state = state

unfoldable pub report_recovery : Bool → Report → GuardRow → GoalId → Tx (Unit {0})
report_recovery false report guard goal_id = return tt
report_recovery true report guard goal_id =
    append_event goal_id (recovery_completed guard.commitment_id (action_of report))
      report.created_at

abbrev pub resolve_guard : Report → GuardRow → ℤ → Tx (Unit {0})
resolve_guard report guard next_guard_version =
    execute_count (count_admitted guard.guard_id.value guard.state_version)
      (set_resolved guard.guard_id.value guard.state_version report.outcome next_guard_version) 1
      (invalid_mutation (message "guard changed while recording outcome"))

abbrev pub release_locks : GuardRow → ScopeSet → Tx (Unit {0})
release_locks guard scope_keys =
    execute_count (λ db. count (is_held_lock_of guard.guard_id.value) db.scope_locks)
      (release_held guard.guard_id.value) (length scope_keys.keys)
      (invalid_mutation (message "held scope locks changed while recording outcome"))

abbrev pub clear_action : Report → GuardRow → CommitmentRow → CommitmentState → ℤ → Tx (Unit {0})
clear_action report guard row state next_version =
    execute_count (count_bound guard.commitment_id.value row.state_version (action_of report))
      (set_done guard.commitment_id.value row.state_version (action_of report) (state_after state)
        next_version)
      1 (invalid_mutation (message "commitment changed while completing outcome"))

-- A safe outcome: the guard is resolved, its locks are released and the action is cleared.
unfoldable pub record_safe :
    Report → GuardRow → CommitmentRow → CommitmentState → GoalId → ScopeSet → Tx (Unit {0})
record_safe report guard row state goal_id scope_keys = do
  next_guard_version ← try (next_state_version guard.state_version)
  resolve_guard report guard next_guard_version
  release_locks guard scope_keys
  next_version ← try (next_state_version row.state_version)
  clear_action report guard row state next_version
  report_recovery (is_recovery_pending state) report guard goal_id

unfoldable pub record_by :
    Bool → Report → GuardRow → CommitmentRow → CommitmentState → GoalId → ScopeSet → Tx (Unit {0})
record_by true report guard row state goal_id scope_keys = record_uncertain report guard row goal_id
record_by false report guard row state goal_id scope_keys =
    record_safe report guard row state goal_id scope_keys

unfoldable pub record_new : Report → GuardId → GuardRow → Tx OutcomeRecording
record_new report guard_id guard = do
  row ← check (read_commitment guard)
  state ← try (check_outstanding report guard_id row)
  goal_id ← try (parse_id goal_kind row.goal_id "goal")
  append_event goal_id (tethers_outcome_recorded report.outcome report.preparation_digest)
      report.created_at
  scope_keys ← check (query_guard_scopes guard_id)
  record_by (is_uncertain report.outcome) report guard row state goal_id scope_keys
  return was_recorded

unfoldable pub record_unless : Bool → Report → GuardId → GuardRow → Tx OutcomeRecording
record_unless true report guard_id guard = return already_recorded
record_unless false report guard_id guard = record_new report guard_id guard

unfoldable pub record_tethers_outcome : Report → Tx OutcomeRecording
record_tethers_outcome report = do
  guard_id ← check (find_guard (action_of report))
  guard ← check (query_guard guard_id)
  try (check_binding (action_of report) guard.preparation_digest report.preparation_digest)
  known ← try (is_known report guard_id guard.state)
  record_unless known report guard_id guard
