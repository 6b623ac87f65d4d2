-- ===== src/Store/Outcomes/Writes.antt =====
-- The rows that `record_tethers_outcome` of sqlite.rs leaves.
use resolve.Base.{◌≡◌, Bool, true, false, ok, arith}
use resolve.Base.Int.{ℤ}
use resolve.Core.Types.{GoalId, CommitmentState}
use resolve.Core.Guards.{ScopeSet}
use resolve.Store.GuardRows.{GuardRow}
use resolve.Store.Tables.{Db, CommitmentRow}
use resolve.Store.Tx.{append_event, bind-ok, try-ok}
use resolve.Store.Codec.{next_state_version}
use resolve.Store.Outcomes.{
  Report, action_of, set_waiting, set_done, set_uncertain, set_resolved, release_held, drop_claims,
}
use resolve.Store.Outcomes.Record.{
  wait_on_action, mark_uncertain, resolve_guard, release_locks, clear_action, is_recovery_pending,
  record_uncertain, record_safe, report_recovery, state_after,
}

-- The commitment has the version after that of its row, and the guard one after its own.
pub record SafeWrites (report : Report) (guard : GuardRow) (row : CommitmentRow)
    (state : CommitmentState) (db db' : Db) : Type 0 where
  pub version : ℤ
  pub next : next_state_version row.state_version ≡ ok version
  pub guard_version : ℤ
  pub commitments :
      db'.commitments
      ≡ (set_done guard.commitment_id.value row.state_version
          (action_of report)
          (state_after state)
          version
          db).commitments
  pub guards :
      db'.execution_guards
      ≡ (set_resolved guard.guard_id.value guard.state_version report.outcome guard_version
          db).execution_guards
  pub locks : db'.scope_locks ≡ (release_held guard.guard_id.value db).scope_locks
  pub claims : db'.claims ≡ db.claims

pub record UncertainWrites (report : Report) (guard : GuardRow) (row : CommitmentRow) (db db' : Db)
    : Type 0 where
  pub version : ℤ
  pub next : next_state_version row.state_version ≡ ok version
  pub guard_version : ℤ
  pub commitments :
      db'.commitments
      ≡ (set_waiting guard.commitment_id.value row.state_version
          (action_of report)
          version
          db).commitments
  pub guards :
      db'.execution_guards
      ≡ (set_uncertain guard.guard_id.value guard.state_version guard_version db).execution_guards
  pub locks : db'.scope_locks ≡ db.scope_locks
  pub claims : db'.claims ≡ (drop_claims guard.commitment_id.value db).claims

report_recovery-rows :
    (recovered : Bool) (report : Report) (guard : GuardRow) (goal_id : GoalId) (db db' : Db)
    → report_recovery recovered report guard goal_id db ≡ ok (tt, db')
    → (db'.commitments ≡ db.commitments)
      × (db'.execution_guards ≡ db.execution_guards)
      × (db'.scope_locks ≡ db.scope_locks)
      × (db'.claims ≡ db.claims)
unfolding report_recovery append_event
report_recovery-rows true report guard goal_id db db' e =
    (ground arith, ground arith, ground arith, ground arith)
report_recovery-rows false report guard goal_id db db' e =
    (ground arith, ground arith, ground arith, ground arith)

wait_on_action-ok :
    (report : Report) (guard : GuardRow) (row : CommitmentRow) (v : ℤ) (db db' : Db)
    → wait_on_action report guard row v db ≡ ok (tt, db')
    → db' ≡ set_waiting guard.commitment_id.value row.state_version (action_of report) v db
wait_on_action-ok report guard row v db db' e = ground arith

mark_uncertain-ok :
    (guard : GuardRow) (v : ℤ) (db db' : Db)
    → mark_uncertain guard v db ≡ ok (tt, db')
    → db' ≡ set_uncertain guard.guard_id.value guard.state_version v db
mark_uncertain-ok guard v db db' e = ground arith

resolve_guard-ok :
    (report : Report) (guard : GuardRow) (v : ℤ) (db db' : Db)
    → resolve_guard report guard v db ≡ ok (tt, db')
    → db' ≡ set_resolved guard.guard_id.value guard.state_version report.outcome v db
resolve_guard-ok report guard v db db' e = ground arith

release_locks-ok :
    (guard : GuardRow) (keys : ScopeSet) (db db' : Db)
    → release_locks guard keys db ≡ ok (tt, db')
    → db' ≡ release_held guard.guard_id.value db
release_locks-ok guard keys db db' e = ground arith

clear_action-ok :
    (report : Report) (guard : GuardRow) (row : CommitmentRow) (state : CommitmentState) (v : ℤ)
    (db db' : Db)
    → clear_action report guard row state v db ≡ ok (tt, db')
    → db'
      ≡ set_done guard.commitment_id.value row.state_version
          (action_of report)
          (state_after state)
          v
          db
clear_action-ok report guard row state v db db' e = ground arith

pub record_uncertain-ok :
    (report : Report) (guard : GuardRow) (row : CommitmentRow) (goal_id : GoalId) (db db' : Db)
    → record_uncertain report guard row goal_id db ≡ ok (tt, db')
    → UncertainWrites report guard row db db'
unfolding record_uncertain append_event
record_uncertain-ok report guard row goal_id db db' e =
    let (v, next, r1) = try-ok (next_state_version row.state_version) _ tt db db' e in
    let (_, db₁, p1, r2) = bind-ok (wait_on_action report guard row v) _ tt db db' r1 in
    let same₁ = wait_on_action-ok report guard row v db db₁ p1 in
    let dropped = drop_claims guard.commitment_id.value db₁ in
    let (g, _, r4) = try-ok (next_state_version guard.state_version) _ tt dropped db' r2 in
    let (_, db₃, p3, r5) = bind-ok (mark_uncertain guard g) _ tt dropped db' r4 in
    let same₃ = mark_uncertain-ok guard g dropped db₃ p3 in
    record {
      version = v;
      next = next;
      guard_version = g;
      commitments = ground arith;
      guards = ground arith;
      locks = ground arith;
      claims = ground arith;
    }

pub record_safe-ok :
    (report : Report) (guard : GuardRow) (row : CommitmentRow) (state : CommitmentState)
    (goal_id : GoalId) (keys : ScopeSet) (db db' : Db)
    → record_safe report guard row state goal_id keys db ≡ ok (tt, db')
    → SafeWrites report guard row state db db'
unfolding record_safe
record_safe-ok report guard row state goal_id keys db db' e =
    let (g, _, r1) = try-ok (next_state_version guard.state_version) _ tt db db' e in
    let (_, db₁, p1, r2) = bind-ok (resolve_guard report guard g) _ tt db db' r1 in
    let same₁ = resolve_guard-ok report guard g db db₁ p1 in
    let (_, db₂, p2, r3) = bind-ok (release_locks guard keys) _ tt db₁ db' r2 in
    let same₂ = release_locks-ok guard keys db₁ db₂ p2 in
    let (v, next, r4) = try-ok (next_state_version row.state_version) _ tt db₂ db' r3 in
    let (_, db₃, p3, r5) = bind-ok (clear_action report guard row state v) _ tt db₂ db' r4 in
    let same₃ = clear_action-ok report guard row state v db₂ db₃ p3 in
    let (c, x, l, m) =
      report_recovery-rows (is_recovery_pending state) report guard goal_id db₃ db' r5 in
    record {
      version = v;
      next = next;
      guard_version = g;
      commitments = ground arith;
      guards = ground arith;
      locks = ground arith;
      claims = ground arith;
    }
