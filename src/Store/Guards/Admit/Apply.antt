-- ===== src/Store/Guards/Admit/Apply.antt =====
-- `admit_guard` of sqlite.rs, second part: the promotion of the reservation together with the
-- outstanding action, and the whole transaction.
use resolve.Base.{Bool, ◌≠?◌, is_value, reject, some, none, ok_or, is_some, ◌=?◌, ◌&&◌, not, length}
use mathlib.Core.Option
use resolve.Base.Int.{ℤ}
use resolve.Base.Text.{Text}
use resolve.Core.Types.{goal_kind}
use resolve.Core.Equality.{nat_eq, identifier_eq, digest_eq}
use resolve.Core.Events.{guard_admitted}
use resolve.Core.Guards.{ScopeSet, scope_set_eq}
use resolve.Store.Error.{Stored, sqlite, constraint_violated, not_found, invalid_mutation, message}
use resolve.Store.Sql.{update, count, exists}
use resolve.Store.Tables.{
  Db, CommitmentRow, RawGuardColumns, held, issued_column, admitted_column, text_eq, int_eq,
  lock_state_eq, guard_state_eq,
}
use resolve.Store.Codec.{parse_id, checked_i64, next_state_version}
use resolve.Store.GuardRows.{GuardRow}
use resolve.Store.Tx.{execute_count, Tx, ◌>>=◌, ◌>>◌, try, check, return, append_event}
use resolve.Store.Guards.{
  query_guard, query_guard_scopes, expire_relevant_reservations, is_reserved_by,
}
use resolve.Store.Guards.Admit.{
  GuardAdmission, was_admitted, already_admitted, AdmitRequest, Found, repeated, fresh, inspect,
  check_reservation, CommitmentContext, commitment_context, check_task, check_fence,
}

abbrev pub is_unbound : Text → ℤ → CommitmentRow → Bool
is_unbound id version c =
    c.commitment_id =? id && c.state_version =? version && not (is_some c.outstanding_action)

abbrev pub set_outstanding : AdmitRequest → GuardRow → CommitmentRow → ℤ → Db → Db
set_outstanding request guard row next_version db = record db {
  commitments =
      update (is_unbound guard.commitment_id.value row.state_version)
        (λ c. record c {
          outstanding_action = some request.action_ref.value;
          state_version = next_version;
        })
        db.commitments;
}

abbrev pub is_issued_at : Text → ℤ → RawGuardColumns → Bool
is_issued_at guard_id version g =
    g.guard_id =? guard_id && g.state =? issued_column && g.state_version =? version

abbrev pub set_admitted : AdmitRequest → GuardRow → ℤ → Db → Db
set_admitted request guard next_version db = record db {
  execution_guards =
      update (is_issued_at request.guard_id.value guard.state_version)
        (λ g. record g {
          state = admitted_column;
          action_ref = some request.action_ref.value;
          preparation_digest = Option.map (λ d. d.digest) request.preparation_digest;
          reservation_expires_at = none;
          state_version = next_version;
        })
        db.execution_guards;
}

abbrev pub set_held : AdmitRequest → Db → Db
set_held request db = record db {
  scope_locks =
      update (is_reserved_by request.guard_id.value)
        (λ l. record l {
          lock_state = held;
          action_ref = some request.action_ref.value;
          reservation_expires_at = none;
        })
        db.scope_locks;
}

abbrev pub bind_commitment : AdmitRequest → GuardRow → CommitmentRow → ℤ → Tx (Unit {0})
bind_commitment request guard row next_version =
    execute_count
      (λ db. count (is_unbound guard.commitment_id.value row.state_version) db.commitments)
      (set_outstanding request guard row next_version) 1
      (invalid_mutation (message "commitment changed while admitting guard"))

-- Another guard is bound to the action, which the UNIQUE index on `action_ref` refuses for a row that
-- the statement changes.
unfoldable pub is_taken : AdmitRequest → GuardRow → Db → Bool
is_taken request guard db =
    exists (is_issued_at request.guard_id.value guard.state_version) db.execution_guards
    && exists
        (λ g.
          g.guard_id ≠? request.guard_id.value && is_value g.action_ref request.action_ref.value)
        db.execution_guards

abbrev pub bind_guard : AdmitRequest → GuardRow → ℤ → Tx (Unit {0})
bind_guard request guard next_version =
    check (λ db. reject (is_taken request guard db) (sqlite constraint_violated))
    >> execute_count
        (λ db. count (is_issued_at request.guard_id.value guard.state_version) db.execution_guards)
        (set_admitted request guard next_version) 1
        (invalid_mutation (message "guard changed while admitting"))

abbrev pub hold_locks : AdmitRequest → ScopeSet → Tx (Unit {0})
hold_locks request stored_scope_keys =
    execute_count (λ db. count (is_reserved_by request.guard_id.value) db.scope_locks)
      (set_held request) (length stored_scope_keys.keys)
      (invalid_mutation (message "guard scope locks changed while admitting"))

-- The writes.
unfoldable pub bind_action :
    AdmitRequest → ScopeSet → GuardRow → CommitmentRow → ℤ → Tx GuardAdmission
bind_action request stored_scope_keys guard row now_ticks = do
  next_commitment_version ← try (next_state_version row.state_version)
  next_guard_version ← try (next_state_version guard.state_version)
  goal_id ← try (parse_id goal_kind row.goal_id "goal")
  bind_commitment request guard row next_commitment_version
  bind_guard request guard next_guard_version
  hold_locks request stored_scope_keys
  append_event goal_id
      (guard_admitted request.guard_id guard.commitment_id request.action_ref
        request.preparation_digest)
      now_ticks
  return was_admitted

abbrev pub read_context : GuardRow → Db → Stored CommitmentContext
read_context guard db =
    ok_or (commitment_context guard.commitment_id.value db)
      (not_found "commitment" guard.commitment_id.value)

-- A request for a guard that is issued.
unfoldable pub admit_issued : AdmitRequest → ScopeSet → ℤ → Tx GuardAdmission
admit_issued request stored_scope_keys now_ticks = do
  expire_relevant_reservations stored_scope_keys.keys now_ticks
  guard ← check (query_guard request.guard_id)
  check (check_reservation request stored_scope_keys guard)
  context ← check (read_context guard)
  try (check_task context.commitment)
  check (check_fence guard context)
  bind_action request stored_scope_keys guard context.commitment now_ticks

unfoldable pub admit_found : Found → AdmitRequest → ScopeSet → ℤ → Tx GuardAdmission
admit_found repeated request stored_scope_keys now_ticks = return already_admitted
admit_found fresh request stored_scope_keys now_ticks =
    admit_issued request stored_scope_keys now_ticks

unfoldable pub admit_guard : AdmitRequest → Tx GuardAdmission
unfolding admit_found
admit_guard request = do
  now_ticks ← try (checked_i64 request.now "current monotonic instant")
  guard ← check (query_guard request.guard_id)
  stored_scope_keys ← check (query_guard_scopes request.guard_id)
  state ← try (inspect request guard stored_scope_keys)
  admit_found state request stored_scope_keys now_ticks
