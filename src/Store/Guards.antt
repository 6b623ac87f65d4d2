-- ===== src/Store/Guards.antt =====
-- The reads and the reactive expiry that the guard transactions of sqlite.rs share.
pub mod Issue
pub mod Admit
pub mod Invalidate
pub mod Invalidated
pub mod Locks
pub mod Reserved
pub mod Fence
use resolve.Base.{
  ℕ, ◌≡◌, Bool, true, false, List, [], ◌∷◌, ◌++◌, Option, some, none, Result, ok, err, ok_or, map,
  ◌=?◌, ◌&&◌, if◌then◌else◌, ◌==◌,
}
use resolve.Base
use resolve.Base.Int.{ℤ, leb_ℤ, suc_ℤ}
use resolve.Base.Text.{Text}
use resolve.Base.Canonical.{contains}
use resolve.Core.Types.{GuardId, ScopeKey, scope_kind, goal_kind, guard_kind}
use resolve.Core.Events.{guard_reservation_expired}
use resolve.Core.Guards.{ScopeSet, scope_set_try_new}
use resolve.Store.Error.{Stored, StoreError, sqlite, query_returned_no_rows, not_found}
use resolve.Store.Sql.{select, select_all, update, delete, count, order_by}
use resolve.Store.Tables.{
  Db, CommitmentRow, RawGuardColumns, GuardScopeRow, LockRow, reserved, issued_column,
  invalidated_column, text_eq, lock_state_eq, guard_state_eq,
}
use resolve.Store.Codec.{from_domain, parse_id}
use resolve.Store.GuardRows.{GuardRow, decode_guard_row}
use resolve.Store.Tx.{Tx, ◌>>=◌, ◌>>◌, try, check, query, execute, return, append_event}

abbrev pub guard_columns : Text → Db → Option RawGuardColumns
guard_columns guard_id db = select (λ g. g.guard_id =? guard_id) db.execution_guards

unfoldable pub query_guard : GuardId → Db → Stored GuardRow
query_guard guard_id db =
    Base.◌>>=◌ (ok_or (guard_columns guard_id.value db) (not_found "guard" guard_id.value))
      decode_guard_row

parse_scopes : List Text → Stored (List ScopeKey)
parse_scopes [] = ok []
parse_scopes (t ∷ ts) =
    Base.◌>>=◌ (parse_id scope_kind t "scope") λ k. Base.◌>>=◌ (parse_scopes ts) λ ks. ok (k ∷ ks)

unfoldable pub query_guard_scopes : GuardId → Db → Stored ScopeSet
unfolding parse_scopes
query_guard_scopes guard_id db =
    let rows = select_all (λ r. r.guard_id =? guard_id.value) db.execution_guard_scopes in
    Base.◌>>=◌ (parse_scopes (map (λ r. r.scope_key) (order_by (λ r. r.ordinal) rows)))
      λ keys. from_domain (scope_set_try_new keys)

-- `reservation_expires_at <= now`, which is not true of NULL
abbrev is_due : Option ℤ → ℤ → Bool
is_due none now = false
is_due (some t) now = leb_ℤ t now

abbrev pub is_expired_lock : ℤ → ScopeKey → LockRow → Bool
is_expired_lock now key l =
    l.scope_key =? key.value && l.lock_state =? reserved && is_due l.reservation_expires_at now

-- The set of the guards whose reservation of one of the keys has run out. The iteration order of a
-- `HashSet` is open; here it is that of insertion.
unfoldable pub expired_guards : List ScopeKey → ℤ → Db → List Text → List Text
expired_guards [] now db found = found
expired_guards (key ∷ keys) now db found =
    expired_guards keys now db (elim (select (is_expired_lock now key) db.scope_locks) [
      | none ↦ found
      | some l ↦ if contains found l.guard_id then found else found ++ l.guard_id ∷ []
    ])

abbrev is_issued_guard : Text → RawGuardColumns → Bool
is_issued_guard guard_id g = g.guard_id =? guard_id && g.state =? issued_column

abbrev pub is_reserved_by : Text → LockRow → Bool
is_reserved_by guard_id l = l.guard_id =? guard_id && l.lock_state =? reserved

unfoldable pub goal_of_guard : Text → Db → Stored Text
goal_of_guard guard_id db =
    Base.◌>>=◌ (ok_or (guard_columns guard_id db) (sqlite query_returned_no_rows)) λ g.
      Base.◌>>=◌
        (ok_or (select (λ c. c.commitment_id =? g.commitment_id) db.commitments)
          (sqlite query_returned_no_rows))
        λ c. ok c.goal_id

abbrev pub release_reserved : Text → Db → Db
release_reserved guard_id db = record db {
  scope_locks = delete (is_reserved_by guard_id) db.scope_locks;
}

unfoldable pub finish_expiry : Bool → ℤ → Text → Text → Tx (Unit {0})
unfolding append_event
finish_expiry false now goal_id guard_id = return tt
finish_expiry true now goal_id guard_id = do
  execute (release_reserved guard_id)
  goal ← try (parse_id goal_kind goal_id "goal")
  guard ← try (parse_id guard_kind guard_id "guard")
  append_event goal (guard_reservation_expired guard) now

unfoldable pub expire_guard : ℤ → Text → Tx (Unit {0})
unfolding goal_of_guard finish_expiry
expire_guard now guard_id = do
  goal_id ← check (goal_of_guard guard_id)
  changed ← query (λ db. count (is_issued_guard guard_id) db.execution_guards)
  execute (λ db. record db {
    execution_guards =
        update (is_issued_guard guard_id)
          (λ g. record g {
            state = invalidated_column;
            reservation_expires_at = none;
            state_version = suc_ℤ g.state_version;
          })
          db.execution_guards;
  })
  finish_expiry (changed == 1) now goal_id guard_id

unfoldable pub expire_each : ℤ → List Text → Tx (Unit {0})
expire_each now [] = return tt
expire_each now (guard_id ∷ guard_ids) = do expire_guard now guard_id; expire_each now guard_ids

unfoldable pub expire_relevant_reservations : List ScopeKey → ℤ → Tx (Unit {0})
expire_relevant_reservations keys now = do
  guard_ids ← query (λ db. expired_guards keys now db [])
  expire_each now guard_ids
