-- ===== src/Store/Guards/Locks.antt =====
-- What the guard transactions of sqlite.rs do to the rows of `scope_locks`.
use resolve.Base.{sym, ap, ◌∙◌, ◌≡◌, true, List, [], ◌∷◌, some, ok, arith, ◌=?◌}
use resolve.Base.Int.{ℤ, pos}
use resolve.Base.Text.{Text}
use resolve.Base.Canonical.{contains}
use resolve.Core.Types.{ScopeKey, MonotonicInstant}
use resolve.Core.Guards.{ExecutionGuard, issue}
use resolve.Core.Equality.{identifier_eq}
use resolve.Store.Sql.Select.{select-delete}
use resolve.Store.Tables.{Db, LockRow, held, text_eq, lock_state_eq}
use resolve.Store.Tx.{append_event, bind-ok, check-ok, check-last, checked_i64-then, return}
use resolve.Store.Guards.{
  expire_each, expire_guard, finish_expiry, goal_of_guard, expire_relevant_reservations,
  is_reserved_by,
}
use resolve.Store.Guards.Issue.{
  GuardIssueRequest, issue_guard, check_unlocked, lock_on, check_request, free_scopes, write_guard,
}

expire_guard-keeps_held :
    (now : ℤ) (guard_id : Text) (key : ScopeKey) (l : LockRow) (db db' : Db)
    → lock_on key db ≡ some l
    → l.lock_state ≡ held
    → expire_guard now guard_id db ≡ ok (tt, db')
    → lock_on key db' ≡ some l
unfolding expire_guard finish_expiry append_event goal_of_guard
expire_guard-keeps_held now guard_id key l db db' s h e =
    let kept =
      select-delete (λ r. r.scope_key =? key.value) (is_reserved_by guard_id) l db.scope_locks s in
    ground arith

expire_each-keeps_held :
    (now : ℤ) (guard_ids : List Text) (key : ScopeKey) (l : LockRow) (db db' : Db)
    → lock_on key db ≡ some l
    → l.lock_state ≡ held
    → expire_each now guard_ids db ≡ ok (tt, db')
    → lock_on key db' ≡ some l
unfolding expire_each
expire_each-keeps_held now [] key l db db' s h e = ground arith
expire_each-keeps_held now (g ∷ gs) key l db db' s h e =
    let (_, db₁, first, rest) =
      bind-ok (expire_guard now g) (λ _. expire_each now gs) tt db db' e in
    expire_each-keeps_held now gs key l db₁ db'
      (expire_guard-keeps_held now g key l db db₁ s h first) h rest

-- The reactive expiry leaves each lock that is held as it is.
pub expire_relevant_reservations-keeps_held :
    (keys : List ScopeKey) (now : ℤ) (key : ScopeKey) (l : LockRow) (db db' : Db)
    → lock_on key db ≡ some l
    → l.lock_state ≡ held
    → expire_relevant_reservations keys now db ≡ ok (tt, db')
    → lock_on key db' ≡ some l
unfolding expire_relevant_reservations
expire_relevant_reservations-keeps_held keys now key l db db' s h e =
    expire_each-keeps_held now _ key l db db' s h e

check_unlocked-refuses :
    (keys : List ScopeKey) (key : ScopeKey) (l : LockRow) (db : Db)
    → contains keys key ≡ true
    → lock_on key db ≡ some l
    → ¬ (check_unlocked keys db ≡ ok tt)
unfolding check_unlocked contains
check_unlocked-refuses [] key l db c s = ground arith
check_unlocked-refuses (k ∷ ks) key l db c s =
    let ih = check_unlocked-refuses ks key l db in ground arith

-- What happened in a call that issued a guard.
pub record IssueRun (request : GuardIssueRequest) (guard : ExecutionGuard) (db db' : Db)
    : Type 0 where
  pub goal_id : Text
  pub expires : MonotonicInstant
  pub free : Db
  pub checked : check_request request (pos request.claim_epoch) db ≡ ok (goal_id, expires)
  pub were_free : free_scopes request (pos request.now) db ≡ ok (tt, free)
  pub written :
      write_guard request
        (pos request.now)
        (pos request.claim_epoch)
        (pos request.boot_generation)
        (pos expires)
        goal_id
        free
      ≡ ok (tt, db')
  pub result :
      guard
      ≡ issue request.guard_id request.commitment_id request.claim_epoch request.scope_keys
          request.boot_generation expires

issue_run :
    (request : GuardIssueRequest) (guard : ExecutionGuard) (db db' : Db) (goal_id : Text)
    (expires : MonotonicInstant) (free end : Db)
    → check_request request (pos request.claim_epoch) db ≡ ok (goal_id, expires)
    → free_scopes request (pos request.now) db ≡ ok (tt, free)
    → write_guard request
        (pos request.now)
        (pos request.claim_epoch)
        (pos request.boot_generation)
        (pos expires)
        goal_id
        free
      ≡ ok (tt, end)
    → return
        (issue request.guard_id request.commitment_id request.claim_epoch request.scope_keys
          request.boot_generation expires)
        end
      ≡ ok (guard, db')
    → IssueRun request guard db db'
issue_run request guard db db' goal_id expires free end c f w r =
    let (g, same) : (issue request.guard_id request.commitment_id request.claim_epoch
            request.scope_keys request.boot_generation expires
          ≡ guard)
        × (end ≡ db') =
      (ground arith, ground arith) in
    record {
      goal_id = goal_id;
      expires = expires;
      free = free;
      checked = c;
      were_free = f;
      written = w ∙ ap (λ d. ok (tt, d)) same;
      result = sym g;
    }

pub issue_guard-run :
    (request : GuardIssueRequest) (guard : ExecutionGuard) (db db' : Db)
    → issue_guard request db ≡ ok (guard, db')
    → IssueRun request guard db db'
unfolding issue_guard
issue_guard-run request guard db db' e =
    let r1 = checked_i64-then request.now "current monotonic instant" _ guard db db' e in
    let r2 = checked_i64-then request.claim_epoch "claim epoch" _ guard db db' r1 in
    let r3 = checked_i64-then request.boot_generation "boot generation" _ guard db db' r2 in
    let ((goal_id, expires), e4, r4) =
      check-ok (check_request request (pos request.claim_epoch)) _ guard db db' r3 in
    let r5 = checked_i64-then expires "guard reservation expiration" _ guard db db' r4 in
    let (_, free, e6, r6) = bind-ok (free_scopes request (pos request.now)) _ guard db db' r5 in
    let (_, end, e7, r7) =
      bind-ok
        (write_guard request (pos request.now) (pos request.claim_epoch)
          (pos request.boot_generation) (pos expires) goal_id)
        _ guard free db' r6 in
    issue_run request guard db db' goal_id expires free end e4 e6 e7 r7

-- A request that names a scope key whose lock is held never gets a guard.
pub issue_guard-held :
    (request : GuardIssueRequest) (key : ScopeKey) (l : LockRow) (db : Db)
    → contains request.scope_keys.keys key ≡ true
    → lock_on key db ≡ some l
    → l.lock_state ≡ held
    → (guard : ExecutionGuard) (db' : Db) → ¬ (issue_guard request db ≡ ok (guard, db'))
unfolding free_scopes
issue_guard-held request key l db c s h guard db' e =
    let run = issue_guard-run request guard db db' e in
    let (_, db₁, expired, rest) =
      bind-ok (expire_relevant_reservations request.scope_keys.keys (pos request.now)) _ tt db
        run.free run.were_free in
    let kept =
      expire_relevant_reservations-keeps_held request.scope_keys.keys (pos request.now) key l db db₁
        s h expired in
    let (unlocked, _) = check-last (check_unlocked request.scope_keys.keys) tt db₁ run.free rest in
    check_unlocked-refuses request.scope_keys.keys key l db₁ c kept unlocked
