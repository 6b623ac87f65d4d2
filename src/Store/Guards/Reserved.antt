-- ===== src/Store/Guards/Reserved.antt =====
-- The locks that `issue_guard` of sqlite.rs writes.
use resolve.Base.{
  ℕ, suc, ◌≡◌, subst, sym, true, List, [], ◌∷◌, some, ok, arith, ◌=?◌, ◌⊎◌, inl, inr,
}
use resolve.Base.Int.{ℤ, pos}
use resolve.Base.Text.{Text}
use resolve.Base.Canonical.{contains}
use resolve.Core.Types.{ScopeKey, goal_kind}
use resolve.Core.Equality.{identifier_eq}
use resolve.Core.Guards.{ExecutionGuard, issue}
use resolve.Store.Sql.Select.{select-append_new, select-append}
use resolve.Store.Tables.{Db, LockRow, text_eq}
use resolve.Store.Codec.{parse_id}
use resolve.Store.Tx.{append_event, bind-ok, try-ok}
use resolve.Store.Guards.Issue.{
  GuardIssueRequest, issue_guard, lock_on, reserve_key, reserve, reserved_lock, write_guard,
  insert_guard, insert_scope, insert_lock, statement, issued_row,
}
use resolve.Store.Guards.Locks.{issue_guard-run}

module _ (request : GuardIssueRequest) (ticks : ℤ) where
  reserve_key-locks :
      (ordinal : ℕ) (key : ScopeKey) (db db' : Db)
      → reserve_key request ticks ordinal key db ≡ ok (tt, db')
      → lock_on key db' ≡ some (reserved_lock request ticks key)
  unfolding reserve_key insert_scope insert_lock
  reserve_key-locks ordinal key db db' e =
      let new =
        select-append_new (λ l. l.scope_key =? key.value) (reserved_lock request ticks key)
          db.scope_locks in
      ground arith

  reserve_key-keeps :
      (ordinal : ℕ) (key other : ScopeKey) (l : LockRow) (db db' : Db)
      → reserve_key request ticks ordinal key db ≡ ok (tt, db')
      → lock_on other db ≡ some l
      → lock_on other db' ≡ some l
  unfolding reserve_key insert_scope insert_lock
  reserve_key-keeps ordinal key other l db db' e s =
      let kept =
        select-append (λ l'. l'.scope_key =? other.value) l db.scope_locks
          (reserved_lock request ticks key ∷ []) s in
      ground arith

  reserve-keeps :
      (ordinal : ℕ) (keys : List ScopeKey) (other : ScopeKey) (l : LockRow) (db db' : Db)
      → reserve request ticks ordinal keys db ≡ ok (tt, db')
      → lock_on other db ≡ some l
      → lock_on other db' ≡ some l
  unfolding reserve
  reserve-keeps ordinal [] other l db db' e s = ground arith
  reserve-keeps ordinal (key ∷ keys) other l db db' e s =
      let (_, db₁, first, rest) = bind-ok (reserve_key request ticks ordinal key) _ tt db db' e in
      reserve-keeps (suc ordinal) keys other l db₁ db' rest
        (reserve_key-keeps ordinal key other l db db₁ first s)

  reserve-locks :
      (ordinal : ℕ) (keys : List ScopeKey) (key : ScopeKey) (db db' : Db)
      → reserve request ticks ordinal keys db ≡ ok (tt, db')
      → contains keys key ≡ true
      → lock_on key db' ≡ some (reserved_lock request ticks key)
  unfolding reserve contains
  reserve-locks ordinal [] key db db' e c = ground arith
  reserve-locks ordinal (k ∷ keys) key db db' e c =
      let (_, db₁, first, rest) = bind-ok (reserve_key request ticks ordinal k) _ tt db db' e in
      let here : (key ≡ k) ⊎ (contains keys key ≡ true) = ground arith in
      elim here [
        | inl same ↦ reserve-keeps (suc ordinal) keys key _ db₁ db' rest (
            subst (λ x. lock_on x db₁ ≡ some (reserved_lock request ticks x)) (sym same)
              (reserve_key-locks ordinal k db db₁ first))
        | inr later ↦ reserve-locks (suc ordinal) keys key db₁ db' rest later
      ]

write_guard-locks :
    (request : GuardIssueRequest) (now epoch boot ticks : ℤ) (goal_id : Text) (key : ScopeKey)
    (db db' : Db)
    → write_guard request now epoch boot ticks goal_id db ≡ ok (tt, db')
    → contains request.scope_keys.keys key ≡ true
    → lock_on key db' ≡ some (reserved_lock request ticks key)
unfolding write_guard append_event
write_guard-locks request now epoch boot ticks goal_id key db db' e c =
    let (goal, _, r1) = try-ok (parse_id goal_kind goal_id "goal") _ tt db db' e in
    let (_, db₁, _, r2) =
      bind-ok (statement (insert_guard (issued_row request epoch boot ticks))) _ tt db db' r1 in
    let (_, db₂, reserved_, r3) =
      bind-ok (reserve request ticks 0 request.scope_keys.keys) _ tt db₁ db' r2 in
    let locked = reserve-locks request ticks 0 request.scope_keys.keys key db₁ db₂ reserved_ c in
    ground arith

-- After a guard is issued, each requested key is locked for it, as a reservation that ends with it.
pub issue_guard-locks :
    (request : GuardIssueRequest) (guard : ExecutionGuard) (key : ScopeKey) (db db' : Db)
    → issue_guard request db ≡ ok (guard, db')
    → contains request.scope_keys.keys key ≡ true
    → lock_on key db' ≡ some (reserved_lock request (pos guard.reservation_expires_at) key)
unfolding issue
issue_guard-locks request guard key db db' e c =
    let run = issue_guard-run request guard db db' e in
    subst (λ g. lock_on key db' ≡ some (reserved_lock request (pos g.reservation_expires_at) key))
      (sym run.result)
      (write_guard-locks request _ _ _ (pos run.expires) run.goal_id key run.free db' run.written c)
