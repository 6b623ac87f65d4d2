-- ===== src/Store/Protocol/Guards.antt =====
-- The guard transactions and the heartbeat keep each relation that admits their statements.
use resolve.Store.Sql.{exists}
use resolve.Base.{refl, ◌≡◌, ◌=?◌, ◌++◌, subst, arith, ℕ, suc, Bool, true, false, List, [], ◌∷◌}
use resolve.Base.Int.{ℤ}
use resolve.Base.Text.{Text}
use resolve.Core.Types.{ScopeKey}
use resolve.Core.Guards.{ScopeSet}
use resolve.Store.Tables.{
  Db, CommitmentRow, RawGuardColumns, LockRow, reserved, GuardScopeRow, text_eq,
}
use resolve.Store.Codec.{checked_i64}
use resolve.Store.GuardRows.{GuardRow}
use resolve.Store.Guards.{
  query_guard, query_guard_scopes, expire_each, expire_guard, finish_expiry,
  expire_relevant_reservations,
}
use resolve.Store.Guards.Issue.{
  GuardIssueRequest, reserve_key, reserve, write_guard, free_scopes, issue_guard, statement,
  insert_guard, insert_scope, insert_lock,
}
use resolve.Store.Guards.Admit.{AdmitRequest, Found, repeated, fresh}
use resolve.Store.Guards.Admit.Apply.{bind_action, admit_issued, admit_found, admit_guard}
use resolve.Store.Guards.Invalidate.{
  Invalidation, check_issued, check_unexpired, read_claimed, check_claimant, write_invalidated,
  invalidate_guard,
}
use resolve.Store.Claims.{Heartbeat, write_beat, finish_beat, record_heartbeat}
use resolve.Store.Protocol.Keeps.{
  Keeps, Allows, Reserves, Holds, Unlocks, bind-Keeps, try-then-Keeps, check-then-Keeps,
  transactions,
}

module _ {R : Db → Db → Type 0} ⦃allows : Allows R⦄ (unlocks : Unlocks R) where
  finish_expiry-Keeps :
      (changed : Bool) (now : ℤ) (goal_id guard_id : Text)
      → Keeps R (finish_expiry changed now goal_id guard_id)
  unfolding finish_expiry
  finish_expiry-Keeps false now goal_id guard_id = search (transactions)
  finish_expiry-Keeps true now goal_id guard_id = search (transactions, unlocks)

  expire_guard-Keeps : (now : ℤ) (guard_id : Text) → Keeps R (expire_guard now guard_id)
  unfolding expire_guard
  expire_guard-Keeps now guard_id = search (transactions, allows.guard, finish_expiry-Keeps)

  expire_each-Keeps : (now : ℤ) (guard_ids : List Text) → Keeps R (expire_each now guard_ids)
  unfolding expire_each
  expire_each-Keeps now [] = search (transactions)
  expire_each-Keeps now (g ∷ gs) =
      bind-Keeps _ _ (expire_guard-Keeps now g) (λ _. expire_each-Keeps now gs)

  pub expire_relevant_reservations-Keeps :
      (keys : List ScopeKey) (now : ℤ) → Keeps R (expire_relevant_reservations keys now)
  unfolding expire_relevant_reservations
  expire_relevant_reservations-Keeps keys now = search (transactions, expire_each-Keeps)

  insert_guard-Keeps : (row : RawGuardColumns) → Keeps R (statement (insert_guard row))
  unfolding insert_guard
  insert_guard-Keeps row = record {
    keeps = λ a db db' e.
        let same : record db { execution_guards = db'.execution_guards } ≡ db' = ground arith in
        subst (λ d. R db d) same (allows.guard db'.execution_guards db);
  }

  insert_scope-Keeps : (row : GuardScopeRow) → Keeps R (statement (insert_scope row))
  unfolding insert_scope
  insert_scope-Keeps row = record {
    keeps = λ a db db' e.
        let same : record db { execution_guard_scopes = db'.execution_guard_scopes } ≡ db' =
          ground arith in
        subst (λ d. R db d) same (allows.scope db'.execution_guard_scopes db);
  }

  insert_lock-Keeps :
      (row : LockRow)
      → row.lock_state ≡ reserved
      → Reserves R row.guard_id
      → Keeps R (statement (insert_lock row))
  unfolding insert_lock
  insert_lock-Keeps row is_new reserves = record {
    keeps = λ a db db' e.
        let (absent, same) : (exists (λ r. r.scope_key =? row.scope_key) db.scope_locks ≡ false)
            × (record db { scope_locks = db.scope_locks ++ row ∷ [] } ≡ db') =
          (ground arith, ground arith) in
        subst (λ d. R db d) same (reserves row db is_new refl absent);
  }

  reserve-Keeps :
      (request : GuardIssueRequest) (reservation_ticks : ℤ) (ordinal : ℕ) (keys : List ScopeKey)
      → Reserves R request.guard_id.value
      → Keeps R (reserve request reservation_ticks ordinal keys)
  unfolding reserve reserve_key
  reserve-Keeps request reservation_ticks ordinal [] reserves = search (transactions)
  reserve-Keeps request reservation_ticks ordinal (k ∷ ks) reserves =
      bind-Keeps (reserve_key request reservation_ticks ordinal k) _
        (search (transactions, insert_scope-Keeps, insert_lock-Keeps))
        (λ _. reserve-Keeps request reservation_ticks (suc ordinal) ks reserves)

  write_guard-Keeps :
      (request : GuardIssueRequest) (now epoch boot reservation : ℤ) (goal : Text)
      → Reserves R request.guard_id.value
      → Keeps R (write_guard request now epoch boot reservation goal)
  unfolding write_guard
  write_guard-Keeps request now epoch boot reservation goal reserves =
      search (transactions, insert_guard-Keeps, reserve-Keeps) depth 20

  free_scopes-Keeps : (request : GuardIssueRequest) (now : ℤ) → Keeps R (free_scopes request now)
  unfolding free_scopes
  free_scopes-Keeps request now = search (transactions, expire_relevant_reservations-Keeps)

  pub issue_guard-Keeps :
      (request : GuardIssueRequest)
      → Reserves R request.guard_id.value
      → Keeps R (issue_guard request)
  unfolding issue_guard
  issue_guard-Keeps request reserves =
      search (transactions, free_scopes-Keeps, write_guard-Keeps) depth 20

  bind_action-Keeps :
      (request : AdmitRequest) (keys : ScopeSet) (guard : GuardRow) (row : CommitmentRow) (now : ℤ)
      → Holds R request
      → Keeps R (bind_action request keys guard row now)
  unfolding bind_action
  bind_action-Keeps request keys guard row now holds =
      search (transactions, allows.guard, allows.change) depth 20

  admit_found-Keeps :
      (state : Found) (request : AdmitRequest) (keys : ScopeSet) (now : ℤ)
      → Holds R request
      → Keeps R (admit_found state request keys now)
  unfolding admit_found admit_issued
  admit_found-Keeps repeated request keys now holds = search (transactions)
  admit_found-Keeps fresh request keys now holds =
      search (transactions, expire_relevant_reservations-Keeps, bind_action-Keeps) depth 20

  pub admit_guard-Keeps : (request : AdmitRequest) → Holds R request → Keeps R (admit_guard request)
  unfolding admit_guard
  admit_guard-Keeps request holds = search (transactions, admit_found-Keeps)

  write_invalidated-Keeps :
      (request : Invalidation) (guard : GuardRow) (goal : Text) (now : ℤ)
      → Keeps R (write_invalidated request guard goal now)
  unfolding write_invalidated
  write_invalidated-Keeps request guard goal now =
      search (transactions, unlocks, allows.guard) depth 20

  pub invalidate_guard-Keeps : (request : Invalidation) → Keeps R (invalidate_guard request)
  unfolding invalidate_guard
  invalidate_guard-Keeps request =
      try-then-Keeps (checked_i64 request.now "current monotonic instant") _ (λ now_ticks.
        check-then-Keeps (query_guard request.guard_id) _ (λ found.
          try-then-Keeps (check_issued request found) _ (λ _.
            check-then-Keeps (query_guard_scopes request.guard_id) _ (λ scope_keys.
              bind-Keeps _ _ (expire_relevant_reservations-Keeps scope_keys.keys now_ticks) (λ _.
                check-then-Keeps (query_guard request.guard_id) _ (λ guard.
                  try-then-Keeps (check_unexpired request guard) _ (λ _.
                    check-then-Keeps (read_claimed guard) _ (λ p.
                      check-then-Keeps (check_claimant request guard p.1) _
                        (λ _. write_invalidated-Keeps request guard p.0.goal_id now_ticks)))))))))

module _ {R : Db → Db → Type 0} ⦃allows : Allows R⦄ where
  finish_beat-Keeps :
      (current : Bool) (beat : Heartbeat) (now epoch : ℤ) (goal : Text) (heartbeat : ℤ)
      → Keeps R (finish_beat current beat now epoch goal heartbeat)
  unfolding finish_beat write_beat
  finish_beat-Keeps true beat now epoch goal heartbeat = search (transactions)
  finish_beat-Keeps false beat now epoch goal heartbeat =
      search (transactions, allows.reclaim) depth 20

  pub record_heartbeat-Keeps : (beat : Heartbeat) → Keeps R (record_heartbeat beat)
  unfolding record_heartbeat
  record_heartbeat-Keeps beat = search (transactions, finish_beat-Keeps) depth 20
