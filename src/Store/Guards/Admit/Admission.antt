-- ===== src/Store/Guards/Admit/Admission.antt =====
-- The theorem on an admission by `admit_guard` of sqlite.rs.
use resolve.Base.{◌∙◌, ◌≡◌, true, ok, arith, ok_or-ok, subst}
use resolve.Base.Int.{pos}
use resolve.Core.Equality.{identifier_eq}
use resolve.Core.Guards.{ScopeSet, scope_set_eq}
use resolve.Store.Tables.{Db, CommitmentRow, ClaimRow, text_eq, int_eq, lock_state_eq}
use resolve.Store.GuardRows.{GuardRow}
use resolve.Store.Tx.{bind-ok, try-ok, check-ok, checked_i64-then}
use resolve.Store.Guards.{query_guard, query_guard_scopes, expire_relevant_reservations}
use resolve.Store.Guards.Admit.{
  GuardAdmission, was_admitted, AdmitRequest, Found, repeated, fresh, inspect, check_reservation,
  locks_match, commitment_context, check_task, check_fence,
}
use resolve.Store.Guards.Admit.Apply.{
  read_context, bind_action, admit_issued, admit_found, admit_guard,
}
use resolve.Store.Guards.Admit.Promotion.{
  Admissible, check_reservation-ok, check_task-ok, check_fence-ok, commitment_context-select,
}
use resolve.Store.Guards.Admit.Writes.{Promoted, bind_action-Promoted}

admit_issued-ok :
    (request : AdmitRequest) (keys : ScopeSet) (result : GuardAdmission) (db db' : Db)
    → admit_issued request keys (pos request.now) db ≡ ok (result, db')
    → (guard : GuardRow) × (row : CommitmentRow) × (claim : ClaimRow) × (before : Db)
      × (expire_relevant_reservations keys.keys (pos request.now) db ≡ ok (tt, before))
      × (keys ≡ request.scope_keys)
      × Admissible request guard row claim before
      × Promoted request guard row db'
unfolding admit_issued
admit_issued-ok request keys result db db' e =
    let (_, before, expired, r1) =
      bind-ok (expire_relevant_reservations keys.keys (pos request.now)) _ result db db' e in
    let (guard, found, r2) = check-ok (query_guard request.guard_id) _ result before db' r1 in
    let (_, reservation, r3) =
      check-ok (check_reservation request keys guard) _ result before db' r2 in
    let (context, read, r4) = check-ok (read_context guard) _ result before db' r3 in
    let (_, task, r5) = try-ok (check_task context.commitment) _ result before db' r4 in
    let (_, fence, r6) = check-ok (check_fence guard context) _ result before db' r5 in
    let (deadline, expires, unexpired, issued', same, locked) =
      check_reservation-ok request keys guard before reservation in
    let (works, idle) = check_task-ok context.commitment task in
    let (claim, has_claim, epoch, mark, of_claim, current) =
      check_fence-ok guard context before fence in
    let (at_row, at_claim) =
      commitment_context-select guard.commitment_id.value context before
        (ok_or-ok (commitment_context guard.commitment_id.value before) _ context read) in
    let locked' = subst (λ k. locks_match k.keys request.guard_id before ≡ true) same locked in
    let bound =
      subst
        (λ k.
          bind_action request k guard context.commitment (pos request.now) before
          ≡ ok (result, db'))
        same r6 in
    (
      guard,
      context.commitment,
      claim,
      before,
      expired,
      same,
      record {
        deadline = deadline;
        is_guard = found;
        not_bound = issued';
        expires = expires;
        unexpired = unexpired;
        locked = locked';
        is_commitment = at_row;
        is_claim = at_claim ∙ has_claim;
        works = works;
        no_action = idle;
        same_epoch = epoch;
        high_water = mark;
        claim_boot = of_claim;
        current_boot = current;
      },
      bind_action-Promoted request guard context.commitment result before db' at_row idle locked'
          bound,
    )

admit_found-ok :
    (state : Found) (request : AdmitRequest) (keys : ScopeSet) (db db' : Db)
    → admit_found state request keys (pos request.now) db ≡ ok (was_admitted, db')
    → admit_issued request keys (pos request.now) db ≡ ok (was_admitted, db')
unfolding admit_found
admit_found-ok repeated request keys db db' e = absurd (ground arith)
admit_found-ok fresh request keys db db' e = e

-- When a guard is admitted, it was admissible in the sense of `Admissible` after the reactive
-- expiry, for exactly its stored scope keys, and the database is left `Promoted`.
pub admit_guard_lem :
    (request : AdmitRequest) (db db' : Db)
    → admit_guard request db ≡ ok (was_admitted, db')
    → (guard : GuardRow) × (row : CommitmentRow) × (claim : ClaimRow) × (before : Db)
      × (expire_relevant_reservations request.scope_keys.keys (pos request.now) db
          ≡ ok (tt, before))
      × (query_guard_scopes request.guard_id db ≡ ok request.scope_keys)
      × Admissible request guard row claim before
      × Promoted request guard row db'
unfolding admit_guard
admit_guard_lem request db db' e =
    let r1 = checked_i64-then request.now "current monotonic instant" _ was_admitted db db' e in
    let (guard, _, r2) = check-ok (query_guard request.guard_id) _ was_admitted db db' r1 in
    let (keys, stored, r3) =
      check-ok (query_guard_scopes request.guard_id) _ was_admitted db db' r2 in
    let (state, _, r4) = try-ok (inspect request guard keys) _ was_admitted db db' r3 in
    let (guard', row, claim, before, expired, same, admissible, promoted) =
      admit_issued-ok request keys was_admitted db db'
        (admit_found-ok state request keys db db' r4) in
    (
      guard',
      row,
      claim,
      before,
      subst (λ k. expire_relevant_reservations k.keys (pos request.now) db ≡ ok (tt, before)) same
          expired,
      subst (λ k. query_guard_scopes request.guard_id db ≡ ok k) same stored,
      admissible,
      promoted,
    )
