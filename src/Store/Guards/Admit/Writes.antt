-- ===== src/Store/Guards/Admit/Writes.antt =====
-- The rows that `admit_guard` of sqlite.rs leaves.
use resolve.Base.{
  ◌≡◌, refl, Bool, true, List, [], ◌∷◌, some, none, ok, arith, ◌=?◌, ◌&&◌, ◌⊎◌, inl, inr, subst,
  sym,
}
use resolve.Base.Int.{ℤ, pos}
use resolve.Base.Canonical.{contains}
use resolve.Core.Types.{ScopeKey, GoalId, GuardId, goal_kind}
use resolve.Core.Equality.{identifier_eq}
use resolve.Core.Guards.{ScopeSet, scope_set_eq}
use resolve.Core.Events.{WorkEvent}
use resolve.Store.Sql.{select, exists}
use resolve.Store.Sql.Select.{select-test, select-update, exists-update}
use resolve.Store.Tables.{Db, CommitmentRow, LockRow, held, text_eq, int_eq, lock_state_eq}
use resolve.Store.Codec.{parse_id, next_state_version}
use resolve.Store.GuardRows.{GuardRow}
use resolve.Store.Tx.{append_event, ◌>>◌, bind-ok, try-ok, return}
use resolve.Store.Guards.{is_reserved_by}
use resolve.Store.Guards.Admit.{GuardAdmission, was_admitted, AdmitRequest, locks_match}
use resolve.Store.Guards.Admit.Apply.{
  bind_commitment, bind_guard, hold_locks, is_unbound, set_outstanding, set_admitted, set_held,
  bind_action,
}
use resolve.Base.{is_value}

abbrev pub is_held_by : AdmitRequest → ScopeKey → LockRow → Bool
is_held_by request key l =
    l.scope_key =? key.value
    && l.guard_id =? request.guard_id.value
    && l.lock_state =? held
    && is_value l.action_ref request.action_ref.value

-- The action is outstanding on the commitment, in its next version, and the guard holds a lock for
-- the action on each key.
pub record Promoted (request : AdmitRequest) (guard : GuardRow) (row : CommitmentRow) (db : Db)
    : Type 0 where
  pub version : ℤ
  pub next_version : next_state_version row.state_version ≡ ok version
  pub bound :
      select (λ c. c.commitment_id =? guard.commitment_id.value) db.commitments
      ≡ some (record row {
        outstanding_action = some request.action_ref.value;
        state_version = version;
      })
  pub holds_each :
      (key : ScopeKey)
      → contains request.scope_keys.keys key ≡ true
      → exists (is_held_by request key) db.scope_locks ≡ true

locks_match-exists :
    (keys : List ScopeKey) (guard_id : GuardId) (key : ScopeKey) (db : Db)
    → locks_match keys guard_id db ≡ true
    → contains keys key ≡ true
    → exists (λ l. l.scope_key =? key.value && is_reserved_by guard_id.value l) db.scope_locks
      ≡ true
unfolding locks_match contains
locks_match-exists [] guard_id key db m c = ground arith
locks_match-exists (k ∷ keys) guard_id key db m c =
    let ih = locks_match-exists keys guard_id key db in
    let here : (key ≡ k) ⊎ (contains keys key ≡ true) = ground arith in
    elim here [
      | inl same ↦
          subst
            (λ x.
              exists (λ l. l.scope_key =? x.value && is_reserved_by guard_id.value l) db.scope_locks
              ≡ true)
            (sym same) (ground arith)
      | inr later ↦ ih (ground arith) later
    ]

set_held-exists :
    (request : AdmitRequest) (key : ScopeKey) (db : Db)
    → exists
        (λ l. l.scope_key =? key.value && is_reserved_by request.guard_id.value l)
        db.scope_locks
      ≡ true
    → exists (is_held_by request key) (set_held request db).scope_locks ≡ true
set_held-exists request key db e =
    exists-update (λ l. l.scope_key =? key.value && is_reserved_by request.guard_id.value l)
      (is_reserved_by request.guard_id.value) (is_held_by request key)
      (λ l. record l {
        lock_state = held;
        action_ref = some request.action_ref.value;
        reservation_expires_at = none;
      })
      db.scope_locks (λ q t. ground arith) (λ q t. ground arith) e

bind_commitment-ok :
    (request : AdmitRequest) (guard : GuardRow) (row : CommitmentRow) (v : ℤ) (db db' : Db)
    → bind_commitment request guard row v db ≡ ok (tt, db')
    → db' ≡ set_outstanding request guard row v db
bind_commitment-ok request guard row v db db' e = ground arith

bind_guard-ok :
    (request : AdmitRequest) (guard : GuardRow) (v : ℤ) (db db' : Db)
    → bind_guard request guard v db ≡ ok (tt, db')
    → db' ≡ set_admitted request guard v db
bind_guard-ok request guard v db db' e = ground arith

hold_locks-ok :
    (request : AdmitRequest) (keys : ScopeSet) (db db' : Db)
    → hold_locks request keys db ≡ ok (tt, db')
    → db' ≡ set_held request db
hold_locks-ok request keys db db' e = ground arith

set_outstanding-row :
    (request : AdmitRequest) (guard : GuardRow) (row : CommitmentRow) (v : ℤ) (db : Db)
    → select (λ c. c.commitment_id =? guard.commitment_id.value) db.commitments ≡ some row
    → row.outstanding_action ≡ none
    → select
        (λ c. c.commitment_id =? guard.commitment_id.value)
        (set_outstanding request guard row v db).commitments
      ≡ some (record row { outstanding_action = some request.action_ref.value; state_version = v })
set_outstanding-row request guard row v db s idle =
    let test =
      select-test (λ c. c.commitment_id =? guard.commitment_id.value) row db.commitments s in
    select-update (λ c. c.commitment_id =? guard.commitment_id.value)
      (is_unbound guard.commitment_id.value row.state_version)
      (λ c. record c { outstanding_action = some request.action_ref.value; state_version = v }) row
      db.commitments (λ q. refl) s (ground arith)

-- The last steps of the transaction, after the three updates.
finish-ok :
    (request : AdmitRequest) (guard : GuardRow) (row : CommitmentRow) (v g : ℤ)
    (result : GuardAdmission) (goal : GoalId) (event : WorkEvent) (now : ℤ)
    (db db₁ db₂ db₃ db' : Db)
    → db₁ ≡ set_outstanding request guard row v db
    → db₂ ≡ set_admitted request guard g db₁
    → db₃ ≡ set_held request db₂
    → (append_event goal event now >> return was_admitted) db₃ ≡ ok (result, db')
    → (db'.commitments ≡ (set_outstanding request guard row v db).commitments)
      × (db'.scope_locks ≡ (set_held request db).scope_locks)
unfolding append_event
finish-ok request guard row v g result goal event now db db₁ db₂ db₃ db' p q r e =
    (ground arith, ground arith)

pub bind_action-Promoted :
    (request : AdmitRequest) (guard : GuardRow) (row : CommitmentRow) (result : GuardAdmission)
    (db db' : Db)
    → select (λ c. c.commitment_id =? guard.commitment_id.value) db.commitments ≡ some row
    → row.outstanding_action ≡ none
    → locks_match request.scope_keys.keys request.guard_id db ≡ true
    → bind_action request request.scope_keys guard row (pos request.now) db ≡ ok (result, db')
    → Promoted request guard row db'
unfolding bind_action
bind_action-Promoted request guard row result db db' s idle m e =
    let (v, next, r1) = try-ok (next_state_version row.state_version) _ result db db' e in
    let (g, _, r2) = try-ok (next_state_version guard.state_version) _ result db db' r1 in
    let (goal, _, r3) = try-ok (parse_id goal_kind row.goal_id "goal") _ result db db' r2 in
    let (_, db₁, p1, r4) = bind-ok (bind_commitment request guard row v) _ result db db' r3 in
    let (_, db₂, p2, r5) = bind-ok (bind_guard request guard g) _ result db₁ db' r4 in
    let (_, db₃, p3, r6) = bind-ok (hold_locks request request.scope_keys) _ result db₂ db' r5 in
    let (commitments, locks) =
      finish-ok request guard row v g result goal _ (pos request.now) db db₁ db₂ db₃ db'
        (bind_commitment-ok request guard row v db db₁ p1)
        (bind_guard-ok request guard g db₁ db₂ p2)
        (hold_locks-ok request request.scope_keys db₂ db₃ p3) r6 in
    record {
      version = v;
      next_version = next;
      bound =
          subst
            (λ rows.
              select (λ c. c.commitment_id =? guard.commitment_id.value) rows
              ≡ some (record row {
                outstanding_action = some request.action_ref.value;
                state_version = v;
              }))
            (sym commitments) (set_outstanding-row request guard row v db s idle);
      holds_each = λ key c.
          subst (λ rows. exists (is_held_by request key) rows ≡ true) (sym locks)
            (set_held-exists request key db
              (locks_match-exists request.scope_keys.keys request.guard_id key db m c));
    }
