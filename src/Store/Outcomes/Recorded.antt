-- ===== src/Store/Outcomes/Recorded.antt =====
-- What `record_tethers_outcome` of sqlite.rs has checked when it records an outcome, and the rows
-- that it leaves.
use resolve.Base.{
  ℕ, ◌+◌, subst, sym, ◌≡◌, refl, ap, ◌∙◌, Bool, true, false, List, [], ◌∷◌, some, none, ok, arith,
  ◌=?◌, ◌⊎◌, inl, inr,
}
use resolve.Base.Int.{ℤ, pos}
use resolve.Core.Types.{
  GuardId, GoalId, CommitmentState, proposed, ready, claimed, working, recovery_pending, waiting,
  completion_proposed, completed, cancelled, abandoned, uncertain_action, is_uncertain,
}
use resolve.Core.Equality.{identifier_eq}
use resolve.Core.Guards.{
  ScopeSet, GuardState, admitted, issued, resolved, uncertain_guard, invalidated,
}
use resolve.Store.Sql.{select, delete, exists, update}
use resolve.Store.Sql.Select.{select-test, select-update}
use resolve.Store.GuardRows.{GuardRow}
use resolve.Store.Tables.{Db, CommitmentRow, text_eq, int_eq, lock_state_eq}
use resolve.Store.Codec.{next_state_version, encode_commitment_state, decode_commitment_state}
use resolve.Store.Guards.{query_guard}
use resolve.Store.Outcomes.{
  Report, action_of, find_guard, check_binding, is_known, check_outstanding, is_held_lock_of,
  is_bound_to, may_have_outcome,
}
use resolve.Store.Outcomes.Record.{record_by, state_after}
use resolve.Store.Outcomes.Writes.{SafeWrites, UncertainWrites, record_safe-ok, record_uncertain-ok}

delete-exists : {A : Type 0} (drop : A → Bool) (rs : List A) → exists drop (delete drop rs) ≡ false
unfolding exists delete
delete-exists drop [] = refl
delete-exists drop (r ∷ rs) = let ih = delete-exists drop rs in ground arith

-- The action was admitted under the guard and outstanding on its commitment.
pub record Outstanding (report : Report) (guard_id : GuardId) (guard : GuardRow)
    (row : CommitmentRow) (state : CommitmentState) (db : Db) : Type 0 where
  pub found : find_guard (action_of report) db ≡ ok guard_id
  pub read : query_guard guard_id db ≡ ok guard
  pub bound :
      check_binding (action_of report) guard.preparation_digest report.preparation_digest ≡ ok tt
  pub was_admitted : guard.state ≡ admitted (action_of report)
  pub stored : select (λ c. c.commitment_id =? guard.commitment_id.value) db.commitments ≡ some row
  pub outstanding : row.outstanding_action ≡ some (action_of report).value
  pub decoded : decode_commitment_state row.state_json ≡ ok state
  pub was_live : (state ≡ working) ⊎ (state ≡ recovery_pending)

pub is_known-fresh :
    (report : Report) (guard_id : GuardId) (state : GuardState)
    → is_known report guard_id state ≡ ok false
    → state ≡ admitted (action_of report)
unfolding is_known
is_known-fresh report guard_id issued e = absurd (ground arith)
is_known-fresh report guard_id (admitted a) e = ground arith
is_known-fresh report guard_id (resolved a o) e = absurd (ground arith)
is_known-fresh report guard_id (uncertain_guard a) e = absurd (ground arith)
is_known-fresh report guard_id invalidated e = absurd (ground arith)

pub may_have_outcome-live :
    (state : CommitmentState)
    → may_have_outcome state ≡ true
    → (state ≡ working) ⊎ (state ≡ recovery_pending)
may_have_outcome-live working e = inl refl
may_have_outcome-live recovery_pending e = inr refl
may_have_outcome-live proposed e = absurd (ground arith)
may_have_outcome-live ready e = absurd (ground arith)
may_have_outcome-live claimed e = absurd (ground arith)
may_have_outcome-live (waiting r) e = absurd (ground arith)
may_have_outcome-live completion_proposed e = absurd (ground arith)
may_have_outcome-live completed e = absurd (ground arith)
may_have_outcome-live cancelled e = absurd (ground arith)
may_have_outcome-live abandoned e = absurd (ground arith)

pub check_outstanding-ok :
    (report : Report) (guard_id : GuardId) (row : CommitmentRow) (state : CommitmentState)
    → check_outstanding report guard_id row ≡ ok state
    → (row.outstanding_action ≡ some (action_of report).value)
      × (decode_commitment_state row.state_json ≡ ok state)
      × (may_have_outcome state ≡ true)
unfolding check_outstanding
check_outstanding-ok report guard_id row state e = (ground arith, ground arith, ground arith)

-- The rows after an outcome that is safe, and after one that is not.
pub data Left (report : Report) (guard : GuardRow) (row : CommitmentRow) (state : CommitmentState)
    (db db' : Db) : Type 0 where
  left_safe :
      is_uncertain report.outcome ≡ false
      → SafeWrites report guard row state db db'
      → Left report guard row state db db'
  left_uncertain :
      is_uncertain report.outcome ≡ true
      → UncertainWrites report guard row db db'
      → Left report guard row state db db'

pub record_by-ok :
    (is : Bool) (report : Report) (guard : GuardRow) (row : CommitmentRow) (state : CommitmentState)
    (goal_id : GoalId) (keys : ScopeSet) (db db' : Db)
    → is_uncertain report.outcome ≡ is
    → record_by is report guard row state goal_id keys db ≡ ok (tt, db')
    → Left report guard row state db db'
unfolding record_by
record_by-ok true report guard row state goal_id keys db db' is e =
    left_uncertain is (record_uncertain-ok report guard row goal_id db db' e)
record_by-ok false report guard row state goal_id keys db db' is e =
    left_safe is (record_safe-ok report guard row state goal_id keys db db' e)

-- What becomes of the state of the commitment: work goes on, and recovery has ended.
pub data SettledState : CommitmentState → CommitmentState → Type 0 where
  keeps_working : SettledState working working
  ends_recovery : SettledState recovery_pending ready

-- A version and the one after it.
abbrev pub IsNext : ℤ → ℤ → Type 0
IsNext before version = (n : ℕ) → before ≡ pos n → version ≡ pos (n + 1)

-- After a safe outcome the commitment, in its next version, has no outstanding action: it works on, or
-- its recovery has ended in READY. The guard holds no lock, and the claims are as they were.
pub record Settled (report : Report) (guard : GuardRow) (row : CommitmentRow)
    (state : CommitmentState) (db db' : Db) : Type 0 where
  pub version : ℤ
  pub is_next : IsNext row.state_version version
  pub next_state : CommitmentState
  pub settles : SettledState state next_state
  pub goes_on :
      select (λ c. c.commitment_id =? guard.commitment_id.value) db'.commitments
      ≡ some (record row {
        state_json = encode_commitment_state next_state;
        outstanding_action = none;
        state_version = version;
      })
  pub released : exists (is_held_lock_of guard.guard_id.value) db'.scope_locks ≡ false
  pub same_claims : db'.claims ≡ db.claims

-- After an uncertain one it waits on the action, which stays outstanding, in the next version and
-- without a claim, and every lock is as it was.
pub record Waits (report : Report) (guard : GuardRow) (row : CommitmentRow) (db db' : Db)
    : Type 0 where
  pub version : ℤ
  pub is_next : IsNext row.state_version version
  pub waits :
      select (λ c. c.commitment_id =? guard.commitment_id.value) db'.commitments
      ≡ some (record row {
        state_json = encode_commitment_state (waiting (uncertain_action (action_of report)));
        state_version = version;
      })
  pub unclaimed : exists (λ c. c.commitment_id =? guard.commitment_id.value) db'.claims ≡ false
  pub same_locks : db'.scope_locks ≡ db.scope_locks

next_state_version-IsNext :
    (before version : ℤ) → next_state_version before ≡ ok version → IsNext before version
unfolding next_state_version
next_state_version-IsNext before version e n p = ground arith

state_after-SettledState :
    (state : CommitmentState)
    → (state ≡ working) ⊎ (state ≡ recovery_pending)
    → SettledState state (state_after state)
state_after-SettledState state (inl w) =
    subst (λ s. SettledState s (state_after s)) (sym w) keeps_working
state_after-SettledState state (inr r) =
    subst (λ s. SettledState s (state_after s)) (sym r) ends_recovery

bound-row :
    (report : Report) (guard : GuardRow) (row : CommitmentRow) (f : CommitmentRow → CommitmentRow)
    (db : Db)
    → select (λ c. c.commitment_id =? guard.commitment_id.value) db.commitments ≡ some row
    → row.outstanding_action ≡ some (action_of report).value
    → ((c : CommitmentRow) → (f c).commitment_id ≡ c.commitment_id)
    → select
        (λ c. c.commitment_id =? guard.commitment_id.value)
        (update
          (is_bound_to guard.commitment_id.value row.state_version (action_of report))
          f
          db.commitments)
      ≡ some (f row)
bound-row report guard row f db s o same =
    let test =
      select-test (λ c. c.commitment_id =? guard.commitment_id.value) row db.commitments s in
    select-update (λ c. c.commitment_id =? guard.commitment_id.value)
      (is_bound_to guard.commitment_id.value row.state_version (action_of report)) f row
      db.commitments (λ q. ap (λ id. id =? guard.commitment_id.value) (same q)) s (ground arith)

pub SafeWrites-Settled :
    (report : Report) (guard_id : GuardId) (guard : GuardRow) (row : CommitmentRow)
    (state : CommitmentState) (db db' : Db)
    → Outstanding report guard_id guard row state db
    → SafeWrites report guard row state db db'
    → Settled report guard row state db db'
SafeWrites-Settled report guard_id guard row state db db' o w = record {
  version = w.version;
  is_next = next_state_version-IsNext row.state_version w.version w.next;
  next_state = state_after state;
  settles = state_after-SettledState state o.was_live;
  goes_on =
      ap (select (λ c. c.commitment_id =? guard.commitment_id.value)) w.commitments
      ∙ bound-row report guard row _ db o.stored o.outstanding (λ q. refl);
  released =
      ap (exists (is_held_lock_of guard.guard_id.value)) w.locks
      ∙ delete-exists (is_held_lock_of guard.guard_id.value) db.scope_locks;
  same_claims = w.claims;
}

pub UncertainWrites-Waits :
    (report : Report) (guard_id : GuardId) (guard : GuardRow) (row : CommitmentRow)
    (state : CommitmentState) (db db' : Db)
    → Outstanding report guard_id guard row state db
    → UncertainWrites report guard row db db'
    → Waits report guard row db db'
UncertainWrites-Waits report guard_id guard row state db db' o w = record {
  version = w.version;
  is_next = next_state_version-IsNext row.state_version w.version w.next;
  waits =
      ap (select (λ c. c.commitment_id =? guard.commitment_id.value)) w.commitments
      ∙ bound-row report guard row _ db o.stored o.outstanding (λ q. refl);
  unclaimed =
      ap (exists (λ c. c.commitment_id =? guard.commitment_id.value)) w.claims
      ∙ delete-exists (λ c. c.commitment_id =? guard.commitment_id.value) db.claims;
  same_locks = w.locks;
}
