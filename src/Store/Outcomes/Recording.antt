-- ===== src/Store/Outcomes/Recording.antt =====
-- `record_tethers_outcome` of sqlite.rs: what a recorded outcome says of the rows before and after.
use resolve.Base.{
  List, subst, ◌≡◌, refl, ◌⊎◌, inl, inr, Bool, true, false, ok, arith, ok_or-ok, ◌=?◌, ◌++◌, ◌∷◌,
  [],
}
use resolve.Core.Types.{GuardId, CommitmentState, is_uncertain, goal_kind}
use resolve.Core.Events.{tethers_outcome_recorded}
use resolve.Store.GuardRows.{GuardRow}
use resolve.Store.Sql.{select}
use resolve.Store.Tables.{Db, CommitmentRow, EventRow, text_eq}
use resolve.Store.Tx.{append_event, bind-ok, try-ok, check-ok}
use resolve.Store.Codec.{parse_id}
use resolve.Store.Guards.{query_guard, query_guard_scopes}
use resolve.Store.Outcomes.{
  was_recorded, Report, action_of, find_guard, check_binding, is_known, read_commitment,
  check_outstanding,
}
use resolve.Store.Outcomes.Record.{record_by, record_new, record_unless, record_tethers_outcome}
use resolve.Store.Outcomes.Recorded.{
  Outstanding, is_known-fresh, check_outstanding-ok, may_have_outcome-live, Left, left_safe,
  left_uncertain, record_by-ok, Settled, Waits, SafeWrites-Settled, UncertainWrites-Waits,
}

record_unless-new :
    (known : Bool) (report : Report) (guard_id : GuardId) (guard : GuardRow) (db db' : Db)
    → record_unless known report guard_id guard db ≡ ok (was_recorded, db')
    → (known ≡ false) × (record_new report guard_id guard db ≡ ok (was_recorded, db'))
unfolding record_unless
record_unless-new true report guard_id guard db db' e = absurd (ground arith)
record_unless-new false report guard_id guard db db' e = (refl, e)

-- The event that is appended first changes no other row.
Left-append :
    (report : Report) (guard : GuardRow) (row : CommitmentRow) (state : CommitmentState)
    (rows : List EventRow) (db db' : Db)
    → Left report guard row state (record db { work_events = rows }) db'
    → Left report guard row state db db'
Left-append report guard row state rows db db' (left_safe is w) = left_safe is (record {
  version = w.version;
  next = w.next;
  guard_version = w.guard_version;
  commitments = w.commitments;
  guards = w.guards;
  locks = w.locks;
  claims = w.claims;
})
Left-append report guard row state rows db db' (left_uncertain is w) = left_uncertain is (record {
  version = w.version;
  next = w.next;
  guard_version = w.guard_version;
  commitments = w.commitments;
  guards = w.guards;
  locks = w.locks;
  claims = w.claims;
})

pub record_new-ok :
    (report : Report) (guard_id : GuardId) (guard : GuardRow) (db db' : Db)
    → record_new report guard_id guard db ≡ ok (was_recorded, db')
    → (row : CommitmentRow) × (state : CommitmentState) × (read_commitment guard db ≡ ok row)
      × (check_outstanding report guard_id row ≡ ok state)
      × Left report guard row state db db'
unfolding record_new append_event
record_new-ok report guard_id guard db db' e =
    let (row, read, r1) = check-ok (read_commitment guard) _ was_recorded db db' e in
    let (state, live, r2) =
      try-ok (check_outstanding report guard_id row) _ was_recorded db db' r1 in
    let (goal_id, _, r3) =
      try-ok (parse_id goal_kind row.goal_id "goal") _ was_recorded db db' r2 in
    let mid = record db {
      work_events =
          db.work_events
          ++ record {
            goal_id = goal_id.value;
            event = tethers_outcome_recorded report.outcome report.preparation_digest;
            created_at = report.created_at;
          }
            ∷ [];
    } in
    let (keys, _, r4) = check-ok (query_guard_scopes guard_id) _ was_recorded mid db' r3 in
    let (_, end, written, r5) =
      bind-ok (record_by (is_uncertain report.outcome) report guard row state goal_id keys) _
        was_recorded mid db' r4 in
    let last : end ≡ db' = ground arith in
    let left =
      record_by-ok (is_uncertain report.outcome) report guard row state goal_id keys mid end refl
        written in
    (
      row,
      state,
      read,
      live,
      Left-append report guard row state _ db db'
          (subst (λ d. Left report guard row state mid d) last left),
    )

Left-facts :
    (report : Report) (guard_id : GuardId) (guard : GuardRow) (row : CommitmentRow)
    (state : CommitmentState) (db db' : Db)
    → Outstanding report guard_id guard row state db
    → Left report guard row state db db'
    → ((is_uncertain report.outcome ≡ false) × Settled report guard row state db db')
      ⊎ ((is_uncertain report.outcome ≡ true) × Waits report guard row db db')
Left-facts report guard_id guard row state db db' o (left_safe is w) =
    inl (is, SafeWrites-Settled report guard_id guard row state db db' o w)
Left-facts report guard_id guard row state db db' o (left_uncertain is w) =
    inr (is, UncertainWrites-Waits report guard_id guard row state db db' o w)

-- The rows before and after, as they were read and written.
pub record_tethers_outcome-Left :
    (report : Report) (db db' : Db)
    → record_tethers_outcome report db ≡ ok (was_recorded, db')
    → (guard_id : GuardId) × (guard : GuardRow) × (row : CommitmentRow) × (state : CommitmentState)
      × Outstanding report guard_id guard row state db
      × Left report guard row state db db'
unfolding record_tethers_outcome
record_tethers_outcome-Left report db db' e =
    let (guard_id, found, r1) = check-ok (find_guard (action_of report)) _ was_recorded db db' e in
    let (guard, read, r2) = check-ok (query_guard guard_id) _ was_recorded db db' r1 in
    let (_, bound, r3) =
      try-ok (check_binding (action_of report) guard.preparation_digest report.preparation_digest) _
        was_recorded db db' r2 in
    let (known, k, r4) = try-ok (is_known report guard_id guard.state) _ was_recorded db db' r3 in
    let (new, r5) = record_unless-new known report guard_id guard db db' r4 in
    let (row, state, got, live, left) = record_new-ok report guard_id guard db db' r5 in
    let (out, decoded, may) = check_outstanding-ok report guard_id row state live in
    let o : Outstanding report guard_id guard row state db = record {
      found = found;
      read = read;
      bound = bound;
      was_admitted =
          is_known-fresh report guard_id guard.state
            (subst (λ b. is_known report guard_id guard.state ≡ ok b) new k);
      stored =
          ok_or-ok (select (λ c. c.commitment_id =? guard.commitment_id.value) db.commitments) _ row
            got;
      outstanding = out;
      decoded = decoded;
      was_live = may_have_outcome-live state may;
    } in
    (guard_id, guard, row, state, o, left)

-- When an outcome is recorded, its action was admitted under the guard that it names and outstanding
-- on the guard's commitment, which was working or pending recovery. After a safe outcome nothing is
-- outstanding there, work goes on or a pending recovery has ended in READY, and the guard holds no
-- lock; after an uncertain one the commitment waits on the action without a claim, and every lock is
-- as it was. In both cases the commitment is in the version after its own, where that is not negative.
pub record_tethers_outcome_lem :
    (report : Report) (db db' : Db)
    → record_tethers_outcome report db ≡ ok (was_recorded, db')
    → (guard_id : GuardId) × (guard : GuardRow) × (row : CommitmentRow) × (state : CommitmentState)
      × Outstanding report guard_id guard row state db
      × (((is_uncertain report.outcome ≡ false) × Settled report guard row state db db')
          ⊎ ((is_uncertain report.outcome ≡ true) × Waits report guard row db db'))
record_tethers_outcome_lem report db db' e =
    let (guard_id, guard, row, state, o, left) = record_tethers_outcome-Left report db db' e in
    (guard_id, guard, row, state, o, Left-facts report guard_id guard row state db db' o left)
