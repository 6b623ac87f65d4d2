-- ===== src/Store/Goals/Saved.antt =====
-- What is read back of a goal that `insert_goal` or `persist_goal_change` of sqlite.rs has stored.
use resolve.Base.{
  subst, ℕ_discrete, ℕ, ◌+◌, ◌≡◌, refl, ap, ◌∙◌, true, false, [], ◌∷◌, ◌++◌, some, ok, arith, ◌=?◌,
  ok_or-ok,
}
use resolve.Base.Int.{ℤ, pos, is_positive}
use resolve.Base.Text.{Text, is_blank}
use resolve.Core.Types.{GoalState, active, goal_completed, goal_cancelled, goal_abandoned}
use resolve.Core.Events.{WorkEvent}
use resolve.Core.Goal.{GoalSpec}
use resolve.Core.Ids.{try_new}
use resolve.Store.Sql.{select, exists}
use resolve.Store.Sql.Select.{select-test, select-update, select-append_new}
use resolve.Store.Tables.{Db, GoalRow, GoalRevisionRow, text_eq, int_eq, Text-discrete}
use resolve.Store.Codec.{parse_id, to_sql, positive_u64, next_state_version}
use resolve.Store.Tx.{append_event, bind-ok, try-ok, check-ok}
use resolve.Store.Guards.Issue.{statement}
use resolve.Store.Goals.{
  GoalRecord, encode_goal_state, decode_goal_state, decode_goal, load_goal_record, insert_goal,
  insert_goal_row, insert_goal_revision, goal_row, revision_row, validate_goal_event,
  persist_goal_change, find_goal, ensure_version, check_revision, set_goal, is_goal_at,
}

-- The record of a goal in a version.
abbrev pub record_of : GoalSpec → ℤ → GoalRecord
record_of goal version = record {
  goal_id = goal.goal_id;
  revision = goal.revision;
  description = goal.description;
  state = goal.state;
  created_at = goal.created_at;
  state_version = version;
}

decode_goal_state-encode :
    (state : GoalState) → decode_goal_state (encode_goal_state state) ≡ ok state
unfolding decode_goal_state Text-discrete ℕ_discrete
decode_goal_state-encode active = refl
decode_goal_state-encode goal_completed = refl
decode_goal_state-encode goal_cancelled = refl
decode_goal_state-encode goal_abandoned = refl

decode_goal-row :
    (goal : GoalSpec) (version : ℤ)
    → is_blank goal.goal_id.value ≡ false
    → is_positive (pos goal.revision) ≡ true
    → decode_goal (goal_row goal (pos goal.revision) version) ≡ ok (record_of goal version)
unfolding decode_goal parse_id try_new positive_u64
decode_goal-row goal version named positive =
    let state = decode_goal_state-encode goal.state in ground arith

to_sql-ok : (n : ℕ) (z : ℤ) → to_sql n ≡ ok z → z ≡ pos n
unfolding to_sql
to_sql-ok n z e = ground arith

insert_goal_row-ok :
    (row : GoalRow) (db db' : Db)
    → statement (insert_goal_row row) db ≡ ok (tt, db')
    → (is_positive row.revision ≡ true)
      × (exists (λ g. g.goal_id =? row.goal_id) db.goals ≡ false)
      × (db' ≡ record db { goals = db.goals ++ row ∷ [] })
unfolding insert_goal_row
insert_goal_row-ok row db db' e = (ground arith, ground arith, ground arith)

insert_goal_revision-ok :
    (row : GoalRevisionRow) (db db' : Db)
    → statement (insert_goal_revision row) db ≡ ok (tt, db')
    → (is_positive row.revision ≡ true)
      × (db' ≡ record db { goal_revisions = db.goal_revisions ++ row ∷ [] })
unfolding insert_goal_revision
insert_goal_revision-ok row db db' e = (ground arith, ground arith)

load-found :
    (goal : GoalSpec) (version : ℤ) (db : Db)
    → is_blank goal.goal_id.value ≡ false
    → is_positive (pos goal.revision) ≡ true
    → select (λ g. g.goal_id =? goal.goal_id.value) db.goals
      ≡ some (goal_row goal (pos goal.revision) version)
    → load_goal_record goal.goal_id db ≡ ok (record_of goal version)
unfolding load_goal_record
load-found goal version db named positive found =
    let decoded = decode_goal-row goal version named positive in ground arith

-- A goal with a non-blank identifier that `insert_goal` has stored is read back as it is, in its
-- first version.
pub insert_goal-load :
    (goal : GoalSpec) (event : WorkEvent) (event_id : ℕ) (db db' : Db)
    → is_blank goal.goal_id.value ≡ false
    → insert_goal goal event db ≡ ok (event_id, db')
    → load_goal_record goal.goal_id db' ≡ ok (record_of goal (pos 1))
unfolding insert_goal append_event
insert_goal-load goal event event_id db db' named e =
    let (_, _, r1) =
      try-ok (validate_goal_event event goal.goal_id "goal creation") _ event_id db db' e in
    let logged = record db {
      work_events =
          db.work_events
          ++ record { goal_id = goal.goal_id.value; event = event; created_at = goal.created_at }
            ∷ [];
    } in
    let (revision, fits, r2) = try-ok (to_sql goal.revision) _ event_id logged db' r1 in
    let same = to_sql-ok goal.revision revision fits in
    let (_, db₁, p1, r3) =
      bind-ok (statement (insert_goal_row (goal_row goal revision (pos 1)))) _ event_id logged db'
        r2 in
    let (positive, absent, first) =
      insert_goal_row-ok (goal_row goal revision (pos 1)) logged db₁ p1 in
    let (_, db₂, p2, r4) =
      bind-ok (statement (insert_goal_revision (revision_row goal revision))) _ event_id db₁ db'
        r3 in
    let (_, second) = insert_goal_revision-ok (revision_row goal revision) db₁ db₂ p2 in
    let kept : db'.goals ≡ db.goals ++ goal_row goal revision (pos 1) ∷ [] = ground arith in
    let found : select (λ g. g.goal_id =? goal.goal_id.value) db'.goals
        ≡ some (goal_row goal revision (pos 1)) =
      ap (select (λ g. g.goal_id =? goal.goal_id.value)) kept
      ∙ select-append_new (λ g. g.goal_id =? goal.goal_id.value) (goal_row goal revision (pos 1))
          db.goals absent (ground arith) in
    load-found goal (pos 1) db' named (subst (λ z. is_positive z ≡ true) same positive) (
      subst
        (λ z.
          select (λ g. g.goal_id =? goal.goal_id.value) db'.goals ≡ some (goal_row goal z (pos 1)))
        same found)

-- What `persist_goal_change` has checked and written: the stored version was the expected one and the
-- revision is the next one; the row has the next version, and the log of revisions has one more.
pub record GoalChange (goal : GoalSpec) (expected : ℤ) (row : GoalRow) (db db' : Db) : Type 0 where
  pub version : ℤ
  pub stored : select (λ g. g.goal_id =? goal.goal_id.value) db.goals ≡ some row
  pub expected_version : row.state_version ≡ expected
  pub next_version : next_state_version expected ≡ ok version
  pub next_revision : (r : ℕ) → row.revision ≡ pos r → goal.revision ≡ r + 1
  pub revisions :
      db'.goal_revisions ≡ db.goal_revisions ++ revision_row goal (pos goal.revision) ∷ []
  pub loaded : load_goal_record goal.goal_id db' ≡ ok (record_of goal version)

check_revision-next :
    (goal : GoalSpec) (row : GoalRow) (r : ℕ)
    → check_revision goal row ≡ ok tt
    → row.revision ≡ pos r
    → goal.revision ≡ r + 1
unfolding check_revision next_state_version
check_revision-next goal row r c is = ground arith

ensure_version-ok :
    (id : Text) (expected actual : ℤ)
    → ensure_version "goal" id expected actual ≡ ok tt
    → actual ≡ expected
unfolding ensure_version
ensure_version-ok id expected actual e = ground arith

set_goal-row :
    (goal : GoalSpec) (revision expected version : ℤ) (row : GoalRow) (db : Db)
    → select (λ g. g.goal_id =? goal.goal_id.value) db.goals ≡ some row
    → row.state_version ≡ expected
    → select
        (λ g. g.goal_id =? goal.goal_id.value)
        (set_goal goal revision expected version db).goals
      ≡ some (goal_row goal revision version)
set_goal-row goal revision expected version row db s v =
    let test = select-test (λ g. g.goal_id =? goal.goal_id.value) row db.goals s in
    let id : row.goal_id ≡ goal.goal_id.value = ground arith in
    let moved =
      select-update (λ g. g.goal_id =? goal.goal_id.value) (is_goal_at goal.goal_id.value expected)
        (λ g. record g {
          revision = revision;
          description = goal.description;
          state = encode_goal_state goal.state;
          created_at = goal.created_at;
          state_version = version;
        })
        row db.goals (λ q. refl) s (ground arith) in
    moved ∙ ap (λ i. some (record (goal_row goal revision version) { goal_id = i })) id

-- A change of a goal with a non-blank identifier that is accepted was made against the stored version
-- and gives the next revision; the goal is then read back as given, in the next version, and its new
-- revision follows the earlier ones, which are as they were.
pub persist_goal_change_lem :
    (goal : GoalSpec) (expected : ℤ) (event : WorkEvent) (event_id : ℕ) (db db' : Db)
    → is_blank goal.goal_id.value ≡ false
    → persist_goal_change goal expected event db ≡ ok (event_id, db')
    → (row : GoalRow) × GoalChange goal expected row db db'
unfolding persist_goal_change append_event
persist_goal_change_lem goal expected event event_id db db' named e =
    let (_, _, r1) =
      try-ok (validate_goal_event event goal.goal_id "goal revision") _ event_id db db' e in
    let (row, read, r2) = check-ok (find_goal goal.goal_id) _ event_id db db' r1 in
    let (_, v, r3) =
      try-ok (ensure_version "goal" goal.goal_id.value expected row.state_version) _ event_id db db'
        r2 in
    let same_version = ensure_version-ok goal.goal_id.value expected row.state_version v in
    let (_, c, r4) = try-ok (check_revision goal row) _ event_id db db' r3 in
    let (version, next, r5) = try-ok (next_state_version expected) _ event_id db db' r4 in
    let logged = record db {
      work_events =
          db.work_events
          ++ record { goal_id = goal.goal_id.value; event = event; created_at = goal.created_at }
            ∷ [];
    } in
    let (revision, fits, r6) = try-ok (to_sql goal.revision) _ event_id logged db' r5 in
    let same = to_sql-ok goal.revision revision fits in
    let written = set_goal goal revision expected version logged in
    let (_, db₂, p2, r7) =
      bind-ok (statement (insert_goal_revision (revision_row goal revision))) _ event_id written db'
        r6 in
    let (positive, second) = insert_goal_revision-ok (revision_row goal revision) written db₂ p2 in
    let stored = ok_or-ok (select (λ g. g.goal_id =? goal.goal_id.value) db.goals) _ row read in
    let kept : db'.goals ≡ (set_goal goal revision expected version db).goals = ground arith in
    let grown : db'.goal_revisions ≡ db.goal_revisions ++ revision_row goal revision ∷ [] =
      ground arith in
    let found : select (λ g. g.goal_id =? goal.goal_id.value) db'.goals
        ≡ some (goal_row goal revision version) =
      ap (select (λ g. g.goal_id =? goal.goal_id.value)) kept
      ∙ set_goal-row goal revision expected version row db stored same_version in
    (
      row,
      record {
        version = version;
        stored = stored;
        expected_version = same_version;
        next_version = next;
        next_revision = λ r is. check_revision-next goal row r c is;
        revisions =
            subst (λ z. db'.goal_revisions ≡ db.goal_revisions ++ revision_row goal z ∷ []) same
              grown;
        loaded =
            load-found goal version db' named (subst (λ z. is_positive z ≡ true) same positive) (
              subst
                (λ z.
                  select (λ g. g.goal_id =? goal.goal_id.value) db'.goals
                  ≡ some (goal_row goal z version))
                same found);
      },
    )
