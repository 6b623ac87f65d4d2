-- ===== src/Store/Goals.antt =====
-- `insert_goal`, `persist_goal_change` and `load_goal_record` of sqlite.rs.
pub mod Saved
use resolve.Base.{
  ℕ, ◌+◌, ◌≡◌, Bool, true, false, List, Option, some, none, Result, ok, err, ok_or, ensure, reject,
  ◌=?◌, ◌≠?◌, ◌&&◌, leb, ◌==◌, if◌then◌else◌, String,
}
use resolve.Base
use resolve.Base.Int.{ℤ, pos, as_u64, is_positive}
use resolve.Base.Text.{Text, text}
use resolve.Core.Types.{
  GoalId, GoalState, active, goal_completed, goal_cancelled, goal_abandoned, goal_kind,
}
use resolve.Core.Equality.{identifier_eq, nat_eq}
use resolve.Core.Events.{WorkEvent, goal_created, goal_revised}
use resolve.Core.Goal.{GoalSpec}
use resolve.Store.Error.{
  Stored, StoreError, sqlite, constraint_violated, not_found, version_conflict,
  duplicate_immutable_revision, invalid_mutation, invalid_persisted_data, message,
  requires_goal_event, revision_must_be, unknown_goal_state,
}
use resolve.Store.Sql.{select, update, insert_unique}
use resolve.Store.Tables.{Db, GoalRow, GoalRevisionRow, text_eq, int_eq}
use resolve.Store.Codec.{parse_id, to_sql, positive_u64, next_state_version}
use resolve.Store.Tx.{
  Tx, ◌>>=◌, ◌>>◌, try, check, query, execute, return, append_event, last_event_id,
}
use resolve.Store.Guards.Issue.{statement}

unfoldable pub validate_goal_event : WorkEvent → GoalId → String → Stored (Unit {0})
validate_goal_event (goal_created event_goal revision) goal_id operation =
    ensure (event_goal =? goal_id) (invalid_mutation (requires_goal_event operation))
validate_goal_event (goal_revised event_goal revision) goal_id operation =
    ensure (event_goal =? goal_id) (invalid_mutation (requires_goal_event operation))
validate_goal_event _ goal_id operation = err (invalid_mutation (requires_goal_event operation))

abbrev pub encode_goal_state : GoalState → Text
encode_goal_state active = text "active"
encode_goal_state goal_completed = text "completed"
encode_goal_state goal_cancelled = text "cancelled"
encode_goal_state goal_abandoned = text "abandoned"

unfoldable pub decode_goal_state : Text → Stored GoalState
decode_goal_state value =
    if value =? text "active"
    then ok active
    else if value =? text "completed"
    then ok goal_completed
    else if value =? text "cancelled"
    then ok goal_cancelled
    else if value =? text "abandoned"
    then ok goal_abandoned
    else err (invalid_persisted_data (unknown_goal_state value))

unfoldable pub ensure_version : String → Text → ℤ → ℤ → Stored (Unit {0})
ensure_version entity id expected actual =
    ensure (expected =? actual) (version_conflict entity id expected actual)

abbrev pub initial_state_version : ℤ
initial_state_version = pos 1

-- The row has a positive revision, as its CHECK demands, and a fresh key.
unfoldable pub insert_goal_row : GoalRow → Db → Stored Db
insert_goal_row row db =
    Base.◌>>◌ (ensure (is_positive row.revision) (sqlite constraint_violated)) (
      Base.◌>>=◌
        (ok_or (insert_unique (λ g. g.goal_id =? row.goal_id) row db.goals)
          (sqlite constraint_violated))
        λ rows. ok (record db { goals = rows }))

unfoldable pub insert_goal_revision : GoalRevisionRow → Db → Stored Db
insert_goal_revision row db =
    Base.◌>>◌ (ensure (is_positive row.revision) (sqlite constraint_violated)) (
      Base.◌>>=◌
        (ok_or
          (insert_unique (λ g. g.goal_id =? row.goal_id && g.revision =? row.revision) row
            db.goal_revisions)
          (sqlite constraint_violated))
        λ rows. ok (record db { goal_revisions = rows }))

abbrev pub goal_row : GoalSpec → ℤ → ℤ → GoalRow
goal_row goal revision version = record {
  goal_id = goal.goal_id.value;
  revision = revision;
  description = goal.description;
  state = encode_goal_state goal.state;
  created_at = goal.created_at;
  state_version = version;
}

abbrev pub revision_row : GoalSpec → ℤ → GoalRevisionRow
revision_row goal revision = record {
  goal_id = goal.goal_id.value;
  revision = revision;
  description = goal.description;
  state = encode_goal_state goal.state;
  created_at = goal.created_at;
}

unfoldable pub insert_goal : GoalSpec → WorkEvent → Tx ℕ
insert_goal goal event = do
  try (validate_goal_event event goal.goal_id "goal creation")
  append_event goal.goal_id event goal.created_at
  event_id ← query last_event_id
  revision ← try (to_sql goal.revision)
  statement (insert_goal_row (goal_row goal revision initial_state_version))
  statement (insert_goal_revision (revision_row goal revision))
  return event_id

abbrev pub find_goal : GoalId → Db → Stored GoalRow
find_goal goal_id db =
    ok_or (select (λ g. g.goal_id =? goal_id.value) db.goals) (not_found "goal" goal_id.value)

-- `current_revision.checked_add(1)`
abbrev pub next_goal_revision : ℤ → Stored ℤ
next_goal_revision current =
    Base.map_err (λ _. invalid_mutation (message "goal revision space is exhausted"))
      (next_state_version current)

abbrev revision_error : GoalSpec → ℤ → ℤ → StoreError
revision_error goal current expected =
    if leb goal.revision (as_u64 current)
    then duplicate_immutable_revision goal.goal_id.value goal.revision
    else invalid_mutation (revision_must_be expected goal.revision)

-- The revision is the successor of the stored one.
unfoldable pub check_revision : GoalSpec → GoalRow → Stored (Unit {0})
check_revision goal row = Base.◌>>=◌ (next_goal_revision row.revision) λ expected.
    ensure (goal.revision == as_u64 expected) (revision_error goal row.revision expected)

abbrev pub is_goal_at : Text → ℤ → GoalRow → Bool
is_goal_at id version g = g.goal_id =? id && g.state_version =? version

abbrev pub set_goal : GoalSpec → ℤ → ℤ → ℤ → Db → Db
set_goal goal revision expected_state_version next_version db = record db {
  goals =
      update (is_goal_at goal.goal_id.value expected_state_version)
        (λ g. record g {
          revision = revision;
          description = goal.description;
          state = encode_goal_state goal.state;
          created_at = goal.created_at;
          state_version = next_version;
        })
        db.goals;
}

unfoldable pub persist_goal_change : GoalSpec → ℤ → WorkEvent → Tx ℕ
persist_goal_change goal expected_state_version event = do
  try (validate_goal_event event goal.goal_id "goal revision")
  row ← check (find_goal goal.goal_id)
  try (ensure_version "goal" goal.goal_id.value expected_state_version row.state_version)
  try (check_revision goal row)
  next_version ← try (next_state_version expected_state_version)
  append_event goal.goal_id event goal.created_at
  event_id ← query last_event_id
  revision ← try (to_sql goal.revision)
  execute (set_goal goal revision expected_state_version next_version)
  statement (insert_goal_revision (revision_row goal revision))
  return event_id

pub record GoalRecord : Type 0 where
  pub goal_id : GoalId
  pub revision : ℕ
  pub description : Text
  pub state : GoalState
  pub created_at : ℤ
  pub state_version : ℤ

unfoldable pub decode_goal : GoalRow → Stored GoalRecord
decode_goal row = Base.◌>>=◌ (parse_id goal_kind row.goal_id "goal") λ goal_id.
    Base.◌>>=◌ (positive_u64 row.revision "goal revision") λ revision.
      Base.◌>>=◌ (decode_goal_state row.state) λ state. ok (record {
        goal_id = goal_id;
        revision = revision;
        description = row.description;
        state = state;
        created_at = row.created_at;
        state_version = row.state_version;
      })

unfoldable pub load_goal_record : GoalId → Db → Stored GoalRecord
load_goal_record goal_id db = Base.◌>>=◌ (find_goal goal_id db) decode_goal
