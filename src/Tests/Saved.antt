-- ===== src/Tests/Saved.antt =====
-- A goal that is stored and revised, and a commitment that is stored as claimed.
use resolve.Base.{◌≡◌, refl, false, [], ◌∷◌, Option, some, none, ok, ℕ_discrete}
use resolve.Base.Int.{pos}
use resolve.Base.Text.{text, is_blank}
use resolve.Core.Types.{
  proposed, tethers_verification, human_decision, active, claimed, ClaimLease, ClaimEpoch,
  CommitmentState,
}
use resolve.Core.Equality.{Identifier-discrete}
use resolve.Core.Numbers.{claim_epoch_try_from_raw, boot_try_from_raw, instant_try_from_raw}
use resolve.Core.Goal.{GoalSpec}
use resolve.Core.Commitment.{Commitment}
use resolve.Core.StateMachine.{validate_transition}
use resolve.Core.Events.{
  WorkEvent, goal_created, goal_revised, commitment_claimed, commitment_created,
}
use resolve.Store.Sql.{select, select_all, exists, update, delete, order_by}
use resolve.Store.Tables.{
  Db, GoalRow, CommitmentRow, EventRow, json, stored_ready, stored_claimed, Text-discrete,
  Int-discrete,
}
use resolve.Store.Codec.{
  parse_id, to_sql, next_state_version, decode_commitment_state, state_into_domain,
}
use resolve.Store.Tx.{append_event, current_boot_generation, boot_of}
use resolve.Store.Goals.{
  insert_goal, persist_goal_change, insert_goal_row, insert_goal_revision, validate_goal_event,
  ensure_version, check_revision, load_goal_record, goal_row, revision_row,
}
use resolve.Store.Goals.Saved.{record_of, insert_goal-load, GoalChange, persist_goal_change_lem}
use resolve.Store.Descriptions.{validate_commitment_event, validate_commitment_event_state}
use resolve.Store.Commitments.{
  query_prerequisites, query_acceptance_refs, insert_prerequisites, insert_acceptance_refs,
  insert_claim_row, insert_claim, sync_commitment_children, insert_commitment, check_new,
  insert_commitment_snapshot, insert_commitment_row, insert_prerequisite, insert_acceptance,
  new_row, prerequisite_row,
}
use resolve.Store.Commitments.Children.{acceptance_row}
use resolve.Store.Commitments.Load.{load_commitment}
use resolve.Store.Commitments.Loaded.{IsNamed, insert_commitment-load}
use resolve.Store.Commitments.Ends.{persist_commitment_change-ends}
use resolve.Store.Commitments.Claim.{
  current_claim, current_last_claim_epoch, compare_claims, validate_claim_persistence,
  expected_epoch,
}
use resolve.Store.Commitments.Change.{
  persist_commitment_change, check_change, check_structure, check_move, check_unbarred,
  write_change, cascade_if, Prerequisites-discrete, AcceptanceRefs-discrete,
}
use resolve.Store.Commitments.Rules.{ChangeRule, persist_commitment_change_lem}
use resolve.Tests.Samples.{id, alice, alice_lease, ready_commitment}
use resolve.Tests.Store.{db, commitment_row', claim_row'}

abbrev goal : GoalSpec
goal = record {
  goal_id = id "goal-1";
  revision = 1;
  description = text "ship";
  state = active;
  created_at = pos 5;
}

abbrev empty_db : Db
empty_db = record db { commitments = []; claims = [] }

abbrev created : EventRow
created = record {
  goal_id = text "goal-1";
  event = goal_created (id "goal-1") 1;
  created_at = pos 5;
}

abbrev goal_db : Db
goal_db = record empty_db {
  goals = goal_row goal (pos 1) (pos 1) ∷ [];
  goal_revisions = revision_row goal (pos 1) ∷ [];
  work_events = created ∷ [];
}

inserted_run : insert_goal goal (goal_created (id "goal-1") 1) empty_db ≡ ok (1, goal_db)
unfolding insert_goal validate_goal_event append_event to_sql insert_goal_row insert_goal_revision
    exists Text-discrete Int-discrete Identifier-discrete ℕ_discrete
inserted_run = refl

goal-is_blank : is_blank goal.goal_id.value ≡ false
unfolding is_blank
goal-is_blank = refl

insert_goal-load_example : load_goal_record goal.goal_id goal_db ≡ ok (record_of goal (pos 1))
insert_goal-load_example =
    insert_goal-load goal (goal_created (id "goal-1") 1) 1 empty_db goal_db goal-is_blank
      inserted_run

abbrev goal' : GoalSpec
goal' = record goal { revision = 2; description = text "ship it" }

abbrev revised_db : Db
revised_db = record goal_db {
  goals = goal_row goal' (pos 2) (pos 2) ∷ [];
  goal_revisions = revision_row goal (pos 1) ∷ revision_row goal' (pos 2) ∷ [];
  work_events =
      created
      ∷ record { goal_id = text "goal-1"; event = goal_revised (id "goal-1") 2; created_at = pos 5 }
      ∷ [];
}

revised_run :
    persist_goal_change goal' (pos 1) (goal_revised (id "goal-1") 2) goal_db ≡ ok (2, revised_db)
unfolding persist_goal_change validate_goal_event append_event to_sql insert_goal_revision exists
    ensure_version check_revision next_state_version select update Text-discrete Int-discrete
    Identifier-discrete ℕ_discrete
revised_run = refl

persist_goal_change_lem_example : (row : GoalRow) × GoalChange goal' (pos 1) row goal_db revised_db
persist_goal_change_lem_example =
    persist_goal_change_lem goal' (pos 1) (goal_revised (id "goal-1") 2) 2 goal_db revised_db
      goal-is_blank revised_run

abbrev ready_row : CommitmentRow
ready_row = record commitment_row' { state_json = json stored_ready; last_claim_epoch = none }

abbrev ready_db : Db
ready_db = record db { commitments = ready_row ∷ []; claims = [] }

abbrev claimed_commitment : Commitment
claimed_commitment = record ready_commitment {
  state = claimed;
  claim = some alice_lease;
  last_claim_epoch = some 1;
}

abbrev claiming : WorkEvent
claiming = commitment_claimed (id "commitment-1") alice 1

abbrev claimed_db : Db
claimed_db = record ready_db {
  commitments =
      record ready_row {
        state_json = json stored_claimed;
        last_claim_epoch = some (pos 1);
        state_version = pos 3;
      }
      ∷ [];
  claims = claim_row' ∷ [];
  work_events = record { goal_id = text "goal-1"; event = claiming; created_at = pos 10 } ∷ [];
}

claimed_run :
    persist_commitment_change claimed_commitment (pos 2) claiming (pos 10) ready_db
    ≡ ok (some 1, claimed_db)
unfolding persist_commitment_change check_change check_structure check_move check_unbarred
    write_change cascade_if validate_commitment_event validate_commitment_event_state
    validate_transition query_prerequisites query_acceptance_refs insert_prerequisites
    insert_acceptance_refs insert_claim_row insert_claim sync_commitment_children current_claim
    current_last_claim_epoch compare_claims validate_claim_persistence expected_epoch ensure_version
    append_event current_boot_generation boot_of to_sql parse_id next_state_version
    decode_commitment_state state_into_domain select select_all exists update delete order_by
    claim_epoch_try_from_raw boot_try_from_raw instant_try_from_raw Text-discrete Int-discrete
    Identifier-discrete Prerequisites-discrete AcceptanceRefs-discrete ℕ_discrete
claimed_run = refl

persist_commitment_change_lem_example :
    (row : CommitmentRow) × (state : CommitmentState) × (stored : Option ClaimLease)
    × (high_water : Option ClaimEpoch) × ChangeRule claimed_commitment
        (pos 2)
        claiming
        row
        state
        stored
        high_water
        ready_db
persist_commitment_change_lem_example =
    persist_commitment_change_lem claimed_commitment (pos 2) claiming (pos 10) (some 1) ready_db
      claimed_db claimed_run

persist_commitment_change-ends_example : ¬ (
    persist_commitment_change claimed_commitment (pos 2) claiming (pos 10) ready_db
    ≡ ok (none, claimed_db))
persist_commitment_change-ends_example =
    persist_commitment_change-ends claimed_commitment (pos 2) claiming (pos 10) ready_db claimed_db

abbrev new_commitment : Commitment
new_commitment = record ready_commitment {
  state = proposed;
  prerequisites = tethers_verification (id "contract-1") ∷ human_decision (id "decision-1") ∷ [];
  acceptance_refs = id "acceptance-1" ∷ [];
}

abbrev creating : WorkEvent
creating = commitment_created (id "commitment-1") (id "goal-1")

abbrev new_db : Db
new_db = record goal_db {
  commitments = new_row new_commitment none ∷ [];
  commitment_prerequisites =
      prerequisite_row (id "commitment-1") 0 (tethers_verification (id "contract-1"))
      ∷ prerequisite_row (id "commitment-1") 1 (human_decision (id "decision-1"))
      ∷ [];
  commitment_acceptance_refs = acceptance_row (id "commitment-1") 0 (id "acceptance-1") ∷ [];
  work_events =
      created ∷ record { goal_id = text "goal-1"; event = creating; created_at = pos 7 } ∷ [];
}

created_run : insert_commitment new_commitment creating (pos 7) goal_db ≡ ok (2, new_db)
unfolding insert_commitment check_new validate_commitment_event insert_commitment_snapshot
    insert_commitment_row sync_commitment_children insert_prerequisites insert_prerequisite
    insert_acceptance_refs insert_acceptance insert_claim append_event current_boot_generation
    boot_of boot_try_from_raw to_sql exists delete Text-discrete Int-discrete Identifier-discrete
    ℕ_discrete
created_run = refl

new_commitment-IsNamed : IsNamed new_commitment
unfolding is_blank
new_commitment-IsNamed = record {
  id = refl;
  goal = refl;
  parent = refl;
  description = refl;
  prerequisites = refl;
  acceptance_refs = refl;
}

insert_commitment-load_example : load_commitment (id "commitment-1") new_db ≡ ok new_commitment
insert_commitment-load_example =
    insert_commitment-load new_commitment creating (pos 7) 2 goal_db new_db new_commitment-IsNamed
      created_run
