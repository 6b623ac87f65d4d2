-- ===== src/Store/Commitments.antt =====
-- The rows of a commitment and its children in sqlite.rs, and `insert_commitment`.
pub mod Claim
pub mod Change
pub mod Rules
pub mod Load
pub mod Children
pub mod Saved
pub mod Loaded
pub mod Ends
use resolve.Base.{
  ℕ, suc, ◌==◌, ◌≡◌, Bool, true, false, List, [], ◌∷◌, ◌++◌, Option, some, none, Result, ok, err,
  ok_or, ensure, reject, ◌=?◌, ◌&&◌, not, is_some, String, map, if◌then◌else◌, ◌≠?◌,
}
use mathlib.Core.Option
use resolve.Base
use resolve.Base.Int.{ℤ, pos, is_positive}
use resolve.Base.Text.{Text, text}
use resolve.Core.Types.{
  CommitmentId, Prerequisite, commitment, tethers_verification, human_decision, AcceptanceRef,
  ClaimLease, BootGeneration, CommitmentState, proposed, commitment_kind, contract_kind,
  human_decision_kind, acceptance_kind, ClaimEpoch,
}
use resolve.Core.Commitment.{Commitment}
use resolve.Store.Error.{
  Stored, StoreError, sqlite, constraint_violated, invalid_persisted_data, invalid_mutation,
  message, unknown_prerequisite_type,
}
use resolve.Store.Sql.{select_all, delete, exists, insert_unique, order_by}
use resolve.Store.Tables.{
  Db, CommitmentRow, ClaimRow, PrerequisiteRow, AcceptanceRow, text_eq, int_eq,
}
use resolve.Store.Codec.{parse_id, to_sql, transpose, encode_commitment_state}
use resolve.Store.Tx.{
  Tx, ◌>>=◌, ◌>>◌, try, check, query, execute, return, append_event, last_event_id,
  current_boot_generation,
}
use resolve.Core.Events.{WorkEvent}
use resolve.Store.Descriptions.{validate_commitment_event}
use resolve.Store.Guards.Issue.{statement}
use resolve.Store.Outcomes.{drop_claims}
use resolve.Store.Goals.{initial_state_version}

-- The row of a prerequisite: its type, its reference, and the commitment that it names.
abbrev pub prerequisite_row : CommitmentId → ℕ → Prerequisite → PrerequisiteRow
prerequisite_row commitment_id ordinal (commitment i) = record {
  commitment_id = commitment_id.value;
  ordinal = ordinal;
  prerequisite_type = text "commitment";
  reference_id = i.value;
  prerequisite_commitment_id = some i.value;
}
prerequisite_row commitment_id ordinal (tethers_verification r) = record {
  commitment_id = commitment_id.value;
  ordinal = ordinal;
  prerequisite_type = text "tethers_verification";
  reference_id = r.value;
  prerequisite_commitment_id = none;
}
prerequisite_row commitment_id ordinal (human_decision r) = record {
  commitment_id = commitment_id.value;
  ordinal = ordinal;
  prerequisite_type = text "human_decision";
  reference_id = r.value;
  prerequisite_commitment_id = none;
}

unfoldable pub decode_reference : Text → Text → Stored Prerequisite
decode_reference stored_id reference_id =
    Base.◌>>◌
      (ensure (stored_id =? reference_id)
        (invalid_persisted_data (message "commitment prerequisite references disagree")))
      (Base.◌>>=◌ (parse_id commitment_kind reference_id "commitment") λ i. ok (commitment i))

decode_commitment_reference : PrerequisiteRow → Stored Prerequisite
unfolding decode_reference
decode_commitment_reference row =
    Base.◌>>=◌
      (ok_or row.prerequisite_commitment_id
        (invalid_persisted_data (message "commitment prerequisite is missing its typed reference")))
      λ stored_id. decode_reference stored_id row.reference_id

decode_contract : PrerequisiteRow → Stored Prerequisite
decode_contract row =
    Base.◌>>=◌ (parse_id contract_kind row.reference_id "Tethers contract")
      λ r. ok (tethers_verification r)

decode_decision : PrerequisiteRow → Stored Prerequisite
decode_decision row =
    Base.◌>>=◌ (parse_id human_decision_kind row.reference_id "human decision")
      λ r. ok (human_decision r)

unfoldable pub decode_prerequisite : PrerequisiteRow → Stored Prerequisite
unfolding decode_commitment_reference decode_contract decode_decision
decode_prerequisite row =
    if row.prerequisite_type =? text "commitment"
    then decode_commitment_reference row
    else if row.prerequisite_type =? text "tethers_verification"
    then decode_contract row
    else if row.prerequisite_type =? text "human_decision"
    then decode_decision row
    else err (invalid_persisted_data (unknown_prerequisite_type row.prerequisite_type))

unfoldable pub decode_prerequisites : List PrerequisiteRow → Stored (List Prerequisite)
decode_prerequisites [] = ok []
decode_prerequisites (row ∷ rows) =
    Base.◌>>=◌ (decode_prerequisite row)
      λ p. Base.◌>>=◌ (decode_prerequisites rows) λ ps. ok (p ∷ ps)

-- The prerequisites of a commitment in the order of their ordinals.
unfoldable pub query_prerequisites : CommitmentId → Db → Stored (List Prerequisite)
unfolding decode_prerequisites
query_prerequisites commitment_id db = decode_prerequisites (
    order_by (λ r. r.ordinal)
      (select_all (λ r. r.commitment_id =? commitment_id.value) db.commitment_prerequisites))

unfoldable pub decode_acceptance : List AcceptanceRow → Stored (List AcceptanceRef)
decode_acceptance [] = ok []
decode_acceptance (row ∷ rows) =
    Base.◌>>=◌ (parse_id acceptance_kind row.reference_id "acceptance")
      λ r. Base.◌>>=◌ (decode_acceptance rows) λ rs. ok (r ∷ rs)

unfoldable pub query_acceptance_refs : CommitmentId → Db → Stored (List AcceptanceRef)
unfolding decode_acceptance
query_acceptance_refs commitment_id db = decode_acceptance (
    order_by (λ r. r.ordinal)
      (select_all (λ r. r.commitment_id =? commitment_id.value) db.commitment_acceptance_refs))

abbrev pub is_commitment : Text → CommitmentRow → Bool
is_commitment id c = c.commitment_id =? id

-- A reference that a FOREIGN KEY checks.
abbrev pub refers : Option Text → List CommitmentRow → Bool
refers none rows = true
refers (some id) rows = exists (is_commitment id) rows

unfoldable pub insert_prerequisite : PrerequisiteRow → Db → Stored Db
insert_prerequisite row db =
    Base.◌>>◌
      (ensure (refers row.prerequisite_commitment_id db.commitments) (sqlite constraint_violated))
      (Base.◌>>=◌
        (ok_or
          (insert_unique (λ r. r.commitment_id =? row.commitment_id && r.ordinal == row.ordinal) row
            db.commitment_prerequisites)
          (sqlite constraint_violated))
        λ rows. ok (record db { commitment_prerequisites = rows }))

unfoldable pub insert_prerequisites : CommitmentId → ℕ → List Prerequisite → Tx (Unit {0})
insert_prerequisites commitment_id ordinal [] = return tt
insert_prerequisites commitment_id ordinal (p ∷ ps) = do
  statement (insert_prerequisite (prerequisite_row commitment_id ordinal p))
  insert_prerequisites commitment_id (suc ordinal) ps

unfoldable pub insert_acceptance : AcceptanceRow → Db → Stored Db
insert_acceptance row db =
    Base.◌>>=◌
      (ok_or
        (insert_unique (λ r. r.commitment_id =? row.commitment_id && r.ordinal == row.ordinal) row
          db.commitment_acceptance_refs)
        (sqlite constraint_violated))
      λ rows. ok (record db { commitment_acceptance_refs = rows })

unfoldable pub insert_acceptance_refs : CommitmentId → ℕ → List AcceptanceRef → Tx (Unit {0})
insert_acceptance_refs commitment_id ordinal [] = return tt
insert_acceptance_refs commitment_id ordinal (r ∷ rs) = do
  statement (
      insert_acceptance
        (record { commitment_id = commitment_id.value; ordinal = ordinal; reference_id = r.value }))
  insert_acceptance_refs commitment_id (suc ordinal) rs

unfoldable pub insert_claim_row : ClaimRow → Db → Stored Db
insert_claim_row row db =
    Base.◌>>◌ (ensure (is_positive row.claim_epoch) (sqlite constraint_violated)) (
      Base.◌>>=◌
        (ok_or (insert_unique (λ c. c.commitment_id =? row.commitment_id) row db.claims)
          (sqlite constraint_violated))
        λ rows. ok (record db { claims = rows }))

unfoldable pub insert_claim : CommitmentId → Option ClaimLease → BootGeneration → Tx (Unit {0})
insert_claim commitment_id none boot_generation = return tt
insert_claim commitment_id (some claim) boot_generation = do
  epoch ← try (to_sql claim.epoch)
  heartbeat ← try (to_sql claim.last_heartbeat)
  boot ← try (to_sql boot_generation)
  statement (
      insert_claim_row (record {
        commitment_id = commitment_id.value;
        worker_id = claim.worker_id.value;
        claim_epoch = epoch;
        last_heartbeat = heartbeat;
        boot_generation = boot;
      }))

abbrev pub drop_prerequisites : Text → Db → Db
drop_prerequisites id db = record db {
  commitment_prerequisites = delete (λ r. r.commitment_id =? id) db.commitment_prerequisites;
}

abbrev pub drop_acceptance_refs : Text → Db → Db
drop_acceptance_refs id db = record db {
  commitment_acceptance_refs = delete (λ r. r.commitment_id =? id) db.commitment_acceptance_refs;
}

unfoldable pub sync_commitment_children : Commitment → BootGeneration → Tx (Unit {0})
sync_commitment_children c boot_generation = do
  execute (drop_prerequisites c.commitment_id.value)
  insert_prerequisites c.commitment_id 0 c.prerequisites
  execute (drop_acceptance_refs c.commitment_id.value)
  insert_acceptance_refs c.commitment_id 0 c.acceptance_refs
  execute (drop_claims c.commitment_id.value)
  insert_claim c.commitment_id c.claim boot_generation

abbrev pub new_row : Commitment → Option ℤ → CommitmentRow
new_row c last_claim_epoch = record {
  commitment_id = c.commitment_id.value;
  goal_id = c.goal_id.value;
  parent_id = Option.map (λ i. i.value) c.parent_id;
  description = c.description;
  state_json = encode_commitment_state c.state;
  outstanding_action = Option.map (λ a. a.value) c.outstanding_action;
  state_version = initial_state_version;
  last_claim_epoch = last_claim_epoch;
  replacement_terminal_id = none;
}

abbrev pub is_positive_or_null : Option ℤ → Bool
is_positive_or_null none = true
is_positive_or_null (some value) = is_positive value

-- The goal and the parent must be there, and the high-water epoch is positive.
unfoldable pub insert_commitment_row : CommitmentRow → Db → Stored Db
insert_commitment_row row db =
    Base.◌>>=◌
      (ok_or (insert_unique (is_commitment row.commitment_id) row db.commitments)
        (sqlite constraint_violated))
      λ rows.
        Base.◌>>◌
          (ensure
            (is_positive_or_null row.last_claim_epoch
              && exists (λ g. g.goal_id =? row.goal_id) db.goals
              && refers row.parent_id rows)
            (sqlite constraint_violated))
          (ok (record db { commitments = rows }))

unfoldable pub insert_commitment_snapshot : Commitment → BootGeneration → Tx (Unit {0})
insert_commitment_snapshot c boot_generation = do
  last ← try (transpose to_sql c.last_claim_epoch)
  statement (insert_commitment_row (new_row c last))
  sync_commitment_children c boot_generation

abbrev pub is_proposed : CommitmentState → Bool
is_proposed proposed = true
is_proposed _ = false

unfoldable pub check_new : Commitment → Stored (Unit {0})
check_new c =
    ensure (is_proposed c.state && not (is_some c.claim) && not (is_some c.outstanding_action))
      (invalid_mutation (message "new commitments must begin Proposed without a claim or action"))

unfoldable pub insert_commitment : Commitment → WorkEvent → ℤ → Tx ℕ
insert_commitment c event created_at = do
  try (validate_commitment_event event c.commitment_id "commitment creation")
  try (check_new c)
  boot_generation ← check current_boot_generation
  append_event c.goal_id event created_at
  event_id ← query last_event_id
  insert_commitment_snapshot c boot_generation
  return event_id
