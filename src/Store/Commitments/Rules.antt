-- ===== src/Store/Commitments/Rules.antt =====
-- What `persist_commitment_change` of sqlite.rs has checked when it succeeds.
use resolve.Base.{
  ℕ, ◌+◌, ◌≡◌, refl, true, Option, some, none, ok, arith, and_then-ok, ok_or-ok, Bool-cases, inl,
  inr,
}
use resolve.Base.Int.{ℤ}
use resolve.Base.Text.{Text}
use resolve.Core.Types.{ClaimLease, ClaimEpoch, is_terminal, CommitmentState, ready, claimed}
use resolve.Core.Events.{WorkEvent}
use resolve.Core.Commitment.{Commitment}
use resolve.Core.StateMachine.{is_legal, validate_transition}
use resolve.Store.Tables.{Db, CommitmentRow, text_eq}
use resolve.Store.Codec.{from_domain, decode_commitment_state}
use resolve.Store.Tx.{try-ok, check-ok, current_boot_generation}
use resolve.Store.Goals.{ensure_version}
use resolve.Store.Descriptions.{
  describes, validate_commitment_event, validate_commitment_event_state,
}
use resolve.Store.Recovery.Cascade.{find_commitment}
use resolve.Store.Commitments.Claim.{
  current_claim, current_last_claim_epoch, compare_claims, validate_claim_persistence,
  expected_epoch,
}
use resolve.Store.Commitments.Change.{
  persist_commitment_change, read_current, check_change, check_structure, check_move, check_idle,
  check_unbarred, check_no_action,
}

-- The claim of the commitment is the stored one or is dropped; where none is stored, a claim may only
-- be new, on a READY commitment that is now CLAIMED, and has the epoch after the high-water mark, or
-- the first.
pub record ClaimRule (c : Commitment) (state : CommitmentState) (stored : Option ClaimLease)
    (high_water : Option ClaimEpoch) : Type 0 where
  pub kept :
      (lease candidate : ClaimLease)
      → stored ≡ some lease
      → c.claim ≡ some candidate
      → (candidate ≡ lease) × (high_water ≡ some lease.epoch) × (c.last_claim_epoch ≡ high_water)
  pub taken :
      (candidate : ClaimLease)
      → stored ≡ none
      → c.claim ≡ some candidate
      → (state ≡ ready) × (c.state ≡ claimed) × (c.last_claim_epoch ≡ some candidate.epoch)
  pub first :
      (candidate : ClaimLease)
      → stored ≡ none
      → c.claim ≡ some candidate
      → high_water ≡ none
      → candidate.epoch ≡ 1
  pub next :
      (candidate : ClaimLease) (epoch : ClaimEpoch)
      → stored ≡ none
      → c.claim ≡ some candidate
      → high_water ≡ some epoch
      → candidate.epoch ≡ epoch + 1
  pub unclaimed : c.claim ≡ none → c.last_claim_epoch ≡ high_water

compare_claims-ClaimRule :
    (c : Commitment) (state : CommitmentState) (high_water : Option ClaimEpoch)
    (stored candidate : Option ClaimLease)
    → candidate ≡ c.claim
    → compare_claims c state high_water stored candidate ≡ ok tt
    → ClaimRule c state stored high_water
unfolding compare_claims expected_epoch
compare_claims-ClaimRule c state high_water (some l) (some k) same e = record {
  kept = λ lease candidate p q. (ground arith, ground arith, ground arith);
  taken = λ candidate p q. absurd (ground arith);
  first = λ candidate p q h. absurd (ground arith);
  next = λ candidate epoch p q h. absurd (ground arith);
  unclaimed = λ p. absurd (ground arith);
}
compare_claims-ClaimRule c state high_water (some l) none same e = record {
  kept = λ lease candidate p q. absurd (ground arith);
  taken = λ candidate p q. absurd (ground arith);
  first = λ candidate p q h. absurd (ground arith);
  next = λ candidate epoch p q h. absurd (ground arith);
  unclaimed = λ p. ground arith;
}
compare_claims-ClaimRule c state high_water none (some k) same e = record {
  kept = λ lease candidate p q. absurd (ground arith);
  taken = λ candidate p q. (ground arith, ground arith, ground arith);
  first = λ candidate p q h. ground arith;
  next = λ candidate epoch p q h. ground arith;
  unclaimed = λ p. absurd (ground arith);
}
compare_claims-ClaimRule c state high_water none none same e = record {
  kept = λ lease candidate p q. absurd (ground arith);
  taken = λ candidate p q. absurd (ground arith);
  first = λ candidate p q h. absurd (ground arith);
  next = λ candidate epoch p q h. absurd (ground arith);
  unclaimed = λ p. ground arith;
}

-- The commitment is stored in the expected version with the same goal and description, no action is
-- outstanding on it, the candidate's state follows its state in the graph and is the one that the
-- event describes, and the claims obey the rule.
pub record ChangeRule (c : Commitment) (expected : ℤ) (event : WorkEvent) (row : CommitmentRow)
    (state : CommitmentState) (stored : Option ClaimLease) (high_water : Option ClaimEpoch)
    (db : Db) : Type 0 where
  pub found : find_commitment c.commitment_id.value db ≡ some row
  pub version : row.state_version ≡ expected
  pub decoded : decode_commitment_state row.state_json ≡ ok state
  pub same_goal : row.goal_id ≡ c.goal_id.value
  pub same_description : row.description ≡ c.description
  pub was_idle : row.outstanding_action ≡ none
  pub is_idle : c.outstanding_action ≡ none
  pub legal : is_legal state c.state ≡ true
  pub described : describes event c.state ≡ true
  pub claim_read : current_claim c.commitment_id db ≡ ok stored
  pub mark_read : current_last_claim_epoch c.commitment_id db ≡ ok high_water
  pub claim_rule : ClaimRule c state stored high_water

check_structure-ok :
    (c : Commitment) (row : CommitmentRow) (db : Db)
    → check_structure c row db ≡ ok tt
    → (row.goal_id ≡ c.goal_id.value) × (row.description ≡ c.description)
unfolding check_structure
check_structure-ok c row db e = (ground arith, ground arith)

check_idle-ok :
    (c : Commitment) (action : Option Text) → check_idle c action ≡ ok tt → action ≡ none
check_idle-ok c none e = refl
check_idle-ok c (some a) e = absurd (ground arith)

check_no_action-ok : (c : Commitment) → check_no_action c ≡ ok tt → c.outstanding_action ≡ none
check_no_action-ok c e = ground arith

validate_transition-legal :
    (from to : CommitmentState)
    → from_domain (validate_transition from to) ≡ ok tt
    → is_legal from to ≡ true
unfolding validate_transition
validate_transition-legal from to e = elim (Bool-cases (is_legal from to)) [
  | inl l ↦ l
  | inr n ↦ elim (Bool-cases (is_terminal from)) [
    | inl t ↦ absurd (ground arith)
    | inr t ↦ absurd (ground arith)
  ]
]

event_state-ok :
    (event : WorkEvent) (state : CommitmentState)
    → validate_commitment_event_state event state ≡ ok tt
    → describes event state ≡ true
unfolding validate_commitment_event_state
event_state-ok event state e = elim (Bool-cases (describes event state)) [
  | inl d ↦ d
  | inr n ↦ absurd (ground arith)
]

check_move-ok :
    (c : Commitment) (event : WorkEvent) (row : CommitmentRow) (state : CommitmentState)
    → check_move c event row state ≡ ok tt
    → (row.outstanding_action ≡ none)
      × (c.outstanding_action ≡ none)
      × (is_legal state c.state ≡ true)
      × (describes event c.state ≡ true)
unfolding check_move
check_move-ok c event row state e =
    let (_, idle, r1) = and_then-ok (check_idle c row.outstanding_action) _ tt e in
    let (_, _, r2) = and_then-ok (check_unbarred c row state) _ tt r1 in
    let (_, none_new, r3) = and_then-ok (check_no_action c) _ tt r2 in
    let (_, moved, r4) = and_then-ok (from_domain (validate_transition state c.state)) _ tt r3 in
    (
      check_idle-ok c row.outstanding_action idle,
      check_no_action-ok c none_new,
      validate_transition-legal state c.state moved,
      event_state-ok event c.state r4,
    )

validate_claim_persistence-ok :
    (c : Commitment) (state : CommitmentState) (high_water : Option ClaimEpoch) (db : Db)
    → validate_claim_persistence c state high_water db ≡ ok tt
    → (stored : Option ClaimLease) × (current_claim c.commitment_id db ≡ ok stored)
      × ClaimRule c state stored high_water
unfolding validate_claim_persistence
validate_claim_persistence-ok c state high_water db e =
    let (stored, read, rest) = and_then-ok (current_claim c.commitment_id db) _ tt e in
    (stored, read, compare_claims-ClaimRule c state high_water stored c.claim refl (ground arith))

check_change-ok :
    (c : Commitment) (expected : ℤ) (event : WorkEvent) (row : CommitmentRow) (db : Db)
    → find_commitment c.commitment_id.value db ≡ some row
    → check_change c expected event row db ≡ ok tt
    → (state : CommitmentState) × (stored : Option ClaimLease) × (high_water : Option ClaimEpoch)
      × ChangeRule c expected event row state stored high_water db
unfolding check_change ensure_version
check_change-ok c expected event row db found e =
    let (state, decoded, r1) = and_then-ok (decode_commitment_state row.state_json) _ tt e in
    let (_, v, r2) =
      and_then-ok (ensure_version "commitment" c.commitment_id.value expected row.state_version) _
        tt r1 in
    let (_, structure, r3) = and_then-ok (check_structure c row db) _ tt r2 in
    let (_, move, r4) = and_then-ok (check_move c event row state) _ tt r3 in
    let (high_water, mark, r5) =
      and_then-ok (current_last_claim_epoch c.commitment_id db) _ tt r4 in
    let (goal, description) = check_structure-ok c row db structure in
    let (was_idle, is_idle, legal, described) = check_move-ok c event row state move in
    let (stored, read, rule) = validate_claim_persistence-ok c state high_water db r5 in
    (
      state,
      stored,
      high_water,
      record {
        found = found;
        version = ground arith;
        decoded = decoded;
        same_goal = goal;
        same_description = description;
        was_idle = was_idle;
        is_idle = is_idle;
        legal = legal;
        described = described;
        claim_read = read;
        mark_read = mark;
        claim_rule = rule;
      },
    )

-- When a change of a commitment is persisted, it was made against the stored version, no action was
-- outstanding, and it follows the state graph as its event says. It keeps the stored claim, drops it,
-- or claims a READY commitment at the epoch after the high-water mark; a commitment without a claim
-- carries that mark unchanged.
pub persist_commitment_change_lem :
    (c : Commitment) (expected : ℤ) (event : WorkEvent) (created_at : ℤ) (event_id : Option ℕ)
    (db db' : Db)
    → persist_commitment_change c expected event created_at db ≡ ok (event_id, db')
    → (row : CommitmentRow) × (state : CommitmentState) × (stored : Option ClaimLease)
      × (high_water : Option ClaimEpoch) × ChangeRule c expected event row state stored high_water
          db
unfolding persist_commitment_change
persist_commitment_change_lem c expected event created_at event_id db db' e =
    let (_, _, r1) =
      try-ok (validate_commitment_event event c.commitment_id "commitment change") _ event_id db db'
        e in
    let (_, _, r2) = check-ok current_boot_generation _ event_id db db' r1 in
    let (row, read, r3) = check-ok (read_current c) _ event_id db db' r2 in
    let (_, checked, r4) = check-ok (check_change c expected event row) _ event_id db db' r3 in
    let found = ok_or-ok (find_commitment c.commitment_id.value db) _ row read in
    let (state, stored, high_water, rule) = check_change-ok c expected event row db found checked in
    (row, state, stored, high_water, rule)
