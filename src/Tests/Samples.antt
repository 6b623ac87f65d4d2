-- ===== src/Tests/Samples.antt =====
-- The identifiers and commitments of the tests, after the unit tests of domain.rs.
use resolve.Base.{[], some, none, String}
use resolve.Base.Text.{text}
use resolve.Core.Types.{
  IdKind, Identifier, WorkerId, TethersActionRef, ready, uncertain_action, external, waiting,
  ClaimLease,
}
use resolve.Core.Commitment.{Commitment}

abbrev pub id : {k : IdKind} → String → Identifier k
id s = record { value = text s }

abbrev pub alice : WorkerId
alice = id "worker-1"

abbrev pub bob : WorkerId
bob = id "worker-2"

abbrev pub ready_commitment : Commitment
ready_commitment = record {
  commitment_id = id "commitment-1";
  goal_id = id "goal-1";
  parent_id = none;
  description = text "change";
  state = ready;
  prerequisites = [];
  acceptance_refs = [];
  claim = none;
  outstanding_action = none;
  last_claim_epoch = none;
}

abbrev pub alice_lease : ClaimLease
alice_lease = record { worker_id = alice; epoch = 1; last_heartbeat = 10 }

abbrev pub bob_lease : ClaimLease
bob_lease = record { worker_id = bob; epoch = 2; last_heartbeat = 20 }

abbrev pub waiting_commitment : Commitment
waiting_commitment = record ready_commitment {
  state = waiting (external (text "input"));
  claim = some alice_lease;
  last_claim_epoch = some 1;
}

abbrev pub action : TethersActionRef
action = id "action-1"

abbrev pub uncertain_commitment : Commitment
uncertain_commitment = record ready_commitment {
  state = waiting (uncertain_action action);
  outstanding_action = some action;
  last_claim_epoch = some 1;
}
