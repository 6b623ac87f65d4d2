-- ===== src/Core/Commitment.antt =====
-- `Commitment` of domain.rs: its constructor and its restoration from stored fields. The methods
-- and the theorems stand in the modules below.
pub mod Methods
pub mod Invariant
pub mod Fencing
use resolve.Base.{
  ℕ, Bool, true, false, List, Option, some, none, Result, ok, err, ensure, reject, ◌≟◌, ◌&&◌, ◌>>=◌,
  ◌>>◌, is_some, bool_eq,
}
use mathlib.Core.Option
use resolve.Base.Text.{Text}
use resolve.Core.Types.{
  CommitmentId, GoalId, WorkerId, TethersActionRef, AcceptanceRef, ClaimEpoch, MonotonicInstant,
  Prerequisite, ClaimLease, CommitmentState, proposed, working, waiting, recovery_pending,
  uncertain_action, is_uncertain_action, requires_active_claim,
}
use resolve.Core.Equality.{nat_eq, identifier_eq}
use resolve.Core.Error.{Domain, invalid_restored_state}
use resolve.Core.Ids.{nonempty_description}

pub record Commitment : Type 0 where
  pub commitment_id : CommitmentId
  pub goal_id : GoalId
  pub parent_id : Option CommitmentId
  pub description : Text
  pub state : CommitmentState
  pub prerequisites : List Prerequisite
  pub acceptance_refs : List AcceptanceRef
  pub claim : Option ClaimLease
  pub outstanding_action : Option TethersActionRef
  pub last_claim_epoch : Option ClaimEpoch

unfoldable pub commitment_new :
    CommitmentId
    → GoalId
    → Option CommitmentId
    → Text
    → List Prerequisite
    → List AcceptanceRef
    → Domain Commitment
unfolding nonempty_description
commitment_new commitment_id goal_id parent_id description prerequisites acceptance_refs = do
  description' ← nonempty_description description
  ok (record {
    commitment_id = commitment_id;
    goal_id = goal_id;
    parent_id = parent_id;
    description = description';
    state = proposed;
    prerequisites = prerequisites;
    acceptance_refs = acceptance_refs;
    claim = none;
    outstanding_action = none;
    last_claim_epoch = none;
  })

-- `active_claim.is_some_and(|claim| Some(claim.epoch()) != last_claim_epoch)` is false
claim_at_high_water : Option ClaimLease → Option ClaimEpoch → Bool
claim_at_high_water none last = true
claim_at_high_water (some claim) none = false
claim_at_high_water (some claim) (some epoch) = elim (claim.epoch ≟ epoch) [
  | yes _ ↦ true
  | no _ ↦ false
]

-- Whether an outstanding action may stand beside the state.
action_state_is_valid : Option TethersActionRef → CommitmentState → Bool
action_state_is_valid none state = true
action_state_is_valid (some action) working = true
action_state_is_valid (some action) recovery_pending = true
action_state_is_valid (some action) (waiting (uncertain_action waiting_action)) =
    elim (waiting_action ≟ action) [ yes _ ↦ true | no _ ↦ false ]
action_state_is_valid (some action) _ = false

abbrev is_uncertain_waiting : CommitmentState → Bool
is_uncertain_waiting (waiting reason) = is_uncertain_action reason
is_uncertain_waiting _ = false

abbrev pub lease : WorkerId × ClaimEpoch × MonotonicInstant → ClaimLease
lease (worker, epoch', heartbeat) = record {
  worker_id = worker;
  epoch = epoch';
  last_heartbeat = heartbeat;
}

-- Rehydrates a commitment only after validating its persisted invariants.
unfoldable pub restore :
    CommitmentId
    → GoalId
    → Option CommitmentId
    → Text
    → CommitmentState
    → List Prerequisite
    → List AcceptanceRef
    → Option (WorkerId × ClaimEpoch × MonotonicInstant)
    → Option TethersActionRef
    → Option ClaimEpoch
    → Domain Commitment
unfolding nonempty_description claim_at_high_water action_state_is_valid
restore commitment_id goal_id parent_id description state prerequisites acceptance_refs claim
      outstanding_action last_claim_epoch =
    do
      description' ← nonempty_description description
      let claim' = Option.map lease claim
      ensure (claim_at_high_water claim' last_claim_epoch)
          (invalid_restored_state "active claim epoch must equal the durable high-water mark")
      ensure (bool_eq (requires_active_claim state) (is_some claim'))
          (invalid_restored_state "commitment state and active claim disagree")
      ensure (action_state_is_valid outstanding_action state)
          (invalid_restored_state "outstanding action disagrees with commitment state")
      reject (is_uncertain_waiting state && is_some claim')
          (invalid_restored_state "uncertain waiting must not retain an active claim")
      ok (record {
        commitment_id = commitment_id;
        goal_id = goal_id;
        parent_id = parent_id;
        description = description';
        state = state;
        prerequisites = prerequisites;
        acceptance_refs = acceptance_refs;
        claim = claim';
        outstanding_action = outstanding_action;
        last_claim_epoch = last_claim_epoch;
      })
