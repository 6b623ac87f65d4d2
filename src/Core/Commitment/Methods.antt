-- ===== src/Core/Commitment/Methods.antt =====
-- The methods of `Commitment` on `&mut self`: each returns its result beside the commitment as it
-- left it, also on an error.
use resolve.Base.{
  Bool, true, false, List, [], ◌∷◌, Option, some, none, Result, ok, err, Method, ◌≟◌,
}
use resolve.Base.Methods.{◌>>=◌, ◌>>◌, self, assign, try, return}
use resolve.Core.Types.{
  WorkerId, ClaimEpoch, MonotonicInstant, ClaimLease, CommitmentState, ready, claimed, working,
  waiting, completion_proposed, completed, cancelled, abandoned, WaitingReason, uncertain_action,
  is_uncertain_action, ResumeTarget, to_ready, to_working,
}
use resolve.Core.Equality.{nat_eq, identifier_eq}
use resolve.Core.Error.{
  DomainError, Domain, commitment_already_claimed, not_claimed, claim_owner_mismatch, stale_epoch,
  recovery_required,
}
use resolve.Core.Numbers.{initial, next_epoch}
use resolve.Core.StateMachine.{validate_transition}
use resolve.Core.Commitment.{Commitment, lease}

-- A method that returns `Result<A, DomainError>`.
abbrev pub Mutates : Type 0 → Type 0
Mutates A = Method DomainError Commitment A

require_owner : ClaimLease → WorkerId → ClaimEpoch → Domain (Unit {0})
require_owner claim worker_id epoch = elim (claim.worker_id ≟ worker_id) [
  | no _ ↦ err (claim_owner_mismatch claim.worker_id worker_id)
  | yes _ ↦ elim (claim.epoch ≟ epoch) [
    | no _ ↦ err (stale_epoch claim.epoch epoch)
    | yes _ ↦ ok tt
  ]
]

require_current : Option ClaimLease → WorkerId → ClaimEpoch → Domain (Unit {0})
unfolding require_owner
require_current none worker_id epoch = err not_claimed
require_current (some claim) worker_id epoch = require_owner claim worker_id epoch

unfoldable pub require_current_claim : WorkerId → ClaimEpoch → Mutates Unit
unfolding require_current
require_current_claim worker_id epoch = do
  this ← self
  try (require_current this.claim worker_id epoch)

unfoldable pub transition_to : CommitmentState → Mutates Unit
unfolding validate_transition
transition_to next = do
  this ← self
  try (validate_transition this.state next)
  assign (λ c. record c { state = next })

abbrev drop_claim : Mutates Unit
drop_claim = assign (λ c. record c { claim = none })

unfoldable pub activate : Mutates Unit
unfolding transition_to
activate = transition_to ready

reject_claimed : Option ClaimLease → Domain (Unit {0})
reject_claimed none = ok tt
reject_claimed (some claim) = err (commitment_already_claimed claim.worker_id claim.epoch)

epoch_after : Option ClaimEpoch → Domain ClaimEpoch
unfolding next_epoch
epoch_after none = ok initial
epoch_after (some epoch) = next_epoch epoch

unfoldable pub claim_for : WorkerId → MonotonicInstant → Mutates ClaimLease
unfolding validate_transition reject_claimed epoch_after
claim_for worker last_heartbeat = do
  this ← self
  try (reject_claimed this.claim)
  try (validate_transition this.state claimed)
  epoch ← try (epoch_after this.last_claim_epoch)
  let claim = lease (worker, epoch, last_heartbeat)
  assign (λ c. record c { last_claim_epoch = some epoch })
  assign (λ c. record c { claim = some claim })
  assign (λ c. record c { state = claimed })
  return claim

unfoldable pub start : WorkerId → ClaimEpoch → Mutates Unit
unfolding require_current_claim transition_to
start worker_id epoch = do require_current_claim worker_id epoch; transition_to working

drop_claim_if : Bool → Mutates Unit
drop_claim_if true = drop_claim
drop_claim_if false = return tt

unfoldable pub wait : WorkerId → ClaimEpoch → WaitingReason → Mutates Unit
unfolding require_current_claim transition_to drop_claim_if
wait worker_id epoch reason = do
  require_current_claim worker_id epoch
  transition_to (waiting reason)
  drop_claim_if (is_uncertain_action reason)

reject_uncertain : CommitmentState → Domain (Unit {0})
reject_uncertain (waiting (uncertain_action action)) = err (recovery_required action)
reject_uncertain _ = ok tt

abbrev target_state : ResumeTarget → CommitmentState
target_state to_ready = ready
target_state to_working = working

abbrev releases : ResumeTarget → Bool
releases to_ready = true
releases to_working = false

unfoldable pub resume : WorkerId → ClaimEpoch → ResumeTarget → Mutates Unit
unfolding require_current_claim transition_to drop_claim_if reject_uncertain
resume worker_id epoch target = do
  this ← self
  try (reject_uncertain this.state)
  require_current_claim worker_id epoch
  transition_to (target_state target)
  drop_claim_if (releases target)

unfoldable pub propose_completion : WorkerId → ClaimEpoch → Mutates Unit
unfolding require_current_claim transition_to
propose_completion worker_id epoch = do
  require_current_claim worker_id epoch
  transition_to completion_proposed

unfoldable pub complete : WorkerId → ClaimEpoch → Mutates Unit
unfolding require_current_claim transition_to
complete worker_id epoch = do
  require_current_claim worker_id epoch
  transition_to completed
  drop_claim

unfoldable pub cancel : Mutates Unit
unfolding transition_to
cancel = do transition_to cancelled; drop_claim

unfoldable pub abandon : Mutates Unit
unfolding transition_to
abandon = do transition_to abandoned; drop_claim

-- One call of a method.
pub data Call : Type 0 where
  activates cancels abandons : Call
  claims : WorkerId → MonotonicInstant → Call
  starts proposes completes : WorkerId → ClaimEpoch → Call
  waits : WorkerId → ClaimEpoch → WaitingReason → Call
  resumes : WorkerId → ClaimEpoch → ResumeTarget → Call

-- The result of a call, without the lease that `claim_for` returns.
abbrev forget {ℓ} :
    {A : Type ℓ} → Result DomainError A × Commitment → Domain (Unit {0}) × Commitment
forget (ok a, c) = (ok tt, c)
forget (err e, c) = (err e, c)

unfoldable pub perform : Call → Mutates Unit
unfolding activate claim_for start wait resume propose_completion complete cancel abandon
perform activates c = activate c
perform cancels c = cancel c
perform abandons c = abandon c
perform (claims w t) c = forget (claim_for w t c)
perform (starts w e) c = start w e c
perform (proposes w e) c = propose_completion w e c
perform (completes w e) c = complete w e c
perform (waits w e r) c = wait w e r c
perform (resumes w e t) c = resume w e t c

unfoldable pub perform_all : List Call → Commitment → Commitment
perform_all [] c = c
perform_all (call ∷ calls) c = perform_all calls (perform call c).1
