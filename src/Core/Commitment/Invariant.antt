-- ===== src/Core/Commitment/Invariant.antt =====
-- When a commitment is well-formed, and that the methods keep it so.
use resolve.Base.{◌≡◌, refl, ◌↔◌, ◌⊎◌, false, Option, some, none, ok, arith, is_some}
use mathlib.Core.Option
use resolve.Base.Text.{is_blank}
use resolve.Core.Types.{
  TethersActionRef, ClaimLease, ClaimEpoch, CommitmentState, working, waiting, recovery_pending,
  uncertain_action, requires_active_claim, WorkerId, MonotonicInstant,
}
use resolve.Core.Error.{Domain}
use resolve.Core.Commitment.{Commitment, restore}
use resolve.Core.Commitment.Methods.{
  Call, activates, cancels, abandons, claims, starts, proposes, completes, waits, resumes, perform,
}

-- A live claim carries the highest epoch that was given out.
abbrev pub AtHighWater : Option ClaimLease → Option ClaimEpoch → Type 0
AtHighWater none last = Unit {0}
AtHighWater (some claim) last = last ≡ some claim.epoch

-- An admitted action is outstanding in these states only.
abbrev pub ActionFits : Option TethersActionRef → CommitmentState → Type 0
ActionFits none s = Unit {0}
ActionFits (some a) s =
    (s ≡ working) ⊎ ((s ≡ recovery_pending) ⊎ (s ≡ waiting (uncertain_action a)))

pub record IsWellFormed (c : Commitment) : Type 0 where
  pub described : is_blank c.description ≡ false
  pub at_high_water : AtHighWater c.claim c.last_claim_epoch
  pub claimed_while_live : is_some c.claim ≡ requires_active_claim c.state
  pub action_fits : ActionFits c.outstanding_action c.state

abbrev pub unlease : ClaimLease → WorkerId × ClaimEpoch × MonotonicInstant
unlease l = (l.worker_id, l.epoch, l.last_heartbeat)

-- `restore` applied to the fields of `c`.
abbrev pub restore_fields : Commitment → Domain Commitment
restore_fields c =
    restore c.commitment_id c.goal_id c.parent_id c.description c.state c.prerequisites
      c.acceptance_refs (Option.map unlease c.claim) c.outstanding_action c.last_claim_epoch

-- A stored commitment is restored, unchanged, exactly when it is well-formed.
pub restore-IsWellFormed : (c : Commitment) → (restore_fields c ≡ ok c) ↔ IsWellFormed c
unfolding restore
restore-IsWellFormed c = ground arith

-- Every method but `activate` keeps a commitment with no outstanding action well-formed, also where
-- it fails; `activate` does so where no worker holds the commitment.
pub perform-IsWellFormed :
    (call : Call) (c : Commitment)
    → (call ≡ activates → c.claim ≡ none)
    → c.outstanding_action ≡ none
    → IsWellFormed c
    → IsWellFormed (perform call c).1 × ((perform call c).1.outstanding_action ≡ none)
unfolding perform
perform-IsWellFormed activates c free idle v = ground (arith, free refl)
perform-IsWellFormed cancels c free idle v = ground arith
perform-IsWellFormed abandons c free idle v = ground arith
perform-IsWellFormed (claims w t) c free idle v = ground arith
perform-IsWellFormed (starts w e) c free idle v = ground arith
perform-IsWellFormed (proposes w e) c free idle v = ground arith
perform-IsWellFormed (completes w e) c free idle v = ground arith
perform-IsWellFormed (waits w e (uncertain_action a)) c free idle v = ground arith
perform-IsWellFormed (waits w e r) c free idle v = ground arith
perform-IsWellFormed (resumes w e t) c free idle v = ground arith
