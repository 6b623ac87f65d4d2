-- ===== src/Core/Commitment/Fencing.antt =====
-- Claim epochs fence workers: each new claim outbids every earlier one, and a worker with an old
-- epoch changes nothing.
use resolve.Base.{
  ℕ, ◌+◌, ◌≤◌, ◌<◌, ◌≡◌, ◌≢◌, refl, sym, ap, false, List, [], ◌∷◌, Option, some, none, ok, err,
  arith,
}
use resolve.Core.Types.{
  ClaimLease, ClaimEpoch, WorkerId, MonotonicInstant, WaitingReason, ResumeTarget, uncertain_action,
  waiting, ready, is_uncertain_action, TethersActionRef,
}
use mathlib.Core.Path.{subst₂}
use resolve.Core.Error.{DomainError, Domain, recovery_required}
use resolve.Core.Commitment.{Commitment}
use resolve.Core.Commitment.Invariant.{AtHighWater, IsWellFormed}
use resolve.Core.Commitment.Methods.{
  Call, activates, starts, proposes, completes, waits, resumes, perform, perform_all, claim_for,
}

-- The highest epoch that was given out; 0 before the first claim.
abbrev pub high_water : Option ClaimEpoch → ℕ
high_water none = 0
high_water (some e) = e

abbrev pub water_of : Commitment → ℕ
water_of c = high_water c.last_claim_epoch

-- The epoch that a call presents, for the calls that a worker makes under its claim.
abbrev pub presents : Call → Option (WorkerId × ClaimEpoch)
presents (starts w e) = some (w, e)
presents (proposes w e) = some (w, e)
presents (completes w e) = some (w, e)
presents (waits w e r) = some (w, e)
presents (resumes w e t) = some (w, e)
presents _ = none

-- A call that fails leaves the commitment as it was.
pub perform_fails_clean :
    (call : Call) (c : Commitment) (e : DomainError)
    → (perform call c).0 ≡ err e
    → (perform call c).1 ≡ c
unfolding perform
perform_fails_clean (waits w e' (uncertain_action a)) c e h = ground arith
perform_fails_clean (waits w e' r) c e h = ground arith
perform_fails_clean call c e h = ground arith

-- A call that presents a worker and an epoch succeeds only under that worker's live claim.
pub perform_needs_claim :
    (call : Call) (c : Commitment) (w : WorkerId) (e : ClaimEpoch)
    → presents call ≡ some (w, e)
    → (perform call c).0 ≡ ok tt
    → (l : ClaimLease) × (c.claim ≡ some l) × (l.worker_id ≡ w) × (l.epoch ≡ e)
unfolding perform
perform_needs_claim (waits w' e' (uncertain_action a)) c w e p h = ground arith
perform_needs_claim (waits w' e' r) c w e p h = ground arith
perform_needs_claim call c w e p h = ground arith

-- Every call keeps a live claim at the highest epoch, and never lowers that epoch.
pub perform_water :
    (call : Call) (c : Commitment)
    → AtHighWater c.claim c.last_claim_epoch
    → AtHighWater (perform call c).1.claim (perform call c).1.last_claim_epoch
      × (water_of c ≤ water_of (perform call c).1)
unfolding perform
perform_water (waits w e (uncertain_action a)) c h = ground arith
perform_water (waits w e r) c h = ground arith
perform_water call c h = ground arith

pub perform_all_water :
    (calls : List Call) (c : Commitment)
    → AtHighWater c.claim c.last_claim_epoch
    → AtHighWater (perform_all calls c).claim (perform_all calls c).last_claim_epoch
      × (water_of c ≤ water_of (perform_all calls c))
unfolding perform_all
perform_all_water [] c h = ground arith
perform_all_water (call ∷ calls) c h =
    let (keeps, grows) = perform_water call c h in
    let (kept, grown) = perform_all_water calls (perform call c).1 keeps in (kept, omega arith)

-- A successful claim takes the next epoch and becomes the live claim.
pub claim_for_lem :
    (c : Commitment) (w : WorkerId) (t : MonotonicInstant) (l : ClaimLease)
    → (claim_for w t c).0 ≡ ok l
    → (l.worker_id ≡ w)
      × (l.epoch ≡ water_of c + 1)
      × ((claim_for w t c).1.claim ≡ some l)
      × ((claim_for w t c).1.last_claim_epoch ≡ some l.epoch)
unfolding claim_for
claim_for_lem c w t l h = ground arith

-- A worker whose epoch lies below the highest one changes nothing by any call that presents it.
pub stale_call_refused :
    (call : Call) (c : Commitment) (w : WorkerId) (e : ClaimEpoch)
    → AtHighWater c.claim c.last_claim_epoch
    → e < water_of c
    → presents call ≡ some (w, e)
    → ((perform call c).0 ≢ ok tt) × ((perform call c).1 ≡ c)
stale_call_refused call c w e at_water below shows = (refused, unchanged (perform call c).0 refl)
  where
    refused : (perform call c).0 ≢ ok tt
    refused h = let (l, live, _, same) = perform_needs_claim call c w e shows h in ground arith

    unchanged : (r : Domain (Unit {0})) → (perform call c).0 ≡ r → (perform call c).1 ≡ c
    unchanged (ok tt) h = absurd (refused h)
    unchanged (err x) h = perform_fails_clean call c x h

-- After a claim, whatever calls follow: a later successful claim has a higher epoch, and from then
-- on, whatever calls follow again, no call under the first claim's epoch succeeds or changes
-- anything.
pub claim_for_fences :
    (c : Commitment) (w w' x : WorkerId) (t t' : MonotonicInstant) (l l' : ClaimLease)
    (between later : List Call) (call : Call)
    → (claim_for w t c).0 ≡ ok l
    → (claim_for w' t' (perform_all between (claim_for w t c).1)).0 ≡ ok l'
    → presents call ≡ some (x, l.epoch)
    → let final = perform_all later (claim_for w' t' (perform_all between (claim_for w t c).1)).1 in
      (l.epoch < l'.epoch) × ((perform call final).0 ≢ ok tt) × ((perform call final).1 ≡ final)
claim_for_fences c w w' x t t' l l' between later call first second shows =
    let (_, _, live, high) = claim_for_lem c w t l first in
    let held = (claim_for w t c).1 in
    let d = perform_all between held in
    let (_, grew) =
      perform_all_water between held (subst₂ AtHighWater (sym live) (sym high) refl) in
    let (_, next, live', high') = claim_for_lem d w' t' l' second in
    let again = (claim_for w' t' d).1 in
    let (kept, grew') =
      perform_all_water later again (subst₂ AtHighWater (sym live') (sym high') refl) in
    let below : l.epoch < l'.epoch = omega (arith, ap high_water high) in
    let (refused, unchanged) =
      stale_call_refused call (perform_all later again) x l.epoch kept
        (omega (arith, ap high_water high')) shows in
    (below, refused, unchanged)

-- `activate` turns a commitment that waits on an uncertain action into a ready one and changes
-- nothing else, where `resume` refuses it because recovery is required.
pub activate_skips_recovery :
    (c : Commitment) (a : TethersActionRef) (w : WorkerId) (e : ClaimEpoch) (target : ResumeTarget)
    → c.state ≡ waiting (uncertain_action a)
    → (perform activates c ≡ (ok tt, record c { state = ready }))
      × (perform (resumes w e target) c ≡ (err (recovery_required a), c))
unfolding perform
activate_skips_recovery c a w e target h = ground arith

-- `activate`, called on a well-formed commitment that waits on anything but an uncertain action,
-- succeeds and leaves a commitment that is not well-formed.
pub activate_keeps_claim :
    (c : Commitment) (r : WaitingReason)
    → c.state ≡ waiting r
    → is_uncertain_action r ≡ false
    → IsWellFormed c
    → ((perform activates c).0 ≡ ok tt) × ¬ IsWellFormed (perform activates c).1
unfolding perform
activate_keeps_claim c r s u v = (
  ground arith,
  λ (v' : IsWellFormed (perform activates c).1). ground (arith, v'.claimed_while_live),
)
