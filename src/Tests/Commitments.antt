-- ===== src/Tests/Commitments.antt =====
-- Calls on commitments.
use resolve.Base.{◌≡◌, ◌≢◌, refl, ◌<◌, ◌↔◌, List, [], ◌∷◌, some, none, ok, err, ℕ_discrete}
use resolve.Base.Text.{text, is_blank}
use resolve.Core.Types.{ready, to_ready, to_working, external, ClaimLease}
use resolve.Core.Equality.{Identifier-discrete}
use resolve.Core.Error.{recovery_required, not_claimed}
use resolve.Core.Commitment.Methods.{
  Call, activates, starts, waits, resumes, perform, perform_all, claim_for,
}
use resolve.Core.Commitment.Invariant.{
  IsWellFormed, restore_fields, restore-IsWellFormed, perform-IsWellFormed,
}
use resolve.Core.Commitment.Fencing.{
  claim_for_fences, perform_fails_clean, perform_needs_claim, activate_skips_recovery,
  activate_keeps_claim,
}
use resolve.Tests.Samples.{
  alice, bob, ready_commitment, alice_lease, bob_lease, waiting_commitment, uncertain_commitment,
  action,
}

-- Work, wait and hand back, as in the unit test of the fencing.
abbrev hand_back : List Call
hand_back = starts alice 1 ∷ waits alice 1 (external (text "input")) ∷ resumes alice 1 to_ready ∷ []

claim_for_fences_example :
    let final =
      (claim_for bob 20 (perform_all hand_back (claim_for alice 10 ready_commitment).1)).1 in
    (1 < 2)
    × ((perform (starts alice 1) final).0 ≢ ok tt)
    × ((perform (starts alice 1) final).1 ≡ final)
unfolding claim_for perform_all perform Identifier-discrete ℕ_discrete
claim_for_fences_example =
    claim_for_fences ready_commitment alice bob alice 10 20 alice_lease bob_lease hand_back []
      (starts alice 1) refl refl refl

waiting-IsWellFormed : IsWellFormed waiting_commitment
unfolding is_blank
waiting-IsWellFormed = record {
  described = refl;
  at_high_water = refl;
  claimed_while_live = refl;
  action_fits = tt;
}

restore-IsWellFormed_example :
    (restore_fields waiting_commitment ≡ ok waiting_commitment) ↔ IsWellFormed waiting_commitment
restore-IsWellFormed_example = restore-IsWellFormed waiting_commitment

perform-IsWellFormed_example :
    IsWellFormed (perform (resumes alice 1 to_working) waiting_commitment).1
    × ((perform (resumes alice 1 to_working) waiting_commitment).1.outstanding_action ≡ none)
perform-IsWellFormed_example =
    perform-IsWellFormed (resumes alice 1 to_working) waiting_commitment (λ e. cc) refl
      waiting-IsWellFormed

perform_fails_clean_example : (perform (starts alice 1) ready_commitment).1 ≡ ready_commitment
unfolding perform
perform_fails_clean_example = perform_fails_clean (starts alice 1) ready_commitment not_claimed refl

perform_needs_claim_example :
    (l : ClaimLease) × (waiting_commitment.claim ≡ some l) × (l.worker_id ≡ alice) × (l.epoch ≡ 1)
unfolding perform Identifier-discrete ℕ_discrete
perform_needs_claim_example =
    perform_needs_claim (resumes alice 1 to_working) waiting_commitment alice 1 refl refl

activate_skips_recovery_example :
    (perform activates uncertain_commitment
      ≡ (ok tt, record uncertain_commitment { state = ready }))
    × (perform (resumes alice 1 to_ready) uncertain_commitment
        ≡ (err (recovery_required action), uncertain_commitment))
activate_skips_recovery_example =
    activate_skips_recovery uncertain_commitment action alice 1 to_ready refl

activate_keeps_claim_example :
    ((perform activates waiting_commitment).0 ≡ ok tt)
    × ¬ IsWellFormed (perform activates waiting_commitment).1
activate_keeps_claim_example =
    activate_keeps_claim waiting_commitment (external (text "input")) refl refl waiting-IsWellFormed
