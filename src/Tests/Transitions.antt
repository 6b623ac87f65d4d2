-- ===== src/Tests/Transitions.antt =====
-- Histories of states.
use resolve.Base.{List, ◌∷◌, ◌≡◌, refl}
use mathlib.Core.List.{Memᴰ}
use resolve.Core.Types.{
  CommitmentState, proposed, ready, claimed, working, completion_proposed, completed,
}
use resolve.Core.StateMachine.{validate_transition}
use resolve.Core.StateMachine.Topology.{
  History, here, after, states, terminal_absorbing, completed_after_claim,
}

abbrev history : History proposed completed
unfolding validate_transition
history =
    after {t = completion_proposed}
      (after {t = working} (after {t = claimed} (after {t = ready} (after here refl) refl) refl)
        refl)
      refl

terminal_absorbing_example : completed ≡ completed
terminal_absorbing_example = terminal_absorbing {s = completed} {t = completed} refl here

completed_after_claim_example :
    (earlier : List CommitmentState) × (states history ≡ completed ∷ completion_proposed ∷ earlier)
    × Memᴰ claimed earlier
completed_after_claim_example = completed_after_claim history
