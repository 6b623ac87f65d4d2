-- ===== src/Core/StateMachine/Topology.antt =====
-- The transitions that `validate_transition` accepts as a relation, and what a history of them can do.
use resolve.Base.{
  List, [], ◌∷◌, ap, sym, ◌≡◌, refl, subst, ◌⊎◌, inl, inr, Bool, true, false, ok, arith,
}
use mathlib.Core.List.{Memᴰ}
use mathlib.Core.List.Memᴰ.{head, tail}
use resolve.Core.Types.{
  CommitmentState, WaitingReason, proposed, ready, claimed, working, waiting, recovery_pending,
  completion_proposed, completed, cancelled, abandoned, is_uncertain_action, is_terminal,
}
use resolve.Core.StateMachine.{is_legal, validate_transition}

-- One legal transition: forward work, waiting, recovery, or an explicit exit.
pub data Edge : CommitmentState → CommitmentState → Type 0 where
  activates : Edge proposed ready
  claims : Edge ready claimed
  starts : Edge claimed working
  waits : {r : WaitingReason} → Edge working (waiting r)
  resumes : {r : WaitingReason} → Edge (waiting r) working
  releases : {r : WaitingReason} → Edge (waiting r) ready
  proposes : Edge working completion_proposed
  completes : Edge completion_proposed completed
  loses_work : Edge working recovery_pending
  loses_wait :
      {r : WaitingReason} → is_uncertain_action r ≡ false → Edge (waiting r) recovery_pending
  loses_proposal : Edge completion_proposed recovery_pending
  recovers : Edge recovery_pending ready
  becomes_uncertain : {r : WaitingReason} → Edge recovery_pending (waiting r)
  cancels : {s : CommitmentState} → is_terminal s ≡ false → Edge s cancelled
  abandons : {s : CommitmentState} → is_terminal s ≡ false → Edge s abandoned

exit_legal :
    (s : CommitmentState)
    → is_terminal s ≡ false
    → (is_legal s cancelled ≡ true) × (is_legal s abandoned ≡ true)
exit_legal s h = ground arith

pub Edge-legal : {s t : CommitmentState} → Edge s t → is_legal s t ≡ true
Edge-legal activates = refl
Edge-legal claims = refl
Edge-legal starts = refl
Edge-legal waits = refl
Edge-legal resumes = refl
Edge-legal releases = refl
Edge-legal proposes = refl
Edge-legal completes = refl
Edge-legal loses_work = refl
Edge-legal (loses_wait h) = ground arith
Edge-legal loses_proposal = refl
Edge-legal recovers = refl
Edge-legal becomes_uncertain = refl
Edge-legal (cancels {s} h) = (exit_legal s h).0
Edge-legal (abandons {s} h) = (exit_legal s h).1

terminal_legal : (s t : CommitmentState) → is_terminal s ≡ true → is_legal s t ≡ false
terminal_legal s t h = ground arith

-- Histories of transitions that the code accepts.
pub data History (s : CommitmentState) : CommitmentState → Type 0 where
  here : History s s
  after : {t u : CommitmentState} → History s t → validate_transition t u ≡ ok tt → History s u

stuck :
    (s t u : CommitmentState) → is_terminal s ≡ true → s ≡ t → validate_transition t u ≡ ok tt → ⊥
unfolding validate_transition
stuck s t u h same e = ground (arith, subst (λ x. is_terminal x ≡ true) same h, terminal_legal t u)

-- Nothing follows a terminal state.
pub terminal_absorbing : {s t : CommitmentState} → is_terminal s ≡ true → History s t → s ≡ t
terminal_absorbing h here = refl
terminal_absorbing {s} h (after {t} {u} p e) = absurd (stuck s t u h (terminal_absorbing h p) e)

-- The states that are reached through a claim only.
abbrev past_claim : CommitmentState → Bool
past_claim proposed = false
past_claim ready = false
past_claim cancelled = false
past_claim abandoned = false
past_claim _ = true

past_claim_step :
    (s t : CommitmentState)
    → past_claim t ≡ true
    → validate_transition s t ≡ ok tt
    → (past_claim s ≡ true) ⊎ (t ≡ claimed)
unfolding validate_transition
past_claim_step s t h e = ground arith

-- The states of a history, the latest first.
unfoldable pub states : {s t : CommitmentState} → History s t → List CommitmentState
states {t} here = t ∷ []
states (after {u} p e) = u ∷ states p

claim_first :
    {t : CommitmentState} → past_claim t ≡ true → (p : History proposed t) → Memᴰ claimed (states p)
unfolding states
claim_first h here = cc
claim_first {t} h (after {t = s} p e) = elim (past_claim_step s t h e) [
  | inl before ↦ tail (claim_first before p)
  | inr now ↦ head (sym now)
]

completed_from :
    (s : CommitmentState) → validate_transition s completed ≡ ok tt → s ≡ completion_proposed
unfolding validate_transition
completed_from s e = ground arith

proposed_from :
    (s : CommitmentState) → validate_transition s completion_proposed ≡ ok tt → s ≡ working
unfolding validate_transition
proposed_from s e = ground arith

proposed_after_claim :
    {t : CommitmentState} (p : History proposed t)
    → t ≡ completion_proposed
    → (earlier : List CommitmentState) × (states p ≡ completion_proposed ∷ earlier)
      × Memᴰ claimed earlier
unfolding states
proposed_after_claim here e = absurd cc
proposed_after_claim (after {t = s} {u} p v) e =
    let was = proposed_from s (subst (λ x. validate_transition s x ≡ ok tt) e v) in
    (states p, ap (λ x. x ∷ states p) e, claim_first (ap past_claim was) p)

-- A history from proposed to completed has completion proposed as its last state but one, and has
-- been claimed before that.
pub completed_after_claim :
    (p : History proposed completed)
    → (earlier : List CommitmentState) × (states p ≡ completed ∷ completion_proposed ∷ earlier)
      × Memᴰ claimed earlier
unfolding states
completed_after_claim (after {t = s} p e) =
    let (earlier, same, claimed_) = proposed_after_claim p (completed_from s e) in
    (earlier, ap (λ ss. completed ∷ ss) same, claimed_)
