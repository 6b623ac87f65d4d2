-- ===== src/Core/StateMachine.antt =====
-- crates/resolve-core/src/state_machine.rs: the topology of commitment states.
pub mod Topology
use resolve.Base.{Bool, true, false, not, ok, err, Result, if◌then◌else◌}
use resolve.Core.Types.{
  CommitmentState, proposed, ready, claimed, working, waiting, recovery_pending,
  completion_proposed, completed, cancelled, abandoned, is_uncertain_action, is_terminal,
}
use resolve.Core.Error.{Domain, terminal_commitment_immutable, invalid_transition}

-- The `match` of `validate_transition`.
abbrev pub is_legal : CommitmentState → CommitmentState → Bool
is_legal proposed ready = true
is_legal proposed cancelled = true
is_legal proposed abandoned = true
is_legal ready claimed = true
is_legal ready cancelled = true
is_legal ready abandoned = true
is_legal claimed working = true
is_legal claimed cancelled = true
is_legal claimed abandoned = true
is_legal working (waiting _) = true
is_legal working recovery_pending = true
is_legal working completion_proposed = true
is_legal working cancelled = true
is_legal working abandoned = true
is_legal (waiting _) ready = true
is_legal (waiting _) working = true
is_legal (waiting _) cancelled = true
is_legal (waiting _) abandoned = true
is_legal recovery_pending ready = true
is_legal recovery_pending (waiting _) = true
is_legal recovery_pending cancelled = true
is_legal recovery_pending abandoned = true
is_legal completion_proposed completed = true
is_legal completion_proposed cancelled = true
is_legal completion_proposed abandoned = true
is_legal (waiting reason) recovery_pending = not (is_uncertain_action reason)
is_legal completion_proposed recovery_pending = true
is_legal _ _ = false

unfoldable pub validate_transition : CommitmentState → CommitmentState → Domain (Unit {0})
validate_transition from to =
    if is_legal from to
    then ok tt
    else if is_terminal from
    then err (terminal_commitment_immutable from)
    else err (invalid_transition from to)
