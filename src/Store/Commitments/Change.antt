-- ===== src/Store/Commitments/Change.antt =====
-- `persist_commitment_change` of sqlite.rs.
use resolve.Base.{
  ℕ, ◌+◌, ◌≡◌, Bool, true, false, List, Option, some, none, Result, ok, err, ok_or, ensure, reject,
  ◌=?◌, ◌≠?◌, ◌&&◌, ◌||◌, not, is_some, ◌==◌, ltb, if◌then◌else◌, String, is_value, bool_eq, DecEq,
  ℕ_discrete,
}
use mathlib.Core.Option
use resolve.Base
use resolve.Base.Int.{ℤ, leb_ℤ}
use resolve.Base.Text.{Text}
use resolve.Core.Types.{
  CommitmentId, CommitmentState, cancelled, abandoned, is_terminal, BootGeneration, Prerequisite,
  AcceptanceRef,
}
use resolve.Core.Equality.{identifier_eq, nat_eq, prerequisite_eq}
use resolve.Core.Error.{invalid_structural_proposal}
use resolve.Core.Events.{WorkEvent}
use resolve.Core.StateMachine.{validate_transition}
use resolve.Core.Commitment.{Commitment}
use resolve.Store.Error.{Stored, domain, not_found, outstanding_action}
use resolve.Store.Sql.{update}
use resolve.Store.Tables.{Db, CommitmentRow, text_eq, int_eq}
use resolve.Store.Codec.{
  from_domain, to_sql, transpose, next_state_version, decode_commitment_state,
  encode_commitment_state,
}
use resolve.Store.Tx.{
  Tx, ◌>>=◌, ◌>>◌, try, check, query, execute, return, append_event, last_event_id,
  current_boot_generation,
}
use resolve.Store.Goals.{ensure_version}
use resolve.Store.Descriptions.{validate_commitment_event, validate_commitment_event_state}
use resolve.Store.Recovery.Cascade.{
  find_commitment, is_completed, complete_composite_barrier_cascade,
}
use resolve.Store.Recovery.Expiry.{is_at}
use resolve.Store.Commitments.Claim.{refused, current_last_claim_epoch, validate_claim_persistence}
use resolve.Store.Commitments.{query_prerequisites, query_acceptance_refs, sync_commitment_children}

abbrev same_parent : Option Text → Option CommitmentId → Bool
same_parent none none = true
same_parent none (some b) = false
same_parent (some a) none = false
same_parent (some a) (some b) = a =? b.value

unfoldable pub Prerequisites-discrete : Discrete (List Prerequisite)
Prerequisites-discrete = hlevel ℕ_discrete

unfoldable pub AcceptanceRefs-discrete : Discrete (List AcceptanceRef)
AcceptanceRefs-discrete = hlevel ℕ_discrete

instance abbrev prerequisites_eq : DecEq (List Prerequisite)
prerequisites_eq = record { decide_eq = Prerequisites-discrete }

instance abbrev acceptance_refs_eq : DecEq (List AcceptanceRef)
acceptance_refs_eq = record { decide_eq = AcceptanceRefs-discrete }

-- The identity, the place in the tree and the references of the commitment.
unfoldable pub check_structure : Commitment → CommitmentRow → Db → Stored (Unit {0})
check_structure c row db =
    Base.◌>>◌
      (ensure
        (row.goal_id =? c.goal_id.value
          && same_parent row.parent_id c.parent_id
          && row.description =? c.description)
        (refused "generic commitment persistence cannot change identity or topology"))
      (Base.◌>>=◌ (query_prerequisites c.commitment_id db) λ prerequisites.
        Base.◌>>◌
          (ensure (prerequisites =? c.prerequisites)
            (refused "generic commitment persistence cannot change structural references"))
          (Base.◌>>=◌ (query_acceptance_refs c.commitment_id db) λ refs.
            ensure (refs =? c.acceptance_refs)
              (refused "generic commitment persistence cannot change structural references")))

abbrev is_dropped : CommitmentState → Bool
is_dropped cancelled = true
is_dropped abandoned = true
is_dropped _ = false

abbrev pub check_idle : Commitment → Option Text → Stored (Unit {0})
check_idle c none = ok tt
check_idle c (some action_ref) = err (outstanding_action c.commitment_id.value action_ref)

-- A composite that waits for its replacement terminal can only be dropped.
unfoldable pub check_unbarred : Commitment → CommitmentRow → CommitmentState → Stored (Unit {0})
check_unbarred c row current_state =
    reject
      (is_some row.replacement_terminal_id
        && not (is_terminal current_state)
        && not (is_dropped c.state))
      (domain (
        invalid_structural_proposal
          "ordinary persistence cannot bypass an active composite barrier"))

abbrev pub check_no_action : Commitment → Stored (Unit {0})
check_no_action c =
    reject (is_some c.outstanding_action)
      (refused "generic commitment persistence cannot create an outstanding action")

-- The actions, the composite barrier, the transition and its event.
unfoldable pub check_move :
    Commitment → WorkEvent → CommitmentRow → CommitmentState → Stored (Unit {0})
check_move c event row current_state = Base.◌>>◌ (check_idle c row.outstanding_action) (
    Base.◌>>◌ (check_unbarred c row current_state) (
      Base.◌>>◌ (check_no_action c) (
        Base.◌>>◌ (from_domain (validate_transition current_state c.state))
          (validate_commitment_event_state event c.state))))

-- The CASE expression: the greater of the two, where NULL is less than every epoch.
abbrev pub raise_epoch : Option ℤ → Option ℤ → Option ℤ
raise_epoch stored none = stored
raise_epoch none (some epoch) = some epoch
raise_epoch (some stored) (some epoch) = if leb_ℤ epoch stored then some stored else some epoch

abbrev pub set_commitment : Commitment → Option ℤ → ℤ → ℤ → Db → Db
set_commitment c last_claim_epoch expected_state_version next_version db = record db {
  commitments =
      update (is_at c.commitment_id.value expected_state_version)
        (λ r. record r {
          goal_id = c.goal_id.value;
          parent_id = Option.map (λ i. i.value) c.parent_id;
          description = c.description;
          state_json = encode_commitment_state c.state;
          last_claim_epoch = raise_epoch r.last_claim_epoch last_claim_epoch;
          outstanding_action = Option.map (λ a. a.value) c.outstanding_action;
          state_version = next_version;
        })
        db.commitments;
}

abbrev pub read_current : Commitment → Db → Stored CommitmentRow
read_current c db =
    ok_or (find_commitment c.commitment_id.value db) (not_found "commitment" c.commitment_id.value)

-- All that is checked before the first write.
unfoldable pub check_change : Commitment → ℤ → WorkEvent → CommitmentRow → Db → Stored (Unit {0})
check_change c expected_state_version event row db =
    Base.◌>>=◌ (decode_commitment_state row.state_json) λ current_state.
      Base.◌>>◌
        (ensure_version "commitment" c.commitment_id.value expected_state_version row.state_version)
        (Base.◌>>◌ (check_structure c row db) (
          Base.◌>>◌ (check_move c event row current_state) (
            Base.◌>>=◌ (current_last_claim_epoch c.commitment_id db)
              λ high_water. validate_claim_persistence c current_state high_water db)))

-- A completed commitment completes the composites that wait for it; `none` says that the fuel of the
-- cascade ran out.
unfoldable pub cascade_if : Bool → Commitment → ℤ → Tx (Option (Unit {0}))
cascade_if true c created_at = complete_composite_barrier_cascade c.commitment_id created_at
cascade_if false c created_at = return (some tt)

-- The writes.
unfoldable pub write_change : Commitment → ℤ → WorkEvent → ℤ → BootGeneration → Tx (Option ℕ)
write_change c expected_state_version event created_at boot_generation = do
  next_version ← try (next_state_version expected_state_version)
  append_event c.goal_id event created_at
  event_id ← query last_event_id
  last ← try (transpose to_sql c.last_claim_epoch)
  execute (set_commitment c last expected_state_version next_version)
  sync_commitment_children c boot_generation
  done ← cascade_if (is_completed c.state) c created_at
  return (Option.map (λ _. event_id) done)

unfoldable pub persist_commitment_change : Commitment → ℤ → WorkEvent → ℤ → Tx (Option ℕ)
persist_commitment_change c expected_state_version event created_at = do
  try (validate_commitment_event event c.commitment_id "commitment change")
  boot_generation ← check current_boot_generation
  row ← check (read_current c)
  check (check_change c expected_state_version event row)
  write_change c expected_state_version event created_at boot_generation
