-- ===== src/Store/Commitments/Load.antt =====
-- `load_commitment_record` and `load_commitment` of sqlite.rs.
use resolve.Base.{
  ℕ, ◌≡◌, Bool, true, false, List, Option, some, none, Result, ok, err, ok_or, ensure, reject, ◌=?◌,
  ◌&&◌, not, is_some, is_value, bool_eq, String,
}
use resolve.Base
use resolve.Base.Int.{ℤ}
use resolve.Base.Text.{Text}
use resolve.Core.Types.{
  CommitmentId, GoalId, WorkerId, TethersActionRef, AcceptanceRef, Prerequisite, ClaimEpoch,
  MonotonicInstant, CommitmentState, working, waiting, recovery_pending, is_uncertain_action,
  requires_active_claim, commitment_kind, goal_kind, worker_kind, action_kind,
}
use resolve.Core.Equality.{identifier_eq, nat_eq}
use resolve.Core.Numbers.{claim_epoch_try_from_raw}
use resolve.Core.Commitment.{Commitment, restore}
use resolve.Store.Error.{Stored, StoreError, not_found, invalid_persisted_data, message}
use resolve.Store.Sql.{select}
use resolve.Store.Tables.{Db, CommitmentRow, ClaimRow, text_eq}
use resolve.Store.Codec.{
  from_domain, parse_id, checked_i64, transpose, positive_u64, nonnegative_u64,
  decode_commitment_state,
}
use resolve.Store.Recovery.Cascade.{find_commitment}
use resolve.Store.Commitments.{query_prerequisites, query_acceptance_refs}

pub record ClaimRecord : Type 0 where
  pub worker_id : WorkerId
  pub epoch : ℕ
  pub last_heartbeat : ℕ

pub record CommitmentRecord : Type 0 where
  pub commitment_id : CommitmentId
  pub goal_id : GoalId
  pub parent_id : Option CommitmentId
  pub description : Text
  pub state : CommitmentState
  pub prerequisites : List Prerequisite
  pub acceptance_refs : List AcceptanceRef
  pub claim : Option ClaimRecord
  pub last_claim_epoch : Option ℕ
  pub outstanding_action : Option TethersActionRef
  pub replacement_terminal_id : Option CommitmentId
  pub state_version : ℤ

abbrev corrupt : String → StoreError
corrupt reason = invalid_persisted_data (message reason)

unfoldable pub claim_record : ClaimRow → Stored ClaimRecord
claim_record row = Base.◌>>=◌ (parse_id worker_kind row.worker_id "worker") λ worker_id.
    Base.◌>>=◌ (positive_u64 row.claim_epoch "claim epoch") λ epoch.
      Base.◌>>=◌ (nonnegative_u64 row.last_heartbeat "claim heartbeat") λ heartbeat.
        ok (record { worker_id = worker_id; epoch = epoch; last_heartbeat = heartbeat })

abbrev claim_is_at : Option ClaimRecord → Option ℕ → Bool
claim_is_at none last = true
claim_is_at (some claim) last = is_value last claim.epoch

abbrev may_act : CommitmentState → Bool
may_act working = true
may_act recovery_pending = true
may_act (waiting reason) = is_uncertain_action reason
may_act _ = false

-- The state, the claim and the action of a row agree.
unfoldable pub check_row :
    CommitmentRow → CommitmentState → Option ClaimRecord → Option ℕ → Stored (Unit {0})
check_row row state claim last =
    Base.◌>>◌
      (ensure (claim_is_at claim last)
        (corrupt "active claim epoch does not equal the durable high-water mark"))
      (Base.◌>>◌
        (ensure (bool_eq (requires_active_claim state) (is_some claim))
          (corrupt "commitment state and active claim disagree"))
        (reject (is_some row.outstanding_action && not (may_act state))
          (corrupt "outstanding action disagrees with commitment state")))

-- The replacement terminal is a direct child in the same goal.
unfoldable pub check_terminal : CommitmentId → GoalId → Option CommitmentId → Db → Stored (Unit {0})
check_terminal commitment_id goal_id none db = ok tt
check_terminal commitment_id goal_id (some terminal) db =
    Base.◌>>=◌
      (ok_or (find_commitment terminal.value db)
        (corrupt "replacement terminal commitment is missing"))
      λ child.
        ensure (is_value child.parent_id commitment_id.value && child.goal_id =? goal_id.value)
          (corrupt "replacement terminal is not a direct same-goal child")

-- The parsed columns of a row, once its state, claim and epoch are read.
unfoldable pub assemble :
    CommitmentRow → CommitmentState → Option ClaimRecord → Option ℕ → Db → Stored CommitmentRecord
assemble row state claim last db =
    Base.◌>>=◌ (parse_id commitment_kind row.commitment_id "commitment") λ commitment_id.
      Base.◌>>=◌ (parse_id goal_kind row.goal_id "goal") λ goal_id.
        Base.◌>>=◌ (transpose (λ v. parse_id commitment_kind v "parent commitment") row.parent_id)
          λ parent_id.
            Base.◌>>=◌
              (transpose (λ v. parse_id commitment_kind v "replacement terminal")
                row.replacement_terminal_id)
              λ terminal. Base.◌>>◌ (check_terminal commitment_id goal_id terminal db) (
                Base.◌>>=◌ (query_prerequisites commitment_id db) λ prerequisites.
                  Base.◌>>=◌ (query_acceptance_refs commitment_id db) λ acceptance_refs.
                    Base.◌>>=◌
                      (transpose (λ v. parse_id action_kind v "Tethers action")
                        row.outstanding_action)
                      λ action. ok (record {
                        commitment_id = commitment_id;
                        goal_id = goal_id;
                        parent_id = parent_id;
                        description = row.description;
                        state = state;
                        prerequisites = prerequisites;
                        acceptance_refs = acceptance_refs;
                        claim = claim;
                        last_claim_epoch = last;
                        outstanding_action = action;
                        replacement_terminal_id = terminal;
                        state_version = row.state_version;
                      }))

unfoldable pub load_commitment_record : CommitmentId → Db → Stored CommitmentRecord
load_commitment_record commitment_id db =
    Base.◌>>=◌
      (ok_or (find_commitment commitment_id.value db) (not_found "commitment" commitment_id.value))
      λ row.
        Base.◌>>=◌
          (transpose claim_record (select (λ c. c.commitment_id =? commitment_id.value) db.claims))
          λ claim. Base.◌>>=◌ (decode_commitment_state row.state_json) λ state.
            Base.◌>>=◌ (transpose (λ v. positive_u64 v "last claim epoch") row.last_claim_epoch)
              λ last. Base.◌>>◌ (check_row row state claim last) (assemble row state claim last db)

abbrev pub lease_of : ClaimRecord → Stored (WorkerId × ClaimEpoch × MonotonicInstant)
lease_of claim = Base.◌>>=◌ (checked_i64 claim.epoch "claim epoch") λ ticks.
    Base.◌>>=◌ (from_domain (claim_epoch_try_from_raw ticks))
      λ epoch. ok (claim.worker_id, epoch, claim.last_heartbeat)

abbrev pub epoch_of : ℕ → Stored ClaimEpoch
epoch_of epoch =
    Base.◌>>=◌ (checked_i64 epoch "last claim epoch")
      λ ticks. from_domain (claim_epoch_try_from_raw ticks)

-- Rehydrates a commitment through the validated restoration.
unfoldable pub load_commitment : CommitmentId → Db → Stored Commitment
load_commitment commitment_id db = Base.◌>>=◌ (load_commitment_record commitment_id db) λ r.
    Base.◌>>=◌ (transpose lease_of r.claim) λ claim.
      Base.◌>>=◌ (transpose epoch_of r.last_claim_epoch) λ last. from_domain (
        restore r.commitment_id r.goal_id r.parent_id r.description r.state r.prerequisites
          r.acceptance_refs claim r.outstanding_action last)
