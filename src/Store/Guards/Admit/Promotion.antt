-- ===== src/Store/Guards/Admit/Promotion.antt =====
-- What `admit_guard` of sqlite.rs has checked when it admits a guard, and the rows that it leaves.
use resolve.Base.{◌≡◌, true, some, none, ok, arith, ◌<◌, ◌=?◌, Option-cases, inl, inr, subst}
use resolve.Base.Int.{pos}
use resolve.Base.Text.{Text}
use resolve.Core.Types.{MonotonicInstant}
use resolve.Core.Equality.{identifier_eq}
use resolve.Core.Numbers.{claim_epoch_try_from_raw, boot_try_from_raw}
use resolve.Core.Guards.{ScopeSet, scope_set_eq}
use resolve.Store.Sql.{select}
use resolve.Store.Sql.Select.{select-test}
use resolve.Store.Tables.{
  boot_value, Db, CommitmentRow, ClaimRow, json_value, stored_working, text_eq, int_eq,
  lock_state_eq,
}
use resolve.Store.Codec.{checked_i64, decode_commitment_state, state_into_domain}
use resolve.Store.GuardRows.{GuardRow}
use resolve.Store.Tx.{current_boot_generation, boot_of}
use resolve.Store.Guards.{query_guard}
use resolve.Store.Guards.Admit.{
  AdmitRequest, check_reservation, locks_match, is_issued, CommitmentContext, commitment_context,
  check_task, check_fence,
}

-- The guard, as it is found after the reactive expiry, is a live reservation of all its keys; its
-- commitment works, has no outstanding action, and still has the claim that the guard was issued
-- under, at the durable high-water epoch and in the current boot.
pub record Admissible (request : AdmitRequest) (guard : GuardRow) (row : CommitmentRow)
    (claim : ClaimRow) (db : Db) : Type 0 where
  pub deadline : MonotonicInstant
  pub is_guard : query_guard request.guard_id db ≡ ok guard
  pub not_bound : is_issued guard.state ≡ true
  pub expires : guard.reservation_expires_at ≡ some deadline
  pub unexpired : request.now < deadline
  pub locked : locks_match request.scope_keys.keys request.guard_id db ≡ true
  pub is_commitment :
      select (λ c. c.commitment_id =? guard.commitment_id.value) db.commitments ≡ some row
  pub is_claim : select (λ c. c.commitment_id =? guard.commitment_id.value) db.claims ≡ some claim
  pub works : json_value row.state_json ≡ some stored_working
  pub no_action : row.outstanding_action ≡ none
  pub same_epoch : claim.claim_epoch ≡ pos guard.claim_epoch
  pub high_water : row.last_claim_epoch ≡ some (pos guard.claim_epoch)
  pub claim_boot : claim.boot_generation ≡ pos guard.boot_generation
  pub current_boot : db.boot_generation ≡ boot_value (pos guard.boot_generation)

pub check_reservation-ok :
    (request : AdmitRequest) (keys : ScopeSet) (guard : GuardRow) (db : Db)
    → check_reservation request keys guard db ≡ ok tt
    → (deadline : MonotonicInstant) × (guard.reservation_expires_at ≡ some deadline)
      × (request.now < deadline)
      × (is_issued guard.state ≡ true)
      × (keys ≡ request.scope_keys)
      × (locks_match keys.keys request.guard_id db ≡ true)
unfolding check_reservation
check_reservation-ok request keys guard db e = elim (Option-cases guard.reservation_expires_at) [
  | inl n ↦ absurd (ground arith)
  | inr (d, s) ↦ (d, s, ground arith, ground arith, ground arith, ground arith)
]

pub check_task-ok :
    (row : CommitmentRow)
    → check_task row ≡ ok tt
    → (json_value row.state_json ≡ some stored_working) × (row.outstanding_action ≡ none)
unfolding check_task decode_commitment_state state_into_domain
check_task-ok row e = ground arith

pub check_fence-ok :
    (guard : GuardRow) (context : CommitmentContext) (db : Db)
    → check_fence guard context db ≡ ok tt
    → (claim : ClaimRow) × (context.claim ≡ some claim)
      × (claim.claim_epoch ≡ pos guard.claim_epoch)
      × (context.commitment.last_claim_epoch ≡ some (pos guard.claim_epoch))
      × (claim.boot_generation ≡ pos guard.boot_generation)
      × (db.boot_generation ≡ boot_value (pos guard.boot_generation))
unfolding check_fence claim_epoch_try_from_raw current_boot_generation boot_of boot_try_from_raw
    checked_i64
check_fence-ok guard context db e = elim (Option-cases context.claim) [
  | inl n ↦ absurd (ground arith)
  | inr (c, s) ↦ (c, s, ground arith, ground arith, ground arith, ground arith)
]

pub commitment_context-select :
    (id : Text) (context : CommitmentContext) (db : Db)
    → commitment_context id db ≡ some context
    → (select (λ c. c.commitment_id =? id) db.commitments ≡ some context.commitment)
      × (select (λ c. c.commitment_id =? id) db.claims ≡ context.claim)
unfolding commitment_context
commitment_context-select id context db e =
    elim (Option-cases (select (λ c. c.commitment_id =? id) db.commitments)) [
      | inl n ↦ absurd (ground arith)
      | inr (r, s) ↦
          let same = select-test (λ c. c.commitment_id =? id) r db.commitments s in
          let here : r.commitment_id ≡ id = ground arith in
          let found : select (λ c. c.commitment_id =? r.commitment_id) db.claims ≡ context.claim =
            ground arith in
          (
            ground arith,
            subst (λ i. select (λ c. c.commitment_id =? i) db.claims ≡ context.claim) here found,
          )
    ]
