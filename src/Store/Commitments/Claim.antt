-- ===== src/Store/Commitments/Claim.antt =====
-- `validate_claim_persistence` of sqlite.rs: the claim that a commitment is stored with.
use resolve.Base.{
  ℕ, ◌+◌, ◌≡◌, Bool, true, false, List, Option, some, none, Result, ok, err, ok_or, ensure, reject,
  ◌=?◌, ◌≠?◌, ◌&&◌, ◌||◌, not, is_some, ◌==◌, ltb, if◌then◌else◌, String, is_value, bool_eq, DecEq,
  ℕ_discrete,
}
use resolve.Base
use resolve.Base.Int.{i64_bound}
use resolve.Core.Types.{
  CommitmentId, ClaimEpoch, ClaimLease, CommitmentState, ready, claimed, requires_active_claim,
  worker_kind,
}
use resolve.Core.Equality.{identifier_eq, nat_eq, prerequisite_eq}
use resolve.Core.Error.{stale_epoch, epoch_exhausted}
use resolve.Core.Numbers.{initial, checked_add, claim_epoch_try_from_raw, instant_try_from_raw}
use resolve.Core.Commitment.{Commitment}
use resolve.Store.Error.{
  Stored, StoreError, domain, sqlite, query_returned_no_rows, claim_mismatch, invalid_mutation,
  invalid_persisted_data, message,
}
use resolve.Store.Sql.{select}
use resolve.Store.Tables.{Db, ClaimRow, text_eq, int_eq}
use resolve.Store.Codec.{from_domain, parse_id, transpose}
use resolve.Store.Recovery.Cascade.{find_commitment}

abbrev pub refused : String → StoreError
refused reason = invalid_mutation (message reason)

-- The claim row as a lease.
unfoldable pub decode_claim : ClaimRow → Stored ClaimLease
decode_claim row = Base.◌>>=◌ (parse_id worker_kind row.worker_id "worker") λ worker_id.
    Base.◌>>=◌ (from_domain (claim_epoch_try_from_raw row.claim_epoch)) λ epoch.
      Base.◌>>=◌ (from_domain (instant_try_from_raw row.last_heartbeat)) λ heartbeat.
        ok (record { worker_id = worker_id; epoch = epoch; last_heartbeat = heartbeat })

unfoldable pub current_claim : CommitmentId → Db → Stored (Option ClaimLease)
current_claim commitment_id db =
    transpose decode_claim (select (λ c. c.commitment_id =? commitment_id.value) db.claims)

unfoldable pub current_last_claim_epoch : CommitmentId → Db → Stored (Option ClaimEpoch)
current_last_claim_epoch commitment_id db =
    Base.◌>>=◌ (ok_or (find_commitment commitment_id.value db) (sqlite query_returned_no_rows))
      λ row. transpose (λ e. from_domain (claim_epoch_try_from_raw e)) row.last_claim_epoch

-- The epoch that a new claim must have.
unfoldable pub expected_epoch : Option ClaimEpoch → Stored ClaimEpoch
expected_epoch none = ok initial
expected_epoch (some epoch) =
    Base.◌>>=◌ (ok_or (checked_add epoch 1) (domain epoch_exhausted)) λ next.
      Base.◌>>◌ (ensure (ltb next i64_bound) (refused "claim epoch does not fit in SQLite INTEGER"))
        (ok next)

abbrev same_epoch : Option ClaimEpoch → Option ClaimEpoch → Bool
same_epoch none none = true
same_epoch none (some b) = false
same_epoch (some a) none = false
same_epoch (some a) (some b) = a == b

abbrev is_ready : CommitmentState → Bool
is_ready ready = true
is_ready _ = false

abbrev is_claimed : CommitmentState → Bool
is_claimed claimed = true
is_claimed _ = false

abbrev same_claim : ClaimLease → ClaimLease → Bool
same_claim a b =
    a.worker_id =? b.worker_id && a.epoch == b.epoch && a.last_heartbeat == b.last_heartbeat

-- The stored claim against that of the candidate.
unfoldable pub compare_claims :
    Commitment
    → CommitmentState
    → Option ClaimEpoch
    → Option ClaimLease
    → Option ClaimLease
    → Stored (Unit {0})
compare_claims c current_state high_water (some stored) (some candidate) =
    Base.◌>>◌
      (ensure (same_claim stored candidate) (
        claim_mismatch c.commitment_id.value
          (message "generic persistence cannot rewrite the current claim")))
      (ensure (is_value high_water stored.epoch && same_epoch c.last_claim_epoch high_water) (
        invalid_persisted_data
          (message "active claim epoch does not equal the durable high-water mark")))
compare_claims c current_state high_water (some stored) none =
    Base.◌>>◌
      (reject (requires_active_claim c.state)
        (refused "claim-bearing state cannot persist without its current claim"))
      (ensure (same_epoch c.last_claim_epoch high_water)
        (refused "generic persistence cannot rewrite the claim epoch high-water mark"))
compare_claims c current_state high_water none (some candidate) =
    Base.◌>>◌
      (ensure (is_ready current_state && is_claimed c.state) (
        claim_mismatch c.commitment_id.value
          (message "a new claim may only claim a READY commitment")))
      (Base.◌>>=◌ (expected_epoch high_water) λ expected.
        ensure (candidate.epoch == expected && is_value c.last_claim_epoch expected)
          (domain (stale_epoch expected candidate.epoch)))
compare_claims c current_state high_water none none =
    ensure (same_epoch c.last_claim_epoch high_water)
      (refused "generic persistence cannot rewrite the claim epoch high-water mark")

unfoldable pub validate_claim_persistence :
    Commitment → CommitmentState → Option ClaimEpoch → Db → Stored (Unit {0})
validate_claim_persistence c current_state high_water db =
    Base.◌>>=◌ (current_claim c.commitment_id db) λ stored.
      Base.◌>>◌
        (ensure (bool_eq (requires_active_claim c.state) (is_some c.claim))
          (refused "commitment state and candidate claim disagree"))
        (compare_claims c current_state high_water stored c.claim)
