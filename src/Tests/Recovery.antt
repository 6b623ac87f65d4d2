-- ===== src/Tests/Recovery.antt =====
-- The expiry of one of two claims.
use resolve.Base.{◌≡◌, refl, [], ◌∷◌, ok, ℕ_discrete}
use resolve.Base.Int.{pos}
use resolve.Base.Text.{text}
use resolve.Base.Order.{text_lt}
use resolve.Core.Events.{lease_expired, commitment_recovery_pending}
use resolve.Core.Ids.{try_new}
use resolve.Core.Numbers.{
  claim_epoch_try_from_raw, boot_try_from_raw, instant_try_from_raw, deadline_from,
}
use resolve.Store.Sql.{select, select_all, update, delete, count, order_by_text}
use resolve.Store.Tables.{
  Db, CommitmentRow, ClaimRow, json, stored_recovery_pending, Text-discrete, Int-discrete,
  GuardStateColumn-discrete,
}
use resolve.Store.Codec.{
  checked_i64, parse_id, decode_commitment_state, state_into_domain, next_state_version,
}
use resolve.Store.Tx.{append_event, current_boot_generation, boot_of}
use resolve.Store.Recovery.Expiry.{
  claimed_rows, check_action, check_current, read_lease, check_claim, invalidate_each, expire_claim,
  expire_if, expire_claims, process_expired_claims,
}
use resolve.Store.Recovery.Expired.{is_expired, has_claim, is_lost, process_expired_claims_lem}
use resolve.Tests.Samples.{id, alice}
use resolve.Tests.Store.{db, commitment_row', claim_row'}

abbrev later_row : CommitmentRow
later_row = record commitment_row' { commitment_id = text "commitment-2" }

abbrev live_claim : ClaimRow
live_claim = record claim_row' { commitment_id = text "commitment-2"; last_heartbeat = pos 30 }

abbrev two_claims_db : Db
two_claims_db = record db {
  commitments = commitment_row' ∷ later_row ∷ [];
  claims = claim_row' ∷ live_claim ∷ [];
}

abbrev one_claim_db : Db
one_claim_db = record two_claims_db {
  commitments =
      record commitment_row' { state_json = json stored_recovery_pending; state_version = pos 3 }
      ∷ later_row
      ∷ [];
  claims = live_claim ∷ [];
  work_events =
      record {
        goal_id = text "goal-1";
        event = lease_expired (id "commitment-1") alice 1;
        created_at = pos 40;
      }
      ∷ record {
        goal_id = text "goal-1";
        event = commitment_recovery_pending (id "commitment-1");
        created_at = pos 40;
      }
      ∷ [];
}

-- At 40 the lease of the first claim has run out, that of the second has not.
expired_run : process_expired_claims 40 30 two_claims_db ≡ ok (1, one_claim_db)
unfolding process_expired_claims expire_claims expire_if expire_claim invalidate_each check_claim
    read_lease check_current check_action claimed_rows checked_i64 parse_id try_new
    decode_commitment_state state_into_domain next_state_version append_event
    current_boot_generation boot_of boot_try_from_raw claim_epoch_try_from_raw instant_try_from_raw
    deadline_from select select_all update delete count order_by_text text_lt Text-discrete
    Int-discrete GuardStateColumn-discrete ℕ_discrete
expired_run = refl

process_expired_claims_lem_example :
    (one_claim_db.claims ≡ delete (is_lost 40 30 two_claims_db) two_claims_db.claims)
    × (1 ≡ count (has_claim (is_expired 40 30) two_claims_db.claims) two_claims_db.commitments)
process_expired_claims_lem_example =
    process_expired_claims_lem 40 30 1 two_claims_db one_claim_db expired_run
