-- ===== src/Store/Protocol.antt =====
-- The guard transactions of sqlite.rs as the calls of one protocol, and the runs of such calls.
pub mod Keeps
pub mod Guards
pub mod Recovery
pub mod Cascade
pub mod Runs
pub mod Log
pub mod Locks
use resolve.Base.{List, [], ◌∷◌}
use resolve.Base.Int.{ℤ}
use resolve.Core.Types.{CommitmentId, MonotonicInstant, MonotonicDuration}
use resolve.Store.Tables.{Db}
use resolve.Store.Tx.{Tx, transact}
use resolve.Store.Guards.Issue.{GuardIssueRequest, issue_guard}
use resolve.Store.Guards.Admit.{AdmitRequest}
use resolve.Store.Guards.Admit.Apply.{admit_guard}
use resolve.Store.Guards.Invalidate.{Invalidation, invalidate_guard}
use resolve.Store.Claims.{Heartbeat, record_heartbeat}
use resolve.Store.Recovery.Expiry.{process_expired_claims}
use resolve.Store.Recovery.Release.{recover_without_action}
use resolve.Store.Outcomes.{Report}
use resolve.Store.Outcomes.Record.{record_tethers_outcome}

-- A call of the store, with its arguments.
pub data Call : Type 0 where
  issuing : GuardIssueRequest → Call
  admitting : AdmitRequest → Call
  invalidating : Invalidation → Call
  beating : Heartbeat → Call
  expiring : (now : MonotonicInstant) (claim_lease_duration : MonotonicDuration) → Call
  recovering : CommitmentId → (created_at : ℤ) → Call
  reporting : Report → Call

-- The database after a call, which a refused call leaves as it was.
unfoldable pub perform : Call → Db → Db
perform (issuing request) db = (transact (issue_guard request) db).1
perform (admitting request) db = (transact (admit_guard request) db).1
perform (invalidating request) db = (transact (invalidate_guard request) db).1
perform (beating beat) db = (transact (record_heartbeat beat) db).1
perform (expiring now lease) db = (transact (process_expired_claims now lease) db).1
perform (recovering commitment_id created_at) db =
    (transact (recover_without_action commitment_id created_at) db).1
perform (reporting report) db = (transact (record_tethers_outcome report) db).1

unfoldable pub run : List Call → Db → Db
run [] db = db
run (call ∷ calls) db = run calls (perform call db)
