-- ===== src/Store/Protocol/Recovery.antt =====
-- Lease expiry and the outcomes of actions keep each relation that admits their statements.
use resolve.Base.{◌+◌, ◌≡◌, refl, Bool, true, false, List, [], ◌∷◌}
use resolve.Base.Int.{ℤ}
use resolve.Core.Events.{guard_invalidated}
use resolve.Store.Guards.{release_reserved}
use resolve.Store.Guards.Invalidate.{set_invalidated}
use resolve.Core.Types.{
  guard_kind, GoalId, GuardId, ClaimEpoch, MonotonicInstant, MonotonicDuration, CommitmentState,
  is_uncertain,
}
use resolve.Core.Guards.{ScopeSet}
use resolve.Store.Codec.{next_state_version, parse_id}
use resolve.Store.GuardRows.{GuardRow}
use resolve.Store.Tables.{Db, CommitmentRow, ClaimRow, RawGuardColumns}
use resolve.Store.Recovery.Expiry.{
  invalidate_each, expire_claim, expire_if, expire_claims, process_expired_claims, check_claim,
}
use resolve.Store.Outcomes.{Report, release_held}
use resolve.Store.Outcomes.Record.{
  record_uncertain, report_recovery, record_safe, record_by, record_new, record_unless,
}
use resolve.Store.Protocol.Keeps.{
  Keeps, Allows, Unlocks, bind-Keeps, try-then-Keeps, return-Keeps, append-Keeps, execute-Keeps,
  transactions,
}

module _ {R : Db → Db → Type 0} ⦃allows : Allows R⦄ (unlocks : Unlocks R) where
  invalidate_each-Keeps :
      (goal_id : GoalId) (now : ℤ) (gs : List RawGuardColumns)
      → Keeps R (invalidate_each goal_id now gs)
  unfolding invalidate_each
  invalidate_each-Keeps goal_id now [] = search (transactions)
  invalidate_each-Keeps goal_id now (g ∷ gs) =
      bind-Keeps _ _ (execute-Keeps (release_reserved g.guard_id) (λ db. unlocks g.guard_id db))
        (λ _. try-then-Keeps (next_state_version g.state_version) _ (λ next_version.
          bind-Keeps _ _
            (execute-Keeps (set_invalidated g.guard_id g.state_version next_version)
              (λ db. allows.guard _ db))
            (λ _. try-then-Keeps (parse_id guard_kind g.guard_id "guard") _ (λ guard_id.
              bind-Keeps _ _ (append-Keeps goal_id (guard_invalidated guard_id) now)
                (λ _. invalidate_each-Keeps goal_id now gs)))))

  expire_claim-Keeps :
      (now : ℤ) (row : CommitmentRow) (claim : ClaimRow) (epoch : ClaimEpoch)
      → Keeps R (expire_claim now row claim epoch)
  unfolding expire_claim
  expire_claim-Keeps now row claim epoch =
      search (transactions, allows.change, allows.reclaim, invalidate_each-Keeps) depth 30

  expire_if-Keeps :
      (due : Bool) (now : ℤ) (row : CommitmentRow) (claim : ClaimRow) (epoch : ClaimEpoch)
      → Keeps R (expire_if due now row claim epoch)
  unfolding expire_if
  expire_if-Keeps false now row claim epoch = search (transactions)
  expire_if-Keeps true now row claim epoch = search (transactions, expire_claim-Keeps)

  expire_claims-Keeps :
      (now : MonotonicInstant) (lease : MonotonicDuration) (now_ticks boot : ℤ)
      (rows : List (CommitmentRow × ClaimRow))
      → Keeps R (expire_claims now lease now_ticks boot rows)
  unfolding expire_claims
  expire_claims-Keeps now lease now_ticks boot [] = search (transactions)
  expire_claims-Keeps now lease now_ticks boot ((row, claim) ∷ rest) =
      try-then-Keeps (check_claim now lease boot row claim) _ (λ p.
        bind-Keeps _ _ (expire_if-Keeps p.1 now_ticks row claim p.0) (λ n.
          bind-Keeps _ _ (expire_claims-Keeps now lease now_ticks boot rest)
            (λ m. return-Keeps (n + m))))

  pub process_expired_claims-Keeps :
      (now : MonotonicInstant) (lease : MonotonicDuration)
      → Keeps R (process_expired_claims now lease)
  unfolding process_expired_claims
  process_expired_claims-Keeps now lease = search (transactions, expire_claims-Keeps) depth 20

module _ {R : Db → Db → Type 0} ⦃allows : Allows R⦄ where
  record_uncertain-Keeps :
      (report : Report) (guard : GuardRow) (row : CommitmentRow) (goal_id : GoalId)
      → Keeps R (record_uncertain report guard row goal_id)
  unfolding record_uncertain
  record_uncertain-Keeps report guard row goal_id =
      search (transactions, allows.change, allows.guard, allows.reclaim) depth 30

  report_recovery-Keeps :
      (recovered : Bool) (report : Report) (guard : GuardRow) (goal_id : GoalId)
      → Keeps R (report_recovery recovered report guard goal_id)
  unfolding report_recovery
  report_recovery-Keeps false report guard goal_id = search (transactions)
  report_recovery-Keeps true report guard goal_id = search (transactions)

  record_safe-Keeps :
      (report : Report) (guard : GuardRow) (row : CommitmentRow) (state : CommitmentState)
      (goal_id : GoalId) (keys : ScopeSet)
      → ((db : Db) → R db (release_held guard.guard_id.value db))
      → Keeps R (record_safe report guard row state goal_id keys)
  unfolding record_safe
  record_safe-Keeps report guard row state goal_id keys release =
      search (transactions, allows.change, allows.guard, report_recovery-Keeps, release) depth 30

  record_by-Keeps :
      (is : Bool) (report : Report) (guard : GuardRow) (row : CommitmentRow)
      (state : CommitmentState) (goal_id : GoalId) (keys : ScopeSet)
      → (is ≡ false → (db : Db) → R db (release_held guard.guard_id.value db))
      → Keeps R (record_by is report guard row state goal_id keys)
  unfolding record_by
  record_by-Keeps true report guard row state goal_id keys release = search (record_uncertain-Keeps)
  record_by-Keeps false report guard row state goal_id keys release =
      record_safe-Keeps report guard row state goal_id keys (release refl)

  record_new-Keeps :
      (report : Report) (guard_id : GuardId) (guard : GuardRow)
      → (is_uncertain report.outcome ≡ false
          → (db : Db) → R db (release_held guard.guard_id.value db))
      → Keeps R (record_new report guard_id guard)
  unfolding record_new
  record_new-Keeps report guard_id guard release =
      search (transactions, record_by-Keeps, release) depth 30

  -- An outcome that is not uncertain must be admitted to release the locks of its guard.
  pub record_unless-Keeps :
      (known : Bool) (report : Report) (guard_id : GuardId) (guard : GuardRow)
      → (is_uncertain report.outcome ≡ false
          → (db : Db) → R db (release_held guard.guard_id.value db))
      → Keeps R (record_unless known report guard_id guard)
  unfolding record_unless
  record_unless-Keeps true report guard_id guard release = search (transactions)
  record_unless-Keeps false report guard_id guard release =
      record_new-Keeps report guard_id guard release
