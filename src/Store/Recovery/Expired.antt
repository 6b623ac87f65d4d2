-- ===== src/Store/Recovery/Expired.antt =====
-- The claims that `process_expired_claims` of sqlite.rs leaves, and the number that it answers.
use resolve.Base.{
  Option-cases, inl, inr, some, none, ◌=?◌, ℕ, ◌+◌, ◌≡◌, refl, sym, ap, ◌∙◌, Bool, true, false,
  List, [], ◌∷◌, ok, arith, ◌&&◌, ◌||◌, leb, and_then-ok, if◌then◌else◌,
}
use resolve.Base.Int.{ℤ, pos, negsuc}
use resolve.Core.Types.{
  GoalId, ClaimEpoch, MonotonicInstant, MonotonicDuration, CommitmentState, recovery_pending,
  goal_kind, commitment_kind, worker_kind, guard_kind,
}
use resolve.Core.Numbers.{claim_epoch_try_from_raw, instant_try_from_raw, deadline_from}
use resolve.Store.Error.{invalid_mutation, message}
use resolve.Store.Sql.{select, exists, delete, count, order_by_text}
use resolve.Store.Sql.Ordered.{exists-order, count-order}
use resolve.Store.Tables.{Db, CommitmentRow, ClaimRow, RawGuardColumns, text_eq, int_eq}
use resolve.Store.Codec.{parse_id, next_state_version, checked_i64}
use resolve.Store.Tx.{append_event, bind-ok, try-ok, check-ok, return, current_boot_generation}
use resolve.Store.Recovery.Expiry.{
  claimed_rows, claimed_rows_of, check_claim, check_action, check_current, read_lease,
  expire_claims, expire_if, expire_claim, invalidate_each, is_claim_of, process_expired_claims,
  change_state,
}

-- The lease of the claim has run out: its duration after the last heartbeat is not later than now.
unfoldable pub is_expired : MonotonicInstant → MonotonicDuration → ClaimRow → Bool
is_expired now duration claim = elim claim.last_heartbeat [
  | pos beat ↦ leb (beat + duration) now
  | negsuc n ↦ false
]

-- The commitment has a claim that passes the test.
abbrev pub has_claim : (ClaimRow → Bool) → List ClaimRow → CommitmentRow → Bool
has_claim test claims row = elim (select (λ c. c.commitment_id =? row.commitment_id) claims) [
  | none ↦ false
  | some claim ↦ test claim
]

-- It is the claim, by commitment and epoch, of a commitment whose lease has run out.
abbrev pub is_lost : MonotonicInstant → MonotonicDuration → Db → ClaimRow → Bool
is_lost now duration db c =
    exists
      (λ row.
        row.commitment_id =? c.commitment_id
        && has_claim (λ claim. claim.claim_epoch =? c.claim_epoch && is_expired now duration claim)
            db.claims row)
      db.commitments

-- The same of the rows that are read for the loop.
unfoldable is_dropped :
    MonotonicInstant → MonotonicDuration → List (CommitmentRow × ClaimRow) → ClaimRow → Bool
is_dropped now duration [] c = false
is_dropped now duration ((row, claim) ∷ rows) c =
    (is_expired now duration claim && is_claim_of row.commitment_id claim.claim_epoch c)
    || is_dropped now duration rows c

delete-delete :
    (p q : ClaimRow → Bool) (rs : List ClaimRow)
    → delete q (delete p rs) ≡ delete (λ r. p r || q r) rs
unfolding delete
delete-delete p q [] = refl
delete-delete p q (r ∷ rs) = let ih = delete-delete p q rs in ground arith

delete-nothing :
    (p : ClaimRow → Bool) (rs : List ClaimRow) → ((r : ClaimRow) → p r ≡ false) → delete p rs ≡ rs
unfolding delete
delete-nothing p [] h = refl
delete-nothing p (r ∷ rs) h = let ih = delete-nothing p rs h in let here = h r in ground arith

check_action-ok :
    (row : CommitmentRow) (state : CommitmentState) (epoch : ClaimEpoch) (due : Bool)
    (result : ClaimEpoch × Bool)
    → check_action row state epoch due ≡ ok result
    → result ≡ (epoch, due)
unfolding check_action
check_action-ok row state epoch true result e = ground arith
check_action-ok row state epoch false result e = ground arith

read_lease-ok :
    (duration : MonotonicDuration) (row : CommitmentRow) (claim : ClaimRow) (epoch : ClaimEpoch)
    (deadline : MonotonicInstant)
    → read_lease duration row claim ≡ ok (epoch, deadline)
    → (claim.claim_epoch ≡ pos epoch)
      × ((now : MonotonicInstant) → leb deadline now ≡ is_expired now duration claim)
unfolding read_lease claim_epoch_try_from_raw instant_try_from_raw deadline_from is_expired
read_lease-ok duration row claim epoch deadline e = (ground arith, λ now. ground arith)

check_claim-ok :
    (now : MonotonicInstant) (duration : MonotonicDuration) (boot : ℤ) (row : CommitmentRow)
    (claim : ClaimRow) (epoch : ClaimEpoch) (due : Bool)
    → check_claim now duration boot row claim ≡ ok (epoch, due)
    → (claim.claim_epoch ≡ pos epoch) × (due ≡ is_expired now duration claim)
unfolding check_claim
check_claim-ok now duration boot row claim epoch due e =
    let (state, _, r1) = and_then-ok (check_current boot row claim) _ (epoch, due) e in
    let ((number, deadline), read, r2) =
      and_then-ok (read_lease duration row claim) _ (epoch, due) r1 in
    let same = check_action-ok row state number (leb deadline now) (epoch, due) r2 in
    let lease = read_lease-ok duration row claim number deadline read in
    let (is_epoch, expired) = lease in let here = expired now in (ground arith, ground arith)

invalidate_each-claims :
    (goal : GoalId) (ticks : ℤ) (gs : List RawGuardColumns) (db db' : Db)
    → invalidate_each goal ticks gs db ≡ ok (tt, db')
    → db'.claims ≡ db.claims
unfolding invalidate_each append_event
invalidate_each-claims goal ticks [] db db' e = ground arith
invalidate_each-claims goal ticks (g ∷ gs) db db' e =
    let (v, _, r1) = try-ok (next_state_version g.state_version) _ tt _ db' e in
    let (id, _, r2) = try-ok (parse_id guard_kind g.guard_id "guard") _ tt _ db' r1 in
    invalidate_each-claims goal ticks gs _ db' r2

expire_claim-claims :
    (ticks : ℤ) (row : CommitmentRow) (claim : ClaimRow) (epoch : ClaimEpoch) (db db' : Db)
    → expire_claim ticks row claim epoch db ≡ ok (tt, db')
    → db'.claims ≡ delete (is_claim_of row.commitment_id (pos epoch)) db.claims
unfolding expire_claim append_event
expire_claim-claims ticks row claim epoch db db' e =
    let (v, _, r1) = try-ok (next_state_version row.state_version) _ tt db db' e in
    let (_, db₁, w, r2) =
      bind-ok
        (change_state row.commitment_id row.state_version recovery_pending v
          (invalid_mutation (message "commitment changed while expiring claim")))
        _ tt db db' r1 in
    let same : db₁.claims ≡ db.claims = ground arith in
    let (c, _, r3) =
      try-ok (parse_id commitment_kind row.commitment_id "commitment") _ tt _ db' r2 in
    let (goal, _, r4) = try-ok (parse_id goal_kind row.goal_id "goal") _ tt _ db' r3 in
    let (worker, _, r5) = try-ok (parse_id worker_kind claim.worker_id "worker") _ tt _ db' r4 in
    let kept = invalidate_each-claims goal ticks _ _ db' r5 in
    kept ∙ ap (delete (is_claim_of row.commitment_id (pos epoch))) same

expire_if-claims :
    (due : Bool) (ticks : ℤ) (row : CommitmentRow) (claim : ClaimRow) (epoch : ClaimEpoch) (n : ℕ)
    (db db' : Db)
    → expire_if due ticks row claim epoch db ≡ ok (n, db')
    → (db'.claims ≡ delete (λ c. due && is_claim_of row.commitment_id (pos epoch) c) db.claims)
      × (n ≡ (if due then 1 else 0))
unfolding expire_if
expire_if-claims false ticks row claim epoch n db db' e =
    let same = delete-nothing (λ c. false) db.claims (λ r. refl) in (ground arith, ground arith)
expire_if-claims true ticks row claim epoch n db db' e =
    let (_, db₁, gone, r1) =
      bind-ok (expire_claim ticks row claim epoch) (λ _. return 1) n db db' e in
    let here = expire_claim-claims ticks row claim epoch db db₁ gone in
    let same : db' ≡ db₁ = ground arith in (ap (λ d. d.claims) same ∙ here, ground arith)

expire_claims-claims :
    (now : MonotonicInstant) (duration : MonotonicDuration) (ticks boot : ℤ)
    (rows : List (CommitmentRow × ClaimRow)) (n : ℕ) (db db' : Db)
    → expire_claims now duration ticks boot rows db ≡ ok (n, db')
    → (db'.claims ≡ delete (is_dropped now duration rows) db.claims)
      × (n ≡ count (λ p. is_expired now duration p.1) rows)
unfolding expire_claims is_dropped count
expire_claims-claims now duration ticks boot [] n db db' e =
    let same = delete-nothing (λ c. false) db.claims (λ r. refl) in (ground arith, ground arith)
expire_claims-claims now duration ticks boot ((row, claim) ∷ rows) n db db' e =
    let ((epoch, due), checked, r1) =
      try-ok (check_claim now duration boot row claim) _ n db db' e in
    let (expired, db₁, first, r2) = bind-ok (expire_if due ticks row claim epoch) _ n db db' r1 in
    let (later, db₂, rest, r3) =
      bind-ok (expire_claims now duration ticks boot rows) (λ later. return (expired + later)) n db₁
        db' r2 in
    let (is_epoch, is_due) = check_claim-ok now duration boot row claim epoch due checked in
    let (here, one) = expire_if-claims due ticks row claim epoch expired db db₁ first in
    let (there, others) = expire_claims-claims now duration ticks boot rows later db₁ db₂ rest in
    let same : db' ≡ db₂ = ground arith in
    let both =
      delete-delete (λ c. due && is_claim_of row.commitment_id (pos epoch) c)
        (is_dropped now duration rows) db.claims in
    let drop : Bool → ℤ → List ClaimRow = λ d z.
      delete (λ c. (d && is_claim_of row.commitment_id z c) || is_dropped now duration rows c)
        db.claims in
    (
      ap (λ d. d.claims) same
          ∙ there
          ∙ ap (delete (is_dropped now duration rows)) here
          ∙ both
          ∙ ap (λ d. drop d (pos epoch)) is_due
          ∙ ap (drop (is_expired now duration claim)) (sym is_epoch),
      ground arith,
    )

delete-cong :
    (p q : ClaimRow → Bool) (rs : List ClaimRow)
    → ((r : ClaimRow) → p r ≡ q r)
    → delete p rs ≡ delete q rs
unfolding delete
delete-cong p q [] h = refl
delete-cong p q (r ∷ rs) h = let ih = delete-cong p q rs h in let here = h r in ground arith

-- The JOIN in the order of the commitments finds the same rows as the commitments do.
claimed_rows_of-dropped :
    (now : MonotonicInstant) (duration : MonotonicDuration) (rows : List CommitmentRow)
    (claims : List ClaimRow) (c : ClaimRow)
    → is_dropped now duration (claimed_rows_of rows claims) c
      ≡ exists
          (λ row.
            row.commitment_id =? c.commitment_id
            && has_claim
                (λ claim. claim.claim_epoch =? c.claim_epoch && is_expired now duration claim)
                claims
                row)
          rows
unfolding claimed_rows_of exists is_dropped
claimed_rows_of-dropped now duration [] claims c = refl
claimed_rows_of-dropped now duration (row ∷ rows) claims c =
    let ih = claimed_rows_of-dropped now duration rows claims c in
    elim (Option-cases (select (λ d. d.commitment_id =? row.commitment_id) claims)) [
      | inl n ↦ ground arith
      | inr (claim, s) ↦ ground arith
    ]

claimed_rows_of-count :
    (now : MonotonicInstant) (duration : MonotonicDuration) (rows : List CommitmentRow)
    (claims : List ClaimRow)
    → count (λ p. is_expired now duration p.1) (claimed_rows_of rows claims)
      ≡ count (has_claim (is_expired now duration) claims) rows
unfolding claimed_rows_of count
claimed_rows_of-count now duration [] claims = refl
claimed_rows_of-count now duration (row ∷ rows) claims =
    let ih = claimed_rows_of-count now duration rows claims in
    elim (Option-cases (select (λ d. d.commitment_id =? row.commitment_id) claims)) [
      | inl n ↦ ground arith
      | inr (claim, s) ↦ ground arith
    ]

-- When process_expired_claims returns, the claims left are those that stood there, in their order, but
-- the claim of each commitment whose lease has run out, and the number that it answers is the number
-- of those commitments.
pub process_expired_claims_lem :
    (now : MonotonicInstant) (duration : MonotonicDuration) (n : ℕ) (db db' : Db)
    → process_expired_claims now duration db ≡ ok (n, db')
    → (db'.claims ≡ delete (is_lost now duration db) db.claims)
      × (n ≡ count (has_claim (is_expired now duration) db.claims) db.commitments)
unfolding process_expired_claims claimed_rows
process_expired_claims_lem now duration n db db' e =
    let (ticks, _, r1) = try-ok (checked_i64 now "current monotonic instant") _ n db db' e in
    let (boot, _, r2) = check-ok current_boot_generation _ n db db' r1 in
    let (boot_ticks, _, r3) = try-ok (checked_i64 boot "boot generation") _ n db db' r2 in
    let (left, number) =
      expire_claims-claims now duration ticks boot_ticks (claimed_rows db) n db db' r3 in
    let sorted = order_by_text (λ (c : CommitmentRow). c.commitment_id) db.commitments in
    (
      left
          ∙ delete-cong _ (is_lost now duration db) db.claims (λ c.
            claimed_rows_of-dropped now duration sorted db.claims c
            ∙ exists-order _ (λ r. r.commitment_id) db.commitments),
      number
          ∙ claimed_rows_of-count now duration sorted db.claims
          ∙ count-order _ (λ r. r.commitment_id) db.commitments,
    )
