-- ===== src/Store/Commitments/Saved.antt =====
-- What is read back of a commitment that `insert_commitment` of sqlite.rs has stored.
use resolve.Base.{
  ℕ, ◌≡◌, refl, sym, ap, ◌∙◌, subst, true, false, [], ◌∷◌, ◌++◌, Option, some, none, ok, arith,
  ◌=?◌,
}
use resolve.Base.Int.{ℤ}
use resolve.Core.Types.{
  CommitmentState, proposed, ready, claimed, working, waiting, recovery_pending,
  completion_proposed, completed, cancelled, abandoned,
}
use resolve.Core.Events.{WorkEvent}
use resolve.Core.Commitment.{Commitment}
use resolve.Store.Sql.{select, exists, delete}
use resolve.Store.Sql.Select.{select-append_new}
use resolve.Store.Tables.{Db, CommitmentRow, text_eq}
use resolve.Store.Codec.{to_sql, transpose}
use resolve.Store.Tx.{append_event, bind-ok, try-ok, check-ok, current_boot_generation}
use resolve.Store.Guards.Issue.{statement}
use resolve.Store.Outcomes.{drop_claims}
use resolve.Store.Sql.Numbered.{numbered}
use resolve.Store.Descriptions.{validate_commitment_event}
use resolve.Store.Recovery.Cascade.{find_commitment}
use resolve.Store.Commitments.{
  prerequisite_row, insert_prerequisites, insert_acceptance_refs, insert_claim, drop_prerequisites,
  drop_acceptance_refs, is_positive_or_null, is_proposed, sync_commitment_children,
  insert_commitment_row, insert_commitment_snapshot, new_row, check_new, insert_commitment,
}
use resolve.Store.Commitments.Children.{
  acceptance_row, insert_prerequisites-rows, insert_acceptance_refs-rows,
}

-- The rows of a new commitment: its own, found under its key, its numbered children, and no claim.
pub record IsStored (c : Commitment) (row : CommitmentRow) (db db' : Db) : Type 0 where
  pub found : find_commitment c.commitment_id.value db' ≡ some row
  pub prerequisites :
      db'.commitment_prerequisites
      ≡ delete (λ r. r.commitment_id =? c.commitment_id.value) db.commitment_prerequisites
        ++ numbered (prerequisite_row c.commitment_id) 0 c.prerequisites
  pub acceptance_refs :
      db'.commitment_acceptance_refs
      ≡ delete (λ r. r.commitment_id =? c.commitment_id.value) db.commitment_acceptance_refs
        ++ numbered (acceptance_row c.commitment_id) 0 c.acceptance_refs
  pub claims : db'.claims ≡ delete (λ r. r.commitment_id =? c.commitment_id.value) db.claims

sync_commitment_children-rows :
    (c : Commitment) (boot : ℕ) (db db' : Db)
    → c.claim ≡ none
    → sync_commitment_children c boot db ≡ ok (tt, db')
    → (db'.commitments ≡ db.commitments)
      × (db'.commitment_prerequisites
          ≡ delete (λ r. r.commitment_id =? c.commitment_id.value) db.commitment_prerequisites
            ++ numbered (prerequisite_row c.commitment_id) 0 c.prerequisites)
      × (db'.commitment_acceptance_refs
          ≡ delete (λ r. r.commitment_id =? c.commitment_id.value) db.commitment_acceptance_refs
            ++ numbered (acceptance_row c.commitment_id) 0 c.acceptance_refs)
      × (db'.claims ≡ delete (λ r. r.commitment_id =? c.commitment_id.value) db.claims)
unfolding sync_commitment_children insert_claim
sync_commitment_children-rows c boot db db' free e =
    let id = c.commitment_id.value in
    let (_, db₁, p1, r1) =
      bind-ok (insert_prerequisites c.commitment_id 0 c.prerequisites) _ tt
        (drop_prerequisites id db) db' e in
    let same₁ =
      insert_prerequisites-rows c.commitment_id 0 c.prerequisites (drop_prerequisites id db) db₁
        p1 in
    let (_, db₂, p2, r2) =
      bind-ok (insert_acceptance_refs c.commitment_id 0 c.acceptance_refs) _ tt
        (drop_acceptance_refs id db₁) db' r1 in
    let same₂ =
      insert_acceptance_refs-rows c.commitment_id 0 c.acceptance_refs (drop_acceptance_refs id db₁)
        db₂ p2 in
    let unclaimed =
      subst (λ claim. insert_claim c.commitment_id claim boot (drop_claims id db₂) ≡ ok (tt, db'))
        free r2 in
    let last : drop_claims id db₂ ≡ db' = ground arith in
    let commitments₁ = ap (λ (d : Db). d.commitments) same₁ in
    let commitments₂ = ap (λ (d : Db). d.commitments) same₂ in
    let commitments₃ = ap (λ (d : Db). d.commitments) last in
    let children₁ = ap (λ (d : Db). d.commitment_prerequisites) same₁ in
    let children₂ = ap (λ (d : Db). d.commitment_prerequisites) same₂ in
    let children₃ = ap (λ (d : Db). d.commitment_prerequisites) last in
    (
      sym commitments₃ ∙ commitments₂ ∙ commitments₁,
      sym children₃ ∙ children₂ ∙ children₁,
      sym (ap (λ (d : Db). d.commitment_acceptance_refs) last)
          ∙ ap (λ (d : Db). d.commitment_acceptance_refs) same₂
          ∙ ap
              (λ (d : Db).
                delete (λ r. r.commitment_id =? id) d.commitment_acceptance_refs
                ++ numbered (acceptance_row c.commitment_id) 0 c.acceptance_refs)
              same₁,
      sym (ap (λ (d : Db). d.claims) last)
          ∙ ap (λ (d : Db). delete (λ r. r.commitment_id =? id) d.claims) same₂
          ∙ ap (λ (d : Db). delete (λ r. r.commitment_id =? id) d.claims) same₁,
    )

is_proposed-proposed : (state : CommitmentState) → is_proposed state ≡ true → state ≡ proposed
is_proposed-proposed proposed e = refl
is_proposed-proposed ready e = absurd (ground arith)
is_proposed-proposed claimed e = absurd (ground arith)
is_proposed-proposed working e = absurd (ground arith)
is_proposed-proposed (waiting reason) e = absurd (ground arith)
is_proposed-proposed recovery_pending e = absurd (ground arith)
is_proposed-proposed completion_proposed e = absurd (ground arith)
is_proposed-proposed completed e = absurd (ground arith)
is_proposed-proposed cancelled e = absurd (ground arith)
is_proposed-proposed abandoned e = absurd (ground arith)

check_new-ok :
    (c : Commitment)
    → check_new c ≡ ok tt
    → (c.state ≡ proposed) × (c.claim ≡ none) × (c.outstanding_action ≡ none)
unfolding check_new
check_new-ok c e = (is_proposed-proposed c.state (ground arith), ground arith, ground arith)

insert_commitment_row-ok :
    (row : CommitmentRow) (db db' : Db)
    → statement (insert_commitment_row row) db ≡ ok (tt, db')
    → (is_positive_or_null row.last_claim_epoch ≡ true)
      × (exists (λ r. r.commitment_id =? row.commitment_id) db.commitments ≡ false)
      × (db' ≡ record db { commitments = db.commitments ++ row ∷ [] })
unfolding insert_commitment_row
insert_commitment_row-ok row db db' e = (ground arith, ground arith, ground arith)

-- Where a commitment is inserted, its rows are there, and it was new.
pub insert_commitment-IsStored :
    (c : Commitment) (event : WorkEvent) (created_at : ℤ) (event_id : ℕ) (db db' : Db)
    → insert_commitment c event created_at db ≡ ok (event_id, db')
    → (last : Option ℤ) × (transpose to_sql c.last_claim_epoch ≡ ok last)
      × (is_positive_or_null last ≡ true)
      × (c.state ≡ proposed)
      × (c.claim ≡ none)
      × (c.outstanding_action ≡ none)
      × IsStored c (new_row c last) db db'
unfolding insert_commitment insert_commitment_snapshot append_event
insert_commitment-IsStored c event created_at event_id db db' e =
    let (_, _, r1) =
      try-ok (validate_commitment_event event c.commitment_id "commitment creation") _ event_id db
        db' e in
    let (_, fresh, r2) = try-ok (check_new c) _ event_id db db' r1 in
    let (state, claim, action) = check_new-ok c fresh in
    let (boot, _, r3) = check-ok current_boot_generation _ event_id db db' r2 in
    let logged = record db {
      work_events =
          db.work_events
          ++ record { goal_id = c.goal_id.value; event = event; created_at = created_at } ∷ [];
    } in
    let (_, end, snapshot, r4) =
      bind-ok (insert_commitment_snapshot c boot) _ event_id logged db' r3 in
    let (last, fits, r5) = try-ok (transpose to_sql c.last_claim_epoch) _ tt logged end snapshot in
    let (_, db₁, p1, r6) =
      bind-ok (statement (insert_commitment_row (new_row c last))) _ tt logged end r5 in
    let (positive, absent, grown) = insert_commitment_row-ok (new_row c last) logged db₁ p1 in
    let (rows, prerequisites, refs, claims) =
      sync_commitment_children-rows c boot db₁ end claim r6 in
    let same : end ≡ db' = ground arith in
    let stored : IsStored c (new_row c last) db end = record {
      found =
          ap (select (λ r. r.commitment_id =? c.commitment_id.value))
            (rows ∙ ap (λ (d : Db). d.commitments) grown)
          ∙ select-append_new (λ r. r.commitment_id =? c.commitment_id.value) (new_row c last)
              db.commitments absent (ground arith);
      prerequisites =
          prerequisites
          ∙ ap
              (λ (d : Db).
                delete (λ r. r.commitment_id =? c.commitment_id.value) d.commitment_prerequisites
                ++ numbered (prerequisite_row c.commitment_id) 0 c.prerequisites)
              grown;
      acceptance_refs =
          refs
          ∙ ap
              (λ (d : Db).
                delete (λ r. r.commitment_id =? c.commitment_id.value) d.commitment_acceptance_refs
                ++ numbered (acceptance_row c.commitment_id) 0 c.acceptance_refs)
              grown;
      claims =
          claims
          ∙ ap (λ (d : Db). delete (λ r. r.commitment_id =? c.commitment_id.value) d.claims) grown;
    } in
    (
      last,
      fits,
      positive,
      state,
      claim,
      action,
      subst (λ d. IsStored c (new_row c last) db d) same stored,
    )
