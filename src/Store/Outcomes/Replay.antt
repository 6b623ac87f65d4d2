-- ===== src/Store/Outcomes/Replay.antt =====
-- An outcome that is reported again.
use resolve.Base.{
  ◌≡◌, refl, ap, ◌∙◌, Bool, true, false, Option, some, none, ok, arith, ◌=?◌, is_value, ok_or-ok,
  and_then-ok, Bool-cases, ok_or, inl, inr,
}
use resolve.Base.Int.{ℤ}
use resolve.Base.Text.{Text}
use resolve.Core.Types.{
  GuardId, CommitmentState, TethersActionRef, TethersOutcome, succeeded, failed, uncertain,
  action_ref, action_kind,
}
use resolve.Core.Ids.{try_new}
use resolve.Core.Equality.{identifier_eq, outcome_eq}
use resolve.Core.Guards.{GuardState, admitted, resolved, uncertain_guard}
use resolve.Store.GuardRows.{
  GuardRow, decode_guard_row, decode_guard_state, is_unadmitted, outcome_into_domain,
  decode_outcome,
}
use resolve.Store.Sql.{select, update}
use resolve.Store.Tables.{
  Db, CommitmentRow, text_eq, int_eq, guard_state_eq, RawGuardColumns, GuardStateColumn,
  admitted_column, resolved_column, uncertain_column, Json, json, StoredTethersOutcome,
}
use resolve.Store.Codec.{parse_id}
use resolve.Store.Guards.{query_guard}
use resolve.Store.Sql.Select.{select-update}
use resolve.Store.Sql.Unique.{select-update-some}
use resolve.Store.Outcomes.{
  encode_stored_outcome, find_guard, Report, action_of, is_admitted_version, check_binding,
  is_known, already_recorded, was_recorded,
}
use resolve.Store.Outcomes.Record.{record_tethers_outcome, record_unless}
use resolve.Store.Outcomes.Recorded.{Outstanding, Left, left_safe, left_uncertain}
use resolve.Store.Outcomes.Recording.{record_tethers_outcome-Left}

decode_guard_row-keys :
    (g : RawGuardColumns) (guard : GuardRow)
    → decode_guard_row g ≡ ok guard
    → (g.guard_id ≡ guard.guard_id.value)
      × (g.state_version ≡ guard.state_version)
      × (decode_guard_state g.state g.action_ref g.outcome_json g.reservation_expires_at
          ≡ ok guard.state)
unfolding decode_guard_row parse_id try_new
decode_guard_row-keys g guard e = (ground arith, ground arith, ground arith)

decode_guard_row-change :
    (g : RawGuardColumns) (guard : GuardRow) (column : GuardStateColumn)
    (outcome : Option (Json StoredTethersOutcome)) (state : GuardState) (version : ℤ)
    → decode_guard_row g ≡ ok guard
    → decode_guard_state column g.action_ref outcome none ≡ ok state
    → is_unadmitted state ≡ false
    → decode_guard_row (record g {
      state = column;
      outcome_json = outcome;
      reservation_expires_at = none;
      state_version = version;
    })
      ≡ ok (record guard { state = state; reservation_expires_at = none; state_version = version })
unfolding decode_guard_row
decode_guard_row-change g guard column outcome state version e d u = ground arith

decode_guard_state-admitted :
    (column : GuardStateColumn) (action : Option Text)
    (outcome : Option (Json StoredTethersOutcome)) (reservation : Option ℤ) (a : TethersActionRef)
    → decode_guard_state column action outcome reservation ≡ ok (admitted a)
    → (column ≡ admitted_column)
      × (action ≡ some a.value)
      × (parse_id action_kind a.value "Tethers action" ≡ ok a)
unfolding decode_guard_state parse_id try_new
decode_guard_state-admitted column action outcome reservation a e =
    (ground arith, ground arith, ground arith)

decode_outcome-encode :
    (outcome : TethersOutcome)
    → parse_id action_kind (action_ref outcome).value "Tethers action" ≡ ok (action_ref outcome)
    → decode_outcome (json (encode_stored_outcome outcome)) ≡ ok outcome
unfolding decode_outcome outcome_into_domain
decode_outcome-encode (succeeded a) p = ground arith
decode_outcome-encode (failed a) p = ground arith
decode_outcome-encode (uncertain a) p = ground arith

resolved-decodes :
    (outcome : TethersOutcome) (action : Option Text)
    → action ≡ some (action_ref outcome).value
    → parse_id action_kind (action_ref outcome).value "Tethers action" ≡ ok (action_ref outcome)
    → decode_guard_state resolved_column action (some (json (encode_stored_outcome outcome))) none
      ≡ ok (resolved (action_ref outcome) outcome)
unfolding decode_guard_state
resolved-decodes outcome action a p = let read = decode_outcome-encode outcome p in ground arith

uncertain-decodes :
    (a : TethersActionRef) (action : Option Text)
    → action ≡ some a.value
    → parse_id action_kind a.value "Tethers action" ≡ ok a
    → decode_guard_state uncertain_column action none none ≡ ok (uncertain_guard a)
unfolding decode_guard_state
uncertain-decodes a action e p = ground arith

find_guard-update :
    (action : TethersActionRef) (guard_id : GuardId) (hit : RawGuardColumns → Bool)
    (f : RawGuardColumns → RawGuardColumns) (db db' : Db)
    → ((g : RawGuardColumns) → (f g).action_ref ≡ g.action_ref)
    → ((g : RawGuardColumns) → (f g).guard_id ≡ g.guard_id)
    → db'.execution_guards ≡ update hit f db.execution_guards
    → find_guard action db ≡ ok guard_id
    → find_guard action db' ≡ ok guard_id
unfolding find_guard
find_guard-update action guard_id hit f db db' actions ids same e =
    let test = λ (g : RawGuardColumns). is_value g.action_ref action.value in
    let (g, read, parsed) = and_then-ok (ok_or (select test db.execution_guards) _) _ guard_id e in
    let found = ok_or-ok (select test db.execution_guards) _ g read in
    let moved =
      select-update-some test hit f (λ q. ap (λ o. is_value o action.value) (actions q)) g
        db.execution_guards found in
    let again = ap (select test) same ∙ moved in
    let id = ids g in elim (Bool-cases (hit g)) [ inl h ↦ ground arith | inr n ↦ ground arith ]

query_guard-update :
    (guard_id : GuardId) (guard guard' : GuardRow) (hit : RawGuardColumns → Bool)
    (f : RawGuardColumns → RawGuardColumns) (db db' : Db)
    → ((g : RawGuardColumns) → (f g).guard_id ≡ g.guard_id)
    → ((g : RawGuardColumns) → decode_guard_row g ≡ ok guard → hit g ≡ true)
    → ((g : RawGuardColumns) → decode_guard_row g ≡ ok guard → decode_guard_row (f g) ≡ ok guard')
    → db'.execution_guards ≡ update hit f db.execution_guards
    → query_guard guard_id db ≡ ok guard
    → query_guard guard_id db' ≡ ok guard'
unfolding query_guard
query_guard-update guard_id guard guard' hit f db db' ids hits decodes same e =
    let test = λ (g : RawGuardColumns). g.guard_id =? guard_id.value in
    let (g, read, decoded) = and_then-ok (ok_or (select test db.execution_guards) _) _ guard e in
    let found = ok_or-ok (select test db.execution_guards) _ g read in
    let moved =
      select-update test hit f g db.execution_guards (λ q. ap (λ t. t =? guard_id.value) (ids q))
        found (hits g decoded) in
    let again = ap (select test) same ∙ moved in let later = decodes g decoded in ground arith

-- The row of a guard whose action is admitted, and its columns once an outcome is written.
record IsAdmitted (a : TethersActionRef) (guard : GuardRow) (g : RawGuardColumns) : Type 0 where
  hit : is_admitted_version guard.guard_id.value guard.state_version g ≡ true
  action : g.action_ref ≡ some a.value
  parsed : parse_id action_kind a.value "Tethers action" ≡ ok a

decode_guard_row-IsAdmitted :
    (a : TethersActionRef) (guard : GuardRow) (g : RawGuardColumns)
    → guard.state ≡ admitted a
    → decode_guard_row g ≡ ok guard
    → IsAdmitted a guard g
decode_guard_row-IsAdmitted a guard g was e =
    let (id, v, d) = decode_guard_row-keys g guard e in
    let (column, action, parsed) =
      decode_guard_state-admitted g.state g.action_ref g.outcome_json g.reservation_expires_at a
        (d ∙ ap (λ s. ok s) was) in
    record { hit = ground arith; action = action; parsed = parsed }

-- The same report, where the guard has become `state`.
again :
    (report : Report) (guard_id : GuardId) (guard : GuardRow) (state : GuardState) (version : ℤ)
    (db' : Db)
    → find_guard (action_of report) db' ≡ ok guard_id
    → query_guard guard_id db'
      ≡ ok (record guard { state = state; reservation_expires_at = none; state_version = version })
    → check_binding (action_of report) guard.preparation_digest report.preparation_digest ≡ ok tt
    → is_known report guard_id state ≡ ok true
    → record_tethers_outcome report db' ≡ ok (already_recorded, db')
unfolding record_tethers_outcome record_unless
again report guard_id guard state version db' f q b k = ground arith

replay :
    (report : Report) (guard_id : GuardId) (guard : GuardRow) (row : CommitmentRow)
    (state : CommitmentState) (db db' : Db)
    → Outstanding report guard_id guard row state db
    → Left report guard row state db db'
    → record_tethers_outcome report db' ≡ ok (already_recorded, db')
unfolding is_known
replay report guard_id guard row state db db' o (left_safe is w) =
    let admitted_row : (g : RawGuardColumns)
        → decode_guard_row g ≡ ok guard
        → IsAdmitted (action_of report) guard g =
      λ g e. decode_guard_row-IsAdmitted (action_of report) guard g o.was_admitted e in
    again report guard_id guard (resolved (action_of report) report.outcome) w.guard_version db'
      (find_guard-update (action_of report) guard_id _ _ db db' (λ g. refl) (λ g. refl) w.guards
        o.found)
      (query_guard-update guard_id guard _ _ _ db db' (λ g. refl) (λ g e. (admitted_row g e).hit)
        (λ g e.
          let a = admitted_row g e in
          decode_guard_row-change g guard resolved_column _ _ w.guard_version e
            (resolved-decodes report.outcome g.action_ref a.action a.parsed) refl)
        w.guards o.read)
      o.bound (ground arith)
replay report guard_id guard row state db db' o (left_uncertain is w) =
    let admitted_row : (g : RawGuardColumns)
        → decode_guard_row g ≡ ok guard
        → IsAdmitted (action_of report) guard g =
      λ g e. decode_guard_row-IsAdmitted (action_of report) guard g o.was_admitted e in
    again report guard_id guard (uncertain_guard (action_of report)) w.guard_version db'
      (find_guard-update (action_of report) guard_id _ _ db db' (λ g. refl) (λ g. refl) w.guards
        o.found)
      (query_guard-update guard_id guard _ _ _ db db' (λ g. refl) (λ g e. (admitted_row g e).hit)
        (λ g e.
          let a = admitted_row g e in
          decode_guard_row-change g guard uncertain_column none _ w.guard_version e
            (uncertain-decodes (action_of report) g.action_ref a.action a.parsed) refl)
        w.guards o.read)
      o.bound (ground arith)

-- An outcome that is recorded can be reported again, as where the reply was lost: the same report is
-- then accepted as recorded already and changes nothing.
pub record_tethers_outcome-replay :
    (report : Report) (db db' : Db)
    → record_tethers_outcome report db ≡ ok (was_recorded, db')
    → record_tethers_outcome report db' ≡ ok (already_recorded, db')
record_tethers_outcome-replay report db db' e =
    let (guard_id, guard, row, state, o, left) = record_tethers_outcome-Left report db db' e in
    replay report guard_id guard row state db db' o left
