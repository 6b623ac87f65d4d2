-- ===== src/Store/Protocol/Runs.antt =====
-- What holds of the transactions holds of the calls and of their runs.
use resolve.Base.{
  ◌≡◌, refl, false, List, [], ◌∷◌, Option, some, none, ok, err, arith, ◌>>=◌, if◌then◌else◌,
}
use resolve.Base.Text.{Text}
use resolve.Core.Types.{is_uncertain}
use resolve.Store.Error.{Stored}
use resolve.Store.GuardRows.{GuardRow}
use resolve.Store.Tables.{Db}
use resolve.Store.Tx.{Tx, transact, settle, check-ok, try-ok}
use resolve.Store.Guards.{query_guard}
use resolve.Store.Outcomes.{Report, action_of, find_guard, check_binding, is_known, release_held}
use resolve.Store.Outcomes.Record.{record_tethers_outcome}
use resolve.Store.Protocol.{
  Call, issuing, admitting, invalidating, beating, expiring, recovering, reporting, perform, run,
}
use resolve.Store.Protocol.Keeps.{Keeps, Allows, Reserves, Holds, Unlocks}
use resolve.Store.Guards.Admit.{AdmitRequest}
use resolve.Store.Protocol.Guards.{
  issue_guard-Keeps, admit_guard-Keeps, invalidate_guard-Keeps, record_heartbeat-Keeps,
}
use resolve.Store.Protocol.Recovery.{process_expired_claims-Keeps, record_unless-Keeps}
use resolve.Store.Protocol.Cascade.{recover_without_action-Keeps}

-- The guard that the action of a report is bound to.
abbrev pub bound_guard : Report → Db → Stored GuardRow
bound_guard report db = find_guard (action_of report) db >>= λ guard_id. query_guard guard_id db

abbrev guard_of : Stored GuardRow → Option Text
guard_of (ok guard) = some guard.guard_id.value
guard_of (err e) = none

-- The guard whose held locks a call may release: that of the action whose safe outcome it reports.
abbrev pub releases : Call → Db → Option Text
releases (reporting report) db =
    if is_uncertain report.outcome then none else guard_of (bound_guard report db)
releases _ db = none

-- What a relation must admit beside the statements that all calls share.
abbrev pub Permits : (Db → Db → Type 0) → Call → Db → Type 0
Permits R (issuing request) db = Unlocks R × Reserves R request.guard_id.value
Permits R (admitting request) db = Unlocks R × Holds R request
Permits R (invalidating request) db = Unlocks R
Permits R (expiring now lease) db = Unlocks R
Permits R (reporting report) db =
    (g : Text) → releases (reporting report) db ≡ some g → (d : Db) → R d (release_held g d)
Permits R _ db = Unit {0}

pub permits :
    (R : Db → Db → Type 0) (call : Call) (db : Db)
    → Unlocks R
    → ((g : Text) → Reserves R g)
    → ((request : AdmitRequest) → Holds R request)
    → ((g : Text) → releases call db ≡ some g → (d : Db) → R d (release_held g d))
    → Permits R call db
permits R (issuing request) db unlocks reserves holds release =
    (unlocks, reserves request.guard_id.value)
permits R (admitting request) db unlocks reserves holds release = (unlocks, holds request)
permits R (reporting report) db unlocks reserves holds release = release
permits R (invalidating request) db unlocks reserves holds release = unlocks
permits R (beating beat) db unlocks reserves holds release = tt
permits R (expiring now lease) db unlocks reserves holds release = unlocks
permits R (recovering id at) db unlocks reserves holds release = tt

module _ (R : Db → Db → Type 0) ⦃allows : Allows R⦄ where
  settle-keeps {ℓ} :
      {A : Type ℓ} (r : Stored (A × Db)) (db : Db)
      → ((a : A) (db' : Db) → r ≡ ok (a, db') → R db db')
      → R db (settle r db).1
  settle-keeps (ok (a, db')) db p = p a db' refl
  settle-keeps (err e) db p = allows.stay db

  transact-keeps {ℓ} : {A : Type ℓ} (m : Tx A) → Keeps R m → (db : Db) → R db (transact m db).1
  transact-keeps m p db = settle-keeps (m db) db (λ a db' e. p.keeps a db db' e)

  record_tethers_outcome-keeps :
      (report : Report) (db : Db)
      → ((g : Text) → releases (reporting report) db ≡ some g → (d : Db) → R d (release_held g d))
      → (a : _) (db' : Db) → record_tethers_outcome report db ≡ ok (a, db')
      → R db db'
  unfolding record_tethers_outcome
  record_tethers_outcome-keeps report db release a db' e =
      let (guard_id, found, r1) = check-ok (find_guard (action_of report)) _ a db db' e in
      let (guard, read, r2) = check-ok (query_guard guard_id) _ a db db' r1 in
      let (_, _, r3) =
        try-ok (check_binding (action_of report) guard.preparation_digest report.preparation_digest)
          _ a db db' r2 in
      let (known, _, r4) = try-ok (is_known report guard_id guard.state) _ a db db' r3 in
      let safe : is_uncertain report.outcome ≡ false
          → releases (reporting report) db ≡ some guard.guard_id.value =
        λ u. ground arith in
      (record_unless-Keeps {R = R} known report guard_id guard
          (λ u d. release guard.guard_id.value (safe u) d)).keeps
        a db db' r4

  pub perform-keeps : (call : Call) (db : Db) → Permits R call db → R db (perform call db)
  unfolding perform
  perform-keeps (issuing request) db (unlocks, reserves) =
      transact-keeps _ (issue_guard-Keeps unlocks request reserves) db
  perform-keeps (admitting request) db (unlocks, holds) =
      transact-keeps _ (admit_guard-Keeps unlocks request holds) db
  perform-keeps (invalidating request) db unlocks =
      transact-keeps _ (invalidate_guard-Keeps unlocks request) db
  perform-keeps (beating beat) db p = transact-keeps _ (record_heartbeat-Keeps beat) db
  perform-keeps (expiring now lease) db unlocks =
      transact-keeps _ (process_expired_claims-Keeps unlocks now lease) db
  perform-keeps (recovering id at) db p = transact-keeps _ (recover_without_action-Keeps id at) db
  perform-keeps (reporting report) db release =
      settle-keeps (record_tethers_outcome report db) db
        (record_tethers_outcome-keeps report db release)

  -- A relation that admits every release holds across every run.
  pub run-keeps :
      Unlocks R
      → ((g : Text) → Reserves R g)
      → ((request : AdmitRequest) → Holds R request)
      → ((g : Text) (d : Db) → R d (release_held g d))
      → (calls : List Call) (db : Db) → R db (run calls db)
  unfolding run
  run-keeps unlocks reserves holds release [] db = allows.stay db
  run-keeps unlocks reserves holds release (call ∷ calls) db =
      allows.follow db (perform call db) _
        (perform-keeps call db (permits R call db unlocks reserves holds (λ g _ d. release g d)))
        (run-keeps unlocks reserves holds release calls (perform call db))
