-- ===== src/Store/Protocol/Locks/Refine.antt =====
-- The calls of the store refine the steps of a lock.
use resolve.Base.{
  ◌≤◌, ◌≡◌, refl, sym, ap, subst, Bool, true, false, List, arith, ◌=?◌, Option-cases, Bool-cases,
  inl, inr, if◌then◌else◌, [], ◌∷◌, ◌++◌,
}
use resolve.Core.Types.{ScopeKey, is_uncertain}
use resolve.Store.Sql.{select, count, exists}
use resolve.Store.Sql.Select.{select-append_new}
use resolve.Store.Sql.Unique.{
  count-update, select-update-none, select-update-some, count-append, count-absent,
  select-append_other, select-exists,
}
use resolve.Store.Tables.{Db, LockRow, reserved, held, text_eq, lock_state_eq}
use resolve.Store.Guards.{is_reserved_by}
use resolve.Store.Guards.Issue.{GuardIssueRequest, lock_on}
use resolve.Store.Guards.Admit.{AdmitRequest}
use resolve.Store.Guards.Admit.Apply.{set_held}
use resolve.Store.Outcomes.{Report, is_held_lock_of}
use resolve.Store.Protocol.{
  Call, issuing, admitting, invalidating, beating, expiring, recovering, reporting, perform, run,
}
use resolve.Store.Protocol.Keeps.{Allows, Unlocks}
use resolve.Store.Protocol.Runs.{Permits, perform-keeps}
use resolve.Store.Protocol.Locks.{
  is_free, is_reserved, view, view_row, LockStep, reserving, lapsing, releasing, may_lapse,
  LockPath, LockRun, stop, next, done, then_step, join, is_on, IsUnique, Refines, path_same,
  path_between, view-some, view-none, Refines-delete, hold_row, hold-step,
}

hold-if :
    (request : AdmitRequest) (l : LockRow) (hit : Bool)
    → is_reserved_by request.guard_id.value l ≡ hit
    → LockPath (admitting request) (view_row l) (view_row (if hit then hold_row request l else l))
hold-if request l true h = then_step done (hold-step request l h)
hold-if request l false h = done

Refines-hold :
    (key : ScopeKey) (request : AdmitRequest) (db : Db)
    → Refines (admitting request) key db (set_held request db)
Refines-hold key request db unique =
    let hit = is_reserved_by request.guard_id.value in
    let same = count-update (is_on key) hit (hold_row request) (λ q. refl) db.scope_locks in
    (
      omega arith,
      elim (Option-cases (lock_on key db)) [
        | inl n ↦
            path_between is_free is_free _ _ (view-none key db n)
              (view-none key _ (
                select-update-none (is_on key) hit (hold_row request) (λ q. refl) db.scope_locks n))
              done
        | inr (l, s) ↦
            path_between (view_row l) _ _ _ (view-some key l db s)
              (view-some key _ _ (
                select-update-some (is_on key) hit (hold_row request) (λ q. refl) l db.scope_locks
                  s))
              (hold-if request l _ refl)
      ],
    )

reserve-step :
    (request : GuardIssueRequest) (l : LockRow)
    → l.lock_state ≡ reserved
    → l.guard_id ≡ request.guard_id.value
    → LockStep (issuing request) is_free (view_row l)
unfolding view_row
reserve-step request l is_new own =
    subst (λ s. LockStep (issuing request) is_free (view_row (record l { lock_state = s })))
      (sym is_new)
      (subst (λ g. LockStep (issuing request) is_free (is_reserved g)) (sym own) reserving)

lapse-step :
    (call : Call) (guard_id : _) (l : LockRow)
    → may_lapse call ≡ true
    → is_reserved_by guard_id l ≡ true
    → LockStep call (view_row l) is_free
unfolding view_row
lapse-step call guard_id l may h =
    let was : l.lock_state ≡ reserved = ground arith in
    subst (λ s. LockStep call (view_row (record l { lock_state = s })) is_free) (sym was)
      (lapsing l.guard_id may)

release-step :
    (report : Report) (guard_id : _) (l : LockRow)
    → is_uncertain report.outcome ≡ false
    → is_held_lock_of guard_id l ≡ true
    → LockStep (reporting report) (view_row l) is_free
unfolding view_row
release-step report guard_id l safe h =
    let was : l.lock_state ≡ held = ground arith in
    subst (λ s. LockStep (reporting report) (view_row (record l { lock_state = s })) is_free)
      (sym was) (releasing l.guard_id safe)

Refines-insert :
    (request : GuardIssueRequest) (key : ScopeKey) (l : LockRow) (db : Db)
    → l.lock_state ≡ reserved
    → l.guard_id ≡ request.guard_id.value
    → exists (λ r. r.scope_key =? l.scope_key) db.scope_locks ≡ false
    → Refines (issuing request) key db (record db { scope_locks = db.scope_locks ++ l ∷ [] })
Refines-insert request key l db is_new own absent unique =
    let more = count-append (is_on key) l db.scope_locks in
    elim (Bool-cases (is_on key l)) [
      | inl here ↦
          let same : l.scope_key ≡ key.value = ground arith in
          let gone : exists (is_on key) db.scope_locks ≡ false =
            subst (λ t. exists (λ r. r.scope_key =? t) db.scope_locks ≡ false) same absent in
          let empty = count-absent (is_on key) db.scope_locks gone in
          (
            ground arith,
            path_between is_free (view_row l) _ _
                (view-none key db (select-exists (is_on key) db.scope_locks gone))
                (view-some key l _ (select-append_new (is_on key) l db.scope_locks gone here))
                (then_step done (reserve-step request l is_new own)),
          )
      | inr other ↦ (
        ground arith,
        path_same (issuing request) key db _
            (select-append_other (is_on key) l db.scope_locks other),
      )
    ]

Refines-same :
    (call : Call) (key : ScopeKey) (db db' : Db)
    → db'.scope_locks ≡ db.scope_locks
    → Refines call key db db'
Refines-same call key db db' e unique = (
  subst (λ rows. count (is_on key) rows ≤ 1) (sym e) unique,
  path_same call key db db' (ap (λ rows. select (is_on key) rows) e),
)

Refines-Allows : (call : Call) (key : ScopeKey) → Allows (Refines call key)
Refines-Allows call key = record {
  stay = λ db. Refines-same call key db db refl;
  follow = λ a b c p q unique.
      let (unique', first) = p unique in
      let (unique'', rest) = q unique' in (unique'', join first rest);
  append = λ row db. Refines-same call key db _ refl;
  change = λ test f db same. Refines-same call key db _ refl;
  reclaim = λ rows db. Refines-same call key db _ refl;
  guard = λ rows db. Refines-same call key db _ refl;
  scope = λ rows db. Refines-same call key db _ refl;
}

Refines-unlock : (call : Call) (key : ScopeKey) → may_lapse call ≡ true → Unlocks (Refines call key)
Refines-unlock call key may g db =
    Refines-delete call key (is_reserved_by g) db (λ l h. lapse-step call g l may h)

Refines-Permits : (call : Call) (key : ScopeKey) (db : Db) → Permits (Refines call key) call db
Refines-Permits (issuing request) key db = (
  Refines-unlock (issuing request) key refl,
  λ l d is_new own absent. Refines-insert request key l d is_new own absent,
)
Refines-Permits (admitting request) key db =
    (Refines-unlock (admitting request) key refl, λ d. Refines-hold key request d)
Refines-Permits (invalidating request) key db = Refines-unlock (invalidating request) key refl
Refines-Permits (beating beat) key db = tt
Refines-Permits (expiring now lease) key db = Refines-unlock (expiring now lease) key refl
Refines-Permits (recovering id at) key db = tt
Refines-Permits (reporting report) key db = λ g e d.
    let safe : is_uncertain report.outcome ≡ false = ground arith in
    Refines-delete (reporting report) key (is_held_lock_of g) d
      (λ l h. release-step report g l safe h)

-- Over any calls, refused ones included, a scope key that has at most one lock keeps at most one, and
-- what its callers see goes along the steps of the calls, in their order: an issue may reserve the
-- free key for its own guard; an admission may hold it where its own guard has reserved it; the report
-- of an outcome that is not uncertain may free it where it is held; an issue, an admission, an
-- invalidation or an expiry may free it where it is only reserved; and nothing else changes it.
pub run-Refines :
    (key : ScopeKey) (calls : List Call) (db : Db)
    → IsUnique key db
    → IsUnique key (run calls db) × LockRun calls (view key db) (view key (run calls db))
unfolding run
run-Refines key [] db unique = (unique, stop)
run-Refines key (call ∷ calls) db unique =
    let (unique', path) =
      perform-keeps (Refines call key) ⦃allows = Refines-Allows call key⦄ call db
        (Refines-Permits call key db) unique in
    let (unique'', rest) = run-Refines key calls (perform call db) unique' in
    (unique'', next path rest)
