-- ===== src/Store/Protocol/Locks.antt =====
-- The lock of one scope key across the calls of the store, as a machine whose steps each name the
-- call that takes them.
pub mod Refine
pub mod Survive
use resolve.Base.{
  ◌+◌, ◌≤◌, ◌≡◌, refl, sym, ap, subst, Bool, true, false, List, [], ◌∷◌, ◌++◌, Option, some, none,
  arith, ◌=?◌, Option-cases, Bool-cases, inl, inr, if◌then◌else◌,
}
use resolve.Base.Text.{Text}
use resolve.Core.Types.{ScopeKey, is_uncertain}
use resolve.Store.Sql.{select, delete, update, count, exists}
use resolve.Store.Sql.Select.{select-delete, select-append_new}
use resolve.Store.Sql.Unique.{
  count-delete-le, select-delete_only, select-delete-none, count-update, select-update-none,
  select-update-some, count-append, count-absent, select-append_other,
}
use resolve.Store.Tables.{Db, LockRow, reserved, held, text_eq, lock_state_eq}
use resolve.Store.Guards.{is_reserved_by, release_reserved}
use resolve.Store.Guards.Issue.{GuardIssueRequest, lock_on}
use resolve.Store.Guards.Admit.{AdmitRequest}
use resolve.Store.Guards.Admit.Apply.{set_held}
use resolve.Store.Outcomes.{Report, is_held_lock_of, release_held}
use resolve.Store.Protocol.{Call, issuing, admitting, beating, recovering, reporting, perform, run}
use resolve.Store.Protocol.Keeps.{Allows}
use resolve.Store.Protocol.Runs.{run-keeps, perform-keeps, releases}

-- A scope key as its callers see it.
pub data LockView : Type 0 where
  is_free : LockView
  is_reserved is_held : (guard_id : Text) → LockView

unfoldable pub view_row : LockRow → LockView
view_row l = elim l.lock_state [ reserved ↦ is_reserved l.guard_id | held ↦ is_held l.guard_id ]

view_of : Option LockRow → LockView
unfolding view_row
view_of none = is_free
view_of (some l) = view_row l

unfoldable pub view : ScopeKey → Db → LockView
unfolding view_of
view key db = view_of (lock_on key db)

-- The calls that may end a reservation: a heartbeat, a release from recovery and an outcome do not.
abbrev pub may_lapse : Call → Bool
may_lapse (beating beat) = false
may_lapse (recovering id at) = false
may_lapse (reporting report) = false
may_lapse _ = true

-- What a call may do to a scope key: only an issue reserves it, for its own guard; only an admission
-- holds it, and only where its own guard has reserved it; only the report of an outcome that is not
-- uncertain frees it where it is held.
pub data LockStep : Call → LockView → LockView → Type 0 where
  reserving :
      {request : GuardIssueRequest}
      → LockStep (issuing request) is_free (is_reserved request.guard_id.value)
  lapsing :
      {call : Call} (guard_id : Text)
      → may_lapse call ≡ true
      → LockStep call (is_reserved guard_id) is_free
  holding :
      {request : AdmitRequest}
      → LockStep
          (admitting request)
          (is_reserved request.guard_id.value)
          (is_held request.guard_id.value)
  releasing :
      {report : Report} (guard_id : Text)
      → is_uncertain report.outcome ≡ false
      → LockStep (reporting report) (is_held guard_id) is_free

-- The steps of one call.
pub data LockPath (call : Call) : LockView → LockView → Type 0 where
  done : {v : LockView} → LockPath call v v
  then_step : {u v w : LockView} → LockPath call u v → LockStep call v w → LockPath call u w

-- The steps of the calls of a run, each call taking its own.
pub data LockRun : List Call → LockView → LockView → Type 0 where
  stop : {v : LockView} → LockRun [] v v
  next :
      {call : Call} {calls : List Call} {u v w : LockView}
      → LockPath call u v
      → LockRun calls v w
      → LockRun (call ∷ calls) u w

pub join :
    {call : Call} {u v w : LockView} → LockPath call u v → LockPath call v w → LockPath call u w
join p done = p
join p (then_step q s) = then_step (join p q) s

abbrev pub is_on : ScopeKey → LockRow → Bool
is_on key l = l.scope_key =? key.value

-- The key has at most one lock, as its primary key demands.
abbrev pub IsUnique : ScopeKey → Db → Type 0
IsUnique key db = count (is_on key) db.scope_locks ≤ 1

abbrev pub Refines : Call → ScopeKey → Db → Db → Type 0
Refines call key db db' =
    IsUnique key db → IsUnique key db' × LockPath call (view key db) (view key db')

pub view-some :
    (key : ScopeKey) (l : LockRow) (db : Db) → lock_on key db ≡ some l → view key db ≡ view_row l
unfolding view view_of
view-some key l db e = ap view_of e

pub view-none : (key : ScopeKey) (db : Db) → lock_on key db ≡ none → view key db ≡ is_free
unfolding view view_of
view-none key db e = ap view_of e

-- Between views that are known.
pub path_between :
    {call : Call} (u v x y : LockView) → x ≡ u → y ≡ v → LockPath call u v → LockPath call x y
path_between {call} u v x y p q path =
    subst (λ w. LockPath call w y) (sym p) (subst (λ w. LockPath call u w) (sym q) path)

-- Where the lock of the key is the same, so is the view.
pub path_same :
    (call : Call) (key : ScopeKey) (db db' : Db)
    → lock_on key db' ≡ lock_on key db
    → LockPath call (view key db) (view key db')
unfolding view
path_same call key db db' e =
    subst (λ o. LockPath call (view_of (lock_on key db)) (view_of o)) (sym e) done

pub Refines-delete :
    (call : Call) (key : ScopeKey) (drop : LockRow → Bool) (db : Db)
    → ((l : LockRow) → drop l ≡ true → LockStep call (view_row l) is_free)
    → Refines call key db (record db { scope_locks = delete drop db.scope_locks })
Refines-delete call key drop db frees unique =
    let few = count-delete-le (is_on key) drop db.scope_locks in
    (
      omega arith,
      elim (Option-cases (lock_on key db)) [
        | inl n ↦
            path_between is_free is_free _ _ (view-none key db n)
              (view-none key _ (select-delete-none (is_on key) drop db.scope_locks n)) done
        | inr (l, s) ↦ elim (Bool-cases (drop l)) [
          | inl d ↦
              path_between (view_row l) is_free _ _ (view-some key l db s)
                (view-none key _ (select-delete_only (is_on key) drop l db.scope_locks unique s d))
                (then_step done (frees l d))
          | inr k ↦
              path_between (view_row l) (view_row l) _ _ (view-some key l db s)
                (view-some key l _ (select-delete (is_on key) drop l db.scope_locks s k)) done
        ]
      ],
    )

abbrev pub hold_row : AdmitRequest → LockRow → LockRow
hold_row request l = record l {
  lock_state = held;
  action_ref = some request.action_ref.value;
  reservation_expires_at = none;
}

pub hold-step :
    (request : AdmitRequest) (l : LockRow)
    → is_reserved_by request.guard_id.value l ≡ true
    → LockStep (admitting request) (view_row l) (view_row (hold_row request l))
unfolding view_row
hold-step request l h =
    let was : l.lock_state ≡ reserved = ground arith in
    let own : l.guard_id ≡ request.guard_id.value = ground arith in
    subst
      (λ g.
        LockStep (admitting request)
          (view_row (record l { lock_state = l.lock_state; guard_id = g })) (is_held g))
      (sym own)
      (subst
        (λ s.
          LockStep (admitting request)
            (view_row (record l { lock_state = s; guard_id = request.guard_id.value }))
            (is_held request.guard_id.value))
        (sym was) holding)
