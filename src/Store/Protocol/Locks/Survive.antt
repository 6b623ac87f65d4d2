-- ===== src/Store/Protocol/Locks/Survive.antt =====
-- A held lock outlives every call but the safe outcome of its own action.
use resolve.Base.{
  ◌≡◌, refl, ap, false, List, [], ◌∷◌, ◌++◌, some, arith, ◌=?◌, Option-cases, Bool-cases, ◌⊎◌, inl,
  inr,
}
use resolve.Base.Text.{Text}
use resolve.Core.Types.{ScopeKey}
use resolve.Store.Sql.Select.{select-delete, select-append}
use resolve.Store.Sql.Unique.{select-update-some}
use resolve.Store.Tables.{Db, LockRow, held, text_eq, lock_state_eq}
use resolve.Store.Guards.{is_reserved_by}
use resolve.Store.Guards.Issue.{lock_on}
use resolve.Store.Guards.Admit.{AdmitRequest}
use resolve.Store.Guards.Admit.Apply.{set_held}
use resolve.Store.Outcomes.{is_held_lock_of, release_held}
use resolve.Store.Protocol.{Call, perform, run}
use resolve.Store.Protocol.Keeps.{Allows, Reserves, Unlocks}
use resolve.Store.Protocol.Runs.{perform-keeps, permits, releases}
use resolve.Store.Protocol.Locks.{is_on, hold_row}

-- The held lock of the key is still there.
abbrev Survives : ScopeKey → LockRow → Db → Db → Type 0
Survives key l db db' = l.lock_state ≡ held → lock_on key db ≡ some l → lock_on key db' ≡ some l

Survives-hold :
    (key : ScopeKey) (l : LockRow) (request : AdmitRequest) (db : Db)
    → Survives key l db (set_held request db)
Survives-hold key l request db h s =
    let found =
      select-update-some (is_on key) (is_reserved_by request.guard_id.value) (hold_row request)
        (λ q. refl) l db.scope_locks s in
    let other : is_reserved_by request.guard_id.value l ≡ false = ground arith in ground arith

Survives-Allows : (key : ScopeKey) (l : LockRow) → Allows (Survives key l)
Survives-Allows key l = record {
  stay = λ db h s. s;
  follow = λ a b c p q h s. q h (p h s);
  append = λ row db h s. s;
  change = λ test f db same h s. s;
  reclaim = λ rows db h s. s;
  guard = λ rows db h s. s;
  scope = λ rows db h s. s;
}

Survives-reserve : (key : ScopeKey) (l : LockRow) (g : Text) → Reserves (Survives key l) g
Survives-reserve key l g r db is_new own absent h s =
    select-append (is_on key) l db.scope_locks (r ∷ []) s

Survives-unlock : (key : ScopeKey) (l : LockRow) → Unlocks (Survives key l)
Survives-unlock key l g db h s =
    select-delete (is_on key) (is_reserved_by g) l db.scope_locks s (ground arith)

Survives-perform :
    (key : ScopeKey) (l : LockRow) (call : Call) (db : Db)
    → ((g : Text) → releases call db ≡ some g → (d : Db) → Survives key l d (release_held g d))
    → Survives key l db (perform call db)
Survives-perform key l call db release =
    perform-keeps (Survives key l) ⦃allows = Survives-Allows key l⦄ call db (
      permits (Survives key l) call db (Survives-unlock key l) (Survives-reserve key l)
        (λ request d. Survives-hold key l request d) release)

Survives-release :
    (key : ScopeKey) (l : LockRow) (g : Text) (db : Db)
    → l.guard_id =? g ≡ false
    → Survives key l db (release_held g db)
Survives-release key l g db other h s =
    select-delete (is_on key) (is_held_lock_of g) l db.scope_locks s (ground arith)

perform-Survives :
    (key : ScopeKey) (l : LockRow) (call : Call) (db : Db)
    → l.lock_state ≡ held
    → lock_on key db ≡ some l
    → (lock_on key (perform call db) ≡ some l) ⊎ (releases call db ≡ some l.guard_id)
perform-Survives key l call db h s = elim (Option-cases (releases call db)) [
  | inl n ↦ inl (Survives-perform key l call db (λ g e d. absurd (ground arith)) h s)
  | inr (g, e) ↦ elim (Bool-cases (l.guard_id =? g)) [
    | inl same ↦ inr (ground arith)
    | inr other ↦
        inl (
          Survives-perform key l call db (λ g' e' d. Survives-release key l g' d (ground arith)) h
            s)
  ]
]

-- A held lock is still there, unchanged, after any calls, unless one of them reported an outcome that
-- is not uncertain, for the action that its guard was bound to at that time.
pub run-held :
    (key : ScopeKey) (l : LockRow) (calls : List Call) (db : Db)
    → l.lock_state ≡ held
    → lock_on key db ≡ some l
    → (lock_on key (run calls db) ≡ some l)
      ⊎ ((before : List Call) × (call : Call) × (after : List Call) × (calls
            ≡ before ++ call ∷ after)
          × (releases call (run before db) ≡ some l.guard_id))
unfolding run
run-held key l [] db h s = inl s
run-held key l (call ∷ calls) db h s = elim (perform-Survives key l call db h s) [
  | inr r ↦ inr ([], call, calls, refl, r)
  | inl kept ↦ elim (run-held key l calls (perform call db) h kept) [
    | inl still ↦ inl still
    | inr (before, c, after, e, r) ↦ inr (call ∷ before, c, after, ap (λ cs. call ∷ cs) e, r)
  ]
]
