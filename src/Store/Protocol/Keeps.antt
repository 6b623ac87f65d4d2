-- ===== src/Store/Protocol/Keeps.antt =====
-- Relations between the database before and after a transaction, built up from its statements.
use resolve.Base.{
  ℕ, ◌≡◌, Bool, false, List, [], ◌∷◌, ◌++◌, Option, ok, ensure, ◌==◌, arith, subst, ◌=?◌,
}
use resolve.Base.Text.{Text}
use resolve.Base.Int.{ℤ}
use resolve.Core.Types.{GoalId}
use resolve.Core.Events.{WorkEvent}
use resolve.Store.Error.{Stored, StoreError}
use resolve.Store.Sql.{update, exists}
use resolve.Store.Tables.{
  Db, CommitmentRow, EventRow, ClaimRow, RawGuardColumns, GuardScopeRow, LockRow, reserved, text_eq,
}
use resolve.Store.Tx.{
  Tx, ◌>>=◌, try, check, query, execute, execute_count, return, append_event, bind-ok, check-last,
}
use resolve.Store.Guards.{release_reserved}
use resolve.Store.Guards.Admit.{AdmitRequest}
use resolve.Store.Guards.Admit.Apply.{set_held}

-- A successful run of the transaction takes a database to a related one.
pub record Keeps {ℓ} (R : Db → Db → Type 0) {A : Type ℓ} (m : Tx A) : Type ℓ where
  pub keeps : (a : A) (db db' : Db) → m db ≡ ok (a, db') → R db db'

-- A commitment but for its state, its version and its outstanding action.
abbrev pub identity : CommitmentRow → Text × Text × Option Text × Text × Option ℤ × Option Text
identity c = (
  c.commitment_id, c.goal_id, c.parent_id, c.description, c.last_claim_epoch,
  c.replacement_terminal_id,
)

-- The relation admits the reservation of a key by the guard.
abbrev pub Reserves : (Db → Db → Type 0) → Text → Type 0
Reserves R guard_id =
    (l : LockRow) (db : Db)
    → l.lock_state ≡ reserved
    → l.guard_id ≡ guard_id
    → exists (λ r. r.scope_key =? l.scope_key) db.scope_locks ≡ false
    → R db (record db { scope_locks = db.scope_locks ++ l ∷ [] })

-- The relation admits the promotion of the reservations of the admitted guard.
abbrev pub Holds : (Db → Db → Type 0) → AdmitRequest → Type 0
Holds R request = (db : Db) → R db (set_held request db)

-- The relation admits the release of reservations.
abbrev pub Unlocks : (Db → Db → Type 0) → Type 0
Unlocks R = (guard_id : Text) (db : Db) → R db (release_reserved guard_id db)

-- The relation admits each statement of the guard transactions that leaves the locks as they are.
pub record Allows (R : Db → Db → Type 0) : Type 0 where
  pub stay : (db : Db) → R db db
  pub follow : (a b c : Db) → R a b → R b c → R a c
  pub append :
      (row : EventRow) (db : Db) → R db (record db { work_events = db.work_events ++ row ∷ [] })
  pub change :
      (test : CommitmentRow → Bool) (f : CommitmentRow → CommitmentRow) (db : Db)
      → ((c : CommitmentRow) → identity (f c) ≡ identity c)
      → R db (record db { commitments = update test f db.commitments })
  pub reclaim : (rows : List ClaimRow) (db : Db) → R db (record db { claims = rows })
  pub guard : (rows : List RawGuardColumns) (db : Db) → R db (record db { execution_guards = rows })
  pub scope :
      (rows : List GuardScopeRow) (db : Db) → R db (record db { execution_guard_scopes = rows })

module _ {R : Db → Db → Type 0} ⦃allows : Allows R⦄ where
  pub bind-Keeps {ℓ κ} :
      {A : Type ℓ} {B : Type κ} (m : Tx A) (f : A → Tx B)
      → Keeps R m
      → ((a : A) → Keeps R (f a))
      → Keeps R (m >>= f)
  bind-Keeps m f p q = record {
    keeps = λ b db db' e.
        let (a, db₁, first, rest) = bind-ok m f b db db' e in
        allows.follow db db₁ db' (p.keeps a db db₁ first) ((q a).keeps b db₁ db' rest);
  }

  pub check-Keeps {ℓ} : {A : Type ℓ} (g : Db → Stored A) → Keeps R (check g)
  check-Keeps g = record {
    keeps = λ a db db' e.
        let (_, same) = check-last g a db db' e in subst (λ d. R db d) same (allows.stay db);
  }

  pub try-Keeps {ℓ} : {A : Type ℓ} (r : Stored A) → Keeps R (try r)
  try-Keeps r = check-Keeps (λ _. r)

  pub query-Keeps {ℓ} : {A : Type ℓ} (f : Db → A) → Keeps R (query f)
  query-Keeps f = record {
    keeps = λ a db db' e. subst (λ d. R db d) (ground arith) (allows.stay db);
  }

  pub return-Keeps {ℓ} : {A : Type ℓ} (a : A) → Keeps R (return a)
  return-Keeps a = query-Keeps (λ _. a)

  pub execute-Keeps : (f : Db → Db) → ((db : Db) → R db (f db)) → Keeps R (execute f)
  execute-Keeps f p = record { keeps = λ a db db' e. subst (λ d. R db d) (ground arith) (p db) }

  pub check-then-Keeps {ℓ κ} :
      {A : Type ℓ} {B : Type κ} (g : Db → Stored A) (f : A → Tx B)
      → ((a : A) → Keeps R (f a))
      → Keeps R (check g >>= f)
  check-then-Keeps g f q = bind-Keeps (check g) f (check-Keeps g) q

  pub try-then-Keeps {ℓ κ} :
      {A : Type ℓ} {B : Type κ} (r : Stored A) (f : A → Tx B)
      → ((a : A) → Keeps R (f a))
      → Keeps R (try r >>= f)
  try-then-Keeps r f q = check-then-Keeps (λ _. r) f q

  -- A statement that is counted.
  pub count-Keeps :
      (changed : Db → ℕ) (f : Db → Db) (expected : ℕ) (error : StoreError)
      → ((db : Db) → R db (f db))
      → Keeps R (execute_count changed f expected error)
  count-Keeps changed f expected error p =
      bind-Keeps (query changed) _ (query-Keeps changed)
        (λ n. try-then-Keeps (ensure (n == expected) error) _ (λ _. execute-Keeps f p))

  pub append-Keeps :
      (goal_id : GoalId) (event : WorkEvent) (created_at : ℤ)
      → Keeps R (append_event goal_id event created_at)
  unfolding append_event
  append-Keeps goal_id event created_at = execute-Keeps _ (λ db. allows.append _ db)

pub ruleset transactions = (
  check-then-Keeps, try-then-Keeps, bind-Keeps, check-Keeps, try-Keeps, query-Keeps, return-Keeps,
  execute-Keeps, count-Keeps, append-Keeps,
)
