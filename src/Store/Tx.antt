-- ===== src/Store/Tx.antt =====
-- Transactions. Each one works on the database as it found it; `commit` is the successful end, and
-- on an error the transaction is dropped, which rolls every write back.
use resolve.Base.{length, ensure, ◌==◌, arith, String, ℕ, ◌≡◌, refl, [], ◌∷◌, ◌++◌, ok, err}
use resolve.Base.Int.{ℤ, pos}
use resolve.Core.Types.{GoalId, BootGeneration}
use resolve.Core.Events.{WorkEvent}
use resolve.Core.Numbers.{boot_try_from_raw}
use resolve.Store.Error.{
  Stored, StoreError, invalid_persisted_data, message, sqlite, query_returned_no_rows,
}
use resolve.Store.Codec.{from_domain, checked_i64}
use resolve.Store.Tables.{Db, BootColumn, no_boot_row, not_an_integer, boot_value}

abbrev pub Tx {ℓ} : Type ℓ → Type ℓ
Tx A = Db → Stored (A × Db)

infixl 5 ◌>>=◌ ◌>>◌
abbrev pub ◌>>=◌ {ℓ κ} : {A : Type ℓ} {B : Type κ} → Tx A → (A → Tx B) → Tx B
◌>>=◌ m f db = elim (m db) [ ok (a, db') ↦ f a db' | err e ↦ err e ]

abbrev pub ◌>>◌ {ℓ} : {B : Type ℓ} → Tx (Unit {0}) → Tx B → Tx B
m >> k = m >>= λ _. k

abbrev pub try {ℓ} : {A : Type ℓ} → Stored A → Tx A
try (ok a) db = ok (a, db)
try (err e) db = err e

-- A read.
abbrev pub query {ℓ} : {A : Type ℓ} → (Db → A) → Tx A
query f db = ok (f db, db)

-- A read whose result is inspected.
abbrev pub check {ℓ} : {A : Type ℓ} → (Db → Stored A) → Tx A
check f db = try (f db) db

-- A write.
abbrev pub execute : (Db → Db) → Tx (Unit {0})
execute f db = ok (tt, f db)

abbrev pub return {ℓ} : {A : Type ℓ} → A → Tx A
return a db = ok (a, db)

-- An UPDATE or DELETE that must change as many rows as expected.
abbrev pub execute_count : (Db → ℕ) → (Db → Db) → ℕ → StoreError → Tx (Unit {0})
execute_count changed change expected error = do
  n ← query changed
  try (ensure (n == expected) error)
  execute change

-- What the caller sees: the result, and the database after the commit or the rollback.
abbrev pub settle {ℓ} : {A : Type ℓ} → Stored (A × Db) → Db → Stored A × Db
settle (ok (a, db')) db = (ok a, db')
settle (err e) db = (err e, db)

abbrev pub transact {ℓ} : {A : Type ℓ} → Tx A → Db → Stored A × Db
transact tx db = settle (tx db) db

-- The events of one transaction follow those that are there.
unfoldable pub append_event : GoalId → WorkEvent → ℤ → Tx (Unit {0})
append_event goal_id event created_at = execute (λ db. record db {
  work_events =
      db.work_events
      ++ record { goal_id = goal_id.value; event = event; created_at = created_at } ∷ [];
})

-- `last_insert_rowid()`: an AUTOINCREMENT id in a table from which nothing is deleted counts its rows.
abbrev pub last_event_id : Db → ℕ
last_event_id db = length db.work_events

unfoldable pub boot_of : BootColumn → Stored BootGeneration
boot_of no_boot_row = err (sqlite query_returned_no_rows)
boot_of not_an_integer = err (invalid_persisted_data (message "boot_generation is not an integer"))
boot_of (boot_value value) = from_domain (boot_try_from_raw value)

unfoldable pub current_boot_generation : Db → Stored BootGeneration
unfolding boot_of
current_boot_generation db = boot_of db.boot_generation

bind-ok_of {ℓ κ} :
    {A : Type ℓ} {B : Type κ} (r : Stored (A × Db)) (f : A → Tx B) (b : B) (db' : Db)
    → (elim r [ ok (a, db₁) ↦ f a db₁ | err e ↦ err e ]) ≡ ok (b, db')
    → (a : A) × (db₁ : Db) × (r ≡ ok (a, db₁)) × (f a db₁ ≡ ok (b, db'))
bind-ok_of (ok (a, db₁)) f b db' e = (a, db₁, refl, e)
bind-ok_of (err x) f b db' e = absurd (ground arith)

-- Where a sequence succeeds, its first part did, and the rest did from there.
pub bind-ok {ℓ κ} :
    {A : Type ℓ} {B : Type κ} (m : Tx A) (f : A → Tx B) (b : B) (db db' : Db)
    → (m >>= f) db ≡ ok (b, db')
    → (a : A) × (db₁ : Db) × (m db ≡ ok (a, db₁)) × (f a db₁ ≡ ok (b, db'))
bind-ok m f b db db' e = bind-ok_of (m db) f b db' e

pub try-ok {ℓ κ} :
    {A : Type ℓ} {B : Type κ} (r : Stored A) (f : A → Tx B) (b : B) (db db' : Db)
    → (try r >>= f) db ≡ ok (b, db')
    → (a : A) × (r ≡ ok a) × (f a db ≡ ok (b, db'))
try-ok (ok a) f b db db' e = (a, refl, e)
try-ok (err x) f b db db' e = absurd (ground arith)

pub check-ok {ℓ κ} :
    {A : Type ℓ} {B : Type κ} (g : Db → Stored A) (f : A → Tx B) (b : B) (db db' : Db)
    → (check g >>= f) db ≡ ok (b, db')
    → (a : A) × (g db ≡ ok a) × (f a db ≡ ok (b, db'))
check-ok g f b db db' e = try-ok (g db) f b db db' e

-- A number that is stored is stored as itself.
pub checked_i64-then {κ} :
    {B : Type κ} (value : ℕ) (field : String) (f : ℤ → Tx B) (b : B) (db db' : Db)
    → (try (checked_i64 value field) >>= f) db ≡ ok (b, db')
    → f (pos value) db ≡ ok (b, db')
unfolding checked_i64
checked_i64-then value field f b db db' e = ground arith

try-last {ℓ} :
    {A : Type ℓ} (r : Stored A) (a : A) (db db' : Db)
    → try r db ≡ ok (a, db')
    → (r ≡ ok a) × (db ≡ db')
try-last (ok x) a db db' e = (ground arith, ground arith)
try-last (err x) a db db' e = absurd (ground arith)

pub check-last {ℓ} :
    {A : Type ℓ} (g : Db → Stored A) (a : A) (db db' : Db)
    → check g db ≡ ok (a, db')
    → (g db ≡ ok a) × (db ≡ db')
check-last g a db db' e = try-last (g db) a db db' e
