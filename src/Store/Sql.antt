-- ===== src/Store/Sql.antt =====
-- What the SQL of sqlite.rs does to the rows of one table: SELECT, UPDATE, DELETE and COUNT with a
-- WHERE test.
pub mod Select
pub mod Unique
pub mod Numbered
pub mod Ordered
use resolve.Base.{
  ℕ, ◌+◌, Bool, true, false, List, [], ◌∷◌, ◌++◌, Option, some, none, if◌then◌else◌, leb,
}
use resolve.Base.Text.{Text}
use resolve.Base.Order.{text_lt}

module _ {A : Type 0} where
  -- `SELECT … WHERE test` where at most one row is expected
  unfoldable pub select : (A → Bool) → List A → Option A
  select test [] = none
  select test (r ∷ rs) = if test r then some r else select test rs

  -- `SELECT … WHERE test`, all rows
  unfoldable pub select_all : (A → Bool) → List A → List A
  select_all test [] = []
  select_all test (r ∷ rs) = let rest = select_all test rs in if test r then r ∷ rest else rest

  -- `UPDATE … SET change WHERE test`
  unfoldable pub update : (A → Bool) → (A → A) → List A → List A
  update test change [] = []
  update test change (r ∷ rs) = (if test r then change r else r) ∷ update test change rs

  -- `DELETE … WHERE test`
  unfoldable pub delete : (A → Bool) → List A → List A
  delete test [] = []
  delete test (r ∷ rs) = let rest = delete test rs in if test r then rest else r ∷ rest

  -- The number of rows that a statement changes.
  unfoldable pub count : (A → Bool) → List A → ℕ
  count test [] = 0
  count test (r ∷ rs) = (if test r then 1 else 0) + count test rs

  unfoldable pub exists : (A → Bool) → List A → Bool
  exists test [] = false
  exists test (r ∷ rs) = if test r then true else exists test rs

  unfoldable pub insert_by : (A → ℕ) → A → List A → List A
  insert_by key r [] = r ∷ []
  insert_by key r (s ∷ ss) = if leb (key r) (key s) then r ∷ s ∷ ss else s ∷ insert_by key r ss

  -- `ORDER BY key`
  unfoldable pub order_by : (A → ℕ) → List A → List A
  unfolding insert_by
  order_by key [] = []
  order_by key (r ∷ rs) = insert_by key r (order_by key rs)

  unfoldable pub insert_by_text : (A → Text) → A → List A → List A
  insert_by_text key r [] = r ∷ []
  insert_by_text key r (s ∷ ss) =
      if text_lt (key s) (key r) then s ∷ insert_by_text key r ss else r ∷ s ∷ ss

  -- `ORDER BY key`, for a TEXT column
  unfoldable pub order_by_text : (A → Text) → List A → List A
  unfolding insert_by_text
  order_by_text key [] = []
  order_by_text key (r ∷ rs) = insert_by_text key r (order_by_text key rs)

  -- `INSERT`, refused where a row has the same key by `same`
  abbrev pub insert_unique : (A → Bool) → A → List A → Option (List A)
  insert_unique same r rs = if exists same rs then none else some (rs ++ r ∷ [])
