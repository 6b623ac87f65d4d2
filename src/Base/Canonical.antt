-- ===== src/Base/Canonical.antt =====
-- `sort_unstable` and `dedup`. A sort is modelled by insertion: any two sorts of a list agree, since
-- keys that compare equal are equal.
pub mod Ascending
pub mod Ext
use mathlib.Core.Path.{◌≡◌, refl, sym, ap₂, ◌∙◌}
use mathlib.Core.Logic.{◌≢◌, inl, inr, ite, if_pos, if_neg}
use mathlib.Core.Bool.{Bool, true, false}
use mathlib.Core.List.{List, [], ◌∷◌}
use native.Mathlib.Omega.{arith}
use resolve.Base.Tests.{if◌then◌else◌, DecEq, ◌≟◌, Bool-cases}
use resolve.Base.Order.{Ord}

module _ {A : Type 0} ⦃d : DecEq A⦄ where
  unfoldable pub contains : List A → A → Bool
  contains [] a = false
  contains (x ∷ xs) a = ite (a ≟ x) true (contains xs a)

  -- Drops each element that equals the one before it.
  unfoldable pub dedup_after : A → List A → List A
  dedup_after x [] = x ∷ []
  dedup_after x (y ∷ ys) = ite (x ≟ y) (dedup_after x ys) (x ∷ dedup_after y ys)

  unfoldable pub dedup : List A → List A
  unfolding dedup_after
  dedup [] = []
  dedup (x ∷ xs) = dedup_after x xs

  contains-dedup_after :
      (x : A) (ys : List A) (a : A) → contains (dedup_after x ys) a ≡ contains (x ∷ ys) a
  unfolding contains dedup_after
  contains-dedup_after x [] a = refl
  contains-dedup_after x (y ∷ ys) a =
      ground (arith, contains-dedup_after x ys a, contains-dedup_after y ys a)

  pub contains-dedup : (xs : List A) (a : A) → contains (dedup xs) a ≡ contains xs a
  unfolding dedup
  contains-dedup [] a = refl
  contains-dedup (x ∷ xs) a = contains-dedup_after x xs a

module _ {A : Type 0} ⦃d : DecEq A⦄ ⦃o : Ord A⦄ where
  unfoldable pub insert : A → List A → List A
  insert x [] = x ∷ []
  insert x (y ∷ ys) = if o.lt y x then y ∷ insert x ys else x ∷ y ∷ ys

  unfoldable pub sort : List A → List A
  unfolding insert
  sort [] = []
  sort (x ∷ xs) = insert x (sort xs)

  contains-cons :
      (x a : A) (ys zs : List A)
      → contains ys a ≡ contains zs a
      → contains (x ∷ ys) a ≡ contains (x ∷ zs) a
  unfolding contains
  contains-cons x a ys zs h = ground arith

  contains-insert : (x : A) (ys : List A) (a : A) → contains (insert x ys) a ≡ contains (x ∷ ys) a
  unfolding contains insert
  contains-insert x [] a = refl
  contains-insert x (y ∷ ys) a = ground (arith, contains-insert x ys a)

  pub contains-sort : (xs : List A) (a : A) → contains (sort xs) a ≡ contains xs a
  unfolding sort
  contains-sort [] a = refl
  contains-sort (x ∷ xs) a =
      contains-insert x (sort xs) a ∙ contains-cons x a (sort xs) xs (contains-sort xs a)

  unfoldable pub canonicalize : List A → List A
  unfolding sort dedup
  canonicalize xs = dedup (sort xs)

  pub contains-canonicalize : (xs : List A) (a : A) → contains (canonicalize xs) a ≡ contains xs a
  unfolding canonicalize
  contains-canonicalize xs a = contains-dedup (sort xs) a ∙ contains-sort xs a
