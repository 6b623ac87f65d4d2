-- ===== src/Base/Canonical/Ascending.antt =====
-- Sorting and removing duplicates gives a strictly ascending list.
use mathlib.Core.Path.{◌≡◌}
use mathlib.Core.Logic.{◌≢◌, inl, inr, if_pos, if_neg}
use mathlib.Core.Bool.{true, false}
use mathlib.Core.List.{List, [], ◌∷◌}
use native.Mathlib.Omega.{arith}
use resolve.Base.Tests.{DecEq, ◌≟◌, Bool-cases}
use resolve.Base.Order.{Ord}
use resolve.Base.Canonical.{insert, sort, dedup, dedup_after, canonicalize}

module _ {A : Type 0} ⦃d : DecEq A⦄ ⦃o : Ord A⦄ where
  -- No element is below `x`, and none is below the one before it.
  abbrev From : A → List A → Type 0
  From x [] = Unit
  From x (y ∷ ys) = (o.lt y x ≡ false) × From y ys

  abbrev IsSorted : List A → Type 0
  IsSorted [] = Unit
  IsSorted (x ∷ xs) = From x xs

  -- Each element lies above `x` and above the one before it.
  abbrev pub Above : A → List A → Type 0
  Above x [] = Unit
  Above x (y ∷ ys) = (o.lt x y ≡ true) × Above y ys

  abbrev pub IsAscending : List A → Type 0
  IsAscending [] = Unit
  IsAscending (x ∷ xs) = Above x xs

  pub lt_asymm : (a b : A) → o.lt a b ≡ true → o.lt b a ≡ false
  lt_asymm a b h = elim (Bool-cases (o.lt b a)) [
    | inl back ↦ absurd (ground (arith, o.lt_trans a b a h back, o.lt_irrefl a))
    | inr e ↦ e
  ]

  lt_of_ne : (a b : A) → a ≢ b → o.lt b a ≡ false → o.lt a b ≡ true
  lt_of_ne a b n h = elim (Bool-cases (o.lt a b)) [
    | inl e ↦ e
    | inr e ↦ absurd (n (o.lt_total a b e h))
  ]

  From-insert : (z x : A) (ys : List A) → o.lt x z ≡ false → From z ys → From z (insert x ys)
  unfolding insert
  From-insert z x [] h f = (h, tt)
  From-insert z x (y ∷ ys) h f = elim (Bool-cases (o.lt y x)) [
    | inl e ↦ rw e (f.0, From-insert y x ys (lt_asymm y x e) f.1)
    | inr e ↦ rw e (h, (e, f.1))
  ]

  IsSorted-insert : (x : A) (ys : List A) → IsSorted ys → IsSorted (insert x ys)
  unfolding insert
  IsSorted-insert x [] s = tt
  IsSorted-insert x (y ∷ ys) s = elim (Bool-cases (o.lt y x)) [
    | inl e ↦ rw e (From-insert y x ys (lt_asymm y x e) s)
    | inr e ↦ rw e (e, s)
  ]

  sort-IsSorted : (xs : List A) → IsSorted (sort xs)
  unfolding sort
  sort-IsSorted [] = tt
  sort-IsSorted (x ∷ xs) = IsSorted-insert x (sort xs) (sort-IsSorted xs)

  Above-dedup_after :
      (z x : A) (ys : List A) → o.lt z x ≡ true → From x ys → Above z (dedup_after x ys)
  unfolding dedup_after
  Above-dedup_after z x [] h f = (h, tt)
  Above-dedup_after z x (y ∷ ys) h f = elim (x ≟ y) [
    | yes e ↦ rw (if_pos _ e) (Above-dedup_after z x ys h (rw e f.1))
    | no n ↦ rw (if_neg _ n) (h, Above-dedup_after x y ys (lt_of_ne x y n f.0) f.1)
  ]

  dedup_after-IsAscending : (x : A) (ys : List A) → From x ys → IsAscending (dedup_after x ys)
  unfolding dedup_after
  dedup_after-IsAscending x [] f = tt
  dedup_after-IsAscending x (y ∷ ys) f = elim (x ≟ y) [
    | yes e ↦ rw (if_pos _ e) (dedup_after-IsAscending x ys (rw e f.1))
    | no n ↦ rw (if_neg _ n) (Above-dedup_after x y ys (lt_of_ne x y n f.0) f.1)
  ]

  dedup-IsAscending : (xs : List A) → IsSorted xs → IsAscending (dedup xs)
  unfolding dedup
  dedup-IsAscending [] s = tt
  dedup-IsAscending (x ∷ xs) s = dedup_after-IsAscending x xs s

  pub canonicalize-IsAscending : (xs : List A) → IsAscending (canonicalize xs)
  unfolding canonicalize
  canonicalize-IsAscending xs = dedup-IsAscending (sort xs) (sort-IsSorted xs)
