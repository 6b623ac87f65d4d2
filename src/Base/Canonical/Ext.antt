-- ===== src/Base/Canonical/Ext.antt =====
-- A strictly ascending list is determined by its members.
use mathlib.Core.Path.{◌≡◌, refl, sym, ap₂, ◌∙◌}
use mathlib.Core.Logic.{◌≢◌, inl, inr, if_neg}
use mathlib.Core.Bool.{true, false}
use mathlib.Core.List.{List, [], ◌∷◌}
use native.Mathlib.Omega.{arith}
use resolve.Base.Tests.{DecEq, ◌≟◌, Bool-cases}
use resolve.Base.Order.{Ord}
use resolve.Base.Canonical.{contains, canonicalize, contains-canonicalize}
use resolve.Base.Canonical.Ascending.{Above, IsAscending, lt_asymm, canonicalize-IsAscending}

module _ {A : Type 0} ⦃d : DecEq A⦄ ⦃o : Ord A⦄ where
  lt_of_contains :
      (x : A) (ys : List A) (z : A) → Above x ys → contains ys z ≡ true → o.lt x z ≡ true
  unfolding contains
  lt_of_contains x [] z u h = cc
  lt_of_contains x (y ∷ ys) z u h = elim (z ≟ y) [
    | yes e ↦ rw e u.0
    | no n ↦ o.lt_trans x y z u.0 (lt_of_contains y ys z u.1 (rw (if_neg _ n) at h))
  ]

  Above-IsAscending : (x : A) (ys : List A) → Above x ys → IsAscending ys
  Above-IsAscending x [] u = tt
  Above-IsAscending x (y ∷ ys) u = u.1

  abbrev pub SameMembers : List A → List A → Type 0
  SameMembers xs ys = (a : A) → contains xs a ≡ contains ys a

  contains_head : (x : A) (xs : List A) → contains (x ∷ xs) x ≡ true
  unfolding contains
  contains_head x xs = ground arith

  contains_tail : (x : A) (xs : List A) (a : A) → a ≢ x → contains (x ∷ xs) a ≡ contains xs a
  unfolding contains
  contains_tail x xs a n = ground arith

  no_head : (x : A) (xs : List A) → SameMembers [] (x ∷ xs) → ⊥
  unfolding contains
  no_head x xs same = ground (arith, same x)

  -- The heads of two ascending lists with the same members agree.
  same_head :
      (x y : A) (xs ys : List A) → Above x xs → Above y ys → SameMembers (x ∷ xs) (y ∷ ys) → x ≡ y
  same_head x y xs ys u v same = elim (x ≟ y) [
    | yes e ↦ e
    | no n ↦
        let above =
          lt_of_contains y ys x v
            (sym (contains_tail y ys x n) ∙ sym (same x) ∙ contains_head x xs) in
        let below =
          lt_of_contains x xs y u
            (sym (contains_tail x xs y (λ e. n (sym e))) ∙ same y ∙ contains_head y ys) in
        absurd (ground (arith, lt_asymm x y below))
  ]

  not_contains_head : (x : A) (xs : List A) → Above x xs → contains xs x ≡ false
  not_contains_head x xs u = elim (Bool-cases (contains xs x)) [
    | inl h ↦ absurd (ground (arith, lt_of_contains x xs x u h, o.lt_irrefl x))
    | inr h ↦ h
  ]

  same_tail :
      (x : A) (xs ys : List A)
      → Above x xs
      → Above x ys
      → SameMembers (x ∷ xs) (x ∷ ys)
      → SameMembers xs ys
  same_tail x xs ys u v same a = elim (a ≟ x) [
    | yes e ↦ rw e (not_contains_head x xs u ∙ sym (not_contains_head x ys v))
    | no n ↦ sym (contains_tail x xs a n) ∙ same a ∙ contains_tail x ys a n
  ]

  -- An ascending list is determined by its members.
  pub IsAscending-ext :
      (xs ys : List A) → IsAscending xs → IsAscending ys → SameMembers xs ys → xs ≡ ys
  IsAscending-ext [] [] u v same = refl
  IsAscending-ext [] (y ∷ ys) u v same = absurd (no_head y ys same)
  IsAscending-ext (x ∷ xs) [] u v same = absurd (no_head x xs (λ a. sym (same a)))
  IsAscending-ext (x ∷ xs) (y ∷ ys) u v same =
      let e = same_head x y xs ys u v same in
      let u' : Above y xs = rw e at u in
      let same' : SameMembers (y ∷ xs) (y ∷ ys) = rw e at same in
      ap₂ ◌∷◌ e (
        IsAscending-ext xs ys (Above-IsAscending y xs u') (Above-IsAscending y ys v)
          (same_tail y xs ys u' v same'))

  -- The canonical form depends on the members alone.
  pub canonicalize-ext : (xs ys : List A) → SameMembers xs ys → canonicalize xs ≡ canonicalize ys
  canonicalize-ext xs ys same =
      IsAscending-ext (canonicalize xs) (canonicalize ys) (canonicalize-IsAscending xs)
        (canonicalize-IsAscending ys)
        λ a. contains-canonicalize xs a ∙ same a ∙ sym (contains-canonicalize ys a)
