-- ===== src/Base/Tests.antt =====
-- Boolean tests on native numbers, branching, and the decision of equality as an interface.
use Prim.Native.Nat.{ℕ, compare, Ordering}
use mathlib.Core.Path.{◌≡◌, refl}
use mathlib.Core.Logic.{◌⊎◌, inl, inr}
use mathlib.Core.Bool.{Bool, true, false}
use mathlib.Core.Option.{Option, none, some}

abbrev pub ltb : ℕ → ℕ → Bool
ltb a b = elim (compare a b) [ Ordering.lt ↦ true | _ ↦ false ]

abbrev pub leb : ℕ → ℕ → Bool
leb a b = elim (compare a b) [ Ordering.gt ↦ false | _ ↦ true ]

infix 50 ◌==◌
abbrev pub ◌==◌ : ℕ → ℕ → Bool
a == b = elim (compare a b) [ Ordering.eq ↦ true | _ ↦ false ]

infix 1 if◌then◌else◌
abbrev pub if◌then◌else◌ {ℓ} : {A : Type ℓ} → Bool → A → A → A
if true then x else y = x
if false then x else y = y

-- To split on a computed value and keep the equation.
pub Bool-cases : (b : Bool) → (b ≡ true) ⊎ (b ≡ false)
Bool-cases true = inl refl
Bool-cases false = inr refl

pub Option-cases {ℓ} : {A : Type ℓ} (o : Option A) → (o ≡ none) ⊎ ((a : A) × (o ≡ some a))
Option-cases none = inl refl
Option-cases (some a) = inr (a, refl)

-- `derive(PartialEq, Eq)`.
pub record DecEq {ℓ} (A : Type ℓ) : Type ℓ where
  pub decide_eq : Discrete A

infix 50 ◌≟◌
abbrev pub ◌≟◌ {ℓ} : {A : Type ℓ} ⦃e : DecEq A⦄ → Discrete A
◌≟◌ ⦃e⦄ = e.decide_eq

abbrev pub is_some {ℓ} : {A : Type ℓ} → Option A → Bool
is_some none = false
is_some (some a) = true

-- `a == b` on `bool`
abbrev pub bool_eq : Bool → Bool → Bool
bool_eq true b = b
bool_eq false true = false
bool_eq false false = true

-- A decision as a test.
abbrev pub holds {ℓ} : {P : Type ℓ} → Dec P → Bool
holds (yes _) = true
holds (no _) = false

infix 50 ◌=?◌ ◌≠?◌
abbrev pub ◌=?◌ {ℓ} : {A : Type ℓ} ⦃e : DecEq A⦄ → A → A → Bool
a =? b = holds (a ≟ b)

abbrev pub ◌≠?◌ {ℓ} : {A : Type ℓ} ⦃e : DecEq A⦄ → A → A → Bool
a ≠? b = elim (a ≟ b) [ yes _ ↦ false | no _ ↦ true ]

-- `option == Some(value)`
abbrev pub is_value {ℓ} : {A : Type ℓ} ⦃e : DecEq A⦄ → Option A → A → Bool
is_value none a = false
is_value (some b) a = b =? a
