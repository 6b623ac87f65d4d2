-- ===== src/Base/Methods.antt =====
-- Methods on `&mut self` as actions on the object. What was written before an error stays written.
use resolve.Base.Results.{Result, ok, err, Method}

module _ {ℓ κ κ' κ''} {E : Type ℓ} {S : Type κ} {A : Type κ'} {B : Type κ''} where
  abbrev pub continue : Result E A → (A → Method E S B) → Method E S B
  continue (ok a) f s = f a s
  continue (err e) f s = (err e, s)

  infixl 5 ◌>>=◌
  abbrev pub ◌>>=◌ : Method E S A → (A → Method E S B) → Method E S B
  ◌>>=◌ m f s = let (r, s') = m s in continue r f s'

infixl 5 ◌>>◌
abbrev pub ◌>>◌ {ℓ κ κ'} :
    {E : Type ℓ} {S : Type κ} {B : Type κ'} → Method E S (Unit {0}) → Method E S B → Method E S B
m >> n = m >>= λ _. n

module _ {ℓ κ} {E : Type ℓ} {S : Type κ} where
  abbrev pub self : Method E S S
  self s = (ok s, s)

  -- `self.field = value`
  abbrev pub assign : (S → S) → Method E S (Unit {0})
  assign f s = (ok tt, f s)

  -- `result?`
  abbrev pub try {κ'} : {A : Type κ'} → Result E A → Method E S A
  try r s = (r, s)

  abbrev pub return {κ'} : {A : Type κ'} → A → Method E S A
  return a s = (ok a, s)
