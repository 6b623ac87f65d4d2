-- ===== src/Core/Equality.antt =====
-- `derive(PartialEq, Eq)` for the types that the code compares.
use resolve.Base.{ℕ, DecEq, ℕ_discrete}
use resolve.Core.Types.{IdKind, Identifier, TethersPreparationDigest, Prerequisite, TethersOutcome}

unfoldable pub Identifier-discrete : (k : IdKind) → Discrete (Identifier k)
Identifier-discrete k = hlevel ℕ_discrete

unfoldable pub Digest-discrete : Discrete TethersPreparationDigest
Digest-discrete = hlevel ℕ_discrete

unfoldable pub Prerequisite-discrete : Discrete Prerequisite
Prerequisite-discrete = hlevel ℕ_discrete

unfoldable pub Outcome-discrete : Discrete TethersOutcome
Outcome-discrete = hlevel ℕ_discrete

instance abbrev pub nat_eq : DecEq ℕ
nat_eq = record { decide_eq = ℕ_discrete }

instance abbrev pub identifier_eq : {k : IdKind} → DecEq (Identifier k)
identifier_eq {k} = record { decide_eq = Identifier-discrete k }

instance abbrev pub prerequisite_eq : DecEq Prerequisite
prerequisite_eq = record { decide_eq = Prerequisite-discrete }

instance abbrev pub digest_eq : DecEq TethersPreparationDigest
digest_eq = record { decide_eq = Digest-discrete }

instance abbrev pub outcome_eq : DecEq TethersOutcome
outcome_eq = record { decide_eq = Outcome-discrete }
