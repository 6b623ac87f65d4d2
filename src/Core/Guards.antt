-- ===== src/Core/Guards.antt =====
-- crates/resolve-core/src/guards.rs: scope sets, guards and their reservation deadline. The
-- durations stand in `Core/Numbers.antt`.
pub mod Scopes
pub mod Deadline
use resolve.Base.{
  DecEq, ℕ_discrete, ℕ, ◌≡◌, Bool, List, [], ◌∷◌, Option, some, none, Result, ok, err, min, reject,
  leb, is_empty, ap, ◌>>=◌, ◌>>◌,
}
use resolve.Base.Order.{Ord, text_lt, text_lt_irrefl, text_lt_trans, text_lt_total}
use resolve.Base.Canonical.{canonicalize}
use resolve.Core.Types.{
  IdKind, Identifier, GuardId, CommitmentId, ClaimEpoch, BootGeneration, MonotonicInstant,
  MonotonicDuration, TethersActionRef, TethersOutcome, ScopeKey,
}
use resolve.Core.Equality.{identifier_eq}
use resolve.Core.Error.{Domain, empty_scope_set, invalid_lease_deadline}
use resolve.Core.Numbers.{deadline_from}

pub identifier_lt_total :
    {k : IdKind} (a b : Identifier k)
    → text_lt a.value b.value ≡ Bool.false
    → text_lt b.value a.value ≡ Bool.false
    → a ≡ b
identifier_lt_total a b p q = λ i. record { value = text_lt_total a.value b.value p q i }

-- `derive(PartialOrd, Ord)` on an identifier.
instance abbrev pub identifier_ord : {k : IdKind} → Ord (Identifier k)
identifier_ord = record {
  lt = λ a b. text_lt a.value b.value;
  lt_irrefl = λ a. text_lt_irrefl a.value;
  lt_trans = λ a b c. text_lt_trans a.value b.value c.value;
  lt_total = identifier_lt_total;
}

-- A validated, canonical, non-empty set of exact opaque scope keys.
pub record ScopeSet : Type 0 where
  pub keys : List ScopeKey

abbrev pub canonicalize_scope_keys : List ScopeKey → List ScopeKey
canonicalize_scope_keys scope_keys = canonicalize scope_keys

unfoldable pub scope_set_try_new : List ScopeKey → Domain ScopeSet
scope_set_try_new [] = err empty_scope_set
scope_set_try_new (k ∷ ks) = ok (record { keys = canonicalize_scope_keys (k ∷ ks) })

unfoldable pub ScopeSet-discrete : Discrete ScopeSet
ScopeSet-discrete = hlevel ℕ_discrete

instance abbrev pub scope_set_eq : DecEq ScopeSet
scope_set_eq = record { decide_eq = ScopeSet-discrete }

pub data GuardState : Type 0 where
  issued : GuardState
  admitted : TethersActionRef → GuardState
  resolved : TethersActionRef → TethersOutcome → GuardState
  uncertain_guard : TethersActionRef → GuardState
  invalidated : GuardState

pub record ExecutionGuard : Type 0 where
  pub guard_id : GuardId
  pub commitment_id : CommitmentId
  pub claim_epoch : ClaimEpoch
  pub scope_set : ScopeSet
  pub boot_generation : BootGeneration
  pub state : GuardState
  pub reservation_expires_at : MonotonicInstant

unfoldable pub issue :
    GuardId
    → CommitmentId
    → ClaimEpoch
    → ScopeSet
    → BootGeneration
    → MonotonicInstant
    → ExecutionGuard
issue guard_id commitment_id claim_epoch scope_set boot_generation reservation_expires_at = record {
  guard_id = guard_id;
  commitment_id = commitment_id;
  claim_epoch = claim_epoch;
  scope_set = scope_set;
  boot_generation = boot_generation;
  state = issued;
  reservation_expires_at = reservation_expires_at;
}

unfoldable pub reservation_deadline :
    MonotonicInstant → MonotonicDuration → MonotonicInstant → Domain MonotonicInstant
unfolding deadline_from
reservation_deadline now guard_ttl claim_lease_deadline = do
  reject (leb claim_lease_deadline now) invalid_lease_deadline
  guard_deadline ← deadline_from guard_ttl now
  ok (min guard_deadline claim_lease_deadline)
