-- ===== src/Core/Numbers.antt =====
-- `GoalRevision`, `ClaimEpoch`, `MonotonicInstant`, `BootGeneration` (domain.rs) and
-- `MonotonicDuration` (guards.rs): `u64` counters that refuse to wrap.
use resolve.Base.{ℕ, ◌+◌, Option, some, none, ok, err, if◌then◌else◌, ltb, ok_or, ◌==◌}
use resolve.Base.Int.{ℤ, u64_mod, is_positive, is_nonneg, as_u64}
use resolve.Core.Types.{
  GoalRevision, ClaimEpoch, MonotonicInstant, MonotonicDuration, BootGeneration,
}
use resolve.Core.Error.{
  Domain, invalid_numeric_value, revision_exhausted, epoch_exhausted, invalid_duration,
  time_overflow,
}

-- `a.checked_add(b)` on `u64`
abbrev pub checked_add : ℕ → ℕ → Option ℕ
checked_add a b = if ltb (a + b) u64_mod then some (a + b) else none

abbrev pub initial : ℕ
initial = 1

unfoldable pub next_revision : GoalRevision → Domain GoalRevision
next_revision r = ok_or (checked_add r 1) revision_exhausted

unfoldable pub next_epoch : ClaimEpoch → Domain ClaimEpoch
next_epoch e = ok_or (checked_add e 1) epoch_exhausted

unfoldable pub claim_epoch_try_from_raw : ℤ → Domain ClaimEpoch
claim_epoch_try_from_raw value =
    if is_positive value then ok (as_u64 value) else err (invalid_numeric_value "claim epoch")

unfoldable pub instant_try_from_raw : ℤ → Domain MonotonicInstant
instant_try_from_raw value =
    if is_nonneg value then ok (as_u64 value) else err (invalid_numeric_value "monotonic instant")

unfoldable pub boot_try_from_raw : ℤ → Domain BootGeneration
boot_try_from_raw value =
    if is_nonneg value then ok (as_u64 value) else err (invalid_numeric_value "boot generation")

unfoldable pub duration_try_from_ticks : ℕ → Domain MonotonicDuration
duration_try_from_ticks value = if value == 0 then err invalid_duration else ok value

unfoldable pub deadline_from : MonotonicDuration → MonotonicInstant → Domain MonotonicInstant
deadline_from d now = ok_or (checked_add now d) time_overflow
