-- ===== src/Core/Guards/Deadline.antt =====
-- When a reservation ends.
use resolve.Base.{ℕ, ◌+◌, ◌<◌, ◌≡◌, ◌↔◌, ok, arith, min}
use resolve.Base.Int.{u64_mod}
use resolve.Core.Guards.{reservation_deadline}

-- A deadline is given exactly when the lease is live and `now + ttl` fits in 64 bits, and is then
-- the earlier of that sum and the end of the lease.
pub reservation_deadline-eq-ok :
    (now ttl lease d : ℕ)
    → (reservation_deadline now ttl lease ≡ ok d)
      ↔ ((now < lease) × (now + ttl < u64_mod) × (d ≡ min (now + ttl) lease))
unfolding reservation_deadline
reservation_deadline-eq-ok now ttl lease d = ground arith
