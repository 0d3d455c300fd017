-- ===== src/Utils/RateLimit.antt =====
-- src/utils/ratelimit.rs: the throttle of component, modal and passive handlers. An `Instant` and a
-- `Duration` are numbers of one unit of time, and the clock's readings are arguments.
pub mod Laws
pub mod Since
pub mod Spacing
use benny_rs.Base.{ℕ, ◌-◌, List, [], Option, none, some, ltb, if◌then◌else◌}
use benny_rs.Base.Equality.{Eq}
use benny_rs.Base.Dict.{lookup}
use benny_rs.Utils.Cache.{bounded_insert}

pub record RateLimiter {ℓ} (K : Type ℓ) : Type ℓ where
  pub last : List (K × ℕ)
  pub cap : ℕ

-- `RateLimiter::new`
abbrev pub empty {ℓ} : {K : Type ℓ} → ℕ → RateLimiter K
empty cap = record { last = []; cap = cap }

module _ {ℓ} {K : Type ℓ} ⦃e : Eq K⦄ where
  -- The call that passes: the time is recorded, read a second time.
  unfoldable pub admit : RateLimiter K → K → ℕ → Option ℕ × RateLimiter K
  admit r key stamp = (none, record r { last = bounded_insert r.last key stamp r.cap })

  -- `now` is the clock at `prev.elapsed()`, `stamp` the clock at `Instant::now()`.
  unfoldable pub check : RateLimiter K → K → ℕ → ℕ → ℕ → Option ℕ × RateLimiter K
  unfolding admit
  check r key window now stamp = elim (lookup key r.last) [
    | some prev ↦
        let elapsed = now - prev in
        if ltb elapsed window then (some (window - elapsed), r) else admit r key stamp
    | none ↦ admit r key stamp
  ]
