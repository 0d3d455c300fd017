-- ===== src/Utils/RateLimit/Since.antt =====
-- src/utils/ratelimit.rs, `check`: the record of a key as long as there is room.
use benny_rs.Base.{
  ℕ, suc, ◌+◌, ◌-◌, ◌≤◌, Option, none, some, length, ltb, if◌then◌else◌, Bool-cases, inl, inr,
}
use benny_rs.Base.Equality.{Eq}
use benny_rs.Base.Dict.{lookup}
use benny_rs.Utils.Cache.{bounded_insert}
use benny_rs.Utils.Cache.Since.{Since, bounded_insert-Since, bounded_insert-Since_new, Since-less}
use benny_rs.Utils.RateLimit.{RateLimiter, check, admit}

module _ {ℓ} {K : Type ℓ} ⦃e : Eq K⦄ where
  -- A call that is refused leaves the limiter, and one that passes is put down.
  pub data Throttled (r : RateLimiter K) (k : K) (stamp n : ℕ)
      : Option ℕ × RateLimiter K → Type ℓ where
    refused : (wait : ℕ) → Throttled r k stamp n (some wait, r)
    put_down :
        (r' : RateLimiter K) → Since k stamp n r'.cap r'.last → Throttled r k stamp n (none, r')

  pub check-Throttled :
      (r : RateLimiter K) (k : K) (window now stamp n : ℕ)
      → length r.last + suc n ≤ r.cap
      → Throttled r k stamp n (check r k window now stamp)
  unfolding check admit
  check-Throttled r k window now stamp n room = split (lookup k r.last)
    where
      passed : Throttled r k stamp n (admit r k stamp)
      passed =
          put_down (record r { last = bounded_insert r.last k stamp r.cap })
            (bounded_insert-Since_new k n r.cap stamp r.last room)

      split :
          (o : Option ℕ)
          → Throttled r k stamp n (elim o as (λ _. Option ℕ × RateLimiter K) [
            | some prev ↦
                if ltb (now - prev) window
                then (some (window - (now - prev)), r)
                else admit r k stamp
            | none ↦ admit r k stamp
          ])
      split none = passed
      split (some prev) = elim (Bool-cases (ltb (now - prev) window)) [
        | inl soon ↦ rw soon (refused (window - (now - prev)))
        | inr late ↦ rw late passed
      ]

  -- The record of a key outlives a call for any.
  pub check-Since :
      (r : RateLimiter K) (k j : K) (window now low stamp n : ℕ)
      → low ≤ stamp
      → Since k low (suc n) r.cap r.last
      → let r' = (check r j window now stamp).1 in Since k low n r'.cap r'.last
  unfolding check admit
  check-Since r k j window now low stamp n h s = split (lookup j r.last)
    where
      kept : Since k low n r.cap (bounded_insert r.last j stamp r.cap)
      kept = bounded_insert-Since k j low n r.cap stamp r.last h s

      split :
          (o : Option ℕ)
          → let r' =
              (elim o as (λ _. Option ℕ × RateLimiter K) [
                | some prev ↦
                    if ltb (now - prev) window
                    then (some (window - (now - prev)), r)
                    else admit r j stamp
                | none ↦ admit r j stamp
              ]).1 in
            Since k low n r'.cap r'.last
      split none = kept
      split (some prev) = elim (Bool-cases (ltb (now - prev) window)) [
        | inl soon ↦ rw soon (Since-less k low n r.cap r.last s)
        | inr late ↦ rw late kept
      ]
