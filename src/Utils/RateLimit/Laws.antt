-- ===== src/Utils/RateLimit/Laws.antt =====
-- src/utils/ratelimit.rs: the validity of a limiter, and a refusal.
use benny_rs.Base.{
  ℕ, ◌-◌, ◌≤◌, ◌<◌, ◌≡◌, some, arith, inl, inr, length, Option-cases, Bool-cases, ltb,
}
use benny_rs.Base.Equality.{Eq}
use benny_rs.Base.Dict.{lookup, Distinct}
use benny_rs.Utils.Cache.Laws.{bounded_insert-Distinct, length-bounded_insert-le}
use benny_rs.Utils.RateLimit.{RateLimiter, admit, check}

module _ {ℓ} {K : Type ℓ} ⦃e : Eq K⦄ where
  -- The map has distinct keys and respects the positive cap.
  pub record IsValid (r : RateLimiter K) : Type ℓ where
    pub distinct : Distinct r.last
    pub cap_pos : 0 < r.cap
    pub bounded : length r.last ≤ r.cap

  admit-IsValid : (r : RateLimiter K) (k : K) (t : ℕ) → IsValid r → IsValid (admit r k t).1
  unfolding admit
  admit-IsValid r k t v = record {
    distinct = bounded_insert-Distinct r.last k t r.cap v.distinct;
    cap_pos = v.cap_pos;
    bounded = length-bounded_insert-le r.last k t r.cap v.distinct v.cap_pos;
  }

  -- Where the keys of a limiter are distinct and their number is within its positive cap, check
  -- leaves them so.
  pub check-IsValid :
      (r : RateLimiter K) (k : K) (window now stamp : ℕ)
      → IsValid r
      → IsValid (check r k window now stamp).1
  unfolding check
  check-IsValid r k window now stamp v = elim (Option-cases (lookup k r.last)) [
    | inl e ↦ rw (e, check) (admit-IsValid r k stamp v)
    | inr (prev, e) ↦ elim (Bool-cases (ltb (now - prev) window)) [
      | inl soon ↦ rw (e, check, soon) v
      | inr late ↦ rw (e, check, late) (admit-IsValid r k stamp v)
    ]
  ]

  -- A key that passed less than the window ago is refused with the time that is left, and the
  -- limiter is unchanged.
  pub check_refuses :
      (r : RateLimiter K) (k : K) (window now stamp prev : ℕ)
      → lookup k r.last ≡ some prev
      → now - prev < window
      → check r k window now stamp ≡ (some (window - (now - prev)), r)
  unfolding check
  check_refuses r k window now stamp prev e h = ground arith
