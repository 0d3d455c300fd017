-- ===== src/Utils/Tests.antt =====
-- The theorems on the shared helpers at concrete maps and calls.
use benny_rs.Base.{ℕ, ◌≤◌, refl, some, List, [], ◌∷◌, arith, length}
use benny_rs.Base.Equality.{nat_eq}
use benny_rs.Base.Dict.{Distinct}
use benny_rs.Utils.Cache.{bounded_insert}
use benny_rs.Utils.Cache.Laws.{length-bounded_insert-le}
use benny_rs.Utils.Roles.{Role}
use benny_rs.Utils.RateLimit.{RateLimiter}
use benny_rs.Utils.RateLimit.Laws.{IsValid}
use benny_rs.Utils.RateLimit.Spacing.{SpacedAfter, admissions, admissions-SpacedAfter}

abbrev two_sessions : List (ℕ × ℕ)
two_sessions = (1, 10) ∷ (2, 20) ∷ []

abbrev throttle : RateLimiter ℕ
throttle = record { last = two_sessions; cap = 5 }

abbrev two_sessions-Distinct : Distinct two_sessions
two_sessions-Distinct = (refl, (refl, tt))

abbrev throttle-IsValid : IsValid throttle
throttle-IsValid = record {
  distinct = two_sessions-Distinct;
  cap_pos = omega arith;
  bounded = omega arith;
}

length-bounded_insert-le_example : length (bounded_insert two_sessions 3 30 2) ≤ 2
length-bounded_insert-le_example =
    length-bounded_insert-le two_sessions 3 30 2 two_sessions-Distinct (omega arith)

admissions-SpacedAfter_example :
    SpacedAfter 100 (some 10) (admissions throttle 100 1 ((1, 120) ∷ (3, 130) ∷ (1, 150) ∷ []))
admissions-SpacedAfter_example =
    admissions-SpacedAfter throttle 100 1 ((1, 120) ∷ (3, 130) ∷ (1, 150) ∷ []) (omega arith)
      (omega arith)

abbrev two_roles : List (ℕ × Role)
two_roles = (1, record { id = 1; position = 0 }) ∷ (7, record { id = 7; position = 3 }) ∷ []
