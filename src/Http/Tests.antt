-- ===== src/Http/Tests.antt =====
-- The theorems on the API at concrete requests.
use benny_rs.Base.{ℕ, ◌+◌, ◌-◌, ◌≤◌, ◌≡◌, refl, true, none, some, [], ◌∷◌, arith}
use benny_rs.Base.Int.{pos}
use benny_rs.Base.Equality.{nat_eq, pair_eq}
use benny_rs.Base.Dict.{lookup}
use benny_rs.Base.Text.{text, trim, trim_start, trim_end, parse_unsigned, digits_from}
use benny_rs.Cogs.Moderation.Store.{Key, Timed, Store}
use benny_rs.Cogs.Moderation.Sweep.{RowAnswers, sweep}
use benny_rs.Http.Auth.{
  RateLimiter, Clock, allow, Request, Limiters, bearer, actor_of, auth_middleware,
}
use benny_rs.Http.Auth.Budget.{admitted, admitted-twice}
use benny_rs.Http.Auth.Order.{Entitled, passed-Entitled}
use benny_rs.State.{Prefixes}
use benny_rs.Http.Config.{prefixes_are, put_prefixes}
use benny_rs.Http.Config.Stored.{all_written, IsPut, put_prefixes-IsPut}
use benny_rs.Http.Policy.{
  WarnPolicy, bad_request, policy_is, is_refused, read_warn_policy, put_warn_policy, put_moderation,
}
use benny_rs.Http.Policy.Saved.{IsSaved, put_warn_policy-IsSaved}
use benny_rs.Http.Cases.{lift_mute}
use benny_rs.Http.Cases.Lift.{lift_mute-sweep}

-- ---- the limits ----

abbrev at_second : ℕ → Clock
at_second t = record { inserted = t; read = t; reset = t }

abbrev two_a_window : RateLimiter
two_a_window = record { window = 10; max = 2; cap = 4; hits = (0, (1, 1)) ∷ [] }

admitted-twice_example :
    admitted two_a_window 0 (at_second 9 ∷ at_second 10 ∷ at_second 11 ∷ at_second 12 ∷ [])
    ≤ 2 - 1 + 2
admitted-twice_example =
    admitted-twice two_a_window 0 9 12 1 1
      (at_second 9 ∷ at_second 10 ∷ at_second 11 ∷ at_second 12 ∷ []) refl (omega arith)
      (omega arith) (omega arith) (ground arith)

-- ---- the middleware ----

abbrev limits : Limiters
limits = record { shared = two_a_window; per_actor = record two_a_window { hits = [] } }

abbrev good : Request
good = record { authorization = some (text "Bearer key"); actor_id = some (text "7") }

abbrev bad : Request
bad = record good { authorization = some (text "Bearer lock") }

passed-Entitled_example :
    Entitled (text "key") limits (at_second 9) (at_second 9) true ((8, true) ∷ []) good 7
unfolding auth_middleware bearer actor_of allow trim trim_start trim_end parse_unsigned digits_from
passed-Entitled_example =
    passed-Entitled (text "key") limits (at_second 9) (at_second 9) true ((8, true) ∷ []) good 7
      refl

-- ---- the cases ----

abbrev banned : Timed
banned = record { user_id = 7; action = text "ban"; expires_at = pos 500 }

abbrev server : Store
server = record { cases = []; timed = ((1, 4), banned) ∷ []; configs = [] }

abbrev lifts : Key → RowAnswers
lifts key = record { config_ok = true; lift = λ c. none; delete_ok = true; update_ok = true }

lift_mute-sweep_example :
    lookup (1, 4) (sweep true 130 lifts (lift_mute true true 100 server 1 4).0).store.timed ≡ none
lift_mute-sweep_example =
    lift_mute-sweep 100 130 lifts server 1 4 banned (refl, tt) refl refl (omega arith)
      (λ key. (refl, refl, refl)) refl

-- ---- the prefixes ----

abbrev custom : Prefixes
custom = record {
  default_prefix = text "benny ";
  rows = (1, text "b!") ∷ (2, text "?") ∷ [];
  cache = (1, text "b!" ∷ []) ∷ [];
}

put_prefixes-IsPut_example :
    IsPut custom 1
      (put_prefixes true all_written custom 1 (text " long " ∷ text "$" ∷ text "$" ∷ []))
put_prefixes-IsPut_example =
    put_prefixes-IsPut true custom 1 (text " long " ∷ text "$" ∷ text "$" ∷ [])
      (λ g p ps l. ground arith)

-- What the route answers.
answered :
    (put_prefixes true all_written custom 1 (text " long " ∷ text "$" ∷ text "$" ∷ [])).1
    ≡ prefixes_are (text "$" ∷ text "long" ∷ [])
unfolding put_prefixes
answered = refl

-- ---- the policy ----

abbrev strict : WarnPolicy
strict = record { threshold = pos 3; action = text "kick"; timeout_secs = pos 60 }

put_warn_policy-IsSaved_example :
    IsSaved server 1 strict (put_warn_policy true true server 1 strict)
put_warn_policy-IsSaved_example = put_warn_policy-IsSaved true server 1 strict

-- What the route answers.
saved_answer : (put_warn_policy true true server 1 strict).1 ≡ policy_is strict
unfolding put_warn_policy is_refused read_warn_policy
saved_answer = refl

-- An id that is not a number is refused.
no_role : (put_moderation true server 1 (some (text "muted"))).1 ≡ bad_request
unfolding put_moderation
no_role = refl
