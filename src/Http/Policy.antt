-- ===== src/Http/Policy.antt =====
-- src/http/v1/config.rs: the routes of the warn-escalation policy and of the mute role, over the
-- configurations of moderation; src/http/v1/mod.rs: the ids of a body.
pub mod Saved
use benny_rs.Base.{
  ℕ, ◌^◌, Bool, true, false, not, ◌&&◌, ◌||◌, Option, none, some, List, [], ◌∷◌, if◌then◌else◌,
}
use benny_rs.Base.Int.{ℤ, pos, ltb_ℤ}
use benny_rs.Base.Equality.{nat_eq}
use benny_rs.Base.Dict.{lookup}
use benny_rs.Base.Text.{Text, text, trim, parse_unsigned}
use benny_rs.Base.Show.{show_ℕ}
use benny_rs.State.{has, is_empty}
use benny_rs.Cogs.Moderation.Store.{Config, Store}
use benny_rs.Cogs.Moderation.Policy.{row_of, save_config, set_policy}

abbrev pub max_warn_threshold : ℕ
max_warn_threshold = 50

abbrev pub warn_actions : List Text
warn_actions = text "timeout" ∷ text "kick" ∷ text "ban" ∷ []

abbrev pub max_timeout_secs : ℕ
max_timeout_secs = 2419200

pub record WarnPolicy : Type 0 where
  pub threshold : ℤ
  pub action : Text
  pub timeout_secs : ℤ

pub data Answer : Type 0 where
  bad_request internal : Answer
  policy_is : WarnPolicy → Answer
  mute_role_is : Option Text → Answer

-- `(low..=high).contains(..)`
abbrev pub within : (low high : ℕ) → ℤ → Bool
within low high z = not (ltb_ℤ z (pos low)) && not (ltb_ℤ (pos high) z)

abbrev pub policy_of : Option Config → WarnPolicy
policy_of none = record { threshold = pos 0; action = text "timeout"; timeout_secs = pos 3600 }
policy_of (some cfg) = record {
  threshold = cfg.warn_threshold;
  action = cfg.warn_action;
  timeout_secs = cfg.warn_timeout_secs;
}

unfoldable pub read_warn_policy : (ok : Bool) → Store → (gid : ℕ) → Answer
read_warn_policy ok s gid = if ok then policy_is (policy_of (lookup gid s.configs)) else internal

-- The three tests that refuse a body.
unfoldable pub is_refused : WarnPolicy → Bool
is_refused body =
    not (within 0 max_warn_threshold body.threshold)
    || not (has body.action warn_actions)
    || not (within 1 max_timeout_secs body.timeout_secs)

unfoldable pub put_warn_policy :
    (write_ok read_ok : Bool) → Store → (gid : ℕ) → WarnPolicy → Store × Answer
unfolding is_refused read_warn_policy
put_warn_policy write_ok read_ok s gid body =
    if is_refused body
    then (s, bad_request)
    else if not write_ok
    then (s, internal)
    else (let s' =
          save_config true s gid
            (set_policy (row_of s gid) body.threshold body.action body.timeout_secs) in
        (s', read_warn_policy read_ok s' gid))

-- ---- the mute role ----

abbrev pub parsed : Option ℕ → Option (Option ℕ)
parsed none = none
parsed (some id) = some (some id)

-- An id is kept as the unsigned number that the cast to `i64` and back gives.
abbrev pub parse_id : Text → Option ℕ
parse_id s = parse_unsigned (2 ^ 64) (trim s)

unfoldable pub parse_opt_id : Option Text → Option (Option ℕ)
unfolding trim parse_unsigned
parse_opt_id none = some none
parse_opt_id (some v) = if is_empty (trim v) then some none else parsed (parse_id v)

abbrev pub opt_id_to_string : Option ℕ → Option Text
opt_id_to_string none = none
opt_id_to_string (some id) = some (show_ℕ id)

-- From the id on; `none` is one that is not read.
abbrev pub put_role : (write_ok : Bool) → Store → (gid : ℕ) → Option (Option ℕ) → Store × Answer
put_role write_ok s gid none = (s, bad_request)
put_role write_ok s gid (some role) =
    if write_ok
    then (
      save_config true s gid (record (row_of s gid) { mute_role_id = role }),
      mute_role_is (opt_id_to_string role),
    )
    else (s, internal)

unfoldable pub put_moderation :
    (write_ok : Bool) → Store → (gid : ℕ) → (mute_role_id : Option Text) → Store × Answer
unfolding parse_opt_id show_ℕ
put_moderation write_ok s gid mute_role_id = put_role write_ok s gid (parse_opt_id mute_role_id)
