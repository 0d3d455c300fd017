-- ===== src/Http/Policy/Saved.antt =====
-- src/http/v1/config.rs, `put_warn_policy` and `put_moderation`: what the cog reads afterwards.
use benny_rs.Base.{
  ℕ, ◌≡◌, refl, ◌∙◌, Bool, true, false, not, ◌||◌, Option, none, some, arith, Bool-cases, inl, inr,
  ==_iff,
}
use benny_rs.Base.Equality.{nat_eq}
use benny_rs.Base.Dict.{lookup, insert, lookup-insert}
use benny_rs.Base.Text.{Text}
use benny_rs.State.{has}
use benny_rs.Cogs.Moderation.Store.{Config, Store}
use benny_rs.Cogs.Moderation.Policy.{default_config, row_of, set_policy, shown, warnings_show}
use benny_rs.Http.Policy.{
  max_warn_threshold, warn_actions, max_timeout_secs, WarnPolicy, Answer, bad_request, internal,
  policy_is, mute_role_is, within, is_refused, read_warn_policy, put_warn_policy, parse_opt_id,
  put_role, put_moderation,
}

saved : (s : Store) (g : ℕ) (cfg : Config) → lookup g (insert g cfg s.configs) ≡ some cfg
saved s g cfg = lookup-insert g g cfg s.configs ∙ rw ((==_iff g g).1 refl) refl

-- The commands show the policy of the body, whose values are in range, and the mute role is kept.
abbrev pub IsSaved : Store → (gid : ℕ) → WarnPolicy → Store × Answer → Type 0
IsSaved s g body (s', policy_is p) =
    (p ≡ body)
    × (warnings_show true s' g
        ≡ shown (some (set_policy (row_of s g) body.threshold body.action body.timeout_secs)))
    × ((row_of s' g).mute_role_id ≡ (row_of s g).mute_role_id)
    × (within 0 max_warn_threshold body.threshold ≡ true)
    × (has body.action warn_actions ≡ true)
    × (within 1 max_timeout_secs body.timeout_secs ≡ true)
IsSaved s g body (s', mute_role_is role) = ⊥
IsSaved s g body (s', internal) = s' ≡ s
IsSaved s g body (s', bad_request) = s' ≡ s

three : (a b c : Bool) → (not a || not b || not c) ≡ false → (a ≡ true) × (b ≡ true) × (c ≡ true)
three a b c h = ground arith

in_range :
    (body : WarnPolicy)
    → is_refused body ≡ false
    → (within 0 max_warn_threshold body.threshold ≡ true)
      × (has body.action warn_actions ≡ true)
      × (within 1 max_timeout_secs body.timeout_secs ≡ true)
unfolding is_refused
in_range body h =
    three (within 0 max_warn_threshold body.threshold) (has body.action warn_actions)
      (within 1 max_timeout_secs body.timeout_secs) h

-- Where the row is read again, a put of the warn policy that answers with a policy gives the
-- body's, with values in range, which the command then shows of the guild, and keeps the mute
-- role; else it changes nothing.
pub put_warn_policy-IsSaved :
    (write_ok : Bool) (s : Store) (g : ℕ) (body : WarnPolicy)
    → IsSaved s g body (put_warn_policy write_ok true s g body)
unfolding put_warn_policy warnings_show read_warn_policy
put_warn_policy-IsSaved write_ok s g body = elim (Bool-cases (is_refused body)) [
  | inl e ↦ rw e refl
  | inr e ↦ elim (Bool-cases (not write_ok)) [
    | inl w ↦ rw (e, w) refl
    | inr w ↦
        let cfg = set_policy (row_of s g) body.threshold body.action body.timeout_secs in
        let found = saved s g cfg in
        let (low, known, secs) = in_range body e in
        rw (e, w) (rw found refl, rw found refl, rw (row_of, found) refl, low, known, secs)
  ]
]

shown_role :
    (role : Option ℕ) (o : Option Config)
    → shown
        (some (record (elim o [ none ↦ default_config | some cfg ↦ cfg ]) { mute_role_id = role }))
      ≡ shown o
shown_role role none = refl
shown_role role (some cfg) = refl

put_role-shown :
    (write_ok : Bool) (s : Store) (g : ℕ) (o : Option (Option ℕ))
    → shown (lookup g (put_role write_ok s g o).0.configs) ≡ shown (lookup g s.configs)
put_role-shown write_ok s g none = refl
put_role-shown false s g (some role) = refl
put_role-shown true s g (some role) =
    let cfg : Config = record (row_of s g) { mute_role_id = role } in
    rw (saved s g cfg) (shown_role role (lookup g s.configs))

-- A put of the mute role leaves the policy that the command shows.
pub put_moderation-warnings_show :
    (write_ok : Bool) (s : Store) (g : ℕ) (role : Option Text)
    → warnings_show true (put_moderation write_ok s g role).0 g ≡ warnings_show true s g
unfolding put_moderation warnings_show
put_moderation-warnings_show write_ok s g role = put_role-shown write_ok s g (parse_opt_id role)
