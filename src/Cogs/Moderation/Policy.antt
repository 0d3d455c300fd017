-- ===== src/Cogs/Moderation/Policy.antt =====
-- src/cogs/moderation.rs: `ensure_mute_role` and the command `mute`, the warn-escalation policy, and
-- the commands on one case.
use benny_rs.Base.{
  ℕ, Bool, false, ◌&&◌, ◌||◌, Option, none, some, List, [], ◌∷◌, ◌++◌, map, ◌==◌, leb,
  if◌then◌else◌,
}
use benny_rs.Base.Int.{ℤ, pos, ltb_ℤ}
use benny_rs.Base.Equality.{nat_eq, pair_eq}
use benny_rs.Base.Dict.{lookup, insert, remove, contains_key}
use benny_rs.Base.Tables.{update_where}
use benny_rs.Base.Text.{Text, text}
use benny_rs.Cogs.Moderation.Store.{Key, Case, Config, Store, create_case, record_timed}
use benny_rs.Cogs.Moderation.Calls.{
  Call, add_member_role, create_role, create_permission, no_mute_role, case_not_found,
  database_error, updated, deleted, Result, World, Database, Reply, guard, unless, attempt,
  default_reason,
}
use benny_rs.Cogs.Moderation.Escalation.{seconds, max_timeout_secs}
use benny_rs.Cogs.Moderation.Commands.{stored_mute_role, timed_case, later, with_expiry}

-- The defaults of the columns of `mod_config` (src/migrations/mod.rs).
abbrev pub default_config : Config
default_config = record {
  mute_role_id = none;
  warn_threshold = pos 0;
  warn_action = text "timeout";
  warn_timeout_secs = pos 3600;
}

-- The row that an upsert changes: the guild's, or a new one.
abbrev pub row_of : Store → (guild_id : ℕ) → Config
row_of s guild_id = elim (lookup guild_id s.configs) [ none ↦ default_config | some cfg ↦ cfg ]

abbrev pub save_config : (ok : Bool) → Store → (guild_id : ℕ) → Config → Store
save_config ok s guild_id cfg =
    if ok then record s { configs = insert guild_id cfg s.configs } else s

-- ---- the Muted role ----

-- What Discord knows of the guild's roles and channels, where it answers, and the new role's id.
pub record GuildAnswers : Type 0 where
  pub roles : Option (List ℕ)
  pub created_role : ℕ
  pub channels : Option (List ℕ)

abbrev pub member_of : ℕ → List ℕ → Bool
member_of x [] = false
member_of x (y ∷ ys) = y == x || member_of x ys

-- `roles.contains_key`, for a role on record and the roles that were fetched.
abbrev pub still_there : Option ℕ → Option (List ℕ) → Bool
still_there none roles = false
still_there (some r) none = false
still_there (some r) (some roles) = member_of r roles

-- The role is denied in every channel that is listed.
abbrev pub deny_in : Option (List ℕ) → (role : ℕ) → List Call
deny_in none role = []
deny_in (some channels) role = map (λ c. create_permission c role) channels

pub record EnsuredRole : Type 0 where
  pub calls : List Call
  pub store : Store
  pub role : Option ℕ

unfoldable pub ensure_mute_role :
    World → Database → GuildAnswers → Store → (guild_id : ℕ) → EnsuredRole
ensure_mute_role w db g s guild_id =
    let stored = stored_mute_role db s guild_id in
    let cfg = row_of s guild_id in
    let call = create_role guild_id in
    if still_there stored g.roles
    then record { calls = []; store = s; role = stored }
    else if w.accepts call
    then record {
      calls = call ∷ deny_in g.channels g.created_role;
      store =
          save_config db.update_ok s guild_id (record cfg { mute_role_id = some g.created_role });
      role = some g.created_role;
    }
    else record { calls = call ∷ []; store = s; role = none }

-- From the role on.
abbrev pub mute_by :
    World
    → Database
    → (guild_id author_id target_id : ℕ) (reason : Text) (expires_ts : ℤ)
    → (role : Option ℕ) (before : List Call) → Store
    → Result
mute_by w db guild_id author_id target_id reason expires_ts none before s = record {
  calls = before;
  store = s;
  reply = no_mute_role;
}
mute_by w db guild_id author_id target_id reason expires_ts (some role) before s =
    let r = attempt w (add_member_role guild_id target_id role) s (
      timed_case w db s guild_id (text "mute") (text "mute") target_id author_id reason
        expires_ts) in
    record { calls = before ++ r.calls; store = r.store; reply = r.reply }

unfoldable pub mute :
    World
    → Database
    → GuildAnswers
    → Store
    → (guild_id author_id target_id : ℕ) (parsed : Option ℕ) (reason : Text) → Result
unfolding guard ensure_mute_role create_case record_timed default_reason
mute w db g s guild_id author_id target_id parsed given =
    unless (guard w guild_id author_id target_id (text "mute")) s (
      with_expiry (later w parsed) s (λ expiry.
        let ensured = ensure_mute_role w db g s guild_id in
        mute_by w db guild_id author_id target_id (default_reason given) (pos (seconds expiry))
          ensured.role ensured.calls ensured.store))

-- ---- one case ----

-- The statement fails, changes no row, or changes the case.
abbrev pub answer_case :
    (ok found : Bool) → Store → (changed : Store) → (number : ℕ) → Reply → Result
answer_case ok found s changed number reply =
    if ok
    then (if found
        then record { calls = []; store = changed; reply = reply }
        else record { calls = []; store = s; reply = case_not_found })
    else record { calls = []; store = s; reply = database_error }

abbrev pub is_case : (guild_id number : ℕ) → Key → Case → Bool
is_case guild_id number key case = key.0 == guild_id && key.1 == number

unfoldable pub reason : Database → Store → (guild_id number : ℕ) → Text → Result
reason db s guild_id number given =
    answer_case db.update_ok (contains_key (guild_id, number) s.cases) s
      (record s {
        cases = update_where (is_case guild_id number) (λ c. record c { reason = given }) s.cases;
      })
      number (updated number)

-- `timed_ok` is whether the second statement reaches the database.
unfoldable pub delcase : Database → Store → (guild_id number : ℕ) → Result
delcase db s guild_id number =
    let timed = if db.timed_ok then remove (guild_id, number) s.timed else s.timed in
    answer_case db.delete_ok (contains_key (guild_id, number) s.cases) s
      (record s { cases = remove (guild_id, number) s.cases; timed = timed }) number
      (deleted number)

-- ---- the policy ----

pub data WarnAction : Type 0 where
  timeout_member kick_member ban_member : WarnAction

abbrev pub as_str : WarnAction → Text
as_str timeout_member = text "timeout"
as_str kick_member = text "kick"
as_str ban_member = text "ban"

-- `duration` is the text's length in seconds as `parse_duration` gives it, where one is given.
abbrev pub policy_secs : Option (Option ℕ) → Option ℕ
policy_secs none = some 3600
policy_secs (some none) = none
policy_secs (some (some secs)) = some (if leb secs max_timeout_secs then secs else max_timeout_secs)

abbrev pub set_policy : Config → (threshold : ℤ) (action : Text) (timeout_secs : ℤ) → Config
set_policy cfg threshold action timeout_secs = record cfg {
  warn_threshold = threshold;
  warn_action = action;
  warn_timeout_secs = timeout_secs;
}

pub data PolicyReply : Type 0 where
  bad_duration not_saved disabled : PolicyReply
  policy : (action : Text) (threshold timeout_secs : ℤ) → PolicyReply

-- From the seconds on.
abbrev pub save_policy :
    Database → Store → (guild_id : ℕ) (threshold : ℤ) → WarnAction → Option ℕ → Store × PolicyReply
save_policy db s guild_id threshold action none = (s, bad_duration)
save_policy db s guild_id threshold action (some secs) = (
  save_config db.update_ok s guild_id
      (set_policy (row_of s guild_id) threshold (as_str action) (pos secs)),
  if db.update_ok then policy (as_str action) threshold (pos secs) else not_saved,
)

unfoldable pub warnings_set :
    Database
    → Store
    → (guild_id : ℕ) (threshold : ℤ) → WarnAction
    → Option (Option ℕ)
    → Store × PolicyReply
warnings_set db s guild_id threshold action duration =
    save_policy db s guild_id threshold action (policy_secs duration)

abbrev pub is_guild : (guild_id : ℕ) → ℕ → Config → Bool
is_guild guild_id key cfg = key == guild_id

unfoldable pub warnings_off : Database → Store → (guild_id : ℕ) → Store
warnings_off db s guild_id =
    if db.update_ok
    then record s {
      configs =
          update_where (is_guild guild_id) (λ cfg. record cfg { warn_threshold = pos 0 }) s.configs;
    }
    else s

-- The policy of a configuration, as `warnings_show` puts it.
abbrev pub shown : Option Config → PolicyReply
shown none = disabled
shown (some cfg) =
    if ltb_ℤ (pos 0) cfg.warn_threshold
    then policy cfg.warn_action cfg.warn_threshold cfg.warn_timeout_secs
    else disabled

unfoldable pub warnings_show : (ok : Bool) → Store → (guild_id : ℕ) → PolicyReply
warnings_show ok s guild_id = shown (if ok then lookup guild_id s.configs else none)
