-- ===== src/Cogs/Moderation/Escalation.antt =====
-- src/cogs/moderation.rs: `apply_native_timeout`, `escalate` and the command `warn`.
pub mod Reset
use benny_rs.Base.{
  ℕ, ◌*◌, ◌/◌, ◌^◌, Bool, true, false, not, ◌&&◌, ◌||◌, Option, none, some, List, [], ◌∷◌, ◌++◌,
  ◌⊎◌, inl, inr, ◌==◌, if◌then◌else◌,
}
use benny_rs.Base.Int.{ℤ, pos, ◌+ℤ◌, ltb_ℤ, clamp}
use benny_rs.Base.Equality.{nat_eq}
use benny_rs.Base.Dict.{lookup}
use benny_rs.Base.Tables.{count_where, update_where}
use benny_rs.Base.Text.{Text, text, is}
use benny_rs.Base.Show.{show_ℕ}
use benny_rs.Cogs.Moderation.Store.{Key, Case, Config, Store, create_case, record_timed}
use benny_rs.Cogs.Moderation.Calls.{
  Call, kick_with_reason, ban_with_reason, disable_communication, Failure, invalid_expiry,
  call_failed, Note, escalated, escalation_failed, warned, Result, World, Database, guard, unless,
  default_reason,
}

abbrev pub max_timeout_secs : ℕ
max_timeout_secs = 28 * 24 * 60 * 60

-- `timestamp()` of a `DateTime`
abbrev pub seconds : ℕ → ℕ
seconds t = t / 10 ^ 9

-- What a punishment leaves, and what it gives or why it failed.
pub record Punishment (A : Type 0) : Type 0 where
  pub calls : List Call
  pub store : Store
  pub outcome : Failure ⊎ A

-- From the case on.
abbrev pub register_timeout :
    Database → (guild_id target_id : ℕ) (expires_ts : ℤ) → Option ℕ × Store → Option ℕ × Store
register_timeout db guild_id target_id expires_ts (case, s) = (
  case,
  record_timed db.scan_ok db.timed_ok s guild_id case target_id (text "timeout") expires_ts,
)

-- `case_ok` is whether the case reaches the database.
unfoldable pub apply_native_timeout :
    World
    → Database
    → (case_ok : Bool) → Store
    → (guild_id target_id moderator_id : ℕ) (reason : Text) (expires_ts : ℤ) → Punishment (Option ℕ)
unfolding create_case record_timed
apply_native_timeout w db case_ok s guild_id target_id moderator_id reason expires_ts =
    let call = disable_communication guild_id target_id expires_ts in
    let (case, after) = register_timeout db guild_id target_id expires_ts (
      create_case case_ok (seconds w.now) s guild_id (text "timeout") target_id moderator_id reason
        (some expires_ts)) in
    if not (w.valid_timestamp expires_ts)
    then record { calls = []; store = s; outcome = inl invalid_expiry }
    else if w.accepts call
    then record { calls = call ∷ []; store = after; outcome = inr case }
    else record { calls = call ∷ []; store = s; outcome = inl (call_failed call) }

abbrev pub escalation_reason : ℕ → Text
escalation_reason warn_count =
    text "Auto-escalation: " ++ show_ℕ warn_count ++ text " active warnings"

-- A call that is made for its effect on the member alone.
abbrev pub punish_by : World → Store → Call → (verb : Text) → Punishment Text
punish_by w s call verb = record {
  calls = call ∷ [];
  store = s;
  outcome = if w.accepts call then inr verb else inl (call_failed call);
}

abbrev pub timed_out : Punishment (Option ℕ) → Punishment Text
timed_out p = record {
  calls = p.calls;
  store = p.store;
  outcome = elim p.outcome [ inl e ↦ inl e | inr case ↦ inr (text "timed out") ];
}

abbrev pub warn_expiry : World → Config → ℤ
warn_expiry w cfg =
    pos (seconds w.now) +ℤ clamp cfg.warn_timeout_secs (pos 60) (pos max_timeout_secs)

-- The `match` on the configured action.
unfoldable pub punish_warned :
    World → Database → Store → (guild_id target_id : ℕ) → Config → (reason : Text) → Punishment Text
unfolding apply_native_timeout ◌+ℤ◌
punish_warned w db s guild_id target_id cfg reason =
    if is cfg.warn_action (text "kick")
    then punish_by w s (kick_with_reason guild_id target_id reason) (text "kicked")
    else if is cfg.warn_action (text "ban")
    then punish_by w s (ban_with_reason guild_id target_id 0 reason) (text "banned")
    else timed_out (
        apply_native_timeout w db db.escalation_case_ok s guild_id target_id w.bot_id reason
          (warn_expiry w cfg))

-- The filter on the warnings of a member, and on those that are active.
abbrev pub is_warn : (guild_id target_id : ℕ) → Key → Case → Bool
is_warn guild_id target_id key case =
    key.0 == guild_id && (case.target_id == target_id && is case.action_type (text "warn"))

abbrev pub is_active_warn : (guild_id target_id : ℕ) → Key → Case → Bool
is_active_warn guild_id target_id key case = is_warn guild_id target_id key case && case.active

abbrev pub active_warns : (guild_id target_id : ℕ) → Store → ℕ
active_warns guild_id target_id s = count_where (is_active_warn guild_id target_id) s.cases

abbrev pub deactivate : Case → Case
deactivate case = record case { active = false }

unfoldable pub reset_warns : (ok : Bool) → Store → (guild_id target_id : ℕ) → Store
reset_warns ok s guild_id target_id =
    if ok
    then record s { cases = update_where (is_warn guild_id target_id) deactivate s.cases }
    else s

-- The case of a kick or a ban; the timeout recorded its own.
abbrev pub record_escalation :
    World → Database → Store → (guild_id target_id : ℕ) → Config → (reason : Text) → Store
record_escalation w db s guild_id target_id cfg reason =
    if is cfg.warn_action (text "kick") || is cfg.warn_action (text "ban")
    then (create_case db.escalation_case_ok (seconds w.now) s guild_id cfg.warn_action target_id
        w.bot_id reason none).1
    else s

-- The `match` on the outcome.
abbrev pub after_punishment :
    World
    → Database
    → Store
    → (guild_id target_id : ℕ) → Config
    → (warn_count : ℕ) → Failure ⊎ Text
    → Store × Note
after_punishment w db s guild_id target_id cfg warn_count (inl e) =
    (s, escalation_failed warn_count e)
after_punishment w db s guild_id target_id cfg warn_count (inr verb) =
    let recorded = record_escalation w db s guild_id target_id cfg (escalation_reason warn_count) in
    (reset_warns db.update_ok recorded guild_id target_id, escalated warn_count verb)

unfoldable pub escalate :
    World
    → Database
    → Store
    → (guild_id target_id : ℕ) → Config
    → (warn_count : ℕ) → List Call × Store × Note
unfolding punish_warned reset_warns create_case show_ℕ
escalate w db s guild_id target_id cfg warn_count =
    let p = punish_warned w db s guild_id target_id cfg (escalation_reason warn_count) in
    let (store, note) = after_punishment w db p.store guild_id target_id cfg warn_count p.outcome in
    (p.calls, store, note)

-- The count of the active warnings; a failed query reads as none.
abbrev pub counted_warns : Database → Store → (guild_id target_id : ℕ) → ℕ
counted_warns db s guild_id target_id = if db.count_ok then active_warns guild_id target_id s else 0

-- Whether the policy of the guild, if it has one, is reached.
abbrev pub threshold_reached : Config → ℕ → Bool
threshold_reached cfg warns =
    ltb_ℤ (pos 0) cfg.warn_threshold && not (ltb_ℤ (pos warns) cfg.warn_threshold)

abbrev pub config_of : Database → Store → (guild_id : ℕ) → Option Config
config_of db s guild_id = if db.config_ok then lookup guild_id s.configs else none

abbrev pub escalation_result : Option ℕ → List Call × Store × Note → Result
escalation_result case (calls, s, note) = record {
  calls = calls;
  store = s;
  reply = warned case (some note);
}

abbrev pub without_escalation : Option ℕ → Store → Result
without_escalation case s = record { calls = []; store = s; reply = warned case none }

-- From the configuration on.
abbrev pub escalate_if_reached :
    World → Database → (guild_id target_id : ℕ) → Option ℕ → Store → Option Config → Result
escalate_if_reached w db guild_id target_id case s none = without_escalation case s
escalate_if_reached w db guild_id target_id case s (some cfg) =
    let warns = counted_warns db s guild_id target_id in
    if threshold_reached cfg warns
    then escalation_result case (escalate w db s guild_id target_id cfg warns)
    else without_escalation case s

-- From the case on.
abbrev pub after_warn : World → Database → (guild_id target_id : ℕ) → Option ℕ × Store → Result
after_warn w db guild_id target_id (case, s) =
    escalate_if_reached w db guild_id target_id case s (config_of db s guild_id)

unfoldable pub warn :
    World → Database → Store → (guild_id author_id target_id : ℕ) (reason : Text) → Result
unfolding guard create_case escalate default_reason
warn w db s guild_id author_id target_id reason =
    unless (guard w guild_id author_id target_id (text "warn")) s (
      after_warn w db guild_id target_id (
        create_case db.case_ok (seconds w.now) s guild_id (text "warn") target_id author_id
          (default_reason reason) none))
