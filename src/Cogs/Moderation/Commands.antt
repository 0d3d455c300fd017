-- ===== src/Cogs/Moderation/Commands.antt =====
-- src/cogs/moderation.rs: the commands that punish a member or lift a punishment.
pub mod Guards
pub mod Failures
pub mod Lifting
pub mod Unbanned
use benny_rs.Base.{
  ℕ, ◌+◌, ◌-◌, ◌*◌, ◌/◌, ◌^◌, min, Bool, true, false, not, ◌&&◌, Option, none, some, List, [], ◌∷◌,
  inl, inr, ◌==◌, ltb, if◌then◌else◌,
}
use benny_rs.Base.Int.{ℤ, pos}
use benny_rs.Base.Text.{Text, text, is}
use benny_rs.Base.Tables.{delete_where}
use benny_rs.Cogs.Moderation.Store.{Key, Timed, Store, create_case, record_timed}
use benny_rs.Cogs.Moderation.Calls.{
  Call, kick_with_reason, ban_with_reason, unban as unban_call, enable_communication,
  add_member_role, remove_member_role, Reply, unparsed_duration, timeout_too_long, no_mute_role,
  failed, done, Result, World, Database, guard, unless, attempt, default_reason,
}
use benny_rs.Cogs.Moderation.Escalation.{
  Punishment, seconds, max_timeout_secs, apply_native_timeout, config_of,
}

-- The last steps of a command: the case is created, and the answer names it.
abbrev pub finish_with : Option ℕ × Store → Result
finish_with (case, s) = record { calls = []; store = s; reply = done case }

-- A case without an end, under the answer.
abbrev pub close_case :
    World
    → Database
    → Store
    → (guild_id : ℕ) (action_type : Text) (target_id author_id : ℕ) → (reason : Text) → Result
close_case w db s guild_id action_type target_id author_id reason =
    finish_with (
      create_case db.case_ok (seconds w.now) s guild_id action_type target_id author_id reason none)

abbrev schedule :
    Database → (guild_id target_id : ℕ) (action : Text) (expires_ts : ℤ) → Option ℕ × Store → Result
schedule db guild_id target_id action expires_ts (case, s) =
    finish_with
      (case, record_timed db.scan_ok db.timed_ok s guild_id case target_id action expires_ts)

-- A case with an end, and the row that the sweeper watches.
abbrev pub timed_case :
    World
    → Database
    → Store
    → (guild_id : ℕ) (action_type action : Text) (target_id author_id : ℕ) (reason : Text)
      (expires_ts : ℤ)
    → Result
timed_case w db s guild_id action_type action target_id author_id reason expires_ts =
    schedule db guild_id target_id action expires_ts (
      create_case db.case_ok (seconds w.now) s guild_id action_type target_id author_id reason
        (some expires_ts))

-- The filter on the scheduled rows of a member.
abbrev pub is_timed : (guild_id user_id : ℕ) (action : Text) → Key → Timed → Bool
is_timed guild_id user_id action key row =
    key.0 == guild_id && (row.user_id == user_id && is row.action action)

unfoldable pub clear_timed : (ok : Bool) → Store → (guild_id user_id : ℕ) (action : Text) → Store
clear_timed ok s guild_id user_id action =
    if ok then record s { timed = delete_where (is_timed guild_id user_id action) s.timed } else s

unfoldable pub kick :
    World → Database → Store → (guild_id author_id target_id : ℕ) (reason : Text) → Result
unfolding guard create_case default_reason
kick w db s guild_id author_id target_id given =
    let reason = default_reason given in
    unless (guard w guild_id author_id target_id (text "kick")) s (
      attempt w (kick_with_reason guild_id target_id reason) s
        (close_case w db s guild_id (text "kick") target_id author_id reason))

-- `delete_days` is 0 where none are given.
unfoldable pub ban :
    World
    → Database
    → Store
    → (guild_id author_id target_id delete_days : ℕ) (reason : Text) → Result
unfolding guard create_case default_reason
ban w db s guild_id author_id target_id delete_days given =
    let reason = default_reason given in
    unless (guard w guild_id author_id target_id (text "ban")) s (
      attempt w (ban_with_reason guild_id target_id (min delete_days 7) reason) s
        (close_case w db s guild_id (text "ban") target_id author_id reason))

unfoldable pub unban :
    World → Database → Store → (guild_id author_id target_id : ℕ) (reason : Text) → Result
unfolding clear_timed create_case default_reason
unban w db s guild_id author_id target_id given = attempt w (unban_call guild_id target_id) s (
    close_case w db (clear_timed db.delete_ok s guild_id target_id (text "ban")) guild_id
      (text "unban") target_id author_id (default_reason given))

-- `parse_when(..).filter(|dt| *dt > now)`, where `parsed` is what `parse_when` gives.
abbrev pub later : World → (parsed : Option ℕ) → Option ℕ
later w none = none
later w (some t) = if ltb w.now t then some t else none

abbrev pub with_expiry : Option ℕ → Store → (ℕ → Result) → Result
with_expiry none s rest = record { calls = []; store = s; reply = unparsed_duration }
with_expiry (some t) s rest = rest t

unfoldable pub tempban :
    World
    → Database
    → Store
    → (guild_id author_id target_id : ℕ) (parsed : Option ℕ) (reason : Text) → Result
unfolding guard create_case record_timed default_reason
tempban w db s guild_id author_id target_id parsed given =
    let reason = default_reason given in
    unless (guard w guild_id author_id target_id (text "ban")) s (
      with_expiry (later w parsed) s (λ expiry.
        attempt w (ban_with_reason guild_id target_id 0 reason) s (
          timed_case w db s guild_id (text "tempban") (text "ban") target_id author_id reason
            (pos (seconds expiry)))))

unfoldable pub softban :
    World → Database → Store → (guild_id author_id target_id : ℕ) (reason : Text) → Result
unfolding guard create_case default_reason
softban w db s guild_id author_id target_id given =
    let reason = default_reason given in
    unless (guard w guild_id author_id target_id (text "ban")) s (
      attempt w (ban_with_reason guild_id target_id 1 reason) s (
        attempt w (unban_call guild_id target_id) s
          (close_case w db s guild_id (text "softban") target_id author_id reason)))

-- The answer to the outcome of the timeout.
abbrev pub report_timeout : Punishment (Option ℕ) → Result
report_timeout p = record {
  calls = p.calls;
  store = p.store;
  reply = elim p.outcome [ inl e ↦ failed e | inr case ↦ done case ];
}

unfoldable pub timeout :
    World
    → Database
    → Store
    → (guild_id author_id target_id : ℕ) (parsed : Option ℕ) (reason : Text) → Result
unfolding guard apply_native_timeout default_reason
timeout w db s guild_id author_id target_id parsed given =
    unless (guard w guild_id author_id target_id (text "timeout")) s (
      with_expiry (later w parsed) s (λ expiry.
        if ltb max_timeout_secs (seconds (expiry - w.now))
        then record { calls = []; store = s; reply = timeout_too_long }
        else report_timeout (
            apply_native_timeout w db db.case_ok s guild_id target_id author_id
              (default_reason given) (pos (seconds expiry)))))

unfoldable pub untimeout : World → Database → Store → (guild_id author_id target_id : ℕ) → Result
unfolding clear_timed create_case
untimeout w db s guild_id author_id target_id =
    attempt w (enable_communication guild_id target_id) s (
      close_case w db (clear_timed db.delete_ok s guild_id target_id (text "timeout")) guild_id
        (text "untimeout") target_id author_id (text "Timeout removed"))

-- The Muted role on record.
abbrev pub stored_mute_role : Database → Store → (guild_id : ℕ) → Option ℕ
stored_mute_role db s guild_id = elim (config_of db s guild_id) [
  | none ↦ none
  | some cfg ↦ cfg.mute_role_id
]

abbrev pub with_mute_role : Option ℕ → Store → (ℕ → Result) → Result
with_mute_role none s rest = record { calls = []; store = s; reply = no_mute_role }
with_mute_role (some role) s rest = rest role

unfoldable pub unmute : World → Database → Store → (guild_id author_id target_id : ℕ) → Result
unfolding clear_timed create_case
unmute w db s guild_id author_id target_id =
    with_mute_role (stored_mute_role db s guild_id) s (λ role.
      attempt w (remove_member_role guild_id target_id role) s (
        close_case w db (clear_timed db.delete_ok s guild_id target_id (text "mute")) guild_id
          (text "unmute") target_id author_id (text "Unmuted")))
