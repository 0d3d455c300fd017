-- ===== src/Cogs/Moderation/Calls.antt =====
-- src/cogs/moderation.rs: what the commands ask of Discord and how they answer the moderator, with
-- the guards that stand at their start.
use benny_rs.Base.{ℕ, Bool, Option, none, some, List, [], ◌∷◌, ◌++◌, ◌==◌, if◌then◌else◌}
use benny_rs.Base.Int.{ℤ}
use benny_rs.Base.Text.{Text, text, is, trim}
use benny_rs.Cogs.Moderation.{Guild, Refusal, can_act_on}
use benny_rs.Cogs.Moderation.Store.{Store}

pub data Call : Type 0 where
  kick_with_reason : (guild_id user_id : ℕ) (reason : Text) → Call
  ban_with_reason : (guild_id user_id delete_days : ℕ) (reason : Text) → Call
  unban : (guild_id user_id : ℕ) → Call
  disable_communication : (guild_id user_id : ℕ) (until : ℤ) → Call
  enable_communication : (guild_id user_id : ℕ) → Call
  add_member_role : (guild_id user_id role_id : ℕ) → Call
  remove_member_role : (guild_id user_id role_id : ℕ) → Call
  create_role : (guild_id : ℕ) → Call
  create_permission : (channel_id role_id : ℕ) → Call

pub data Failure : Type 0 where
  invalid_expiry : Failure
  call_failed : Call → Failure

-- The note of `escalate`.
pub data Note : Type 0 where
  escalated : (warn_count : ℕ) (verb : Text) → Note
  escalation_failed : (warn_count : ℕ) → Failure → Note

pub data Reply : Type 0 where
  guarded : (message : Text) → Reply
  refused : Refusal → Reply
  unparsed_duration timeout_too_long no_mute_role case_not_found database_error : Reply
  failed : Failure → Reply
  done : (case : Option ℕ) → Reply
  warned : (case : Option ℕ) (note : Option Note) → Reply
  updated deleted : (case : ℕ) → Reply

-- What a command leaves: the calls it made, in their order, the tables, and its answer.
pub record Result : Type 0 where
  pub calls : List Call
  pub store : Store
  pub reply : Reply

-- What Discord and the clock answer during a command. `now` counts nanoseconds, as a `DateTime` does.
pub record World : Type 0 where
  pub now : ℕ
  pub bot_id : ℕ
  pub guild : Option Guild
  pub member : ℕ → Option (List ℕ)
  pub accepts : Call → Bool
  pub valid_timestamp : ℤ → Bool

-- Which statements reach the database.
pub record Database : Type 0 where
  pub config_ok : Bool
  pub count_ok : Bool
  pub case_ok : Bool
  pub escalation_case_ok : Bool
  pub scan_ok : Bool
  pub timed_ok : Bool
  pub update_ok : Bool
  pub delete_ok : Bool

unfoldable pub self_guard : (bot_id author_id target_id : ℕ) (action : Text) → Option Text
self_guard bot_id author_id target_id action =
    if target_id == author_id
    then some (
        if is action (text "ban")
        then text "You can't ban yourself idiot"
        else text "You can't " ++ action ++ text " yourself.")
    else if target_id == bot_id
    then some (
        if is action (text "ban")
        then text "After all I've done for you, you try to ban me?"
        else text "I'm not going to " ++ action ++ text " myself.")
    else none

abbrev refused_by : Option Refusal → Option Reply
refused_by none = none
refused_by (some r) = some (refused r)

abbrev guarded_by : Option Text → Option Refusal → Option Reply
guarded_by (some message) r = some (guarded message)
guarded_by none r = refused_by r

-- The two guards at the start of a command.
unfoldable pub guard : World → (guild_id author_id target_id : ℕ) (action : Text) → Option Reply
unfolding self_guard can_act_on
guard w guild_id author_id target_id action =
    guarded_by (self_guard w.bot_id author_id target_id action)
      (can_act_on w.guild w.member guild_id author_id target_id)

-- An early return.
abbrev pub unless : Option Reply → Store → Result → Result
unless none s rest = rest
unless (some r) s rest = record { calls = []; store = s; reply = r }

-- `if let Err(e) = .. { return send_error(..) }`
abbrev pub attempt : World → Call → Store → Result → Result
attempt w c s rest =
    if w.accepts c
    then record { calls = c ∷ rest.calls; store = rest.store; reply = rest.reply }
    else record { calls = c ∷ []; store = s; reply = failed (call_failed c) }

unfoldable pub default_reason : Text → Text
unfolding trim
default_reason reason = elim (trim reason) [ [] ↦ text "No reason provided." | _ ∷ _ ↦ reason ]
