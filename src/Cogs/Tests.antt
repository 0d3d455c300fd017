-- ===== src/Cogs/Tests.antt =====
-- The theorems on the cogs at concrete numbers.
use benny_rs.Base.{◌+◌, ◌≡◌, [], ◌∷◌, arith}
use benny_rs.Base.Int.{pos, wrap_i64}
use benny_rs.Base.{ℕ, refl, true, false, some, List, ◌++◌}
use benny_rs.Base.Text.{text}
use benny_rs.Cogs.Automod.{Config, is_spamming}
use benny_rs.Cogs.Automod.Window.{recent, window_after, window_after-recent}
use benny_rs.Cogs.Automod.Spam.{spam_history, verdict, is_spamming-recent}
use benny_rs.Cogs.Automod.Handlers.{Automod, Message, Answers}
use benny_rs.Base.Equality.{nat_eq}
use benny_rs.Base.{Option, ◌==◌, if◌then◌else◌}
use benny_rs.Utils.Roles.{top_role, rank_le}
use benny_rs.Cogs.Moderation.{Guild, above_or_equal, can_act_on}
use benny_rs.Cogs.Moderation.Hierarchy.{can_act_on_strict}
use benny_rs.Base.{ltb, map}
use benny_rs.Cogs.Levels
use benny_rs.Cogs.Levels.{
  announce_level, add_role, announced, xp_for_level, level_from_xp, award_xp,
}
use benny_rs.Cogs.Levels.Curve.{xp_below, level_from_xp-xp_below}
use benny_rs.Cogs.Levels.Rewards.{crossed, award_xp-crossed}

level_from_xp-xp_below_example : level_from_xp (pos (xp_below 2 + 45)) ≡ (2, pos 45, xp_for_level 2)
level_from_xp-xp_below_example = level_from_xp-xp_below 2 45 (unfold xp_for_level in omega arith)

abbrev loud : Levels.Config
loud = record { announce = true; levelup_channel_id = some 4 }

award_xp-crossed_example : award_xp true loud (pos 90) (pos 20) ((1, 77) ∷ (5, 88) ∷ []) ≡ (
  some (pos (90 + 20)),
  (if ltb (level_from_xp (pos 90)).0 (level_from_xp (pos (90 + 20))).0
        then announced loud (level_from_xp (pos (90 + 20))).0
        else [])
      ++ map add_role (crossed 90 (90 + 20) ((1, 77) ∷ (5, 88) ∷ [])),
)
award_xp-crossed_example = award_xp-crossed true loud 90 20 ((1, 77) ∷ (5, 88) ∷ []) (omega arith)

-- The message is answered by the announcement and the first role.
awarded :
    award_xp true loud (pos 90) (pos 20) ((1, 77) ∷ (5, 88) ∷ [])
    ≡ (some (pos 110), announce_level (some 4) 1 ∷ add_role 77 ∷ [])
unfolding award_xp wrap_i64
awarded = refl

-- ---- automod ----

abbrev strict : Config
strict = record {
  enabled = true;
  log_channel_id = some (pos 9);
  anti_invite = true;
  anti_link = false;
  mention_limit = pos 8;
  spam_msgs = pos 2;
  spam_secs = pos 5;
  punishment = text "timeout";
  timeout_secs = pos 10;
  raid_enabled = true;
  raid_joins = pos 2;
  raid_secs = pos 30;
  min_account_age_days = pos 0;
  raid_action = text "alert";
}

abbrev answers : Answers
answers = record {
  now = 100;
  instant = 5;
  stamp = 6;
  is_staff = true;
  timeout_ok = true;
  kick_ok = true;
}

abbrev guarded : Automod
guarded = record {
  configs = (1, strict) ∷ [];
  messages = [];
  joins = [];
  punish_limiter = record { last = ((1, 2), 3) ∷ []; cap = 10 };
  raid_limiter = record { last = []; cap = 10 };
}

abbrev invite : Message
invite = record {
  guild_id = some 1;
  author = 2;
  content = text "join discord.gg/x";
  mentions = 0;
  mention_roles = 0;
}

abbrev chatter : List ((ℕ × ℕ) × ℕ)
chatter = ((1, 2), 90) ∷ ((1, 3), 95) ∷ ((1, 2), 97) ∷ []

window_after-recent_example :
    window_after (pos 5) (recent 3 5 (1 ∷ 3 ∷ [])) (7 ∷ 9 ∷ [])
    ≡ recent 9 5 ((1 ∷ 3 ∷ []) ++ 7 ∷ 9 ∷ [])
window_after-recent_example =
    window_after-recent 5 3 (1 ∷ 3 ∷ []) (7 ∷ 9 ∷ [])
      (omega arith, (omega arith, (omega arith, (omega arith, tt))))
      (omega arith, (omega arith, tt))

is_spamming-recent_example :
    (is_spamming strict (spam_history strict chatter) 1 2 100).0
    ≡ verdict strict (recent 100 5 (90 ∷ 97 ∷ 100 ∷ []))
is_spamming-recent_example =
    is_spamming-recent strict 4 1 2 100 chatter refl refl (omega arith)
      (omega arith, (omega arith, (omega arith, tt)))

-- ---- moderation ----

abbrev ranked : Guild
ranked = record {
  roles =
      (1, record { id = 1; position = 0 })
      ∷ (7, record { id = 7; position = 3 })
      ∷ (8, record { id = 8; position = 3 })
      ∷ [];
  owner_id = 50;
}

-- The member 20 has the role 7, and everyone else the role 8.
abbrev roles_of : ℕ → Option (List ℕ)
roles_of user = if user == 20 then some (7 ∷ []) else some (8 ∷ [])

can_act_on_strict_example : can_act_on (some ranked) roles_of 1 30 20 ≡ some above_or_equal
unfolding can_act_on top_role rank_le
can_act_on_strict_example =
    can_act_on_strict ranked roles_of 1 20 30 (7 ∷ []) (8 ∷ []) (record { id = 1; position = 0 })
      refl refl refl refl refl refl
