-- ===== src/Cogs/Automod/Handlers.antt =====
-- src/cogs/automod.rs: `check_message`, `punish`, `on_message` and `on_member_join`. What a handler
-- asks of Discord and of the database is a list of actions, in their order; the answers that decide
-- how it goes on are its arguments.
pub mod Guards
use benny_rs.Base.{
  ℕ, ◌+◌, ◌-◌, ◌*◌, ◌/◌, ◌^◌, Bool, true, false, not, ◌&&◌, ◌||◌, Option, none, some, List, [], ◌∷◌,
  ◌++◌, ltb, if◌then◌else◌, length,
}
use benny_rs.Base.Int.{clamp, ℤ, pos, ◌+ℤ◌, ◌-ℤ◌, ltb_ℤ}
use benny_rs.Base.Equality.{nat_eq, pair_eq}
use benny_rs.Base.Dict.{lookup}
use benny_rs.Base.Text.{Text, text, is, contains}
use benny_rs.Utils.RateLimit.{RateLimiter, check}
use benny_rs.Cogs.Automod.{Config, Windows, is_spamming, slide, join_window_cap}

-- The fields of a message that are read; `content` is lower case already.
pub record Message : Type 0 where
  pub guild_id : Option ℕ
  pub author : ℕ
  pub content : Text
  pub mentions : ℕ
  pub mention_roles : ℕ

pub data Action : Type 0 where
  delete_message dm kick : Action
  create_case : (kind : Text) → Action
  native_timeout : (expires_ts : ℤ) → Action
  log_triggered : (channel : ℤ) (violation action_taken : Text) → Action
  log_new_account : (channel age_days : ℤ) → Action
  log_surge : (channel : ℤ) (count : ℕ) → Action

-- The statics of the module and the fields of the cog.
pub record Automod : Type 0 where
  pub configs : List (ℕ × Config)
  pub messages : Windows
  pub joins : List (ℕ × List ℕ)
  pub punish_limiter : RateLimiter (ℕ × ℕ)
  pub raid_limiter : RateLimiter ℕ

-- What the clocks and Discord answer: the seconds, the two readings of the `Instant` clock by a
-- limiter, whether the author manages messages, and whether the calls succeed.
pub record Answers : Type 0 where
  pub now : ℕ
  pub instant : ℕ
  pub stamp : ℕ
  pub is_staff : Bool
  pub timeout_ok : Bool
  pub kick_ok : Bool

abbrev pub punish_cooldown : ℕ
punish_cooldown = 10 * 10 ^ 9

abbrev pub raid_alert_cooldown : ℕ
raid_alert_cooldown = 60 * 10 ^ 9

abbrev pub invite_markers : List Text
invite_markers =
    text "discord.gg/" ∷ text "discord.com/invite/" ∷ text "discordapp.com/invite/" ∷ []

abbrev pub contains_any : List Text → Text → Bool
contains_any [] s = false
contains_any (marker ∷ markers) s = contains marker s || contains_any markers s

unfoldable pub check_message : Config → Message → Option Text
check_message cfg msg =
    if cfg.anti_invite && contains_any invite_markers msg.content
    then some (text "invite link")
    else if cfg.anti_link
        && (contains (text "http://") msg.content || contains (text "https://") msg.content)
    then some (text "link")
    else if ltb_ℤ (pos 0) cfg.mention_limit
        && not (ltb_ℤ (pos (msg.mentions + msg.mention_roles)) cfg.mention_limit)
    then some (text "mass mentions")
    else none

abbrev pub timeout_until : Config → ℕ → ℤ
timeout_until cfg now = pos now +ℤ clamp cfg.timeout_secs (pos 60) (pos (28 * 24 * 60 * 60))

-- `log`: nothing without a channel.
abbrev pub log_to : Option ℤ → (ℤ → Action) → List Action
log_to none entry = []
log_to (some channel) entry = entry channel ∷ []

-- The arms of the `match` on the punishment: what is done, and how it is put.
unfoldable pub punishment_of : Config → Answers → List Action × Text
unfolding ◌+ℤ◌
punishment_of cfg ans =
    if is cfg.punishment (text "warn")
    then (create_case (text "warn") ∷ [], text "message deleted, member warned")
    else if is cfg.punishment (text "timeout")
    then (
      native_timeout (timeout_until cfg ans.now) ∷ [],
      if ans.timeout_ok
          then text "message deleted, member timed out"
          else text "message deleted (timeout failed)",
    )
    else if is cfg.punishment (text "kick")
    then (if ans.kick_ok
        then (kick ∷ create_case (text "kick") ∷ [], text "message deleted, member kicked")
        else (kick ∷ [], text "message deleted (kick failed)"))
    else ([], text "message deleted")

-- From the limiter's answer on: within the cooldown nothing but the deletion happens.
unfoldable pub after_limiter :
    Automod → Config → Text → Answers → Option ℕ × RateLimiter (ℕ × ℕ) → List Action × Automod
unfolding punishment_of
after_limiter a cfg violation ans (some left, limiter) =
    (delete_message ∷ [], record a { punish_limiter = limiter })
after_limiter a cfg violation ans (none, limiter) =
    let (done, put) = punishment_of cfg ans in
    (
      delete_message ∷ (done ++ log_to cfg.log_channel_id (λ c. log_triggered c violation put)),
      record a { punish_limiter = limiter },
    )

unfoldable pub punish : Automod → Config → ℕ → ℕ → Text → Answers → List Action × Automod
unfolding after_limiter check
punish a cfg gid uid violation ans =
    after_limiter a cfg violation ans
      (check a.punish_limiter (gid, uid) punish_cooldown ans.instant ans.stamp)

-- The configuration of a guild where automod is on.
abbrev pub enabled_config : Automod → ℕ → Option Config
enabled_config a gid = elim (lookup gid a.configs) [
  | none ↦ none
  | some cfg ↦ if cfg.enabled then some cfg else none
]

-- `check_message(..).or_else(|| is_spamming(..))`: the window is left alone where a filter answers.
unfoldable pub violation_of : Automod → Config → ℕ → Message → ℕ → Option Text × Automod
unfolding check_message is_spamming
violation_of a cfg gid msg now = elim (check_message cfg msg) [
  | some v ↦ (some v, a)
  | none ↦
      let (spam, windows) = is_spamming cfg a.messages gid msg.author now in
      (if spam then some (text "message spam") else none, record a { messages = windows })
]

-- From the violation on: staff are exempt.
abbrev pub after_violation :
    Config → ℕ → Message → Answers → Option Text × Automod → List Action × Automod
after_violation cfg gid msg ans (none, a) = ([], a)
after_violation cfg gid msg ans (some v, a) =
    if ans.is_staff then ([], a) else punish a cfg gid msg.author v ans

unfoldable pub on_message : Automod → Message → Answers → List Action × Automod
unfolding violation_of punish
on_message a msg ans = elim msg.guild_id [
  | none ↦ ([], a)
  | some gid ↦ elim (enabled_config a gid) [
    | none ↦ ([], a)
    | some cfg ↦ after_violation cfg gid msg ans (violation_of a cfg gid msg ans.now)
  ]
]

-- `(now - created) / 86_400`, towards zero.
abbrev pub age_days_of : ℕ → ℕ → ℤ
age_days_of now created =
    if ltb now created
    then pos 0 -ℤ pos ((created - now) / 86400)
    else pos ((now - created) / 86400)

abbrev pub too_new : Config → ℤ → Bool
too_new cfg age = ltb_ℤ (pos 0) cfg.min_account_age_days && ltb_ℤ age cfg.min_account_age_days

abbrev pub kicks : Config → List Action → List Action
kicks cfg actions = if is cfg.raid_action (text "kick") then actions else []

-- The raid alert, from the limiter's answer on: at most one in a while.
abbrev pub alert : Automod → Config → ℕ → Option ℕ × RateLimiter ℕ → List Action × Automod
alert a cfg count (some left, limiter) = ([], record a { raid_limiter = limiter })
alert a cfg count (none, limiter) =
    (log_to cfg.log_channel_id (λ c. log_surge c count), record a { raid_limiter = limiter })

-- From the window on, which holds the new join already.
abbrev pub after_join : Automod → Config → ℕ → Answers → List ℕ → List Action × Automod
after_join a cfg gid ans w =
    if ltb_ℤ (pos (length w)) cfg.raid_joins
    then ([], a)
    else (let (logged, a') =
          alert a cfg (length w)
            (check a.raid_limiter gid raid_alert_cooldown ans.instant ans.stamp) in
        (kicks cfg (kick ∷ []) ++ logged, a'))

-- The join-rate detection.
unfoldable pub detect_raid : Automod → Config → ℕ → Answers → List Action × Automod
unfolding slide check
detect_raid a cfg gid ans =
    if ltb_ℤ (pos 0) cfg.raid_joins && ltb_ℤ (pos 0) cfg.raid_secs
    then (let (w, joins) = slide a.joins gid ans.now cfg.raid_secs join_window_cap in
        after_join (record a { joins = joins }) cfg gid ans w)
    else ([], a)

unfoldable pub on_member_join : Automod → (gid created : ℕ) → Answers → List Action × Automod
unfolding detect_raid ◌-ℤ◌
on_member_join a gid created ans = elim (enabled_config a gid) [
  | none ↦ ([], a)
  | some cfg ↦
      if not cfg.raid_enabled
      then ([], a)
      else if too_new cfg (age_days_of ans.now created)
      then (
        kicks cfg (dm ∷ kick ∷ [])
            ++ log_to cfg.log_channel_id (λ c. log_new_account c (age_days_of ans.now created)),
        a,
      )
      else detect_raid a cfg gid ans
]
