-- ===== src/Cogs/Automod/Handlers/Guards.antt =====
-- src/cogs/automod.rs: whom the handlers punish, and how often and how hard.
use benny_rs.Base.{
  ℕ, ◌+◌, ◌-◌, ◌*◌, ◌<◌, ◌≡◌, refl, ap, Bool, true, false, ◌&&◌, Option, none, some, List, [], ◌∷◌,
  ◌++◌, arith, Bool-cases, Option-cases, inl, inr, length,
}
use benny_rs.Base.Int.{ℤ, pos, ◌+ℤ◌, ◌≤ℤ◌, ltb_ℤ}
use benny_rs.Base.Equality.{nat_eq, pair_eq}
use benny_rs.Base.Dict.{lookup}
use benny_rs.Base.Text.{Text, text, is}
use benny_rs.Utils.RateLimit.{RateLimiter, check}
use benny_rs.Utils.RateLimit.Laws.{check_refuses}
use benny_rs.Cogs.Automod.{Config, slide, join_window_cap}
use benny_rs.Cogs.Automod.Handlers.{
  Automod, Message, Answers, Action, delete_message, dm, kick, log_triggered, log_new_account,
  log_surge, punish_cooldown, timeout_until, log_to, punish, after_limiter, after_join,
  raid_alert_cooldown, enabled_config, violation_of, after_violation, on_message, kicks, alert,
  too_new, age_days_of, detect_raid, on_member_join,
}

staff_after :
    (cfg : Config) (gid : ℕ) (msg : Message) (ans : Answers) (v : Option Text × Automod)
    → ans.is_staff ≡ true
    → (after_violation cfg gid msg ans v).0 ≡ []
staff_after cfg gid msg ans (none, a) h = refl
staff_after cfg gid msg ans (some v, a) h = rw h refl

-- For an author who manages messages the handler asks nothing of Discord, whatever the message and
-- the configuration.
pub on_message_staff :
    (a : Automod) (msg : Message) (ans : Answers)
    → ans.is_staff ≡ true
    → (on_message a msg ans).0 ≡ []
unfolding on_message
on_message_staff a msg ans h = elim (Option-cases msg.guild_id) [
  | inl outside ↦ rw (on_message, outside) refl
  | inr (gid, inside) ↦ elim (Option-cases (enabled_config a gid)) [
    | inl off ↦ rw (on_message, inside, off) refl
    | inr (cfg, on) ↦
        rw (on_message, inside, on)
          (staff_after cfg gid msg ans (violation_of a cfg gid msg ans.now) h)
  ]
]

-- A member who was punished less than the cooldown ago has the message deleted and nothing more,
-- and the state is unchanged.
pub punish_again :
    (a : Automod) (cfg : Config) (gid uid prev : ℕ) (violation : Text) (ans : Answers)
    → lookup (gid, uid) a.punish_limiter.last ≡ some prev
    → ans.instant - prev < punish_cooldown
    → punish a cfg gid uid violation ans ≡ (delete_message ∷ [], a)
unfolding punish after_limiter
punish_again a cfg gid uid prev violation ans e h =
    ap (after_limiter a cfg violation ans)
      (check_refuses a.punish_limiter (gid, uid) punish_cooldown ans.instant ans.stamp prev e h)

-- Whatever the configuration, a timeout of automod ends no earlier than a minute and no later than
-- 28 days from now.
pub timeout_until-bounds :
    (cfg : Config) (now : ℕ)
    → (pos (now + 60) ≤ℤ timeout_until cfg now) × (timeout_until cfg now ≤ℤ pos (now + 28 * 86400))
unfolding ◌+ℤ◌
timeout_until-bounds cfg now = ground arith

abbrev is_log : Action → Bool
is_log (log_triggered c v t) = true
is_log (log_new_account c d) = true
is_log (log_surge c n) = true
is_log _ = false

-- Nothing but entries of the log.
abbrev pub only_logs : List Action → Bool
only_logs [] = true
only_logs (x ∷ xs) = is_log x && only_logs xs

only_logs-surge : (o : Option ℤ) (n : ℕ) → only_logs (log_to o (λ c. log_surge c n)) ≡ true
only_logs-surge none n = refl
only_logs-surge (some c) n = refl

only_logs-new_account :
    (o : Option ℤ) (d : ℤ) → only_logs (log_to o (λ c. log_new_account c d)) ≡ true
only_logs-new_account none d = refl
only_logs-new_account (some c) d = refl

only_logs-append :
    (xs ys : List Action) → only_logs xs ≡ true → only_logs ys ≡ true → only_logs (xs ++ ys) ≡ true
only_logs-append [] ys h k = k
only_logs-append (x ∷ xs) ys h k = ground (arith, only_logs-append xs ys)

only_logs-alert :
    (a : Automod) (cfg : Config) (count : ℕ) (answer : Option ℕ × RateLimiter ℕ)
    → only_logs (alert a cfg count answer).0 ≡ true
only_logs-alert a cfg count (none, limiter) = only_logs-surge cfg.log_channel_id count
only_logs-alert a cfg count (some left, limiter) = refl

no_kick :
    (cfg : Config) (actions : List Action)
    → is cfg.raid_action (text "kick") ≡ false
    → kicks cfg actions ≡ []
no_kick cfg actions quiet = rw quiet refl

only_logs-after_join :
    (a : Automod) (cfg : Config) (gid : ℕ) (ans : Answers) (w : List ℕ)
    → is cfg.raid_action (text "kick") ≡ false
    → only_logs (after_join a cfg gid ans w).0 ≡ true
only_logs-after_join a cfg gid ans w quiet =
    elim (Bool-cases (ltb_ℤ (pos (length w)) cfg.raid_joins)) [
      | inl few ↦ rw (after_join, few) refl
      | inr many ↦
          rw (after_join, many)
            (only_logs-append (kicks cfg (kick ∷ [])) _
              (ap only_logs (no_kick cfg (kick ∷ []) quiet))
              (only_logs-alert a cfg (length w)
                (check a.raid_limiter gid raid_alert_cooldown ans.instant ans.stamp)))
    ]

only_logs-detect_raid :
    (a : Automod) (cfg : Config) (gid : ℕ) (ans : Answers)
    → is cfg.raid_action (text "kick") ≡ false
    → only_logs (detect_raid a cfg gid ans).0 ≡ true
unfolding detect_raid
only_logs-detect_raid a cfg gid ans quiet =
    let out = slide a.joins gid ans.now cfg.raid_secs join_window_cap in
    elim (Bool-cases (ltb_ℤ (pos 0) cfg.raid_joins && ltb_ℤ (pos 0) cfg.raid_secs)) [
      | inl on ↦
          rw (detect_raid, on)
            (only_logs-after_join (record a { joins = out.1 }) cfg gid ans out.0 quiet)
      | inr off ↦ rw (detect_raid, off) refl
    ]

-- Where the raid action of the guild is not kick, a join leads to entries of the log at most: no
-- kick and no direct message.
pub on_member_join_quiet :
    (a : Automod) (cfg : Config) (gid created : ℕ) (ans : Answers)
    → lookup gid a.configs ≡ some cfg
    → is cfg.raid_action (text "kick") ≡ false
    → only_logs (on_member_join a gid created ans).0 ≡ true
unfolding on_member_join
on_member_join_quiet a cfg gid created ans e quiet =
    let age = age_days_of ans.now created in
    elim (Bool-cases cfg.enabled) [
      | inr off ↦ rw (on_member_join, enabled_config, e, off) refl
      | inl on ↦ elim (Bool-cases cfg.raid_enabled) [
        | inr idle ↦ rw (on_member_join, enabled_config, e, on, idle) refl
        | inl armed ↦ elim (Bool-cases (too_new cfg age)) [
          | inl new ↦
              rw (on_member_join, enabled_config, e, on, armed, new)
                (only_logs-append (kicks cfg (dm ∷ kick ∷ [])) _
                  (ap only_logs (no_kick cfg (dm ∷ kick ∷ []) quiet))
                  (only_logs-new_account cfg.log_channel_id age))
          | inr old ↦
              rw (on_member_join, enabled_config, e, on, armed, old)
                (only_logs-detect_raid a cfg gid ans quiet)
        ]
      ]
    ]
