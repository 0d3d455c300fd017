-- ===== src/Cogs/Moderation/Invariant/Warn.antt =====
-- src/cogs/moderation.rs: what the tables keep to, over warnings.
use benny_rs.Base.{
  ℕ, ◌≡◌, Bool, true, false, ◌||◌, Option, none, some, arith, Bool-cases, ◌⊎◌, inl, inr,
}
use benny_rs.Base.Equality.{nat_eq, pair_eq}
use benny_rs.Base.Text.{Text, text, is}
use benny_rs.Cogs.Moderation.Store.{Config, Store, create_case}
use benny_rs.Cogs.Moderation.Calls.{World, Database, Failure, guard, default_reason}
use benny_rs.Cogs.Moderation.Escalation.{
  seconds, is_warn, deactivate, reset_warns, punish_warned, escalation_reason, warn_expiry,
  after_punishment, record_escalation, escalate, config_of, counted_warns, threshold_reached,
  escalate_if_reached, warn,
}
use benny_rs.Cogs.Moderation.Policy.{reason}
use benny_rs.Cogs.Moderation.Invariant.{IsValid, create_case-IsValid, change_cases-IsValid}
use benny_rs.Cogs.Moderation.Invariant.Commands.{unless_keeps, apply_native_timeout-IsValid}

pub reset_warns-IsValid :
    (ok : Bool) (s : Store) (g target : ℕ) → IsValid s → IsValid (reset_warns ok s g target)
unfolding reset_warns
reset_warns-IsValid false s g target v = v
reset_warns-IsValid true s g target v =
    change_cases-IsValid (is_warn g target) deactivate s (λ k case row p b. ground arith) v

module _ (w : World) (db : Database) (ok : db.escalation_case_ok ≡ true) where
  punish_warned-IsValid :
      (s : Store) (g target : ℕ) (cfg : Config) (reason : Text)
      → IsValid s
      → IsValid (punish_warned w db s g target cfg reason).store
  unfolding punish_warned
  punish_warned-IsValid s g target cfg reason v =
      elim (Bool-cases (is cfg.warn_action (text "kick"))) [
        | inl k ↦ rw k v
        | inr k ↦ elim (Bool-cases (is cfg.warn_action (text "ban"))) [
          | inl b ↦ rw (k, b) v
          | inr b ↦
              rw (k, b, ok)
                (apply_native_timeout-IsValid w db s g target w.bot_id reason (warn_expiry w cfg) v)
        ]
      ]

  record_escalation-IsValid :
      (s : Store) (g target : ℕ) (cfg : Config) (reason : Text)
      → IsValid s
      → IsValid (record_escalation w db s g target cfg reason)
  record_escalation-IsValid s g target cfg reason v =
      elim (Bool-cases (is cfg.warn_action (text "kick") || is cfg.warn_action (text "ban"))) [
        | inl e ↦
            rw (record_escalation, e, ok)
              (create_case-IsValid (seconds w.now) s g cfg.warn_action target w.bot_id reason none
                v)
        | inr e ↦ rw (record_escalation, e) v
      ]

  after_punishment-IsValid :
      (s : Store) (g target : ℕ) (cfg : Config) (n : ℕ) (o : Failure ⊎ Text)
      → IsValid s
      → IsValid (after_punishment w db s g target cfg n o).0
  after_punishment-IsValid s g target cfg n (inl e) v = v
  after_punishment-IsValid s g target cfg n (inr verb) v =
      reset_warns-IsValid db.update_ok (record_escalation w db s g target cfg (escalation_reason n))
        g target (record_escalation-IsValid s g target cfg (escalation_reason n) v)

  pub escalate-IsValid :
      (s : Store) (g target : ℕ) (cfg : Config) (n : ℕ)
      → IsValid s
      → IsValid (escalate w db s g target cfg n).1
  unfolding escalate
  escalate-IsValid s g target cfg n v =
      let p = punish_warned w db s g target cfg (escalation_reason n) in
      after_punishment-IsValid p.store g target cfg n p.outcome
        (punish_warned-IsValid s g target cfg (escalation_reason n) v)

  escalate_if_reached-IsValid :
      (g target : ℕ) (case : Option ℕ) (s : Store) (o : Option Config)
      → IsValid s
      → IsValid (escalate_if_reached w db g target case s o).store
  escalate_if_reached-IsValid g target case s none v = v
  escalate_if_reached-IsValid g target case s (some cfg) v =
      let n = counted_warns db s g target in
      elim (Bool-cases (threshold_reached cfg n)) [
        | inl e ↦ rw (escalate_if_reached, e) (escalate-IsValid s g target cfg n v)
        | inr e ↦ rw (escalate_if_reached, e) v
      ]

  pub warn-IsValid :
      (s : Store) (g author target : ℕ) (given : Text)
      → db.case_ok ≡ true
      → IsValid s
      → IsValid (warn w db s g author target given).store
  unfolding warn
  warn-IsValid s g author target given case_ok v =
      let made =
        create_case true (seconds w.now) s g (text "warn") target author (default_reason given)
          none in
      let valid =
        create_case-IsValid (seconds w.now) s g (text "warn") target author (default_reason given)
          none v in
      unless_keeps IsValid (guard w g author target (text "warn")) s _ v (
        rw case_ok
          (escalate_if_reached-IsValid g target made.0 made.1 (config_of db made.1 g) valid))
