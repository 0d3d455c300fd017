-- ===== src/Cogs/Moderation/Invariant/Punish.antt =====
-- src/cogs/moderation.rs: what the tables keep to, over the commands that punish and lift.
use benny_rs.Base.{ℕ, ◌-◌, min, ◌≡◌, refl, true, Option, ltb, Bool-cases, inl, inr}
use benny_rs.Base.Int.{pos}
use benny_rs.Base.Text.{Text, text}
use benny_rs.Cogs.Moderation.Store.{Store}
use benny_rs.Cogs.Moderation.Calls.{
  kick_with_reason, ban_with_reason, unban as unban_call, enable_communication, remove_member_role,
  World, Database, guard, default_reason,
}
use benny_rs.Cogs.Moderation.Escalation.{seconds, max_timeout_secs}
use benny_rs.Cogs.Moderation.Commands.{
  close_case, later, stored_mute_role, clear_timed, kick, ban, unban, tempban, softban, timeout,
  untimeout, unmute,
}
use benny_rs.Cogs.Moderation.Invariant.{IsValid, clear_timed-IsValid}
use benny_rs.Cogs.Moderation.Invariant.Commands.{
  unless_keeps, attempt_keeps, with_expiry_keeps, with_mute_role_keeps, close_case-IsValid,
  timed_case-IsValid, apply_native_timeout-IsValid,
}

module _ (w : World) (db : Database) (s : Store) (g author target : ℕ) (ok : db.case_ok ≡ true)
    (v : IsValid s) where
  pub kick-IsValid : (reason : Text) → IsValid (kick w db s g author target reason).store
  unfolding kick
  kick-IsValid given =
      let reason = default_reason given in
      unless_keeps IsValid (guard w g author target (text "kick")) s _ v (
        attempt_keeps IsValid w (kick_with_reason g target reason) s _ v
          (close_case-IsValid w db s g (text "kick") target author reason ok v))

  pub ban-IsValid :
      (days : ℕ) (reason : Text) → IsValid (ban w db s g author target days reason).store
  unfolding ban
  ban-IsValid days given =
      let reason = default_reason given in
      unless_keeps IsValid (guard w g author target (text "ban")) s _ v (
        attempt_keeps IsValid w (ban_with_reason g target (min days 7) reason) s _ v
          (close_case-IsValid w db s g (text "ban") target author reason ok v))

  pub softban-IsValid : (reason : Text) → IsValid (softban w db s g author target reason).store
  unfolding softban
  softban-IsValid given =
      let reason = default_reason given in
      unless_keeps IsValid (guard w g author target (text "ban")) s _ v (
        attempt_keeps IsValid w (ban_with_reason g target 1 reason) s _ v (
          attempt_keeps IsValid w (unban_call g target) s _ v
            (close_case-IsValid w db s g (text "softban") target author reason ok v)))

  -- The rows of a lifted punishment go, and a case is made.
  lifted-IsValid :
      (kind action : Text) (reason : Text)
      → IsValid
          (close_case w db
            (clear_timed db.delete_ok s g target action)
            g
            kind
            target
            author
            reason).store
  lifted-IsValid kind action reason =
      close_case-IsValid w db (clear_timed db.delete_ok s g target action) g kind target author
        reason ok (clear_timed-IsValid db.delete_ok s g target action v)

  pub unban-IsValid : (reason : Text) → IsValid (unban w db s g author target reason).store
  unfolding unban
  unban-IsValid given =
      attempt_keeps IsValid w (unban_call g target) s _ v
        (lifted-IsValid (text "unban") (text "ban") (default_reason given))

  pub untimeout-IsValid : IsValid (untimeout w db s g author target).store
  unfolding untimeout
  untimeout-IsValid =
      attempt_keeps IsValid w (enable_communication g target) s _ v
        (lifted-IsValid (text "untimeout") (text "timeout") (text "Timeout removed"))

  pub unmute-IsValid : IsValid (unmute w db s g author target).store
  unfolding unmute
  unmute-IsValid = with_mute_role_keeps IsValid (stored_mute_role db s g) s _ v (λ role.
      attempt_keeps IsValid w (remove_member_role g target role) s _ v
        (lifted-IsValid (text "unmute") (text "mute") (text "Unmuted")))

  pub tempban-IsValid :
      (parsed : Option ℕ) (reason : Text)
      → IsValid (tempban w db s g author target parsed reason).store
  unfolding tempban
  tempban-IsValid parsed given =
      let reason = default_reason given in
      unless_keeps IsValid (guard w g author target (text "ban")) s _ v (
        with_expiry_keeps IsValid (later w parsed) s _ v (λ expiry.
          attempt_keeps IsValid w (ban_with_reason g target 0 reason) s _ v (
            timed_case-IsValid w db s g (text "tempban") (text "ban") target author reason
              (pos (seconds expiry)) ok refl v)))

  pub timeout-IsValid :
      (parsed : Option ℕ) (reason : Text)
      → IsValid (timeout w db s g author target parsed reason).store
  unfolding timeout
  timeout-IsValid parsed given =
      let reason = default_reason given in
      unless_keeps IsValid (guard w g author target (text "timeout")) s _ v (
        with_expiry_keeps IsValid (later w parsed) s _ v (λ expiry.
          elim (Bool-cases (ltb max_timeout_secs (seconds (expiry - w.now)))) [
            | inl e ↦ rw e v
            | inr e ↦
                rw (e, ok)
                  (apply_native_timeout-IsValid w db s g target author reason (pos (seconds expiry))
                    v)
          ]))
