-- ===== src/Cogs/Moderation/Commands/Failures.antt =====
-- src/cogs/moderation.rs: what a call that fails leaves of the tables.
use benny_rs.Base.{
  ℕ, min, ◌-◌, ◌≡◌, refl, Bool, false, not, Option, none, some, List, ltb, Bool-cases, inl, inr,
}
use benny_rs.Base.Int.{pos}
use benny_rs.Base.Text.{Text, text}
use benny_rs.Cogs.Moderation.Store.{Store}
use benny_rs.Cogs.Moderation.Calls.{
  Call, Reply, Result, World, Database, guard, unless, attempt, kick_with_reason, ban_with_reason,
  unban as unban_call, enable_communication, disable_communication, remove_member_role,
  add_member_role, create_role, default_reason,
}
use benny_rs.Cogs.Moderation.Escalation.{apply_native_timeout, seconds, max_timeout_secs}
use benny_rs.Cogs.Moderation.Commands.{
  kick, ban, unban, tempban, softban, timeout, untimeout, unmute, later, with_expiry,
  with_mute_role, stored_mute_role,
}
use benny_rs.Cogs.Moderation.Policy.{GuildAnswers, mute, mute_by, ensure_mute_role, still_there}

attempt_refused :
    (w : World) (c : Call) (s : Store) (rest : Result)
    → w.accepts c ≡ false
    → (attempt w c s rest).store ≡ s
attempt_refused w c s rest h = rw (attempt, h) refl

unless_same :
    (o : Option Reply) (s : Store) (rest : Result) → rest.store ≡ s → (unless o s rest).store ≡ s
unless_same none s rest h = h
unless_same (some r) s rest h = refl

with_expiry_same :
    (o : Option ℕ) (s : Store) (rest : ℕ → Result)
    → ((t : ℕ) → (rest t).store ≡ s)
    → (with_expiry o s rest).store ≡ s
with_expiry_same none s rest h = refl
with_expiry_same (some t) s rest h = h t

with_mute_role_same :
    (o : Option ℕ) (s : Store) (rest : ℕ → Result)
    → ((r : ℕ) → (rest r).store ≡ s)
    → (with_mute_role o s rest).store ≡ s
with_mute_role_same none s rest h = refl
with_mute_role_same (some r) s rest h = h r

module _ (w : World) (db : Database) (s : Store) (down : (c : Call) → w.accepts c ≡ false) where
  apply_native_timeout_down :
      (ok : Bool) (g target moderator : ℕ) (given : Text) (expires : ℕ)
      → (apply_native_timeout w db ok s g target moderator given (pos expires)).store ≡ s
  unfolding apply_native_timeout
  apply_native_timeout_down ok g target moderator given expires =
      let refused = down (disable_communication g target (pos expires)) in
      elim (Bool-cases (not (w.valid_timestamp (pos expires)))) [
        | inl e ↦ rw e refl
        | inr e ↦ rw (e, refused) refl
      ]

  timeout_down :
      (g author target : ℕ) (parsed : Option ℕ) (given : Text)
      → (timeout w db s g author target parsed given).store ≡ s
  unfolding timeout
  timeout_down g author target parsed given =
      unless_same (guard w g author target (text "timeout")) s _ (
        with_expiry_same (later w parsed) s _ (λ expiry.
          elim (Bool-cases (ltb max_timeout_secs (seconds (expiry - w.now)))) [
            | inl e ↦ rw e refl
            | inr e ↦ rw e (
                apply_native_timeout_down db.case_ok g target author (default_reason given)
                  (seconds expiry))
          ]))

  mute_by_down :
      (g author target : ℕ) (given : Text) (expires : ℕ) (role : Option ℕ) (before : List Call)
      → (mute_by w db g author target given (pos expires) role before s).store ≡ s
  mute_by_down g author target given expires none before = refl
  mute_by_down g author target given expires (some role) before =
      attempt_refused w (add_member_role g target role) s _ (down (add_member_role g target role))

  ensure_mute_role_down : (a : GuildAnswers) (g : ℕ) → (ensure_mute_role w db a s g).store ≡ s
  unfolding ensure_mute_role
  ensure_mute_role_down a g =
      let refused = down (create_role g) in
      elim (Bool-cases (still_there (stored_mute_role db s g) a.roles)) [
        | inl e ↦ rw e refl
        | inr e ↦ rw (e, refused) refl
      ]

  mute_down :
      (a : GuildAnswers) (g author target : ℕ) (parsed : Option ℕ) (given : Text)
      → (mute w db a s g author target parsed given).store ≡ s
  unfolding mute
  mute_down a g author target parsed given =
      let r = ensure_mute_role w db a s g in
      let same : r.store ≡ s = ensure_mute_role_down a g in
      unless_same (guard w g author target (text "mute")) s _ (
        with_expiry_same (later w parsed) s _ (λ expiry.
          rw same
            (mute_by_down g author target (default_reason given) (seconds expiry) r.role r.calls)))

  -- Where Discord refuses every call, kick, ban, unban, softban, tempban, timeout, untimeout, mute
  -- and unmute leave the tables as they were.
  pub down_unchanged :
      (a : GuildAnswers) (g author target days : ℕ) (parsed : Option ℕ) (given : Text)
      → ((kick w db s g author target given).store ≡ s)
        × ((ban w db s g author target days given).store ≡ s)
        × ((unban w db s g author target given).store ≡ s)
        × ((softban w db s g author target given).store ≡ s)
        × ((tempban w db s g author target parsed given).store ≡ s)
        × ((timeout w db s g author target parsed given).store ≡ s)
        × ((untimeout w db s g author target).store ≡ s)
        × ((mute w db a s g author target parsed given).store ≡ s)
        × ((unmute w db s g author target).store ≡ s)
  unfolding kick ban unban softban tempban untimeout unmute
  down_unchanged a g author target days parsed given =
      let reason = default_reason given in
      let fails : (c : Call) (rest : Result) → (attempt w c s rest).store ≡ s =
        λ c rest. attempt_refused w c s rest (down c) in
      (
        unless_same (guard w g author target (text "kick")) s _
            (fails (kick_with_reason g target reason) _),
        unless_same (guard w g author target (text "ban")) s _
            (fails (ban_with_reason g target (min days 7) reason) _),
        fails (unban_call g target) _,
        unless_same (guard w g author target (text "ban")) s _
            (fails (ban_with_reason g target 1 reason) _),
        unless_same (guard w g author target (text "ban")) s _ (
            with_expiry_same (later w parsed) s _
              (λ expiry. fails (ban_with_reason g target 0 reason) _)),
        timeout_down g author target parsed given,
        fails (enable_communication g target) _,
        mute_down a g author target parsed given,
        with_mute_role_same (stored_mute_role db s g) s _
            (λ role. fails (remove_member_role g target role) _),
      )
