-- ===== src/Cogs/Moderation/Escalation/Reset.antt =====
-- src/cogs/moderation.rs, `warn` and `escalate`: the count of a member's active warnings.
use benny_rs.Base.{
  ℕ, ◌≡◌, refl, sym, Bool, true, false, Option, none, some, List, arith, Bool-cases, ◌⊎◌, inl, inr,
}
use benny_rs.Base.Int.{ℤ, pos, ltb_ℤ}
use benny_rs.Base.Equality.{nat_eq, pair_eq}
use benny_rs.Base.Dict.{lookup}
use benny_rs.Base.Tables.{count_where-update_where}
use benny_rs.Base.Text.{Text, text}
use benny_rs.Cogs.Moderation.Store.{Key, Case, Config, Store, stored, create_case}
use benny_rs.Cogs.Moderation.Calls.{
  Failure, Note, escalation_failed, Reply, warned, Result, World, Database, guard, default_reason,
}
use benny_rs.Cogs.Moderation.Escalation.{
  seconds, is_warn, is_active_warn, active_warns, deactivate, reset_warns, punish_warned,
  escalation_reason, record_escalation, after_punishment, escalate, escalation_result,
  counted_warns, threshold_reached, config_of, escalate_if_reached, after_warn, warn,
}

pub reset_warns-active_warns :
    (s : Store) (g target : ℕ) → active_warns g target (reset_warns true s g target) ≡ 0
unfolding reset_warns
reset_warns-active_warns s g target =
    count_where-update_where (is_active_warn g target) (is_warn g target) deactivate s.cases
      (λ k c h. ground arith) (λ k c. ground arith)

-- Either the note tells of a failure, or the member has fewer active warnings than the threshold.
abbrev pub BelowOrFailed : (guild_id target_id : ℕ) → Config → Store → Option Note → Type 0
BelowOrFailed g target cfg s note =
    ((n : ℕ) × ((e : Failure) × (note ≡ some (escalation_failed n e))))
    ⊎ (ltb_ℤ (pos (active_warns g target s)) cfg.warn_threshold ≡ true)

abbrev note_of : Reply → Option Note
note_of (warned case note) = note
note_of _ = none

-- What a command that warned leaves.
abbrev pub Settled : (guild_id target_id : ℕ) → Config → Result → Type 0
Settled g target cfg r = BelowOrFailed g target cfg r.store (note_of r.reply)

module _ (w : World) (db : Database) (g target : ℕ) (cfg : Config)
    (on : ltb_ℤ (pos 0) cfg.warn_threshold ≡ true) (update : db.update_ok ≡ true) where
  after_punishment-Settled :
      (s : Store) (n : ℕ) (o : Failure ⊎ Text)
      → (let (s', note) = after_punishment w db s g target cfg n o in
          BelowOrFailed g target cfg s' (some note))
  after_punishment-Settled s n (inl e) = inl (n, (e, refl))
  after_punishment-Settled s n (inr verb) =
      let recorded = record_escalation w db s g target cfg (escalation_reason n) in
      inr (rw (update, reset_warns-active_warns recorded g target) on)

  escalate-Settled :
      (case : Option ℕ) (s : Store) (n : ℕ)
      → Settled g target cfg (escalation_result case (escalate w db s g target cfg n))
  unfolding escalate
  escalate-Settled case s n =
      let p = punish_warned w db s g target cfg (escalation_reason n) in
      after_punishment-Settled p.store n p.outcome

  escalate_if_reached-Settled :
      (case : Option ℕ) (s : Store)
      → db.count_ok ≡ true
      → Settled g target cfg (escalate_if_reached w db g target case s (some cfg))
  escalate_if_reached-Settled case s count =
      let n = counted_warns db s g target in
      let counted : n ≡ active_warns g target s = rw (counted_warns, count) refl in
      elim (Bool-cases (threshold_reached cfg n)) [
        | inl e ↦ rw (escalate_if_reached, e) (escalate-Settled case s n)
        | inr e ↦
            let below : ltb_ℤ (pos n) cfg.warn_threshold ≡ true = ground arith in
            rw (escalate_if_reached, e) (inr (rw (sym counted) below))
      ]

  after_warn-Settled :
      (p : Option ℕ × Store)
      → db.count_ok ≡ true
      → config_of db p.1 g ≡ some cfg
      → Settled g target cfg (after_warn w db g target p)
  after_warn-Settled (case, s) count e =
      rw (after_warn, e) (escalate_if_reached-Settled case s count)

config_known :
    (db : Database) (s : Store) (g : ℕ) (cfg : Config)
    → db.config_ok ≡ true
    → lookup g s.configs ≡ some cfg
    → config_of db s g ≡ some cfg
config_known db s g cfg ok l = rw (config_of, ok) l

stored-configs :
    (s : Store) (n : ℕ) (o : Option (List (Key × Case))) → (stored s n o).1.configs ≡ s.configs
stored-configs s n none = refl
stored-configs s n (some cases) = refl

pub create_case-configs :
    (ok : Bool) (now : ℕ) (s : Store) (g : ℕ) (kind : Text) (target moderator : ℕ) (reason : Text)
    (expires : Option ℤ)
    → (create_case ok now s g kind target moderator reason expires).1.configs ≡ s.configs
unfolding create_case
create_case-configs true now s g kind target moderator reason expires = stored-configs s _ _
create_case-configs false now s g kind target moderator reason expires = refl

warn_free :
    (w : World) (db : Database) (s : Store) (g author target : ℕ) (given : Text)
    → guard w g author target (text "warn") ≡ none
    → warn w db s g author target given
      ≡ after_warn w db g target (
          create_case db.case_ok
            (seconds w.now)
            s
            g
            (text "warn")
            target
            author
            (default_reason given)
            none)
unfolding warn
warn_free w db s g author target given free = rw free refl

-- After a warning that the guards allow, in a guild with a threshold above 0, where the
-- configuration and the count are read and the reset reaches the database, either the note tells
-- that the escalation failed or the member has fewer active warnings than the threshold.
pub warn-Settled :
    (w : World) (db : Database) (s : Store) (g author target : ℕ) (given : Text) (cfg : Config)
    → db.config_ok ≡ true
    → db.count_ok ≡ true
    → db.update_ok ≡ true
    → lookup g s.configs ≡ some cfg
    → ltb_ℤ (pos 0) cfg.warn_threshold ≡ true
    → guard w g author target (text "warn") ≡ none
    → Settled g target cfg (warn w db s g author target given)
warn-Settled w db s g author target given cfg config count update l on free =
    let p =
      create_case db.case_ok (seconds w.now) s g (text "warn") target author (default_reason given)
        none in
    let same =
      create_case-configs db.case_ok (seconds w.now) s g (text "warn") target author
        (default_reason given) none in
    rw (warn_free w db s g author target given free) (
      after_warn-Settled w db g target cfg on update p count
        (config_known db p.1 g cfg config (rw same l)))
