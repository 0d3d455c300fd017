-- ===== src/Cogs/Moderation/Commands/Guards.antt =====
-- src/cogs/moderation.rs: whom the commands leave alone.
use benny_rs.Base.{
  ℕ, ◌≡◌, refl, Bool, true, false, ◌||◌, Option, none, some, List, [], ◌==◌, arith, Bool-cases, inl,
  inr,
}
use benny_rs.Base.Text.{Text, text}
use benny_rs.Cogs.Moderation.{Guild, is_owner, can_act_on}
use benny_rs.Cogs.Moderation.Store.{Store}
use benny_rs.Cogs.Moderation.Calls.{Reply, Result, World, Database, self_guard, guard, unless}
use benny_rs.Cogs.Moderation.Escalation.{warn}
use benny_rs.Cogs.Moderation.Commands.{kick, ban, tempban, softban, timeout}
use benny_rs.Cogs.Moderation.Policy.{GuildAnswers, mute}

-- Oneself, the bot, and the owner of a known guild.
abbrev owner_is : Option Guild → ℕ → Bool
owner_is none target = false
owner_is (some g) target = target == g.owner_id

abbrev pub protected : World → (author target : ℕ) → Bool
protected w author target = target == author || (target == w.bot_id || owner_is w.guild target)

-- No call, and the tables as they were.
abbrev pub Untouched : Store → Result → Type 0
Untouched s r = (r.calls ≡ []) × (r.store ≡ s)

owner_refused :
    (g : Option Guild) (member : ℕ → Option (List ℕ)) (guild_id author target : ℕ)
    → owner_is g target ≡ true
    → can_act_on g member guild_id author target ≡ some is_owner
unfolding can_act_on
owner_refused none member guild_id author target h = ground arith
owner_refused (some g) member guild_id author target h = rw h refl

guard-protected :
    (w : World) (g author target : ℕ) (action : Text)
    → protected w author target ≡ true
    → (r : Reply) × (guard w g author target action ≡ some r)
unfolding guard self_guard
guard-protected w g author target action h = elim (Bool-cases (target == author)) [
  | inl e ↦ rw e (_, refl)
  | inr e ↦ elim (Bool-cases (target == w.bot_id)) [
    | inl b ↦ rw (e, b) (_, refl)
    | inr b ↦
        let owner : owner_is w.guild target ≡ true = ground arith in
        rw (e, b, owner_refused w.guild w.member g author target owner) (_, refl)
  ]
]

unless_refused :
    (o : Option Reply) (s : Store) (rest : Result)
    → (r : Reply) × (o ≡ some r)
    → Untouched s (unless o s rest)
unless_refused none s rest (r, e) = ground arith
unless_refused (some q) s rest (r, e) = (refl, refl)

-- None of warn, kick, ban, softban, tempban, timeout and mute makes a call or changes the tables
-- where the target is the author, the bot, or the owner of a guild that is known.
pub protected-Untouched :
    (w : World) (db : Database) (a : GuildAnswers) (s : Store) (g author target days : ℕ)
    (parsed : Option ℕ) (given : Text)
    → protected w author target ≡ true
    → Untouched s (warn w db s g author target given)
      × Untouched s (kick w db s g author target given)
      × Untouched s (ban w db s g author target days given)
      × Untouched s (softban w db s g author target given)
      × Untouched s (tempban w db s g author target parsed given)
      × Untouched s (timeout w db s g author target parsed given)
      × Untouched s (mute w db a s g author target parsed given)
unfolding warn kick ban softban tempban timeout mute
protected-Untouched w db a s g author target days parsed given h =
    let stops : (action : Text) (rest : Result)
        → Untouched s (unless (guard w g author target action) s rest) =
      λ action rest.
        unless_refused (guard w g author target action) s rest
          (guard-protected w g author target action h) in
    (
      stops (text "warn") _,
      stops (text "kick") _,
      stops (text "ban") _,
      stops (text "ban") _,
      stops (text "ban") _,
      stops (text "timeout") _,
      stops (text "mute") _,
    )
