-- ===== src/Cogs/Tags/Messages.antt =====
-- src/cogs/tags.rs, `on_message`: a message that names a tag behind the default prefix.
use benny_rs.Base.{ℕ, ◌*◌, ◌^◌, Bool, Option, none, some, List, [], if◌then◌else◌}
use benny_rs.Base.Equality.{nat_eq, pair_eq, list_eq}
use benny_rs.Base.Dict.{contains_key}
use benny_rs.Base.Text.{Text, trim, strip_prefix, split_once}
use benny_rs.Tagscript.Blocks.Effects.{TagOutput}
use benny_rs.Utils.RateLimit.{RateLimiter, check}
use benny_rs.Cogs.Tags.{Tags}
use benny_rs.Cogs.Tags.Invoke.{Effect, invoke_tag}

-- In nanoseconds.
abbrev pub invoke_interval : ℕ
invoke_interval = 1500 * 10 ^ 6

pub record Message : Type 0 where
  pub bot : Bool
  pub author_id : ℕ
  pub guild_id : Option ℕ
  pub content : Text

-- The readings of the clock: by the throttle, and by the cooldown of the tag.
pub record Clock : Type 0 where
  pub throttled_at : ℕ
  pub passed_at : ℕ
  pub cooled_at : ℕ
  pub stamped_at : ℕ

pub record TagsCog : Type 0 where
  pub tags : Tags
  pub invoke_limiter : RateLimiter (ℕ × ℕ)

-- `splitn(2, ' ')`
abbrev pub split_word : Text → Text × Text
split_word body = elim (split_once b' ' body) [ none ↦ (body, []) | some p ↦ p ]

abbrev pub in_guild : ℕ → Option Text → Option (ℕ × Text × Text)
in_guild guild_id none = none
in_guild guild_id (some rest) =
    let (word, args) = split_word (trim rest) in some (guild_id, word, trim args)

abbrev pub called_in : (content : Option Text) → Option ℕ → Option (ℕ × Text × Text)
called_in rest none = none
called_in rest (some guild_id) = in_guild guild_id rest

-- The guild, the word behind the prefix, and the text behind that.
unfoldable pub called : (prefix : Text) → Message → Option (ℕ × Text × Text)
unfolding trim
called prefix msg =
    if msg.bot then none else called_in (strip_prefix prefix (trim msg.content)) msg.guild_id

-- `run` is given the message and the text behind the name too; `ok` is as for `invoke_tag`.
module _ (lowercase : Text → Text) (run : Message → Text → Text → ℕ → TagOutput) where
  -- From the throttle on.
  abbrev pub after_throttle :
      (ok : Bool)
      → Clock
      → TagsCog
      → Message
      → (guild_id : ℕ) (name args : Text) → Option ℕ × RateLimiter (ℕ × ℕ)
      → List Effect × TagsCog
  after_throttle ok t cog msg guild_id name args (some wait, limiter) =
      ([], record cog { invoke_limiter = limiter })
  after_throttle ok t cog msg guild_id name args (none, limiter) =
      let (effects, tags) =
        invoke_tag (run msg args) ok t.cooled_at t.stamped_at cog.tags guild_id name in
      (effects, record { tags = tags; invoke_limiter = limiter })

  abbrev pub answer :
      (ok : Bool) → Clock → TagsCog → Message → Option (ℕ × Text × Text) → List Effect × TagsCog
  answer ok t cog msg none = ([], cog)
  answer ok t cog msg (some (guild_id, word, args)) =
      let name = lowercase word in
      if contains_key (guild_id, name) cog.tags.cache
      then after_throttle ok t cog msg guild_id name args (
          check cog.invoke_limiter (guild_id, msg.author_id) invoke_interval t.throttled_at
            t.passed_at)
      else ([], cog)

  unfoldable pub on_message :
      (ok : Bool) → (prefix : Text) → Clock → TagsCog → Message → List Effect × TagsCog
  unfolding called check invoke_tag
  on_message ok prefix t cog msg = answer ok t cog msg (called prefix msg)
