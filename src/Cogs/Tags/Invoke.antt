-- ===== src/Cogs/Tags/Invoke.antt =====
-- src/cogs/tags.rs: `invoke_tag` and `send_output_message`, from what the engine gives on. A time is
-- in nanoseconds, and the readings of the clock are arguments.
use benny_rs.Base.{
  ℕ, ◌+◌, ◌-◌, ◌*◌, ◌/◌, ◌^◌, max, Bool, true, false, ◌||◌, Option, none, some, List, [], ◌∷◌, ◌++◌,
  ltb, take, map, if◌then◌else◌,
}
use benny_rs.Base.Equality.{nat_eq, pair_eq, list_eq}
use benny_rs.Base.Dict.{lookup}
use benny_rs.Base.Tables.{update_where}
use benny_rs.Base.Text.{Text, trim}
use benny_rs.Base.Show.{show_ℕ}
use benny_rs.Tagscript.Host.{Json}
use benny_rs.Tagscript.Blocks.Effects.{TagOutput}
use benny_rs.Utils.Cache.{bounded_insert}
use benny_rs.Cogs.Tags.{Tag, Tags, is_tag, update_cached, max_cooldown_keys}

-- What is asked of Discord. `none` as a channel is that of the message.
pub data Effect : Type 0 where
  send : (channel : Option ℕ) (content : Option Text) (embed : Option Json) → Effect
  on_cooldown : (remaining_secs : ℕ) → Effect
  react : (emoji : Text) → Effect
  delete_invocation : Effect

-- `!content.trim().is_empty()`
abbrev is_nonempty : Text → Bool
is_nonempty [] = false
is_nonempty (c ∷ s) = true

unfoldable pub has_content : Text → Bool
unfolding trim
has_content content = is_nonempty (trim content)

abbrev is_some : Option Json → Bool
is_some none = false
is_some (some j) = true

unfoldable pub send_output_message : TagOutput → List Effect
unfolding has_content
send_output_message output =
    let text_there = has_content output.content in
    let content = if text_there then some (take 2000 output.content) else none in
    (if text_there || is_some output.embed
      then send output.redirect_channel content output.embed ∷ []
      else [])
    ++ map react output.react_emojis
    ++ (if output.delete_invoke then delete_invocation ∷ [] else [])

-- `{guild_id}:{name}:{bucket}`
unfoldable pub cooldown_key : (guild_id : ℕ) (name bucket : Text) → Text
unfolding show_ℕ
cooldown_key guild_id name bucket = show_ℕ guild_id ++ (b':' ∷ (name ++ (b':' ∷ bucket)))

-- The time left of a cooldown, in seconds but one at least.
abbrev pub left_of : (cd : ℕ) → (now : ℕ) → Option ℕ → Option ℕ
left_of cd now none = none
left_of cd now (some last) =
    if ltb (now - last) cd then some (max ((cd - (now - last)) / 10 ^ 9) 1) else none

-- A passing invocation is put down at `stamp`.
abbrev pub outcome :
    (stamp : ℕ) → List (Text × ℕ) → (key : Text) → Option ℕ → Option ℕ × List (Text × ℕ)
outcome stamp cooldowns key none = (none, bounded_insert cooldowns key stamp max_cooldown_keys)
outcome stamp cooldowns key (some remaining) = (some remaining, cooldowns)

-- The tracker is asked at `now`.
unfoldable pub check_cooldown :
    (now stamp : ℕ) → List (Text × ℕ) → (key : Text) (secs : ℕ) → Option ℕ × List (Text × ℕ)
unfolding bounded_insert
check_cooldown now stamp cooldowns key secs =
    outcome stamp cooldowns key (left_of (secs * 10 ^ 9) now (lookup key cooldowns))

abbrev used : Tag → Tag
used t = record t { uses = t.uses + 1 }

unfoldable pub count_use : (ok : Bool) → Tags → (guild_id : ℕ) (name : Text) → Tags
count_use ok st guild_id name = record st {
  rows = if ok then update_where (is_tag guild_id name) used st.rows else st.rows;
  cache = update_cached (guild_id, name) used st.cache;
}

-- From the cooldown on.
abbrev pub after_cooldown :
    (ok : Bool)
    → Tags
    → (guild_id : ℕ) (name : Text) → TagOutput
    → Option ℕ × List (Text × ℕ)
    → List Effect × Tags
after_cooldown ok st guild_id name output (some remaining, cooldowns) =
    (on_cooldown remaining ∷ [], record st { cooldowns = cooldowns })
after_cooldown ok st guild_id name output (none, cooldowns) =
    (send_output_message output, count_use ok (record st { cooldowns = cooldowns }) guild_id name)

abbrev pub cooldown_of :
    (now stamp : ℕ)
    → Tags
    → (guild_id : ℕ) (name : Text) → Option (Text × ℕ)
    → Option ℕ × List (Text × ℕ)
cooldown_of now stamp st guild_id name none = (none, st.cooldowns)
cooldown_of now stamp st guild_id name (some (bucket, secs)) =
    check_cooldown now stamp st.cooldowns (cooldown_key guild_id name bucket) secs

unfoldable pub apply_output :
    (ok : Bool) (now stamp : ℕ)
    → Tags
    → (guild_id : ℕ) (name : Text) → TagOutput
    → List Effect × Tags
unfolding has_content send_output_message cooldown_key check_cooldown count_use
apply_output ok now stamp st guild_id name output =
    if output.stopped
    then (if has_content output.content
        then (send none (some output.content) none ∷ [], st)
        else ([], st))
    else after_cooldown ok st guild_id name output
        (cooldown_of now stamp st guild_id name output.cooldown)

-- `run` runs the engine on the content of a tag, in the context of the message and of the count of
-- its uses; `ok` is whether the use reaches the table.
unfoldable pub invoke_tag :
    (run : Text → ℕ → TagOutput) (ok : Bool) (now stamp : ℕ)
    → Tags
    → (guild_id : ℕ) (name : Text) → List Effect × Tags
unfolding apply_output
invoke_tag run ok now stamp st guild_id name = elim (lookup (guild_id, name) st.cache) [
  | none ↦ ([], st)
  | some t ↦ apply_output ok now stamp st guild_id name (run t.content t.uses)
]
