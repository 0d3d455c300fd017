-- ===== src/State.antt =====
-- src/state.rs: the prefixes of the guilds, in the database and in the cache of the bot's state.
pub mod Laws
use benny_rs.Base.{
  ℕ, Bool, true, false, not, ◌&&◌, ◌||◌, Option, none, some, List, [], ◌∷◌, ◌++◌, ◌==◌, leb,
  if◌then◌else◌,
}
use benny_rs.Base.Equality.{nat_eq}
use benny_rs.Base.Dict.{lookup}
use benny_rs.Base.Text.{Text, is, byte_len, starts_with, trim_start}

-- `default_prefix` is that of the configuration; a row of the table is a guild and a prefix.
pub record Prefixes : Type 0 where
  pub default_prefix : Text
  pub rows : List (ℕ × Text)
  pub cache : List (ℕ × List Text)

-- `iter().any(|p| p == ..)`
abbrev pub has : Text → List Text → Bool
has p [] = false
has p (q ∷ qs) = is q p || has p qs

abbrev pub insert_by_len : Text → List Text → List Text
insert_by_len p [] = p ∷ []
insert_by_len p (q ∷ qs) =
    let rest = insert_by_len p qs in
    if leb (byte_len p) (byte_len q) then p ∷ (q ∷ qs) else q ∷ rest

-- `sort_by_key(|p| p.len())`, which keeps the order of equal lengths.
abbrev pub sort_by_len : List Text → List Text
sort_by_len [] = []
sort_by_len (p ∷ ps) = insert_by_len p (sort_by_len ps)

-- The prefixes in a guild's rows.
abbrev pub rows_of : (guild_id : ℕ) → List (ℕ × Text) → List Text
rows_of g [] = []
rows_of g ((h, p) ∷ rows) = let rest = rows_of g rows in if h == g then p ∷ rest else rest

-- From the cache's answer on; a failed query reads as no rows.
abbrev pub cached_or_read : (ok : Bool) → Prefixes → (guild_id : ℕ) → Option (List Text) → List Text
cached_or_read ok st g (some ps) = ps
cached_or_read ok st g none = sort_by_len (if ok then rows_of g st.rows else [])

abbrev pub custom_prefixes : (ok : Bool) → Prefixes → (guild_id : ℕ) → List Text
custom_prefixes ok st g = cached_or_read ok st g (lookup g st.cache)

-- The default, where a guild is not cached or its list is empty.
abbrev or_default : Text → Option (List Text) → List Text
or_default default_prefix none = default_prefix ∷ []
or_default default_prefix (some []) = default_prefix ∷ []
or_default default_prefix (some (p ∷ ps)) = p ∷ ps

abbrev pub guild_prefixes : Prefixes → (guild_id : Option ℕ) → List Text
guild_prefixes st none = st.default_prefix ∷ []
guild_prefixes st (some g) = or_default st.default_prefix (lookup g st.cache)

abbrev pub is_empty : Text → Bool
is_empty [] = true
is_empty (c ∷ s) = false

abbrev pub any_starts : List Text → Text → Bool
any_starts [] content = false
any_starts (p ∷ ps) content = not (is_empty p) && starts_with p content || any_starts ps content

unfoldable pub starts_with_prefix : Prefixes → (guild_id : Option ℕ) → (content : Text) → Bool
unfolding trim_start
starts_with_prefix st guild_id content =
    any_starts (guild_prefixes st guild_id) (trim_start content)
