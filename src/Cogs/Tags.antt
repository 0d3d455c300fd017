-- ===== src/Cogs/Tags.antt =====
-- src/cogs/tags.rs: the commands that change a server's tags, and the invocation of one. The map of
-- maps `tag_cache` is one map by guild and name. `lowercase` and `is_alphanumeric` are those of
-- Rust's standard library, with the tables of Unicode.
pub mod Invoke
pub mod Coherence
pub mod Cooldown
pub mod Messages
pub mod Throttle
mod Tests
use benny_rs.Base.{
  ℕ, suc, ◌+◌, ◌-◌, ◌*◌, ◌/◌, ◌^◌, max, Bool, true, false, not, ◌&&◌, ◌||◌, Option, none, some,
  List, [], ◌∷◌, ◌++◌, ◌==◌, ltb, leb, length, take, map, if◌then◌else◌,
}
use benny_rs.Base.Equality.{nat_eq, pair_eq, list_eq}
use benny_rs.Base.Dict.{lookup, insert, remove, contains_key}
use benny_rs.Base.Tables.{update_where, delete_where}
use benny_rs.Base.Text.{Text, text, is, trim, all_chars}
use benny_rs.Base.Show.{show_ℕ}
use benny_rs.Utils.Cache.{bounded_insert}

abbrev pub reserved_names : List Text
reserved_names = text "tag" ∷ text "tagtest" ∷ text "tt" ∷ text "playground" ∷ text "testtag" ∷ []

abbrev pub max_tag_name_len : ℕ
max_tag_name_len = 32

abbrev pub max_tag_content_len : ℕ
max_tag_content_len = 2000

abbrev pub max_cooldown_keys : ℕ
max_cooldown_keys = 4096

-- The guild and the name of a tag.
abbrev pub TagKey : Type 0
TagKey = ℕ × Text

pub record Tag : Type 0 where
  pub content : Text
  pub owner_id : ℕ
  pub uses : ℕ
  pub created_at : ℕ

-- The table, the cache, and the tracker of cooldowns.
pub record Tags : Type 0 where
  pub rows : List (TagKey × Tag)
  pub cache : List (TagKey × Tag)
  pub cooldowns : List (Text × ℕ)

pub data Reply : Type 0 where
  reserved bad_name no_content too_long exists not_found not_yours database_error : Reply
  created edited deleted : Text → Reply

abbrev pub listed : Text → List Text → Bool
listed name [] = false
listed name (n ∷ names) = is n name || listed name names

-- ---- who may manage ----

pub record Permissions : Type 0 where
  pub administrator : Bool
  pub manage_guild : Bool

-- A guild of the bot's cache: the members it knows, with their roles.
pub record Guild : Type 0 where
  pub owner_id : ℕ
  pub roles : List (ℕ × Permissions)
  pub members : List (ℕ × List ℕ)

abbrev pub may_manage : Option Permissions → Bool
may_manage none = false
may_manage (some p) = p.administrator || p.manage_guild

-- The union of the permissions of the roles that are known.
abbrev pub any_manages : List (ℕ × Permissions) → List ℕ → Bool
any_manages roles [] = false
any_manages roles (r ∷ rs) = may_manage (lookup r roles) || any_manages roles rs

-- The member from the cache, or else as fetched.
abbrev pub member_roles : Option (List ℕ) → (fetched : Option (List ℕ)) → Option (List ℕ)
member_roles (some roles) fetched = some roles
member_roles none fetched = fetched

abbrev pub roles_manage : (guild_id : ℕ) → Guild → Option (List ℕ) → Bool
roles_manage guild_id g none = false
roles_manage guild_id g (some roles) = any_manages g.roles (guild_id ∷ roles)

abbrev pub guild_manages :
    (guild_id user_id : ℕ) → Option Guild → (fetched : Option (List ℕ)) → Bool
guild_manages guild_id user_id none fetched = false
guild_manages guild_id user_id (some g) fetched =
    g.owner_id == user_id
    || roles_manage guild_id g (member_roles (lookup user_id g.members) fetched)

unfoldable pub member_can_manage :
    (owners : List ℕ) → Option Guild → (fetched : Option (List ℕ)) → (guild_id user_id : ℕ) → Bool
member_can_manage [] g fetched guild_id user_id = guild_manages guild_id user_id g fetched
member_can_manage (o ∷ owners) g fetched guild_id user_id =
    o == user_id || member_can_manage owners g fetched guild_id user_id

-- ---- the commands ----

-- An edit or a deletion by its author, or by one who may manage.
abbrev pub authorized : (author : ℕ) (manages : Bool) → Option Tag → Option Reply
authorized author manages none = some not_found
authorized author manages (some t) =
    if t.owner_id == author || manages then none else some not_yours

abbrev pub unless : Option Reply → Tags → Tags × Reply → Tags × Reply
unless none st rest = rest
unless (some r) st rest = (st, r)

-- The filter on a tag's row.
abbrev pub is_tag : (guild_id : ℕ) → Text → TagKey → Tag → Bool
is_tag guild_id name key t = key.0 == guild_id && is key.1 name

-- `content` is trimmed.
abbrev pub check_content : Text → Option Reply
check_content [] = some no_content
check_content (c ∷ cs) = if ltb max_tag_content_len (length (c ∷ cs)) then some too_long else none

-- `None` in the cache is left alone.
abbrev pub update_cached : TagKey → (Tag → Tag) → List (TagKey × Tag) → List (TagKey × Tag)
update_cached key f cache = elim (lookup key cache) [
  | none ↦ cache
  | some t ↦ insert key (f t) cache
]

unfoldable pub edit_tag : (ok : Bool) → Tags → (guild_id : ℕ) (name content : Text) → Tags
edit_tag ok st guild_id name content =
    let f : Tag → Tag = λ t. record t { content = content } in
    record st {
      rows = if ok then update_where (is_tag guild_id name) f st.rows else st.rows;
      cache = update_cached (guild_id, name) f st.cache;
    }

unfoldable pub delete_tag : (ok : Bool) → Tags → (guild_id : ℕ) (name : Text) → Tags
delete_tag ok st guild_id name = record st {
  rows = if ok then delete_where (is_tag guild_id name) st.rows else st.rows;
  cache = remove (guild_id, name) st.cache;
}

-- `INSERT .. ON CONFLICT DO NOTHING`, which tells where nothing was inserted.
unfoldable pub insert_tag :
    (ok : Bool) (now : ℕ) → Tags → (guild_id owner_id : ℕ) (name content : Text) → Tags × Reply
insert_tag ok now st guild_id owner_id name content =
    let t : Tag = record { content = content; owner_id = owner_id; uses = 0; created_at = now } in
    let key : TagKey = (guild_id, name) in
    if not ok
    then (st, database_error)
    else if contains_key key st.rows
    then (st, exists)
    else (record st { rows = insert key t st.rows; cache = insert key t st.cache }, created name)

-- ---- the cache at the start ----

abbrev pub load_rows : List (TagKey × Tag) → List (TagKey × Tag) → List (TagKey × Tag)
load_rows [] cache = cache
load_rows ((key, t) ∷ rows) cache = load_rows rows (insert key t cache)

-- `unwrap_or_default()` on the rows.
unfoldable pub on_ready : (ok : Bool) → Tags → Tags
on_ready ok st = record st { cache = load_rows (if ok then st.rows else []) st.cache }

module _ (lowercase : Text → Text) (is_alphanumeric : ℕ → Bool) where
  abbrev pub name_char : ℕ → Bool
  name_char c = is_alphanumeric c || c == b'_' || c == b'-'

  abbrev pub check_name : Text → Option Reply
  check_name name =
      if listed name reserved_names
      then some reserved
      else if ltb max_tag_name_len (length name) || not (all_chars name_char name)
      then some bad_name
      else none

  unfoldable pub tag_create :
      (ok : Bool) (now : ℕ) → Tags → (guild_id author : ℕ) (name content : Text) → Tags × Reply
  unfolding trim insert_tag
  tag_create ok now st guild_id author given content =
      let name = lowercase given in
      unless (check_name name) st (
        unless (check_content (trim content)) st
          (insert_tag ok now st guild_id author name (trim content)))

  -- `manages` is what `member_can_manage` gives of the author.
  unfoldable pub tag_edit :
      (ok manages : Bool) → Tags → (guild_id author : ℕ) (name content : Text) → Tags × Reply
  unfolding trim edit_tag
  tag_edit ok manages st guild_id author given content =
      let name = lowercase given in
      unless (check_content (trim content)) st (
        unless (authorized author manages (lookup (guild_id, name) st.cache)) st
          (edit_tag ok st guild_id name (trim content), edited name))

  unfoldable pub tag_delete :
      (ok manages : Bool) → Tags → (guild_id author : ℕ) (name : Text) → Tags × Reply
  unfolding trim delete_tag
  tag_delete ok manages st guild_id author given =
      let name = lowercase (trim given) in
      unless (authorized author manages (lookup (guild_id, name) st.cache)) st
        (delete_tag ok st guild_id name, deleted name)
