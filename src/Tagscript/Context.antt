-- ===== src/Tagscript/Context.antt =====
-- src/tagscript/context.rs: the context of a run, and what a variable stands for in it.
pub mod Indexing
use benny_rs.Base.{
  ℕ, zero, suc, ◌+◌, ◌-◌, Bool, true, false, not, ◌&&◌, ◌||◌, Option, none, some, List, [], ◌∷◌,
  ◌++◌, ltb, leb, ◌==◌, if◌then◌else◌, length, take, drop, get_or, min,
}
use benny_rs.Base.Equality.{nat_eq, list_eq}
use benny_rs.Base.Dict.{lookup}
use benny_rs.Base.Int.{ℤ, pos, negsuc, ◌+ℤ◌, ◌-ℤ◌, ltb_ℤ}
use benny_rs.Base.Text.{Text, text, is, trim, peek_is, keep, split_once}
use benny_rs.Base.Show.{parse_i64, show_ℤ}
use benny_rs.Base.Search.{split_text, join}

pub record TagContext : Type 0 where
  pub user_name : Text
  pub user_mention : Text
  pub user_id : Text
  pub user_avatar : Text
  pub user_discriminator : Text
  pub target_name : Text
  pub target_mention : Text
  pub target_id : Text
  pub target_avatar : Text
  pub target_discriminator : Text
  pub channel_name : Text
  pub channel_id : Text
  pub channel_mention : Text
  pub server_name : Text
  pub server_id : Text
  pub server_member_count : Text
  pub server_icon : Text
  pub args : Text
  pub uses : Text
  pub vars : List (Text × Text)
  pub break_body : Option Text
  pub nodes : ℕ

-- ---- `string_index` ----

abbrev pub splitter_of : Option Text → Text
splitter_of none = text " "
splitter_of (some []) = text " "
splitter_of (some (c ∷ s)) = c ∷ s

-- The closure `at`: an index from the front, or from the end if it is negative.
unfoldable pub at : ℕ → ℤ → Option ℕ
at len (pos i) = if ltb i len then some i else none
at len (negsuc i) = if ltb i len then some (len - suc i) else none

abbrev pub ends_with_char : ℕ → Text → Bool
ends_with_char x [] = false
ends_with_char x (c ∷ []) = c == x
ends_with_char x (c ∷ d ∷ s) = ends_with_char x (d ∷ s)

-- `let i = if trimmed.starts_with('-') { v } else { v - 1 }`
abbrev pub plain_index : Text → ℤ → ℤ
plain_index trimmed v = if peek_is b'-' trimmed then v else v -ℤ pos 1

-- `let i = if v > 0 { v - 1 } else { v }`
abbrev pub plus_index : ℤ → ℤ
plus_index v = if ltb_ℤ (pos 0) v then v -ℤ pos 1 else v

abbrev pub head_end : List Text → Option ℕ → ℕ
head_end parts none = 0
head_end parts (some u) = min (u + 1) (length parts)

abbrev pub tail_start : Option ℕ → ℕ
tail_start none = 0
tail_start (some u) = u

-- The second half: `+n` joins the head, `n+` the tail.
unfoldable pub joined_index : Text → Text → Text → List Text → Text
unfolding at ◌-ℤ◌ parse_i64
joined_index s splitter trimmed parts = elim (parse_i64 (keep (λ c. not (c == b'+')) trimmed)) [
  | none ↦ s
  | some v ↦
      let i = at (length parts) (plus_index v) in
      if peek_is b'+' trimmed
      then join splitter (take (head_end parts i) parts)
      else if ends_with_char b'+' trimmed
      then join splitter (drop (tail_start i) parts)
      else s
]

unfoldable pub string_index : Text → Option Text → Option Text → Text
unfolding at ◌-ℤ◌ parse_i64 split_text trim joined_index
string_index s none payload = s
string_index s (some param) payload =
    let splitter = splitter_of payload in
    let parts = split_text splitter s in
    let trimmed = trim param in
    elim (parse_i64 trimmed) [
      | some v ↦ elim (at (length parts) (plain_index trimmed v)) [
        | some u ↦ get_or parts u []
        | none ↦ s
      ]
      | none ↦ joined_index s splitter trimmed parts
    ]

-- ---- attributes ----

abbrev pub is_attr : Option Text → Text → Bool
is_attr none name = false
is_attr (some a) name = is a name

abbrev pub no_attr : Option Text → Bool
no_attr none = true
no_attr (some a) = is a []

unfoldable pub user_attr : TagContext → Option Text → Text
user_attr c attr =
    if no_attr attr || is_attr attr (text "name") || is_attr attr (text "nick")
    then c.user_name
    else if is_attr attr (text "id")
    then c.user_id
    else if is_attr attr (text "mention")
    then c.user_mention
    else if is_attr attr (text "avatar")
    then c.user_avatar
    else if is_attr attr (text "discriminator")
    then c.user_discriminator
    else []

unfoldable pub target_attr : TagContext → Option Text → Text
target_attr c attr =
    if no_attr attr || is_attr attr (text "name") || is_attr attr (text "nick")
    then c.target_name
    else if is_attr attr (text "id")
    then c.target_id
    else if is_attr attr (text "mention")
    then c.target_mention
    else if is_attr attr (text "avatar")
    then c.target_avatar
    else if is_attr attr (text "discriminator")
    then c.target_discriminator
    else []

unfoldable pub channel_attr : TagContext → Option Text → Text
channel_attr c attr =
    if no_attr attr || is_attr attr (text "name")
    then c.channel_name
    else if is_attr attr (text "id")
    then c.channel_id
    else if is_attr attr (text "mention")
    then c.channel_mention
    else []

unfoldable pub server_attr : TagContext → Option Text → Text
server_attr c attr =
    if no_attr attr || is_attr attr (text "name")
    then c.server_name
    else if is_attr attr (text "id")
    then c.server_id
    else if is_attr attr (text "member_count") || is_attr attr (text "members")
    then c.server_member_count
    else if is_attr attr (text "icon")
    then c.server_icon
    else []

-- ---- `get_var` ----

-- `{user.id}` and `{user(id)}`: the base, and the attribute before it is trimmed.
abbrev pub base_attr : Text → Option Text → Text × Option Text
base_attr name parameter = elim (split_once b'.' name) [
  | some (b, a) ↦ (b, some a)
  | none ↦ (name, parameter)
]

abbrev trimmed_attr : Option Text → Option Text
trimmed_attr none = none
trimmed_attr (some a) = some (trim a)

unfoldable pub attribute : TagContext → Text → Option Text → Option Text
unfolding user_attr target_attr channel_attr server_attr
attribute c base attr =
    if is base (text "user") || is base (text "author")
    then some (user_attr c attr)
    else if is base (text "target")
    then some (target_attr c attr)
    else if is base (text "channel")
    then some (channel_attr c attr)
    else if is base (text "server") || is base (text "guild")
    then some (server_attr c attr)
    else none

-- `now` is the present timestamp.
unfoldable pub get_var : ℤ → TagContext → Text → Option Text → Option Text → Option Text
unfolding string_index attribute show_ℤ
get_var now c name parameter payload = elim (lookup name c.vars) [
  | some v ↦ some (string_index v parameter payload)
  | none ↦
      let (base, attr) = base_attr name parameter in
      if is name (text "args")
      then some (string_index c.args parameter payload)
      else if is name (text "uses")
      then some c.uses
      else if is name (text "unix")
      then some (show_ℤ now)
      else attribute c base (trimmed_attr attr)
]
