-- ===== src/Tagscript/Blocks/Effects.antt =====
-- src/tagscript/mod.rs, `TagOutput`, and the blocks of src/tagscript/blocks.rs that write to it:
-- embeds, reactions, redirections and cooldowns.
use benny_rs.Base.{
  ℕ, zero, suc, ◌+◌, ◌-◌, ◌*◌, ◌^◌, Bool, false, ◌&&◌, ◌||◌, Option, none, some, List, [], ◌∷◌,
  ◌++◌, ltb, leb, if◌then◌else◌, take,
}
use benny_rs.Base.Int.{ℤ, pos, negsuc}
use benny_rs.Base.Text.{
  Text, text, is, trim, trim_start, peek_is, rest_of, is_digit, keep, has_char, strip_prefix,
  split_char, parse_unsigned,
}
use benny_rs.Base.Show.{parse_i64}
use benny_rs.Tagscript.Host.{
  Host, Json, boolean, integer, string, array, object, Items, nil, item, Fields, end, field,
}
use benny_rs.Tagscript.Blocks.Split.{split_pipe}
use benny_rs.Tagscript.Blocks.Conditions.{or_empty}

pub record TagOutput : Type 0 where
  pub content : Text
  pub react_emojis : List Text
  pub delete_invoke : Bool
  pub redirect_channel : Option ℕ
  pub embed : Option Json
  pub cooldown : Option (Text × ℕ)
  pub stopped : Bool

-- `TagOutput::default()`
abbrev pub no_output : TagOutput
no_output = record {
  content = [];
  react_emojis = [];
  delete_invoke = false;
  redirect_channel = none;
  embed = none;
  cooldown = none;
  stopped = false;
}

-- ---- JSON objects ----

unfoldable pub get : Text → Fields → Option Json
get k end = none
get k (field j v m) = if is j k then some v else get k m

unfoldable pub put : Text → Json → Fields → Fields
put k v end = field k v end
put k v (field j w m) = if is j k then field j v m else field j w (put k v m)

abbrev pub push_item : Json → Items → Items
push_item v nil = item v nil
push_item v (item w ws) = item w (push_item v ws)

abbrev pub just_object : Json → Option Fields
just_object (object m) = some m
just_object _ = none

-- `embed_object`: the embed's object, made empty where there is none.
abbrev pub embed_object : Option Json → Fields
embed_object none = end
embed_object (some j) = elim (just_object j) [ none ↦ end | some m ↦ m ]

abbrev pub set_embed : TagOutput → Fields → TagOutput
set_embed o m = record o { embed = some (object m) }

abbrev pub one_field : Text → Text → Json
one_field key value = object (field key (string value) end)

-- ---- colours ----

abbrev hex_digit_value : ℕ → Option ℕ
hex_digit_value c =
    if is_digit c
    then some (c - b'0')
    else if leb b'A' c && leb c b'F'
    then some (c - b'A' + 10)
    else if leb b'a' c && leb c b'f'
    then some (c - b'a' + 10)
    else none

unfoldable pub hex_from : ℕ → Text → Option ℕ
hex_from n [] = some n
hex_from n (c ∷ s) = elim (hex_digit_value c) [ none ↦ none | some d ↦ hex_from (n * 16 + d) s ]

abbrev hex_digits : Text → Option ℕ
hex_digits [] = none
hex_digits (c ∷ s) = hex_from 0 (c ∷ s)

abbrev minus : ℕ → Option ℤ
minus zero = some (pos 0)
minus (suc n) = if ltb n (2 ^ 63) then some (negsuc n) else none

-- `i64::from_str_radix(s, 16)`
unfoldable pub hex_i64 : Text → Option ℤ
unfolding hex_from
hex_i64 s =
    if peek_is b'-' s
    then elim (hex_digits (rest_of s)) [ none ↦ none | some n ↦ minus n ]
    else elim (hex_digits (if peek_is b'+' s then rest_of s else s)) [
      | none ↦ none
      | some n ↦ if ltb n (2 ^ 63) then some (pos n) else none
    ]

abbrev hex_part : Text → Option Text
hex_part v = elim (strip_prefix (text "#") v) [
  | some s ↦ some s
  | none ↦ strip_prefix (text "0x") v
]

unfoldable pub named_color : Text → Option ℤ
named_color name =
    if is name (text "red")
    then some (pos 0xe74c3c)
    else if is name (text "blue")
    then some (pos 0x3498db)
    else if is name (text "green")
    then some (pos 0x2ecc71)
    else if is name (text "yellow")
    then some (pos 0xffff00)
    else if is name (text "orange")
    then some (pos 0xe67e22)
    else if is name (text "purple")
    then some (pos 0x9b59b6)
    else if is name (text "white")
    then some (pos 0xffffff)
    else if is name (text "black")
    then some (pos 0)
    else if is name (text "gold")
    then some (pos 0xf1c40f)
    else if is name (text "teal")
    then some (pos 0x1abc9c)
    else none

abbrev or_else : Option ℤ → Option ℤ → Option ℤ
or_else none o = o
or_else (some n) o = some n

module _ (host : Host) where
  unfoldable pub parse_color : Text → Option ℤ
  unfolding trim hex_i64 parse_i64 named_color
  parse_color value =
      let v = trim value in
      elim (hex_part v) [
        | some h ↦ hex_i64 (trim h)
        | none ↦ or_else (parse_i64 v) (named_color (host.lowercase v))
      ]

-- ---- `embed_block` ----

-- `eq_ignore_ascii_case`
abbrev lower_ascii : Text → Text
lower_ascii [] = []
lower_ascii (c ∷ s) = (if leb b'A' c && leb c b'Z' then c + 32 else c) ∷ lower_ascii s

abbrev inline_of : List Text → Bool
inline_of [] = false
inline_of (s ∷ parts) = is (lower_ascii (trim s)) (text "true")

-- `{embed(field):name|value|inline}`
abbrev pub field_json : Text → Text → List Text → Json
field_json name value parts = object (
    field (text "name") (string name)
      (field (text "value") (string value) (field (text "inline") (boolean (inline_of parts)) end)))

abbrev pub push_field : Json → Option Json → Json
push_field f none = array (item f nil)
push_field f (some (array fields)) = array (push_item f fields)
push_field f (some _) = array (item f nil)

abbrev pub embed_field : List Text → Fields → Fields
embed_field (name ∷ value ∷ parts) m =
    put (text "fields") (push_field (field_json name value parts) (get (text "fields") m)) m
embed_field _ m = m

abbrev pub put_color : Option ℤ → Fields → Fields
put_color none m = m
put_color (some c) m = put (text "color") (integer c) m

-- `{embed({...})}`: the object, or the one under `embed`.
abbrev pub unwrap_embed : Fields → Fields
unwrap_embed m = elim (get (text "embed") m) [
  | some j ↦ elim (just_object j) [ some inner ↦ inner | none ↦ m ]
  | none ↦ m
]

unfoldable pub merge_fields : Fields → Fields → Fields
unfolding put
merge_fields end m = m
merge_fields (field k v rest) m =
    merge_fields rest (put (if is k (text "colour") then text "color" else k) v m)

module _ (host : Host) where
  unfoldable pub merge_embed_json : Text → TagOutput → TagOutput
  unfolding get merge_fields
  merge_embed_json s o = elim (host.parse_json s) [
    | none ↦ o
    | some parsed ↦ elim (just_object parsed) [
      | none ↦ o
      | some m ↦ set_embed o (merge_fields (unwrap_embed m) (embed_object o.embed))
    ]
  ]

  -- One attribute of the embed.
  unfoldable pub embed_attr : Text → Text → Fields → Fields
  unfolding put get parse_color split_pipe
  embed_attr attr value m =
      if is attr (text "title") || is attr (text "description") || is attr (text "url")
      then put attr (string value) m
      else if is attr (text "color") || is attr (text "colour")
      then put_color (parse_color host value) m
      else if is attr (text "thumbnail") || is attr (text "image")
      then put attr (one_field (text "url") value) m
      else if is attr (text "footer")
      then put attr (one_field (text "text") value) m
      else if is attr (text "author")
      then put attr (one_field (text "name") value) m
      else if is attr (text "field")
      then embed_field (split_pipe value) m
      else m

  unfoldable pub embed_block : Option Text → Option Text → TagOutput → TagOutput
  unfolding merge_embed_json embed_attr trim_start trim
  embed_block none payload o =
      let p = trim (or_empty payload) in if peek_is b'{' p then merge_embed_json p o else o
  embed_block (some attr) payload o =
      let pt = trim_start attr in
      if peek_is b'{' pt
      then merge_embed_json pt o
      else set_embed o (embed_attr attr (or_empty payload) (embed_object o.embed))

-- ---- reactions, redirections, cooldowns ----

abbrev pub non_empty_pieces : List Text → List Text
non_empty_pieces [] = []
non_empty_pieces (e ∷ es) = elim (trim e) [
  | [] ↦ non_empty_pieces es
  | c ∷ s ↦ (c ∷ s) ∷ non_empty_pieces es
]

-- At most the first five pieces, trimmed, without the empty ones.
unfoldable pub react_block : Text → TagOutput → TagOutput
unfolding trim
react_block body o =
    let sep = if has_char b'~' body then b'~' else b',' in
    record o { react_emojis = o.react_emojis ++ non_empty_pieces (take 5 (split_char sep body)) }

unfoldable pub extract_channel_id : Text → Option ℕ
unfolding parse_unsigned
extract_channel_id s = parse_unsigned (2 ^ 64) (keep is_digit s)

abbrev pub first_some : Option Text → Option Text → Text
first_some none o = or_empty o
first_some (some s) o = s

unfoldable pub redirect_block : Option Text → Option Text → TagOutput → TagOutput
unfolding extract_channel_id
redirect_block parameter payload o = elim (extract_channel_id (first_some parameter payload)) [
  | some id ↦ record o { redirect_channel = some id }
  | none ↦ o
]

abbrev pub last_piece : List Text → Text
last_piece [] = []
last_piece (s ∷ []) = s
last_piece (s ∷ t ∷ rest) = last_piece (t ∷ rest)

abbrev pub first_piece : List Text → Text
first_piece [] = []
first_piece (s ∷ rest) = s

module _ (host : Host) where
  unfoldable pub cooldown_block : Option Text → Option Text → TagOutput → TagOutput
  unfolding trim
  cooldown_block parameter payload o =
      let secs_str = trim (last_piece (split_char b'|' (or_empty parameter))) in
      let key = trim (first_piece (split_char b'|' (or_empty payload))) in
      elim (host.parse_float secs_str) [
        | none ↦ o
        | some n ↦
            if host.float_le host.float_zero n
            then record o { cooldown = some (key, host.to_u64 n) }
            else o
      ]
