-- ===== src/Tagscript/Dispatch.antt =====
-- src/tagscript/blocks.rs, `process_block`: one block, whose parameter and payload are rendered
-- already, changes the context and the output and gives its text.
pub mod Variables
use benny_rs.Base.{
  ℕ, suc, ◌+◌, ◌^◌, Bool, true, false, not, ◌&&◌, ◌||◌, Option, none, some, List, [], ◌∷◌, ◌++◌,
  ltb, ◌==◌, if◌then◌else◌, length,
}
use benny_rs.Base.Equality.{nat_eq, list_eq}
use benny_rs.Base.Dict.{insert}
use benny_rs.Base.Text.{
  Text, text, is, trim, peek_is, rest_of, is_digit, all_chars, split_once, bytes,
}
use benny_rs.Base.Show.{show_ℕ, show_ℤ}
use benny_rs.Base.Search.{count_matches, replace}
use benny_rs.Tagscript.Host.{Host}
use benny_rs.Tagscript.Context.{TagContext, get_var}
use benny_rs.Tagscript.Blocks.Verbatim.{reconstruct}
use benny_rs.Tagscript.Blocks.Split.{split_pipe}
use benny_rs.Tagscript.Blocks.Random.{Outcome, done, panicked, pick, random_block}
use benny_rs.Tagscript.Blocks.Url.{url_encode, url_decode}
use benny_rs.Tagscript.Blocks.Numbers.{error_text, ordinal, length_block}
use benny_rs.Tagscript.Blocks.Conditions.{
  or_false, or_empty, parse_if, parse_list_all, parse_into_output,
}
use benny_rs.Tagscript.Blocks.Math.{eval_math}
use benny_rs.Tagscript.Blocks.Range.{format_num, range_block}
use benny_rs.Tagscript.Blocks.Time.{strftime}
use benny_rs.Tagscript.Blocks.Effects.{
  TagOutput, embed_block, react_block, redirect_block, cooldown_block,
}

-- What a run changes. `draws` counts the blocks that have had a random number at hand.
pub record Machine : Type 0 where
  pub ctx : TagContext
  pub output : TagOutput
  pub draws : ℕ

-- The arms of the `match` on the lowercased name.
pub data Kind : Type 0 where
  assign comment cond all_of any_of negate break_with stop_with : Kind
  choose_one random_of range_of rangef_of math_of ord_of upper lower : Kind
  length_of count_of replace_in url_encoded url_decoded unix_time strf strf_time : Kind
  embed_of react_with delete_it redirect_to cooldown_for debug omitted other : Kind

abbrev pub kinds : List (Text × Kind)
kinds =
    (text "=", assign)
    ∷ (text "let", assign)
    ∷ (text "var", assign)
    ∷ (text "//", comment)
    ∷ (text "/", comment)
    ∷ (text "comment", comment)
    ∷ (text "if", cond)
    ∷ (text "all", all_of)
    ∷ (text "and", all_of)
    ∷ (text "any", any_of)
    ∷ (text "or", any_of)
    ∷ (text "not", negate)
    ∷ (text "break", break_with)
    ∷ (text "short", break_with)
    ∷ (text "shortcircuit", break_with)
    ∷ (text "stop", stop_with)
    ∷ (text "halt", stop_with)
    ∷ (text "choose", choose_one)
    ∷ (text "random", random_of)
    ∷ (text "rand", random_of)
    ∷ (text "range", range_of)
    ∷ (text "rangef", rangef_of)
    ∷ (text "math", math_of)
    ∷ (text "m", math_of)
    ∷ (text "calc", math_of)
    ∷ (text "+", math_of)
    ∷ (text "ord", ord_of)
    ∷ (text "upper", upper)
    ∷ (text "lower", lower)
    ∷ (text "len", length_of)
    ∷ (text "length", length_of)
    ∷ (text "count", count_of)
    ∷ (text "replace", replace_in)
    ∷ (text "sub", replace_in)
    ∷ (text "urlencode", url_encoded)
    ∷ (text "urldecode", url_decoded)
    ∷ (text "unix", unix_time)
    ∷ (text "strf", strf)
    ∷ (text "strftime", strf_time)
    ∷ (text "embed", embed_of)
    ∷ (text "react", react_with)
    ∷ (text "delete", delete_it)
    ∷ (text "del", delete_it)
    ∷ (text "redirect", redirect_to)
    ∷ (text "cd", cooldown_for)
    ∷ (text "cooldown", cooldown_for)
    ∷ (text "debug", debug)
    ∷ (text "python", omitted)
    ∷ (text "py", omitted)
    ∷ (text "command", omitted)
    ∷ (text "c", omitted)
    ∷ (text "com", omitted)
    ∷ (text "require", omitted)
    ∷ (text "whitelist", omitted)
    ∷ (text "blacklist", omitted)
    ∷ (text "override", omitted)
    ∷ (text "bypass", omitted)
    ∷ []

unfoldable pub find_kind : Text → List (Text × Kind) → Kind
find_kind name [] = other
find_kind name ((word, kind) ∷ rest) = if is name word then kind else find_kind name rest

-- A block's text with the machine after it; `none` is a panic.
abbrev pub Reply : Type 0
Reply = Option (Text × Machine)

abbrev pub set_var : Text → Text → Machine → Machine
set_var name value m = record m { ctx = record m.ctx { vars = insert name value m.ctx.vars } }

abbrev pub set_output : TagOutput → Machine → Machine
set_output o m = record m { output = o }

abbrev pub says : Text → Machine → Reply
says s m = some (s, m)

abbrev pub rolled : Outcome → Machine → Reply
rolled (done s) m = some (s, record m { draws = m.draws + 1 })
rolled panicked m = none

-- `{=(name):value}`, with a name that is not empty.
abbrev pub assign_to : Option Text → Text → Machine → Machine
assign_to none value m = m
assign_to (some []) value m = m
assign_to (some (c ∷ name)) value m = set_var (c ∷ name) value m

abbrev pub bool_text : Option Bool → Text
bool_text none = []
bool_text (some true) = text "false"
bool_text (some false) = text "true"

abbrev pub count_text : Option Text → Text → Text
count_text none body = show_ℕ (length body + 1)
count_text (some []) body = show_ℕ (length body + 1)
count_text (some (c ∷ needle)) body = show_ℕ (count_matches (c ∷ needle) body)

abbrev pub replace_text : Option Text → Text → Text
replace_text none body = body
replace_text (some p) body = elim (split_once b',' p) [
  | some (from, to) ↦ replace from to body
  | none ↦ body
]

abbrev pub is_plus : Option Text → Bool
is_plus none = false
is_plus (some p) = is p (text "+")

module _ (host : Host) where
  abbrev pub holds : Text → Bool
  holds s = or_false (parse_if host s)

  -- `{break(cond):msg}` overrides the final output.
  abbrev pub break_if : Bool → Text → Machine → Machine
  break_if b body m = if b then record m { ctx = record m.ctx { break_body = some body } } else m

  -- `{stop(cond):msg}` halts the run with its message.
  abbrev pub stop_if : Bool → Text → Machine → Machine
  stop_if b body m =
      if b then set_output (record m.output { stopped = true; content = body }) m else m

  abbrev pub delete_if : Bool → Machine → Machine
  delete_if b m = if b then set_output (record m.output { delete_invoke = true }) m else m

  abbrev pub delete_wanted : Option Text → Bool
  delete_wanted none = true
  delete_wanted (some s) = holds s

  abbrev pub or_source : Option Text → Text → Option Text → Option Text → Machine → Reply
  or_source (some v) name parameter payload m = says v m
  or_source none name parameter payload m = says (reconstruct name parameter payload) m

  -- `{1}` is `{args(1)}`.
  abbrev pub digit_var : Machine → Text → Option Text → Option Text
  digit_var m name payload =
      if not (is name []) && all_chars is_digit name
      then get_var host.timestamp m.ctx (text "args") (some name) payload
      else none

  abbrev pub var_or_source : Text → Option Text → Option Text → Machine → Reply
  var_or_source name parameter payload m = elim (digit_var m name payload) [
    | some v ↦ says v m
    | none ↦
        or_source (get_var host.timestamp m.ctx name parameter payload) name parameter payload m
  ]

  abbrev pub is_some : Option Text → Bool
  is_some none = false
  is_some (some s) = true

  -- The arms.
  unfoldable pub process_kind : Kind → Text → Option Text → Option Text → Machine → Reply
  process_kind assign name parameter payload m = says [] (assign_to parameter (or_empty payload) m)
  process_kind comment name parameter payload m = says [] m
  process_kind cond name parameter payload m =
      says (parse_into_output (or_empty payload) (parse_if host (or_empty parameter))) m
  process_kind all_of name parameter payload m =
      says (parse_into_output (or_empty payload) (parse_list_all host (or_empty parameter) true)) m
  process_kind any_of name parameter payload m =
      says (parse_into_output (or_empty payload) (parse_list_all host (or_empty parameter) false)) m
  process_kind negate name parameter payload m =
      says (bool_text (parse_if host (or_empty payload))) m
  process_kind break_with name parameter payload m =
      says [] (break_if (holds (or_empty parameter)) (or_empty payload) m)
  process_kind stop_with name parameter payload m =
      says [] (stop_if (holds (or_empty parameter)) (or_empty payload) m)
  process_kind choose_one name parameter payload m =
      rolled (done (trim (pick (host.draw m.draws) (split_pipe (or_empty payload)) parameter))) m
  process_kind random_of name parameter payload m =
      rolled (random_block (host.draw m.draws) parameter (or_empty payload)) m
  process_kind range_of name parameter payload m =
      rolled (done (range_block host m.draws parameter (or_empty payload) false)) m
  process_kind rangef_of name parameter payload m =
      rolled (done (range_block host m.draws parameter (or_empty payload) true)) m
  process_kind math_of name parameter payload m =
      says
        (elim (eval_math host (or_empty payload)) [
          | some n ↦ format_num host n
          | none ↦ error_text name
        ])
        m
  process_kind ord_of name parameter payload m = says (ordinal parameter (or_empty payload) name) m
  process_kind upper name parameter payload m = says (host.uppercase (or_empty payload)) m
  process_kind lower name parameter payload m = says (host.lowercase (or_empty payload)) m
  process_kind length_of name parameter payload m =
      says (length_block parameter (or_empty payload)) m
  process_kind count_of name parameter payload m = says (count_text parameter (or_empty payload)) m
  process_kind replace_in name parameter payload m =
      says (replace_text parameter (or_empty payload)) m
  process_kind url_encoded name parameter payload m =
      says (url_encode (bytes (or_empty payload)) (is_plus parameter)) m
  process_kind url_decoded name parameter payload m =
      says (host.from_utf8_lossy (url_decode (bytes (or_empty payload)) (is_plus parameter))) m
  process_kind unix_time name parameter payload m = says (show_ℤ host.timestamp) m
  process_kind strf name parameter payload m = says (strftime host parameter payload false) m
  process_kind strf_time name parameter payload m = says (strftime host parameter payload true) m
  process_kind embed_of name parameter payload m =
      says [] (set_output (embed_block host parameter payload m.output) m)
  process_kind react_with name parameter payload m =
      says []
        (elim (or_empty payload) [ [] ↦ m | c ∷ s ↦ set_output (react_block (c ∷ s) m.output) m ])
  process_kind delete_it name parameter payload m = says [] (delete_if (delete_wanted parameter) m)
  process_kind redirect_to name parameter payload m =
      says [] (set_output (redirect_block parameter payload m.output) m)
  process_kind cooldown_for name parameter payload m =
      says [] (set_output (cooldown_block host parameter payload m.output) m)
  process_kind debug name parameter payload m = says [] m
  process_kind omitted name parameter payload m = says [] m
  process_kind other name parameter payload m =
      if is name (text "#") && is_some payload
      then rolled (random_block (host.draw m.draws) parameter (or_empty payload)) m
      else if peek_is b'#' name
      then says [] m
      else var_or_source name parameter payload m

  unfoldable pub process_block : Text → Option Text → Option Text → Machine → Reply
  unfolding process_kind find_kind
  process_block name parameter payload m =
      if peek_is b'$' name
      then (if is (rest_of name) []
          then says [] m
          else says [] (set_var (rest_of name) (or_empty payload) m))
      else process_kind (find_kind (host.lowercase name) kinds) name parameter payload m
