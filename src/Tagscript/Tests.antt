-- ===== src/Tagscript/Tests.antt =====
-- The theorems on the template engine at concrete templates, with a host whose numbers are integers.
use benny_rs.Base.{ℕ, ◌≡◌, ◌≢◌, refl, true, false, none, some, List, [], ◌∷◌, arith}
use benny_rs.Base.Int.{ℤ, pos, ◌+ℤ◌, ◌-ℤ◌, ltb_ℤ, pos_part}
use benny_rs.Base.Text.{Text, text}
use benny_rs.Base.Show.{parse_i64, show_ℤ}
use benny_rs.Tagscript.Host.{Host}
use benny_rs.Tagscript.Context.{TagContext, get_var, attribute}
use benny_rs.Tagscript.Dispatch.{find_kind, process_block, set_var}
use benny_rs.Tagscript.Dispatch.Variables.{IsVariable, process_block-assigned}
use benny_rs.Tagscript.Lexer.{Token, literal, block, tokenize_from, tokenize}
use benny_rs.Tagscript.Lexer.Fuel.{tokenize_from_fuel}
use benny_rs.Tagscript.Lexer.RoundTrip.{IsBlock}
use benny_rs.Tagscript.Blocks.Verbatim.{reconstruct}
use benny_rs.Tagscript.Blocks.Effects.{no_output}
use benny_rs.Tagscript.Blocks.Split.{split_pipe}
use benny_rs.Tagscript.Blocks.Split.Join.{join_pipe, split_pipe-join_pipe}
use benny_rs.Tagscript.Blocks.Random.{done, panicked, choose}
use benny_rs.Tagscript.Blocks.Random.Weights.{choose-rolls, choose_panics}
use benny_rs.Tagscript.Blocks.Math.{no_fuel, expr, math_fuel}
use benny_rs.Tagscript.Blocks.Math.Total.{expr-ne-no_fuel}
use benny_rs.Tagscript.Dispatch.{Machine}
use benny_rs.Tagscript.Engine.{resolve}
use benny_rs.Tagscript.Engine.{count_node}
use benny_rs.Tagscript.Engine.Verbatim.{resolve-reconstruct}
use benny_rs.Tagscript.Engine.Bounds.{CappedReply, resolve-Capped, with_nodes, resolve_spent}

-- The numbers are integers, there are no other cases, JSON, or times, and every draw is 0.
abbrev test_host : Host
test_host = record {
  Float = ℤ;
  parse_float = parse_i64;
  float_zero = pos 0;
  float_ten = pos 10;
  add = ◌+ℤ◌;
  sub = ◌-ℤ◌;
  mul = λ a b. a;
  div = λ a b. a;
  rem = λ a b. a;
  powf = λ a b. a;
  neg = λ a. pos 0 -ℤ a;
  float_eq = λ a b. false;
  float_lt = ltb_ℤ;
  float_le = ltb_ℤ;
  is_finite = λ a. true;
  to_i64 = λ a. a;
  to_u64 = pos_part;
  of_i64 = λ a. a;
  is_small_integer = λ a. true;
  fixed_ten = show_ℤ;
  lowercase = λ s. s;
  uppercase = λ s. s;
  from_utf8_lossy = λ s. s;
  parse_json = λ s. none;
  Time = ℤ;
  now = pos 0;
  timestamp = pos 0;
  from_timestamp = some;
  parse_rfc3339 = λ s. none;
  parse_datetime = λ f s. none;
  parse_date = λ s. none;
  is_format = λ s. false;
  format = λ t f. f;
  draw = λ i n. 0;
  draw_between = λ i lo hi. lo;
}

abbrev test_context : TagContext
test_context = record {
  user_name = text "ben";
  user_mention = text "<@1>";
  user_id = text "1";
  user_avatar = [];
  user_discriminator = text "0";
  target_name = text "ann";
  target_mention = text "<@2>";
  target_id = text "2";
  target_avatar = [];
  target_discriminator = text "0";
  channel_name = text "general";
  channel_id = text "3";
  channel_mention = text "<#3>";
  server_name = text "home";
  server_id = text "4";
  server_member_count = text "5";
  server_icon = [];
  args = text "one two three";
  uses = text "7";
  vars = [];
  break_body = none;
  nodes = 0;
}

abbrev test_machine : Machine
test_machine = record { ctx = test_context; output = no_output; draws = 0 }

-- `Hi {user.name}, {if(a=={b}):{c}|d}!`
abbrev greeting : List Token
greeting =
    literal (text "Hi {")
    ∷ block (text "user.name") none none
    ∷ literal (text ", ")
    ∷ block (text "if") (some (text "a=={b}")) (some (text "{c}|d"))
    ∷ []

abbrev user_IsBlock : IsBlock (text "user.name") none none
user_IsBlock = record { name_plain = refl; name_open = refl; parens = tt; braces = refl }

abbrev if_IsBlock : IsBlock (text "if") (some (text "a=={b}")) (some (text "{c}|d"))
if_IsBlock = record { name_plain = refl; name_open = refl; parens = refl; braces = refl }

tokenize_from_fuel_example :
    tokenize_from 9 [] (text "a{b}c{{") ≡ tokenize_from 20 [] (text "a{b}c{{")
tokenize_from_fuel_example = tokenize_from_fuel 9 20 [] (text "a{b}c{{") (omega arith) (omega arith)

resolve-Capped_example :
    CappedReply test_host
      (resolve test_host 2)
      (tokenize (text "Hi {user.name}"))
      []
      (resolve test_host 3 (text "Hi {user.name}") test_machine)
resolve-Capped_example = resolve-Capped test_host 2 (text "Hi {user.name}") test_machine

resolve_spent_example :
    (s : Text) × (n : ℕ) × (resolve test_host 3
        (text "Hi {user.name}")
        (with_nodes test_machine 5000)
      ≡ some (s, with_nodes (with_nodes test_machine 5000) n))
resolve_spent_example =
    resolve_spent test_host 3 (text "Hi {user.name}") (with_nodes test_machine 5000) (omega arith)

split_pipe-join_pipe_example :
    split_pipe (join_pipe (text "a|b") (text "c" ∷ text "d\\" ∷ []))
    ≡ text "a|b" ∷ text "c" ∷ text "d\\" ∷ []
split_pipe-join_pipe_example =
    split_pipe-join_pipe (text "a|b") (text "c" ∷ text "d\\" ∷ []) (refl, (refl, tt))

choose-rolls_example :
    choose (λ n. 4) none ((3, text "a") ∷ (2, text "b") ∷ (5, text "c") ∷ []) ≡ done (text "b")
choose-rolls_example =
    choose-rolls (λ n. 4) ((3, text "a") ∷ []) 2 (text "b") ((5, text "c") ∷ []) 1 (omega arith)
      (omega arith) refl

-- Weights whose sum wraps to 0.
overflow : choose (λ n. 0) none ((4294967295, text "a") ∷ (1, text "b") ∷ []) ≡ panicked
overflow = choose_panics (λ n. 0) ((4294967295, text "a") ∷ (1, text "b") ∷ []) refl

expr-ne-no_fuel_example :
    expr test_host (math_fuel test_host (text "1+(2-3)")) (text "1+(2-3)") ≢ no_fuel
expr-ne-no_fuel_example = expr-ne-no_fuel test_host (text "1+(2-3)")

-- ---- variables and indices ----

abbrev words : Text
words = text "one two three"

abbrev colour_IsVariable : IsVariable test_host (text "colour")
unfolding find_kind
colour_IsVariable = record {
  free = refl;
  no_dollar = refl;
  no_hash = refl;
  no_index = refl;
  not_empty = refl;
}

process_block-assigned_example :
    (process_block test_host (text "$colour") none (some (text "red")) test_machine
      ≡ some ([], set_var (text "colour") (text "red") test_machine))
    × (process_block test_host
          (text "colour")
          none
          none
          (set_var (text "colour") (text "red") test_machine)
        ≡ some (text "red", set_var (text "colour") (text "red") test_machine))
process_block-assigned_example =
    process_block-assigned test_host (text "colour") colour_IsVariable (text "red") test_machine

-- ---- what is left verbatim ----

abbrev colour_IsBlock : IsBlock (text "colour") none none
colour_IsBlock = record { name_plain = refl; name_open = refl; parens = tt; braces = refl }

resolve-reconstruct_example :
    resolve test_host 51 (reconstruct (text "colour") none none) test_machine
    ≡ some (reconstruct (text "colour") none none, count_node test_machine)
unfolding get_var attribute
resolve-reconstruct_example =
    resolve-reconstruct test_host 50 (text "colour") test_machine colour_IsVariable colour_IsBlock
      refl (omega arith) refl
