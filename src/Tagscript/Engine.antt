-- ===== src/Tagscript/Engine.antt =====
-- src/tagscript/mod.rs: `resolve`, which renders a template inner-first within bounds on depth, work
-- and output, and `run`, at which the engine is switched off.
pub mod Bounds
pub mod Verbatim
use benny_rs.Base.{
  ℕ, zero, suc, ◌+◌, ◌-◌, Bool, true, false, Option, none, some, List, [], ◌∷◌, ◌++◌, ltb,
  if◌then◌else◌,
}
use benny_rs.Base.Text.{Text, byte_len}
use benny_rs.Tagscript.Host.{Host}
use benny_rs.Tagscript.Context.{TagContext}
use benny_rs.Tagscript.Lexer.{Token, literal, block, tokenize}
use benny_rs.Tagscript.Blocks.Effects.{TagOutput, no_output}
use benny_rs.Tagscript.Dispatch.{Machine, Reply, set_output, process_block}

abbrev pub max_depth : ℕ
max_depth = 50

abbrev pub max_nodes : ℕ
max_nodes = 5000

abbrev pub max_output : ℕ
max_output = 10000

abbrev pub engine_enabled : Bool
engine_enabled = false

-- A step that may panic, on the machine.
abbrev pub Action : Type 0 → Type 0
Action A = Machine → Option (A × Machine)

infixl 5 ◌>>=◌
abbrev pub ◌>>=◌ : {A B : Type 0} → Action A → (A → Action B) → Action B
◌>>=◌ act next m = elim (act m) [ none ↦ none | some (a, m') ↦ next a m' ]

abbrev pub pure : {A : Type 0} → A → Action A
pure a m = some (a, m)

-- `ctx.nodes += 1`
abbrev pub count_node : Machine → Machine
count_node m = record m { ctx = record m.ctx { nodes = m.ctx.nodes + 1 } }

-- `parameter.map(|p| resolve(&p, ..))`
abbrev pub resolve_part : (Text → Action Text) → Option Text → Action (Option Text)
resolve_part call none = pure none
resolve_part call (some s) = do r ← call s; pure (some r)

-- The end of a turn: a panic, the `break`, or the next part, which ends the loop if it passes the
-- bound.
abbrev pub after_token :
    (Text → ℕ → Action Text) → Text → ℕ → Option (Option Text × Machine) → Reply
after_token next text total none = none
after_token next text total (some (none, m)) = some (text, m)
after_token next text total (some (some part, m)) = elim (ltb max_output (total + byte_len part)) [
  | true ↦ some (text ++ part, m)
  | false ↦ next (text ++ part) (total + byte_len part) m
]

module _ (host : Host) where
  -- A block: its parts are resolved, and it is dispatched.
  unfoldable pub render_block :
      (Text → Action Text) → Text → Option Text → Option Text → Action Text
  unfolding process_block
  render_block call name parameter payload = do
    p ← resolve_part call parameter
    q ← resolve_part call payload
    process_block host name p q

  -- One turn of the loop: the part that is pushed, or `none` for the `break` in front of a block.
  unfoldable pub render_token : (Text → Action Text) → Token → Action (Option Text)
  unfolding render_block
  render_token call (literal s) m = some (some s, m)
  render_token call (block name parameter payload) m =
      if ltb max_nodes (count_node m).ctx.nodes
      then some (none, count_node m)
      else (do r ← render_block call name parameter payload; pure (some r)) (count_node m)

  -- The loop over the tokens, with the text of the parts and their total length in bytes. It stops
  -- where the output is stopped, where a block breaks it, and behind a part that passes the bound.
  unfoldable pub render_tokens : (Text → Action Text) → List Token → Text → ℕ → Action Text
  unfolding render_token
  render_tokens call [] text total m = some (text, m)
  render_tokens call (token ∷ tokens) text total m = elim m.output.stopped [
    | true ↦ some (text, m)
    | false ↦ after_token (render_tokens call tokens) text total (render_token call token m)
  ]

  -- `resolve` at a depth, by the number of levels that are left: `max_depth + 1 - depth`. With none
  -- left the text stays verbatim.
  unfoldable pub resolve : ℕ → Text → Action Text
  unfolding render_tokens tokenize
  resolve zero input m = some (input, m)
  resolve (suc left) input m = render_tokens (resolve left) (tokenize input) [] 0 m

  -- `run` behind its switch: the transient state is reset, and a stop or a break decides the content.
  abbrev pub reset : Machine → Machine
  reset m = record {
    ctx = record m.ctx { break_body = none; nodes = 0 };
    output = no_output;
    draws = m.draws;
  }

  -- `ctx.break_body.take()` and the content, after `resolve`.
  abbrev pub settle : Text → Machine → Machine
  settle content m = if m.output.stopped then m else elim m.ctx.break_body [
    | some body ↦ record m {
      ctx = record m.ctx { break_body = none };
      output = record m.output { content = body };
    }
    | none ↦ record m { output = record m.output { content = content } }
  ]

  unfoldable pub run_enabled : Text → Machine → Option Machine
  unfolding resolve
  run_enabled template m = elim (resolve (max_depth + 1) template (reset m)) [
    | none ↦ none
    | some (content, m') ↦ some (settle content m')
  ]

  -- The output of `m` is what `run` returns, and its context what `run` leaves.
  unfoldable pub run : Text → Machine → Option Machine
  unfolding run_enabled
  run template m =
      if engine_enabled
      then run_enabled template m
      else some (record m { output = record no_output { content = template } })
