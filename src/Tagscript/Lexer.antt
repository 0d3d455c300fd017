-- ===== src/Tagscript/Lexer.antt =====
-- src/tagscript/lexer.rs: a template is split into literals and `{...}` blocks.
pub mod Parsing
pub mod Fuel
pub mod RoundTrip
use benny_rs.Base.{
  ℕ, zero, suc, ◌+◌, ◌-◌, Bool, true, false, ◌&&◌, Option, none, some, List, [], ◌∷◌, ◌++◌, ◌⊎◌,
  inl, inr, ltb, ◌==◌, if◌then◌else◌, length, take, drop,
}
use benny_rs.Base.Text.{Text, peek_is, rest_of}

pub data Token : Type 0 where
  literal : Text → Token
  block : (declaration : Text) (parameter payload : Option Text) → Token

-- ---- `parse_block`: the inside of a block ----

-- The variables of the loop. `parameter` and `payload` are set only where it returns.
pub record Scan : Type 0 where
  pub depth : ℕ
  pub param_start : Option ℕ
  pub declaration : Option Text
  pub skip : Bool

abbrev pub start : Scan
start = record { depth = 0; param_start = none; declaration = none; skip = false }

unfoldable pub finish : Option Text → Option Text → Option Text → Token
finish none parameter payload = block [] parameter payload
finish (some name) parameter payload = block name parameter payload

-- `chars[a..b]`
abbrev pub slice : ℕ → ℕ → Text → Text
slice a b chars = take (b - a) (drop a chars)

abbrev pub parameter_of : Text → ℕ → Option ℕ → Option Text
parameter_of chars i none = none
parameter_of chars i (some at) = some (slice (at + 1) i chars)

-- A colon immediately after the parameter starts the payload.
abbrev pub payload_after : Text → Option Text
payload_after tail = if peek_is b':' tail then some (rest_of tail) else none

abbrev pub open_paren : Text → ℕ → Scan → Scan
open_paren chars i s = elim s.param_start [
  | none ↦
      if s.depth == 0
      then record s { depth = 1; param_start = some i; declaration = some (take i chars) }
      else record s { depth = s.depth + 1 }
  | some _ ↦ record s { depth = s.depth + 1 }
]

-- One turn of the loop, at `c = chars[i]`: the token that is returned, or the variables after it.
unfoldable pub parse_step : Text → ℕ → Scan → ℕ → Token ⊎ Scan
unfolding finish
parse_step chars i s c =
    if s.skip
    then inr (record s { skip = false })
    else if c == b'\\'
    then inr (record s { skip = true })
    else if c == b':' && s.depth == 0
    then inl (finish (some (take i chars)) none (some (drop (i + 1) chars)))
    else if c == b'('
    then inr (open_paren chars i s)
    else if c == b')' && ltb 0 s.depth
    then (if s.depth - 1 == 0
        then inl (
            finish s.declaration (parameter_of chars i s.param_start)
              (payload_after (drop (i + 1) chars)))
        else inr (record s { depth = s.depth - 1 }))
    else inr s

unfoldable pub parse_from : Text → ℕ → Scan → Text → Token
unfolding parse_step
parse_from chars i s [] = finish (some chars) none none
parse_from chars i s (c ∷ cs) = elim (parse_step chars i s c) [
  | inl token ↦ token
  | inr s' ↦ parse_from chars (i + 1) s' cs
]

unfoldable pub parse_block : Text → Token
unfolding parse_from
parse_block content = parse_from content 0 start content

-- ---- `tokenize` ----

-- The end of the inner loop: the block's content and what follows it, or the content up to the end of
-- the input.
pub data Read : Type 0 where
  closed : Text → Text → Read
  unclosed : Text → Read

-- The inner loop, which tracks the nesting depth up to the matching brace.
unfoldable pub read_block : ℕ → Text → Text → Read
read_block depth content [] = unclosed content
read_block depth content (c ∷ cs) =
    let depth' = if c == b'}' then depth - 1 else if c == b'{' then depth + 1 else depth in
    let further = read_block depth' (content ++ c ∷ []) cs in
    if c == b'}' && depth' == 0 then closed content cs else further

-- A literal is pushed unless it is empty.
abbrev pub flush : Text → List Token
flush [] = []
flush (c ∷ s) = literal (c ∷ s) ∷ []

-- What one turn of the outer loop pushes, the literal after it, and the input that is left.
abbrev pub Turn : Type 0
Turn = List Token × Text × Text

abbrev pub after_read : Text → Read → Turn
after_read lit (closed content rest) = (flush lit ++ parse_block content ∷ [], [], rest)
after_read lit (unclosed content) = ([], lit ++ (b'{' ∷ content), [])

unfoldable pub turn : Text → ℕ → Text → Turn
unfolding read_block parse_block
turn lit ch cs =
    if ch == b'{'
    then (if peek_is b'{' cs
        then ([], lit ++ b'{' ∷ [], rest_of cs)
        else after_read lit (read_block 1 [] cs))
    else if ch == b'}'
    then ([], lit ++ b'}' ∷ [], if peek_is b'}' cs then rest_of cs else cs)
    else ([], lit ++ ch ∷ [], cs)

-- The outer loop. Each turn takes at least one character, so the length of the input is fuel enough.
unfoldable pub tokenize_from : ℕ → Text → Text → List Token
unfolding turn
tokenize_from zero lit input = flush lit
tokenize_from (suc fuel) lit [] = flush lit
tokenize_from (suc fuel) lit (ch ∷ cs) =
    let (pushed, lit', rest) = turn lit ch cs in pushed ++ tokenize_from fuel lit' rest

unfoldable pub tokenize : Text → List Token
unfolding tokenize_from
tokenize input = tokenize_from (length input) [] input
