-- ===== src/Tagscript/Blocks/Math.antt =====
-- src/tagscript/blocks.rs, `MathParser`: the arithmetic of `{math:...}`. The parser's position is the
-- text that is left. The calls nest as deep as the text has parentheses, signs and powers, so the
-- functions recur on fuel.
pub mod Total
use benny_rs.Base.{
  ℕ, zero, suc, ◌+◌, ◌*◌, Bool, true, false, not, ◌&&◌, ◌||◌, Option, none, some, List, [], ◌∷◌,
  ◌++◌, ◌==◌, if◌then◌else◌, length,
}
use benny_rs.Base.Text.{Text, text, peek_is, rest_of, is_digit, is_whitespace, keep}
use benny_rs.Tagscript.Host.{Host}

-- A parse: a value and the text that is left, a failure (`None`), or no fuel.
pub data Parsed (F : Type 0) : Type 0 where
  parsed : F → Text → Parsed F
  failed : Parsed F
  no_fuel : Parsed F

abbrev pub then_parse : {F : Type 0} → Parsed F → (F → Text → Parsed F) → Parsed F
then_parse (parsed v s) k = k v s
then_parse failed k = failed
then_parse no_fuel k = no_fuel

-- The digits and dots at the front, and what follows them.
abbrev pub number_front : Text → Text × Text
number_front [] = ([], [])
number_front (c ∷ s) =
    let (front, rest) = number_front s in
    if is_digit c || c == b'.' then (c ∷ front, rest) else ([], c ∷ s)

module _ (host : Host) where
  open host use {parse_float, float_eq, float_zero, add, sub, mul, div, rem, powf, neg}

  abbrev pub to_number : Option host.Float → Text → Parsed host.Float
  to_number none rest = failed
  to_number (some v) rest = parsed v rest

  -- A number, at a place where no parenthesis opens.
  unfoldable pub number : Text → Parsed host.Float
  number s =
      let (front, rest) = number_front s in
      elim front [ [] ↦ failed | c ∷ cs ↦ to_number (parse_float (c ∷ cs)) rest ]

  -- `*`, `/` and `%`: the last two fail at a zero.
  abbrev pub apply_term : ℕ → host.Float → host.Float → Option host.Float
  apply_term op v rhs =
      if op == b'*'
      then some (mul v rhs)
      else if float_eq rhs float_zero
      then none
      else some (if op == b'/' then div v rhs else rem v rhs)

  abbrev pub is_sum_op : Text → Bool
  is_sum_op s = peek_is b'+' s || peek_is b'-' s

  abbrev pub is_term_op : Text → Bool
  is_term_op s = peek_is b'*' s || peek_is b'/' s || peek_is b'%' s

  abbrev pub op_of : Text → ℕ
  op_of [] = 0
  op_of (c ∷ s) = c

  abbrev pub close_paren : host.Float → Text → Parsed host.Float
  close_paren v s = if peek_is b')' s then parsed v (rest_of s) else failed

  unfoldable mutual
    unfolding number

    -- expr = term (('+'|'-') term)*
    pub expr : ℕ → Text → Parsed host.Float
    expr zero s = no_fuel
    expr (suc f) s = then_parse (term f s) (expr_loop f)

    pub expr_loop : ℕ → host.Float → Text → Parsed host.Float
    expr_loop zero v s = no_fuel
    expr_loop (suc f) v s = elim (is_sum_op s) [
      | true ↦
          then_parse (term f (rest_of s))
            (λ rhs r. expr_loop f (if op_of s == b'+' then add v rhs else sub v rhs) r)
      | false ↦ parsed v s
    ]

    -- term = factor (('*'|'/'|'%') factor)*
    pub term : ℕ → Text → Parsed host.Float
    term zero s = no_fuel
    term (suc f) s = then_parse (factor f s) (term_loop f)

    pub term_loop : ℕ → host.Float → Text → Parsed host.Float
    term_loop zero v s = no_fuel
    term_loop (suc f) v s = elim (is_term_op s) [
      | true ↦
          then_parse (factor f (rest_of s)) (λ rhs r. elim (apply_term (op_of s) v rhs) [
            | none ↦ failed
            | some w ↦ term_loop f w r
          ])
      | false ↦ parsed v s
    ]

    -- factor = unary ('^' factor)?
    pub factor : ℕ → Text → Parsed host.Float
    factor zero s = no_fuel
    factor (suc f) s = then_parse (unary f s) (λ base r. elim (peek_is b'^' r) [
      | true ↦ then_parse (factor f (rest_of r)) (λ e r'. parsed (powf base e) r')
      | false ↦ parsed base r
    ])

    -- unary = ('+'|'-')? primary
    pub unary : ℕ → Text → Parsed host.Float
    unary zero s = no_fuel
    unary (suc f) s = elim (peek_is b'-' s) [
      | true ↦ then_parse (unary f (rest_of s)) (λ v r. parsed (neg v) r)
      | false ↦ elim (peek_is b'+' s) [ true ↦ unary f (rest_of s) | false ↦ primary f s ]
    ]

    -- primary = number | '(' expr ')'
    pub primary : ℕ → Text → Parsed host.Float
    primary zero s = no_fuel
    primary (suc f) s = elim (peek_is b'(' s) [
      | true ↦ then_parse (expr f (rest_of s)) close_paren
      | false ↦ number s
    ]

  abbrev pub spaceless : Text → Text
  spaceless = keep (λ c. not (is_whitespace c))

  -- Six calls take a character, and six more end the text.
  abbrev pub math_fuel : Text → ℕ
  math_fuel s = 6 * length s + 6

  abbrev pub finished : Parsed host.Float → Option host.Float
  finished (parsed v []) = if host.is_finite v then some v else none
  finished (parsed v (c ∷ s)) = none
  finished failed = none
  finished no_fuel = none

  unfoldable pub eval_math : Text → Option host.Float
  unfolding expr
  eval_math s = let chars = spaceless s in finished (expr (math_fuel chars) chars)
