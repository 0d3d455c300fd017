-- ===== src/Tagscript/Lexer/Parsing.antt =====
-- src/tagscript/lexer.rs, `parse_block`, at a block that is written out.
use benny_rs.Base.{
  ℕ, zero, suc, ◌+◌, ◌-◌, ◌≡◌, refl, sym, ap, ◌∙◌, Bool, true, false, not, ◌&&◌, ◌||◌, Option, none,
  some, List, [], ◌∷◌, ◌++◌, arith, ◌==◌, if◌then◌else◌, length, take, drop, append-nil,
  append_assoc, length-append,
}
use benny_rs.Base.Text.{Text, all_chars}
use benny_rs.Tagscript.Lexer.{block, Scan, start, payload_after, parse_from, parse_block}
use benny_rs.Tagscript.Blocks.Verbatim.{inside}

-- A character that neither ends a name nor escapes.
abbrev pub plain_char : ℕ → Bool
plain_char c = not (c == b'(' || c == b':' || c == b'\\')

abbrev pub IsName : Text → Type 0
IsName name = all_chars plain_char name ≡ true

-- The parentheses match, from `d` open ones down to none, and nothing is escaped.
abbrev pub parens_match : ℕ → Text → Bool
parens_match d [] = d == 0
parens_match d (c ∷ cs) =
    not (c == b'\\')
    && not (c == b')' && d == 0)
    && parens_match (if c == b'(' then d + 1 else if c == b')' then d - 1 else d) cs

abbrev inside_parens : Option ℕ → Option Text → ℕ → Scan
inside_parens at name d = record {
  depth = suc d;
  param_start = at;
  declaration = name;
  skip = false;
}

module _ (chars rest : Text) where
  parse_from-name :
      (name : Text) (i : ℕ)
      → IsName name
      → parse_from chars i start (name ++ rest) ≡ parse_from chars (i + length name) start rest
  unfolding parse_from
  parse_from-name [] i h = ground arith
  parse_from-name (c ∷ cs) i h = ground (arith, parse_from-name cs (i + 1))

  parse_from-param :
      (at : ℕ) (name : Option Text) (p : Text) (d i : ℕ)
      → parens_match d p ≡ true
      → parse_from chars i (inside_parens (some at) name d) (p ++ rest)
        ≡ parse_from chars (i + length p) (inside_parens (some at) name 0) rest
  unfolding parse_from
  parse_from-param at name [] d i h = ground arith
  parse_from-param at name (c ∷ cs) d i h = ground (
    arith,
    parse_from-param at name cs (if c == b'(' then d + 1 else if c == b')' then d - 1 else d)
        (i + 1),
  )

-- Slicing at the length of a part, the index being any number with that value.
module _ {ℓ} {A : Type ℓ} where
  take_part : (n : ℕ) (xs ys : List A) → n ≡ length xs → take n (xs ++ ys) ≡ xs
  take_part zero [] ys e = refl
  take_part zero (x ∷ xs) ys e = absurd (omega arith)
  take_part (suc n) [] ys e = absurd (omega arith)
  take_part (suc n) (x ∷ xs) ys e = ap (◌∷◌ x) (take_part n xs ys (omega arith))

  drop_part : (n : ℕ) (xs ys : List A) → n ≡ length xs → drop n (xs ++ ys) ≡ ys
  drop_part zero [] ys e = refl
  drop_part zero (x ∷ xs) ys e = absurd (omega arith)
  drop_part (suc n) [] ys e = absurd (omega arith)
  drop_part (suc n) (x ∷ xs) ys e = drop_part n xs ys (omega arith)

  drop_past :
      (n : ℕ) (xs : List A) (y : A) (ys : List A) → n ≡ length xs + 1 → drop n (xs ++ y ∷ ys) ≡ ys
  drop_past zero xs y ys e = absurd (omega arith)
  drop_past (suc zero) [] y ys e = refl
  drop_past (suc (suc n)) [] y ys e = absurd (omega arith)
  drop_past (suc n) (x ∷ xs) y ys e = drop_past n xs y ys (omega arith)

drop_two {ℓ} :
    {A : Type ℓ} (n : ℕ) (xs : List A) (y : A) (zs : List A) (w : A) (ys : List A)
    → n ≡ length xs + 1 + length zs + 1
    → drop n (xs ++ y ∷ (zs ++ w ∷ ys)) ≡ ys
drop_two n xs y zs w ys e =
    ap (drop n) (sym (append_assoc xs (y ∷ zs) (w ∷ ys)))
    ∙ drop_past n (xs ++ y ∷ zs) w ys (omega (arith, length-append xs (y ∷ zs)))

module _ (name : Text) (plain : IsName name) where
  parse_block-bare : parse_block (name ++ []) ≡ block name none none
  unfolding parse_block
  parse_block-bare = parse_from-name (name ++ []) [] name 0 plain ∙ rw append-nil

  parse_block-colon :
      (payload : Text) → parse_block (name ++ b':' ∷ payload) ≡ block name none (some payload)
  unfolding parse_block
  parse_block-colon payload =
      let chars = name ++ b':' ∷ payload in
      parse_from-name chars (b':' ∷ payload) name 0 plain
      ∙ rw (
        take_part (0 + length name) name (b':' ∷ payload) (omega arith),
        drop_past (0 + length name + 1) name b':' payload (omega arith),
      )

  -- A closed parameter: what follows it is the payload if it begins with a colon, and is dropped if
  -- it does not.
  pub parse_block-paren :
      (p tail : Text)
      → parens_match 0 p ≡ true
      → parse_block (name ++ b'(' ∷ (p ++ b')' ∷ tail)) ≡ block name (some p) (payload_after tail)
  unfolding parse_block
  parse_block-paren p tail ok =
      let n = 0 + length name in
      let chars = name ++ b'(' ∷ (p ++ b')' ∷ tail) in
      let first : take n chars ≡ name = take_part n name _ (omega arith) in
      let inner : drop (n + 1) chars ≡ p ++ b')' ∷ tail =
        drop_past (n + 1) name b'(' _ (omega arith) in
      let whole : drop (n + 1 + length p + 1) chars ≡ tail =
        drop_two _ name b'(' p b')' tail (omega arith) in
      parse_from-name chars (b'(' ∷ (p ++ b')' ∷ tail)) name 0 plain
      ∙ parse_from-param chars (b')' ∷ tail) n (some (take n chars)) p 0 (n + 1) ok
      ∙ rw (
        first,
        whole,
        inner,
        take_part (n + 1 + length p - (n + 1)) p (b')' ∷ tail) (omega arith),
      )

-- A parameter that is written in parentheses, if there is one, has matching parentheses.
abbrev pub IsParameter : Option Text → Type 0
IsParameter none = Unit
IsParameter (some p) = parens_match 0 p ≡ true

-- The inside of a block that is written from a name without delimiters, a parameter whose
-- parentheses match, and any payload is read back as these three.
pub parse_block-inside :
    (name : Text) (parameter payload : Option Text)
    → IsName name
    → IsParameter parameter
    → parse_block (inside name parameter payload) ≡ block name parameter payload
parse_block-inside name none none plain ok = parse_block-bare name plain
parse_block-inside name none (some q) plain ok = parse_block-colon name plain q
parse_block-inside name (some p) none plain ok =
    ap parse_block (ap (λ s. name ++ b'(' ∷ s) (append_assoc p (b')' ∷ []) []))
    ∙ parse_block-paren name plain p [] ok
parse_block-inside name (some p) (some q) plain ok =
    ap parse_block (ap (λ s. name ++ b'(' ∷ s) (append_assoc p (b')' ∷ []) (b':' ∷ q)))
    ∙ parse_block-paren name plain p (b':' ∷ q) ok
