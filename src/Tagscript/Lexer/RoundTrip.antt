-- ===== src/Tagscript/Lexer/RoundTrip.antt =====
-- src/tagscript/lexer.rs, `tokenize`, at a template that is written from tokens.
use benny_rs.Base.{
  ℕ, suc, ◌+◌, ◌-◌, ◌≡◌, refl, sym, ap, ◌∙◌, Bool, true, false, not, ◌&&◌, ◌||◌, Option, none, some,
  List, [], ◌∷◌, ◌++◌, arith, ◌==◌, if◌then◌else◌, append-nil, append_assoc, Bool-cases, inl, inr,
}
use benny_rs.Base.Text.{Text, all_chars, peek_is}
use benny_rs.Tagscript.Lexer.{
  Token, literal, block, closed, read_block, flush, turn, tokenize_from, tokenize, parse_block,
}
use benny_rs.Tagscript.Lexer.Fuel.{lex, lex-cons}
use benny_rs.Tagscript.Lexer.Parsing.{IsName, IsParameter, parse_block-inside}
use benny_rs.Tagscript.Blocks.Verbatim.{inside, reconstruct}

-- The braces match, from `d` open ones down to none.
abbrev pub braces_match : ℕ → Text → Bool
braces_match d [] = d == 0
braces_match d (c ∷ cs) =
    not (c == b'}' && d == 0)
    && braces_match (if c == b'}' then d - 1 else if c == b'{' then d + 1 else d) cs

abbrev pub not_brace : ℕ → Bool
not_brace c = not (c == b'{' || c == b'}')

braces_match-append :
    (d : ℕ) (xs ys : Text)
    → braces_match d xs ≡ true
    → braces_match 0 ys ≡ true
    → braces_match d (xs ++ ys) ≡ true
braces_match-append d [] ys h k = ground arith
braces_match-append d (c ∷ cs) ys h k =
    ground (
      arith,
      braces_match-append (if c == b'}' then d - 1 else if c == b'{' then d + 1 else d) cs ys,
    )

braces_match-name : (name : Text) → all_chars not_brace name ≡ true → braces_match 0 name ≡ true
braces_match-name [] h = refl
braces_match-name (c ∷ cs) h = ground (arith, braces_match-name cs)

read_block-content :
    (d : ℕ) (content s rest : Text)
    → braces_match d s ≡ true
    → read_block (suc d) content (s ++ b'}' ∷ rest) ≡ closed (content ++ s) rest
unfolding read_block
read_block-content d content [] rest h = ground (arith, append-nil content)
read_block-content d content (c ∷ cs) rest h = ground (
  arith,
  read_block-content (if c == b'}' then d - 1 else if c == b'{' then d + 1 else d)
      (content ++ c ∷ []) cs rest,
  append_assoc content (c ∷ []) cs,
)

-- A block that prints to a text which reads as one block: its name holds no delimiter, and the
-- braces of its parts match.
pub record IsBlock (name : Text) (parameter payload : Option Text) : Type 0 where
  pub name_plain : IsName name
  pub name_open : all_chars not_brace name ≡ true
  pub parens : IsParameter parameter
  pub braces : braces_match 0 (inside name parameter payload) ≡ true

peek-inside :
    (name : Text) (parameter payload : Option Text) (rest : Text)
    → all_chars not_brace name ≡ true
    → peek_is b'{' (inside name parameter payload ++ b'}' ∷ rest) ≡ false
peek-inside [] none none rest h = refl
peek-inside [] none (some q) rest h = refl
peek-inside [] (some p) payload rest h = refl
peek-inside (c ∷ cs) parameter payload rest h = ground arith

lex-braces :
    (lit s rest : Text)
    → braces_match 0 s ≡ true
    → peek_is b'{' (s ++ b'}' ∷ rest) ≡ false
    → lex lit (b'{' ∷ (s ++ b'}' ∷ rest)) ≡ flush lit ++ parse_block s ∷ lex [] rest
lex-braces lit s rest h k =
    lex-cons lit b'{' (s ++ b'}' ∷ rest)
    ∙ unfold turn in
      rw (k, read_block-content 0 [] s rest h)
        (append_assoc (flush lit) (parse_block s ∷ []) (lex [] rest))

-- Behind any pending literal and before any rest, a printed block is read as that block.
pub lex-reconstruct :
    (lit name : Text) (parameter payload : Option Text) (rest : Text)
    → IsBlock name parameter payload
    → lex lit (reconstruct name parameter payload ++ rest)
      ≡ flush lit ++ block name parameter payload ∷ lex [] rest
unfolding reconstruct
lex-reconstruct lit name parameter payload rest w =
    let s = inside name parameter payload in
    ap (λ t. lex lit (b'{' ∷ t)) (append_assoc s (b'}' ∷ []) rest)
    ∙ lex-braces lit s rest w.braces (peek-inside name parameter payload rest w.name_open)
    ∙ ap (λ t. flush lit ++ t ∷ lex [] rest)
        (parse_block-inside name parameter payload w.name_plain w.parens)

-- Literal text, each brace doubled.
abbrev pub escape : Text → Text
escape [] = []
escape (c ∷ cs) = if not_brace c then c ∷ escape cs else c ∷ c ∷ escape cs

lex-plain :
    (lit : Text) (c : ℕ) (s : Text) → not_brace c ≡ true → lex lit (c ∷ s) ≡ lex (lit ++ c ∷ []) s
lex-plain lit c s h = lex-cons lit c s ∙ unfold turn in ground arith

lex-doubled :
    (lit : Text) (c : ℕ) (s : Text)
    → not_brace c ≡ false
    → lex lit (c ∷ c ∷ s) ≡ lex (lit ++ c ∷ []) s
lex-doubled lit c s h = lex-cons lit c (c ∷ s) ∙ unfold turn in ground arith

lex-escape : (lit s rest : Text) → lex lit (escape s ++ rest) ≡ lex (lit ++ s) rest
lex-escape lit [] rest = ap (λ t. lex t rest) (sym (append-nil lit))
lex-escape lit (c ∷ cs) rest =
    let further =
      lex-escape (lit ++ c ∷ []) cs rest ∙ ap (λ t. lex t rest) (append_assoc lit (c ∷ []) cs) in
    elim (Bool-cases (not_brace c)) [
      | inl plain ↦ rw plain (lex-plain lit c (escape cs ++ rest) plain ∙ further)
      | inr brace ↦ rw brace (lex-doubled lit c (escape cs ++ rest) brace ∙ further)
    ]

abbrev pub print : List Token → Text
print [] = []
print (literal s ∷ ts) = escape s ++ print ts
print (block name parameter payload ∷ ts) = reconstruct name parameter payload ++ print ts

-- No literal is empty, and no two stand side by side; `behind` says that one stands in front.
abbrev pub IsTemplate : (behind : Bool) → List Token → Type 0
IsTemplate behind [] = Unit
IsTemplate false (literal (c ∷ s) ∷ ts) = IsTemplate true ts
IsTemplate false (literal [] ∷ ts) = ⊥
IsTemplate true (literal s ∷ ts) = ⊥
IsTemplate behind (block name parameter payload ∷ ts) =
    IsBlock name parameter payload × IsTemplate false ts

IsTemplate-block :
    (behind : Bool) (name : Text) (parameter payload : Option Text) (ts : List Token)
    → IsTemplate behind (block name parameter payload ∷ ts)
    → IsBlock name parameter payload × IsTemplate false ts
IsTemplate-block true name parameter payload ts w = w
IsTemplate-block false name parameter payload ts w = w

abbrev pending : Text → Bool
pending [] = false
pending (c ∷ s) = true

lex-print :
    (lit : Text) (ts : List Token)
    → IsTemplate (pending lit) ts
    → lex lit (print ts) ≡ flush lit ++ ts
lex-print lit [] w = unfold tokenize_from in sym (append-nil (flush lit))
lex-print [] (literal [] ∷ ts) w = absurd w
lex-print [] (literal (c ∷ s) ∷ ts) w = lex-escape [] (c ∷ s) (print ts) ∙ lex-print (c ∷ s) ts w
lex-print (x ∷ xs) (literal s ∷ ts) w = absurd w
lex-print lit (block name parameter payload ∷ ts) w =
    lex-reconstruct lit name parameter payload (print ts)
      (IsTemplate-block (pending lit) name parameter payload ts w).0
    ∙ ap (λ t. flush lit ++ block name parameter payload ∷ t)
        (lex-print [] ts (IsTemplate-block (pending lit) name parameter payload ts w).1)

pub tokenize-print : (ts : List Token) → IsTemplate false ts → tokenize (print ts) ≡ ts
unfolding tokenize
tokenize-print ts w = lex-print [] ts w

-- A block that is left verbatim reads as the same block again, if its name holds no delimiter and
-- its parentheses and braces match.
pub tokenize-reconstruct :
    (name : Text) (parameter payload : Option Text)
    → IsBlock name parameter payload
    → tokenize (reconstruct name parameter payload) ≡ block name parameter payload ∷ []
unfolding tokenize
tokenize-reconstruct name parameter payload w =
    ap (lex []) (sym (append-nil (reconstruct name parameter payload)))
    ∙ lex-reconstruct [] name parameter payload [] w
