-- ===== src/Tagscript/Lexer/Fuel.antt =====
-- src/tagscript/lexer.rs, `tokenize`: the fuel of its outer loop.
use benny_rs.Base.{
  ℕ, zero, suc, ◌+◌, ◌-◌, ◌≤◌, ◌≡◌, refl, ap, List, [], ◌∷◌, ◌++◌, arith, ◌==◌, if◌then◌else◌,
  length,
}
use benny_rs.Base.Text.{Text, rest_of}
use benny_rs.Tagscript.Lexer.{
  Token, Read, closed, unclosed, read_block, after_read, turn, tokenize_from,
}

abbrev rest_of_read : Read → Text
rest_of_read (closed content rest) = rest
rest_of_read (unclosed content) = []

length-read_block-le :
    (depth : ℕ) (content s : Text) → length (rest_of_read (read_block depth content s)) ≤ length s
unfolding read_block
length-read_block-le depth content [] = omega arith
length-read_block-le depth content (c ∷ cs) = ground (
  arith,
  length-read_block-le (if c == b'}' then depth - 1 else if c == b'{' then depth + 1 else depth)
      (content ++ c ∷ []) cs,
)

after_read-rest : (lit : Text) (r : Read) → (after_read lit r).2 ≡ rest_of_read r
after_read-rest lit (closed content rest) = refl
after_read-rest lit (unclosed content) = refl

length-rest_of-le : (s : Text) → length (rest_of s) ≤ length s
length-rest_of-le [] = omega arith
length-rest_of-le (c ∷ cs) = omega arith

length-turn-le : (lit : Text) (ch : ℕ) (cs : Text) → length (turn lit ch cs).2 ≤ length cs
unfolding turn
length-turn-le lit ch cs = ground (
  arith,
  after_read-rest lit (read_block 1 [] cs),
  length-read_block-le 1 [] cs,
  length-rest_of-le cs,
)

-- Any two amounts of fuel that are at least the length of the input give the same tokens, so the
-- loop of tokenize ends within that many turns.
pub tokenize_from_fuel :
    (f g : ℕ) (lit s : Text)
    → length s ≤ f
    → length s ≤ g
    → tokenize_from f lit s ≡ tokenize_from g lit s
unfolding tokenize_from
tokenize_from_fuel zero zero lit s h k = refl
tokenize_from_fuel zero (suc g) lit [] h k = refl
tokenize_from_fuel zero (suc g) lit (c ∷ cs) h k = absurd (omega arith)
tokenize_from_fuel (suc f) zero lit [] h k = refl
tokenize_from_fuel (suc f) zero lit (c ∷ cs) h k = absurd (omega arith)
tokenize_from_fuel (suc f) (suc g) lit [] h k = refl
tokenize_from_fuel (suc f) (suc g) lit (c ∷ cs) h k =
    let t = turn lit c cs in
    ap (λ ts. t.0 ++ ts)
      (tokenize_from_fuel f g t.1 t.2 (omega (arith, length-turn-le lit c cs))
        (omega (arith, length-turn-le lit c cs)))

-- The loop from a pending literal, with as much fuel as there is input.
abbrev pub lex : Text → Text → List Token
lex lit s = tokenize_from (length s) lit s

pub lex-cons :
    (lit : Text) (c : ℕ) (cs : Text)
    → lex lit (c ∷ cs) ≡ (turn lit c cs).0 ++ lex (turn lit c cs).1 (turn lit c cs).2
unfolding tokenize_from
lex-cons lit c cs =
    let t = turn lit c cs in
    ap (λ ts. t.0 ++ ts)
      (tokenize_from_fuel (length cs) (length t.2) t.1 t.2 (length-turn-le lit c cs) (omega arith))
