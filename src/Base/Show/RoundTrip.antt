-- ===== src/Base/Show/RoundTrip.antt =====
-- Lemmas on printing integers, reading them, and trimming them.
use benny_rs.Base.Tests.{ltb, ◌==◌}
use benny_rs.Base.Int.{pos, negsuc}
use benny_rs.Base.Text.{
  Text, peek_is, keep, is_digit, is_whitespace, all_chars, digits_from, digits_value, trim,
  trim_start, trim_end,
}
use benny_rs.Base.Show.{show_from, show_ℕ, parse_i64}
use Prim.Native.Nat.{ℕ, zero, suc, ◌+◌, ◌-◌, ◌*◌, ◌/◌, ◌%◌, ◌^◌, ◌≤◌, ◌<◌}
use mathlib.Core.Path.{◌≡◌, refl, ap, ◌∙◌}
use mathlib.Core.Bool.{Bool, true, false, not}
use mathlib.Core.Option.{none, some}
use mathlib.Core.List.{append-nil, [], ◌∷◌, ◌++◌}
use native.Mathlib.Omega.{arith}

-- Printed digits are digits, and are read back.
digits_from-append :
    (s : Text) (n m : ℕ) (d : ℕ)
    → digits_from n s ≡ some m
    → d < 10
    → digits_from n (s ++ (b'0' + d) ∷ []) ≡ some (m * 10 + d)
unfolding digits_from
digits_from-append [] n m d h k = ground arith
digits_from-append (c ∷ s) n m d h k =
    ground (arith, digits_from-append s (n * 10 + (c - b'0')) m d)

digits_from_one : (d : ℕ) → d < 10 → digits_from 0 ((b'0' + d) ∷ []) ≡ some d
unfolding digits_from
digits_from_one d h = ground arith

digits_from-show_from : (fuel n : ℕ) → n ≤ fuel → digits_from 0 (show_from fuel n) ≡ some n
unfolding show_from
digits_from-show_from zero n h = unfold digits_from in ground arith
digits_from-show_from (suc fuel) n h = ground (
  arith,
  digits_from-append (show_from fuel (n / 10)) 0 (n / 10) (n % 10),
  digits_from-show_from fuel (n / 10),
  digits_from_one (n % 10),
)

-- One digit at least, and nothing but digits.
abbrev pub is_numeral : Text → Bool
is_numeral [] = false
is_numeral (c ∷ s) = all_chars is_digit (c ∷ s)

all_digits-append :
    (s : Text) (d : ℕ)
    → all_chars is_digit s ≡ true
    → is_digit d ≡ true
    → all_chars is_digit (s ++ d ∷ []) ≡ true
all_digits-append [] d h k = ground arith
all_digits-append (c ∷ s) d h k = ground (arith, all_digits-append s d)

is_numeral-append :
    (s : Text) (d : ℕ) → is_numeral s ≡ true → is_digit d ≡ true → is_numeral (s ++ d ∷ []) ≡ true
is_numeral-append [] d h k = ground arith
is_numeral-append (c ∷ s) d h k = all_digits-append (c ∷ s) d h k

is_digit_last : (n : ℕ) → is_digit (b'0' + n % 10) ≡ true
is_digit_last n = ground arith

is_numeral-show_from : (fuel n : ℕ) → is_numeral (show_from fuel n) ≡ true
unfolding show_from
is_numeral-show_from zero n = ground (arith, is_digit_last n)
is_numeral-show_from (suc fuel) n = ground (
  arith,
  is_digit_last n,
  is_numeral-show_from fuel (n / 10),
  is_numeral-append (show_from fuel (n / 10)) (b'0' + n % 10),
)

pub is_numeral-show_ℕ : (n : ℕ) → is_numeral (show_ℕ n) ≡ true
unfolding show_ℕ
is_numeral-show_ℕ n = is_numeral-show_from n n

digits_value_numeral :
    (s : Text) (n : ℕ) → is_numeral s ≡ true → digits_from 0 s ≡ some n → digits_value s ≡ some n
digits_value_numeral [] n h e = ground arith
digits_value_numeral (c ∷ s) n h e = e

pub digits_value-show_ℕ : (n : ℕ) → digits_value (show_ℕ n) ≡ some n
unfolding show_ℕ
digits_value-show_ℕ n =
    digits_value_numeral (show_from n n) n (is_numeral-show_from n n)
      (digits_from-show_from n n (omega arith))

-- A number without a sign is read as it stands, and with a plus sign to the same value.
unsigned : (s : Text) → is_numeral s ≡ true → (peek_is b'-' s ≡ false) × (peek_is b'+' s ≡ false)
unsigned [] h = ground arith
unsigned (c ∷ s) h = ground arith

in_range : (n : ℕ) → n < 2 ^ 63 → ltb n (2 ^ 63) ≡ true
in_range n h = ground arith

parse_i64_numeral :
    (s : Text) (n : ℕ)
    → is_numeral s ≡ true
    → digits_value s ≡ some n
    → n < 2 ^ 63
    → parse_i64 s ≡ some (pos n)
unfolding parse_i64
parse_i64_numeral s n h e small = rw ((unsigned s h).0, (unsigned s h).1, e, in_range n small) refl

pub parse_i64-show_ℕ : (n : ℕ) → n < 2 ^ 63 → parse_i64 (show_ℕ n) ≡ some (pos n)
parse_i64-show_ℕ n small =
    parse_i64_numeral (show_ℕ n) n (is_numeral-show_ℕ n) (digits_value-show_ℕ n) small

-- A plus sign is read as well.
pub parse_i64-plus : (n : ℕ) → n < 2 ^ 63 → parse_i64 (b'+' ∷ show_ℕ n) ≡ some (pos n)
unfolding parse_i64
parse_i64-plus n small = rw (digits_value-show_ℕ n, in_range n small) refl

pub parse_i64-minus : (n : ℕ) → n < 2 ^ 63 → parse_i64 (b'-' ∷ show_ℕ (suc n)) ≡ some (negsuc n)
unfolding parse_i64
parse_i64-minus n small = rw (digits_value-show_ℕ (suc n), in_range n small) refl

-- ---- `trim` ----

abbrev pub solid : ℕ → Bool
solid c = not (is_whitespace c)

trim_end-solid : (s : Text) → all_chars solid s ≡ true → trim_end s ≡ s
unfolding trim_end
trim_end-solid [] h = refl
trim_end-solid (c ∷ []) h = ground arith
trim_end-solid (c ∷ d ∷ s) h =
    let rest : trim_end (d ∷ s) ≡ d ∷ s = trim_end-solid (d ∷ s) (ground arith) in rw rest refl

trim_start-solid : (s : Text) → all_chars solid s ≡ true → trim_start s ≡ s
unfolding trim_start
trim_start-solid [] h = refl
trim_start-solid (c ∷ s) h = ground arith

pub trim-solid : (s : Text) → all_chars solid s ≡ true → trim s ≡ s
unfolding trim
trim-solid s h = ap trim_end (trim_start-solid s h) ∙ trim_end-solid s h

digit_solid : (c : ℕ) → is_digit c ≡ true → solid c ≡ true
digit_solid c h = ground arith

digits_solid : (s : Text) → all_chars is_digit s ≡ true → all_chars solid s ≡ true
digits_solid [] h = refl
digits_solid (c ∷ s) h = ground (arith, digit_solid c, digits_solid s)

numeral_solid : (s : Text) → is_numeral s ≡ true → all_chars solid s ≡ true
numeral_solid [] h = refl
numeral_solid (c ∷ s) h = digits_solid (c ∷ s) h

pub show_ℕ-solid : (n : ℕ) → all_chars solid (show_ℕ n) ≡ true
show_ℕ-solid n = numeral_solid (show_ℕ n) (is_numeral-show_ℕ n)

pub show_ℕ-ne-minus : (n : ℕ) → peek_is b'-' (show_ℕ n) ≡ false
show_ℕ-ne-minus n = (unsigned (show_ℕ n) (is_numeral-show_ℕ n)).0

-- A plus sign behind the digits is no number.
digits_from-plus : (n : ℕ) (s : Text) → digits_from n (s ++ b'+' ∷ []) ≡ none
unfolding digits_from
digits_from-plus n [] = ground arith
digits_from-plus n (c ∷ s) = ground (arith, digits_from-plus (n * 10 + (c - b'0')) s)

parse_i64_trailing : (s : Text) → is_numeral s ≡ true → parse_i64 (s ++ b'+' ∷ []) ≡ none
unfolding parse_i64
parse_i64_trailing [] h = ground arith
parse_i64_trailing (c ∷ s) h =
    rw ((unsigned (c ∷ s) h).0, (unsigned (c ∷ s) h).1, digits_from-plus 0 (c ∷ s)) refl

pub parse_i64-show_ℕ_plus : (n : ℕ) → parse_i64 (show_ℕ n ++ b'+' ∷ []) ≡ none
parse_i64-show_ℕ_plus n = parse_i64_trailing (show_ℕ n) (is_numeral-show_ℕ n)

digits_keep :
    (s rest : Text)
    → all_chars is_digit s ≡ true
    → keep (λ c. not (c == b'+')) (s ++ rest) ≡ s ++ keep (λ c. not (c == b'+')) rest
digits_keep [] rest h = refl
digits_keep (c ∷ s) rest h = ground (arith, digits_keep s rest)

-- A numeral with a plus sign behind it: it does not begin with one, `trim` leaves it alone, and
-- without the sign it is the numeral.
front_unsigned : (s rest : Text) → is_numeral s ≡ true → peek_is b'+' (s ++ rest) ≡ false
front_unsigned [] rest h = ground arith
front_unsigned (c ∷ s) rest h = ground arith

solid-append_plus : (s : Text) → all_chars solid s ≡ true → all_chars solid (s ++ b'+' ∷ []) ≡ true
solid-append_plus [] h = refl
solid-append_plus (c ∷ s) h = ground (arith, solid-append_plus s)

numeral_digits : (s : Text) → is_numeral s ≡ true → all_chars is_digit s ≡ true
numeral_digits [] h = refl
numeral_digits (c ∷ s) h = h

pub show_ℕ_plus-front : (n : ℕ) → peek_is b'+' (show_ℕ n ++ b'+' ∷ []) ≡ false
show_ℕ_plus-front n = front_unsigned (show_ℕ n) (b'+' ∷ []) (is_numeral-show_ℕ n)

pub trim-show_ℕ_plus : (n : ℕ) → trim (show_ℕ n ++ b'+' ∷ []) ≡ show_ℕ n ++ b'+' ∷ []
trim-show_ℕ_plus n =
    trim-solid (show_ℕ n ++ b'+' ∷ []) (solid-append_plus (show_ℕ n) (show_ℕ-solid n))

pub keep-show_ℕ_plus : (n : ℕ) → keep (λ c. not (c == b'+')) (show_ℕ n ++ b'+' ∷ []) ≡ show_ℕ n
keep-show_ℕ_plus n =
    digits_keep (show_ℕ n) (b'+' ∷ []) (numeral_digits (show_ℕ n) (is_numeral-show_ℕ n))
    ∙ append-nil (show_ℕ n)
