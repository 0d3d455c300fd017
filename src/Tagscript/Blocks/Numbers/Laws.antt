-- ===== src/Tagscript/Blocks/Numbers/Laws.antt =====
-- src/tagscript/blocks.rs: the suffix of an ordinal, and the grouping of digits.
use mathlib.Core.Path.{ap₂}
use benny_rs.Base.{
  ℕ, ◌+◌, ◌≤◌, ◌<◌, ◌%◌, ◌≡◌, refl, ap, ◌∙◌, ◌&&◌, [], ◌∷◌, ◌++◌, arith, leb, ◌==◌, if◌then◌else◌,
  length, length-append,
}
use benny_rs.Base.Text.{Text, text}
use benny_rs.Tagscript.Blocks.Numbers.{ordinal_suffix, commas}

-- The rule as a reader knows it: 11, 12 and 13 take `th`, and else the last digit decides.
pub usual_suffix : ℕ → Text
usual_suffix n =
    if leb 11 (n % 100) && leb (n % 100) 13
    then text "th"
    else if n % 10 == 1
    then text "st"
    else if n % 10 == 2
    then text "nd"
    else if n % 10 == 3
    then text "rd"
    else text "th"

-- Every number gets the suffix of the usual rule for English ordinals.
pub ordinal_suffix-usual_suffix : (n : ℕ) → ordinal_suffix n ≡ usual_suffix n
unfolding ordinal_suffix usual_suffix
ordinal_suffix-usual_suffix n = ground arith

commas-append :
    (xs ys : Text) (len i : ℕ)
    → commas len i (xs ++ ys) ≡ commas len i xs ++ commas len (i + length xs) ys
unfolding commas
commas-append [] ys len i = ground arith
commas-append (x ∷ xs) ys len i = ground (arith, commas-append xs ys len (i + 1))

commas_shift :
    (xs : Text) (len i : ℕ) → i + length xs ≤ len → commas (len + 3) i xs ≡ commas len i xs
unfolding commas
commas_shift [] len i h = refl
commas_shift (x ∷ xs) len i h = ground (arith, commas_shift xs len (i + 1))

commas_group :
    (len a b c : ℕ) → 0 < len → commas (len + 3) (0 + len) (a ∷ b ∷ c ∷ []) ≡ b',' ∷ a ∷ b ∷ c ∷ []
unfolding commas
commas_group len a b c h = ground arith

abbrev pub grouped : Text → Text
grouped digits = commas (length digits) 0 digits

-- Up to three digits stay as they are.
pub grouped_short : (digits : Text) → length digits ≤ 3 → grouped digits ≡ digits
unfolding commas
grouped_short [] h = refl
grouped_short (a ∷ []) h = refl
grouped_short (a ∷ b ∷ []) h = refl
grouped_short (a ∷ b ∷ c ∷ []) h = refl
grouped_short (a ∷ b ∷ c ∷ d ∷ s) h = absurd (omega arith)

-- Three more digits behind at least one digit are set off by one comma, and the grouping of those
-- in front stays as it was.
pub grouped-append_three :
    (digits : Text) (a b c : ℕ)
    → 0 < length digits
    → grouped (digits ++ a ∷ b ∷ c ∷ []) ≡ grouped digits ++ b',' ∷ a ∷ b ∷ c ∷ []
grouped-append_three digits a b c h =
    let n = length digits in
    let three = a ∷ b ∷ c ∷ [] in
    ap (λ len. commas len 0 (digits ++ three)) (length-append digits three ∙ omega arith)
    ∙ commas-append digits three (n + 3) 0
    ∙ ap₂ ◌++◌ (commas_shift digits n 0 (omega arith)) (commas_group n a b c h)
