-- ===== src/Tagscript/Blocks/Numbers.antt =====
-- src/tagscript/blocks.rs: ordinals, thousands separators and lengths.
pub mod Laws
use benny_rs.Base.{
  ℕ, zero, suc, ◌+◌, ◌-◌, ◌/◌, ◌%◌, Bool, true, false, not, ◌&&◌, ◌||◌, Option, none, some, List,
  [], ◌∷◌, ◌++◌, ltb, ◌==◌, if◌then◌else◌, length,
}
use benny_rs.Base.Int.{ℤ, pos, negsuc}
use benny_rs.Base.Text.{Text, text, is, is_digit, all_chars, split_once, split_char}
use benny_rs.Base.Show.{show_ℕ, show_ℤ, parse_i64}

-- `S[start]` and `S[start + 4]` of the table `tsnrhtdd`, as the suffix that they select.
abbrev pub suffix_at : ℕ → Text
suffix_at start =
    if start == 1
    then text "st"
    else if start == 2
    then text "nd"
    else if start == 3
    then text "rd"
    else text "th"

unfoldable pub ordinal_suffix : ℕ → Text
ordinal_suffix i =
    let r = i % 10 in
    let tens = i / 10 % 10 in suffix_at (if not (tens == 1) && ltb r 4 then r else 0)

-- The loop over the digits, from index `i` of `len`.
unfoldable pub commas : ℕ → ℕ → Text → Text
commas len i [] = []
commas len i (c ∷ cs) =
    let rest = commas len (i + 1) cs in
    if ltb 0 i && (len - i) % 3 == 0 then b',' ∷ c ∷ rest else c ∷ rest

abbrev pub abs : ℤ → ℕ
abs (pos n) = n
abs (negsuc n) = suc n

abbrev pub is_negative : ℤ → Bool
is_negative (pos n) = false
is_negative (negsuc n) = true

unfoldable pub comma_format : ℤ → Text
unfolding commas show_ℕ
comma_format n =
    let digits = show_ℕ (abs n) in
    let out = commas (length digits) 0 digits in if is_negative n then b'-' ∷ out else out

abbrev pub error_text : Text → Text
error_text name = b'<' ∷ (name ++ text " error>")

-- What stands behind the first `-`, or everything.
abbrev pub number_part : Text → Text
number_part payload = elim (split_once b'-' payload) [ some (a, b) ↦ b | none ↦ payload ]

abbrev pub or_zero : Option ℤ → ℤ
or_zero none = pos 0
or_zero (some n) = n

unfoldable pub ordinal : Option Text → Text → Text → Text
unfolding ordinal_suffix comma_format parse_i64
ordinal parameter payload name =
    let num_str = number_part payload in
    let i = or_zero (parse_i64 num_str) in
    let comma = comma_format i in
    let suffix = ordinal_suffix (abs i) in
    if is num_str [] || not (all_chars is_digit num_str) then error_text name else elim parameter [
      | none ↦ comma ++ suffix
      | some p ↦
          if is p (text "c") || is p (text "comma")
          then comma
          else if is p (text "i") || is p (text "indicator")
          then payload ++ suffix
          else comma ++ suffix
    ]

unfoldable pub length_block : Option Text → Text → Text
unfolding show_ℕ show_ℤ
length_block parameter payload = elim parameter [
  | none ↦ show_ℕ (length payload)
  | some p ↦
      if is p []
      then show_ℕ (length payload)
      else if is p (text "w") || is p (text "word") || is p (text "words")
      then show_ℕ (length (split_char b' ' payload))
      else if is p (text "s") || is p (text "space") || is p (text "spaces")
      then show_ℕ (length (split_char b' ' payload) - 1)
      else text "-1"
]
