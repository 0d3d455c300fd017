-- ===== src/Tagscript/Blocks/Range.antt =====
-- src/tagscript/blocks.rs: `range_block`, `pick_int` and `format_num`.
pub mod Bounds
use benny_rs.Base.{
  ℕ, ◌+◌, ◌%◌, ◌^◌, Bool, not, Option, none, some, List, [], ◌∷◌, ◌==◌, if◌then◌else◌,
}
use benny_rs.Base.Int.{ℤ, pos, pos_part, ◌+ℤ◌, ◌-ℤ◌, ltb_ℤ}
use benny_rs.Base.Text.{Text, trim, has_char, split_once}
use benny_rs.Base.Show.{show_ℤ}
use benny_rs.Tagscript.Host.{Host}
use benny_rs.Tagscript.Blocks.Random.{seed_index, non_empty}

-- `trim_end_matches(c)`
unfoldable pub trim_end_char : ℕ → Text → Text
trim_end_char x [] = []
trim_end_char x (c ∷ s) = elim (trim_end_char x s) [
  | [] ↦ if c == x then [] else c ∷ []
  | d ∷ rest ↦ c ∷ d ∷ rest
]

-- `hi - lo + 1`, cast to `usize`
abbrev pub span_of : ℤ → ℤ → ℕ
span_of lo hi = (pos_part (hi -ℤ lo) + 1) % 2 ^ 64

module _ (host : Host) where
  open host use {
    parse_float, float_zero, float_ten, mul, div, float_le, to_i64, of_i64, is_small_integer,
    fixed_ten,
  }

  unfoldable pub format_num : host.Float → Text
  unfolding trim_end_char show_ℤ
  format_num n =
      if is_small_integer n
      then show_ℤ (to_i64 n)
      else trim_end_char b'.' (trim_end_char b'0' (fixed_ten n))

  -- The sum with a seeded index does not leave the `i64` range, since it is not above `hi`.
  unfoldable pub pick_int : (draw : ℕ) → ℤ → ℤ → Option Text → ℤ
  pick_int draw lo hi seed = if not (ltb_ℤ lo hi) then lo else elim seed [
    | some s ↦ lo +ℤ pos (seed_index s (span_of lo hi))
    | none ↦ host.draw_between draw lo hi
  ]

  abbrev pub float_or_zero : Text → host.Float
  float_or_zero s = elim (parse_float s) [ none ↦ float_zero | some v ↦ v ]

  -- `min-max`, where a minus sign at the front is not the separator.
  abbrev pub dash_bounds : Text → host.Float × host.Float
  dash_bounds [] = (float_zero, float_or_zero [])
  dash_bounds (c ∷ s) = elim (split_once b'-' s) [
    | some (a, b) ↦ (float_or_zero (trim (c ∷ a)), float_or_zero (trim b))
    | none ↦ (float_zero, float_or_zero (c ∷ s))
  ]

  abbrev pub comma_bounds : Text → Option (host.Float × host.Float)
  comma_bounds p = elim (split_once b',' p) [
    | some (a, b) ↦ some (float_or_zero (trim a), float_or_zero (trim b))
    | none ↦ none
  ]

  abbrev pub parameter_bounds : Option Text → Option (host.Float × host.Float)
  parameter_bounds none = none
  parameter_bounds (some p) = comma_bounds p

  unfoldable pub range_block : (draw : ℕ) → Option Text → Text → Bool → Text
  unfolding format_num pick_int trim
  range_block draw parameter payload floaty =
      let given = parameter_bounds parameter in
      let seed : Option Text = elim given [ some b ↦ none | none ↦ non_empty parameter ] in
      let bounds : host.Float × host.Float = elim given [
        | some b ↦ b
        | none ↦ dash_bounds (trim payload)
      ] in
      let ordered = float_le bounds.0 bounds.1 in
      let lo = if ordered then bounds.0 else bounds.1 in
      let hi = if ordered then bounds.1 else bounds.0 in
      if floaty
      then (let n = pick_int draw (to_i64 (mul lo float_ten)) (to_i64 (mul hi float_ten)) seed in
          format_num (div (of_i64 n) float_ten))
      else show_ℤ (pick_int draw (to_i64 lo) (to_i64 hi) seed)
