-- ===== src/Base/Search.antt =====
-- Splitting and replacing at a text: `split`, `split_once`, `matches` and `replace` of `str`. Each
-- turn of a loop takes a character at least, so the length of the text is fuel enough.
use benny_rs.Base.Lists.{length}
use benny_rs.Base.Text.{Text, strip_prefix}
use Prim.Native.Nat.{ℕ, zero, suc}
use mathlib.Core.Option.{Option, none, some}
use mathlib.Core.List.{List, [], ◌∷◌, ◌++◌}

abbrev pub cons_piece : ℕ → List Text → List Text
cons_piece c [] = (c ∷ []) ∷ []
cons_piece c (piece ∷ pieces) = (c ∷ piece) ∷ pieces

-- `split(sep)`, for a separator that is not empty: the pieces between its matches, which are found
-- from the left and do not overlap.
unfoldable pub split_fuel : ℕ → Text → Text → List Text
split_fuel zero sep s = s ∷ []
split_fuel (suc fuel) sep [] = [] ∷ []
split_fuel (suc fuel) sep (c ∷ s) = elim (strip_prefix sep (c ∷ s)) [
  | some rest ↦ [] ∷ split_fuel fuel sep rest
  | none ↦ cons_piece c (split_fuel fuel sep s)
]

unfoldable pub split_text : Text → Text → List Text
unfolding split_fuel
split_text sep s = split_fuel (length s) sep s

-- `join`
abbrev pub join : Text → List Text → Text
join sep [] = []
join sep (piece ∷ []) = piece
join sep (piece ∷ next ∷ pieces) = piece ++ (sep ++ join sep (next ∷ pieces))

-- `split_once(sep)`
unfoldable pub split_once_text : Text → Text → Option (Text × Text)
split_once_text sep [] = elim (strip_prefix sep []) [ some rest ↦ some ([], rest) | none ↦ none ]
split_once_text sep (c ∷ s) =
    let further = split_once_text sep s in
    elim (strip_prefix sep (c ∷ s)) [
      | some rest ↦ some ([], rest)
      | none ↦ elim further [ none ↦ none | some (a, b) ↦ some (c ∷ a, b) ]
    ]

-- `matches(needle).count()`, for a needle that is not empty
unfoldable pub count_matches : Text → Text → ℕ
unfolding split_text
count_matches needle s = elim (split_text needle s) [ [] ↦ 0 | piece ∷ pieces ↦ length pieces ]

-- An empty text is found in front of each character and at the end.
abbrev pub between_chars : Text → Text → Text
between_chars to [] = to
between_chars to (c ∷ s) = to ++ (c ∷ between_chars to s)

unfoldable pub replace : Text → Text → Text → Text
unfolding split_text
replace [] to s = between_chars to s
replace (c ∷ from) to s = join to (split_text (c ∷ from) s)
