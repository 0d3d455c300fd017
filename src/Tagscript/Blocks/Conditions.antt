-- ===== src/Tagscript/Blocks/Conditions.antt =====
-- src/tagscript/blocks.rs: conditions, and the choice of a branch.
pub mod Logic
use benny_rs.Base.{
  Bool, true, false, not, ◌&&◌, ◌||◌, Option, none, some, List, [], ◌∷◌, ◌==◌, if◌then◌else◌,
  length, get_or,
}
use benny_rs.Base.Text.{Text, text, is, trim}
use benny_rs.Base.Search.{split_once_text}
use benny_rs.Tagscript.Host.{Host}
use benny_rs.Tagscript.Blocks.Split.{split_pipe}

pub data Comparison : Type 0 where
  ne eq ge le gt lt : Comparison

-- In the order in which the code tries them.
abbrev pub comparisons : List (Text × Comparison)
comparisons =
    (text "!=", ne)
    ∷ (text "==", eq)
    ∷ (text ">=", ge)
    ∷ (text "<=", le)
    ∷ (text ">", gt)
    ∷ (text "<", lt)
    ∷ []

-- `unwrap_or(false)`
abbrev pub or_false : Option Bool → Bool
or_false none = false
or_false (some b) = b

abbrev pub or_empty : Option Text → Text
or_empty none = []
or_empty (some s) = s

module _ (host : Host) where
  open host use {parse_float, float_lt, float_le, lowercase}

  abbrev pub both_floats : Text → Text → (host.Float → host.Float → Bool) → Option Bool
  both_floats l r test = elim (parse_float l) [
    | none ↦ none
    | some lf ↦ elim (parse_float r) [ none ↦ none | some rf ↦ some (test lf rf) ]
  ]

  unfoldable pub compare_texts : Comparison → Text → Text → Option Bool
  compare_texts ne l r = some (not (is l r))
  compare_texts eq l r = some (is l r)
  compare_texts ge l r = both_floats l r (λ a b. float_le b a)
  compare_texts le l r = both_floats l r float_le
  compare_texts gt l r = both_floats l r (λ a b. float_lt b a)
  compare_texts lt l r = both_floats l r float_lt

  -- The loop over the operators: the first that occurs decides.
  unfoldable pub try_comparisons : Text → List (Text × Comparison) → Option Bool
  try_comparisons s [] = none
  try_comparisons s ((sign, op) ∷ ops) =
      let further = try_comparisons s ops in
      elim (split_once_text sign s) [
        | some (l, r) ↦ compare_texts op (trim l) (trim r)
        | none ↦ further
      ]

  unfoldable pub parse_if : Text → Option Bool
  unfolding compare_texts try_comparisons
  parse_if s =
      let word = lowercase (trim s) in
      if is word (text "true")
      then some true
      else if is word (text "false")
      then some false
      else try_comparisons s comparisons

  abbrev pub results : List Text → List Bool
  results [] = []
  results (s ∷ items) = or_false (parse_if s) ∷ results items

  abbrev pub all_true : List Bool → Bool
  all_true [] = true
  all_true (b ∷ bs) = b && all_true bs

  abbrev pub any_true : List Bool → Bool
  any_true [] = false
  any_true (b ∷ bs) = b || any_true bs

  unfoldable pub parse_list_all : Text → Bool → Option Bool
  unfolding split_pipe
  parse_list_all s require_all =
      let found = results (split_pipe s) in
      elim found [
        | [] ↦ some false
        | b ∷ bs ↦ some (if require_all then all_true (b ∷ bs) else any_true (b ∷ bs))
      ]

unfoldable pub parse_into_output : Text → Option Bool → Text
unfolding split_pipe
parse_into_output payload result =
    let parts = split_pipe payload in
    if or_false result
    then (if length parts == 2 then get_or parts 0 [] else payload)
    else (if length parts == 2 then get_or parts 1 [] else [])
