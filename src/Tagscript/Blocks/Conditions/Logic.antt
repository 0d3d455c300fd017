-- ===== src/Tagscript/Blocks/Conditions/Logic.antt =====
-- src/tagscript/blocks.rs: conditions and branches that are joined by `|`.
use benny_rs.Base.{
  ◌≡◌, refl, ap, Bool, true, false, ◌&&◌, ◌||◌, Option, none, some, List, [], ◌∷◌, if◌then◌else◌,
}
use benny_rs.Base.Text.{Text}
use benny_rs.Tagscript.Host.{Host}
use benny_rs.Tagscript.Blocks.Split.Join.{join_pipe, CanJoin, split_pipe-join_pipe}
use benny_rs.Tagscript.Blocks.Conditions.{
  or_false, parse_if, results, all_true, any_true, parse_list_all, parse_into_output,
}

-- Of two branches that are joined by |, the first is given where the condition holds and the
-- second where it does not or cannot be read, if the first does not end in a backslash.
pub parse_into_output-join_pipe :
    (first second : Text) (result : Option Bool)
    → CanJoin first (second ∷ [])
    → parse_into_output (join_pipe first (second ∷ [])) result
      ≡ (if or_false result then first else second)
unfolding parse_into_output
parse_into_output-join_pipe first second none w =
    rw (parse_into_output, split_pipe-join_pipe first (second ∷ []) w) refl
parse_into_output-join_pipe first second (some true) w =
    rw (parse_into_output, split_pipe-join_pipe first (second ∷ []) w) refl
parse_into_output-join_pipe first second (some false) w =
    rw (parse_into_output, split_pipe-join_pipe first (second ∷ []) w) refl

module _ (host : Host) where
  -- Every condition of a list holds; one that cannot be read does not.
  pub every_holds : List Text → Bool
  every_holds [] = true
  every_holds (s ∷ ss) = or_false (parse_if host s) && every_holds ss

  -- Some condition of a list holds.
  pub some_holds : List Text → Bool
  some_holds [] = false
  some_holds (s ∷ ss) = or_false (parse_if host s) || some_holds ss

  all_true-results : (ss : List Text) → all_true host (results host ss) ≡ every_holds ss
  unfolding every_holds
  all_true-results [] = refl
  all_true-results (s ∷ ss) = ap (◌&&◌ (or_false (parse_if host s))) (all_true-results ss)

  any_true-results : (ss : List Text) → any_true host (results host ss) ≡ some_holds ss
  unfolding some_holds
  any_true-results [] = refl
  any_true-results (s ∷ ss) = ap (◌||◌ (or_false (parse_if host s))) (any_true-results ss)

  -- A list of conditions that is joined by | holds under all if every one of them does and under
  -- any if some one does, if no part but the last ends in a backslash.
  pub parse_list_all-join_pipe :
      (part : Text) (parts : List Text) (require_all : Bool)
      → CanJoin part parts
      → parse_list_all host (join_pipe part parts) require_all
        ≡ some (if require_all then every_holds (part ∷ parts) else some_holds (part ∷ parts))
  unfolding parse_list_all
  parse_list_all-join_pipe part parts true w =
      rw (parse_list_all, split_pipe-join_pipe part parts w)
        (ap some (all_true-results (part ∷ parts)))
  parse_list_all-join_pipe part parts false w =
      rw (parse_list_all, split_pipe-join_pipe part parts w)
        (ap some (any_true-results (part ∷ parts)))
