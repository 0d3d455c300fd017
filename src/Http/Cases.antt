-- ===== src/Http/Cases.antt =====
-- src/http/v1/cases.rs: the routes that change a case or a timed infraction, over the tables of
-- moderation. Whether a statement reaches the database is an argument.
pub mod Lift
use benny_rs.Base.{
  ℕ, Bool, true, false, not, ◌&&◌, Option, none, some, List, [], ◌∷◌, ◌==◌, if◌then◌else◌,
}
use benny_rs.Base.Int.{ℤ, pos}
use benny_rs.Base.Equality.{nat_eq, pair_eq}
use benny_rs.Base.Dict.{lookup, remove, contains_key}
use benny_rs.Base.Tables.{update_where}
use benny_rs.Base.Text.{Text, text, is, trim}
use benny_rs.Cogs.Moderation.Store.{Key, Case, Timed, Store}
use benny_rs.Cogs.Moderation.Policy.{is_case}

pub data Answer : Type 0 where
  bad_request not_found conflict internal no_content accepted : Answer
  case_is : Case → Answer

abbrev answer_with : Option Case → Answer
answer_with none = not_found
answer_with (some case) = case_is case

-- From the trimmed reason on. `read_ok` is whether the case is read again.
abbrev patch_reason : (update_ok read_ok : Bool) → Store → (gid number : ℕ) → Text → Store × Answer
patch_reason update_ok read_ok s gid number [] = (s, bad_request)
patch_reason update_ok read_ok s gid number (c ∷ cs) =
    let changed : Store = record s {
      cases = update_where (is_case gid number) (λ case. record case { reason = c ∷ cs }) s.cases;
    } in
    if not update_ok
    then (s, internal)
    else if not (contains_key (gid, number) s.cases)
    then (s, not_found)
    else (changed, if read_ok then answer_with (lookup (gid, number) changed.cases) else internal)

unfoldable pub patch_case :
    (update_ok read_ok : Bool) → Store → (gid number : ℕ) → Text → Store × Answer
unfolding trim
patch_case update_ok read_ok s gid number reason =
    patch_reason update_ok read_ok s gid number (trim reason)

unfoldable pub delete_case : (case_ok timed_ok : Bool) → Store → (gid number : ℕ) → Store × Answer
delete_case case_ok timed_ok s gid number =
    let without : Store = record s { cases = remove (gid, number) s.cases } in
    if not case_ok
    then (s, internal)
    else if not (contains_key (gid, number) s.cases)
    then (s, not_found)
    else if timed_ok
    then (record without { timed = remove (gid, number) s.timed }, no_content)
    else (without, internal)

abbrev pub is_row : (gid number : ℕ) → Key → Timed → Bool
is_row gid number key row = key.0 == gid && key.1 == number

-- From the row on. The row is left to the sweeper, which takes it for expired.
abbrev pub lift_row :
    (update_ok : Bool) (now : ℕ) → Store → (gid number : ℕ) → Option Timed → Store × Answer
lift_row update_ok now s gid number none = (s, not_found)
lift_row update_ok now s gid number (some row) =
    if not (is row.action (text "mute")) && not (is row.action (text "ban"))
    then (s, conflict)
    else if update_ok
    then (
      record s {
        timed = update_where (is_row gid number) (λ r. record r { expires_at = pos now }) s.timed;
      },
      accepted,
    )
    else (s, internal)

-- `now` is in seconds.
unfoldable pub lift_mute :
    (read_ok update_ok : Bool) (now : ℕ) → Store → (gid number : ℕ) → Store × Answer
lift_mute read_ok update_ok now s gid number =
    if read_ok
    then lift_row update_ok now s gid number (lookup (gid, number) s.timed)
    else (s, internal)
