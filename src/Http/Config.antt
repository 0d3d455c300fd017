-- ===== src/Http/Config.antt =====
-- src/http/v1/config.rs: the route that replaces the prefixes of a guild.
pub mod Stored
use benny_rs.Base.{
  ℕ, Bool, true, false, not, Option, none, some, List, [], ◌∷◌, ◌++◌, ltb, length, if◌then◌else◌,
}
use benny_rs.Base.Equality.{nat_eq}
use benny_rs.Base.Dict.{insert, remove}
use benny_rs.Base.Text.{Text, text, trim, contains}
use benny_rs.State.{Prefixes, has, sort_by_len}
use benny_rs.Cogs.Prefixes.{insert_row, delete_rows, of_guild}

abbrev pub max_prefixes : ℕ
max_prefixes = 15

abbrev pub max_prefix_len : ℕ
max_prefix_len = 25

abbrev pub legacy_sep : Text
legacy_sep = text ":|:"

pub data Answer : Type 0 where
  bad_request internal : Answer
  prefixes_are : List Text → Answer

-- From the trimmed text on; `none` is a bad request.
abbrev pub check_len : Text → Option Text
check_len [] = none
check_len (c ∷ cs) = if ltb max_prefix_len (length (c ∷ cs)) then none else some (c ∷ cs)

unfoldable pub sanitize_prefix : Text → Option Text
unfolding trim
sanitize_prefix raw = if contains legacy_sep raw then none else check_len (trim raw)

abbrev pub push_new : Text → List Text → List Text
push_new p clean = if has p clean then clean else clean ++ (p ∷ [])

-- The loop over the body, which ends at the first prefix that is refused.
unfoldable pub clean_all : List Text → (clean : List Text) → Option (List Text)
unfolding sanitize_prefix
clean_all [] clean = some clean
clean_all (raw ∷ raws) clean = elim (sanitize_prefix raw) [
  | none ↦ none
  | some p ↦ clean_all raws (push_new p clean)
]

-- `write_ok` tells of each prefix whether its row can be written; a failure is passed over.
abbrev pub insert_rows :
    (write_ok : Text → Bool) → (gid : ℕ) → List Text → List (ℕ × Text) → List (ℕ × Text)
insert_rows write_ok gid [] rows = rows
insert_rows write_ok gid (p ∷ ps) rows =
    insert_rows write_ok gid ps (if write_ok p then insert_row gid p rows else rows)

abbrev pub set_list : (gid : ℕ) → List Text → List (ℕ × List Text) → List (ℕ × List Text)
set_list gid [] cache = remove gid cache
set_list gid (p ∷ ps) cache = insert gid (p ∷ ps) cache

-- From the clean prefixes on.
abbrev pub put_clean :
    (delete_ok : Bool)
    → (write_ok : Text → Bool) → Prefixes
    → (gid : ℕ) → Option (List Text)
    → Prefixes × Answer
put_clean delete_ok write_ok st gid none = (st, bad_request)
put_clean delete_ok write_ok st gid (some clean) =
    if ltb max_prefixes (length clean)
    then (st, bad_request)
    else if not delete_ok
    then (st, internal)
    else (
      record st {
        rows = insert_rows write_ok gid clean (delete_rows (of_guild gid) st.rows);
        cache = set_list gid (sort_by_len clean) st.cache;
      },
      prefixes_are (sort_by_len clean),
    )

unfoldable pub put_prefixes :
    (delete_ok : Bool)
    → (write_ok : Text → Bool) → Prefixes
    → (gid : ℕ) → List Text
    → Prefixes × Answer
unfolding clean_all
put_prefixes delete_ok write_ok st gid raws =
    put_clean delete_ok write_ok st gid (clean_all raws [])
