-- ===== src/Cogs/Prefixes.antt =====
-- src/cogs/prefixes.rs: the handlers and commands that change the prefixes of a guild.
pub mod Rows
pub mod Coherence
pub mod Events
pub mod Obeyed
mod Tests
use benny_rs.Base.{
  ℕ, Bool, true, false, not, ◌&&◌, ◌||◌, Option, none, some, List, [], ◌∷◌, ◌++◌, ◌⊎◌, inl, inr,
  ◌==◌, ltb, leb, length, if◌then◌else◌,
}
use benny_rs.Base.Equality.{nat_eq}
use benny_rs.Base.Dict.{lookup, insert, remove, contains_key}
use benny_rs.Base.Text.{Text, text, is, trim, contains}
use benny_rs.State.{Prefixes, has, sort_by_len, insert_by_len, rows_of, custom_prefixes, is_empty}

abbrev pub max_prefixes : ℕ
max_prefixes = 15

abbrev pub max_prefix_len : ℕ
max_prefix_len = 25

abbrev pub legacy_sep : Text
legacy_sep = text ":|:"

pub data Unclean : Type 0 where
  separator blank too_long : Unclean

abbrev pub check_clean : Text → Unclean ⊎ Text
check_clean clean =
    if is_empty clean
    then inl blank
    else if ltb max_prefix_len (length clean)
    then inl too_long
    else inr clean

unfoldable pub sanitize_prefix : Text → Unclean ⊎ Text
unfolding trim
sanitize_prefix raw = if contains legacy_sep raw then inl separator else check_clean (trim raw)

-- ---- the table ----

abbrev pub has_row : (guild_id : ℕ) → Text → List (ℕ × Text) → Bool
has_row g p [] = false
has_row g p ((h, q) ∷ rows) = (h == g && is q p) || has_row g p rows

-- `INSERT .. ON CONFLICT DO NOTHING`
abbrev pub insert_row : (guild_id : ℕ) → Text → List (ℕ × Text) → List (ℕ × Text)
insert_row g p rows = if has_row g p rows then rows else rows ++ ((g, p) ∷ [])

abbrev pub delete_rows : (ℕ → Text → Bool) → List (ℕ × Text) → List (ℕ × Text)
delete_rows del [] = []
delete_rows del ((h, q) ∷ rows) =
    let rest = delete_rows del rows in if del h q then rest else (h, q) ∷ rest

abbrev pub of_guild : (guild_id : ℕ) → ℕ → Text → Bool
of_guild g h q = h == g

abbrev pub is_row : (guild_id : ℕ) → Text → ℕ → Text → Bool
is_row g p h q = h == g && is q p

-- ---- the handlers ----

-- `or_default()`: the list of a guild, or the empty one.
abbrev pub listed : Option (List Text) → List Text
listed none = []
listed (some ps) = ps

-- `entry(..).or_default().push(..)`
abbrev pub push_to : (guild_id : ℕ) → Text → List (ℕ × List Text) → List (ℕ × List Text)
push_to g p cache = insert g (listed (lookup g cache) ++ (p ∷ [])) cache

abbrev pub push_all : List (ℕ × Text) → List (ℕ × List Text) → List (ℕ × List Text)
push_all [] cache = cache
push_all ((g, p) ∷ rows) cache = push_all rows (push_to g p cache)

abbrev pub sort_all : List (ℕ × List Text) → List (ℕ × List Text)
sort_all [] = []
sort_all ((g, ps) ∷ cache) = (g, sort_by_len ps) ∷ sort_all cache

-- `ok` is whether the query answers.
unfoldable pub on_ready : (ok : Bool) → Prefixes → Prefixes
on_ready ok st = record st { cache = sort_all (push_all (if ok then st.rows else []) st.cache) }

-- From the prefixes that are known on.
abbrev pub join_guild : (insert_ok : Bool) → Prefixes → (guild_id : ℕ) → List Text → Prefixes
join_guild insert_ok st g [] = record st {
  rows = if insert_ok then insert_row g st.default_prefix st.rows else st.rows;
  cache = insert g (st.default_prefix ∷ []) st.cache;
}
join_guild insert_ok st g (p ∷ ps) = record st { cache = insert g (p ∷ ps) st.cache }

unfoldable pub on_guild_create : (read_ok insert_ok : Bool) → Prefixes → (guild_id : ℕ) → Prefixes
on_guild_create read_ok insert_ok st g =
    if contains_key g st.cache then st else join_guild insert_ok st g (custom_prefixes read_ok st g)

unfoldable pub on_guild_delete : (ok : Bool) → Prefixes → (guild_id : ℕ) → Prefixes
on_guild_delete ok st g = record st {
  rows = if ok then delete_rows (of_guild g) st.rows else st.rows;
  cache = remove g st.cache;
}

-- ---- the commands ----

pub data Reply : Type 0 where
  unclean : Unclean → Reply
  already_there too_many not_there database_error : Reply
  added removed : Text → Reply

-- From the clean prefix and the prefixes that are known on.
abbrev pub add_clean :
    (insert_ok : Bool) → Prefixes → (guild_id : ℕ) → List Text → Text → Prefixes × Reply
add_clean insert_ok st g known clean =
    if has clean known
    then (st, already_there)
    else if leb max_prefixes (length known)
    then (st, too_many)
    else if insert_ok
    then (
      record st {
        rows = insert_row g clean st.rows;
        cache = insert g (sort_by_len (known ++ (clean ∷ []))) st.cache;
      },
      added clean,
    )
    else (st, database_error)

abbrev pub add_checked :
    (insert_ok : Bool) → Prefixes → (guild_id : ℕ) → List Text → Unclean ⊎ Text → Prefixes × Reply
add_checked insert_ok st g known (inl e) = (st, unclean e)
add_checked insert_ok st g known (inr clean) = add_clean insert_ok st g known clean

unfoldable pub prefix_add :
    (read_ok insert_ok : Bool) → Prefixes → (guild_id : ℕ) → Text → Prefixes × Reply
unfolding sanitize_prefix
prefix_add read_ok insert_ok st g raw =
    add_checked insert_ok st g (custom_prefixes read_ok st g) (sanitize_prefix raw)

-- `retain(|p| p != clean)`
abbrev pub retain_not : Text → List Text → List Text
retain_not p [] = []
retain_not p (q ∷ qs) = let rest = retain_not p qs in if is q p then rest else q ∷ rest

abbrev pub remove_clean :
    (delete_ok : Bool) → Prefixes → (guild_id : ℕ) → List Text → Text → Prefixes × Reply
remove_clean delete_ok st g known clean =
    if not (has clean known)
    then (st, not_there)
    else if delete_ok
    then (
      record st {
        rows = delete_rows (is_row g clean) st.rows;
        cache = insert g (retain_not clean known) st.cache;
      },
      removed clean,
    )
    else (st, database_error)

abbrev pub remove_checked :
    (delete_ok : Bool) → Prefixes → (guild_id : ℕ) → List Text → Unclean ⊎ Text → Prefixes × Reply
remove_checked delete_ok st g known (inl e) = (st, unclean e)
remove_checked delete_ok st g known (inr clean) = remove_clean delete_ok st g known clean

unfoldable pub prefix_remove :
    (read_ok delete_ok : Bool) → Prefixes → (guild_id : ℕ) → Text → Prefixes × Reply
unfolding sanitize_prefix
prefix_remove read_ok delete_ok st g raw =
    remove_checked delete_ok st g (custom_prefixes read_ok st g) (sanitize_prefix raw)

unfoldable pub prefix_reset : (ok : Bool) → Prefixes → (guild_id : ℕ) → Prefixes
prefix_reset ok st g = record st {
  rows = if ok then delete_rows (of_guild g) st.rows else st.rows;
  cache = remove g st.cache;
}
