-- ===== src/Cogs/Prefixes/Events.antt =====
-- src/cogs/prefixes.rs: the handlers and commands, one after another.
use benny_rs.Base.{
  ℕ, ◌+◌, ◌≡◌, refl, sym, ap, ◌∙◌, Bool, true, false, not, ◌||◌, Option, none, some, List, [], ◌∷◌,
  ◌++◌, length, length-append, if◌then◌else◌, arith, Bool-cases, ◌⊎◌, inl, inr, ==_iff,
}
use benny_rs.Base.Equality.{nat_eq, list_beq_iff}
use benny_rs.Base.Dict.{lookup, contains_key}
use benny_rs.Base.Text.{Text}
use benny_rs.State.{Prefixes, has, sort_by_len, rows_of, custom_prefixes}
use benny_rs.State.Laws.{has-append, has-sort_by_len}
use benny_rs.Cogs.Prefixes.{
  Unclean, listed, has_row, insert_row, delete_rows, retain_not, is_row, push_all, on_ready,
  join_guild, on_guild_create, on_guild_delete, sanitize_prefix, add_checked, remove_checked,
  prefix_add, remove_clean, prefix_remove, prefix_reset,
}
use benny_rs.Cogs.Prefixes.Rows.{
  has-rows_of, has_row-insert_row, has_row-delete_rows, has-retain_not, listed-push_all,
  lookup-sort_all, length-sort_by_len,
}
use benny_rs.Cogs.Prefixes.Coherence.{
  Coherent, custom_prefixes-has, change-Coherent, forget-Coherent, add_clean-Coherent,
}

remove_clean-Coherent :
    (ok : Bool) (st : Prefixes) (g : ℕ) (known : List Text) (clean : Text)
    → ((p : Text) → has p known ≡ has_row g p st.rows)
    → Coherent st
    → Coherent (remove_clean ok st g known clean).0
remove_clean-Coherent ok st g known clean k c = elim (Bool-cases (not (has clean known))) [
  | inl e ↦ rw (remove_clean, e) c
  | inr e ↦ elim (Bool-cases ok) [
    | inl o ↦
        rw (remove_clean, e, o)
          (change-Coherent st g (retain_not clean known) (delete_rows (is_row g clean) st.rows) c
            (λ p. ground (
              arith,
              has-retain_not clean p known,
              k p,
              has_row-delete_rows (is_row g clean) g p st.rows,
              ==_iff g g,
              list_beq_iff clean p,
              list_beq_iff p clean,
            ))
            (λ h p n. ground (arith, has_row-delete_rows (is_row g clean) h p st.rows)))
    | inr o ↦ rw (remove_clean, e, o) c
  ]
]

add_checked-Coherent :
    (ok : Bool) (st : Prefixes) (g : ℕ) (o : Unclean ⊎ Text)
    → Coherent st
    → Coherent (add_checked ok st g (custom_prefixes true st g) o).0
add_checked-Coherent ok st g (inl e) c = c
add_checked-Coherent ok st g (inr clean) c =
    add_clean-Coherent ok st g (custom_prefixes true st g) clean (λ p. custom_prefixes-has st g p c)
      c

remove_checked-Coherent :
    (ok : Bool) (st : Prefixes) (g : ℕ) (o : Unclean ⊎ Text)
    → Coherent st
    → Coherent (remove_checked ok st g (custom_prefixes true st g) o).0
remove_checked-Coherent ok st g (inl e) c = c
remove_checked-Coherent ok st g (inr clean) c =
    remove_clean-Coherent ok st g (custom_prefixes true st g) clean
      (λ p. custom_prefixes-has st g p c) c

join_guild-Coherent :
    (st : Prefixes) (g : ℕ) (known : List Text)
    → ((p : Text) → has p known ≡ has_row g p st.rows)
    → Coherent st
    → Coherent (join_guild true st g known)
join_guild-Coherent st g [] k c =
    change-Coherent st g (st.default_prefix ∷ []) (insert_row g st.default_prefix st.rows) c
      (λ p. ground (arith, k p, has_row-insert_row g g p st.default_prefix st.rows, ==_iff g g))
      (λ h p n. ground (arith, has_row-insert_row h g p st.default_prefix st.rows))
join_guild-Coherent st g (q ∷ qs) k c = change-Coherent st g (q ∷ qs) st.rows c k (λ h p n. refl)

on_guild_create-Coherent :
    (st : Prefixes) (g : ℕ) → Coherent st → Coherent (on_guild_create true true st g)
unfolding on_guild_create
on_guild_create-Coherent st g c = elim (Bool-cases (contains_key g st.cache)) [
  | inl e ↦ rw (on_guild_create, e) c
  | inr e ↦
      rw (on_guild_create, e)
        (join_guild-Coherent st g (custom_prefixes true st g) (λ p. custom_prefixes-has st g p c) c)
]

-- The rows that a query gives; a failed one reads as none.
abbrev pub read_rows : (ok : Bool) → Prefixes → List (ℕ × Text)
read_rows ok st = if ok then st.rows else []

-- What is cached of a guild after `on_ready`: what was, and the guild's rows.
ready_list :
    (ok : Bool) (st : Prefixes) (g : ℕ)
    → listed (lookup g (on_ready ok st).cache)
      ≡ sort_by_len (listed (lookup g st.cache) ++ rows_of g (read_rows ok st))
unfolding on_ready
ready_list ok st g =
    lookup-sort_all g (push_all (read_rows ok st) st.cache)
    ∙ ap sort_by_len (listed-push_all g (read_rows ok st) st.cache)

or_same : (b : Bool) → (b || b) ≡ b
or_same true = refl
or_same false = refl

-- Of a coherent list, or of none.
listed_or :
    (st : Prefixes) (g : ℕ) (p : Text) (o : Option (List Text))
    → lookup g st.cache ≡ o
    → Coherent st
    → (has p (listed o) || has_row g p st.rows) ≡ has_row g p st.rows
listed_or st g p none e c = refl
listed_or st g p (some ps) e c =
    ap (λ b. b || has_row g p st.rows) (c g p ps e) ∙ or_same (has_row g p st.rows)

on_ready-Coherent : (st : Prefixes) → Coherent st → Coherent (on_ready true st)
unfolding on_ready
on_ready-Coherent st c g p qs l =
    let known = listed (lookup g st.cache) in
    let all = known ++ rows_of g st.rows in
    sym (ap (λ o. has p (listed o)) l)
    ∙ ap (has p) (ready_list true st g)
    ∙ has-sort_by_len p all
    ∙ has-append p known (rows_of g st.rows)
    ∙ ap (λ b. has p known || b) (has-rows_of g p st.rows)
    ∙ listed_or st g p (lookup g st.cache) refl c

-- ---- any events ----

pub data Event : Type 0 where
  ready : Event
  guild_created guild_left reset : (guild_id : ℕ) → Event
  add remove_one : (guild_id : ℕ) (raw : Text) (write_ok : Bool) → Event

-- An event, where the database answers the queries and takes the writes but those that are flagged.
abbrev pub handle : Prefixes → Event → Prefixes
handle st ready = on_ready true st
handle st (guild_created g) = on_guild_create true true st g
handle st (guild_left g) = on_guild_delete true st g
handle st (reset g) = prefix_reset true st g
handle st (add g raw ok) = (prefix_add true ok st g raw).0
handle st (remove_one g raw ok) = (prefix_remove true ok st g raw).0

abbrev pub handle_all : Prefixes → List Event → Prefixes
handle_all st [] = st
handle_all st (e ∷ es) = handle_all (handle st e) es

handle-Coherent : (st : Prefixes) (e : Event) → Coherent st → Coherent (handle st e)
unfolding prefix_add prefix_remove prefix_reset on_guild_delete
handle-Coherent st ready c = on_ready-Coherent st c
handle-Coherent st (guild_created g) c = on_guild_create-Coherent st g c
handle-Coherent st (guild_left g) c = forget-Coherent st g c
handle-Coherent st (reset g) c = forget-Coherent st g c
handle-Coherent st (add g raw ok) c = add_checked-Coherent ok st g (sanitize_prefix raw) c
handle-Coherent st (remove_one g raw ok) c = remove_checked-Coherent ok st g (sanitize_prefix raw) c

-- Over any sequence of ready, guild and prefix events, where the database answers and takes the
-- writes of guild events and resets, a cached list holds exactly the prefixes in the rows of its
-- guild, if it did at the start.
pub handle_all-Coherent :
    (es : List Event) (st : Prefixes) → Coherent st → Coherent (handle_all st es)
handle_all-Coherent [] st c = c
handle_all-Coherent (e ∷ es) st c = handle_all-Coherent es (handle st e) (handle-Coherent st e c)

-- A ready event makes the cached list of a guild longer by the number of its rows that the query
-- gives, what was cached before included; a query that fails gives none.
pub on_ready_again :
    (ok : Bool) (st : Prefixes) (g : ℕ)
    → length (listed (lookup g (on_ready ok st).cache))
      ≡ length (listed (lookup g st.cache)) + length (rows_of g (read_rows ok st))
on_ready_again ok st g =
    ap length (ready_list ok st g)
    ∙ length-sort_by_len (listed (lookup g st.cache) ++ rows_of g (read_rows ok st))
    ∙ length-append (listed (lookup g st.cache)) (rows_of g (read_rows ok st))
