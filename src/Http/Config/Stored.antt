-- ===== src/Http/Config/Stored.antt =====
-- src/http/v1/config.rs, `put_prefixes`: what is in the table and in the cache afterwards.
use benny_rs.Base.{
  ℕ, ◌≤◌, ◌≡◌, refl, sym, ap, ◌∙◌, Bool, true, not, ◌&&◌, ◌||◌, Option, none, some, List, [], ◌∷◌,
  ◌==◌, ltb, length, arith, Bool-cases, inl, inr, ==_iff,
}
use benny_rs.Base.Equality.{nat_eq}
use benny_rs.Base.Dict.{lookup, insert, remove, lookup-insert, lookup-remove}
use benny_rs.Base.Text.{Text}
use benny_rs.State.{Prefixes, has, sort_by_len, rows_of, custom_prefixes}
use benny_rs.State.Laws.{has-sort_by_len}
use benny_rs.Cogs.Prefixes.{has_row, insert_row, delete_rows, of_guild}
use benny_rs.Cogs.Prefixes.Rows.{has_row-insert_row, has_row-delete_rows, length-sort_by_len}
use benny_rs.Cogs.Prefixes.Coherence.{Coherent, change-Coherent, forget-Coherent}
use benny_rs.Http.Config.{
  max_prefixes, Answer, bad_request, internal, prefixes_are, insert_rows, set_list, put_clean,
  clean_all, put_prefixes,
}

abbrev pub all_written : Text → Bool
all_written p = true

has_row-insert_rows :
    (h g : ℕ) (p : Text) (ps : List Text) (rows : List (ℕ × Text))
    → has_row h p (insert_rows all_written g ps rows) ≡ ((h == g && has p ps) || has_row h p rows)
has_row-insert_rows h g p [] rows = ground arith
has_row-insert_rows h g p (q ∷ ps) rows = ground (
  arith,
  has_row-insert_rows h g p ps (insert_row g q rows),
  has_row-insert_row h g p q rows,
  ==_iff h g,
  ==_iff g h,
)

rows_of-delete_rows :
    (g : ℕ) (rows : List (ℕ × Text)) → rows_of g (delete_rows (of_guild g) rows) ≡ []
rows_of-delete_rows g [] = refl
rows_of-delete_rows g ((h, p) ∷ rows) =
    let rest = rows_of-delete_rows g rows in
    elim (Bool-cases (h == g)) [ inl e ↦ rw e rest | inr e ↦ rw (e, e) rest ]

-- What a route gives: the list that the bot reads, or no change.
abbrev pub IsPut : Prefixes → (gid : ℕ) → Prefixes × Answer → Type 0
IsPut st g (st', prefixes_are ps) =
    (custom_prefixes true st' g ≡ ps) × (length ps ≤ max_prefixes) × Coherent st'
IsPut st g (st', bad_request) = st' ≡ st
IsPut st g (st', internal) = st' ≡ st

set_list-IsPut :
    (st : Prefixes) (g : ℕ) (clean sorted : List Text)
    → Coherent st
    → sort_by_len clean ≡ sorted
    → length sorted ≤ max_prefixes
    → IsPut st g (
      record st {
        rows = insert_rows all_written g clean (delete_rows (of_guild g) st.rows);
        cache = set_list g sorted st.cache;
      },
      prefixes_are sorted,
    )
set_list-IsPut st g [] [] c e short =
    let gone : lookup g (remove g st.cache) ≡ none =
      lookup-remove g g st.cache ∙ rw ((==_iff g g).1 refl) refl in
    (rw gone (ap sort_by_len (rows_of-delete_rows g st.rows)), short, forget-Coherent st g c)
set_list-IsPut st g [] (q ∷ qs) c e short =
    let none_there : 0 ≡ length (q ∷ qs) = ap length e in absurd (omega (arith, none_there))
set_list-IsPut st g (p ∷ ps) [] c e short =
    let none_left : length (sort_by_len (p ∷ ps)) ≡ 0 = ap length e in
    absurd (omega (arith, length-sort_by_len (p ∷ ps), none_left))
set_list-IsPut st g (p ∷ ps) (q ∷ qs) c e short =
    let left = delete_rows (of_guild g) st.rows in
    let found : lookup g (insert g (q ∷ qs) st.cache) ≡ some (q ∷ qs) =
      lookup-insert g g (q ∷ qs) st.cache ∙ rw ((==_iff g g).1 refl) refl in
    (
      rw found refl,
      short,
      change-Coherent st g (q ∷ qs) (insert_rows all_written g (p ∷ ps) left) c
          (λ r.
            sym (ap (has r) e)
            ∙ has-sort_by_len r (p ∷ ps)
            ∙ sym (mine r (p ∷ ps) left (has_row-delete_rows (of_guild g) g r st.rows)))
          (λ h r n.
            has_row-insert_rows h g r (p ∷ ps) left
            ∙ ground (arith, has_row-delete_rows (of_guild g) h r st.rows, ==_iff h g, ==_iff g h)),
    )
  where
    mine :
        (r : Text) (clean : List Text) (rows : List (ℕ × Text))
        → has_row g r rows ≡ (not (g == g) && has_row g r st.rows)
        → has_row g r (insert_rows all_written g clean rows) ≡ has r clean
    mine r clean rows h = has_row-insert_rows g g r clean rows ∙ rw h (ground (arith, ==_iff g g))

put_clean-IsPut :
    (delete_ok : Bool) (st : Prefixes) (g : ℕ) (o : Option (List Text))
    → Coherent st
    → IsPut st g (put_clean delete_ok all_written st g o)
put_clean-IsPut delete_ok st g none c = refl
put_clean-IsPut delete_ok st g (some clean) c =
    elim (Bool-cases (ltb max_prefixes (length clean))) [
      | inl long ↦ rw (put_clean, long) refl
      | inr short ↦ elim (Bool-cases (not delete_ok)) [
        | inl e ↦ rw (put_clean, short, e) refl
        | inr e ↦
            rw (put_clean, short, e)
              (set_list-IsPut st g clean (sort_by_len clean) c refl
                (ground (arith, length-sort_by_len clean)))
      ]
    ]

-- Where every row can be written and the cache held the table's rows before, a put of a guild's
-- prefixes either changes nothing and answers with an error, or answers with at most 15 prefixes,
-- which are then those that the bot reads of the guild, and the cache still holds the table's
-- rows.
pub put_prefixes-IsPut :
    (delete_ok : Bool) (st : Prefixes) (g : ℕ) (raws : List Text)
    → Coherent st
    → IsPut st g (put_prefixes delete_ok all_written st g raws)
unfolding put_prefixes
put_prefixes-IsPut delete_ok st g raws c = put_clean-IsPut delete_ok st g (clean_all raws []) c
