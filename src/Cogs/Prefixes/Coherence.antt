-- ===== src/Cogs/Prefixes/Coherence.antt =====
-- src/cogs/prefixes.rs: the cache of prefixes and the table behind it.
use benny_rs.Base.{
  ℕ, ◌≡◌, refl, ◌∙◌, Bool, true, false, Option, none, some, List, [], ◌∷◌, ◌++◌, ◌==◌, leb, length,
  arith, Bool-cases, inl, inr, ==_iff,
}
use benny_rs.Base.Equality.{nat_eq}
use benny_rs.Base.Dict.{lookup, insert, remove, lookup-insert, lookup-remove}
use benny_rs.Base.Text.{Text}
use benny_rs.State.{Prefixes, has, sort_by_len, rows_of, cached_or_read, custom_prefixes}
use benny_rs.State.Laws.{has-append, has-sort_by_len}
use benny_rs.Cogs.Prefixes.{has_row, insert_row, delete_rows, of_guild, max_prefixes, add_clean}
use benny_rs.Cogs.Prefixes.Rows.{has-rows_of, has_row-insert_row, has_row-delete_rows}

-- A list that is cached holds the prefixes in the guild's rows, and no others.
abbrev pub Coherent : Prefixes → Type 0
Coherent st =
    (g : ℕ) (p : Text) (ps : List Text)
    → lookup g st.cache ≡ some ps
    → has p ps ≡ has_row g p st.rows

cached_or_read-has :
    (st : Prefixes) (g : ℕ) (p : Text) (o : Option (List Text))
    → lookup g st.cache ≡ o
    → Coherent st
    → has p (cached_or_read true st g o) ≡ has_row g p st.rows
cached_or_read-has st g p (some ps) e c = c g p ps e
cached_or_read-has st g p none e c = has-sort_by_len p (rows_of g st.rows) ∙ has-rows_of g p st.rows

pub custom_prefixes-has :
    (st : Prefixes) (g : ℕ) (p : Text)
    → Coherent st
    → has p (custom_prefixes true st g) ≡ has_row g p st.rows
custom_prefixes-has st g p c = cached_or_read-has st g p (lookup g st.cache) refl c

-- A guild's list and rows change together, and the other guilds' do not.
pub change-Coherent :
    (st : Prefixes) (g : ℕ) (ps : List Text) (rows : List (ℕ × Text))
    → Coherent st
    → ((p : Text) → has p ps ≡ has_row g p rows)
    → ((h : ℕ) (p : Text) → (g == h) ≡ false → has_row h p rows ≡ has_row h p st.rows)
    → Coherent (record st { rows = rows; cache = insert g ps st.cache })
change-Coherent st g ps rows c mine others h p qs l =
    let found = lookup-insert g h ps st.cache in
    elim (Bool-cases (g == h)) [
      | inl e ↦ let same : g ≡ h = (==_iff g h).0 e in ground (arith, same, mine p, found)
      | inr e ↦ ground (arith, others h p, found, c h p qs)
    ]

pub forget-Coherent :
    (st : Prefixes) (g : ℕ)
    → Coherent st
    → Coherent (record st { rows = delete_rows (of_guild g) st.rows; cache = remove g st.cache })
forget-Coherent st g c h p qs l = ground (
  arith,
  lookup-remove g h st.cache,
  has_row-delete_rows (of_guild g) h p st.rows,
  c h p qs,
  ==_iff g h,
  ==_iff h g,
)

pub add_clean-Coherent :
    (ok : Bool) (st : Prefixes) (g : ℕ) (known : List Text) (clean : Text)
    → ((p : Text) → has p known ≡ has_row g p st.rows)
    → Coherent st
    → Coherent (add_clean ok st g known clean).0
add_clean-Coherent ok st g known clean k c = elim (Bool-cases (has clean known)) [
  | inl e ↦ rw (add_clean, e) c
  | inr e ↦ elim (Bool-cases (leb max_prefixes (length known))) [
    | inl f ↦ rw (add_clean, e, f) c
    | inr f ↦ elim (Bool-cases ok) [
      | inl o ↦
          rw (add_clean, e, f, o)
            (change-Coherent st g (sort_by_len (known ++ (clean ∷ []))) (insert_row g clean st.rows)
              c
              (λ p. ground (
                arith,
                has-sort_by_len p (known ++ (clean ∷ [])),
                has-append p known (clean ∷ []),
                k p,
                has_row-insert_row g g p clean st.rows,
                ==_iff g g,
              ))
              (λ h p n. ground (arith, has_row-insert_row h g p clean st.rows)))
      | inr o ↦ rw (add_clean, e, f, o) c
    ]
  ]
]
