-- ===== src/Cogs/Prefixes/Obeyed.antt =====
-- src/cogs/prefixes.rs and src/state.rs: the messages of a guild after a prefix was added.
use benny_rs.Base.{
  ℕ, ◌≡◌, refl, sym, ap, ◌∙◌, Bool, true, false, ◌||◌, some, List, [], ◌∷◌, ◌++◌, if◌then◌else◌,
  arith, ◌⊎◌, inl, inr,
}
use benny_rs.Base.Equality.{nat_eq}
use benny_rs.Base.Dict.{lookup, lookup-insert}
use benny_rs.Base.Text.{Text, is, trim, contains}
use benny_rs.State.{Prefixes, has, sort_by_len, custom_prefixes, starts_with_prefix, is_empty}
use benny_rs.State.Laws.{
  has-append, has-sort_by_len, is_self, any_starts-has, starts_solid, trim-solid, trim_start-append,
}
use benny_rs.Cogs.Prefixes.{
  Unclean, separator, blank, check_clean, legacy_sep, sanitize_prefix, added, add_clean,
  add_checked, prefix_add,
}

check_clean_same : (t clean : Text) → check_clean t ≡ inr clean → t ≡ clean
check_clean_same t clean h = ground arith

clean_solid : (raw clean : Text) → check_clean (trim raw) ≡ inr clean → starts_solid clean ≡ true
clean_solid raw clean h = elim (trim-solid raw) [
  | inl e ↦ let nothing : inl blank ≡ inr clean = sym (ap check_clean e) ∙ h in ground arith
  | inr s ↦ ap starts_solid (sym (check_clean_same (trim raw) clean h)) ∙ s
]

not_separator :
    (b : Bool) (o : Unclean ⊎ Text) (clean : Text)
    → (if b then inl separator else o) ≡ inr clean
    → o ≡ inr clean
not_separator true o clean h = ground arith
not_separator false o clean h = h

sanitized_solid : (raw clean : Text) → sanitize_prefix raw ≡ inr clean → starts_solid clean ≡ true
unfolding sanitize_prefix
sanitized_solid raw clean h =
    clean_solid raw clean (not_separator (contains legacy_sep raw) (check_clean (trim raw)) clean h)

added_cache :
    (ok : Bool) (st : Prefixes) (g : ℕ) (known : List Text) (clean p : Text)
    → (add_clean ok st g known clean).1 ≡ added p
    → (clean ≡ p)
      × (lookup g (add_clean ok st g known clean).0.cache
          ≡ some (sort_by_len (known ++ (clean ∷ []))))
added_cache ok st g known clean p h =
    ground (arith, lookup-insert g g (sort_by_len (known ++ (clean ∷ []))) st.cache)

solid_ne : (p : Text) → starts_solid p ≡ true → is_empty p ≡ false
solid_ne [] h = ground arith
solid_ne (c ∷ p) h = refl

last_there :
    (p : Text) (known : List Text) (clean : Text)
    → clean ≡ p
    → (has p known || has p (clean ∷ [])) ≡ true
last_there p known clean same =
    let found : is clean p ≡ true = ap (λ q. is q p) same ∙ is_self p in ground (arith, found)

-- A list that is cached and not empty is the guild's.
listed_starts :
    (st : Prefixes) (g : ℕ) (ps : List Text) (p rest : Text)
    → lookup g st.cache ≡ some ps
    → has p ps ≡ true
    → starts_solid p ≡ true
    → starts_with_prefix st (some g) (p ++ rest) ≡ true
unfolding starts_with_prefix
listed_starts st g [] p rest l h solid = ground arith
listed_starts st g (q ∷ qs) p rest l h solid =
    let ne : is_empty p ≡ false = solid_ne p solid in
    rw (l, trim_start-append p rest solid) (any_starts-has p (q ∷ qs) rest ne h)

checked_starts :
    (ok : Bool) (st : Prefixes) (g : ℕ) (known : List Text) (raw p rest : Text) (o : Unclean ⊎ Text)
    → sanitize_prefix raw ≡ o
    → (add_checked ok st g known o).1 ≡ added p
    → starts_with_prefix (add_checked ok st g known o).0 (some g) (p ++ rest) ≡ true
checked_starts ok st g known raw p rest (inl e) s h = ground arith
checked_starts ok st g known raw p rest (inr clean) s h =
    let (same, l) = added_cache ok st g known clean p h in
    let listed_p : has p (sort_by_len (known ++ (clean ∷ []))) ≡ true =
      has-sort_by_len p (known ++ (clean ∷ []))
      ∙ has-append p known (clean ∷ [])
      ∙ last_there p known clean same in
    listed_starts (add_clean ok st g known clean).0 g (sort_by_len (known ++ (clean ∷ []))) p rest l
      listed_p (ap starts_solid (sym same) ∙ sanitized_solid raw clean s)

-- After a prefix is added with success, any message of the guild that starts with it is recognised
-- as a command.
pub prefix_add-starts_with_prefix :
    (read_ok insert_ok : Bool) (st : Prefixes) (g : ℕ) (raw p rest : Text)
    → (prefix_add read_ok insert_ok st g raw).1 ≡ added p
    → starts_with_prefix (prefix_add read_ok insert_ok st g raw).0 (some g) (p ++ rest) ≡ true
unfolding prefix_add
prefix_add-starts_with_prefix read_ok insert_ok st g raw p rest h =
    checked_starts insert_ok st g (custom_prefixes read_ok st g) raw p rest (sanitize_prefix raw)
      refl h
