-- ===== src/Cogs/Prefixes/Rows.antt =====
-- src/cogs/prefixes.rs: which prefixes the lists and the table hold after each change of them.
use benny_rs.Base.{
  ℕ, ◌+◌, ◌≡◌, refl, sym, ap, ◌∙◌, Bool, true, false, not, ◌&&◌, ◌||◌, List, [], ◌∷◌, ◌++◌, ◌==◌,
  length, append-nil, append_assoc, if◌then◌else◌, arith, Bool-cases, inl, inr, ==_iff,
}
use benny_rs.Base.Equality.{nat_eq, list_beq_iff}
use benny_rs.Base.Dict.{lookup, lookup-insert}
use benny_rs.Base.Text.{Text, is}
use benny_rs.State.{has, sort_by_len, insert_by_len, rows_of}
use benny_rs.Cogs.Prefixes.{
  listed, has_row, insert_row, delete_rows, retain_not, push_to, push_all, sort_all,
}

pub has-rows_of :
    (g : ℕ) (p : Text) (rows : List (ℕ × Text)) → has p (rows_of g rows) ≡ has_row g p rows
has-rows_of g p [] = refl
has-rows_of g p ((h, q) ∷ rows) = ground (arith, has-rows_of g p rows)

has_row-append :
    (g : ℕ) (p : Text) (a b : List (ℕ × Text))
    → has_row g p (a ++ b) ≡ (has_row g p a || has_row g p b)
has_row-append g p [] b = refl
has_row-append g p ((h, q) ∷ a) b = ground (arith, has_row-append g p a b)

pub has_row-insert_row :
    (g h : ℕ) (p q : Text) (rows : List (ℕ × Text))
    → has_row g p (insert_row h q rows) ≡ ((h == g && is q p) || has_row g p rows)
has_row-insert_row g h p q rows =
    ground (arith, has_row-append g p rows ((h, q) ∷ []), ==_iff h g, list_beq_iff q p)

pub has_row-delete_rows :
    (del : ℕ → Text → Bool) (g : ℕ) (p : Text) (rows : List (ℕ × Text))
    → has_row g p (delete_rows del rows) ≡ (not (del g p) && has_row g p rows)
has_row-delete_rows del g p [] = ground arith
has_row-delete_rows del g p ((h, q) ∷ rows) =
    ground (arith, has_row-delete_rows del g p rows, ==_iff h g, list_beq_iff q p)

pub has-retain_not :
    (q p : Text) (ps : List Text) → has p (retain_not q ps) ≡ (not (is q p) && has p ps)
has-retain_not q p [] = ground arith
has-retain_not q p (r ∷ ps) =
    ground (arith, has-retain_not q p ps, list_beq_iff r q, list_beq_iff q p, list_beq_iff r p)

listed-push_to :
    (g h : ℕ) (q : Text) (cache : List (ℕ × List Text))
    → listed (lookup g (push_to h q cache))
      ≡ listed (lookup g cache) ++ (if h == g then q ∷ [] else [])
listed-push_to g h q cache =
    let here = lookup-insert h g (listed (lookup h cache) ++ (q ∷ [])) cache in
    elim (Bool-cases (h == g)) [
      | inl e ↦
          let same : h ≡ g = (==_iff h g).0 e in
          rw (here, e) (ap (λ k. listed (lookup k cache) ++ (q ∷ [])) same)
      | inr e ↦ rw (here, e) (sym (append-nil (listed (lookup g cache))))
    ]

if_append :
    (b : Bool) (q : Text) (l : List Text)
    → (if b then q ∷ [] else []) ++ l ≡ (if b then q ∷ l else l)
if_append true q l = refl
if_append false q l = refl

-- What `on_ready` makes of the list of a guild: the guild's rows go behind it.
pub listed-push_all :
    (g : ℕ) (rows : List (ℕ × Text)) (cache : List (ℕ × List Text))
    → listed (lookup g (push_all rows cache)) ≡ listed (lookup g cache) ++ rows_of g rows
listed-push_all g [] cache = sym (append-nil (listed (lookup g cache)))
listed-push_all g ((h, q) ∷ rows) cache =
    let known = listed (lookup g cache) in
    listed-push_all g rows (push_to h q cache)
    ∙ ap (λ l. l ++ rows_of g rows) (listed-push_to g h q cache)
    ∙ append_assoc known (if h == g then q ∷ [] else []) (rows_of g rows)
    ∙ ap (λ l. known ++ l) (if_append (h == g) q (rows_of g rows))

pub lookup-sort_all :
    (g : ℕ) (cache : List (ℕ × List Text))
    → listed (lookup g (sort_all cache)) ≡ sort_by_len (listed (lookup g cache))
lookup-sort_all g [] = refl
lookup-sort_all g ((h, ps) ∷ cache) =
    let rest = lookup-sort_all g cache in
    elim (Bool-cases (h == g)) [
      | inl e ↦ rw (sort_all, lookup, e) refl
      | inr e ↦ rw (sort_all, lookup, e) rest
    ]

length-insert_by_len : (p : Text) (ps : List Text) → length (insert_by_len p ps) ≡ length ps + 1
length-insert_by_len p [] = refl
length-insert_by_len p (q ∷ ps) = ground (arith, length-insert_by_len p ps)

pub length-sort_by_len : (ps : List Text) → length (sort_by_len ps) ≡ length ps
length-sort_by_len [] = refl
length-sort_by_len (p ∷ ps) =
    omega (arith, length-insert_by_len p (sort_by_len ps), length-sort_by_len ps)
