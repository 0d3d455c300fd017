-- ===== src/Base/Tables.antt =====
-- A table of the database as an association list from primary keys to rows, with the statements of
-- SQL that the program makes.
use benny_rs.Base.{
  ℕ, suc, ◌≤◌, ◌<◌, max, ◌≡◌, refl, Bool, true, false, Option, none, some, List, [], ◌∷◌,
  if◌then◌else◌, ◌==◌, arith,
}
use benny_rs.Base.Equality.{Eq, nat_eq, pair_eq}
use benny_rs.Base.Dict.{lookup, insert, contains_key, Distinct}

module _ {ℓ κ} {K : Type ℓ} {V : Type κ} where
  -- `UPDATE .. WHERE`
  abbrev pub update_where : (K → V → Bool) → (V → V) → List (K × V) → List (K × V)
  update_where p f [] = []
  update_where p f ((k, v) ∷ m) = (k, if p k v then f v else v) ∷ update_where p f m

  -- `DELETE .. WHERE`
  abbrev pub delete_where : (K → V → Bool) → List (K × V) → List (K × V)
  delete_where p [] = []
  delete_where p ((k, v) ∷ m) = let rest = delete_where p m in if p k v then rest else (k, v) ∷ rest

  -- `SELECT .. WHERE`
  abbrev pub select_where : (K → V → Bool) → List (K × V) → List (K × V)
  select_where p [] = []
  select_where p ((k, v) ∷ m) = let rest = select_where p m in if p k v then (k, v) ∷ rest else rest

  -- `SELECT COUNT(*) .. WHERE`
  abbrev pub count_where : (K → V → Bool) → List (K × V) → ℕ
  count_where p [] = 0
  count_where p ((k, v) ∷ m) = let rest = count_where p m in if p k v then suc rest else rest

-- `INSERT`, which a row of the same primary key makes fail.
abbrev pub insert_new {ℓ κ} :
    {K : Type ℓ} {V : Type κ} ⦃e : Eq K⦄ → K → V → List (K × V) → Option (List (K × V))
insert_new k v m = if contains_key k m then none else some (insert k v m)

-- The highest second part of the keys with a first part, or 0.
abbrev pub highest {κ} : {V : Type κ} → ℕ → List ((ℕ × ℕ) × V) → ℕ
highest g [] = 0
highest g (((h, n), v) ∷ m) = let rest = highest g m in if h == g then max n rest else rest

module _ {ℓ κ} {K : Type ℓ} {V : Type κ} ⦃e : Eq K⦄ where
  -- What a row is after an update.
  abbrev pub updated : (K → V → Bool) → (V → V) → K → Option V → Option V
  updated p f k none = none
  updated p f k (some v) = some (if p k v then f v else v)

  -- What a row is after a deletion.
  abbrev pub kept : (K → V → Bool) → K → Option V → Option V
  kept p k none = none
  kept p k (some v) = if p k v then none else some v

  pub lookup-update_where :
      (p : K → V → Bool) (f : V → V) (k : K) (m : List (K × V))
      → lookup k (update_where p f m) ≡ updated p f k (lookup k m)
  lookup-update_where p f k [] = refl
  lookup-update_where p f k ((j, v) ∷ m) =
      ground (arith, e.beq_iff j k, lookup-update_where p f k m)

  pub update_where-Distinct :
      (p : K → V → Bool) (f : V → V) (m : List (K × V)) → Distinct m → Distinct (update_where p f m)
  update_where-Distinct p f [] d = d
  update_where-Distinct p f ((k, v) ∷ m) d =
      ground (arith, lookup-update_where p f k m, update_where-Distinct p f m d.1)

  pub lookup-delete_where-none :
      (p : K → V → Bool) (k : K) (m : List (K × V))
      → lookup k m ≡ none
      → lookup k (delete_where p m) ≡ none
  lookup-delete_where-none p k [] h = refl
  lookup-delete_where-none p k ((j, v) ∷ m) h = ground (arith, lookup-delete_where-none p k m)

  pub lookup-delete_where :
      (p : K → V → Bool) (k : K) (m : List (K × V))
      → Distinct m
      → lookup k (delete_where p m) ≡ kept p k (lookup k m)
  lookup-delete_where p k [] d = refl
  lookup-delete_where p k ((j, v) ∷ m) d =
      ground (arith, e.beq_iff j k, lookup-delete_where p k m d.1, lookup-delete_where-none p k m)

  pub delete_where-Distinct :
      (p : K → V → Bool) (m : List (K × V)) → Distinct m → Distinct (delete_where p m)
  delete_where-Distinct p [] d = d
  delete_where-Distinct p ((k, v) ∷ m) d =
      ground (arith, lookup-delete_where-none p k m d.0, delete_where-Distinct p m d.1)

  -- Once every row is updated to one outside the condition, none is counted.
  pub count_where-update_where :
      (p q : K → V → Bool) (f : V → V) (m : List (K × V))
      → ((k : K) (v : V) → p k v ≡ true → q k v ≡ true)
      → ((k : K) (v : V) → p k (f v) ≡ false)
      → count_where p (update_where q f m) ≡ 0
  count_where-update_where p q f [] h c = refl
  count_where-update_where p q f ((k, v) ∷ m) h c =
      ground (arith, count_where-update_where p q f m h c, h k v, c k v)

  pub insert_new_absent :
      (k : K) (v : V) (m : List (K × V))
      → lookup k m ≡ none
      → insert_new k v m ≡ some (insert k v m)
  insert_new_absent k v m h = ground (arith)

pub highest_upper {κ} :
    {V : Type κ} (g n : ℕ) (v : V) (m : List ((ℕ × ℕ) × V))
    → lookup (g, n) m ≡ some v
    → n ≤ highest g m
highest_upper g n v (((h, i), w) ∷ m) l = ground (arith, highest_upper g n v m)
highest_upper g n v [] l = ground arith

pub lookup_above {κ} :
    {V : Type κ} (g n : ℕ) (m : List ((ℕ × ℕ) × V)) → highest g m < n → lookup (g, n) m ≡ none
lookup_above g n [] l = refl
lookup_above g n (((h, i), w) ∷ m) l = ground (arith, lookup_above g n m)
