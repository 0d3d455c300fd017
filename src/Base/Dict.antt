-- ===== src/Base/Dict.antt =====
-- A `DashMap` as an association list. The list's order stands for the order in which the map
-- iterates: a statement about every list is one about every such order.
use Prim.Native.Nat.{ℕ, zero, suc, ◌+◌, ◌-◌, ◌≤◌}
use mathlib.Core.Path.{◌≡◌, refl}
use mathlib.Core.Bool.{Bool, true, false}
use mathlib.Core.Option.{Option, none, some}
use mathlib.Core.List.{List, [], ◌∷◌}
use native.Mathlib.Omega.{arith}
use benny_rs.Base.Tests.{if◌then◌else◌}
use benny_rs.Base.Lists.{length, take}
use benny_rs.Base.Equality.{Eq}

module _ {ℓ κ} {K : Type ℓ} {V : Type κ} ⦃e : Eq K⦄ where
  abbrev pub lookup : K → List (K × V) → Option V
  lookup k [] = none
  lookup k ((j, v) ∷ m) = if e.beq j k then some v else lookup k m

  abbrev pub contains_key : K → List (K × V) → Bool
  contains_key k m = elim (lookup k m) [ none ↦ false | some _ ↦ true ]

  abbrev pub insert : K → V → List (K × V) → List (K × V)
  insert k v [] = (k, v) ∷ []
  insert k v ((j, w) ∷ m) = if e.beq j k then (k, v) ∷ m else (j, w) ∷ insert k v m

  abbrev pub remove : K → List (K × V) → List (K × V)
  remove k [] = []
  remove k ((j, w) ∷ m) = if e.beq j k then remove k m else (j, w) ∷ remove k m

  abbrev pub remove_all : List K → List (K × V) → List (K × V)
  remove_all [] m = m
  remove_all (k ∷ ks) m = remove_all ks (remove k m)

  pub lookup-insert :
      (k j : K) (v : V) (m : List (K × V))
      → lookup j (insert k v m) ≡ (if e.beq k j then some v else lookup j m)
  lookup-insert k j v [] = refl
  lookup-insert k j v ((i, w) ∷ m) =
      ground (arith, e.beq_iff k j, e.beq_iff i k, e.beq_iff i j, lookup-insert k j v m)

  pub lookup-remove :
      (k j : K) (m : List (K × V))
      → lookup j (remove k m) ≡ (if e.beq k j then none else lookup j m)
  lookup-remove k j [] = ground arith
  lookup-remove k j ((i, w) ∷ m) =
      ground (arith, e.beq_iff k j, e.beq_iff i k, e.beq_iff i j, lookup-remove k j m)

  pub length-remove-le : (k : K) (m : List (K × V)) → length (remove k m) ≤ length m
  length-remove-le k [] = omega arith
  length-remove-le k (x ∷ m) = ground (arith, length-remove-le k m)

  pub length-insert-le : (k : K) (v : V) (m : List (K × V)) → length (insert k v m) ≤ length m + 1
  length-insert-le k v [] = omega arith
  length-insert-le k v (x ∷ m) = ground (arith, length-insert-le k v m)

  pub length-insert_known :
      (k : K) (v : V) (m : List (K × V))
      → contains_key k m ≡ true
      → length (insert k v m) ≡ length m
  length-insert_known k v [] h = ground arith
  length-insert_known k v (x ∷ m) h = ground (arith, length-insert_known k v m)

-- The keys of a map are distinct.
module _ {ℓ κ} {K : Type ℓ} {V : Type κ} ⦃e : Eq K⦄ where
  abbrev pub Distinct : List (K × V) → Type κ
  Distinct [] = Unit
  Distinct ((k, v) ∷ m) = (lookup k m ≡ none) × Distinct m

  abbrev pub keys : List (K × V) → List K
  keys [] = []
  keys ((k, v) ∷ m) = k ∷ keys m

  pub remove_absent : (k : K) (m : List (K × V)) → lookup k m ≡ none → remove k m ≡ m
  remove_absent k [] h = refl
  remove_absent k (x ∷ m) h = ground (arith, remove_absent k m)

  pub insert-Distinct : (k : K) (v : V) (m : List (K × V)) → Distinct m → Distinct (insert k v m)
  insert-Distinct k v [] d = (refl, tt)
  insert-Distinct k v ((j, w) ∷ m) d =
      ground (arith, insert-Distinct k v m d.1, lookup-insert k j v m, e.beq_iff k j, e.beq_iff j k)

  pub remove-Distinct : (k : K) (m : List (K × V)) → Distinct m → Distinct (remove k m)
  remove-Distinct k [] d = tt
  remove-Distinct k ((j, w) ∷ m) d = ground (arith, remove-Distinct k m d.1, lookup-remove k j m)

  pub remove_all-Distinct :
      (ks : List K) (m : List (K × V)) → Distinct m → Distinct (remove_all ks m)
  remove_all-Distinct [] m d = d
  remove_all-Distinct (k ∷ ks) m d = remove_all-Distinct ks (remove k m) (remove-Distinct k m d)

  pub length-remove_all-keys :
      (n : ℕ) (m : List (K × V))
      → Distinct m
      → length (remove_all (take n (keys m)) m) ≡ length m - n
  length-remove_all-keys zero m d = omega arith
  length-remove_all-keys (suc n) [] d = omega arith
  length-remove_all-keys (suc n) ((k, v) ∷ m) d =
      let same : remove k ((k, v) ∷ m) ≡ m = ground (arith, e.beq_iff k k, remove_absent k m d.0) in
      rw same (omega (arith, length-remove_all-keys n m d.1))

  pub lookup-remove_all :
      (ks : List K) (j : K) (w : V) (m : List (K × V))
      → lookup j (remove_all ks m) ≡ some w
      → lookup j m ≡ some w
  lookup-remove_all [] j w m h = h
  lookup-remove_all (k ∷ ks) j w m h =
      ground (arith, lookup-remove_all ks j w (remove k m) h, lookup-remove k j m)
