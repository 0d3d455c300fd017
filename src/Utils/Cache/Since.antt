-- ===== src/Utils/Cache/Since.antt =====
-- src/utils/cache.rs, `bounded_insert`, where the values are times: a time on record stays, or is
-- replaced by a later one, as long as there is room.
use benny_rs.Base.{
  ℕ, suc, ◌+◌, ◌≤◌, ◌<◌, ◌≡◌, refl, ◌∙◌, some, List, length, arith, Bool-cases, inl, inr,
}
use benny_rs.Base.Equality.{Eq}
use benny_rs.Base.Dict.{lookup}
use benny_rs.Utils.Cache.{bounded_insert}
use benny_rs.Utils.Cache.Laws.{lookup-bounded_insert_room, length-bounded_insert_room}

module _ {ℓ} {K : Type ℓ} ⦃e : Eq K⦄ where
  -- A time from `low` on is found under the key, and `n` more keys have room.
  abbrev pub Since : (k : K) (low n : ℕ) (cap : ℕ) → List (K × ℕ) → Type 0
  Since k low n cap m = ((p : ℕ) × (lookup k m ≡ some p) × (low ≤ p)) × (length m + n ≤ cap)

  pub bounded_insert-Since :
      (k j : K) (low n cap stamp : ℕ) (m : List (K × ℕ))
      → low ≤ stamp
      → Since k low (suc n) cap m
      → Since k low n cap (bounded_insert m j stamp cap)
  bounded_insert-Since k j low n cap stamp m h ((p, found, late), room) =
      let space : length m < cap = omega arith in
      let here = lookup-bounded_insert_room m j k stamp cap space in
      (
        elim (Bool-cases (e.beq j k)) [
          | inl y ↦ (stamp, here ∙ rw y refl, h)
          | inr n ↦ (p, here ∙ rw n found, late)
        ],
        omega (arith, length-bounded_insert_room m j stamp cap space),
      )

  pub bounded_insert-Since_new :
      (k : K) (n cap stamp : ℕ) (m : List (K × ℕ))
      → length m + suc n ≤ cap
      → Since k stamp n cap (bounded_insert m k stamp cap)
  bounded_insert-Since_new k n cap stamp m room =
      let space : length m < cap = omega arith in
      (
        (
          stamp,
          lookup-bounded_insert_room m k k stamp cap space ∙ rw ((e.beq_iff k k).1 refl) refl,
          omega arith,
        ),
        omega (arith, length-bounded_insert_room m k stamp cap space),
      )

  pub Since-less :
      (k : K) (low n cap : ℕ) (m : List (K × ℕ)) → Since k low (suc n) cap m → Since k low n cap m
  Since-less k low n cap m (found, room) = (found, omega arith)
