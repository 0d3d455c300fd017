-- ===== src/Utils/Cache/Laws.antt =====
-- src/utils/cache.rs, `bounded_insert`: the keys, the size and the entries.
use benny_rs.Base.{ℕ, ◌+◌, ◌-◌, ◌≤◌, ◌<◌, ◌≡◌, ◌≢◌, List, some, arith, if◌then◌else◌, length, take}
use benny_rs.Base.Equality.{Eq}
use benny_rs.Base.Dict.{
  lookup, keys, Distinct, lookup-insert, insert-Distinct, remove_all-Distinct, length-insert-le,
  length-remove_all-keys, lookup-remove_all,
}
use benny_rs.Utils.Cache.{make_room, bounded_insert}

module _ {ℓ κ} {K : Type ℓ} {V : Type κ} ⦃e : Eq K⦄ where
  make_room-Distinct : (m : List (K × V)) (cap : ℕ) → Distinct m → Distinct (make_room m cap)
  unfolding make_room
  make_room-Distinct m cap d =
      ground (arith, remove_all-Distinct (take (length m + 1 - cap) (keys m)) m d)

  length-make_room-lt :
      (m : List (K × V)) (cap : ℕ) → Distinct m → 0 < cap → length (make_room m cap) < cap
  unfolding make_room
  length-make_room-lt m cap d pos = ground (arith, length-remove_all-keys (length m + 1 - cap) m d)

  lookup-make_room :
      (m : List (K × V)) (cap : ℕ) (j : K) (w : V)
      → lookup j (make_room m cap) ≡ some w
      → lookup j m ≡ some w
  unfolding make_room
  lookup-make_room m cap j w h =
      ground (arith, lookup-remove_all (take (length m + 1 - cap) (keys m)) j w m)

  make_room_idle : (m : List (K × V)) (cap : ℕ) → length m < cap → make_room m cap ≡ m
  unfolding make_room
  make_room_idle m cap room = ground arith

  pub bounded_insert-Distinct :
      (m : List (K × V)) (k : K) (v : V) (cap : ℕ)
      → Distinct m
      → Distinct (bounded_insert m k v cap)
  unfolding bounded_insert
  bounded_insert-Distinct m k v cap d = insert-Distinct k v _ (make_room-Distinct m cap d)

  -- Whatever the size before, a map with distinct keys has at most cap entries after
  -- bounded_insert, cap being positive.
  pub length-bounded_insert-le :
      (m : List (K × V)) (k : K) (v : V) (cap : ℕ)
      → Distinct m
      → 0 < cap
      → length (bounded_insert m k v cap) ≤ cap
  unfolding bounded_insert
  length-bounded_insert-le m k v cap d pos =
      omega (arith, length-make_room-lt m cap d pos, length-insert-le k v (make_room m cap))

  -- A key other than the inserted one that is found after bounded_insert was there before, with
  -- the same value.
  pub lookup-bounded_insert_ne :
      (m : List (K × V)) (k j : K) (v w : V) (cap : ℕ)
      → k ≢ j
      → lookup j (bounded_insert m k v cap) ≡ some w
      → lookup j m ≡ some w
  unfolding bounded_insert
  lookup-bounded_insert_ne m k j v w cap ne h =
      lookup-make_room m cap j w
        (ground (arith, e.beq_iff k j, lookup-insert k j v (make_room m cap)))

  -- Below the cap bounded_insert evicts nothing: it finds the new value under its key, and all
  -- else as before.
  pub lookup-bounded_insert_room :
      (m : List (K × V)) (k j : K) (v : V) (cap : ℕ)
      → length m < cap
      → lookup j (bounded_insert m k v cap) ≡ (if e.beq k j then some v else lookup j m)
  unfolding bounded_insert
  lookup-bounded_insert_room m k j v cap room =
      rw (make_room_idle m cap room) (lookup-insert k j v m)

  pub length-bounded_insert_room :
      (m : List (K × V)) (k : K) (v : V) (cap : ℕ)
      → length m < cap
      → length (bounded_insert m k v cap) ≤ length m + 1
  unfolding bounded_insert
  length-bounded_insert_room m k v cap room =
      rw (make_room_idle m cap room) (length-insert-le k v m)
