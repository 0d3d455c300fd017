-- ===== src/Utils/Cache.antt =====
-- src/utils/cache.rs: insertion into a map of bounded size, for the interactive sessions.
pub mod Laws
pub mod Since
use benny_rs.Base.{ℕ, ◌+◌, ◌-◌, List, leb, if◌then◌else◌, length, take}
use benny_rs.Base.Equality.{Eq}
use benny_rs.Base.Dict.{insert, remove_all, keys}

module _ {ℓ κ} {K : Type ℓ} {V : Type κ} ⦃e : Eq K⦄ where
  -- The victims are the first keys in the map's order of iteration, collected before any removal.
  unfoldable pub make_room : List (K × V) → ℕ → List (K × V)
  make_room m cap =
      let excess = length m + 1 - cap in
      let victims = take excess (keys m) in if leb cap (length m) then remove_all victims m else m

  unfoldable pub bounded_insert : List (K × V) → K → V → ℕ → List (K × V)
  bounded_insert m key value cap = insert key value (make_room m cap)
