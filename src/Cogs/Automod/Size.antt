-- ===== src/Cogs/Automod/Size.antt =====
-- src/cogs/automod.rs, `evict_if_full`: the sizes of the maps of windows.
use benny_rs.Base.{
  ℕ, ◌<◌, ◌≤◌, ◌≡◌, refl, true, false, List, [], ◌∷◌, ◌++◌, leb, length, arith, Bool-cases, inl,
  inr,
}
use benny_rs.Base.Int.{ℤ}
use benny_rs.Base.Equality.{Eq}
use benny_rs.Base.Dict.{contains_key, length-remove-le, length-insert-le, length-insert_known}
use benny_rs.Cogs.Automod.{evict_if_full, expire, slide, window_of}

module _ {ℓ κ} {K : Type ℓ} {V : Type κ} ⦃e : Eq K⦄ where
  length-evict_new :
      (m : List (K × V)) (k : K) (cap : ℕ)
      → 0 < cap
      → length m ≤ cap
      → contains_key k m ≡ false
      → length (evict_if_full m k cap) < cap
  unfolding evict_if_full
  length-evict_new [] k cap room bound new = ground arith
  length-evict_new ((j, v) ∷ m) k cap room bound new =
      let self : e.beq j j ≡ true = (e.beq_iff j j).1 refl in
      let fewer = length-remove-le j m in
      elim (Bool-cases (leb cap (length ((j, v) ∷ m)))) [
        | inl full ↦ rw (full, new, self) (omega (arith, fewer))
        | inr space ↦ rw space (ground arith)
      ]

  evict_known :
      (m : List (K × V)) (k : K) (cap : ℕ) → contains_key k m ≡ true → evict_if_full m k cap ≡ m
  unfolding evict_if_full
  evict_known m k cap known = ground (arith, known)

module _ {ℓ} {K : Type ℓ} ⦃e : Eq K⦄ where
  -- Within a positive cap, an event for any key leaves the map of windows within the cap.
  pub length-slide-cap :
      (m : List (K × List ℕ)) (k : K) (now : ℕ) (secs : ℤ) (cap : ℕ)
      → 0 < cap
      → length m ≤ cap
      → length (slide m k now secs cap).1 ≤ cap
  unfolding slide
  length-slide-cap m k now secs cap room bound =
      let room' = evict_if_full m k cap in
      let w = expire now secs (window_of k room' ++ now ∷ []) in
      elim (Bool-cases (contains_key k m)) [
        | inl known ↦
            rw (evict_known m k cap known) (
              rw (length-insert_known k (expire now secs (window_of k m ++ now ∷ [])) m known)
                bound)
        | inr new ↦
            omega (arith, length-evict_new m k cap room bound new, length-insert-le k w room')
      ]
