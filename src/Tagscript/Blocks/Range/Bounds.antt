-- ===== src/Tagscript/Blocks/Range/Bounds.antt =====
-- src/tagscript/blocks.rs, `pick_int`: the range of a seeded pick.
use benny_rs.Base.{ℕ, ◌+◌, ◌^◌, ◌<◌, ◌≡◌, refl, some, arith, true, ◌⊎◌, ltb→lt, inl, inr}
use benny_rs.Base.Int.{ℤ, pos, pos_part, neg_part, ◌≤ℤ◌, ◌-ℤ◌, negsuc, ltb_ℤ, +ℤ_parts, -ℤ_parts}
use benny_rs.Base.Text.{Text}
use benny_rs.Tagscript.Host.{Host}
use benny_rs.Tagscript.Blocks.Random.{seed_index}
use benny_rs.Tagscript.Blocks.Range.{span_of, pick_int}

-- A seeded index into a range that is not empty lies in it.
pub seed_index-lt : (seed : Text) (len : ℕ) → 0 < len → seed_index seed len < len
unfolding seed_index
seed_index-lt seed len h = grind arith

parts_apart : (a : ℤ) → (pos_part a ≡ 0) ⊎ (neg_part a ≡ 0)
parts_apart (pos n) = inr refl
parts_apart (negsuc n) = inl refl

-- Where lo < hi and the range holds fewer than 2^64 values, a seeded pick is neither below lo nor
-- above hi.
pub pick_int_bounds :
    (host : Host) (draw : ℕ) (lo hi : ℤ) (seed : Text)
    → ltb_ℤ lo hi ≡ true
    → pos_part (hi -ℤ lo) + 1 < 2 ^ 64
    → (lo ≤ℤ pick_int host draw lo hi (some seed)) × (pick_int host draw lo hi (some seed) ≤ℤ hi)
unfolding pick_int
pick_int_bounds host draw lo hi seed h room =
    let index = seed_index seed (span_of lo hi) in
    let low = seed_index-lt seed (span_of lo hi) (omega arith) in
    let below : pos_part lo + neg_part hi < pos_part hi + neg_part lo = ltb→lt _ _ h in
    let apart = parts_apart (hi -ℤ lo) in
    rw h (
      omega (arith, +ℤ_parts lo (pos index)),
      omega (arith, +ℤ_parts lo (pos index), -ℤ_parts hi lo, apart),
    )
