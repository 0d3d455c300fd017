-- ===== src/Tagscript/Blocks/Random/Weights.antt =====
-- src/tagscript/blocks.rs, `random_block`: rolls, items, and the sum of the weights.
use benny_rs.Base.{
  ℕ, ◌+◌, ◌%◌, ◌^◌, ◌≤◌, ◌<◌, ◌≡◌, refl, ap, false, none, List, [], ◌∷◌, ◌++◌, arith, ◌==◌,
}
use benny_rs.Base.Text.{Text}
use benny_rs.Tagscript.Blocks.Random.{done, panicked, last_item, total_weight, walk, choose}

-- The sum of the weights with no bound on it.
abbrev pub weight_sum : List (ℕ × Text) → ℕ
weight_sum [] = 0
weight_sum ((w, item) ∷ rest) = w + weight_sum rest

total_weight-sum : (items : List (ℕ × Text)) → total_weight items ≡ weight_sum items % 2 ^ 32
unfolding total_weight
total_weight-sum [] = refl
total_weight-sum ((w, item) ∷ rest) = omega (arith, total_weight-sum rest)

weight_sum-append :
    (xs ys : List (ℕ × Text)) → weight_sum (xs ++ ys) ≡ weight_sum xs + weight_sum ys
weight_sum-append [] ys = omega arith
weight_sum-append (x ∷ xs) ys = omega (arith, weight_sum-append xs ys)

walk_past :
    (before : List (ℕ × Text)) (roll acc w : ℕ) (item : Text) (after : List (ℕ × Text))
    (fallback : Text)
    → acc + weight_sum before ≤ roll
    → roll < acc + weight_sum before + w
    → acc + weight_sum before + w < 2 ^ 32
    → walk roll acc (before ++ (w, item) ∷ after) fallback ≡ item
unfolding walk
walk_past [] roll acc w item after fallback h k b = ground arith
walk_past ((v, other) ∷ before) roll acc w item after fallback h k b =
    ground (arith, walk_past before roll (acc + v) w item after fallback)

-- Where the weights sum to less than 2^32 and there is no seed, a roll that is the sum of the
-- weights before an item and an offset below its own weight gives that item, with no panic.
pub choose-rolls :
    (draw : ℕ → ℕ) (before : List (ℕ × Text)) (w : ℕ) (item : Text) (after : List (ℕ × Text))
    (offset : ℕ)
    → weight_sum (before ++ (w, item) ∷ after) < 2 ^ 32
    → offset < w
    → draw (weight_sum (before ++ (w, item) ∷ after)) ≡ weight_sum before + offset
    → choose draw none (before ++ (w, item) ∷ after) ≡ done item
unfolding choose
choose-rolls draw before w item after offset small h roll =
    let items = before ++ (w, item) ∷ after in
    let sum = weight_sum-append before ((w, item) ∷ after) in
    let total : total_weight items ≡ weight_sum items = omega (arith, total_weight-sum items) in
    let some_roll : (total_weight items == 0) ≡ false = ground (arith, total, sum) in
    rw (some_roll, total, roll)
      (ap done (
        walk_past before (weight_sum before + offset) 0 w item after (last_item items) (omega arith)
          (omega arith) (omega (arith, sum))))

-- Where the weights sum to a multiple of 2^32 and there is no seed, the choice panics.
pub choose_panics :
    (draw : ℕ → ℕ) (items : List (ℕ × Text))
    → weight_sum items % 2 ^ 32 ≡ 0
    → choose draw none items ≡ panicked
unfolding choose
choose_panics draw items h = ground (arith, total_weight-sum items)
