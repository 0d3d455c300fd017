-- ===== src/Tagscript/Blocks/Random.antt =====
-- src/tagscript/blocks.rs, the random blocks: `seed_index`, `pick` and `random_block`. What
-- `random_range(0..n)` answers at this call is the argument `draw`; it panics at an empty range. The
-- release build wraps at overflow, which is written out.
pub mod Weights
use Prim.Native.Nat.{bit_xor}
use benny_rs.Base.{
  ℕ, ◌+◌, ◌*◌, ◌%◌, ◌^◌, max, Bool, Option, none, some, List, [], ◌∷◌, ltb, ◌==◌, if◌then◌else◌,
  length, get_or,
}
use benny_rs.Base.Text.{Text, trim, has_char, split_char, split_once, parse_unsigned, bytes}

-- ---- `seed_index` ----

abbrev pub hash_byte : ℕ → ℕ → ℕ
hash_byte h b = bit_xor h b * 1099511628211 % 2 ^ 64

unfoldable pub hash_from : ℕ → List ℕ → ℕ
hash_from h [] = h
hash_from h (b ∷ bs) = hash_from (hash_byte h b) bs

unfoldable pub seed_index : Text → ℕ → ℕ
unfolding hash_from bytes
seed_index seed len = if len == 0 then 0 else hash_from 1469598103934665603 (bytes seed) % len

-- `seed.filter(|s| !s.is_empty())`
abbrev pub non_empty : Option Text → Option Text
non_empty none = none
non_empty (some []) = none
non_empty (some (c ∷ s)) = some (c ∷ s)

-- ---- `pick` ----

unfoldable pub pick : (draw : ℕ → ℕ) → List Text → Option Text → Text
unfolding seed_index
pick draw [] seed = []
pick draw (choice ∷ choices) seed =
    let n = length (choice ∷ choices) in
    get_or (choice ∷ choices) (elim (non_empty seed) [ none ↦ draw n | some s ↦ seed_index s n ]) []

-- ---- `random_block` ----

pub data Outcome : Type 0 where
  done : Text → Outcome
  panicked : Outcome

-- `weights.push(..); items.push(..)` for one raw item
abbrev pub weigh : Text → ℕ × Text
weigh raw = elim (split_once b'|' raw) [
  | none ↦ (1, raw)
  | some (w, item) ↦
      (max (elim (parse_unsigned (2 ^ 32) (trim w)) [ none ↦ 1 | some n ↦ n ]) 1, item)
]

abbrev pub weigh_all : List Text → List (ℕ × Text)
weigh_all [] = []
weigh_all (raw ∷ raws) = weigh raw ∷ weigh_all raws

abbrev pub last_item : List (ℕ × Text) → Text
last_item [] = []
last_item ((w, item) ∷ []) = item
last_item (x ∷ y ∷ rest) = last_item (y ∷ rest)

-- `weights.iter().sum()`, in `u32`
unfoldable pub total_weight : List (ℕ × Text) → ℕ
total_weight [] = 0
total_weight ((w, item) ∷ rest) = (w + total_weight rest) % 2 ^ 32

-- The loop, with the item that stands behind it.
unfoldable pub walk : ℕ → ℕ → List (ℕ × Text) → Text → Text
walk roll acc [] fallback = fallback
walk roll acc ((w, item) ∷ rest) fallback =
    let acc' = (acc + w) % 2 ^ 32 in
    let further = walk roll acc' rest fallback in if ltb roll acc' then item else further

-- The choice among the weighed items, once they are not empty.
unfoldable pub choose : (draw : ℕ → ℕ) → Option Text → List (ℕ × Text) → Outcome
unfolding seed_index total_weight walk
choose draw seed items =
    let total = total_weight items in
    elim (non_empty seed) [
      | some s ↦ done (walk (seed_index s total % 2 ^ 32) 0 items (last_item items))
      | none ↦ if total == 0 then panicked else done (walk (draw total) 0 items (last_item items))
    ]

unfoldable pub random_block : (draw : ℕ → ℕ) → Option Text → Text → Outcome
unfolding choose
random_block draw seed payload =
    let sep = if has_char b'~' payload then b'~' else b',' in
    elim (weigh_all (split_char sep payload)) [
      | [] ↦ done []
      | item ∷ items ↦ choose draw seed (item ∷ items)
    ]
