-- ===== src/Cogs/Levels/Curve.antt =====
-- src/cogs/levels.rs: `level_from_xp` against the sums of `xp_for_level`.
use benny_rs.Base.{
  ℕ, zero, suc, ◌+◌, ◌-◌, ◌≤◌, ◌<◌, ◌≡◌, ◌↔◌, refl, ap, ◌∙◌, inl, inr, arith, ltb, Bool-cases,
}
use benny_rs.Base.Int.{ℤ, pos, ltb_ℤ, ◌-ℤ◌}
use benny_rs.Cogs.Levels.{xp_for_level, level_loop, level_from_xp}

-- All the XP below a level: what the levels before it cost.
pub xp_below : ℕ → ℕ
xp_below zero = 0
xp_below (suc level) = xp_below level + xp_for_level level

xp_for_level_pos : (level : ℕ) → 100 ≤ xp_for_level level
unfolding xp_for_level
xp_for_level_pos level = omega arith

-- `total` is the XP below some level and a rest that does not reach the next, and `out` says so.
pub record Splits (total : ℕ) (out : ℕ × ℤ × ℕ) : Type 0 where
  pub level : ℕ
  pub rest : ℕ
  pub adds : xp_below level + rest ≡ total
  pub short : rest < xp_for_level level
  pub shown : out ≡ (level, pos rest, xp_for_level level)

xp_below-next : (level : ℕ) → xp_below (level + 1) ≡ xp_below level + xp_for_level level
unfolding xp_below
xp_below-next level = let e : level + 1 ≡ suc level = omega arith in rw e

pos_sub : (a b : ℕ) → b ≤ a → pos a -ℤ pos b ≡ pos (a - b)
unfolding ◌-ℤ◌
pos_sub a b h = ground arith

level_loop-Splits :
    (fuel level left : ℕ)
    → left ≤ fuel
    → Splits (xp_below level + left) (level_loop fuel level (pos left))
unfolding level_loop
level_loop-Splits zero level left h = record {
  level = level;
  rest = left;
  adds = refl;
  short = omega (arith, xp_for_level_pos level);
  shown = refl;
}
level_loop-Splits (suc fuel) level left h =
    let n = xp_for_level level in
    elim (Bool-cases (ltb_ℤ (pos left) (pos n))) [
      | inl short ↦
          rw short
            (record { level = level; rest = left; adds = refl; short = ground arith; shown = refl })
      | inr enough ↦
          let fits : n ≤ left = ground arith in
          let total : xp_below (level + 1) + (left - n) ≡ xp_below level + left =
            omega (arith, xp_below-next level) in
          rw (enough, pos_sub left n fits, ← total)
            (level_loop-Splits fuel (level + 1) (left - n) (omega (arith, xp_for_level_pos level)))
    ]

xp_below_mono : (a b : ℕ) → a < b → xp_below a + xp_for_level a ≤ xp_below b
unfolding xp_below
xp_below_mono a zero h = absurd (omega arith)
xp_below_mono a (suc b) h = elim (Bool-cases (ltb a b)) [
  | inl below ↦ omega (arith, xp_below_mono a b (ground arith))
  | inr top ↦ let e : a ≡ b = ground arith in rw e (omega arith)
]

-- A total splits in one way only.
split_unique :
    (a b r s : ℕ)
    → r < xp_for_level a
    → s < xp_for_level b
    → xp_below a + r ≡ xp_below b + s
    → a ≡ b
split_unique a b r s h k e = ground (arith, xp_below_mono a b, xp_below_mono b a)

same_split :
    (a b r s : ℕ)
    → r < xp_for_level a
    → s < xp_for_level b
    → xp_below a + r ≡ xp_below b + s
    → ◌≡◌ {A = ℕ × ℤ × ℕ} (a, pos r, xp_for_level a) (b, pos s, xp_for_level b)
same_split a b r s h k e =
    let same = split_unique a b r s h k e in ground (arith, same, ap xp_below same)

-- For every total that is not negative the loop of level_from_xp ends, and splits the total into
-- the XP below its level and a rest short of the next, with the cost of the next level.
pub level_from_xp-Splits : (total : ℕ) → Splits total (level_from_xp (pos total))
unfolding level_from_xp xp_below
level_from_xp-Splits total =
    let e : 0 + total ≡ total = omega arith in
    rw e at (level_loop-Splits total 0 total (omega arith))

-- At the XP below a level and a rest short of the next level, level_from_xp gives that level, that
-- rest, and the cost of the next level.
pub level_from_xp-xp_below :
    (level rest : ℕ)
    → rest < xp_for_level level
    → level_from_xp (pos (xp_below level + rest)) ≡ (level, pos rest, xp_for_level level)
level_from_xp-xp_below level rest h =
    let s = level_from_xp-Splits (xp_below level + rest) in
    s.shown ∙ same_split s.level level s.rest rest s.short h s.adds

-- A total that is not negative reaches a level exactly when it is not below the XP below that
-- level.
pub level_reached :
    (level total : ℕ) → (level ≤ (level_from_xp (pos total)).0) ↔ (xp_below level ≤ total)
level_reached level total =
    let s = level_from_xp-Splits total in
    rw s.shown
      (ground (arith, xp_below_mono level s.level, xp_below_mono s.level level, s.adds, s.short))
