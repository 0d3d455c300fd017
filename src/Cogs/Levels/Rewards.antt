-- ===== src/Cogs/Levels/Rewards.antt =====
-- src/cogs/levels.rs, `on_message`: the rewards that a message earns.
use benny_rs.Base.{
  ℕ, ◌+◌, ◌^◌, ◌≤◌, ◌<◌, ◌≡◌, refl, sym, ap, ◌∙◌, Bool, true, false, ◌&&◌, none, some, List, [],
  ◌∷◌, ◌++◌, map, arith, ltb, leb, if◌then◌else◌, Bool-cases, inl, inr,
}
use benny_rs.Base.Int.{pos, ◌+ℤ◌, wrap_i64, wrap_i64-pos}
use benny_rs.Cogs.Levels.{Config, add_role, announced, level_up, level_from_xp, earned, award_xp}
use benny_rs.Cogs.Levels.Curve.{xp_below, level_reached}

-- The roles of the rewards whose level begins above `before` XP and not above `after`.
pub crossed : ℕ → ℕ → List (ℕ × ℕ) → List ℕ
crossed before after [] = []
crossed before after ((level, role) ∷ rewards) =
    let rest = crossed before after rewards in
    if ltb before (xp_below level) && leb (xp_below level) after then role ∷ rest else rest

earned-crossed :
    (before after : ℕ) (rewards : List (ℕ × ℕ))
    → earned (level_from_xp (pos before)).0 (level_from_xp (pos after)).0 rewards
      ≡ crossed before after rewards
unfolding earned crossed
earned-crossed before after [] = refl
earned-crossed before after ((level, role) ∷ rewards) = ground (
  arith,
  earned-crossed before after rewards,
  level_reached level before,
  level_reached level after,
)

crossed_none :
    (before after : ℕ) (rewards : List (ℕ × ℕ))
    → (level_from_xp (pos after)).0 ≤ (level_from_xp (pos before)).0
    → crossed before after rewards ≡ []
unfolding crossed
crossed_none before after [] h = refl
crossed_none before after ((level, role) ∷ rewards) h = ground (
  arith,
  crossed_none before after rewards h,
  level_reached level before,
  level_reached level after,
)

rewarded :
    (before after : ℕ) (cfg : Config) (rewards : List (ℕ × ℕ))
    → (if ltb (level_from_xp (pos before)).0 (level_from_xp (pos after)).0
          then announced cfg (level_from_xp (pos after)).0
          else [])
        ++ map add_role (crossed before after rewards)
      ≡ level_up cfg (level_from_xp (pos before)).0 (level_from_xp (pos after)).0 rewards
rewarded before after cfg rewards =
    let old = (level_from_xp (pos before)).0 in
    let new = (level_from_xp (pos after)).0 in
    elim (Bool-cases (leb new old)) [
      | inl low ↦
          let rose : ltb old new ≡ false = ground arith in
          let none_crossed = crossed_none before after rewards (ground arith) in
          rw (rose, low, none_crossed, level_up) refl
      | inr high ↦
          let rose : ltb old new ≡ true = ground arith in
          let same = earned-crossed before after rewards in rw (rose, level_up, high, same) refl
    ]

-- From a total and an award that are not negative, and whose sum is below 2^63, an upsert that
-- reaches the database stores the sum; then the new level is announced, if it rose and the guild
-- announces levels, and the roles that are added are those of the rewards whose level's XP lies
-- above the old total and not above the new one. If the upsert fails, nothing is stored or asked
-- of Discord.
pub award_xp-crossed :
    (write_ok : Bool) (cfg : Config) (before award : ℕ) (rewards : List (ℕ × ℕ))
    → before + award < 2 ^ 63
    → let after = before + award in
      let rose = ltb (level_from_xp (pos before)).0 (level_from_xp (pos after)).0 in
      award_xp write_ok cfg (pos before) (pos award) rewards ≡ (
        if write_ok
        then (
          some (pos after),
          (if rose then announced cfg (level_from_xp (pos after)).0 else [])
              ++ map add_role (crossed before after rewards),
        )
        else (none, []))
unfolding award_xp ◌+ℤ◌
award_xp-crossed true cfg before award rewards h =
    let sum : pos before +ℤ pos award ≡ pos (before + award) = ground arith in
    let stored : wrap_i64 (pos before +ℤ pos award) ≡ pos (before + award) =
      ap wrap_i64 sum ∙ wrap_i64-pos (before + award) h in
    ap (λ x. (some x, level_up cfg (level_from_xp (pos before)).0 (level_from_xp x).0 rewards))
      stored
    ∙ ap (λ l. (some (pos (before + award)), l))
        (sym (rewarded before (before + award) cfg rewards))
award_xp-crossed false cfg before award rewards h = refl
