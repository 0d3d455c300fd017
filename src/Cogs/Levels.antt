-- ===== src/Cogs/Levels.antt =====
-- src/cogs/levels.rs: the level curve and the levelling of one message. An `i64` total may be
-- negative, so it is a ℤ; a level only counts up from 0.
pub mod Curve
pub mod Rewards
use benny_rs.Base.{
  ℕ, zero, suc, ◌+◌, ◌-◌, ◌*◌, Bool, ◌&&◌, Option, none, some, List, [], ◌∷◌, ◌++◌, map, ltb, leb,
  if◌then◌else◌,
}
use benny_rs.Base.Int.{ℤ, pos, pos_part, ◌+ℤ◌, ◌-ℤ◌, ltb_ℤ, wrap_i64}

-- XP required to go from `level` to `level + 1`.
unfoldable pub xp_for_level : ℕ → ℕ
xp_for_level level = 5 * level * level + 50 * level + 100

-- The loop. A level takes at least one XP, so the total is fuel enough.
unfoldable pub level_loop : ℕ → ℕ → ℤ → ℕ × ℤ × ℕ
unfolding xp_for_level ◌-ℤ◌
level_loop zero level remaining = (level, remaining, xp_for_level level)
level_loop (suc fuel) level remaining =
    let needed = xp_for_level level in
    let further = level_loop fuel (level + 1) (remaining -ℤ pos needed) in
    if ltb_ℤ remaining (pos needed) then (level, remaining, needed) else further

-- `(level, xp_into_level, xp_needed_for_next)`
unfoldable pub level_from_xp : ℤ → ℕ × ℤ × ℕ
unfolding level_loop
level_from_xp total = level_loop (pos_part total) 0 total

-- The roles that a rise from `old_level` to `new_level` earns, in the order of the guild's list.
unfoldable pub earned : ℕ → ℕ → List (ℕ × ℕ) → List ℕ
earned old_level new_level [] = []
earned old_level new_level ((level, role) ∷ rewards) =
    let rest = earned old_level new_level rewards in
    if ltb old_level level && leb level new_level then role ∷ rest else rest

-- What is asked of Discord.
pub data Action : Type 0 where
  announce_level : (channel : Option ℕ) (level : ℕ) → Action
  add_role : (role_id : ℕ) → Action

-- What the handler reads of `levels_config` from the award on; no channel is that of the message.
pub record Config : Type 0 where
  pub announce : Bool
  pub levelup_channel_id : Option ℕ

abbrev pub announced : Config → (new_level : ℕ) → List Action
announced cfg new_level =
    if cfg.announce then announce_level cfg.levelup_channel_id new_level ∷ [] else []

-- From the upsert on: what a rise of the level does.
abbrev pub level_up : Config → (old_level new_level : ℕ) → List (ℕ × ℕ) → List Action
level_up cfg old_level new_level rewards =
    if leb new_level old_level
    then []
    else announced cfg new_level ++ map add_role (earned old_level new_level rewards)

-- What a message that earns `award` does, once its author's XP is loaded: the XP that is stored, if
-- the upsert reaches the database, and what is asked of Discord. The sum wraps as an `i64`.
unfoldable pub award_xp :
    (write_ok : Bool) → Config → (old_xp award : ℤ) → List (ℕ × ℕ) → Option ℤ × List Action
unfolding level_from_xp earned ◌+ℤ◌
award_xp write_ok cfg old_xp award rewards =
    let new_xp = wrap_i64 (old_xp +ℤ award) in
    if write_ok
    then (some new_xp, level_up cfg (level_from_xp old_xp).0 (level_from_xp new_xp).0 rewards)
    else (none, [])
