-- ===== src/Cogs/Moderation.antt =====
-- src/cogs/moderation.rs, `can_act_on`: who may act on whom. What the cache and Discord answer is
-- given: the guild, if it is known, and the roles of a user, if the member can be fetched.
pub mod Hierarchy
pub mod Store
pub mod Calls
pub mod Escalation
pub mod Commands
pub mod Policy
pub mod Sweep
pub mod Invariant
pub mod Steps
pub mod Channels
mod Tests
use benny_rs.Base.{ℕ, Bool, true, false, Option, none, some, List, ◌==◌, if◌then◌else◌}
use benny_rs.Utils.Roles.{Role, rank_le, top_role}

pub record Guild : Type 0 where
  pub roles : List (ℕ × Role)
  pub owner_id : ℕ

-- The two messages of a refusal.
pub data Refusal : Type 0 where
  is_owner above_or_equal : Refusal

-- `tt >= it`, where both are known.
abbrev pub compare_tops : Option Role → Option Role → Option Refusal
compare_tops (some invoker_top) (some target_top) =
    if rank_le invoker_top target_top then some above_or_equal else none
compare_tops none target_top = none
compare_tops (some invoker_top) none = none

abbrev pub compare_members :
    List (ℕ × Role) → ℕ → Option (List ℕ) → Option (List ℕ) → Option Refusal
compare_members roles everyone none invoker = none
compare_members roles everyone (some target) none = none
compare_members roles everyone (some target) (some invoker) =
    compare_tops (top_role invoker roles everyone) (top_role target roles everyone)

-- `none` lets the invoker act. The guild's id is the id of the role of everyone.
unfoldable pub can_act_on :
    Option Guild
    → (member : ℕ → Option (List ℕ)) → (guild_id invoker_id target_id : ℕ) → Option Refusal
unfolding top_role rank_le
can_act_on none member guild_id invoker_id target_id = none
can_act_on (some g) member guild_id invoker_id target_id =
    if target_id == g.owner_id
    then some is_owner
    else if invoker_id == g.owner_id
    then none
    else compare_members g.roles guild_id (member target_id) (member invoker_id)
