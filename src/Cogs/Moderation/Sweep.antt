-- ===== src/Cogs/Moderation/Sweep.antt =====
-- src/cogs/moderation.rs, `spawn_expiry_task` and `should_retry_lift`: one turn of the sweeper's loop.
pub mod Rows
pub mod Reference
pub mod Safety
pub mod Lost
pub mod Liveness
use benny_rs.Base.{
  ℕ, Bool, true, false, not, ◌||◌, Option, none, some, List, [], ◌∷◌, ◌++◌, ◌==◌, leb,
  if◌then◌else◌,
}
use benny_rs.Base.Int.{ℤ, pos, ltb_ℤ}
use benny_rs.Base.Equality.{nat_eq, pair_eq}
use benny_rs.Base.Dict.{lookup, insert, remove}
use benny_rs.Base.Tables.{select_where, update_where}
use benny_rs.Base.Text.{Text, text, is}
use benny_rs.Cogs.Moderation.Store.{Key, Case, Timed, Config, Store}
use benny_rs.Cogs.Moderation.Calls.{Call, unban, remove_member_role}
use benny_rs.Cogs.Moderation.Escalation.{deactivate}
use benny_rs.Cogs.Moderation.Policy.{is_case}

-- The errors of `serenity` that are told apart.
pub data LiftError : Type 0 where
  unsuccessful : (status : ℕ) → LiftError
  request other : LiftError

abbrev pub should_retry_lift : LiftError → Bool
should_retry_lift (unsuccessful status) = status == 429 || leb 500 status
should_retry_lift request = true
should_retry_lift other = false

abbrev pub retried : Option LiftError → Bool
retried none = false
retried (some e) = should_retry_lift e

-- The answers while one row is handled: whether the statements reach the database, and the error of
-- a call, if it fails.
pub record RowAnswers : Type 0 where
  pub config_ok : Bool
  pub lift : Call → Option LiftError
  pub delete_ok : Bool
  pub update_ok : Bool

abbrev pub RoleCache : Type 0
RoleCache = List (ℕ × Option ℕ)

-- A turn: what it asked of Discord, the tables, and the cache of the guilds' Muted roles.
pub record Turn : Type 0 where
  pub calls : List Call
  pub store : Store
  pub cache : RoleCache

abbrev pub role_on_record : Option Config → Option ℕ
role_on_record none = none
role_on_record (some cfg) = cfg.mute_role_id

abbrev pub configured_role : Store → (guild_id : ℕ) → Option ℕ
configured_role s guild_id = role_on_record (lookup guild_id s.configs)

-- From the cache's answer on: a guild that is not cached is read, and cached.
abbrev pub after_cache :
    (ok : Bool) → Store → RoleCache → (guild_id : ℕ) → Option (Option ℕ) → Option ℕ × RoleCache
after_cache ok s cache guild_id (some role) = (role, cache)
after_cache ok s cache guild_id none =
    let role = if ok then configured_role s guild_id else none in (role, insert guild_id role cache)

abbrev pub mute_role : (ok : Bool) → Store → RoleCache → (guild_id : ℕ) → Option ℕ × RoleCache
mute_role ok s cache guild_id = after_cache ok s cache guild_id (lookup guild_id cache)

abbrev pub lift_mute : (guild_id user_id : ℕ) → (role : Option ℕ) → Option Call
lift_mute guild_id user_id none = none
lift_mute guild_id user_id (some role) = some (remove_member_role guild_id user_id role)

-- The call that lifts a row's infraction, if it takes one.
abbrev pub lift_call : (role : Option ℕ) → Key → Timed → Option Call
lift_call role key row =
    if is row.action (text "mute")
    then lift_mute key.0 row.user_id role
    else if is row.action (text "ban")
    then some (unban key.0 row.user_id)
    else none

abbrev pub result_of : (Call → Option LiftError) → Option Call → Option LiftError
result_of lift none = none
result_of lift (some c) = lift c

abbrev pub made : Option Call → List Call
made none = []
made (some c) = c ∷ []

-- The row is cleared, and the case it belongs to marked inactive.
abbrev pub settle : RowAnswers → Store → Key → Store
settle a s key = record s {
  timed = if a.delete_ok then remove key s.timed else s.timed;
  cases = if a.update_ok then update_where (is_case key.0 key.1) deactivate s.cases else s.cases;
}

-- From the role on.
abbrev pub after_role : RowAnswers → Turn → Key → Timed → Option ℕ × RoleCache → Turn
after_role a t key row (role, cache) =
    let call = lift_call role key row in
    record {
      calls = t.calls ++ made call;
      store = if retried (result_of a.lift call) then t.store else settle a t.store key;
      cache = cache;
    }

-- Only a mute asks for the role.
unfoldable pub sweep_row : RowAnswers → Turn → Key → Timed → Turn
sweep_row a t key row = after_role a t key row (
    if is row.action (text "mute")
    then mute_role a.config_ok t.store t.cache key.0
    else (none, t.cache))

unfoldable pub sweep_rows : (Key → RowAnswers) → Turn → List (Key × Timed) → Turn
unfolding sweep_row
sweep_rows answers t [] = t
sweep_rows answers t ((key, row) ∷ rows) =
    sweep_rows answers (sweep_row (answers key) t key row) rows

-- `expires_at <= now`
abbrev pub expired : (now : ℕ) → Key → Timed → Bool
expired now key row = not (ltb_ℤ (pos now) row.expires_at)

abbrev pub start : Store → Turn
start s = record { calls = []; store = s; cache = [] }

-- `ok` is whether the scan reaches the database.
unfoldable pub sweep : (ok : Bool) (now : ℕ) → (Key → RowAnswers) → Store → Turn
unfolding sweep_rows
sweep ok now answers s =
    if ok then sweep_rows answers (start s) (select_where (expired now) s.timed) else start s
