-- ===== src/Cogs/Moderation/Steps.antt =====
-- src/cogs/moderation.rs: the commands and the sweeper side by side. The sweeper waits on Discord and
-- on the database between two rows, so any command may come between them; the rows that a turn has
-- scanned are kept, whatever has become of the table.
use benny_rs.Base.{ℕ, ◌≡◌, true, Option, List, [], ◌∷◌}
use benny_rs.Base.Int.{ℤ}
use benny_rs.Base.Text.{Text}
use benny_rs.Base.Tables.{select_where}
use benny_rs.Cogs.Moderation.Store.{Key, Timed, Store}
use benny_rs.Cogs.Moderation.Calls.{World, Database}
use benny_rs.Cogs.Moderation.Escalation.{warn as warn_member}
use benny_rs.Cogs.Moderation.Commands.{
  kick as kick_member, ban as ban_member, unban as unban_member, tempban as tempban_member,
  softban as softban_member, timeout as timeout_member, untimeout as untimeout_member,
  unmute as unmute_member,
}
use benny_rs.Cogs.Moderation.Policy.{
  GuildAnswers, mute as mute_member, reason as set_reason, delcase as delete_case, WarnAction,
  warnings_set as set_warnings, warnings_off as stop_warnings,
}
use benny_rs.Cogs.Moderation.Sweep.{RowAnswers, RoleCache, Turn, sweep_row, expired}
use benny_rs.Cogs.Moderation.Sweep.Rows.{role_step}
use benny_rs.Cogs.Moderation.Invariant.{IsValid}
use benny_rs.Cogs.Moderation.Invariant.Punish.{
  kick-IsValid, ban-IsValid, softban-IsValid, unban-IsValid, untimeout-IsValid, unmute-IsValid,
  tempban-IsValid, timeout-IsValid,
}
use benny_rs.Cogs.Moderation.Invariant.Warn.{warn-IsValid}
use benny_rs.Cogs.Moderation.Invariant.Policy.{
  mute-IsValid, reason-IsValid, delcase-IsValid, warnings_set-IsValid, warnings_off-IsValid,
  after_role-IsValid,
}

-- The commands that write to the tables, and their arguments. A duration is what the parser gives.
pub data Command : Type 0 where
  warn kick softban unban : (guild author target : ℕ) (reason : Text) → Command
  ban : (guild author target delete_days : ℕ) (reason : Text) → Command
  mute tempban timeout : (guild author target : ℕ) (parsed : Option ℕ) (reason : Text) → Command
  unmute untimeout : (guild author target : ℕ) → Command
  reason : (guild number : ℕ) (given : Text) → Command
  delcase : (guild number : ℕ) → Command
  warnings_set : (guild : ℕ) (threshold : ℤ) → WarnAction → (duration : Option (Option ℕ)) → Command
  warnings_off : (guild : ℕ) → Command

-- The tables after a command.
abbrev pub perform : World → Database → GuildAnswers → Store → Command → Store
perform w db a s (warn g author target given) = (warn_member w db s g author target given).store
perform w db a s (kick g author target given) = (kick_member w db s g author target given).store
perform w db a s (softban g author target given) =
    (softban_member w db s g author target given).store
perform w db a s (unban g author target given) = (unban_member w db s g author target given).store
perform w db a s (ban g author target days given) =
    (ban_member w db s g author target days given).store
perform w db a s (mute g author target parsed given) =
    (mute_member w db a s g author target parsed given).store
perform w db a s (tempban g author target parsed given) =
    (tempban_member w db s g author target parsed given).store
perform w db a s (timeout g author target parsed given) =
    (timeout_member w db s g author target parsed given).store
perform w db a s (unmute g author target) = (unmute_member w db s g author target).store
perform w db a s (untimeout g author target) = (untimeout_member w db s g author target).store
perform w db a s (reason g n given) = (set_reason db s g n given).store
perform w db a s (delcase g n) = (delete_case db s g n).store
perform w db a s (warnings_set g threshold action duration) =
    (set_warnings db s g threshold action duration).0
perform w db a s (warnings_off g) = stop_warnings db s g

-- The tables, and a turn of the sweeper under way: the rows it has yet to handle, and its cache.
pub record System : Type 0 where
  pub store : Store
  pub pending : List (Key × Timed)
  pub cache : RoleCache

-- Cases are stored, and the row of a deleted case goes with it.
abbrev pub Writes : Database → Type 0
Writes db = (db.case_ok ≡ true) × (db.escalation_case_ok ≡ true) × (db.timed_ok ≡ true)

abbrev pub handle : RowAnswers → Store → RoleCache → Key → Timed → Turn
handle a s cache key row =
    let before : Turn = record { calls = []; store = s; cache = cache } in
    sweep_row a before key row

pub data Step (s : System) : System → Type 0 where
  command :
      (w : World) (db : Database) (a : GuildAnswers) (c : Command)
      → Writes db
      → Step s (record s { store = perform w db a s.store c })
  scan :
      (now : ℕ)
      → s.pending ≡ []
      → Step s (record s { pending = select_where (expired now) s.store.timed; cache = [] })
  row :
      (a : RowAnswers) (key : Key) (r : Timed) (rows : List (Key × Timed))
      → s.pending ≡ (key, r) ∷ rows
      → a.delete_ok ≡ true
      → Step s (record {
        store = (handle a s.store s.cache key r).store;
        pending = rows;
        cache = (handle a s.store s.cache key r).cache;
      })

pub data Reach (s : System) : System → Type 0 where
  here : Reach s s
  next : {t u : System} → Reach s t → Step t u → Reach s u

perform-IsValid :
    (w : World) (db : Database) (a : GuildAnswers) (s : Store) (c : Command)
    → Writes db
    → IsValid s
    → IsValid (perform w db a s c)
perform-IsValid w db a s (warn g author target given) (ok, ok', ok'') v =
    warn-IsValid w db ok' s g author target given ok v
perform-IsValid w db a s (kick g author target given) (ok, ok', ok'') v =
    kick-IsValid w db s g author target ok v given
perform-IsValid w db a s (softban g author target given) (ok, ok', ok'') v =
    softban-IsValid w db s g author target ok v given
perform-IsValid w db a s (unban g author target given) (ok, ok', ok'') v =
    unban-IsValid w db s g author target ok v given
perform-IsValid w db a s (ban g author target days given) (ok, ok', ok'') v =
    ban-IsValid w db s g author target ok v days given
perform-IsValid w db a s (mute g author target parsed given) (ok, ok', ok'') v =
    mute-IsValid w db a s g author target parsed given ok v
perform-IsValid w db a s (tempban g author target parsed given) (ok, ok', ok'') v =
    tempban-IsValid w db s g author target ok v parsed given
perform-IsValid w db a s (timeout g author target parsed given) (ok, ok', ok'') v =
    timeout-IsValid w db s g author target ok v parsed given
perform-IsValid w db a s (unmute g author target) (ok, ok', ok'') v =
    unmute-IsValid w db s g author target ok v
perform-IsValid w db a s (untimeout g author target) (ok, ok', ok'') v =
    untimeout-IsValid w db s g author target ok v
perform-IsValid w db a s (reason g n given) ok v = reason-IsValid db s g n given v
perform-IsValid w db a s (delcase g n) (ok, ok', ok'') v = delcase-IsValid db s g n ok'' v
perform-IsValid w db a s (warnings_set g threshold action duration) ok v =
    warnings_set-IsValid db s g threshold action duration v
perform-IsValid w db a s (warnings_off g) ok v = warnings_off-IsValid db s g v

Step-IsValid : {s t : System} → Step s t → IsValid s.store → IsValid t.store
unfolding sweep_row
Step-IsValid {s} (command w db a c ok) v = perform-IsValid w db a s.store c ok v
Step-IsValid (scan now idle) v = v
Step-IsValid {s} (row a key r rows e ok) v =
    let before : Turn = record { calls = []; store = s.store; cache = s.cache } in
    after_role-IsValid a before key r (role_step a before key r) ok v

-- However commands and rows of the sweeper interleave, the database taking the writes of cases and
-- the deletions of rows, tables with one row for each key, in which each timed row has an active
-- case of the same number, member and end that is no mere warning, stay such tables.
pub Reach-IsValid : {s t : System} → Reach s t → IsValid s.store → IsValid t.store
Reach-IsValid here v = v
Reach-IsValid (next r step) v = Step-IsValid step (Reach-IsValid r v)
