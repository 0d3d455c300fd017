-- ===== src/Cogs/Moderation/Tests.antt =====
-- The theorems on moderation at concrete tables.
use benny_rs.Base.{◌≡◌, refl, true, false, none, some, [], ◌∷◌, arith}
use benny_rs.Base.Int.{pos}
use benny_rs.Base.Equality.{nat_eq, pair_eq}
use benny_rs.Base.Dict.{lookup}
use benny_rs.Base.Tables.{delete_where, update_where}
use benny_rs.Base.Text.{text}
use benny_rs.Cogs.Moderation.{can_act_on}
use benny_rs.Cogs.Moderation.Store.{Key, Timed, Config, Store, create_case}
use benny_rs.Cogs.Moderation.Store.Numbers.{AddsCase, new_case, create_case-AddsCase}
use benny_rs.Cogs.Moderation.Calls.{World, Database, self_guard, guard}
use benny_rs.Cogs.Moderation.Escalation.{deactivate, warn}
use benny_rs.Cogs.Moderation.Escalation.Reset.{Settled, warn-Settled}
use benny_rs.Cogs.Moderation.Commands.{
  kick, ban, unban, tempban, softban, timeout, untimeout, unmute,
}
use benny_rs.Cogs.Moderation.Commands.Guards.{Untouched, protected-Untouched}
use benny_rs.Cogs.Moderation.Commands.Failures.{down_unchanged}
use benny_rs.Cogs.Moderation.Commands.Lifting.{without_ban}
use benny_rs.Cogs.Moderation.Commands.Unbanned.{asks_unban, unban-sweep}
use benny_rs.Cogs.Moderation.Policy.{GuildAnswers, mute}
use benny_rs.Cogs.Moderation.Sweep.{RowAnswers, sweep}
use benny_rs.Cogs.Moderation.Sweep.Reference.{due, of_due, sweep-reference}
use benny_rs.Cogs.Moderation.Sweep.Safety.{sweep_ban_kept}
use benny_rs.Cogs.Moderation.Sweep.Liveness.{sweeps, sweeps_due}
use benny_rs.Cogs.Moderation.Sweep.Lost.{asks_unmute, sweep_unread}
use benny_rs.Cogs.Moderation.Sweep.{request}
use benny_rs.Cogs.Moderation.Invariant.{IsValid}
use benny_rs.Cogs.Moderation.Steps.{
  System, perform, Command, Reach, here, next, command, Reach-IsValid,
}

-- ---- a server with a temporary ban and a mute ----

abbrev banned : Timed
banned = record { user_id = 7; action = text "ban"; expires_at = pos 50 }

abbrev muted : Timed
muted = record { user_id = 8; action = text "mute"; expires_at = pos 90 }

abbrev policy : Config
policy = record {
  mute_role_id = some 5;
  warn_threshold = pos 1;
  warn_action = text "kick";
  warn_timeout_secs = pos 3600;
}

abbrev server : Store
server = record {
  cases =
      ((1, 1), new_case 10 (text "tempban") 7 3 (text "raid") (some (pos 50)))
      ∷ ((1, 2), new_case 20 (text "mute") 8 3 (text "spam") (some (pos 90)))
      ∷ [];
  timed = ((1, 1), banned) ∷ ((1, 2), muted) ∷ [];
  configs = (1, policy) ∷ [];
}

abbrev empty : Store
empty = record { cases = []; timed = []; configs = [] }

abbrev up : World
up = record {
  now = 10;
  bot_id = 99;
  guild = none;
  member = λ u. none;
  accepts = λ c. true;
  valid_timestamp = λ t. true;
}

abbrev down : World
down = record up { accepts = λ c. false }

abbrev reached : Database
reached = record {
  config_ok = true;
  count_ok = true;
  case_ok = true;
  escalation_case_ok = true;
  scan_ok = true;
  timed_ok = true;
  update_ok = true;
  delete_ok = true;
}

abbrev roles_of : GuildAnswers
roles_of = record { roles = none; created_role = 6; channels = some (4 ∷ []) }

abbrev lifts : Key → RowAnswers
lifts key = record { config_ok = true; lift = λ c. none; delete_ok = true; update_ok = true }

abbrev unanswered : Key → RowAnswers
unanswered key = record {
  config_ok = true;
  lift = λ c. some request;
  delete_ok = true;
  update_ok = true;
}

-- ---- the sweeper ----

sweep-reference_example :
    (lookup (1, 1) (sweep true 60 lifts server).store.timed
      ≡ lookup (1, 1) (delete_where (due 60 lifts server) server.timed))
    × (lookup (1, 1) (sweep true 60 lifts server).store.cases
        ≡ lookup (1, 1) (update_where (of_due 60 lifts server) deactivate server.cases))
sweep-reference_example =
    sweep-reference 60 lifts server (1, 1) (refl, (refl, tt)) (λ key. (refl, refl, refl))

sweeps_due_example :
    lookup (1, 1) (sweeps ((true, 55, unanswered) ∷ (true, 60, lifts) ∷ []) server).timed ≡ none
sweeps_due_example =
    sweeps_due ((true, 55, unanswered) ∷ []) [] 60 lifts server (1, 1) banned (refl, (refl, tt))
      (λ key. (refl, refl, refl)) refl refl refl

sweep_ban_kept_example :
    (lookup (1, 1) (sweep true 60 unanswered server).store.timed ≡ some banned)
    × (lookup (1, 1) (sweep true 60 unanswered server).store.cases ≡ lookup (1, 1) server.cases)
sweep_ban_kept_example =
    sweep_ban_kept true 60 unanswered server (1, 1) banned (refl, (refl, tt)) refl refl refl

abbrev unread : RowAnswers
unread = record { config_ok = false; lift = λ c. none; delete_ok = true; update_ok = true }

sweep_unread_example :
    (asks_unmute (sweep true 100 (λ key. unread) server).calls ≡ false)
    × (lookup (1, 2) (sweep true 100 (λ key. unread) server).store.timed ≡ none)
sweep_unread_example =
    sweep_unread 100 (λ key. unread) server (1, 2) muted (λ key. (refl, refl)) refl refl refl

-- ---- the commands ----

create_case-AddsCase_example :
    AddsCase
      (new_case 30 (text "kick") 8 3 (text "spam") none)
      1
      server
      (create_case true 30 server 1 (text "kick") 8 3 (text "spam") none)
create_case-AddsCase_example = create_case-AddsCase 30 server 1 (text "kick") 8 3 (text "spam") none

warn-Settled_example : Settled 1 8 policy (warn up reached server 1 3 8 (text "rude"))
unfolding guard self_guard can_act_on
warn-Settled_example =
    warn-Settled up reached server 1 3 8 (text "rude") policy refl refl refl refl refl refl

protected-Untouched_example :
    Untouched server (warn up reached server 1 3 99 [])
    × Untouched server (kick up reached server 1 3 99 [])
    × Untouched server (ban up reached server 1 3 99 2 [])
    × Untouched server (softban up reached server 1 3 99 [])
    × Untouched server (tempban up reached server 1 3 99 (some 60) [])
    × Untouched server (timeout up reached server 1 3 99 (some 60) [])
    × Untouched server (mute up reached roles_of server 1 3 99 (some 60) [])
protected-Untouched_example =
    protected-Untouched up reached roles_of server 1 3 99 2 (some 60) [] refl

down_unchanged_example :
    ((kick down reached server 1 3 8 []).store ≡ server)
    × ((ban down reached server 1 3 8 2 []).store ≡ server)
    × ((unban down reached server 1 3 8 []).store ≡ server)
    × ((softban down reached server 1 3 8 []).store ≡ server)
    × ((tempban down reached server 1 3 8 (some 60) []).store ≡ server)
    × ((timeout down reached server 1 3 8 (some 60) []).store ≡ server)
    × ((untimeout down reached server 1 3 8).store ≡ server)
    × ((mute down reached roles_of server 1 3 8 (some 60) []).store ≡ server)
    × ((unmute down reached server 1 3 8).store ≡ server)
down_unchanged_example =
    down_unchanged down reached server (λ c. refl) roles_of 1 3 8 2 (some 60) []

unban-sweep_example :
    let s' = (unban up reached server 1 3 7 []).store in
    ((j : Key) → lookup j s'.timed ≡ without_ban 1 7 j (lookup j server.timed))
    × (asks_unban 1 7 (sweep true 60 lifts s').calls ≡ false)
unban-sweep_example =
    unban-sweep up reached server 1 3 7 [] true 60 lifts refl refl (refl, (refl, tt))

-- ---- the commands and the sweeper ----

abbrev idle : System
idle = record { store = empty; pending = []; cache = [] }

abbrev banning : Command
banning = Command.tempban 1 3 7 (some 60) (text "raid")

abbrev after_ban : System
after_ban = record idle { store = perform up reached roles_of empty banning }

abbrev lifting : Command
lifting = Command.unban 1 3 7 []

abbrev after_unban : System
after_unban = record idle { store = perform up reached roles_of after_ban.store lifting }

Reach-unban : Reach idle after_unban
Reach-unban =
    next (next here (command up reached roles_of banning (refl, refl, refl)))
      (command up reached roles_of lifting (refl, refl, refl))

Reach-IsValid_example : IsValid after_unban.store
Reach-IsValid_example = Reach-IsValid Reach-unban (tt, tt, tt, λ j row h. ground arith)
