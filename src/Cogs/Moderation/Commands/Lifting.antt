-- ===== src/Cogs/Moderation/Commands/Lifting.antt =====
-- src/cogs/moderation.rs, `unban`: the timed rows behind it.
use benny_rs.Base.{
  ℕ, ◌≡◌, refl, ap, ◌∙◌, Bool, true, false, ◌&&◌, Option, none, some, List, ◌==◌, if◌then◌else◌,
  arith,
}
use benny_rs.Base.Equality.{nat_eq, pair_eq}
use benny_rs.Base.Tables.{kept, delete_where}
use benny_rs.Base.Int.{ℤ}
use benny_rs.Base.Text.{Text, text, is}
use benny_rs.Cogs.Moderation.Store.{Key, Case, Timed, Store, stored, create_case}
use benny_rs.Cogs.Moderation.Calls.{
  Call, unban as unban_call, Result, World, Database, attempt, default_reason,
}
use benny_rs.Cogs.Moderation.Escalation.{seconds}
use benny_rs.Cogs.Moderation.Commands.{is_timed, clear_timed, close_case, finish_with, unban}

stored-timed :
    (s : Store) (n : ℕ) (o : Option (List (Key × Case))) → (stored s n o).1.timed ≡ s.timed
stored-timed s n none = refl
stored-timed s n (some cases) = refl

pub create_case-timed :
    (ok : Bool) (now : ℕ) (s : Store) (g : ℕ) (kind : Text) (target moderator : ℕ) (reason : Text)
    (expires : Option ℤ)
    → (create_case ok now s g kind target moderator reason expires).1.timed ≡ s.timed
unfolding create_case
create_case-timed true now s g kind target moderator reason expires = stored-timed s _ _
create_case-timed false now s g kind target moderator reason expires = refl

finish_with_timed : (p : Option ℕ × Store) → (finish_with p).store.timed ≡ p.1.timed
finish_with_timed (case, s) = refl

-- A row, unless it is one of a member's bans in a guild.
abbrev pub without_ban : (guild_id user_id : ℕ) → Key → Option Timed → Option Timed
without_ban g user j none = none
without_ban g user (h, n) (some row) =
    if (h == g && row.user_id == user) && is row.action (text "ban") then none else some row

pub kept-without_ban :
    (g user : ℕ) (j : Key) (o : Option Timed)
    → kept (is_timed g user (text "ban")) j o ≡ without_ban g user j o
kept-without_ban g user j none = refl
kept-without_ban g user (h, n) (some row) = ground arith

lifted-timed :
    (w : World) (db : Database) (s : Store) (g author target : ℕ) (kind action reason : Text)
    → db.delete_ok ≡ true
    → (close_case w db
        (clear_timed db.delete_ok s g target action)
        g
        kind
        target
        author
        reason).store.timed
      ≡ delete_where (is_timed g target action) s.timed
unfolding clear_timed
lifted-timed w db s g author target kind action reason ok =
    let cleared = clear_timed true s g target action in
    let p = create_case db.case_ok (seconds w.now) cleared g kind target author reason none in
    rw ok (
      finish_with_timed p
      ∙ create_case-timed db.case_ok (seconds w.now) cleared g kind target author reason none)

attempt_accepted :
    (w : World) (c : Call) (s : Store) (rest : Result)
    → w.accepts c ≡ true
    → (attempt w c s rest).store ≡ rest.store
attempt_accepted w c s rest h = rw (attempt, h) refl

pub unban-timed :
    (w : World) (db : Database) (s : Store) (g author target : ℕ) (given : Text)
    → w.accepts (unban_call g target) ≡ true
    → db.delete_ok ≡ true
    → (unban w db s g author target given).store.timed
      ≡ delete_where (is_timed g target (text "ban")) s.timed
unfolding unban
unban-timed w db s g author target given accepted ok =
    ap (λ t. t.timed) (attempt_accepted w (unban_call g target) s _ accepted)
    ∙ lifted-timed w db s g author target (text "unban") (text "ban") (default_reason given) ok
