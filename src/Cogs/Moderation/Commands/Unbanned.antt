-- ===== src/Cogs/Moderation/Commands/Unbanned.antt =====
-- src/cogs/moderation.rs, `unban`, and the sweeper behind it.
use benny_rs.Base.{
  ℕ, ◌≡◌, refl, ap, ◌∙◌, Bool, true, false, not, ◌&&◌, ◌||◌, Option, none, some, List, [], ◌∷◌,
  ◌++◌, ◌==◌, arith, Bool-cases, inl, inr,
}
use benny_rs.Base.Equality.{nat_eq, pair_eq}
use benny_rs.Base.Dict.{lookup, Distinct}
use benny_rs.Base.Tables.{delete_where, select_where, lookup-delete_where}
use benny_rs.Base.Text.{Text, text, is}
use benny_rs.Cogs.Moderation.Store.{Key, Timed, Store}
use benny_rs.Cogs.Moderation.Calls.{
  Call, kick_with_reason, ban_with_reason, unban as unban_call, disable_communication,
  enable_communication, add_member_role, remove_member_role, create_role, create_permission, World,
  Database,
}
use benny_rs.Cogs.Moderation.Sweep.{
  RowAnswers, RoleCache, Turn, made, lift_call, after_role, sweep_row, sweep_rows, sweep, start,
  expired,
}
use benny_rs.Cogs.Moderation.Sweep.Rows.{role_step}
use benny_rs.Cogs.Moderation.Commands.{is_timed, unban}
use benny_rs.Cogs.Moderation.Commands.Lifting.{without_ban, kept-without_ban, unban-timed}

abbrev pub is_unban : (guild_id user_id : ℕ) → Call → Bool
is_unban g user (unban_call h v) = h == g && v == user
is_unban g user (kick_with_reason h v reason) = false
is_unban g user (ban_with_reason h v days reason) = false
is_unban g user (disable_communication h v until) = false
is_unban g user (enable_communication h v) = false
is_unban g user (add_member_role h v role) = false
is_unban g user (remove_member_role h v role) = false
is_unban g user (create_role h) = false
is_unban g user (create_permission channel role) = false

abbrev pub asks_unban : (guild_id user_id : ℕ) → List Call → Bool
asks_unban g user [] = false
asks_unban g user (c ∷ calls) = is_unban g user c || asks_unban g user calls

asks_unban-append :
    (g user : ℕ) (a b : List Call)
    → asks_unban g user (a ++ b) ≡ (asks_unban g user a || asks_unban g user b)
asks_unban-append g user [] b = refl
asks_unban-append g user (c ∷ a) b = ground (arith, asks_unban-append g user a b)

asks_unban-lift_call :
    (g user : ℕ) (role : Option ℕ) (key : Key) (row : Timed)
    → is_timed g user (text "ban") key row ≡ false
    → asks_unban g user (made (lift_call role key row)) ≡ false
asks_unban-lift_call g user none key row h = elim (Bool-cases (is row.action (text "mute"))) [
  | inl m ↦ rw (lift_call, m) refl
  | inr m ↦ elim (Bool-cases (is row.action (text "ban"))) [
    | inl b ↦ rw (lift_call, m, b) (ground arith)
    | inr b ↦ rw (lift_call, m, b) refl
  ]
]
asks_unban-lift_call g user (some role) key row h =
    elim (Bool-cases (is row.action (text "mute"))) [
      | inl m ↦ rw (lift_call, m) refl
      | inr m ↦ elim (Bool-cases (is row.action (text "ban"))) [
        | inl b ↦ rw (lift_call, m, b) (ground arith)
        | inr b ↦ rw (lift_call, m, b) refl
      ]
    ]

-- None of the rows is one of the member's bans.
abbrev spared : (guild_id user_id : ℕ) → List (Key × Timed) → Bool
spared g user [] = true
spared g user ((key, row) ∷ rows) =
    let rest = spared g user rows in not (is_timed g user (text "ban") key row) && rest

spared-delete_where :
    (g user : ℕ) (rows : List (Key × Timed))
    → spared g user (delete_where (is_timed g user (text "ban")) rows) ≡ true
spared-delete_where g user [] = refl
spared-delete_where g user ((key, row) ∷ rows) =
    let rest = spared-delete_where g user rows in
    elim (Bool-cases (is_timed g user (text "ban") key row)) [
      | inl e ↦ rw e rest
      | inr e ↦ rw (e, e, rest) refl
    ]

spared-select_where :
    (g user : ℕ) (p : Key → Timed → Bool) (rows : List (Key × Timed))
    → spared g user rows ≡ true
    → spared g user (select_where p rows) ≡ true
spared-select_where g user p [] h = refl
spared-select_where g user p ((key, row) ∷ rows) h =
    let rest = spared-select_where g user p rows (ground arith) in
    elim (Bool-cases (p key row)) [ inl e ↦ rw (e, rest) (ground arith) | inr e ↦ rw e rest ]

after_role-asks_unban :
    (g user : ℕ) (a : RowAnswers) (t : Turn) (key : Key) (row : Timed) (p : Option ℕ × RoleCache)
    → is_timed g user (text "ban") key row ≡ false
    → asks_unban g user (after_role a t key row p).calls ≡ asks_unban g user t.calls
after_role-asks_unban g user a t key row (role, cache) h =
    asks_unban-append g user t.calls (made (lift_call role key row))
    ∙ rw (asks_unban-lift_call g user role key row h) (ground arith)

sweep_rows-asks_unban :
    (g user : ℕ) (answers : Key → RowAnswers) (t : Turn) (rows : List (Key × Timed))
    → spared g user rows ≡ true
    → asks_unban g user (sweep_rows answers t rows).calls ≡ asks_unban g user t.calls
unfolding sweep_rows sweep_row
sweep_rows-asks_unban g user answers t [] h = refl
sweep_rows-asks_unban g user answers t ((key, row) ∷ rows) h =
    sweep_rows-asks_unban g user answers (sweep_row (answers key) t key row) rows (ground arith)
    ∙ after_role-asks_unban g user (answers key) t key row (role_step (answers key) t key row)
        (ground arith)

sweep-asks_unban :
    (ok : Bool) (now : ℕ) (answers : Key → RowAnswers) (g user : ℕ) (s : Store)
    → spared g user s.timed ≡ true
    → asks_unban g user (sweep ok now answers s).calls ≡ false
unfolding sweep
sweep-asks_unban true now answers g user s h =
    sweep_rows-asks_unban g user answers (start s) (select_where (expired now) s.timed)
      (spared-select_where g user (expired now) s.timed h)
sweep-asks_unban false now answers g user s h = refl

-- After an unban that Discord accepts, where the deletion reaches the database and the timed rows
-- have distinct keys, the timed rows are those before but for the member's bans in the guild, and
-- a turn of the sweeper behind it, whatever the time and the answers, asks Discord for no unban of
-- the member there.
pub unban-sweep :
    (w : World) (db : Database) (s : Store) (g author target : ℕ) (given : Text) (ok : Bool)
    (now : ℕ) (answers : Key → RowAnswers)
    → w.accepts (unban_call g target) ≡ true
    → db.delete_ok ≡ true
    → Distinct s.timed
    → let s' = (unban w db s g author target given).store in
      ((j : Key) → lookup j s'.timed ≡ without_ban g target j (lookup j s.timed))
      × (asks_unban g target (sweep ok now answers s').calls ≡ false)
unban-sweep w db s g author target given ok now answers accepted reached d =
    let rows = unban-timed w db s g author target given accepted reached in
    (
      λ j.
          ap (lookup j) rows
          ∙ lookup-delete_where (is_timed g target (text "ban")) j s.timed d
          ∙ kept-without_ban g target j (lookup j s.timed),
      sweep-asks_unban ok now answers g target (unban w db s g author target given).store
          (ap (spared g target) rows ∙ spared-delete_where g target s.timed),
    )
