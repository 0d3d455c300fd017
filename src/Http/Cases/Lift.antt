-- ===== src/Http/Cases/Lift.antt =====
-- src/http/v1/cases.rs, `lift_mute`, with the sweeper of src/cogs/moderation.rs.
use benny_rs.Base.{ℕ, ◌≤◌, ◌≡◌, refl, ap, ◌∙◌, true, false, not, ◌&&◌, none, some, arith}
use benny_rs.Base.Int.{pos}
use benny_rs.Base.Equality.{nat_eq, pair_eq}
use benny_rs.Base.Dict.{lookup, Distinct}
use benny_rs.Base.Tables.{update_where, updated, lookup-update_where, update_where-Distinct}
use benny_rs.Base.Text.{text, is}
use benny_rs.Cogs.Moderation.Store.{Key, Timed, Store}
use benny_rs.Cogs.Moderation.Sweep.{RowAnswers, configured_role, sweep, expired}
use benny_rs.Cogs.Moderation.Sweep.Rows.{Reached, cleared}
use benny_rs.Cogs.Moderation.Sweep.Reference.{due}
use benny_rs.Cogs.Moderation.Sweep.Liveness.{sweep-due}
use benny_rs.Http.Cases.{accepted, is_row, lift_row, lift_mute}

lift_mute_found :
    (now : ℕ) (s : Store) (gid n : ℕ) (row : Timed)
    → lookup (gid, n) s.timed ≡ some row
    → lift_mute true true now s gid n ≡ lift_row true now s gid n (some row)
unfolding lift_mute
lift_mute_found now s gid n row l = ap (lift_row true now s gid n) l

-- The tables after a lift.
abbrev pub ended : (now : ℕ) → Store → (gid number : ℕ) → Store
ended now s gid number = record s {
  timed = update_where (is_row gid number) (λ r. record r { expires_at = pos now }) s.timed;
}

lift_mute-ended :
    (now : ℕ) (s : Store) (gid n : ℕ) (row : Timed)
    → lookup (gid, n) s.timed ≡ some row
    → (not (is row.action (text "mute")) && not (is row.action (text "ban"))) ≡ false
    → lift_mute true true now s gid n ≡ (ended now s gid n, accepted)
lift_mute-ended now s gid n row l liftable =
    lift_mute_found now s gid n row l ∙ rw (lift_row, liftable) refl

-- A mute or temporary ban that is lifted by the API is gone after a later turn of the sweeper in
-- which every statement reaches the database and what lifts it succeeds or fails for good, if the
-- timed rows have distinct keys.
pub lift_mute-sweep :
    (now now' : ℕ) (answers : Key → RowAnswers) (s : Store) (gid n : ℕ) (row : Timed)
    → Distinct s.timed
    → lookup (gid, n) s.timed ≡ some row
    → (not (is row.action (text "mute")) && not (is row.action (text "ban"))) ≡ false
    → now ≤ now'
    → Reached answers
    → cleared answers (configured_role s) (gid, n) row ≡ true
    → lookup (gid, n) (sweep true now' answers (lift_mute true true now s gid n).0).store.timed
      ≡ none
lift_mute-sweep now now' answers s gid n row d l liftable later reached lifted =
    let key : Key = (gid, n) in
    let q = is_row gid n in
    let row' : Timed = record row { expires_at = pos now } in
    let s' = ended now s gid n in
    let mine : q key row ≡ true = ground arith in
    let found : lookup key s'.timed ≡ some row' =
      lookup-update_where q (λ r. record r { expires_at = pos now }) key s.timed
      ∙ ap (updated q (λ r. record r { expires_at = pos now }) key) l
      ∙ rw (updated, mine) refl in
    let over : expired now' key row' ≡ true = ground arith in
    rw (lift_mute-ended now s gid n row l liftable) (
      sweep-due now' answers s' key row'
        (update_where-Distinct q (λ r. record r { expires_at = pos now }) s.timed d) reached found
        (rw (due, over) lifted))
