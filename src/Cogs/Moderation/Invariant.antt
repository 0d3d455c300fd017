-- ===== src/Cogs/Moderation/Invariant.antt =====
-- src/cogs/moderation.rs: what the tables of moderation keep to, statement by statement.
pub mod Commands
pub mod Punish
pub mod Warn
pub mod Policy
use benny_rs.Base.{
  ℕ, ◌≡◌, refl, sym, ap, ◌∙◌, Bool, true, false, not, ◌&&◌, Option, none, some, List, [], ◌∷◌,
  if◌then◌else◌, ◌==◌, arith, Bool-cases, Option-cases, ◌⊎◌, inl, inr,
}
use benny_rs.Base.Int.{ℤ}
use benny_rs.Base.Equality.{Eq, nat_eq, pair_eq, pair_beq, pair_beq_iff}
use benny_rs.Base.Dict.{
  lookup, insert, remove, lookup-insert, lookup-remove, Distinct, insert-Distinct, remove-Distinct,
}
use benny_rs.Base.Tables.{
  update_where, delete_where, updated, kept, lookup-update_where, lookup-delete_where,
  update_where-Distinct, delete_where-Distinct,
}
use benny_rs.Base.Text.{Text, text, is}
use benny_rs.Cogs.Moderation.Store.{Key, Case, Timed, Config, Store, create_case, record_timed}
use benny_rs.Cogs.Moderation.Store.Numbers.{
  new_case, next_number, next_number_absent, create_case_ok,
}
use benny_rs.Cogs.Moderation.Store.Collision.{new_timed}
use benny_rs.Cogs.Moderation.Escalation.{is_warn, deactivate, reset_warns}
use benny_rs.Cogs.Moderation.Commands.{is_timed, clear_timed}
use benny_rs.Cogs.Moderation.Policy.{is_case, save_config}
use benny_rs.Cogs.Moderation.Sweep.{RowAnswers, settle}

-- The active case of a timed row: the same member, the same end, and no mere warning.
abbrev pub Belongs : Timed → Case → Type 0
Belongs row case =
    (case.target_id ≡ row.user_id)
    × (case.expires_at ≡ some row.expires_at)
    × (case.active ≡ true)
    × (is case.action_type (text "warn") ≡ false)

abbrev pub Linked : List (Key × Timed) → List (Key × Case) → Type 0
Linked timed cases =
    (j : Key) (row : Timed)
    → lookup j timed ≡ some row
    → (case : Case) × ((lookup j cases ≡ some case) × Belongs row case)

-- Each table holds one row for a key, and each row that the sweeper watches has its case.
abbrev pub IsValid : Store → Type 0
IsValid s = Distinct s.cases × Distinct s.timed × Distinct s.configs × Linked s.timed s.cases

-- Removing rows that are watched.
Linked-fewer :
    (timed timed' : List (Key × Timed)) (cases : List (Key × Case))
    → ((j : Key) (row : Timed) → lookup j timed' ≡ some row → lookup j timed ≡ some row)
    → Linked timed cases
    → Linked timed' cases
Linked-fewer timed timed' cases sub l j row h = l j row (sub j row h)

pub remove_timed-IsValid :
    (key : Key) (s : Store) → IsValid s → IsValid (record s { timed = remove key s.timed })
remove_timed-IsValid key s (c, t, g, l) = (
  c,
  remove-Distinct key s.timed t,
  g,
  Linked-fewer s.timed (remove key s.timed) s.cases
      (λ j row h. ground (arith, lookup-remove key j s.timed)) l,
)

pub clear_timed-IsValid :
    (ok : Bool) (s : Store) (g user : ℕ) (action : Text)
    → IsValid s
    → IsValid (clear_timed ok s g user action)
unfolding clear_timed
clear_timed-IsValid false s g user action v = v
clear_timed-IsValid true s g user action (c, t, k, l) =
    let p = is_timed g user action in
    (
      c,
      delete_where-Distinct p s.timed t,
      k,
      Linked-fewer s.timed (delete_where p s.timed) s.cases
          (λ j row h.
            let e = lookup-delete_where p j s.timed t in
            elim (Option-cases (lookup j s.timed)) [
              | inl n ↦ ground arith
              | inr (r, n) ↦ ground arith
            ])
          l,
    )

-- A case enters under a key that no watched row has.
pub add_case-IsValid :
    (s : Store) (g : ℕ) (case : Case)
    → IsValid s
    → IsValid (record s { cases = insert (g, next_number s g) case s.cases })
add_case-IsValid s g case (c, t, k, l) =
    let key : Key = (g, next_number s g) in
    (
      insert-Distinct key case s.cases c,
      t,
      k,
      λ j row h.
          let (found, (e, b)) = l j row h in
          (
            found,
            (
              ground (
                arith,
                lookup-insert key j case s.cases,
                next_number_absent s g,
                pair_beq_iff key j,
              ),
              b,
            ),
          ),
    )

pub create_case-IsValid :
    (now : ℕ) (s : Store) (g : ℕ) (kind : Text) (target moderator : ℕ) (reason : Text)
    (expires : Option ℤ)
    → IsValid s
    → IsValid (create_case true now s g kind target moderator reason expires).1
create_case-IsValid now s g kind target moderator reason expires v =
    rw (create_case_ok now s g kind target moderator reason expires)
      (add_case-IsValid s g (new_case now kind target moderator reason expires) v)

-- A row enters under the key of its case.
pub watch-IsValid :
    (s : Store) (key : Key) (row : Timed) (case : Case)
    → lookup key s.cases ≡ some case
    → Belongs row case
    → IsValid s
    → IsValid (record s { timed = insert key row s.timed })
watch-IsValid s key row case e b (c, t, k, l) = (
  c,
  insert-Distinct key row s.timed t,
  k,
  λ j r h.
      let li = lookup-insert key j row s.timed in
      elim (Bool-cases (pair_beq key j)) [
        | inl y ↦
            let same : key ≡ j = (pair_beq_iff key j).0 y in
            let r_is : row ≡ r = ground arith in (case, (rw (sym same) e, rw (sym r_is) b))
        | inr n ↦ l j r (ground arith)
      ],
)

-- Cases change in a way that keeps them the cases of their rows.
pub change_cases-IsValid :
    (p : Key → Case → Bool) (f : Case → Case) (s : Store)
    → ((k : Key) (case : Case) (row : Timed)
        → p k case ≡ true
        → Belongs row case
        → Belongs row (f case))
    → IsValid s
    → IsValid (record s { cases = update_where p f s.cases })
change_cases-IsValid p f s keeps (c, t, k, l) = (
  update_where-Distinct p f s.cases c,
  t,
  k,
  λ j row h.
      let (case, (e, b)) = l j row h in
      let li = lookup-update_where p f j s.cases ∙ ap (updated p f j) e in
      elim (Bool-cases (p j case)) [
        | inl y ↦ (f case, (rw (li, y) refl, keeps j case row y b))
        | inr n ↦ (case, (rw (li, n) refl, b))
      ],
)

-- A case that no row watches may change in any way, and go.
pub unwatched-IsValid :
    (key : Key) (s : Store)
    → IsValid s
    → IsValid (record s { cases = remove key s.cases; timed = remove key s.timed })
unwatched-IsValid key s (c, t, k, l) = (
  remove-Distinct key s.cases c,
  remove-Distinct key s.timed t,
  k,
  λ j row h.
      let lt = lookup-remove key j s.timed in
      let lc = lookup-remove key j s.cases in
      let other : pair_beq key j ≡ false = ground arith in
      let (case, (e, b)) = l j row (ground arith) in (case, (ground arith, b)),
)

pub close_case-IsValid :
    (ok : Bool) (key : Key) (s : Store)
    → IsValid s
    → IsValid (record s {
      timed = remove key s.timed;
      cases = if ok then update_where (is_case key.0 key.1) deactivate s.cases else s.cases;
    })
close_case-IsValid false key s v = remove_timed-IsValid key s v
close_case-IsValid true key s (c, t, k, l) =
    let q = is_case key.0 key.1 in
    (
      update_where-Distinct q deactivate s.cases c,
      remove-Distinct key s.timed t,
      k,
      λ j row h.
          let lt = lookup-remove key j s.timed in
          let other : pair_beq key j ≡ false = ground arith in
          let (case, (e, b)) = l j row (ground arith) in
          let unmarked : q j case ≡ false = ground (arith, pair_beq_iff key j) in
          (
            case,
            (
              lookup-update_where q deactivate j s.cases
                  ∙ ap (updated q deactivate j) e
                  ∙ rw (updated, unmarked) refl,
              b,
            ),
          ),
    )
