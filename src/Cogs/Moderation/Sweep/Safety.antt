-- ===== src/Cogs/Moderation/Sweep/Safety.antt =====
-- src/cogs/moderation.rs, `spawn_expiry_task`: a temporary ban that could not be lifted yet.
use benny_rs.Base.{
  ℕ, ◌≡◌, refl, ◌∙◌, Bool, true, false, not, ◌&&◌, ◌||◌, Option, some, List, [], ◌∷◌, arith,
  Bool-cases, inl, inr,
}
use benny_rs.Base.Equality.{nat_eq, pair_eq, pair_beq, pair_beq_iff}
use benny_rs.Base.Dict.{lookup, lookup-remove, Distinct}
use benny_rs.Base.Tables.{select_where, lookup-update_where}
use benny_rs.Base.Text.{text, is}
use benny_rs.Cogs.Moderation.Store.{Key, Timed, Store}
use benny_rs.Cogs.Moderation.Calls.{unban}
use benny_rs.Cogs.Moderation.Escalation.{deactivate}
use benny_rs.Cogs.Moderation.Policy.{is_case}
use benny_rs.Cogs.Moderation.Sweep.{
  RowAnswers, RoleCache, Turn, retried, settle, lift_call, result_of, after_role, sweep_row,
  sweep_rows, sweep, start, expired,
}
use benny_rs.Cogs.Moderation.Sweep.Rows.{role_step}

-- Nothing that the tables hold of a key has changed.
abbrev SameAt : Key → Store → Store → Type 0
SameAt j s s' = (lookup j s'.timed ≡ lookup j s.timed) × (lookup j s'.cases ≡ lookup j s.cases)

settle_other :
    (a : RowAnswers) (key j : Key) (s : Store)
    → pair_beq key j ≡ false
    → SameAt j s (settle a s key)
settle_other a key j s ne = ground (
  arith,
  pair_beq_iff key j,
  lookup-remove key j s.timed,
  lookup-update_where (is_case key.0 key.1) deactivate j s.cases,
)

after_role_other :
    (a : RowAnswers) (t : Turn) (key j : Key) (row : Timed) (p : Option ℕ × RoleCache)
    → pair_beq key j ≡ false
    → SameAt j t.store (after_role a t key row p).store
after_role_other a t key j row (role, cache) ne =
    elim (Bool-cases (retried (result_of a.lift (lift_call role key row)))) [
      | inl e ↦ rw (after_role, e) (refl, refl)
      | inr e ↦ rw (after_role, e) (settle_other a key j t.store ne)
    ]

abbrev unlifted_ban : (Key → RowAnswers) → Key → Timed → Bool
unlifted_ban answers key row =
    is row.action (text "ban")
    && (not (is row.action (text "mute")) && retried ((answers key).lift (unban key.0 row.user_id)))

after_role_ban :
    (answers : Key → RowAnswers) (t : Turn) (key : Key) (row : Timed) (p : Option ℕ × RoleCache)
    → unlifted_ban answers key row ≡ true
    → (after_role (answers key) t key row p).store ≡ t.store
after_role_ban answers t key row (role, cache) h =
    let a = answers key in
    let ban : is row.action (text "ban") ≡ true = ground arith in
    let mute : is row.action (text "mute") ≡ false = ground arith in
    let again : retried (a.lift (unban key.0 row.user_id)) ≡ true = ground arith in
    rw (after_role, lift_call, mute, ban, result_of, again) refl

-- Every row of the key is a ban that could not be lifted yet.
abbrev all_unlifted : (Key → RowAnswers) → Key → List (Key × Timed) → Bool
all_unlifted answers j [] = true
all_unlifted answers j ((key, row) ∷ rows) =
    let rest = all_unlifted answers j rows in
    (not (pair_beq key j) || unlifted_ban answers key row) && rest

sweep_row_kept :
    (answers : Key → RowAnswers) (j : Key) (t : Turn) (key : Key) (row : Timed)
    → (not (pair_beq key j) || unlifted_ban answers key row) ≡ true
    → SameAt j t.store (sweep_row (answers key) t key row).store
unfolding sweep_row
sweep_row_kept answers j t key row h = elim (Bool-cases (pair_beq key j)) [
  | inl e ↦
      let b : unlifted_ban answers key row ≡ true = ground arith in
      rw (after_role_ban answers t key row (role_step (answers key) t key row) b) (refl, refl)
  | inr e ↦ after_role_other (answers key) t key j row (role_step (answers key) t key row) e
]

sweep_rows_kept :
    (answers : Key → RowAnswers) (j : Key) (t : Turn) (rows : List (Key × Timed))
    → all_unlifted answers j rows ≡ true
    → SameAt j t.store (sweep_rows answers t rows).store
unfolding sweep_rows
sweep_rows_kept answers j t [] h = (refl, refl)
sweep_rows_kept answers j t ((key, row) ∷ rows) h =
    let t' = sweep_row (answers key) t key row in
    let (a, b) = sweep_row_kept answers j t key row (ground arith) in
    let (c, d) = sweep_rows_kept answers j t' rows (ground arith) in (c ∙ a, d ∙ b)

all_unlifted-select_where :
    (answers : Key → RowAnswers) (p : Key → Timed → Bool) (j : Key) (m : List (Key × Timed))
    → Distinct m
    → ((row : Timed) → lookup j m ≡ some row → unlifted_ban answers j row ≡ true)
    → all_unlifted answers j (select_where p m) ≡ true
all_unlifted-select_where answers p j [] d h = refl
all_unlifted-select_where answers p j ((key, row) ∷ m) d h =
    let rest : all_unlifted answers j (select_where p m) ≡ true =
      all_unlifted-select_where answers p j m d.1
        (λ r l. ground (arith, pair_beq_iff key j, h r)) in
    ground (arith, rest, h row, pair_beq_iff key j)

-- A temporary ban whose removal fails in a way that is to be retried keeps its row as it was, and
-- its case, through a turn of the sweeper, whatever else fails in that turn, if the timed rows
-- have distinct keys.
pub sweep_ban_kept :
    (ok : Bool) (now : ℕ) (answers : Key → RowAnswers) (s : Store) (j : Key) (row : Timed)
    → Distinct s.timed
    → lookup j s.timed ≡ some row
    → row.action ≡ text "ban"
    → retried ((answers j).lift (unban j.0 row.user_id)) ≡ true
    → (lookup j (sweep ok now answers s).store.timed ≡ some row)
      × (lookup j (sweep ok now answers s).store.cases ≡ lookup j s.cases)
unfolding sweep
sweep_ban_kept false now answers s j row d l ban again = (l, refl)
sweep_ban_kept true now answers s j row d l ban again =
    let unlifted : unlifted_ban answers j row ≡ true = rw (unlifted_ban, ban, again) refl in
    let all =
      all_unlifted-select_where answers (expired now) j s.timed d
        (λ r e. ground (arith, l, unlifted)) in
    let (a, b) = sweep_rows_kept answers j (start s) (select_where (expired now) s.timed) all in
    (a ∙ l, b)
