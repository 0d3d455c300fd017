-- ===== src/Cogs/Moderation/Sweep/Liveness.antt =====
-- src/cogs/moderation.rs, `spawn_expiry_task`: the turns of the sweeper, one after another.
use benny_rs.Base.{
  ℕ, ◌≡◌, refl, ◌∙◌, Bool, true, false, Option, none, some, List, [], ◌∷◌, ◌++◌, Bool-cases, ◌⊎◌,
  inl, inr,
}
use benny_rs.Base.Equality.{nat_eq, pair_eq, pair_beq}
use benny_rs.Base.Dict.{lookup, lookup-remove, Distinct, remove-Distinct}
use benny_rs.Base.Tables.{select_where, kept, lookup-delete_where}
use benny_rs.Cogs.Moderation.Store.{Key, Timed, Store}
use benny_rs.Cogs.Moderation.Sweep.{
  RowAnswers, RoleCache, Turn, configured_role, retried, settle, lift_call, result_of, after_role,
  sweep_row, sweep_rows, sweep, start, expired,
}
use benny_rs.Cogs.Moderation.Sweep.Rows.{cleared, Reached, role_step}
use benny_rs.Cogs.Moderation.Sweep.Reference.{due, sweep-reference}

-- What a turn needs of the world: whether the scan reaches the database, the time, the answers.
abbrev pub Sweeping : Type 0
Sweeping = Bool × ℕ × (Key → RowAnswers)

unfoldable pub sweeps : List Sweeping → Store → Store
unfolding sweep
sweeps [] s = s
sweeps ((ok, now, answers) ∷ turns) s = sweeps turns (sweep ok now answers s).store

-- A row is as it was, or it is gone; no row is new.
abbrev Fewer : Key → Store → Store → Type 0
Fewer j s s' =
    (Distinct s.timed → Distinct s'.timed)
    × ((lookup j s'.timed ≡ lookup j s.timed) ⊎ (lookup j s'.timed ≡ none))
    × (s'.configs ≡ s.configs)

Fewer-compose : (j : Key) (s s' s'' : Store) → Fewer j s s' → Fewer j s' s'' → Fewer j s s''
Fewer-compose j s s' s'' (d, inl e, c) (d', inl e', c') = (λ x. d' (d x), inl (e' ∙ e), c' ∙ c)
Fewer-compose j s s' s'' (d, inr e, c) (d', inl e', c') = (λ x. d' (d x), inr (e' ∙ e), c' ∙ c)
Fewer-compose j s s' s'' (d, e, c) (d', inr e', c') = (λ x. d' (d x), inr e', c' ∙ c)

settle-Fewer : (a : RowAnswers) (key j : Key) (s : Store) → Fewer j s (settle a s key)
settle-Fewer a key j s = elim (Bool-cases a.delete_ok) [
  | inl e ↦
      rw (settle, e)
        (
          remove-Distinct key s.timed,
          elim (Bool-cases (pair_beq key j)) [
            | inl b ↦ inr (rw (lookup-remove key j s.timed, b) refl)
            | inr b ↦ inl (rw (lookup-remove key j s.timed, b) refl)
          ],
          refl,
        )
  | inr e ↦ rw (settle, e) (λ d. d, inl refl, refl)
]

after_role-Fewer :
    (a : RowAnswers) (t : Turn) (key j : Key) (row : Timed) (p : Option ℕ × RoleCache)
    → Fewer j t.store (after_role a t key row p).store
after_role-Fewer a t key j row (role, cache) =
    elim (Bool-cases (retried (result_of a.lift (lift_call role key row)))) [
      | inl e ↦ rw (after_role, e) (λ d. d, inl refl, refl)
      | inr e ↦ rw (after_role, e) (settle-Fewer a key j t.store)
    ]

sweep_rows-Fewer :
    (answers : Key → RowAnswers) (j : Key) (t : Turn) (rows : List (Key × Timed))
    → Fewer j t.store (sweep_rows answers t rows).store
unfolding sweep_rows sweep_row
sweep_rows-Fewer answers j t [] = (λ d. d, inl refl, refl)
sweep_rows-Fewer answers j t ((key, row) ∷ rows) =
    let t' = sweep_row (answers key) t key row in
    Fewer-compose j t.store t'.store (sweep_rows answers t' rows).store
      (after_role-Fewer (answers key) t key j row (role_step (answers key) t key row))
      (sweep_rows-Fewer answers j t' rows)

sweep-Fewer :
    (ok : Bool) (now : ℕ) (answers : Key → RowAnswers) (j : Key) (s : Store)
    → Fewer j s (sweep ok now answers s).store
unfolding sweep
sweep-Fewer true now answers j s =
    sweep_rows-Fewer answers j (start s) (select_where (expired now) s.timed)
sweep-Fewer false now answers j s = (λ d. d, inl refl, refl)

sweeps-Fewer : (turns : List Sweeping) (j : Key) (s : Store) → Fewer j s (sweeps turns s)
unfolding sweeps
sweeps-Fewer [] j s = (λ d. d, inl refl, refl)
sweeps-Fewer ((ok, now, answers) ∷ turns) j s =
    let s' = (sweep ok now answers s).store in
    Fewer-compose j s s' (sweeps turns s') (sweep-Fewer ok now answers j s)
      (sweeps-Fewer turns j s')

absent_stays :
    (turns : List Sweeping) (j : Key) (s : Store)
    → lookup j s.timed ≡ none
    → lookup j (sweeps turns s).timed ≡ none
absent_stays turns j s h =
    let (d, e, c) = sweeps-Fewer turns j s in elim e [ inl same ↦ same ∙ h | inr gone ↦ gone ]

sweeps-append : (xs ys : List Sweeping) (s : Store) → sweeps (xs ++ ys) s ≡ sweeps ys (sweeps xs s)
unfolding sweeps
sweeps-append [] ys s = refl
sweeps-append ((ok, now, answers) ∷ xs) ys s = sweeps-append xs ys (sweep ok now answers s).store

-- A turn in which the row is due clears it.
pub sweep-due :
    (now : ℕ) (answers : Key → RowAnswers) (s : Store) (j : Key) (row : Timed)
    → Distinct s.timed
    → Reached answers
    → lookup j s.timed ≡ some row
    → due now answers s j row ≡ true
    → lookup j (sweep true now answers s).store.timed ≡ none
sweep-due now answers s j row d reached l h =
    (sweep-reference now answers s j d reached).0
    ∙ lookup-delete_where (due now answers s) j s.timed d
    ∙ rw (l, kept, h) refl

-- Over any turns of the sweeper, a row is gone at the end if in one of them, whose statements
-- reach the database, the row is expired and what lifts it succeeds or fails for good, whatever
-- happens in the turns before and after.
pub sweeps_due :
    (before after : List Sweeping) (now : ℕ) (answers : Key → RowAnswers) (s : Store) (j : Key)
    (row : Timed)
    → Distinct s.timed
    → Reached answers
    → lookup j s.timed ≡ some row
    → expired now j row ≡ true
    → cleared answers (configured_role s) j row ≡ true
    → lookup j (sweeps (before ++ ((true, now, answers) ∷ after)) s).timed ≡ none
unfolding sweeps
sweeps_due before after now answers s j row d reached l e c =
    let s' = sweeps before s in
    let (d', same, configs) = sweeps-Fewer before j s in
    let here : lookup j (sweep true now answers s').store.timed ≡ none = elim same [
      | inl same ↦
          sweep-due now answers s' j row (d' d) reached (same ∙ l)
            (rw (due, configured_role, configs, e, c) refl)
      | inr gone ↦ absent_stays ((true, now, answers) ∷ []) j s' gone
    ] in
    rw (sweeps-append before ((true, now, answers) ∷ after) s)
      (absent_stays after j (sweep true now answers s').store here)
