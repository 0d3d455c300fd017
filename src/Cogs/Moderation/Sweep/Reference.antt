-- ===== src/Cogs/Moderation/Sweep/Reference.antt =====
-- src/cogs/moderation.rs, `spawn_expiry_task`: a whole turn of the sweeper, against the one
-- deletion and the one update that it amounts to.
use benny_rs.Base.{
  ℕ, ◌≡◌, refl, Bool, true, false, ◌&&◌, ◌||◌, Option, none, some, List, [], ◌∷◌, if◌then◌else◌,
  arith,
}
use benny_rs.Base.Equality.{nat_eq, pair_eq, pair_beq, pair_beq_iff}
use benny_rs.Base.Dict.{lookup, lookup-remove, Distinct}
use benny_rs.Base.Tables.{
  select_where, delete_where, update_where, lookup-update_where, lookup-delete_where,
}
use benny_rs.Cogs.Moderation.Store.{Key, Case, Timed, Store}
use benny_rs.Cogs.Moderation.Escalation.{deactivate}
use benny_rs.Cogs.Moderation.Policy.{is_case}
use benny_rs.Cogs.Moderation.Sweep.{
  RowAnswers, Turn, configured_role, sweep_row, sweep_rows, sweep, start, expired,
}
use benny_rs.Cogs.Moderation.Sweep.Rows.{cleared, Reached, Coherent, settled, sweep_row_store}

-- Whether a row of a key is cleared among the rows of a turn.
abbrev pub any_cleared : (Key → RowAnswers) → (ℕ → Option ℕ) → Key → List (Key × Timed) → Bool
any_cleared answers roles j [] = false
any_cleared answers roles j ((key, row) ∷ rows) =
    let rest = any_cleared answers roles j rows in
    (pair_beq key j && cleared answers roles key row) || rest

abbrev deactivated : Option Case → Option Case
deactivated none = none
deactivated (some c) = some (deactivate c)

-- What the tables hold of a key, where it is cleared or not.
abbrev ClearedIf : Bool → Key → Store → Store → Type 0
ClearedIf b j s s' =
    (lookup j s'.timed ≡ (if b then none else lookup j s.timed))
    × (lookup j s'.cases ≡ (if b then deactivated (lookup j s.cases) else lookup j s.cases))
    × (s'.configs ≡ s.configs)

settled_key :
    (b : Bool) (key j : Key) (s : Store)
    → ClearedIf (pair_beq key j && b) j s (if b then settled s key else s)
settled_key false key j s = ground arith
settled_key true key j s = ground (
  arith,
  pair_beq_iff key j,
  lookup-remove key j s.timed,
  lookup-update_where (is_case key.0 key.1) deactivate j s.cases,
)

deactivated_again : (o : Option Case) → deactivated (deactivated o) ≡ deactivated o
deactivated_again none = refl
deactivated_again (some c) = refl

ClearedIf-compose :
    (b c : Bool) (j : Key) (s s' s'' : Store)
    → ClearedIf b j s s'
    → ClearedIf c j s' s''
    → ClearedIf (b || c) j s s''
ClearedIf-compose true true j s s' s'' p q = ground (arith, deactivated_again (lookup j s.cases))
ClearedIf-compose true false j s s' s'' p q = ground arith
ClearedIf-compose false true j s s' s'' p q = ground arith
ClearedIf-compose false false j s s' s'' p q = ground arith

pub sweep_rows-ClearedIf :
    (answers : Key → RowAnswers) (roles : ℕ → Option ℕ) (j : Key) (t : Turn)
    (rows : List (Key × Timed))
    → Reached answers
    → ((h : ℕ) → configured_role t.store h ≡ roles h)
    → Coherent roles t.cache
    → ClearedIf (any_cleared answers roles j rows) j t.store (sweep_rows answers t rows).store
unfolding sweep_rows
sweep_rows-ClearedIf answers roles j t [] reached same c = (refl, refl, refl)
sweep_rows-ClearedIf answers roles j t ((key, row) ∷ rows) reached same c =
    let t' = sweep_row (answers key) t key row in
    let b = cleared answers roles key row in
    let (e, c') = sweep_row_store answers roles t key row reached same c in
    let one : ClearedIf (pair_beq key j && b) j t.store t'.store =
      rw e (settled_key b key j t.store) in
    let same' : (h : ℕ) → configured_role t'.store h ≡ roles h = λ h. rw (one.2) (same h) in
    ClearedIf-compose (pair_beq key j && b) (any_cleared answers roles j rows) j t.store t'.store
      (sweep_rows answers t' rows).store one
      (sweep_rows-ClearedIf answers roles j t' rows reached same' c')

-- Whether a key's row, if there is one, meets a condition.
abbrev pub row_meets : (Key → Timed → Bool) → Key → Option Timed → Bool
row_meets p j none = false
row_meets p j (some row) = p j row

any_cleared_absent :
    (answers : Key → RowAnswers) (roles : ℕ → Option ℕ) (p : Key → Timed → Bool) (j : Key)
    (m : List (Key × Timed))
    → lookup j m ≡ none
    → any_cleared answers roles j (select_where p m) ≡ false
any_cleared_absent answers roles p j [] h = refl
any_cleared_absent answers roles p j ((key, row) ∷ m) h =
    ground (arith, any_cleared_absent answers roles p j m)

any_cleared-select_where :
    (answers : Key → RowAnswers) (roles : ℕ → Option ℕ) (p : Key → Timed → Bool) (j : Key)
    (m : List (Key × Timed))
    → Distinct m
    → any_cleared answers roles j (select_where p m)
      ≡ row_meets (λ k row. p k row && cleared answers roles k row) j (lookup j m)
any_cleared-select_where answers roles p j [] d = refl
any_cleared-select_where answers roles p j ((key, row) ∷ m) d = ground (
  arith,
  pair_beq_iff key j,
  any_cleared-select_where answers roles p j m d.1,
  any_cleared_absent answers roles p j m,
)

-- The rows that a turn clears: expired, and not to be retried.
abbrev pub due : (now : ℕ) → (Key → RowAnswers) → Store → Key → Timed → Bool
due now answers s key row = expired now key row && cleared answers (configured_role s) key row

-- The cases of such rows.
abbrev pub of_due : (now : ℕ) → (Key → RowAnswers) → Store → Key → Case → Bool
of_due now answers s key case = row_meets (due now answers s) key (lookup key s.timed)

-- Where every statement of a turn of the sweeper reaches the database and the timed rows have
-- distinct keys, the rows and the cases of any key after the turn are those after one deletion of
-- the rows that are expired and lifted or not to be retried, and one update of the cases of such
-- rows to inactive; the cache of roles changes nothing.
pub sweep-reference :
    (now : ℕ) (answers : Key → RowAnswers) (s : Store) (j : Key)
    → Distinct s.timed
    → Reached answers
    → (lookup j (sweep true now answers s).store.timed
        ≡ lookup j (delete_where (due now answers s) s.timed))
      × (lookup j (sweep true now answers s).store.cases
          ≡ lookup j (update_where (of_due now answers s) deactivate s.cases))
unfolding sweep
sweep-reference now answers s j d reached =
    let rows = select_where (expired now) s.timed in
    let (timed, cases, configs) =
      sweep_rows-ClearedIf answers (configured_role s) j (start s) rows reached (λ h. refl)
        (λ g r l. ground arith) in
    ground (
      arith,
      timed,
      cases,
      any_cleared-select_where answers (configured_role s) (expired now) j s.timed d,
      lookup-delete_where (due now answers s) j s.timed d,
      lookup-update_where (of_due now answers s) deactivate j s.cases,
    )
