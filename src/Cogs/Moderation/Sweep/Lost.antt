-- ===== src/Cogs/Moderation/Sweep/Lost.antt =====
-- src/cogs/moderation.rs, `spawn_expiry_task`: rows that go without the infraction being lifted.
use benny_rs.Base.{
  ℕ, ◌≡◌, refl, sym, ap, ◌∙◌, Bool, true, false, ◌&&◌, ◌||◌, Option, none, some, List, [], ◌∷◌,
  ◌++◌, arith, Bool-cases, inl, inr, ==_iff,
}
use benny_rs.Base.Equality.{nat_eq, pair_eq, pair_beq, pair_beq_iff}
use benny_rs.Base.Dict.{lookup, lookup-insert, lookup-remove}
use benny_rs.Base.Tables.{select_where}
use benny_rs.Base.Text.{text, is}
use benny_rs.Cogs.Moderation.Store.{Key, Timed, Store}
use benny_rs.Cogs.Moderation.Calls.{
  Call, kick_with_reason, ban_with_reason, unban, disable_communication, enable_communication,
  add_member_role, remove_member_role, create_role, create_permission,
}
use benny_rs.Cogs.Moderation.Sweep.{
  RowAnswers, RoleCache, Turn, mute_role, after_cache, lift_call, result_of, retried, made, settle,
  after_role, sweep_row, sweep_rows, sweep, start, expired,
}
use benny_rs.Cogs.Moderation.Sweep.Rows.{Coherent, role_step}

abbrev pub is_unmute : Call → Bool
is_unmute (remove_member_role g user role) = true
is_unmute (unban g user) = false
is_unmute (kick_with_reason g user reason) = false
is_unmute (ban_with_reason g user days reason) = false
is_unmute (disable_communication g user until) = false
is_unmute (enable_communication g user) = false
is_unmute (add_member_role g user role) = false
is_unmute (create_role g) = false
is_unmute (create_permission channel role) = false

abbrev pub asks_unmute : List Call → Bool
asks_unmute [] = false
asks_unmute (c ∷ calls) = is_unmute c || asks_unmute calls

asks_unmute-append : (a b : List Call) → asks_unmute (a ++ b) ≡ (asks_unmute a || asks_unmute b)
asks_unmute-append [] b = refl
asks_unmute-append (c ∷ a) b = ground (arith, asks_unmute-append a b)

-- No guild has a Muted role.
abbrev no_roles : ℕ → Option ℕ
no_roles g = none

after_cache_unread :
    (s : Store) (cache : RoleCache) (g : ℕ) (found : Option (Option ℕ))
    → lookup g cache ≡ found
    → Coherent no_roles cache
    → ((after_cache false s cache g found).0 ≡ none)
      × Coherent no_roles (after_cache false s cache g found).1
after_cache_unread s cache g (some role) e c = (c g role e, c)
after_cache_unread s cache g none e c =
    (refl, λ h r l. ground (arith, c h r, ==_iff g h, lookup-insert g h none cache))

role_step_unread :
    (a : RowAnswers) (t : Turn) (key : Key) (row : Timed)
    → a.config_ok ≡ false
    → Coherent no_roles t.cache
    → ((role_step a t key row).0 ≡ none) × Coherent no_roles (role_step a t key row).1
role_step_unread a t key row unread c = elim (Bool-cases (is row.action (text "mute"))) [
  | inl e ↦
      rw (role_step, e, mute_role, unread)
        (after_cache_unread t.store t.cache key.0 (lookup key.0 t.cache) refl c)
  | inr e ↦ rw (role_step, e) (refl, c)
]

asks_unmute-lift_call :
    (key : Key) (row : Timed) → asks_unmute (made (lift_call none key row)) ≡ false
asks_unmute-lift_call key row = elim (Bool-cases (is row.action (text "mute"))) [
  | inl m ↦ rw (lift_call, m) refl
  | inr m ↦ elim (Bool-cases (is row.action (text "ban"))) [
    | inl b ↦ rw (lift_call, m, b) refl
    | inr b ↦ rw (lift_call, m, b) refl
  ]
]

-- No row of the key is left.
abbrev Cleared : Key → Turn → Type 0
Cleared j t = lookup j t.store.timed ≡ none

settle-Cleared :
    (a : RowAnswers) (s : Store) (key j : Key)
    → lookup j s.timed ≡ none
    → lookup j (settle a s key).timed ≡ none
settle-Cleared a s key j h = ground (arith, lookup-remove key j s.timed)

settle_gone :
    (a : RowAnswers) (s : Store) (key : Key)
    → a.delete_ok ≡ true
    → lookup key (settle a s key).timed ≡ none
settle_gone a s key d =
    rw (settle, d) (ground (arith, lookup-remove key key s.timed, pair_beq_iff key key))

after_role-Cleared :
    (a : RowAnswers) (t : Turn) (key j : Key) (row : Timed) (p : Option ℕ × RoleCache)
    → Cleared j t
    → Cleared j (after_role a t key row p)
after_role-Cleared a t key j row (role, cache) h =
    elim (Bool-cases (retried (result_of a.lift (lift_call role key row)))) [
      | inl e ↦ rw (after_role, e) h
      | inr e ↦ rw (after_role, e) (settle-Cleared a t.store key j h)
    ]

-- One row in a turn that reads no configuration.
after_role_unread :
    (a : RowAnswers) (t : Turn) (key : Key) (row : Timed) (p : Option ℕ × RoleCache)
    → p.0 ≡ none
    → asks_unmute (after_role a t key row p).calls ≡ asks_unmute t.calls
after_role_unread a t key row (role, cache) e =
    asks_unmute-append t.calls (made (lift_call role key row))
    ∙ rw (e, asks_unmute-lift_call key row) (ground arith)

after_role_mute :
    (a : RowAnswers) (t : Turn) (key : Key) (row : Timed) (p : Option ℕ × RoleCache)
    → p.0 ≡ none
    → is row.action (text "mute") ≡ true
    → a.delete_ok ≡ true
    → Cleared key (after_role a t key row p)
after_role_mute a t key row (role, cache) e mute d =
    rw (e, after_role, lift_call, mute) (settle_gone a t.store key d)

-- In a turn no configuration is read, and every deletion reaches the database.
abbrev pub NoneRead : (Key → RowAnswers) → Type 0
NoneRead answers =
    (key : Key) → ((answers key).config_ok ≡ false) × ((answers key).delete_ok ≡ true)

sweep_rows_unread :
    (answers : Key → RowAnswers) (t : Turn) (rows : List (Key × Timed))
    → NoneRead answers
    → Coherent no_roles t.cache
    → asks_unmute (sweep_rows answers t rows).calls ≡ asks_unmute t.calls
unfolding sweep_rows sweep_row
sweep_rows_unread answers t [] u c = refl
sweep_rows_unread answers t ((key, row) ∷ rows) u c =
    let a = answers key in
    let (role, cache) = role_step_unread a t key row (u key).0 c in
    sweep_rows_unread answers (sweep_row a t key row) rows u cache
    ∙ after_role_unread a t key row (role_step a t key row) role

sweep_rows-Cleared :
    (answers : Key → RowAnswers) (j : Key) (t : Turn) (rows : List (Key × Timed))
    → Cleared j t
    → Cleared j (sweep_rows answers t rows)
unfolding sweep_rows sweep_row
sweep_rows-Cleared answers j t [] h = h
sweep_rows-Cleared answers j t ((key, row) ∷ rows) h =
    sweep_rows-Cleared answers j (sweep_row (answers key) t key row) rows
      (after_role-Cleared (answers key) t key j row (role_step (answers key) t key row) h)

abbrev has_mute : Key → List (Key × Timed) → Bool
has_mute j [] = false
has_mute j ((key, row) ∷ rows) =
    let rest = has_mute j rows in pair_beq key j && is row.action (text "mute") || rest

has_mute-select_where :
    (j : Key) (row : Timed) (p : Key → Timed → Bool) (rows : List (Key × Timed))
    → lookup j rows ≡ some row
    → is row.action (text "mute") ≡ true
    → p j row ≡ true
    → has_mute j (select_where p rows) ≡ true
has_mute-select_where j row p [] l m e = ground arith
has_mute-select_where j row p ((key, other) ∷ rows) l m e = elim (Bool-cases (pair_beq key j)) [
  | inl y ↦
      let same : key ≡ j = (pair_beq_iff key j).0 y in
      let it : other ≡ row = ground arith in
      let chosen : p key other ≡ true = rw (same, it) e in
      let mute : is other.action (text "mute") ≡ true = rw it m in rw (chosen, y, mute) refl
  | inr n ↦
      let rest = has_mute-select_where j row p rows (rw n at l) m e in
      elim (Bool-cases (p key other)) [
        | inl chosen ↦ rw (chosen, rest) (ground arith)
        | inr left ↦ rw left rest
      ]
]

sweep_rows_mute :
    (answers : Key → RowAnswers) (j : Key) (t : Turn) (rows : List (Key × Timed))
    → NoneRead answers
    → Coherent no_roles t.cache
    → has_mute j rows ≡ true
    → Cleared j (sweep_rows answers t rows)
unfolding sweep_rows sweep_row
sweep_rows_mute answers j t [] u c h = ground arith
sweep_rows_mute answers j t ((key, row) ∷ rows) u c h =
    let a = answers key in
    let (role, cache) = role_step_unread a t key row (u key).0 c in
    elim (Bool-cases (pair_beq key j && is row.action (text "mute"))) [
      | inl e ↦
          let same : key ≡ j = (pair_beq_iff key j).0 (ground arith) in
          let mute : is row.action (text "mute") ≡ true = ground arith in
          sweep_rows-Cleared answers j (sweep_row a t key row) rows (
            ap (λ k. lookup k (sweep_row a t key row).store.timed) (sym same)
            ∙ after_role_mute a t key row (role_step a t key row) role mute (u key).1)
      | inr e ↦ sweep_rows_mute answers j (sweep_row a t key row) rows u cache (ground arith)
    ]

-- In a turn of the sweeper whose scan reaches the database, in which no configuration can be read
-- and every deletion reaches the database, no role is taken from anyone, whatever the rows, and
-- yet the row of an expired mute is gone afterwards.
pub sweep_unread :
    (now : ℕ) (answers : Key → RowAnswers) (s : Store) (j : Key) (row : Timed)
    → NoneRead answers
    → lookup j s.timed ≡ some row
    → is row.action (text "mute") ≡ true
    → expired now j row ≡ true
    → (asks_unmute (sweep true now answers s).calls ≡ false)
      × (lookup j (sweep true now answers s).store.timed ≡ none)
unfolding sweep
sweep_unread now answers s j row u l m e =
    let rows = select_where (expired now) s.timed in
    (
      sweep_rows_unread answers (start s) rows u (λ g r l. ground arith),
      sweep_rows_mute answers j (start s) rows u (λ g r l. ground arith)
          (has_mute-select_where j row (expired now) s.timed l m e),
    )
