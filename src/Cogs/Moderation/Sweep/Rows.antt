-- ===== src/Cogs/Moderation/Sweep/Rows.antt =====
-- src/cogs/moderation.rs, `spawn_expiry_task`: what the sweeper does to the row it handles, and to
-- the others.
use benny_rs.Base.{
  ℕ, ◌≡◌, refl, ap, ◌∙◌, Bool, true, not, Option, none, some, if◌then◌else◌, arith, Bool-cases, inl,
  inr, ==_iff,
}
use benny_rs.Base.Equality.{nat_eq, pair_eq}
use benny_rs.Base.Dict.{lookup, remove, lookup-insert}
use benny_rs.Base.Tables.{update_where}
use benny_rs.Base.Text.{text, is}
use benny_rs.Cogs.Moderation.Store.{Key, Timed, Store}
use benny_rs.Cogs.Moderation.Calls.{Call}
use benny_rs.Cogs.Moderation.Escalation.{deactivate}
use benny_rs.Cogs.Moderation.Policy.{is_case}
use benny_rs.Cogs.Moderation.Sweep.{
  LiftError, retried, RowAnswers, RoleCache, Turn, configured_role, after_cache, mute_role,
  lift_call, result_of, settle, after_role, sweep_row,
}

-- The outcome of lifting a row's infraction, given the Muted role of each guild.
abbrev pub outcome : (Call → Option LiftError) → (ℕ → Option ℕ) → Key → Timed → Option LiftError
outcome lift roles key row =
    result_of lift (lift_call (if is row.action (text "mute") then roles key.0 else none) key row)

-- A row that is lifted, or that can never be.
abbrev pub cleared : (Key → RowAnswers) → (ℕ → Option ℕ) → Key → Timed → Bool
cleared answers roles key row = not (retried (outcome (answers key).lift roles key row))

abbrev pub Reached : (Key → RowAnswers) → Type 0
Reached answers =
    (key : Key)
    → ((answers key).config_ok ≡ true)
      × ((answers key).delete_ok ≡ true)
      × ((answers key).update_ok ≡ true)

abbrev pub Coherent : (ℕ → Option ℕ) → RoleCache → Type 0
Coherent roles cache = (g : ℕ) (r : Option ℕ) → lookup g cache ≡ some r → r ≡ roles g

after_cache-Coherent :
    (roles : ℕ → Option ℕ) (s : Store) (cache : RoleCache) (g : ℕ) (found : Option (Option ℕ))
    → lookup g cache ≡ found
    → ((h : ℕ) → configured_role s h ≡ roles h)
    → Coherent roles cache
    → ((after_cache true s cache g found).0 ≡ roles g)
      × Coherent roles (after_cache true s cache g found).1
after_cache-Coherent roles s cache g (some role) e same c = (c g role e, c)
after_cache-Coherent roles s cache g none e same c = (
  same g,
  λ h r l.
      ground
        (arith, c h r, same g, same h, ==_iff g h, lookup-insert g h (configured_role s g) cache),
)

pub mute_role-Coherent :
    (roles : ℕ → Option ℕ) (s : Store) (cache : RoleCache) (g : ℕ)
    → ((h : ℕ) → configured_role s h ≡ roles h)
    → Coherent roles cache
    → ((mute_role true s cache g).0 ≡ roles g) × Coherent roles (mute_role true s cache g).1
mute_role-Coherent roles s cache g same c =
    after_cache-Coherent roles s cache g (lookup g cache) refl same c

-- The tables without the row, its case inactive.
abbrev pub settled : Store → Key → Store
settled s key = record s {
  timed = remove key s.timed;
  cases = update_where (is_case key.0 key.1) deactivate s.cases;
}

settle_reached :
    (a : RowAnswers) (s : Store) (key : Key)
    → a.delete_ok ≡ true
    → a.update_ok ≡ true
    → settle a s key ≡ settled s key
settle_reached a s key d u = rw (settle, d, u) refl

-- The role that a row's handling starts with, and the cache after.
abbrev pub role_step : RowAnswers → Turn → Key → Timed → Option ℕ × RoleCache
role_step a t key row =
    if is row.action (text "mute")
    then mute_role a.config_ok t.store t.cache key.0
    else (none, t.cache)

abbrev role_needed : (ℕ → Option ℕ) → Key → Timed → Option ℕ
role_needed roles key row = if is row.action (text "mute") then roles key.0 else none

role_step-Coherent :
    (roles : ℕ → Option ℕ) (a : RowAnswers) (t : Turn) (key : Key) (row : Timed)
    → a.config_ok ≡ true
    → ((h : ℕ) → configured_role t.store h ≡ roles h)
    → Coherent roles t.cache
    → ((role_step a t key row).0 ≡ role_needed roles key row)
      × Coherent roles (role_step a t key row).1
role_step-Coherent roles a t key row ok same c = elim (Bool-cases (is row.action (text "mute"))) [
  | inl e ↦
      rw (role_step, role_needed, e, ok) (mute_role-Coherent roles t.store t.cache key.0 same c)
  | inr e ↦ rw (role_step, role_needed, e) (refl, c)
]

after_role_store :
    (a : RowAnswers) (t : Turn) (key : Key) (row : Timed) (p : Option ℕ × RoleCache)
    → a.delete_ok ≡ true
    → a.update_ok ≡ true
    → (after_role a t key row p).store ≡ (
        if not (retried (result_of a.lift (lift_call p.0 key row)))
        then settled t.store key
        else t.store)
after_role_store a t key row (role, cache) d u =
    elim (Bool-cases (retried (result_of a.lift (lift_call role key row)))) [
      | inl e ↦ rw (after_role, e) refl
      | inr e ↦ rw (after_role, e) (settle_reached a t.store key d u)
    ]

-- One row: the tables are settled exactly if it is cleared, and the cache stays coherent.
pub sweep_row_store :
    (answers : Key → RowAnswers) (roles : ℕ → Option ℕ) (t : Turn) (key : Key) (row : Timed)
    → Reached answers
    → ((h : ℕ) → configured_role t.store h ≡ roles h)
    → Coherent roles t.cache
    → ((sweep_row (answers key) t key row).store
        ≡ (if cleared answers roles key row then settled t.store key else t.store))
      × Coherent roles (sweep_row (answers key) t key row).cache
unfolding sweep_row
sweep_row_store answers roles t key row reached same c =
    let a = answers key in
    let (ok, d, u) = reached key in
    let (role, coherent) = role_step-Coherent roles a t key row ok same c in
    (
      after_role_store a t key row (role_step a t key row) d u
          ∙ ap
              (λ r.
                if not (retried (result_of a.lift (lift_call r key row)))
                then settled t.store key
                else t.store)
              role,
      coherent,
    )
