-- ===== src/Cogs/Moderation/Invariant/Commands.antt =====
-- src/cogs/moderation.rs: what the tables keep to, command by command.
use benny_rs.Base.{
  ℕ, ◌≡◌, refl, Bool, true, false, not, Option, none, some, arith, Bool-cases, inl, inr,
}
use benny_rs.Base.Int.{ℤ}
use benny_rs.Base.Equality.{nat_eq, pair_eq, pair_beq_iff}
use benny_rs.Base.Dict.{lookup, insert, lookup-insert}
use benny_rs.Base.Text.{Text, text, is}
use benny_rs.Cogs.Moderation.Store.{Key, Store, create_case, record_timed}
use benny_rs.Cogs.Moderation.Store.Numbers.{new_case, next_number, create_case_ok}
use benny_rs.Cogs.Moderation.Store.Collision.{new_timed}
use benny_rs.Cogs.Moderation.Calls.{
  Call, disable_communication, Reply, Result, World, Database, unless, attempt,
}
use benny_rs.Cogs.Moderation.Escalation.{seconds, apply_native_timeout}
use benny_rs.Cogs.Moderation.Commands.{close_case, timed_case, with_expiry, with_mute_role}
use benny_rs.Cogs.Moderation.Invariant.{
  IsValid, add_case-IsValid, create_case-IsValid, watch-IsValid,
}

-- ---- early returns ----

module _ (P : Store → Type 0) where
  pub unless_keeps :
      (r : Option Reply) (s : Store) (rest : Result)
      → P s
      → P rest.store
      → P (unless r s rest).store
  unless_keeps none s rest before after = after
  unless_keeps (some r) s rest before after = before

  pub attempt_keeps :
      (w : World) (c : Call) (s : Store) (rest : Result)
      → P s
      → P rest.store
      → P (attempt w c s rest).store
  attempt_keeps w c s rest before after = elim (Bool-cases (w.accepts c)) [
    | inl e ↦ rw (attempt, e) after
    | inr e ↦ rw (attempt, e) before
  ]

  pub with_expiry_keeps :
      (o : Option ℕ) (s : Store) (rest : ℕ → Result)
      → P s
      → ((t : ℕ) → P (rest t).store)
      → P (with_expiry o s rest).store
  with_expiry_keeps none s rest before after = before
  with_expiry_keeps (some t) s rest before after = after t

  pub with_mute_role_keeps :
      (o : Option ℕ) (s : Store) (rest : ℕ → Result)
      → P s
      → ((r : ℕ) → P (rest r).store)
      → P (with_mute_role o s rest).store
  with_mute_role_keeps none s rest before after = before
  with_mute_role_keeps (some r) s rest before after = after r

-- ---- the last steps of a command ----

pub close_case-IsValid :
    (w : World) (db : Database) (s : Store) (g : ℕ) (kind : Text) (target author : ℕ)
    (reason : Text)
    → db.case_ok ≡ true
    → IsValid s
    → IsValid (close_case w db s g kind target author reason).store
close_case-IsValid w db s g kind target author reason ok v =
    rw (close_case, ok) (create_case-IsValid (seconds w.now) s g kind target author reason none v)

abbrev watched :
    (scan_ok write_ok : Bool) (g target : ℕ) (action : Text) (expires : ℤ)
    → Option ℕ × Store
    → Store
watched scan_ok write_ok g target action expires (case, s) =
    record_timed scan_ok write_ok s g case target action expires

-- A case with an end and the row under its number.
pub watched-IsValid :
    (scan_ok write_ok : Bool) (now : ℕ) (s : Store) (g : ℕ) (kind action : Text)
    (target moderator : ℕ) (reason : Text) (expires : ℤ)
    → is kind (text "warn") ≡ false
    → IsValid s
    → IsValid (
        watched scan_ok write_ok g target action expires
          (create_case true now s g kind target moderator reason (some expires)))
unfolding record_timed
watched-IsValid scan_ok false now s g kind action target moderator reason expires k v =
    create_case-IsValid now s g kind target moderator reason (some expires) v
watched-IsValid scan_ok true now s g kind action target moderator reason expires k v =
    let key : Key = (g, next_number s g) in
    let case = new_case now kind target moderator reason (some expires) in
    let added : Store = record s { cases = insert key case s.cases } in
    let found : lookup key added.cases ≡ some case =
      ground (arith, lookup-insert key key case s.cases, pair_beq_iff key key) in
    rw (create_case_ok now s g kind target moderator reason (some expires)) (
      watch-IsValid added key (new_timed target action expires) case found (refl, refl, refl, k)
        (add_case-IsValid s g case v))

pub timed_case-IsValid :
    (w : World) (db : Database) (s : Store) (g : ℕ) (kind action : Text) (target author : ℕ)
    (reason : Text) (expires : ℤ)
    → db.case_ok ≡ true
    → is kind (text "warn") ≡ false
    → IsValid s
    → IsValid (timed_case w db s g kind action target author reason expires).store
timed_case-IsValid w db s g kind action target author reason expires ok k v =
    rw (timed_case, ok)
      (watched-IsValid db.scan_ok db.timed_ok (seconds w.now) s g kind action target author reason
        expires k v)

pub apply_native_timeout-IsValid :
    (w : World) (db : Database) (s : Store) (g target moderator : ℕ) (reason : Text) (expires : ℤ)
    → IsValid s
    → IsValid (apply_native_timeout w db true s g target moderator reason expires).store
unfolding apply_native_timeout
apply_native_timeout-IsValid w db s g target moderator reason expires v =
    elim (Bool-cases (not (w.valid_timestamp expires))) [
      | inl e ↦ rw e v
      | inr e ↦ elim (Bool-cases (w.accepts (disable_communication g target expires))) [
        | inl a ↦
            rw (e, a)
              (watched-IsValid db.scan_ok db.timed_ok (seconds w.now) s g (text "timeout")
                (text "timeout") target moderator reason expires refl v)
        | inr a ↦ rw (e, a) v
      ]
    ]
