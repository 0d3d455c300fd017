-- ===== src/Cogs/Moderation/Invariant/Policy.antt =====
-- src/cogs/moderation.rs: what the tables keep to, over mutes, the commands on one case, the policy
-- and the sweeper.
use benny_rs.Base.{ℕ, ◌≡◌, refl, Bool, true, false, Option, none, some, List, Bool-cases, inl, inr}
use benny_rs.Base.Int.{ℤ, pos}
use benny_rs.Base.Equality.{nat_eq, pair_eq}
use benny_rs.Base.Dict.{contains_key, insert-Distinct}
use benny_rs.Base.Tables.{update_where-Distinct}
use benny_rs.Base.Text.{Text, text}
use benny_rs.Cogs.Moderation.Store.{Key, Timed, Config, Store}
use benny_rs.Cogs.Moderation.Calls.{
  Call, add_member_role, create_role, Reply, World, Database, updated, deleted, guard,
  default_reason,
}
use benny_rs.Cogs.Moderation.Escalation.{seconds}
use benny_rs.Cogs.Moderation.Commands.{later, stored_mute_role}
use benny_rs.Cogs.Moderation.Policy.{
  GuildAnswers, ensure_mute_role, mute_by, mute, save_config, row_of, still_there, is_case, reason,
  delcase, answer_case, WarnAction, policy_secs, set_policy, as_str, save_policy, warnings_set,
  warnings_off, is_guild,
}
use benny_rs.Cogs.Moderation.Sweep.{
  RowAnswers, Turn, RoleCache, settle, after_role, lift_call, result_of, retried,
}
use benny_rs.Cogs.Moderation.Invariant.{
  IsValid, change_cases-IsValid, unwatched-IsValid, close_case-IsValid as settled-IsValid,
}
use benny_rs.Cogs.Moderation.Invariant.Commands.{
  unless_keeps, attempt_keeps, with_expiry_keeps, timed_case-IsValid,
}

-- ---- the tables of configurations ----

pub save_config-IsValid :
    (ok : Bool) (s : Store) (g : ℕ) (cfg : Config) → IsValid s → IsValid (save_config ok s g cfg)
save_config-IsValid false s g cfg v = v
save_config-IsValid true s g cfg (c, t, k, l) = (c, t, insert-Distinct g cfg s.configs k, l)

pub warnings_off-IsValid :
    (db : Database) (s : Store) (g : ℕ) → IsValid s → IsValid (warnings_off db s g)
unfolding warnings_off
warnings_off-IsValid db s g (c, t, k, l) = elim (Bool-cases db.update_ok) [
  | inl e ↦ rw e (
    c,
    t,
    update_where-Distinct (is_guild g) (λ cfg. record cfg { warn_threshold = pos 0 }) s.configs k,
    l,
  )
  | inr e ↦ rw e (c, t, k, l)
]

save_policy-IsValid :
    (db : Database) (s : Store) (g : ℕ) (threshold : ℤ) (action : WarnAction) (o : Option ℕ)
    → IsValid s
    → IsValid (save_policy db s g threshold action o).0
save_policy-IsValid db s g threshold action none v = v
save_policy-IsValid db s g threshold action (some secs) v =
    save_config-IsValid db.update_ok s g
      (set_policy (row_of s g) threshold (as_str action) (pos secs)) v

pub warnings_set-IsValid :
    (db : Database) (s : Store) (g : ℕ) (threshold : ℤ) (action : WarnAction)
    (duration : Option (Option ℕ))
    → IsValid s
    → IsValid (warnings_set db s g threshold action duration).0
unfolding warnings_set
warnings_set-IsValid db s g threshold action duration v =
    save_policy-IsValid db s g threshold action (policy_secs duration) v

-- ---- one case ----

answer_case-IsValid :
    (ok found : Bool) (s changed : Store) (n : ℕ) (r : Reply)
    → IsValid s
    → IsValid changed
    → IsValid (answer_case ok found s changed n r).store
answer_case-IsValid true true s changed n r v v' = v'
answer_case-IsValid true false s changed n r v v' = v
answer_case-IsValid false found s changed n r v v' = v

pub reason-IsValid :
    (db : Database) (s : Store) (g n : ℕ) (given : Text)
    → IsValid s
    → IsValid (reason db s g n given).store
unfolding reason
reason-IsValid db s g n given v =
    answer_case-IsValid db.update_ok (contains_key (g, n) s.cases) s _ n (updated n) v (
      change_cases-IsValid (is_case g n) (λ c. record c { reason = given }) s (λ k case row p b. b)
        v)

pub delcase-IsValid :
    (db : Database) (s : Store) (g n : ℕ)
    → db.timed_ok ≡ true
    → IsValid s
    → IsValid (delcase db s g n).store
unfolding delcase
delcase-IsValid db s g n ok v = rw ok (
    answer_case-IsValid db.delete_ok (contains_key (g, n) s.cases) s _ n (deleted n) v
      (unwatched-IsValid (g, n) s v))

-- ---- mutes ----

ensure_mute_role-IsValid :
    (w : World) (db : Database) (a : GuildAnswers) (s : Store) (g : ℕ)
    → IsValid s
    → IsValid (ensure_mute_role w db a s g).store
unfolding ensure_mute_role
ensure_mute_role-IsValid w db a s g v =
    let cfg = row_of s g in
    elim (Bool-cases (still_there (stored_mute_role db s g) a.roles)) [
      | inl e ↦ rw e v
      | inr e ↦ elim (Bool-cases (w.accepts (create_role g))) [
        | inl y ↦
            rw (e, y)
              (save_config-IsValid db.update_ok s g
                (record cfg { mute_role_id = some a.created_role }) v)
        | inr n ↦ rw (e, n) v
      ]
    ]

mute_by-IsValid :
    (w : World) (db : Database) (g author target : ℕ) (given : Text) (expires : ℤ) (role : Option ℕ)
    (before : List Call) (s : Store)
    → db.case_ok ≡ true
    → IsValid s
    → IsValid (mute_by w db g author target given expires role before s).store
mute_by-IsValid w db g author target given expires none before s ok v = v
mute_by-IsValid w db g author target given expires (some role) before s ok v =
    attempt_keeps IsValid w (add_member_role g target role) s _ v (
      timed_case-IsValid w db s g (text "mute") (text "mute") target author given expires ok refl v)

pub mute-IsValid :
    (w : World) (db : Database) (a : GuildAnswers) (s : Store) (g author target : ℕ)
    (parsed : Option ℕ) (given : Text)
    → db.case_ok ≡ true
    → IsValid s
    → IsValid (mute w db a s g author target parsed given).store
unfolding mute
mute-IsValid w db a s g author target parsed given ok v =
    let r = ensure_mute_role w db a s g in
    unless_keeps IsValid (guard w g author target (text "mute")) s _ v (
      with_expiry_keeps IsValid (later w parsed) s _ v (λ expiry.
        mute_by-IsValid w db g author target (default_reason given) (pos (seconds expiry)) r.role
          r.calls r.store ok (ensure_mute_role-IsValid w db a s g v)))

-- ---- the sweeper ----

pub after_role-IsValid :
    (a : RowAnswers) (t : Turn) (key : Key) (row : Timed) (p : Option ℕ × RoleCache)
    → a.delete_ok ≡ true
    → IsValid t.store
    → IsValid (after_role a t key row p).store
after_role-IsValid a t key row (role, cache) ok v =
    elim (Bool-cases (retried (result_of a.lift (lift_call role key row)))) [
      | inl e ↦ rw (after_role, e) v
      | inr e ↦ rw (after_role, e, settle, ok) (settled-IsValid a.update_ok key t.store v)
    ]
