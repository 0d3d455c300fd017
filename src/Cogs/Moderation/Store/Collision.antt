-- ===== src/Cogs/Moderation/Store/Collision.antt =====
-- src/cogs/moderation.rs, `fallback_case_number`: the numbers of rows whose case was not stored.
use benny_rs.Base.{ℕ, Bool, true, some}
use benny_rs.Base.Int.{ℤ}
use benny_rs.Base.Equality.{nat_eq, pair_eq}
use benny_rs.Base.Text.{Text}
use benny_rs.Cogs.Moderation.Store.{Timed, Store, create_case, record_timed}

abbrev pub new_timed : (user_id : ℕ) (action : Text) (expires_at : ℤ) → Timed
new_timed user_id action expires_at = record {
  user_id = user_id;
  action = action;
  expires_at = expires_at;
}

-- The two steps of a timed punishment: its case, and its row.
abbrev pub punish_timed :
    (case_ok : Bool) (now : ℕ)
    → Store
    → (guild_id : ℕ) (action_type action : Text) (target_id moderator_id : ℕ) (reason : Text)
      (expires_ts : ℤ)
    → Store
punish_timed case_ok now s g action_type action target moderator reason expires_ts =
    let (case, s') =
      create_case case_ok now s g action_type target moderator reason (some expires_ts) in
    record_timed true true s' g case target action expires_ts
