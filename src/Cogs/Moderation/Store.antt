-- ===== src/Cogs/Moderation/Store.antt =====
-- src/cogs/moderation.rs, `create_case`, `record_timed` and `fallback_case_number`: the tables of
-- moderation (src/entities/mod_cases.rs, mod_timed.rs, mod_config.rs) and how rows enter them.
-- Whether a statement reaches the database is an argument.
pub mod Numbers
pub mod Collision
use benny_rs.Base.{ℕ, ◌+◌, Bool, true, Option, none, some, List, if◌then◌else◌}
use benny_rs.Base.Int.{ℤ}
use benny_rs.Base.Equality.{nat_eq, pair_eq}
use benny_rs.Base.Dict.{insert}
use benny_rs.Base.Tables.{insert_new, highest}
use benny_rs.Base.Text.{Text}

-- The primary key of a case and of a timed infraction: the guild and the case's number.
abbrev pub Key : Type 0
Key = ℕ × ℕ

pub record Case : Type 0 where
  pub action_type : Text
  pub target_id : ℕ
  pub moderator_id : ℕ
  pub reason : Text
  pub created_at : ℕ
  pub active : Bool
  pub expires_at : Option ℤ

pub record Timed : Type 0 where
  pub user_id : ℕ
  pub action : Text
  pub expires_at : ℤ

pub record Config : Type 0 where
  pub mute_role_id : Option ℕ
  pub warn_threshold : ℤ
  pub warn_action : Text
  pub warn_timeout_secs : ℤ

pub record Store : Type 0 where
  pub cases : List (Key × Case)
  pub timed : List (Key × Timed)
  pub configs : List (ℕ × Config)

-- From the `INSERT` on.
abbrev pub stored : Store → ℕ → Option (List (Key × Case)) → Option ℕ × Store
stored s n none = (none, s)
stored s n (some cases) = (some n, record s { cases = cases })

-- `ok` is whether the transaction's statements reach the database and it commits.
unfoldable pub create_case :
    (ok : Bool) (now : ℕ)
    → Store
    → (guild_id : ℕ) (action_type : Text) (target_id moderator_id : ℕ) (reason : Text)
      (expires_at : Option ℤ)
    → Option ℕ × Store
create_case ok now s guild_id action_type target_id moderator_id reason expires_at =
    let case_number = highest guild_id s.cases + 1 in
    let row : Case = record {
      action_type = action_type;
      target_id = target_id;
      moderator_id = moderator_id;
      reason = reason;
      created_at = now;
      active = true;
      expires_at = expires_at;
    } in
    if ok then stored s case_number (insert_new (guild_id, case_number) row s.cases) else (none, s)

-- `ok` is whether the query answers: a failed one reads as no row.
unfoldable pub fallback_case_number : (ok : Bool) → Store → (guild_id : ℕ) → ℕ
fallback_case_number ok s guild_id = (if ok then highest guild_id s.timed else 0) + 1

abbrev pub case_number_of : (scan_ok : Bool) → Store → (guild_id : ℕ) → Option ℕ → ℕ
case_number_of scan_ok s guild_id (some c) = c
case_number_of scan_ok s guild_id none = fallback_case_number scan_ok s guild_id

-- An upsert: every column that is no part of the key is overwritten.
unfoldable pub record_timed :
    (scan_ok write_ok : Bool)
    → Store
    → (guild_id : ℕ) (case : Option ℕ) (target_id : ℕ) (action : Text) (expires_ts : ℤ) → Store
unfolding fallback_case_number
record_timed scan_ok write_ok s guild_id case target_id action expires_ts =
    let row : Timed = record { user_id = target_id; action = action; expires_at = expires_ts } in
    let number = case_number_of scan_ok s guild_id case in
    if write_ok then record s { timed = insert (guild_id, number) row s.timed } else s
