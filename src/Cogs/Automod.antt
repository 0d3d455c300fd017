-- ===== src/Cogs/Automod.antt =====
-- src/cogs/automod.rs: the message filters, the sliding windows of messages and joins, and the two
-- event handlers. `Utc::now().timestamp()` is a number of seconds, an `Instant` one of nanoseconds.
pub mod Window
pub mod Spam
pub mod Size
pub mod Handlers
use benny_rs.Base.{
  ℕ, zero, suc, ◌+◌, ◌-◌, ◌*◌, ◌/◌, ◌^◌, Bool, true, false, not, ◌&&◌, ◌||◌, Option, none, some,
  List, [], ◌∷◌, ◌++◌, ltb, leb, if◌then◌else◌, length,
}
use benny_rs.Base.Int.{ℤ, pos, negsuc, ◌+ℤ◌, ◌-ℤ◌, ltb_ℤ}
use benny_rs.Base.Equality.{Eq, nat_eq, pair_eq}
use benny_rs.Base.Dict.{lookup, insert, remove, contains_key}
use benny_rs.Base.Text.{Text, text, is, contains}
use benny_rs.Utils.RateLimit.{RateLimiter, check}

-- The columns of `automod_config` that the handlers read.
pub record Config : Type 0 where
  pub enabled : Bool
  pub log_channel_id : Option ℤ
  pub anti_invite : Bool
  pub anti_link : Bool
  pub mention_limit : ℤ
  pub spam_msgs : ℤ
  pub spam_secs : ℤ
  pub punishment : Text
  pub timeout_secs : ℤ
  pub raid_enabled : Bool
  pub raid_joins : ℤ
  pub raid_secs : ℤ
  pub min_account_age_days : ℤ
  pub raid_action : Text

-- ---- windows ----

-- The `while` loop on the front of the queue: `now - t >= secs` pops it.
abbrev pub stale : ℕ → ℤ → ℕ → Bool
stale now secs t = not (ltb_ℤ (pos now -ℤ pos t) secs)

unfoldable pub expire : ℕ → ℤ → List ℕ → List ℕ
unfolding ◌-ℤ◌
expire now secs [] = []
expire now secs (t ∷ w) = let rest = expire now secs w in if stale now secs t then rest else t ∷ w

abbrev pub first_key {ℓ κ} : {K : Type ℓ} {V : Type κ} → List (K × V) → Option K
first_key [] = none
first_key ((k, v) ∷ m) = some k

module _ {ℓ κ} {K : Type ℓ} {V : Type κ} ⦃e : Eq K⦄ where
  -- The victim is the first key in the map's order of iteration.
  unfoldable pub evict_if_full : List (K × V) → K → ℕ → List (K × V)
  evict_if_full m key cap =
      if leb cap (length m) && not (contains_key key m)
      then elim (first_key m) [ none ↦ m | some victim ↦ remove victim m ]
      else m

module _ {ℓ} {K : Type ℓ} ⦃e : Eq K⦄ where
  -- `entry(key).or_default()`
  abbrev pub window_of : K → List (K × List ℕ) → List ℕ
  window_of key m = elim (lookup key m) [ none ↦ [] | some w ↦ w ]

  -- The window of a key after an event at `now`, and the map with it.
  unfoldable pub slide : List (K × List ℕ) → K → ℕ → ℤ → ℕ → List ℕ × List (K × List ℕ)
  unfolding expire evict_if_full
  slide m key now secs cap =
      let room = evict_if_full m key cap in
      let w = expire now secs (window_of key room ++ now ∷ []) in (w, insert key w room)

abbrev pub msg_window_cap : ℕ
msg_window_cap = 50000

abbrev pub join_window_cap : ℕ
join_window_cap = 10000

abbrev pub Windows : Type 0
Windows = List ((ℕ × ℕ) × List ℕ)

unfoldable pub is_spamming : Config → Windows → ℕ → ℕ → ℕ → Bool × Windows
unfolding slide
is_spamming cfg m gid uid now =
    if not (ltb_ℤ (pos 0) cfg.spam_msgs) || not (ltb_ℤ (pos 0) cfg.spam_secs)
    then (false, m)
    else let (w, m') = slide m (gid, uid) now cfg.spam_secs msg_window_cap in
      (not (ltb_ℤ (pos (length w)) cfg.spam_msgs), m')
