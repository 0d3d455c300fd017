-- ===== src/Cogs/Moderation/Channels.antt =====
-- src/cogs/moderation.rs: `set_channel_lock`, with the commands `lock` and `unlock`, and `purge`.
-- A set of permissions is the test of its members; the flags are those of `serenity`.
pub mod Flags
use benny_rs.Base.{
  ℕ, ◌+◌, ◌*◌, ◌≤◌, ◌<◌, ◌≡◌, refl, sym, ap, ◌∙◌, Bool, true, false, not, ◌&&◌, ◌||◌, Option, none,
  some, List, [], ◌∷◌, length, take, if◌then◌else◌, ◌==◌, ltb, arith, map,
}

module _ (Flag : Type 0) where
  abbrev pub Permissions : Type 0
  Permissions = Flag → Bool

  -- The overwrite of the role of everyone: what it allows, and what it denies.
  pub record Overwrite : Type 0 where
    pub allow : Permissions
    pub deny : Permissions

  abbrev pub no_overwrite : Overwrite
  no_overwrite = record { allow = λ f. false; deny = λ f. false }

  abbrev pub found : Option Overwrite → Overwrite
  found none = no_overwrite
  found (some o) = o

  -- `send` is the union of the two flags to send messages.
  abbrev pub set_channel_lock : (send : Permissions) → Option Overwrite → (lock : Bool) → Overwrite
  set_channel_lock send o true = record {
    allow = λ f. (found o).allow f && not (send f);
    deny = λ f. (found o).deny f || send f;
  }
  set_channel_lock send o false = record {
    allow = (found o).allow;
    deny = λ f. (found o).deny f && not (send f);
  }

pub record Message : Type 0 where
  pub id : ℕ
  pub author : ℕ
  pub timestamp : ℕ

pub data Deletion : Type 0 where
  nothing_recent : Deletion
  delete_message : ℕ → Deletion
  delete_messages : List ℕ → Deletion

-- `iter().filter(..)`
abbrev pub filter : (Message → Bool) → List Message → List Message
filter p [] = []
filter p (m ∷ ms) = let rest = filter p ms in if p m then m ∷ rest else rest

abbrev pub by_member : Option ℕ → Message → Bool
by_member none m = true
by_member (some user) m = m.author == user

-- `m.timestamp > now - 14 days`, in the integers
abbrev pub recent : (now : ℕ) → Message → Bool
recent now m = ltb now (m.timestamp + 14 * 24 * 60 * 60)

abbrev pub purge_targets : (now count : ℕ) → (member : Option ℕ) → List Message → List ℕ
purge_targets now count member msgs =
    map (λ m. m.id) (take count (filter (recent now) (filter (by_member member) msgs)))

abbrev pub deletion : List ℕ → Deletion
deletion [] = nothing_recent
deletion (id ∷ []) = delete_message id
deletion (id ∷ (id' ∷ ids)) = delete_messages (id ∷ (id' ∷ ids))

unfoldable pub purge : (now count : ℕ) → (member : Option ℕ) → List Message → Deletion
purge now count member msgs = deletion (purge_targets now count member msgs)
