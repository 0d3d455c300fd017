-- ===== src/Http/Auth.antt =====
-- src/http/auth.rs: `RateLimiter::allow` and `auth_middleware`.
pub mod Budget
pub mod Order
use benny_rs.Base.{
  ℕ, ◌+◌, ◌-◌, ◌*◌, ◌%◌, ◌^◌, Bool, true, false, not, ◌&&◌, ◌||◌, Option, none, some, List, [], ◌∷◌,
  leb, if◌then◌else◌, length,
}
use benny_rs.Base.Equality.{nat_eq}
use benny_rs.Base.Dict.{lookup, insert, remove, contains_key, keys}
use benny_rs.Base.Text.{Text, text, is, trim, strip_prefix, parse_unsigned}

-- An entry is the start of its window, and the hits in it.
abbrev pub Entry : Type 0
Entry = ℕ × ℕ

pub record RateLimiter : Type 0 where
  pub window : ℕ
  pub max : ℕ
  pub cap : ℕ
  pub hits : List (ℕ × Entry)

-- The readings of the clock during a call, in their order: for a new entry, for the time elapsed, and
-- for a new window.
pub record Clock : Type 0 where
  pub inserted : ℕ
  pub read : ℕ
  pub reset : ℕ

-- `iter().next()` is the head of the map, whose order is that of the iteration.
abbrev pub remove_first : List (ℕ × Entry) → List (ℕ × Entry)
remove_first [] = []
remove_first ((k, e) ∷ m) = remove k ((k, e) ∷ m)

abbrev pub make_room : RateLimiter → (key : ℕ) → List (ℕ × Entry)
make_room l key =
    if leb l.cap (length l.hits) && not (contains_key key l.hits)
    then remove_first l.hits
    else l.hits

abbrev pub or_insert : Option Entry → (inserted : ℕ) → Entry
or_insert none inserted = (inserted, 0)
or_insert (some e) inserted = e

-- The entry after a hit; the count is a `u32`.
abbrev pub hit : (window : ℕ) → Clock → Entry → Entry
hit window c e =
    let current : Entry = if leb window (c.read - e.0) then (c.reset, 0) else e in
    (current.0, (current.1 + 1) % 2 ^ 32)

unfoldable pub allow : RateLimiter → (key : ℕ) → Clock → Bool × RateLimiter
allow l key c =
    let hits = make_room l key in
    let e = hit l.window c (or_insert (lookup key hits) c.inserted) in
    (leb e.1 l.max, record l { hits = insert key e hits })

-- ---- the middleware ----

-- The headers that are read, where they are texts.
pub record Request : Type 0 where
  pub authorization : Option Text
  pub actor_id : Option Text

pub data Verdict : Type 0 where
  passed : (actor : ℕ) → Verdict
  not_found unauthorized bad_request too_many_requests forbidden : Verdict

pub record Limiters : Type 0 where
  pub shared : RateLimiter
  pub per_actor : RateLimiter

abbrev trimmed : Option Text → Option Text
trimmed none = none
trimmed (some t) = some (trim t)

abbrev bearer_in : Option Text → Option Text
bearer_in none = none
bearer_in (some t) = trimmed (strip_prefix (text "Bearer ") t)

unfoldable pub bearer : Request → Option Text
unfolding trim
bearer r = bearer_in r.authorization

abbrev actor_in : Option Text → Option ℕ
actor_in none = none
actor_in (some t) = parse_unsigned (2 ^ 64) (trim t)

unfoldable pub actor_of : Request → Option ℕ
unfolding trim parse_unsigned
actor_of r = actor_in r.actor_id

-- The row of a user; a failed query reads as no row.
abbrev pub is_blacklisted : (ok : Bool) → List (ℕ × Bool) → (user_id : ℕ) → Bool
is_blacklisted ok users user_id = elim (if ok then lookup user_id users else none) [
  | none ↦ false
  | some blacklisted ↦ blacklisted
]

abbrev pub admit : (blacklisted : Bool) → (actor : ℕ) → Verdict
admit blacklisted actor = if blacklisted then forbidden else passed actor

-- The limits, the shared one first: where it refuses, the other is not asked.
abbrev pub within_limits : Limiters → (actor : ℕ) → Clock → Clock → Bool × Limiters
within_limits l actor c c' =
    let (shared_ok, shared) = allow l.shared 0 c in
    let (actor_ok, per_actor) = allow l.per_actor actor c' in
    if shared_ok
    then (actor_ok, record { shared = shared; per_actor = per_actor })
    else (false, record { shared = shared; per_actor = l.per_actor })

-- From the limits on.
abbrev pub after_limits : (blacklisted : Bool) → (actor : ℕ) → Bool × Limiters → Verdict × Limiters
after_limits blacklisted actor (ok, l) =
    (if ok then admit blacklisted actor else too_many_requests, l)

abbrev pub after_actor :
    Limiters → Clock → Clock → (blacklisted : ℕ → Bool) → Option ℕ → Verdict × Limiters
after_actor l c c' blacklisted none = (bad_request, l)
after_actor l c c' blacklisted (some actor) =
    after_limits (blacklisted actor) actor (within_limits l actor c c')

abbrev pub after_token :
    Limiters
    → Clock
    → Clock
    → (blacklisted : ℕ → Bool) → Request
    → (expected : Text) → Option Text
    → Verdict × Limiters
after_token l c c' blacklisted r expected none = (unauthorized, l)
after_token l c c' blacklisted r expected (some provided) =
    if is provided expected then after_actor l c c' blacklisted (actor_of r) else (unauthorized, l)

-- `expected` is the configured token. Two readings of the clock, one for each limiter.
unfoldable pub auth_middleware :
    (expected : Option Text)
    → Limiters
    → Clock
    → Clock
    → (db_ok : Bool) (users : List (ℕ × Bool)) → Request
    → Verdict × Limiters
unfolding bearer actor_of allow
auth_middleware none l c c' db_ok users r = (not_found, l)
auth_middleware (some expected) l c c' db_ok users r =
    after_token l c c' (is_blacklisted db_ok users) r expected (bearer r)
