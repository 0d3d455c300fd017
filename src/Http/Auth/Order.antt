-- ===== src/Http/Auth/Order.antt =====
-- src/http/auth.rs, `auth_middleware`: what a request must bring, and what one without it costs.
use benny_rs.Base.{
  ℕ, ◌≡◌, refl, sym, ap, ◌∙◌, Bool, true, false, Option, none, some, List, if◌then◌else◌, arith,
  Bool-cases, inl, inr,
}
use benny_rs.Base.Equality.{nat_eq, list_beq_iff}
use benny_rs.Base.Text.{Text, is}
use benny_rs.Http.Auth.{
  Clock, allow, Request, passed, Limiters, bearer, actor_of, is_blacklisted, within_limits,
  after_limits, after_actor, after_token, auth_middleware,
}

-- What a request that is passed on brings, with the answers of the two limits.
abbrev pub Entitled :
    (expected : Text) (l : Limiters) (c c' : Clock) (db_ok : Bool) (users : List (ℕ × Bool))
    → Request
    → (actor : ℕ) → Type 0
Entitled expected l c c' db_ok users r actor =
    (bearer r ≡ some expected)
    × (actor_of r ≡ some actor)
    × ((allow l.shared 0 c).0 ≡ true)
    × ((allow l.per_actor actor c').0 ≡ true)
    × (is_blacklisted db_ok users actor ≡ false)

limits_passed :
    (l : Limiters) (c c' : Clock) (black : ℕ → Bool) (claimed actor : ℕ)
    → (after_limits (black claimed) claimed (within_limits l claimed c c')).0 ≡ passed actor
    → (claimed ≡ actor)
      × ((allow l.shared 0 c).0 ≡ true)
      × ((allow l.per_actor claimed c').0 ≡ true)
      × (black claimed ≡ false)
limits_passed l c c' black claimed actor h = ground arith

actor_passed :
    (l : Limiters) (c c' : Clock) (black : ℕ → Bool) (o : Option ℕ) (actor : ℕ)
    → (after_actor l c c' black o).0 ≡ passed actor
    → (o ≡ some actor)
      × ((allow l.shared 0 c).0 ≡ true)
      × ((allow l.per_actor actor c').0 ≡ true)
      × (black actor ≡ false)
actor_passed l c c' black none actor h = ground arith
actor_passed l c c' black (some claimed) actor h =
    let (same, a, b, d) = limits_passed l c c' black claimed actor h in
    (ap some same, a, rw (sym same) b, rw (sym same) d)

token_passed :
    (expected : Text) (l : Limiters) (c c' : Clock) (db_ok : Bool) (users : List (ℕ × Bool))
    (r : Request) (o : Option Text) (actor : ℕ)
    → bearer r ≡ o
    → (after_token l c c' (is_blacklisted db_ok users) r expected o).0 ≡ passed actor
    → Entitled expected l c c' db_ok users r actor
token_passed expected l c c' db_ok users r none actor e h = ground arith
token_passed expected l c c' db_ok users r (some provided) actor e h =
    elim (Bool-cases (is provided expected)) [
      | inl y ↦
          let same : provided ≡ expected = (list_beq_iff provided expected).0 y in
          let black = is_blacklisted db_ok users in
          let on : after_token l c c' black r expected (some provided)
              ≡ after_actor l c c' black (actor_of r) =
            rw (after_token, y) refl in
          let rest = actor_passed l c c' black (actor_of r) actor (ap (λ p. p.0) (sym on) ∙ h) in
          (e ∙ ap some same, rest.0, rest.1, rest.2, rest.3)
      | inr n ↦ ground arith
    ]

-- A request that is passed on as an actor's brings the configured token and that actor's id, both
-- limiters admit it, and the actor is not blacklisted as far as the database answers.
pub passed-Entitled :
    (expected : Text) (l : Limiters) (c c' : Clock) (db_ok : Bool) (users : List (ℕ × Bool))
    (r : Request) (actor : ℕ)
    → (auth_middleware (some expected) l c c' db_ok users r).0 ≡ passed actor
    → Entitled expected l c c' db_ok users r actor
unfolding auth_middleware
passed-Entitled expected l c c' db_ok users r actor h =
    token_passed expected l c c' db_ok users r (bearer r) actor refl h

-- The token and the actor that a request names, where the token is right.
abbrev pub named : (expected : Text) → Request → Option Text → Option ℕ
named expected r none = none
named expected r (some provided) = if is provided expected then actor_of r else none

unnamed_after_token :
    (expected : Text) (l : Limiters) (c c' : Clock) (black : ℕ → Bool) (r : Request)
    (o : Option Text)
    → named expected r o ≡ none
    → (after_token l c c' black r expected o).1 ≡ l
unnamed_after_token expected l c c' black r none h = refl
unnamed_after_token expected l c c' black r (some provided) h =
    elim (Bool-cases (is provided expected)) [
      | inl y ↦
          let nobody : actor_of r ≡ none = ground arith in
          rw (after_token, y, nobody, after_actor) refl
      | inr n ↦ rw (after_token, n) refl
    ]

-- A request without the configured token, or without the id of an actor, leaves both limiters as
-- they were.
pub unnamed_unspent :
    (expected : Text) (l : Limiters) (c c' : Clock) (db_ok : Bool) (users : List (ℕ × Bool))
    (r : Request)
    → named expected r (bearer r) ≡ none
    → (auth_middleware (some expected) l c c' db_ok users r).1 ≡ l
unfolding auth_middleware
unnamed_unspent expected l c c' db_ok users r h =
    unnamed_after_token expected l c c' (is_blacklisted db_ok users) r (bearer r) h
