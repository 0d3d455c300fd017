-- ===== src/Http/Auth/Budget.antt =====
-- src/http/auth.rs, `RateLimiter::allow`: how many calls of one key a span of time admits.
use benny_rs.Base.{
  ℕ, suc, ◌+◌, ◌-◌, ◌%◌, ◌^◌, ◌≤◌, ◌<◌, ◌≡◌, refl, ap, ◌∙◌, Bool, true, false, List, [], ◌∷◌, leb,
  ◌==◌, length, arith, Bool-cases, inl, inr,
}
use benny_rs.Base.Equality.{nat_eq}
use benny_rs.Http.Auth.{Entry, RateLimiter, Clock, make_room, hit, allow}

-- One call that is admitted.
abbrev tally : Bool → ℕ → ℕ
tally true n = suc n
tally false n = n

-- The calls that a key's calls admit, one after another.
unfoldable pub admitted : RateLimiter → (key : ℕ) → List Clock → ℕ
unfolding allow
admitted l key [] = 0
admitted l key (c ∷ cs) =
    let (ok, l') = allow l key c in let rest = admitted l' key cs in tally ok rest

-- The same for one entry.
abbrev admitted_entry : (window limit : ℕ) → Entry → List Clock → ℕ
admitted_entry window limit e [] = 0
admitted_entry window limit e (c ∷ cs) =
    let e' = hit window c e in
    let rest = admitted_entry window limit e' cs in tally (leb e'.1 limit) rest

-- Every reading lies between two times.
abbrev pub Within : (a b : ℕ) → List Clock → Type 0
Within a b [] = Unit
Within a b (c ∷ cs) = (a ≤ c.inserted) × (c.read ≤ b) × (a ≤ c.reset) × Within a b cs

mod_small : (n : ℕ) → n < 2 ^ 32 → n % 2 ^ 32 ≡ n
mod_small n h = omega arith

-- A window that starts in the span is not left in it.
admitted_inside :
    (window limit a b : ℕ) (s n : ℕ) (cs : List Clock)
    → a ≤ b
    → b < a + window
    → a ≤ s
    → n + length cs < 2 ^ 32
    → Within a b cs
    → admitted_entry window limit (s, n) cs ≤ limit - n
admitted_inside window limit a b s n [] span short here few w = omega arith
admitted_inside window limit a b s n (c ∷ cs) span short here few (i, r, t, w) =
    let stays : leb window (c.read - s) ≡ false = ground arith in
    let count : (n + 1) % 2 ^ 32 ≡ n + 1 = mod_small (n + 1) (omega arith) in
    let rest = admitted_inside window limit a b s (n + 1) cs span short here (omega arith) w in
    rw (admitted_entry, hit, stays, count) (ground (arith, rest))

-- At most one new window starts.
admitted_twice :
    (window limit a b : ℕ) (s n : ℕ) (cs : List Clock)
    → a ≤ b
    → b < a + window
    → n + length cs < 2 ^ 32
    → Within a b cs
    → admitted_entry window limit (s, n) cs ≤ limit - n + limit
admitted_twice window limit a b s n [] span short few w = omega arith
admitted_twice window limit a b s n (c ∷ cs) span short few (i, r, t, w) =
    elim (Bool-cases (leb window (c.read - s))) [
      | inl e ↦
          let rest = admitted_inside window limit a b c.reset 1 cs span short t (omega arith) w in
          rw (admitted_entry, hit, e) (ground (arith, rest))
      | inr e ↦
          let count : (n + 1) % 2 ^ 32 ≡ n + 1 = mod_small (n + 1) (omega arith) in
          let rest = admitted_twice window limit a b s (n + 1) cs span short (omega arith) w in
          rw (admitted_entry, hit, e, count) (ground (arith, rest))
    ]

-- A map that holds the key's entry alone behaves as the entry.
alone :
    (l : RateLimiter) (key : ℕ) (e : Entry) (cs : List Clock)
    → l.hits ≡ (key, e) ∷ []
    → admitted l key cs ≡ admitted_entry l.window l.max e cs
unfolding admitted allow
alone l key e [] h = refl
alone l key e (c ∷ cs) h =
    let self : (key == key) ≡ true = ground arith in
    let room : make_room l key ≡ (key, e) ∷ [] = rw (make_room, h) (ground arith) in
    let e' = hit l.window c e in
    let l' : RateLimiter = record l { hits = (key, e') ∷ [] } in
    let next : allow l key c ≡ (leb e'.1 l.max, l') = rw (allow, room) (ground (arith, self)) in
    ap (λ p. tally p.0 (admitted p.1 key cs)) next
    ∙ ap (tally (leb e'.1 l.max)) (alone l' key e' cs refl)

-- In a span of time shorter than a window, a key that is alone in its limiter has at most its
-- budget admitted beside what is left of the window under way, for fewer than 2^32 hits.
pub admitted-twice :
    (l : RateLimiter) (key a b s n : ℕ) (cs : List Clock)
    → l.hits ≡ (key, (s, n)) ∷ []
    → a ≤ b
    → b < a + l.window
    → n + length cs < 2 ^ 32
    → Within a b cs
    → admitted l key cs ≤ l.max - n + l.max
admitted-twice l key a b s n cs h span short few w =
    rw (alone l key (s, n) cs h) (admitted_twice l.window l.max a b s n cs span short few w)
