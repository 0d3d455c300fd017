-- ===== src/Utils/RateLimit/Spacing.antt =====
-- src/utils/ratelimit.rs, `check`, over a sequence of calls.
use benny_rs.Base.{
  ℕ, suc, ◌+◌, ◌-◌, ◌≤◌, ◌<◌, ◌≡◌, List, [], ◌∷◌, Option, none, some, arith, Bool, ◌&&◌, inl, inr,
  if◌then◌else◌, length, Option-cases, Bool-cases, ltb, true, false, refl,
}
use benny_rs.Base.Equality.{Eq}
use benny_rs.Base.Dict.{lookup}
use benny_rs.Utils.Cache.{bounded_insert}
use benny_rs.Utils.Cache.Laws.{lookup-bounded_insert_room, length-bounded_insert_room}
use benny_rs.Utils.RateLimit.{RateLimiter, admit, check}

-- Each time is at least a window after the one before it, `prev` being the last before the list.
abbrev pub SpacedAfter : ℕ → Option ℕ → List ℕ → Type 0
SpacedAfter window prev [] = Unit
SpacedAfter window none (t ∷ ts) = SpacedAfter window (some t) ts
SpacedAfter window (some p) (t ∷ ts) = (p + window ≤ t) × SpacedAfter window (some t) ts

abbrev passed : Option ℕ → Bool
passed none = true
passed (some _) = false

SpacedAfter-cons :
    (window t : ℕ) (prev : Option ℕ) (ts : List ℕ)
    → 0 < window
    → ((p : ℕ) → prev ≡ some p → window ≤ t - p)
    → SpacedAfter window (some t) ts
    → SpacedAfter window prev (t ∷ ts)
SpacedAfter-cons window t none ts pos h s = s
SpacedAfter-cons window t (some p) ts pos h s = (omega (arith, h p refl), s)

module _ {ℓ} {K : Type ℓ} ⦃e : Eq K⦄ where
  -- The times at which calls for `k` pass, in a sequence of calls for any keys.
  pub admissions : RateLimiter K → ℕ → K → List (K × ℕ) → List ℕ
  admissions r window k [] = []
  admissions r window k ((j, t) ∷ calls) =
      let (answer, r') = check r j window t t in
      let rest = admissions r' window k calls in
      if passed answer && e.beq j k then t ∷ rest else rest

  -- One call: refused, with the limiter as it was, or passed, with the new time found under its key
  -- and all else as before.
  data Checked (r : RateLimiter K) (window : ℕ) (j : K) (t : ℕ)
      : Option ℕ × RateLimiter K → Type ℓ where
    refused : (left : ℕ) → Checked r window j t (some left, r)
    let_through :
        (r' : RateLimiter K)
        → r'.cap ≡ r.cap
        → length r'.last ≤ length r.last + 1
        → ((i : K) → lookup i r'.last ≡ (if e.beq j i then some t else lookup i r.last))
        → ((p : ℕ) → lookup j r.last ≡ some p → window ≤ t - p)
        → Checked r window j t (none, r')

  check-Checked :
      (r : RateLimiter K) (window : ℕ) (j : K) (t : ℕ)
      → length r.last < r.cap
      → Checked r window j t (check r j window t t)
  unfolding check admit
  check-Checked r window j t room = elim (Option-cases (lookup j r.last)) [
    | inl fresh ↦ rw (fresh, check) (through (λ p q. absurd (ground arith)))
    | inr (prev, known) ↦ elim (Bool-cases (ltb (t - prev) window)) [
      | inl soon ↦ rw (known, check, soon) (refused (window - (t - prev)))
      | inr late ↦ rw (known, check, late) (through (λ p q. ground arith))
    ]
  ]
    where
      through :
          ((p : ℕ) → lookup j r.last ≡ some p → window ≤ t - p)
          → Checked r window j t (none, record r { last = bounded_insert r.last j t r.cap })
      through h =
          let_through (record r { last = bounded_insert r.last j t r.cap }) refl
            (length-bounded_insert_room r.last j t r.cap room)
            (λ i. lookup-bounded_insert_room r.last j i t r.cap room) h

  admissions-cons :
      (r : RateLimiter K) (window : ℕ) (k j : K) (t : ℕ) (calls : List (K × ℕ))
      (out : Option ℕ × RateLimiter K)
      → 0 < window
      → Checked r window j t out
      → SpacedAfter window (lookup k out.1.last) (admissions out.1 window k calls)
      → SpacedAfter window (lookup k r.last) (
          if passed out.0 && e.beq j k
          then t ∷ admissions out.1 window k calls
          else admissions out.1 window k calls)
  admissions-cons r window k j t calls _ pos (refused left) ih = ih
  admissions-cons r window k j t calls _ pos (let_through r' c l found w) ih =
      elim (Bool-cases (e.beq j k)) [
        | inl same ↦ rw same (
            SpacedAfter-cons window t (lookup k r.last) _ pos
              (λ p q. w p (rw ((e.beq_iff j k).0 same) q)) (rw (found k, same) at ih))
        | inr other ↦ rw other (rw (found k, other) at ih)
      ]

  Checked-room :
      {r : RateLimiter K} {window : ℕ} {j : K} {t : ℕ} (n : ℕ) {out : Option ℕ × RateLimiter K}
      → length r.last + suc n ≤ r.cap
      → Checked r window j t out
      → length out.1.last + n ≤ out.1.cap
  Checked-room n room (refused left) = omega arith
  Checked-room n room (let_through r' c l found w) = omega arith

  -- Over any sequence of calls, each at one reading of the clock, whose number fits the room that
  -- is left in the map, with a positive window, the times at which one key passes lie a whole
  -- window apart, the first of them a window after the time on record, if there is one.
  pub admissions-SpacedAfter :
      (r : RateLimiter K) (window : ℕ) (k : K) (calls : List (K × ℕ))
      → 0 < window
      → length r.last + length calls ≤ r.cap
      → SpacedAfter window (lookup k r.last) (admissions r window k calls)
  unfolding admissions
  admissions-SpacedAfter r window k [] pos room = tt
  admissions-SpacedAfter r window k ((j, t) ∷ calls) pos room =
      let step = check-Checked r window j t (omega arith) in
      admissions-cons r window k j t calls (check r j window t t) pos step (
        admissions-SpacedAfter (check r j window t t).1 window k calls pos
          (Checked-room (length calls) room step))
