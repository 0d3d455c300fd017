-- ===== src/Cogs/Automod/Window.antt =====
-- src/cogs/automod.rs: the window of one key, against the events of the last seconds.
use benny_rs.Base.{
  ℕ, ◌+◌, ◌<◌, ◌≤◌, ◌≡◌, refl, sym, ap, ◌∙◌, not, List, [], ◌∷◌, ◌++◌, ltb, if◌then◌else◌, arith,
  append_assoc, append-nil, Bool-cases, inl, inr,
}
use benny_rs.Base.Int.{ℤ, pos, ◌-ℤ◌}
use benny_rs.Cogs.Automod.{stale, expire}

-- The times that lie less than `secs` before `now`.
pub recent : ℕ → ℕ → List ℕ → List ℕ
recent now secs [] = []
recent now secs (t ∷ ts) =
    let rest = recent now secs ts in if ltb now (t + secs) then t ∷ rest else rest

-- Times that never go back, from `low` on.
abbrev pub Ascending : ℕ → List ℕ → Type 0
Ascending low [] = Unit
Ascending low (t ∷ ts) = (low ≤ t) × Ascending t ts

stale-recent : (now secs t : ℕ) → stale now (pos secs) t ≡ not (ltb now (t + secs))
unfolding ◌-ℤ◌
stale-recent now secs t = ground arith

recent_whole :
    (now secs low : ℕ) (ts : List ℕ) → now < low + secs → Ascending low ts → recent now secs ts ≡ ts
unfolding recent
recent_whole now secs low [] h a = refl
recent_whole now secs low (t ∷ ts) h a =
    let rest : recent now secs ts ≡ ts = recent_whole now secs t ts (omega arith) a.1 in
    ground arith

expire-recent :
    (now secs low : ℕ) (ts : List ℕ)
    → Ascending low ts
    → expire now (pos secs) ts ≡ recent now secs ts
unfolding expire recent
expire-recent now secs low [] a = refl
expire-recent now secs low (t ∷ ts) a =
    ground (arith, stale-recent now secs t, expire-recent now secs t ts, recent_whole now secs t ts)

Ascending-lower : (low high : ℕ) (ts : List ℕ) → low ≤ high → Ascending high ts → Ascending low ts
Ascending-lower low high [] h a = tt
Ascending-lower low high (t ∷ ts) h a = (omega arith, a.1)

recent-Ascending :
    (now secs low : ℕ) (ts us : List ℕ)
    → Ascending low (ts ++ us)
    → Ascending low (recent now secs ts ++ us)
unfolding recent
recent-Ascending now secs low [] us a = a
recent-Ascending now secs low (t ∷ ts) us a =
    let rest = recent-Ascending now secs t ts us a.1 in
    elim (Bool-cases (ltb now (t + secs))) [
      | inl fresh ↦ rw fresh (a.0, rest)
      | inr old ↦ rw old (Ascending-lower low t (recent now secs ts ++ us) a.0 rest)
    ]

recent-append :
    (now secs : ℕ) (ts us : List ℕ)
    → recent now secs (ts ++ us) ≡ recent now secs ts ++ recent now secs us
unfolding recent
recent-append now secs [] us = refl
recent-append now secs (t ∷ ts) us = ground (arith, recent-append now secs ts us)

recent-recent :
    (now later secs : ℕ) (ts : List ℕ)
    → now ≤ later
    → recent later secs (recent now secs ts) ≡ recent later secs ts
unfolding recent
recent-recent now later secs [] h = refl
recent-recent now later secs (t ∷ ts) h = ground (arith, recent-recent now later secs ts)

Ascending-front : (low : ℕ) (ts us : List ℕ) → Ascending low (ts ++ us) → Ascending low ts
Ascending-front low [] us a = tt
Ascending-front low (t ∷ ts) us a = (a.0, Ascending-front t ts us a.1)

-- The window after events at these times, from a window before them.
abbrev pub window_after : ℤ → List ℕ → List ℕ → List ℕ
window_after secs w [] = w
window_after secs w (t ∷ ts) = window_after secs (expire t secs (w ++ t ∷ [])) ts

abbrev pub last_time : ℕ → List ℕ → ℕ
last_time low [] = low
last_time low (t ∷ ts) = last_time t ts

one_event :
    (secs now t : ℕ) (before : List ℕ)
    → now ≤ t
    → Ascending 0 (before ++ t ∷ [])
    → expire t (pos secs) (recent now secs before ++ t ∷ []) ≡ recent t secs (before ++ t ∷ [])
one_event secs now t before h a =
    expire-recent t secs 0 (recent now secs before ++ t ∷ [])
      (recent-Ascending now secs 0 before (t ∷ []) a)
    ∙ recent-append t secs (recent now secs before) (t ∷ [])
    ∙ ap (λ w. w ++ recent t secs (t ∷ [])) (recent-recent now t secs before h)
    ∙ sym (recent-append t secs before (t ∷ []))

-- Where the times never go back, a window of recent times holds, after any further events, just
-- the recent ones of all the times.
pub window_after-recent :
    (secs now : ℕ) (before ts : List ℕ)
    → Ascending 0 (before ++ ts)
    → Ascending now ts
    → window_after (pos secs) (recent now secs before) ts
      ≡ recent (last_time now ts) secs (before ++ ts)
window_after-recent secs now before [] a b = ap (recent now secs) (sym (append-nil before))
window_after-recent secs now before (t ∷ ts) a b =
    let joined : (before ++ t ∷ []) ++ ts ≡ before ++ t ∷ ts = append_assoc before (t ∷ []) ts in
    let a' : Ascending 0 ((before ++ t ∷ []) ++ ts) = rw joined a in
    let rest = window_after-recent secs t (before ++ t ∷ []) ts a' b.1 in
    ap (λ w. window_after (pos secs) w ts)
      (one_event secs now t before b.0 (Ascending-front 0 (before ++ t ∷ []) ts a'))
    ∙ rest
    ∙ ap (recent (last_time t ts) secs) joined

window_after-last :
    (secs : ℤ) (w ts : List ℕ) (now : ℕ)
    → window_after secs w (ts ++ now ∷ []) ≡ expire now secs (window_after secs w ts ++ now ∷ [])
window_after-last secs w [] now = refl
window_after-last secs w (t ∷ ts) now = window_after-last secs (expire t secs (w ++ t ∷ [])) ts now

last_time-append : (low : ℕ) (ts : List ℕ) (now : ℕ) → last_time low (ts ++ now ∷ []) ≡ now
last_time-append low [] now = refl
last_time-append low (t ∷ ts) now = last_time-append t ts now

-- One more event: the window that it leaves holds the recent ones, itself among them.
pub expire-window_after :
    (secs : ℕ) (ts : List ℕ) (now : ℕ)
    → Ascending 0 (ts ++ now ∷ [])
    → expire now (pos secs) (window_after (pos secs) [] ts ++ now ∷ [])
      ≡ recent now secs (ts ++ now ∷ [])
expire-window_after secs ts now a =
    sym (window_after-last (pos secs) [] ts now)
    ∙ unfold recent in
      window_after-recent secs 0 [] (ts ++ now ∷ []) a a
      ∙ ap (λ t. recent t secs (ts ++ now ∷ [])) (last_time-append 0 ts now)
