-- ===== src/Cogs/Automod/Spam.antt =====
-- src/cogs/automod.rs, `is_spamming`: what the spam check counts.
use benny_rs.Base.{
  ℕ, suc, ◌+◌, ◌<◌, ◌≤◌, ◌≡◌, refl, ap, ◌∙◌, Bool, true, false, not, List, [], ◌∷◌, ◌++◌, leb,
  if◌then◌else◌, length, arith, Bool-cases, inl, inr,
}
use benny_rs.Base.Int.{ℤ, pos, ltb_ℤ}
use benny_rs.Base.Equality.{Eq, nat_eq, pair_eq}
use benny_rs.Base.Dict.{insert, lookup-insert, length-insert-le}
use benny_rs.Cogs.Automod.{
  Config, Windows, expire, evict_if_full, window_of, slide, is_spamming, msg_window_cap,
}
use benny_rs.Cogs.Automod.Window.{recent, Ascending, window_after, expire-window_after}

module _ {ℓ} {K : Type ℓ} ⦃e : Eq K⦄ where
  -- The times of the events of `k`.
  abbrev pub times : K → List (K × ℕ) → List ℕ
  times k [] = []
  times k ((j, t) ∷ calls) = let rest = times k calls in if e.beq j k then t ∷ rest else rest

  -- The map after a sequence of events.
  abbrev pub slide_all : ℤ → ℕ → List (K × List ℕ) → List (K × ℕ) → List (K × List ℕ)
  slide_all secs cap m [] = m
  slide_all secs cap m ((k, t) ∷ calls) = slide_all secs cap (slide m k t secs cap).1 calls

  evict_idle :
      (m : List (K × List ℕ)) (k : K) (cap : ℕ) → length m < cap → evict_if_full m k cap ≡ m
  unfolding evict_if_full
  evict_idle m k cap room = let below : leb cap (length m) ≡ false = ground arith in rw below refl

  window_of-insert :
      (m : List (K × List ℕ)) (j k : K) (w : List ℕ)
      → window_of k (insert j w m) ≡ (if e.beq j k then w else window_of k m)
  window_of-insert m j k w = elim (Bool-cases (e.beq j k)) [
    | inl same ↦ rw (window_of, lookup-insert j k w m, same) refl
    | inr other ↦ rw (window_of, lookup-insert j k w m, other) refl
  ]

  window_of-slide :
      (m : List (K × List ℕ)) (j k : K) (t : ℕ) (secs : ℤ) (cap : ℕ)
      → length m < cap
      → window_of k (slide m j t secs cap).1
        ≡ (if e.beq j k then expire t secs (window_of k m ++ t ∷ []) else window_of k m)
  unfolding slide
  window_of-slide m j k t secs cap room =
      let w = expire t secs (window_of j m ++ t ∷ []) in
      elim (Bool-cases (e.beq j k)) [
        | inl same ↦
            rw (evict_idle m j cap room, window_of-insert m j k w, same)
              (ap (λ i. expire t secs (window_of i m ++ t ∷ [])) ((e.beq_iff j k).0 same))
        | inr other ↦ rw (evict_idle m j cap room, window_of-insert m j k w, other) refl
      ]

  length-slide-le :
      (m : List (K × List ℕ)) (j : K) (t : ℕ) (secs : ℤ) (cap : ℕ)
      → length m < cap
      → length (slide m j t secs cap).1 ≤ length m + 1
  unfolding slide
  length-slide-le m j t secs cap room =
      rw (evict_idle m j cap room) (length-insert-le j (expire t secs (window_of j m ++ t ∷ [])) m)

  window_of-slide_all :
      (secs : ℤ) (cap : ℕ) (k : K) (m : List (K × List ℕ)) (calls : List (K × ℕ))
      → length m + length calls ≤ cap
      → window_of k (slide_all secs cap m calls) ≡ window_after secs (window_of k m) (times k calls)
  window_of-slide_all secs cap k m [] room = refl
  window_of-slide_all secs cap k m ((j, t) ∷ calls) room =
      let ih =
        window_of-slide_all secs cap k (slide m j t secs cap).1 calls
          (omega (arith, length-slide-le m j t secs cap (omega arith))) in
      let one = window_of-slide m j k t secs cap (omega arith) in
      ih ∙ elim (Bool-cases (e.beq j k)) [
        | inl same ↦ rw (one, same) refl
        | inr other ↦ rw (one, other) refl
      ]

  length-slide_all-le :
      (secs : ℤ) (cap : ℕ) (m : List (K × List ℕ)) (calls : List (K × ℕ))
      → length m + length calls ≤ cap
      → length (slide_all secs cap m calls) ≤ length m + length calls
  length-slide_all-le secs cap m [] room = omega arith
  length-slide_all-le secs cap m ((j, t) ∷ calls) room =
      let one = length-slide-le m j t secs cap (omega arith) in
      omega (
        arith,
        one,
        length-slide_all-le secs cap (slide m j t secs cap).1 calls (omega (arith, one)),
      )

-- The windows after a sequence of messages, each with its guild, its author and its time.
abbrev pub spam_history : Config → List ((ℕ × ℕ) × ℕ) → Windows
spam_history cfg messages = slide_all cfg.spam_secs msg_window_cap [] messages

abbrev pub verdict : Config → List ℕ → Bool
verdict cfg w = not (ltb_ℤ (pos (length w)) cfg.spam_msgs)

is_spamming_on :
    (cfg : Config) (m : Windows) (gid uid now : ℕ)
    → ltb_ℤ (pos 0) cfg.spam_msgs ≡ true
    → ltb_ℤ (pos 0) cfg.spam_secs ≡ true
    → (is_spamming cfg m gid uid now).0
      ≡ verdict cfg (slide m (gid, uid) now cfg.spam_secs msg_window_cap).0
unfolding is_spamming
is_spamming_on cfg m gid uid now limit window = rw (is_spamming, limit, window) refl

slid_window :
    (cfg : Config) (secs now : ℕ) (key : ℕ × ℕ) (messages : List ((ℕ × ℕ) × ℕ))
    → cfg.spam_secs ≡ pos secs
    → length messages < msg_window_cap
    → Ascending 0 (times key messages ++ now ∷ [])
    → (slide (spam_history cfg messages) key now cfg.spam_secs msg_window_cap).0
      ≡ recent now secs (times key messages ++ now ∷ [])
slid_window cfg secs now key messages window room a =
    let m = spam_history cfg messages in
    let fits : length m < msg_window_cap =
      omega (arith, length-slide_all-le cfg.spam_secs msg_window_cap [] messages (omega arith)) in
    let stored = window_of-slide_all cfg.spam_secs msg_window_cap key [] messages (omega arith) in
    unfold slide in
    ap (λ r. expire now cfg.spam_secs (window_of key r ++ now ∷ []))
      (evict_idle m key msg_window_cap fits)
    ∙ ap (λ w. expire now cfg.spam_secs (w ++ now ∷ [])) stored
    ∙ ap (λ s. expire now s (window_after s [] (times key messages) ++ now ∷ [])) window
    ∙ expire-window_after secs (times key messages) now a

-- Where the limit and the window of the spam check are positive, the messages before are fewer
-- than the cap of the map, and the times of the member's messages never go back, the spam check
-- answers by the number of that member's messages, the new one among them, that lie less than the
-- window's seconds back.
pub is_spamming-recent :
    (cfg : Config) (secs gid uid now : ℕ) (messages : List ((ℕ × ℕ) × ℕ))
    → ltb_ℤ (pos 0) cfg.spam_msgs ≡ true
    → cfg.spam_secs ≡ pos (suc secs)
    → length messages < msg_window_cap
    → Ascending 0 (times (gid, uid) messages ++ now ∷ [])
    → (is_spamming cfg (spam_history cfg messages) gid uid now).0
      ≡ verdict cfg (recent now (suc secs) (times (gid, uid) messages ++ now ∷ []))
is_spamming-recent cfg secs gid uid now messages limit window room a =
    let positive : ltb_ℤ (pos 0) (pos (suc secs)) ≡ true = ground arith in
    is_spamming_on cfg (spam_history cfg messages) gid uid now limit
      (ap (ltb_ℤ (pos 0)) window ∙ positive)
    ∙ ap (verdict cfg) (slid_window cfg (suc secs) now (gid, uid) messages window room a)
