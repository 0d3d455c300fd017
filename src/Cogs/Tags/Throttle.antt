-- ===== src/Cogs/Tags/Throttle.antt =====
-- src/cogs/tags.rs, `on_message`: the throttle of a member's messages.
use benny_rs.Base.{
  ℕ, suc, leb, ◌&&◌, true, List, ◌∷◌, length, ◌+◌, ◌-◌, ◌≤◌, ◌<◌, ◌≡◌, refl, sym, Bool, Option,
  none, some, [], arith, Bool-cases, ◌⊎◌, inl, inr,
}
use benny_rs.Base.Equality.{nat_eq, pair_eq, list_eq}
use benny_rs.Base.Dict.{contains_key}
use benny_rs.Base.Text.{Text, trim, strip_prefix}
use benny_rs.Tagscript.Blocks.Effects.{TagOutput}
use benny_rs.Utils.Cache.Since.{Since, Since-less}
use benny_rs.Utils.RateLimit.{RateLimiter, check}
use benny_rs.Utils.RateLimit.Since.{Throttled, refused, put_down, check-Throttled, check-Since}
use benny_rs.Utils.RateLimit.Laws.{check_refuses}
use benny_rs.Cogs.Tags.Messages.{
  Message, Clock, TagsCog, invoke_interval, called, after_throttle, answer, called_in, on_message,
}

-- The cog has a member's message on record, not before `low`, and room for `n` members more.
abbrev OnRecord : ℕ × ℕ → (low n : ℕ) → TagsCog → Type 0
OnRecord k low n cog = Since k low n cog.invoke_limiter.cap cog.invoke_limiter.last

-- A message that is called by a name stands in its guild.
abbrev Stands : Message → Option (ℕ × Text × Text) → Type 0
Stands m none = Unit
Stands m (some (g, word, args)) = m.guild_id ≡ some g

called_in-Stands :
    (m : Message) (rest : Option Text) (o : Option ℕ) → m.guild_id ≡ o → Stands m (called_in rest o)
called_in-Stands m rest none e = tt
called_in-Stands m none (some g) e = tt
called_in-Stands m (some rest) (some g) e = e

called-Stands : (prefix : Text) (m : Message) → Stands m (called prefix m)
unfolding called
called-Stands prefix m = elim (Bool-cases m.bot) [
  | inl bot ↦ rw bot tt
  | inr human ↦ rw human (called_in-Stands m (strip_prefix prefix (trim m.content)) m.guild_id refl)
]

-- Messages, each with its clock and whether its use reaches the table.
abbrev pub Handled : Type 0
Handled = Bool × Clock × Message

-- None is put down before a time.
abbrev pub none_before : ℕ → List Handled → Bool
none_before low [] = true
none_before low ((ok, t, m) ∷ ms) = leb low t.passed_at && none_before low ms

module _ (lowercase : Text → Text) (run : Message → Text → Text → ℕ → TagOutput) where
  abbrev pub handle_all : (prefix : Text) → TagsCog → List Handled → TagsCog
  handle_all prefix cog [] = cog
  handle_all prefix cog ((ok, t, m) ∷ ms) =
      handle_all prefix (on_message lowercase run ok prefix t cog m).1 ms

  after_throttle-limiter :
      (ok : Bool) (t : Clock) (cog : TagsCog) (m : Message) (g : ℕ) (name args : Text)
      (c : Option ℕ × RateLimiter (ℕ × ℕ))
      → (after_throttle lowercase run ok t cog m g name args c).1.invoke_limiter ≡ c.1
  after_throttle-limiter ok t cog m g name args (some wait, r) = refl
  after_throttle-limiter ok t cog m g name args (none, r) = refl

  answer-OnRecord :
      (ok : Bool) (t : Clock) (cog : TagsCog) (m : Message) (o : Option (ℕ × Text × Text))
      (k : ℕ × ℕ) (low n : ℕ)
      → low ≤ t.passed_at
      → OnRecord k low (suc n) cog
      → OnRecord k low n (answer lowercase run ok t cog m o).1
  answer-OnRecord ok t cog m none k low n h s =
      Since-less k low n cog.invoke_limiter.cap cog.invoke_limiter.last s
  answer-OnRecord ok t cog m (some (g, word, args)) k low n h s =
      let name = lowercase word in
      let asked =
        check cog.invoke_limiter (g, m.author_id) invoke_interval t.throttled_at t.passed_at in
      elim (Bool-cases (contains_key (g, name) cog.tags.cache)) [
        | inl there ↦
            rw (there, after_throttle-limiter ok t cog m g name args asked)
              (check-Since cog.invoke_limiter k (g, m.author_id) invoke_interval t.throttled_at low
                t.passed_at n h s)
        | inr absent ↦
            rw absent (Since-less k low n cog.invoke_limiter.cap cog.invoke_limiter.last s)
      ]

  handle_all-OnRecord :
      (prefix : Text) (cog : TagsCog) (ms : List Handled) (k : ℕ × ℕ) (low : ℕ)
      → none_before low ms ≡ true
      → OnRecord k low (length ms) cog
      → OnRecord k low 0 (handle_all prefix cog ms)
  unfolding on_message
  handle_all-OnRecord prefix cog [] k low h s = s
  handle_all-OnRecord prefix cog ((ok, t, m) ∷ ms) k low h s =
      handle_all-OnRecord prefix (on_message lowercase run ok prefix t cog m).1 ms k low
        (ground arith)
        (answer-OnRecord ok t cog m (called prefix m) k low (length ms) (ground arith) s)

  after_throttle-cases :
      (ok : Bool) (t : Clock) (cog : TagsCog) (m : Message) (g : ℕ) (name args : Text) (k : ℕ × ℕ)
      (n : ℕ) (c : Option ℕ × RateLimiter (ℕ × ℕ))
      → Throttled cog.invoke_limiter k t.passed_at n c
      → (after_throttle lowercase run ok t cog m g name args c ≡ ([], cog))
        ⊎ OnRecord k t.passed_at n (after_throttle lowercase run ok t cog m g name args c).1
  after_throttle-cases ok t cog m g name args k n _ (refused wait) = inl refl
  after_throttle-cases ok t cog m g name args k n _ (put_down r found) = inr found

  answer-cases :
      (ok : Bool) (t : Clock) (cog : TagsCog) (m : Message) (g : ℕ) (word args : Text) (n : ℕ)
      → length cog.invoke_limiter.last + suc n ≤ cog.invoke_limiter.cap
      → (answer lowercase run ok t cog m (some (g, word, args)) ≡ ([], cog))
        ⊎ OnRecord
            (g, m.author_id)
            t.passed_at
            n
            (answer lowercase run ok t cog m (some (g, word, args))).1
  answer-cases ok t cog m g word args n room =
      let name = lowercase word in
      elim (Bool-cases (contains_key (g, name) cog.tags.cache)) [
        | inl there ↦ rw there (
            after_throttle-cases ok t cog m g name args (g, m.author_id) n _
              (check-Throttled cog.invoke_limiter (g, m.author_id) invoke_interval t.throttled_at
                t.passed_at n room))
        | inr absent ↦ inl (rw absent refl)
      ]

  answer_throttled :
      (ok : Bool) (t : Clock) (cog : TagsCog) (m : Message) (g : ℕ) (word args : Text) (low : ℕ)
      → OnRecord (g, m.author_id) low 0 cog
      → low ≤ t.throttled_at
      → t.throttled_at < low + invoke_interval
      → answer lowercase run ok t cog m (some (g, word, args)) ≡ ([], cog)
  answer_throttled ok t cog m g word args low ((prev, found, late), room) after before =
      let soon : t.throttled_at - prev < invoke_interval = omega arith in
      let answered =
        check_refuses cog.invoke_limiter (g, m.author_id) invoke_interval t.throttled_at t.passed_at
          prev found soon in
      elim (Bool-cases (contains_key (g, lowercase word) cog.tags.cache)) [
        | inl there ↦ rw (there, answered) refl
        | inr absent ↦ rw absent refl
      ]

  -- Of two messages of one member in a server, the second of which is looked at at or after the
  -- time the first is put down and less than 1.5 s after it, one at least changes nothing and asks
  -- nothing of Discord, whatever messages of anyone are handled between, if these are put down no
  -- earlier and the throttle has room for all of them.
  pub second_message_ignored :
      (ok ok' : Bool) (prefix : Text) (t t' : Clock) (cog : TagsCog) (m m' : Message)
      (ms : List Handled)
      → m.author_id ≡ m'.author_id
      → m.guild_id ≡ m'.guild_id
      → none_before t.passed_at ms ≡ true
      → length cog.invoke_limiter.last + suc (length ms) ≤ cog.invoke_limiter.cap
      → t.passed_at ≤ t'.throttled_at
      → t'.throttled_at < t.passed_at + invoke_interval
      → (on_message lowercase run ok prefix t cog m ≡ ([], cog))
        ⊎ (let later = handle_all prefix (on_message lowercase run ok prefix t cog m).1 ms in
            on_message lowercase run ok' prefix t' later m' ≡ ([], later))
  unfolding on_message
  second_message_ignored ok ok' prefix t t' cog m m' ms a g times room after before =
      both (called prefix m) (called prefix m') (called-Stands prefix m) (called-Stands prefix m')
    where
      both :
          (o o' : Option (ℕ × Text × Text))
          → Stands m o
          → Stands m' o'
          → (answer lowercase run ok t cog m o ≡ ([], cog))
            ⊎ (let later = handle_all prefix (answer lowercase run ok t cog m o).1 ms in
                answer lowercase run ok' t' later m' o' ≡ ([], later))
      both none o' s s' = inl refl
      both (some (h, word, args)) none s s' = inr refl
      both (some (h, word, args)) (some (h', word', args')) s s' =
          let first = (answer lowercase run ok t cog m (some (h, word, args))).1 in
          let later = handle_all prefix first ms in
          let same : h ≡ h' = ground arith in
          let key : ◌≡◌ {A = ℕ × ℕ} (h, m.author_id) (h', m'.author_id) = rw (same, a) refl in
          elim (answer-cases ok t cog m h word args (length ms) room) [
            | inl nothing ↦ inl nothing
            | inr recorded ↦ inr (
                answer_throttled ok' t' later m' h' word' args' t.passed_at
                  (rw (sym key) (
                    handle_all-OnRecord prefix first ms (h, m.author_id) t.passed_at times
                      recorded))
                  after before)
          ]
