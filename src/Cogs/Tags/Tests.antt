-- ===== src/Cogs/Tags/Tests.antt =====
-- The theorems on tags at a concrete server, whose tags give their content on as it stands.
use benny_rs.Base.{ℕ, ◌+◌, ◌⊎◌, ◌≡◌, refl, Bool, true, false, some, List, [], ◌∷◌, length, arith}
use benny_rs.Base.Text.{Text, text}
use benny_rs.Tagscript.Blocks.Effects.{TagOutput, no_output}
use benny_rs.Cogs.Tags.{Tags, tag_create}
use benny_rs.Cogs.Tags.Coherence.{
  IsCoherent, Step, ready, create, edit, delete, invoke, perform_all, perform_all-IsCoherent,
}
use benny_rs.Utils.RateLimit
use benny_rs.Cogs.Tags.Messages.{Message, Clock, TagsCog, on_message}
use benny_rs.Cogs.Tags.Throttle.{Handled, handle_all, second_message_ignored}
use benny_rs.Cogs.Tags.Cooldown.{Invocation, cooldown_key_injective}

abbrev empty : Tags
empty = record { rows = []; cache = []; cooldowns = [] }

abbrev same : Text → Text
same s = s

abbrev small_letter : ℕ → Bool
small_letter c = true

abbrev echo : Text → ℕ → TagOutput
echo content uses = record no_output { content = content; cooldown = some (text "all", 5) }

abbrev day : List Step
day =
    ready true
    ∷ create true 100 1 7 (text "rules") (text " be kind ")
    ∷ invoke 200 201 1 (text "rules")
    ∷ edit false 1 8 (text "rules") (text "none")
    ∷ create true 300 1 8 (text "rules") (text "none")
    ∷ edit true 1 8 (text "rules") (text "be nice")
    ∷ delete false 1 7 (text "rules")
    ∷ []

perform_all-IsCoherent_example : IsCoherent (perform_all same small_letter echo empty day)
perform_all-IsCoherent_example =
    perform_all-IsCoherent same small_letter echo day empty (tt, λ k. refl)

cooldown_key_injective_example :
    (◌≡◌ {A = ℕ} 12 12) × (text "faq" ≡ text "faq") × (text "a:b" ≡ text "a:b")
cooldown_key_injective_example =
    cooldown_key_injective 12 12 (text "faq") (text "faq") (text "a:b") (text "a:b") refl refl refl

-- Another bucket, and the same one, between two invocations.
abbrev others : List Invocation
others =
    record { now = 1500; stamp = 1501; key = text "12:faq:me"; secs = 5 }
    ∷ record { now = 1600; stamp = 1601; key = text "12:faq:all"; secs = 5 }
    ∷ []

-- A server with a tag that is called twice within a second.
abbrev stocked : TagsCog
stocked = record {
  tags =
      perform_all same small_letter echo empty
        (create true 100 1 7 (text "rules") (text "be kind") ∷ []);
  invoke_limiter = RateLimit.empty 8192;
}

abbrev said : ℕ → Text → Message
said author content = record {
  bot = false;
  author_id = author;
  guild_id = some 1;
  content = content;
}

abbrev at_time : ℕ → Clock
at_time now = record {
  throttled_at = now;
  passed_at = now + 1;
  cooled_at = now + 2;
  stamped_at = now + 3;
}

abbrev echoed : Message → Text → Text → ℕ → TagOutput
echoed m args = echo

-- The message of another member between.
abbrev between : List Handled
between = (true, at_time 500000000, said 3 (text "b!rules")) ∷ []

second_message_ignored_example :
    (on_message same echoed true (text "b!") (at_time 1000) stocked (said 9 (text "b!rules"))
      ≡ ([], stocked))
    ⊎ (let later =
          handle_all same echoed
            (text "b!")
            (on_message same echoed true
              (text "b!")
              (at_time 1000)
              stocked
              (said 9 (text "b!rules"))).1
            between in
        on_message same echoed true
          (text "b!")
          (at_time 900000000)
          later
          (said 9 (text "b! rules now"))
        ≡ ([], later))
second_message_ignored_example =
    second_message_ignored same echoed true true (text "b!") (at_time 1000) (at_time 900000000)
      stocked (said 9 (text "b!rules")) (said 9 (text "b! rules now")) between refl refl
      (ground arith) (omega arith) (omega arith) (omega arith)

-- The first of the two messages is answered, and the second is not.
answers :
    length
      (on_message same
        (λ m args. echo)
        true
        (text "b!")
        (at_time 1000)
        stocked
        (said 9 (text "b!rules"))).0
    ≡ 1
unfolding on_message tag_create
answers = refl
