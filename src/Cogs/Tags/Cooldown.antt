-- ===== src/Cogs/Tags/Cooldown.antt =====
-- src/cogs/tags.rs, `invoke_tag`: the cooldown of a bucket.
use benny_rs.Base.{
  leb, Bool, ◌&&◌, ℕ, ◌≡◌, refl, sym, ap, ◌∙◌, true, false, Option, none, some, List, [], ◌∷◌, ◌++◌,
  ◌==◌, arith,
}
use benny_rs.Base.Equality.{nat_eq, list_eq}
use benny_rs.Base.Text.{Text, is_digit, has_char, split_once, all_chars, digits_value}
use benny_rs.Base.Show.{show_ℕ}
use benny_rs.Base.Show.RoundTrip.{is_numeral, is_numeral-show_ℕ, digits_value-show_ℕ}
use benny_rs.Utils.Cache.Since.{Since}
use benny_rs.Cogs.Tags.Invoke.{cooldown_key, check_cooldown}

split_once-front :
    (x : ℕ) (a b : Text) → has_char x a ≡ false → split_once x (a ++ (x ∷ b)) ≡ some (a, b)
split_once-front x [] b h = ground arith
split_once-front x (c ∷ a) b h =
    let rest : split_once x (a ++ (x ∷ b)) ≡ some (a, b) = split_once-front x a b (ground arith) in
    let other : (c == x) ≡ false = ground arith in rw (split_once, rest, other) refl

digits_colon : (s : Text) → all_chars is_digit s ≡ true → has_char b':' s ≡ false
digits_colon [] h = refl
digits_colon (c ∷ s) h = ground (arith, digits_colon s)

numeral_colon : (s : Text) → is_numeral s ≡ true → has_char b':' s ≡ false
numeral_colon [] h = refl
numeral_colon (c ∷ s) h = digits_colon (c ∷ s) h

show_ℕ-colon : (n : ℕ) → has_char b':' (show_ℕ n) ≡ false
show_ℕ-colon n = numeral_colon (show_ℕ n) (is_numeral-show_ℕ n)

some_pair :
    {a b c d : Text}
    → ◌≡◌ {A = Option (Text × Text)} (some (a, b)) (some (c, d))
    → (a ≡ c) × (b ≡ d)
some_pair {a} {b} {c} {d} h =
    let first : Option (Text × Text) → Text = λ o. elim o [ none ↦ a | some p ↦ p.0 ] in
    let second : Option (Text × Text) → Text = λ o. elim o [ none ↦ b | some p ↦ p.1 ] in
    (ap first h, ap second h)

-- What stands before the first colon, and behind it.
colon_parts :
    (a a' b b' : Text)
    → has_char b':' a ≡ false
    → has_char b':' a' ≡ false
    → a ++ (b':' ∷ b) ≡ a' ++ (b':' ∷ b')
    → (a ≡ a') × (b ≡ b')
colon_parts a a' b b' h h' e =
    some_pair
      (sym (split_once-front b':' a b h) ∙ ap (split_once b':') e ∙ split_once-front b':' a' b' h')

-- Where the names of two tags hold no colon, the keys of their cooldowns are the same only for one
-- guild, one name and one bucket.
pub cooldown_key_injective :
    (g h : ℕ) (n m b c : Text)
    → has_char b':' n ≡ false
    → has_char b':' m ≡ false
    → cooldown_key g n b ≡ cooldown_key h m c
    → (g ≡ h) × (n ≡ m) × (b ≡ c)
unfolding cooldown_key
cooldown_key_injective g h n m b c cn cm e =
    let (shown, rest) =
      colon_parts (show_ℕ g) (show_ℕ h) (n ++ (b':' ∷ b)) (m ++ (b':' ∷ c)) (show_ℕ-colon g)
        (show_ℕ-colon h) e in
    let (name, bucket) = colon_parts n m b c cn cm rest in
    let same : some g ≡ some h =
      sym (digits_value-show_ℕ g) ∙ ap digits_value shown ∙ digits_value-show_ℕ h in
    (ground arith, name, bucket)

-- The invocations of buckets between two of one bucket.
pub record Invocation : Type 0 where
  pub now : ℕ
  pub stamp : ℕ
  pub key : Text
  pub secs : ℕ

abbrev pub tracker_after : List (Text × ℕ) → List Invocation → List (Text × ℕ)
tracker_after cooldowns [] = cooldowns
tracker_after cooldowns (v ∷ vs) =
    tracker_after (check_cooldown v.now v.stamp cooldowns v.key v.secs).1 vs

-- None is put down before a time.
abbrev pub none_before : ℕ → List Invocation → Bool
none_before low [] = true
none_before low (v ∷ vs) = leb low v.stamp && none_before low vs
