-- ===== src/State/Laws.antt =====
-- src/state.rs: the lists of prefixes.
use benny_rs.Base.{
  ℕ, ◌≡◌, refl, ap, ◌∙◌, Bool, true, false, not, ◌||◌, List, [], ◌∷◌, ◌++◌, if◌then◌else◌, arith,
  Bool-cases, ◌⊎◌, inl, inr,
}
use benny_rs.Base.Equality.{nat_eq, list_beq_iff}
use benny_rs.Base.Text.{Text, is, starts_with, trim, trim_start, trim_end, is_whitespace}
use benny_rs.State.{has, insert_by_len, sort_by_len, any_starts, is_empty}

pub is_self : (s : Text) → is s s ≡ true
is_self s = (list_beq_iff s s).1 refl

pub has-insert_by_len :
    (q p : Text) (ps : List Text) → has q (insert_by_len p ps) ≡ (is p q || has q ps)
has-insert_by_len q p [] = refl
has-insert_by_len q p (r ∷ ps) = ground (arith, has-insert_by_len q p ps)

pub has-sort_by_len : (q : Text) (ps : List Text) → has q (sort_by_len ps) ≡ has q ps
has-sort_by_len q [] = refl
has-sort_by_len q (p ∷ ps) =
    has-insert_by_len q p (sort_by_len ps) ∙ ap (λ b. is p q || b) (has-sort_by_len q ps)

pub has-append : (q : Text) (ps qs : List Text) → has q (ps ++ qs) ≡ (has q ps || has q qs)
has-append q [] qs = refl
has-append q (p ∷ ps) qs = ground (arith, has-append q ps qs)

pub starts_with-append : (p s : Text) → starts_with p (p ++ s) ≡ true
starts_with-append [] s = refl
starts_with-append (c ∷ p) s = ground (arith, starts_with-append p s)

-- A listed prefix that is not empty is found at the start of a text.
pub any_starts-has :
    (p : Text) (ps : List Text) (s : Text)
    → is_empty p ≡ false
    → has p ps ≡ true
    → any_starts ps (p ++ s) ≡ true
any_starts-has p (q ∷ ps) s ne h = elim (Bool-cases (is q p)) [
  | inl e ↦
      let same : q ≡ p = (list_beq_iff q p).0 e in
      rw (same, any_starts, ne, starts_with-append p s) refl
  | inr e ↦ let rest = any_starts-has p ps s ne (ground arith) in ground (arith, rest)
]
any_starts-has p [] s ne h = ground arith

-- A text that starts like a trimmed one.
abbrev pub starts_solid : Text → Bool
starts_solid [] = false
starts_solid (c ∷ s) = not (is_whitespace c)

trim_start-solid : (s : Text) → (trim_start s ≡ []) ⊎ (starts_solid (trim_start s) ≡ true)
unfolding trim_start
trim_start-solid [] = inl refl
trim_start-solid (c ∷ s) =
    let rest = trim_start-solid s in
    elim (Bool-cases (is_whitespace c)) [ inl e ↦ rw e rest | inr e ↦ rw e (inr (ap not e)) ]

-- A character of `trim_end`, before what is left of the rest.
abbrev end_step : (c : ℕ) (blank : Bool) → Text → Text
end_step c blank [] = if blank then [] else c ∷ []
end_step c blank (x ∷ rest) = c ∷ x ∷ rest

end_step_cases :
    (c : ℕ) (blank : Bool) (rest : Text)
    → (end_step c blank rest ≡ []) ⊎ ((t : Text) × (end_step c blank rest ≡ c ∷ t))
end_step_cases c true [] = inl refl
end_step_cases c false [] = inr ([], refl)
end_step_cases c blank (x ∷ rest) = inr (x ∷ rest, refl)

trim_end-end_step :
    (c : ℕ) (s : Text) → trim_end (c ∷ s) ≡ end_step c (is_whitespace c) (trim_end s)
unfolding trim_end
trim_end-end_step c s =
    elim (trim_end s)
      as (λ o.
        (elim o [ [] ↦ if is_whitespace c then [] else c ∷ [] | x ∷ rest ↦ c ∷ x ∷ rest ])
        ≡ end_step c (is_whitespace c) o) [ [] ↦ refl | x ∷ rest ↦ refl ]

trim_end_nil : trim_end [] ≡ []
unfolding trim_end
trim_end_nil = refl

trim_end-solid :
    (s : Text) → starts_solid s ≡ true → (trim_end s ≡ []) ⊎ (starts_solid (trim_end s) ≡ true)
trim_end-solid [] h = inl trim_end_nil
trim_end-solid (c ∷ s) h = elim (end_step_cases c (is_whitespace c) (trim_end s)) [
  | inl e ↦ inl (trim_end-end_step c s ∙ e)
  | inr (t, e) ↦ inr (ap starts_solid (trim_end-end_step c s ∙ e) ∙ h)
]

-- What `trim` leaves starts with no white space.
pub trim-solid : (s : Text) → (trim s ≡ []) ⊎ (starts_solid (trim s) ≡ true)
unfolding trim
trim-solid s = elim (trim_start-solid s) [
  | inl e ↦ inl (ap trim_end e ∙ trim_end_nil)
  | inr h ↦ trim_end-solid (trim_start s) h
]

not-true : (b : Bool) → not b ≡ true → b ≡ false
not-true true h = ground arith
not-true false h = refl

pub trim_start-append : (p s : Text) → starts_solid p ≡ true → trim_start (p ++ s) ≡ p ++ s
unfolding trim_start
trim_start-append [] s h = ground arith
trim_start-append (c ∷ p) s h = rw (not-true (is_whitespace c) h) refl
