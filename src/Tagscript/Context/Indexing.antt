-- ===== src/Tagscript/Context/Indexing.antt =====
-- src/tagscript/context.rs, `string_index`: the pieces that an index stands for.
use benny_rs.Base.{
  ℕ, zero, suc, ◌+◌, ◌-◌, ◌<◌, ◌^◌, ◌≡◌, refl, sym, ap, ◌∙◌, true, false, not, Option, none, some,
  List, [], ◌∷◌, ◌++◌, arith, ltb, ◌==◌, if◌then◌else◌, length, drop, get_or, Bool-cases,
  Option-cases, inl, inr,
}
use benny_rs.Base.Int.{ℤ, pos, negsuc, ◌-ℤ◌}
use benny_rs.Base.Text.{Text, peek_is, keep, trim, strip_prefix}
use benny_rs.Base.Show.{show_ℕ, parse_i64}
use benny_rs.Base.Show.RoundTrip.{
  parse_i64-show_ℕ, parse_i64-plus, parse_i64-minus, trim-solid, show_ℕ-solid, show_ℕ-ne-minus,
  parse_i64-show_ℕ_plus, show_ℕ_plus-front, trim-show_ℕ_plus, keep-show_ℕ_plus,
}
use benny_rs.Base.Search.{split_text, split_fuel, cons_piece, join}
use benny_rs.Tagscript.Context.{
  splitter_of, at, ends_with_char, plain_index, plus_index, joined_index, string_index,
}

strip_prefix-some : (p s rest : Text) → strip_prefix p s ≡ some rest → s ≡ p ++ rest
strip_prefix-some [] s rest h = ground arith
strip_prefix-some (x ∷ p) [] rest h = ground arith
strip_prefix-some (x ∷ p) (c ∷ s) rest h = ground (arith, strip_prefix-some p s rest)

join-cons_piece :
    (sep : Text) (c : ℕ) (pieces : List Text) → join sep (cons_piece c pieces) ≡ c ∷ join sep pieces
join-cons_piece sep c [] = refl
join-cons_piece sep c (piece ∷ []) = refl
join-cons_piece sep c (piece ∷ next ∷ pieces) = refl

-- The pieces of a text by the splitter that a payload gives.
abbrev pub pieces : Text → Option Text → List Text
pieces s payload = split_text (splitter_of payload) s

before : (n : ℕ) → pos (suc n) -ℤ pos 1 ≡ pos n
unfolding ◌-ℤ◌
before n = ground arith

plus_before : (n : ℕ) → plus_index (pos (suc n)) ≡ pos n
unfolding ◌-ℤ◌
plus_before n = ground arith

module _ (s : Text) (payload : Option Text) (n : ℕ) where
  at_index :
      (p : Text) (v : ℤ) (i : ℕ)
      → parse_i64 (trim p) ≡ some v
      → at (length (pieces s payload)) (plain_index (trim p) v)
        ≡ (if ltb n (length (pieces s payload)) then some i else none)
      → string_index s (some p) payload
        ≡ (if ltb n (length (pieces s payload)) then get_or (pieces s payload) i [] else s)
  unfolding string_index
  at_index p v i e found = elim (Bool-cases (ltb n (length (pieces s payload)))) [
    | inl inside ↦ rw (string_index, e, found, inside) refl
    | inr outside ↦ rw (string_index, e, found, outside) refl
  ]

  at_front :
      (p : Text)
      → trim p ≡ p
      → peek_is b'-' p ≡ false
      → parse_i64 p ≡ some (pos (suc n))
      → string_index s (some p) payload
        ≡ (if ltb n (length (pieces s payload)) then get_or (pieces s payload) n [] else s)
  at_front p whole sign e =
      let index : plain_index (trim p) (pos (suc n)) ≡ pos n = rw (whole, sign) (before n) in
      at_index p (pos (suc n)) n (ap parse_i64 whole ∙ e) (unfold at in rw index refl)

  -- A positive index in range gives that piece, counted from one, and out of range the whole text,
  -- for indices whose value is below 2^63.
  pub string_index_front :
      n + 1 < 2 ^ 63
      → string_index s (some (show_ℕ (suc n))) payload
        ≡ (if ltb n (length (pieces s payload)) then get_or (pieces s payload) n [] else s)
  string_index_front small =
      at_front (show_ℕ (suc n)) (trim-solid (show_ℕ (suc n)) (show_ℕ-solid (suc n)))
        (show_ℕ-ne-minus (suc n)) (parse_i64-show_ℕ (suc n) (omega arith))

  -- A plus sign in front of a positive index changes nothing, for indices whose value is below
  -- 2^63: the pieces up to the index are not joined.
  pub string_index_plus :
      n + 1 < 2 ^ 63
      → string_index s (some (b'+' ∷ show_ℕ (suc n))) payload
        ≡ string_index s (some (show_ℕ (suc n))) payload
  string_index_plus small =
      at_front (b'+' ∷ show_ℕ (suc n)) (trim-solid (b'+' ∷ show_ℕ (suc n)) (show_ℕ-solid (suc n)))
        refl (parse_i64-plus (suc n) (omega arith))
      ∙ sym (string_index_front small)

  -- A negative index in range gives that piece, counted from the end, and out of range the whole
  -- text, for indices whose value is below 2^63.
  pub string_index_back :
      n + 1 < 2 ^ 63
      → string_index s (some (b'-' ∷ show_ℕ (suc n))) payload ≡ (
          if ltb n (length (pieces s payload))
          then get_or (pieces s payload) (length (pieces s payload) - suc n) []
          else s)
  string_index_back small =
      let whole = trim-solid (b'-' ∷ show_ℕ (suc n)) (show_ℕ-solid (suc n)) in
      at_index (b'-' ∷ show_ℕ (suc n)) (negsuc n) (length (pieces s payload) - suc n)
        (ap parse_i64 whole ∙ parse_i64-minus n (omega arith)) (unfold at in rw whole refl)

-- ---- joining the pieces again ----

length-cons_piece_pos : (c : ℕ) (ps : List Text) → 0 < length (cons_piece c ps)
length-cons_piece_pos c [] = omega arith
length-cons_piece_pos c (piece ∷ ps) = omega arith

length-split_fuel_pos : (fuel : ℕ) (sep s : Text) → 0 < length (split_fuel fuel sep s)
unfolding split_fuel
length-split_fuel_pos zero sep s = omega arith
length-split_fuel_pos (suc fuel) sep [] = omega arith
length-split_fuel_pos (suc fuel) sep (c ∷ s) = elim (Option-cases (strip_prefix sep (c ∷ s))) [
  | inl over ↦ rw (length, over) (length-cons_piece_pos c (split_fuel fuel sep s))
  | inr (rest, found) ↦ rw (length, found) (omega arith)
]

join_empty_piece :
    (sep : Text) (ps : List Text) → 0 < length ps → join sep ([] ∷ ps) ≡ sep ++ join sep ps
join_empty_piece sep [] h = absurd (omega arith)
join_empty_piece sep (piece ∷ ps) h = refl

join-split_fuel : (fuel : ℕ) (sep s : Text) → join sep (split_fuel fuel sep s) ≡ s
unfolding split_fuel
join-split_fuel zero sep s = refl
join-split_fuel (suc fuel) sep [] = refl
join-split_fuel (suc fuel) sep (c ∷ s) = elim (Option-cases (strip_prefix sep (c ∷ s))) [
  | inl over ↦
      let ih = join-split_fuel fuel sep s in
      rw (split_fuel, over) (join-cons_piece sep c (split_fuel fuel sep s) ∙ ap (◌∷◌ c) ih)
  | inr (rest, found) ↦
      let ih = join-split_fuel fuel sep rest in
      rw (split_fuel, found)
        (join_empty_piece sep (split_fuel fuel sep rest) (length-split_fuel_pos fuel sep rest)
          ∙ ap (◌++◌ sep) ih
          ∙ sym (strip_prefix-some sep (c ∷ s) rest found))
]

join-split_text : (sep s : Text) → join sep (split_text sep s) ≡ s
unfolding split_text
join-split_text sep s = join-split_fuel (length s) sep s

ends_with_last : (x : ℕ) (s : Text) → ends_with_char x (s ++ x ∷ []) ≡ true
ends_with_last x [] = ground arith
ends_with_last x (c ∷ []) = ground arith
ends_with_last x (c ∷ d ∷ s) = ends_with_last x (d ∷ s)

-- A positive index with a plus sign behind it gives the pieces from that index on, joined by the
-- splitter, and out of range the whole text, for indices whose value is below 2^63.
pub string_index_tail :
    (s : Text) (payload : Option Text) (n : ℕ)
    → n + 1 < 2 ^ 63
    → string_index s (some (show_ℕ (suc n) ++ b'+' ∷ [])) payload ≡ (
        if ltb n (length (pieces s payload))
        then join (splitter_of payload) (drop n (pieces s payload))
        else s)
unfolding string_index joined_index
string_index_tail s payload n small =
    let p = show_ℕ (suc n) ++ b'+' ∷ [] in
    let whole : trim p ≡ p = trim-show_ℕ_plus (suc n) in
    let stripped : parse_i64 (keep (λ c. not (c == b'+')) (trim p)) ≡ some (pos (suc n)) =
      ap (λ t. parse_i64 (keep (λ c. not (c == b'+')) t)) whole
      ∙ ap parse_i64 (keep-show_ℕ_plus (suc n))
      ∙ parse_i64-show_ℕ (suc n) (omega arith) in
    let front : peek_is b'+' (trim p) ≡ false =
      ap (peek_is b'+') whole ∙ show_ℕ_plus-front (suc n) in
    let last : ends_with_char b'+' (trim p) ≡ true =
      ap (ends_with_char b'+') whole ∙ ends_with_last b'+' (show_ℕ (suc n)) in
    let none_plain : parse_i64 (trim p) ≡ none =
      ap parse_i64 whole ∙ parse_i64-show_ℕ_plus (suc n) in
    let index : plus_index (pos (suc n)) ≡ pos n = plus_before n in
    let found : at (length (pieces s payload)) (plus_index (pos (suc n)))
        ≡ (if ltb n (length (pieces s payload)) then some n else none) =
      unfold at in rw index refl in
    elim (Bool-cases (ltb n (length (pieces s payload)))) [
      | inl inside ↦
          rw (string_index, none_plain, joined_index, stripped, front, last, found, inside) refl
      | inr outside ↦
          rw (string_index, none_plain, joined_index, stripped, front, last, found, outside)
            (join-split_text (splitter_of payload) s)
    ]
