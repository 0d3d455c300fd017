-- ===== src/Tagscript/Blocks/Split/Join.antt =====
-- src/tagscript/blocks.rs, `split_pipe`, against the joining of escaped parts.
use benny_rs.Base.{
  ℕ, ◌≡◌, refl, sym, ap, ◌∙◌, Bool, false, ◌&&◌, List, [], ◌∷◌, ◌++◌, arith, ◌==◌, if◌then◌else◌,
  append-nil, append_assoc, Bool-cases, ==_iff, inl, inr,
}
use benny_rs.Base.Text.{Text, peek_is}
use benny_rs.Tagscript.Blocks.Split.{split_from, split_pipe}

-- A part with each `|` behind a backslash.
abbrev pub escape_pipe : Text → Text
escape_pipe [] = []
escape_pipe (c ∷ s) = if c == b'|' then b'\\' ∷ b'|' ∷ escape_pipe s else c ∷ escape_pipe s

abbrev pub ends_in_backslash : Text → Bool
ends_in_backslash [] = false
ends_in_backslash (c ∷ []) = c == b'\\'
ends_in_backslash (c ∷ d ∷ s) = ends_in_backslash (d ∷ s)

abbrev pub join_pipe : Text → List Text → Text
join_pipe part [] = escape_pipe part
join_pipe part (next ∷ parts) = escape_pipe part ++ (b'|' ∷ join_pipe next parts)

-- No part in front of a `|` ends in a backslash, which would escape it.
abbrev pub CanJoin : Text → List Text → Type 0
CanJoin part [] = Unit
CanJoin part (next ∷ parts) = (ends_in_backslash part ≡ false) × CanJoin next parts

split_from-pushed :
    (cur : Text) (c : ℕ) (rest : Text)
    → (c == b'|') ≡ false
    → (c == b'\\' && peek_is b'|' rest) ≡ false
    → split_from cur (c ∷ rest) ≡ split_from (cur ++ c ∷ []) rest
unfolding split_from
split_from-pushed cur c [] h k = ground arith
split_from-pushed cur c (d ∷ rest) h k = ground arith

split_from-unescaped :
    (cur rest : Text) → split_from cur (b'\\' ∷ b'|' ∷ rest) ≡ split_from (cur ++ b'|' ∷ []) rest
unfolding split_from
split_from-unescaped cur rest = refl

split_from-pipe : (cur rest : Text) → split_from cur (b'|' ∷ rest) ≡ cur ∷ split_from [] rest
unfolding split_from
split_from-pipe cur [] = refl
split_from-pipe cur (c ∷ rest) = refl

tail_clash :
    (c : ℕ) (s rest : Text)
    → (ends_in_backslash (c ∷ s) && peek_is b'|' rest) ≡ false
    → (ends_in_backslash s && peek_is b'|' rest) ≡ false
tail_clash c [] rest h = refl
tail_clash c (d ∷ s) rest h = h

head_clash :
    (c : ℕ) (s rest : Text)
    → (ends_in_backslash (c ∷ s) && peek_is b'|' rest) ≡ false
    → (c == b'\\' && peek_is b'|' (escape_pipe s ++ rest)) ≡ false
head_clash c [] rest h = h
head_clash c (d ∷ s) rest h = ground arith

split_from-escape_pipe :
    (cur s rest : Text)
    → (ends_in_backslash s && peek_is b'|' rest) ≡ false
    → split_from cur (escape_pipe s ++ rest) ≡ split_from (cur ++ s) rest
split_from-escape_pipe cur [] rest h = ap (λ t. split_from t rest) (sym (append-nil cur))
split_from-escape_pipe cur (c ∷ s) rest h =
    let further =
      split_from-escape_pipe (cur ++ c ∷ []) s rest (tail_clash c s rest h)
      ∙ ap (λ t. split_from t rest) (append_assoc cur (c ∷ []) s) in
    elim (Bool-cases (c == b'|')) [
      | inl pipe ↦
          let e : c ≡ b'|' = (==_iff c b'|').0 pipe in
          rw pipe (
            split_from-unescaped cur (escape_pipe s ++ rest)
            ∙ ap (λ x. split_from (cur ++ x ∷ []) (escape_pipe s ++ rest)) (sym e)
            ∙ further)
      | inr other ↦
          rw other (
            split_from-pushed cur c (escape_pipe s ++ rest) other (head_clash c s rest h) ∙ further)
    ]

split_from-join_pipe :
    (cur part : Text) (parts : List Text)
    → CanJoin part parts
    → split_from cur (join_pipe part parts) ≡ (cur ++ part) ∷ parts
split_from-join_pipe cur part [] w =
    ap (split_from cur) (sym (append-nil (escape_pipe part)))
    ∙ split_from-escape_pipe cur part [] (ground arith)
    ∙ unfold split_from in refl
split_from-join_pipe cur part (next ∷ parts) w =
    split_from-escape_pipe cur part (b'|' ∷ join_pipe next parts) (ground arith)
    ∙ split_from-pipe (cur ++ part) (join_pipe next parts)
    ∙ ap (λ ps. (cur ++ part) ∷ ps) (split_from-join_pipe [] next parts w.1)

-- Parts that are escaped and joined by | are split into the same parts, if no part but the last
-- ends in a backslash.
pub split_pipe-join_pipe :
    (part : Text) (parts : List Text)
    → CanJoin part parts
    → split_pipe (join_pipe part parts) ≡ part ∷ parts
unfolding split_pipe
split_pipe-join_pipe part parts w = split_from-join_pipe [] part parts w
