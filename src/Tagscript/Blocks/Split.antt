-- ===== src/Tagscript/Blocks/Split.antt =====
-- src/tagscript/blocks.rs, `split_pipe`: a text is split at each `|` that no backslash escapes, and
-- `\|` becomes `|`.
pub mod Join
use benny_rs.Base.{ℕ, Bool, ◌&&◌, List, [], ◌∷◌, ◌++◌, ◌==◌, if◌then◌else◌}
use benny_rs.Base.Text.{Text}

-- The loop, `cur` being the part that is read.
unfoldable pub split_from : Text → Text → List Text
split_from cur [] = cur ∷ []
split_from cur (c ∷ []) = if c == b'|' then cur ∷ [] ∷ [] else (cur ++ c ∷ []) ∷ []
split_from cur (c ∷ next ∷ cs) =
    let unescaped = split_from (cur ++ b'|' ∷ []) cs in
    let ended = cur ∷ split_from [] (next ∷ cs) in
    let pushed = split_from (cur ++ c ∷ []) (next ∷ cs) in
    if c == b'\\' && next == b'|' then unescaped else if c == b'|' then ended else pushed

unfoldable pub split_pipe : Text → List Text
unfolding split_from
split_pipe s = split_from [] s
