-- ===== src/Tagscript/Blocks/Verbatim.antt =====
-- src/tagscript/blocks.rs, `reconstruct`: an unrecognised block is rendered as its source text.
use benny_rs.Base.{Option, none, some, [], ◌∷◌, ◌++◌}
use benny_rs.Base.Text.{Text}

abbrev pub parenthesised : Option Text → Text
parenthesised none = []
parenthesised (some p) = b'(' ∷ (p ++ b')' ∷ [])

abbrev pub after_colon : Option Text → Text
after_colon none = []
after_colon (some p) = b':' ∷ p

-- What stands between the braces.
abbrev pub inside : Text → Option Text → Option Text → Text
inside name parameter payload = name ++ (parenthesised parameter ++ after_colon payload)

unfoldable pub reconstruct : Text → Option Text → Option Text → Text
reconstruct name parameter payload = b'{' ∷ (inside name parameter payload ++ b'}' ∷ [])
