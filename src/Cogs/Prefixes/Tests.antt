-- ===== src/Cogs/Prefixes/Tests.antt =====
-- The theorems on prefixes at a concrete server.
use benny_rs.Base.{◌+◌, ◌≡◌, refl, true, some, List, [], ◌∷◌, ◌++◌, length, arith}
use benny_rs.Base.Equality.{nat_eq}
use benny_rs.Base.Dict.{lookup}
use benny_rs.Base.Text.{text, trim, trim_start, trim_end}
use benny_rs.State.{Prefixes, rows_of, starts_with_prefix}
use benny_rs.Cogs.Prefixes.{listed, on_ready, sanitize_prefix, prefix_add}
use benny_rs.Cogs.Prefixes.Coherence.{Coherent}
use benny_rs.Cogs.Prefixes.Events.{
  Event, ready, guild_created, add, handle_all, handle_all-Coherent, read_rows, on_ready_again,
}
use benny_rs.Cogs.Prefixes.Obeyed.{prefix_add-starts_with_prefix}

abbrev cold : Prefixes
cold = record {
  default_prefix = text "benny ";
  rows = (1, text "b!") ∷ (1, text "?") ∷ [];
  cache = [];
}

abbrev morning : List Event
morning = ready ∷ guild_created 2 ∷ add 1 (text " $ ") true ∷ ready ∷ []

handle_all-Coherent_example : Coherent (handle_all cold morning)
handle_all-Coherent_example = handle_all-Coherent morning cold (λ g p ps l. ground arith)

on_ready_again_example :
    length (listed (lookup 1 (on_ready true (on_ready true cold)).cache))
    ≡ length (listed (lookup 1 (on_ready true cold).cache))
      + length (rows_of 1 (read_rows true (on_ready true cold)))
on_ready_again_example = on_ready_again true (on_ready true cold) 1

prefix_add-starts_with_prefix_example :
    starts_with_prefix
      (prefix_add true true cold 1 (text " $ ")).0
      (some 1)
      (text "$" ++ text "help")
    ≡ true
unfolding prefix_add sanitize_prefix trim trim_start trim_end
prefix_add-starts_with_prefix_example =
    prefix_add-starts_with_prefix true true cold 1 (text " $ ") (text "$") (text "help") refl
