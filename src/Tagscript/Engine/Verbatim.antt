-- ===== src/Tagscript/Engine/Verbatim.antt =====
-- src/tagscript/mod.rs, `resolve`, at escaped text and at unknown blocks.
use benny_rs.Base.{
  ℕ, suc, ◌+◌, ◌<◌, ◌≡◌, refl, sym, ap, ◌∙◌, false, Option, none, some, [], ◌∷◌, arith, ltb,
  Bool-cases, inl, inr, append-nil,
}
use benny_rs.Base.Text.{Text, byte_len}
use benny_rs.Tagscript.Host.{Host}
use benny_rs.Tagscript.Context.{get_var}
use benny_rs.Tagscript.Lexer.{Token, literal, block, tokenize}
use benny_rs.Tagscript.Lexer.RoundTrip.{IsBlock, escape, tokenize-print, tokenize-reconstruct}
use benny_rs.Tagscript.Blocks.Verbatim.{reconstruct}
use benny_rs.Tagscript.Dispatch.{Machine}
use benny_rs.Tagscript.Dispatch.Variables.{IsVariable, process_block-reconstruct}
use benny_rs.Tagscript.Engine.{
  max_nodes, Action, after_token, count_node, render_token, render_block, render_tokens, resolve,
}
use benny_rs.Tagscript.Engine.Bounds.{render_tokens_going}

module _ (host : Host) where
  -- A level of one token that pushes a part.
  one_part :
      (call : Text → Action Text) (token : Token) (part : Text) (m m' : Machine)
      → m.output.stopped ≡ false
      → render_token host call token m ≡ some (some part, m')
      → render_tokens host call (token ∷ []) [] 0 m ≡ some (part, m')
  one_part call token part m m' going e =
      render_tokens_going host call token [] [] 0 m going
      ∙ ap (after_token (render_tokens host call []) [] 0) e
      ∙ elim (Bool-cases (ltb 10000 (0 + byte_len part))) [
        | inl over ↦ rw (after_token, over) refl
        | inr under ↦ rw (after_token, under) (unfold render_tokens in refl)
      ]

  tokenize-escape : (c : ℕ) (s : Text) → tokenize (escape (c ∷ s)) ≡ literal (c ∷ s) ∷ []
  tokenize-escape c s =
      ap tokenize (sym (append-nil (escape (c ∷ s)))) ∙ tokenize-print (literal (c ∷ s) ∷ []) tt

  -- Where the output is not stopped, a level of resolve within the depth bound gives back any text
  -- whose braces are doubled, and changes nothing.
  pub resolve-escape :
      (left : ℕ) (s : Text) (m : Machine)
      → m.output.stopped ≡ false
      → resolve host (suc left) (escape s) m ≡ some (s, m)
  unfolding resolve
  resolve-escape left [] m going = unfold render_tokens in refl
  resolve-escape left (c ∷ s) m going =
      ap (λ ts. render_tokens host (resolve host left) ts [] 0 m) (tokenize-escape c s)
      ∙ one_part (resolve host left) (literal (c ∷ s)) (c ∷ s) m m going
          (unfold render_token in refl)

  block_unknown :
      (call : Text → Action Text) (name : Text) (m : Machine)
      → IsVariable host name
      → get_var host.timestamp m.ctx name none none ≡ none
      → render_block host call name none none m ≡ some (reconstruct name none none, m)
  unfolding render_block
  block_unknown call name m v e = process_block-reconstruct host name v none none m e

  render_unknown :
      (call : Text → Action Text) (name : Text) (m : Machine)
      → IsVariable host name
      → get_var host.timestamp (count_node m).ctx name none none ≡ none
      → m.ctx.nodes < max_nodes
      → render_token host call (block name none none) m
        ≡ some (some (reconstruct name none none), count_node m)
  unfolding render_token
  render_unknown call name m v e room =
      let cheap : ltb max_nodes (m.ctx.nodes + 1) ≡ false = ground arith in
      rw cheap (
        ap
          (λ o. elim o as (λ x. Option (Option Text × Machine)) [
            | none ↦ none
            | some (a, m') ↦ some (some a, m')
          ])
          (block_unknown call name (count_node m) v e))

  -- Where the output is not stopped and the node budget not spent, a level of resolve within the
  -- depth bound gives a block {name} back as it is and counts one node, if the name holds no
  -- delimiter, is not empty, not all digits, begins with neither $ nor #, is no keyword in lower
  -- case, and no variable of that name is known.
  pub resolve-reconstruct :
      (left : ℕ) (name : Text) (m : Machine)
      → IsVariable host name
      → IsBlock name none none
      → get_var host.timestamp (count_node m).ctx name none none ≡ none
      → m.ctx.nodes < max_nodes
      → m.output.stopped ≡ false
      → resolve host (suc left) (reconstruct name none none) m
        ≡ some (reconstruct name none none, count_node m)
  unfolding resolve
  resolve-reconstruct left name m v w e room going =
      ap (λ ts. render_tokens host (resolve host left) ts [] 0 m)
        (tokenize-reconstruct name none none w)
      ∙ one_part (resolve host left) (block name none none) (reconstruct name none none) m
          (count_node m) going (render_unknown (resolve host left) name m v e room)
