-- ===== src/Tagscript/Engine/Bounds.antt =====
-- src/tagscript/mod.rs, `resolve`: the output cap of each level, the node budget, and the stop.
use benny_rs.Base.{
  ℕ, zero, suc, ◌+◌, ◌≤◌, ◌≡◌, refl, sym, ◌∙◌, true, false, Option, none, some, List, [], ◌∷◌, ◌++◌,
  arith, ltb, inl, inr, Bool-cases, append-nil, append_assoc, ap,
}
use benny_rs.Base.Text.{Text, byte_len}
use benny_rs.Tagscript.Host.{Host}
use benny_rs.Tagscript.Lexer.{Token, literal, block, tokenize}
use benny_rs.Tagscript.Dispatch.{Machine, Reply}
use benny_rs.Tagscript.Engine.{
  max_nodes, max_output, Action, after_token, render_token, render_tokens, resolve,
}

byte_len-append : (s t : Text) → byte_len (s ++ t) ≡ byte_len s + byte_len t
byte_len-append [] t = omega arith
byte_len-append (c ∷ s) t = omega (arith, byte_len-append s t)

abbrev pub join_all : List Text → Text
join_all [] = []
join_all (p ∷ ps) = p ++ join_all ps

-- Without the last.
abbrev pub but_last : List Text → List Text
but_last [] = []
but_last (p ∷ []) = []
but_last (p ∷ q ∷ ps) = p ∷ but_last (q ∷ ps)

-- The machine with another count of nodes.
abbrev pub with_nodes : Machine → ℕ → Machine
with_nodes m n = record m { ctx = record m.ctx { nodes = n } }

module _ (host : Host) where
  -- The parts that the first of some tokens give, one for each, with blocks rendered by `call`.
  pub data Parts (call : Text → Action Text) : List Token → List Text → Type 0 where
    ended : (tokens : List Token) → Parts call tokens []
    given :
        (token : Token) (tokens : List Token) (part : Text) (parts : List Text) (m m' : Machine)
        → render_token host call token m ≡ some (some part, m')
        → Parts call tokens parts
        → Parts call (token ∷ tokens) (part ∷ parts)

  -- A text and the parts of tokens, all of them but the last within the output bound.
  pub record Capped (call : Text → Action Text) (tokens : List Token) (text s : Text) : Type 0 where
    pub parts : List Text
    pub rendered : Parts call tokens parts
    pub joined : s ≡ text ++ join_all parts
    pub small : byte_len text + byte_len (join_all (but_last parts)) ≤ max_output

  Capped-end :
      (call : Text → Action Text) (tokens : List Token) (text : Text)
      → byte_len text ≤ max_output
      → Capped call tokens text text
  Capped-end call tokens text h = record {
    parts = [];
    rendered = ended tokens;
    joined = sym (append-nil text);
    small = omega arith;
  }

  Capped-last :
      (call : Text → Action Text) (token : Token) (tokens : List Token) (text part : Text)
      (m m' : Machine)
      → render_token host call token m ≡ some (some part, m')
      → byte_len text ≤ max_output
      → Capped call (token ∷ tokens) text (text ++ part)
  Capped-last call token tokens text part m m' e h = record {
    parts = part ∷ [];
    rendered = given token tokens part [] m m' e (ended tokens);
    joined = ap (λ t. text ++ t) (sym (append-nil part));
    small = omega arith;
  }

  -- One part more in front.
  Capped-cons :
      (call : Text → Action Text) (token : Token) (tokens : List Token) (text part s : Text)
      (m m' : Machine)
      → render_token host call token m ≡ some (some part, m')
      → byte_len text ≤ max_output
      → Capped call tokens (text ++ part) s
      → Capped call (token ∷ tokens) text s
  Capped-cons call token tokens text part s m m' e h c = record {
    parts = part ∷ c.parts;
    rendered = given token tokens part c.parts m m' e c.rendered;
    joined = c.joined ∙ append_assoc text part (join_all c.parts);
    small = small_cons c.parts c.small;
  }
    where
      small_cons :
          (parts : List Text)
          → byte_len (text ++ part) + byte_len (join_all (but_last parts)) ≤ max_output
          → byte_len text + byte_len (join_all (but_last (part ∷ parts))) ≤ max_output
      small_cons [] k = omega arith
      small_cons (q ∷ qs) k =
          omega (
            arith,
            k,
            byte_len-append text part,
            byte_len-append part (join_all (but_last (q ∷ qs))),
          )

  -- What is returned is capped.
  abbrev pub CappedReply : (Text → Action Text) → List Token → Text → Reply → Type 0
  CappedReply call tokens text none = Unit
  CappedReply call tokens text (some (s, m)) = Capped call tokens text s

  CappedReply-cons :
      (call : Text → Action Text) (token : Token) (tokens : List Token) (text part : Text)
      (m m' : Machine) (r : Reply)
      → render_token host call token m ≡ some (some part, m')
      → byte_len text ≤ max_output
      → CappedReply call tokens (text ++ part) r
      → CappedReply call (token ∷ tokens) text r
  CappedReply-cons call token tokens text part m m' none e h c = tt
  CappedReply-cons call token tokens text part m m' (some (s, n)) e h c =
      Capped-cons call token tokens text part s m m' e h c

  after_token-Capped :
      (call : Text → Action Text) (token : Token) (tokens : List Token) (text : Text) (total : ℕ)
      (m : Machine) (out : Option (Option Text × Machine))
      → render_token host call token m ≡ out
      → total ≡ byte_len text
      → total ≤ max_output
      → ((t : Text) (n : ℕ) (m : Machine)
          → n ≡ byte_len t
          → n ≤ max_output
          → CappedReply call tokens t (render_tokens host call tokens t n m))
      → CappedReply call
          (token ∷ tokens)
          text
          (after_token (render_tokens host call tokens) text total out)
  after_token-Capped call token tokens text total m none r e h ih = tt
  after_token-Capped call token tokens text total m (some (none, m')) r e h ih =
      Capped-end call (token ∷ tokens) text (omega arith)
  after_token-Capped call token tokens text total m (some (some part, m')) r e h ih =
      elim (Bool-cases (ltb max_output (total + byte_len part))) [
        | inl over ↦
            rw (after_token, over) (Capped-last call token tokens text part m m' r (omega arith))
        | inr under ↦
            rw (after_token, under)
              (CappedReply-cons call token tokens text part m m' _ r (omega arith) (
                ih (text ++ part) (total + byte_len part) m'
                  (omega (arith, byte_len-append text part)) (ground arith)))
      ]

  pub render_tokens_halted :
      (call : Text → Action Text) (tokens : List Token) (text : Text) (total : ℕ) (m : Machine)
      → m.output.stopped ≡ true
      → render_tokens host call tokens text total m ≡ some (text, m)
  unfolding render_tokens
  render_tokens_halted call [] text total m h = refl
  render_tokens_halted call (token ∷ tokens) text total m h = λ i. elim (h i) as (λ x. Reply) [
    | true ↦ some (text, m)
    | false ↦
        after_token (render_tokens host call tokens) text total (render_token host call token m)
  ]

  pub render_tokens_going :
      (call : Text → Action Text) (token : Token) (tokens : List Token) (text : Text) (total : ℕ)
      (m : Machine)
      → m.output.stopped ≡ false
      → render_tokens host call (token ∷ tokens) text total m
        ≡ after_token (render_tokens host call tokens) text total (render_token host call token m)
  unfolding render_tokens
  render_tokens_going call token tokens text total m h = λ i. elim (h i) as (λ x. Reply) [
    | true ↦ some (text, m)
    | false ↦
        after_token (render_tokens host call tokens) text total (render_token host call token m)
  ]

  render_tokens-Capped :
      (call : Text → Action Text) (tokens : List Token) (text : Text) (total : ℕ) (m : Machine)
      → total ≡ byte_len text
      → total ≤ max_output
      → CappedReply call tokens text (render_tokens host call tokens text total m)
  render_tokens-Capped call [] text total m e h =
      unfold render_tokens in Capped-end call [] text (omega arith)
  render_tokens-Capped call (token ∷ tokens) text total m e h = elim (Bool-cases m.output.stopped) [
    | inl halted ↦
        rw (render_tokens_halted call (token ∷ tokens) text total m halted)
          (Capped-end call (token ∷ tokens) text (omega arith))
    | inr going ↦ rw (render_tokens_going call token tokens text total m going) (
        after_token-Capped call token tokens text total m (render_token host call token m) refl e h
          (render_tokens-Capped call tokens))
  ]

  -- Whatever the template does, a level of resolve within the depth bound panics or gives the
  -- parts of the first of its tokens, one part for each token in their order, of which all but the
  -- last are together at most MAX_OUTPUT bytes.
  pub resolve-Capped :
      (left : ℕ) (input : Text) (m : Machine)
      → CappedReply (resolve host left) (tokenize input) [] (resolve host (suc left) input m)
  unfolding resolve
  resolve-Capped left input m =
      render_tokens-Capped (resolve host left) (tokenize input) [] 0 m refl (omega arith)

  -- ---- the node budget ----

  render_tokens_spent :
      (call : Text → Action Text) (tokens : List Token) (text : Text) (total : ℕ) (m : Machine)
      → max_nodes ≤ m.ctx.nodes
      → (s : Text) × (n : ℕ) × (render_tokens host call tokens text total m
          ≡ some (s, with_nodes m n))
  unfolding render_token
  render_tokens_spent call [] text total m h = (text, m.ctx.nodes, unfold render_tokens in refl)
  render_tokens_spent call (literal t ∷ tokens) text total m h =
      elim (Bool-cases m.output.stopped) [
        | inl halted ↦
            (text, m.ctx.nodes, render_tokens_halted call (literal t ∷ tokens) text total m halted)
        | inr going ↦
            let turn = render_tokens_going call (literal t) tokens text total m going in
            elim (Bool-cases (ltb max_output (total + byte_len t))) [
              | inl over ↦ (text ++ t, m.ctx.nodes, turn ∙ rw (after_token, over) refl)
              | inr under ↦
                  let (s, n, e) =
                    render_tokens_spent call tokens (text ++ t) (total + byte_len t) m h in
                  (s, n, turn ∙ rw (after_token, under) e)
            ]
      ]
  render_tokens_spent call (block name parameter payload ∷ tokens) text total m h =
      let b = block name parameter payload in
      elim (Bool-cases m.output.stopped) [
        | inl halted ↦
            (text, m.ctx.nodes, render_tokens_halted call (b ∷ tokens) text total m halted)
        | inr going ↦
            let over : ltb max_nodes (m.ctx.nodes + 1) ≡ true = ground arith in
            (
              text,
              m.ctx.nodes + 1,
              render_tokens_going call b tokens text total m going ∙ rw over refl,
            )
      ]

  -- Once the node budget is spent, resolve dispatches no block: it gives some text, does not
  -- panic, and changes nothing but the count of nodes.
  pub resolve_spent :
      (left : ℕ) (input : Text) (m : Machine)
      → max_nodes ≤ m.ctx.nodes
      → (s : Text) × (n : ℕ) × (resolve host left input m ≡ some (s, with_nodes m n))
  unfolding resolve
  resolve_spent zero input m h = (input, m.ctx.nodes, refl)
  resolve_spent (suc left) input m h =
      render_tokens_spent (resolve host left) (tokenize input) [] 0 m h
