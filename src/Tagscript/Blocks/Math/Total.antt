-- ===== src/Tagscript/Blocks/Math/Total.antt =====
-- src/tagscript/blocks.rs, `MathParser`: the fuel of the parser.
use benny_rs.Base.{
  ℕ, zero, suc, ◌+◌, ◌*◌, ◌≤◌, ◌≡◌, ◌≢◌, true, Option, none, some, [], ◌∷◌, arith, length,
  Bool-cases, Option-cases, inl, inr,
}
use benny_rs.Base.Text.{Text, peek_is, rest_of}
use benny_rs.Tagscript.Host.{Host}
use benny_rs.Tagscript.Blocks.Math.{
  Parsed, parsed, failed, no_fuel, then_parse, number_front, to_number, number, apply_term,
  is_sum_op, is_term_op, op_of, close_paren, expr, expr_loop, term, term_loop, factor, unary,
  primary, math_fuel,
}

-- There was fuel, and at most `n` characters are left.
abbrev pub Leaves : {F : Type 0} → ℕ → Parsed F → Type 0
Leaves n (parsed v r) = length r ≤ n
Leaves n failed = Unit
Leaves n no_fuel = ⊥

then_parse-Leaves :
    {F : Type 0} (n m : ℕ) (p : Parsed F) (k : F → Text → Parsed F)
    → Leaves n p
    → ((v : F) (r : Text) → length r ≤ n → Leaves m (k v r))
    → Leaves m (then_parse p k)
then_parse-Leaves n m (parsed v r) k h next = next v r h
then_parse-Leaves n m failed k h next = tt
then_parse-Leaves n m no_fuel k h next = absurd h

Leaves-mono : {F : Type 0} (n m : ℕ) (p : Parsed F) → n ≤ m → Leaves n p → Leaves m p
Leaves-mono n m (parsed v r) le h = omega arith
Leaves-mono n m failed le h = tt
Leaves-mono n m no_fuel le h = absurd h

length-number_front-le : (s : Text) → length (number_front s).1 ≤ length s
length-number_front-le [] = omega arith
length-number_front-le (c ∷ s) = ground (arith, length-number_front-le s)

-- After a sign there is a character less.
length-rest_of_peek : (c : ℕ) (s : Text) → peek_is c s ≡ true → suc (length (rest_of s)) ≤ length s
length-rest_of_peek c [] h = ground arith
length-rest_of_peek c (d ∷ s) h = omega arith

module _ (host : Host) where
  number-Leaves : (s : Text) → Leaves (length s) (number host s)
  unfolding number
  number-Leaves s = shown (number_front s).0 (number_front s).1 (length-number_front-le s)
    where
      value :
          (o : Option host.Float) (r : Text)
          → length r ≤ length s
          → Leaves (length s) (to_number host o r)
      value none r h = tt
      value (some v) r h = h

      shown :
          (front r : Text)
          → length r ≤ length s
          → Leaves
              (length s)
              (elim front [ [] ↦ failed | c ∷ cs ↦ to_number host (host.parse_float (c ∷ cs)) r ])
      shown [] r h = tt
      shown (c ∷ cs) r h = value (host.parse_float (c ∷ cs)) r h

  close_paren-Leaves :
      (v : host.Float) (s : Text) (n : ℕ) → length s ≤ n → Leaves n (close_paren host v s)
  close_paren-Leaves v s n h = elim (Bool-cases (peek_is b')' s)) [
    | inl e ↦ rw e (omega (arith, length-rest_of_peek b')' s e))
    | inr e ↦ rw e tt
  ]

  length-rest_of_sum : (s : Text) → is_sum_op host s ≡ true → suc (length (rest_of s)) ≤ length s
  length-rest_of_sum [] h = ground arith
  length-rest_of_sum (c ∷ s) h = omega arith

  length-rest_of_term : (s : Text) → is_term_op host s ≡ true → suc (length (rest_of s)) ≤ length s
  length-rest_of_term [] h = ground arith
  length-rest_of_term (c ∷ s) h = omega arith

  mutual
    unfolding expr

    expr-Leaves : (f : ℕ) (s : Text) → 6 * length s + 5 ≤ f → Leaves (length s) (expr host f s)
    expr-Leaves zero s h = absurd (omega arith)
    expr-Leaves (suc f) s h =
        then_parse-Leaves (length s) (length s) (term host f s) (expr_loop host f)
          (term-Leaves f s (omega arith))
          (λ v r le.
            Leaves-mono (length r) (length s) (expr_loop host f v r) le
              (expr_loop-Leaves f v r (omega arith)))

    expr_loop-Leaves :
        (f : ℕ) (v : host.Float) (s : Text)
        → 6 * length s + 1 ≤ f
        → Leaves (length s) (expr_loop host f v s)
    expr_loop-Leaves zero v s h = absurd (omega arith)
    expr_loop-Leaves (suc f) v s h = elim (Bool-cases (is_sum_op host s)) [
      | inl e ↦
          let less = length-rest_of_sum s e in
          rw (e, expr_loop)
            (then_parse-Leaves (length (rest_of s)) (length s) (term host f (rest_of s)) _
              (term-Leaves f (rest_of s) (omega arith))
              (λ rhs r le.
                Leaves-mono (length r) (length s) (expr_loop host f _ r) (omega arith)
                  (expr_loop-Leaves f _ r (omega arith))))
      | inr e ↦ rw (e, expr_loop) (omega arith)
    ]

    term-Leaves : (f : ℕ) (s : Text) → 6 * length s + 4 ≤ f → Leaves (length s) (term host f s)
    term-Leaves zero s h = absurd (omega arith)
    term-Leaves (suc f) s h =
        then_parse-Leaves (length s) (length s) (factor host f s) (term_loop host f)
          (factor-Leaves f s (omega arith))
          (λ v r le.
            Leaves-mono (length r) (length s) (term_loop host f v r) le
              (term_loop-Leaves f v r (omega arith)))

    term_loop-Leaves :
        (f : ℕ) (v : host.Float) (s : Text)
        → 6 * length s + 1 ≤ f
        → Leaves (length s) (term_loop host f v s)
    term_loop-Leaves zero v s h = absurd (omega arith)
    term_loop-Leaves (suc f) v s h = elim (Bool-cases (is_term_op host s)) [
      | inl e ↦
          let less = length-rest_of_term s e in
          rw (e, term_loop)
            (then_parse-Leaves (length (rest_of s)) (length s) (factor host f (rest_of s)) _
              (factor-Leaves f (rest_of s) (omega arith))
              (λ rhs r le. elim (Option-cases (apply_term host (op_of host s) v rhs)) [
                | inl fail ↦ rw fail tt
                | inr (w, good) ↦ rw good (
                    Leaves-mono (length r) (length s) (term_loop host f w r) (omega arith)
                      (term_loop-Leaves f w r (omega arith)))
              ]))
      | inr e ↦ rw (e, term_loop) (omega arith)
    ]

    factor-Leaves : (f : ℕ) (s : Text) → 6 * length s + 3 ≤ f → Leaves (length s) (factor host f s)
    factor-Leaves zero s h = absurd (omega arith)
    factor-Leaves (suc f) s h =
        then_parse-Leaves (length s) (length s) (unary host f s) _ (unary-Leaves f s (omega arith))
          (λ base r le. elim (Bool-cases (peek_is b'^' r)) [
            | inl e ↦
                let less = length-rest_of_peek b'^' r e in
                rw e (
                  then_parse-Leaves (length (rest_of r)) (length s) (factor host f (rest_of r)) _
                    (factor-Leaves f (rest_of r) (omega arith)) (λ v r' le'. omega arith))
            | inr e ↦ rw e le
          ])

    unary-Leaves : (f : ℕ) (s : Text) → 6 * length s + 2 ≤ f → Leaves (length s) (unary host f s)
    unary-Leaves zero s h = absurd (omega arith)
    unary-Leaves (suc f) s h = elim (Bool-cases (peek_is b'-' s)) [
      | inl e ↦
          let less = length-rest_of_peek b'-' s e in
          rw (e, unary)
            (then_parse-Leaves (length (rest_of s)) (length s) (unary host f (rest_of s)) _
              (unary-Leaves f (rest_of s) (omega arith)) (λ v r le. omega arith))
      | inr e ↦ elim (Bool-cases (peek_is b'+' s)) [
        | inl e' ↦
            let less = length-rest_of_peek b'+' s e' in
            rw (e, unary, e')
              (Leaves-mono (length (rest_of s)) (length s) (unary host f (rest_of s)) (omega arith)
                (unary-Leaves f (rest_of s) (omega arith)))
        | inr e' ↦ rw (e, unary, e') (primary-Leaves f s (omega arith))
      ]
    ]

    primary-Leaves :
        (f : ℕ) (s : Text) → 6 * length s + 1 ≤ f → Leaves (length s) (primary host f s)
    primary-Leaves zero s h = absurd (omega arith)
    primary-Leaves (suc f) s h = elim (Bool-cases (peek_is b'(' s)) [
      | inl e ↦
          let less = length-rest_of_peek b'(' s e in
          rw (e, primary)
            (then_parse-Leaves (length (rest_of s)) (length s) (expr host f (rest_of s)) _
              (expr-Leaves f (rest_of s) (omega arith))
              (λ v r le. close_paren-Leaves v r (length s) (omega arith)))
      | inr e ↦ rw (e, primary) (number-Leaves s)
    ]

  -- The fuel that eval_math gives its parser is enough for any text.
  pub expr-ne-no_fuel : (s : Text) → expr host (math_fuel host s) s ≢ no_fuel
  expr-ne-no_fuel s e = rw e at (expr-Leaves (math_fuel host s) s (omega arith))
