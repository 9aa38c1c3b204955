-- ===== src/Mapping/Expression/Fuel.antt =====
-- The rounds of the parser of expressions, measured by the tokens that are left (parseExpression and the
-- functions below it in expression/engine.go).
use durable_integrations.Prelude.{
  ℕ, zero, suc, ◌+◌, ◌*◌, ◌≤◌, ◌≡◌, refl, inl, inr, List, [], ◌∷◌, ◌++◌, length, Option-cases,
  arith,
}
use durable_integrations.Prelude.Bytes.{Text}
use durable_integrations.Prelude.Result.{ok}
use durable_integrations.Mapping.Expression.Syntax.{
  Value, Token, number_token, string_token, field_token, ident, operator, lparen, rparen, comma,
  eof, unclosed, unclosed_call, accept_lparen, accept_rparen, accept_comma, accept_minus,
  accept_sum, accept_product, keyword,
}
use durable_integrations.Mapping.Expression.{
  Engine, call, combine, negate_value, parse_expression, sum_loop, parse_term, product_loop,
  parse_unary, parse_primary, parse_call, parse_args,
}
use durable_integrations.Mapping.Expression.Steps.{
  Agrees, bind-Agrees, calm_bind-Agrees, length-accept_sum, length-accept_product,
  length-accept_minus, length-accept_lparen, length-accept_rparen, length-accept_comma,
  combine-IsCalm, negate_value-IsCalm, call-IsCalm, closing-Agrees,
}

module _ {ℓ} {F : Type ℓ} (engine : Engine F) where
  mutual
    unfolding parse_expression sum_loop parse_term product_loop parse_unary parse_primary parse_call
        parse_args

    pub expression-Agrees :
        (f g n : ℕ) (ts : List Token)
        → 4 * length ts + 4 ≤ f
        → 4 * length ts + 4 ≤ g
        → length ts ≤ n
        → Agrees n (parse_expression engine f ts) (parse_expression engine g ts)
    expression-Agrees zero g n ts p q le = absurd (omega arith)
    expression-Agrees (suc f) zero n ts p q le = absurd (omega arith)
    expression-Agrees (suc f) (suc g) n ts p q le =
        bind-Agrees n _ _ _ _
          (term-Agrees f g (length ts) ts (omega arith) (omega arith) (omega arith))
          λ v rest h. sum_loop-Agrees f g n v rest (omega arith) (omega arith) (omega arith)

    pub sum_loop-Agrees :
        (f g n : ℕ) (left : Value F) (ts : List Token)
        → 4 * length ts + 1 ≤ f
        → 4 * length ts + 1 ≤ g
        → length ts ≤ n
        → Agrees n (sum_loop engine f left ts) (sum_loop engine g left ts)
    sum_loop-Agrees zero g n left ts p q le = absurd (omega arith)
    sum_loop-Agrees (suc f) zero n left ts p q le = absurd (omega arith)
    sum_loop-Agrees (suc f) (suc g) n left ts p q le = elim (Option-cases (accept_sum ts)) [
      | inl missing ↦ rw (missing, sum_loop) (refl, le)
      | inr ((op, more), found) ↦
          let shorter : length ts ≡ suc (length more) = length-accept_sum ts found in
          rw (found, sum_loop)
            (bind-Agrees n _ _ _ _
              (term-Agrees f g (length more) more (omega arith) (omega arith) (omega arith))
              λ right rest h.
                calm_bind-Agrees n (combine engine op left right) _ _
                  (combine-IsCalm engine op left right)
                  λ v. sum_loop-Agrees f g n v rest (omega arith) (omega arith) (omega arith))
    ]

    pub term-Agrees :
        (f g n : ℕ) (ts : List Token)
        → 4 * length ts + 3 ≤ f
        → 4 * length ts + 3 ≤ g
        → length ts ≤ n
        → Agrees n (parse_term engine f ts) (parse_term engine g ts)
    term-Agrees zero g n ts p q le = absurd (omega arith)
    term-Agrees (suc f) zero n ts p q le = absurd (omega arith)
    term-Agrees (suc f) (suc g) n ts p q le =
        bind-Agrees n _ _ _ _
          (unary-Agrees f g (length ts) ts (omega arith) (omega arith) (omega arith))
          λ v rest h. product_loop-Agrees f g n v rest (omega arith) (omega arith) (omega arith)

    pub product_loop-Agrees :
        (f g n : ℕ) (left : Value F) (ts : List Token)
        → 4 * length ts + 1 ≤ f
        → 4 * length ts + 1 ≤ g
        → length ts ≤ n
        → Agrees n (product_loop engine f left ts) (product_loop engine g left ts)
    product_loop-Agrees zero g n left ts p q le = absurd (omega arith)
    product_loop-Agrees (suc f) zero n left ts p q le = absurd (omega arith)
    product_loop-Agrees (suc f) (suc g) n left ts p q le = elim (Option-cases (accept_product ts)) [
      | inl missing ↦ rw (missing, product_loop) (refl, le)
      | inr ((op, more), found) ↦
          let shorter : length ts ≡ suc (length more) = length-accept_product ts found in
          rw (found, product_loop)
            (bind-Agrees n _ _ _ _
              (unary-Agrees f g (length more) more (omega arith) (omega arith) (omega arith))
              λ right rest h.
                calm_bind-Agrees n (combine engine op left right) _ _
                  (combine-IsCalm engine op left right)
                  λ v. product_loop-Agrees f g n v rest (omega arith) (omega arith) (omega arith))
    ]

    pub unary-Agrees :
        (f g n : ℕ) (ts : List Token)
        → 4 * length ts + 2 ≤ f
        → 4 * length ts + 2 ≤ g
        → length ts ≤ n
        → Agrees n (parse_unary engine f ts) (parse_unary engine g ts)
    unary-Agrees zero g n ts p q le = absurd (omega arith)
    unary-Agrees (suc f) zero n ts p q le = absurd (omega arith)
    unary-Agrees (suc f) (suc g) n ts p q le = elim (Option-cases (accept_minus ts)) [
      | inl missing ↦
          rw (missing, parse_unary) (primary-Agrees f g n ts (omega arith) (omega arith) le)
      | inr (more, found) ↦
          let shorter : length ts ≡ suc (length more) = length-accept_minus ts found in
          rw (found, parse_unary)
            (bind-Agrees n _ _ _ _
              (primary-Agrees f g (length more) more (omega arith) (omega arith) (omega arith))
              λ v rest h.
                calm_bind-Agrees n (negate_value engine v) _ _ (negate_value-IsCalm engine v)
                  λ w. (refl, omega arith))
    ]

    pub primary-Agrees :
        (f g n : ℕ) (ts : List Token)
        → 4 * length ts + 1 ≤ f
        → 4 * length ts + 1 ≤ g
        → length ts ≤ n
        → Agrees n (parse_primary engine f ts) (parse_primary engine g ts)
    primary-Agrees zero g n ts p q le = absurd (omega arith)
    primary-Agrees (suc f) zero n ts p q le = absurd (omega arith)
    primary-Agrees (suc f) (suc g) n [] p q le = (refl, λ e. cc)
    primary-Agrees (suc f) (suc g) n (number_token t ∷ ts) p q le =
        elim (Option-cases (engine.numbers.parse_float t)) [
          | inl missing ↦ rw (missing, parse_primary) (refl, λ e. cc)
          | inr (x, found) ↦ rw (found, parse_primary) (refl, omega arith)
        ]
    primary-Agrees (suc f) (suc g) n (string_token t ∷ ts) p q le = (refl, omega arith)
    primary-Agrees (suc f) (suc g) n (field_token path ∷ ts) p q le = (refl, omega arith)
    primary-Agrees (suc f) (suc g) n (ident name ∷ ts) p q le =
        elim (Option-cases (keyword {F = F} name)) [
          | inl missing ↦
              rw (missing, parse_primary)
                (call-Agrees f g n name ts (omega arith) (omega arith) (omega arith))
          | inr (v, found) ↦ rw (found, parse_primary) (refl, omega arith)
        ]
    primary-Agrees (suc f) (suc g) n (lparen ∷ ts) p q le =
        bind-Agrees n _ _ _ _
          (expression-Agrees f g (length ts) ts (omega arith) (omega arith) (omega arith))
          λ v rest h. closing-Agrees engine n unclosed rest (ok v) (omega arith) (λ e. cc) tt
    primary-Agrees (suc f) (suc g) n (operator o ∷ ts) p q le = (refl, λ e. cc)
    primary-Agrees (suc f) (suc g) n (rparen ∷ ts) p q le = (refl, λ e. cc)
    primary-Agrees (suc f) (suc g) n (comma ∷ ts) p q le = (refl, λ e. cc)
    primary-Agrees (suc f) (suc g) n (eof ∷ ts) p q le = (refl, λ e. cc)

    pub call-Agrees :
        (f g n : ℕ) (name : Text) (ts : List Token)
        → 4 * length ts + 2 ≤ f
        → 4 * length ts + 2 ≤ g
        → length ts ≤ n
        → Agrees n (parse_call engine f name ts) (parse_call engine g name ts)
    call-Agrees zero g n name ts p q le = absurd (omega arith)
    call-Agrees (suc f) zero n name ts p q le = absurd (omega arith)
    call-Agrees (suc f) (suc g) n name ts p q le = elim (Option-cases (accept_lparen ts)) [
      | inl missing ↦ rw (missing, parse_call) (refl, λ e. cc)
      | inr (more, found) ↦
          let shorter : length ts ≡ suc (length more) = length-accept_lparen ts found in
          elim (Option-cases (accept_rparen more)) [
            | inr (rest, closed) ↦
                rw (found, closed, parse_call)
                  (calm_bind-Agrees n (call engine name []) _ _ (call-IsCalm engine name [])
                    λ v. (refl, omega (arith, length-accept_rparen more closed)))
            | inl filled ↦
                rw (found, filled, parse_call)
                  (bind-Agrees n _ _ _ _
                    (args-Agrees f g (length more) [] more (omega arith) (omega arith)
                      (omega arith))
                    λ args rest h.
                      closing-Agrees engine n (unclosed_call name) rest (call engine name args)
                        (omega arith) (λ e. cc) (call-IsCalm engine name args))
          ]
    ]

    pub args-Agrees :
        (f g n : ℕ) (args : List (Value F)) (ts : List Token)
        → 4 * length ts + 5 ≤ f
        → 4 * length ts + 5 ≤ g
        → length ts ≤ n
        → Agrees n (parse_args engine f args ts) (parse_args engine g args ts)
    args-Agrees zero g n args ts p q le = absurd (omega arith)
    args-Agrees (suc f) zero n args ts p q le = absurd (omega arith)
    args-Agrees (suc f) (suc g) n args ts p q le =
        bind-Agrees n _ _ _ _
          (expression-Agrees f g (length ts) ts (omega arith) (omega arith) (omega arith))
          λ v rest h. elim (Option-cases (accept_comma rest)) [
            | inl missing ↦ rw (missing, parse_args) (refl, omega arith)
            | inr (more, found) ↦
                let shorter : length rest ≡ suc (length more) = length-accept_comma rest found in
                rw (found, parse_args)
                  (args-Agrees f g n (args ++ v ∷ []) more (omega arith) (omega arith)
                    (omega arith))
          ]
