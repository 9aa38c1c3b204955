-- ===== src/Mapping/Expression/Reading.antt =====
-- The parser without its fuel: each function with as much as its tokens need, and what it does.
use durable_integrations.Prelude.{
  ℕ, suc, ◌+◌, ◌*◌, ◌≤◌, ◌≡◌, refl, ap, ◌∙◌, inl, inr, none, some, List, [], ◌∷◌, ◌++◌, length,
  Option-cases, arith,
}
use durable_integrations.Prelude.Bytes.{Text}
use durable_integrations.Prelude.Result.{ok, ◌>>=◌}
use durable_integrations.Mapping.Expression.Syntax.{
  Value, Token, ident, operator, lparen, rparen, Operator, minus, unclosed, unclosed_call, keyword,
  accept_sum, accept_product, accept_comma, accept_rparen, accept_minus,
}
use durable_integrations.Mapping.Expression.{
  Engine, Parsed, call, combine, negate_value, parse_expression, sum_loop, parse_term, product_loop,
  parse_unary, parse_primary, parse_call, parse_args, closing,
}
use durable_integrations.Mapping.Expression.Steps.{
  length-accept_comma, Agrees, bind-Agrees, calm_bind-Agrees, combine-IsCalm,
}
use durable_integrations.Mapping.Expression.Fuel.{
  expression-Agrees, sum_loop-Agrees, term-Agrees, product_loop-Agrees, unary-Agrees,
  primary-Agrees, args-Agrees, call-Agrees,
}

module _ {ℓ} {F : Type ℓ} (engine : Engine F) where
  abbrev pub expression : List Token → Parsed (Value F)
  expression ts = parse_expression engine (suc (suc (suc (suc (4 * length ts))))) ts

  abbrev pub sums : Value F → List Token → Parsed (Value F)
  sums left ts = sum_loop engine (suc (4 * length ts)) left ts

  abbrev pub term : List Token → Parsed (Value F)
  term ts = parse_term engine (suc (suc (suc (4 * length ts)))) ts

  abbrev pub products : Value F → List Token → Parsed (Value F)
  products left ts = product_loop engine (suc (4 * length ts)) left ts

  abbrev pub unary : List Token → Parsed (Value F)
  unary ts = parse_unary engine (suc (suc (4 * length ts))) ts

  abbrev pub primary : List Token → Parsed (Value F)
  primary ts = parse_primary engine (suc (4 * length ts)) ts

  abbrev pub arguments : List (Value F) → List Token → Parsed (List (Value F))
  arguments args ts = parse_args engine (suc (suc (suc (suc (suc (4 * length ts)))))) args ts

  -- Where the tokens of the rest are at most n, a loop does with any fuel for n what it does with its own.
  sums_any :
      (f n : ℕ) (v : Value F) (rest : List Token)
      → length rest ≤ n
      → 4 * n + 1 ≤ f
      → Agrees n (sum_loop engine f v rest) (sums v rest)
  sums_any f n v rest h p =
      sum_loop-Agrees engine f (suc (4 * length rest)) n v rest (omega arith) (omega arith) h

  products_any :
      (f n : ℕ) (v : Value F) (rest : List Token)
      → length rest ≤ n
      → 4 * n + 1 ≤ f
      → Agrees n (product_loop engine f v rest) (products v rest)
  products_any f n v rest h p =
      product_loop-Agrees engine f (suc (4 * length rest)) n v rest (omega arith) (omega arith) h

  terms_any :
      (f : ℕ) (ts : List Token)
      → 4 * length ts + 3 ≤ f
      → Agrees (length ts) (parse_term engine f ts) (term ts)
  terms_any f ts p =
      term-Agrees engine f (suc (suc (suc (4 * length ts)))) (length ts) ts p (omega arith)
        (omega arith)

  unary_any :
      (f : ℕ) (ts : List Token)
      → 4 * length ts + 2 ≤ f
      → Agrees (length ts) (parse_unary engine f ts) (unary ts)
  unary_any f ts p =
      unary-Agrees engine f (suc (suc (4 * length ts))) (length ts) ts p (omega arith) (omega arith)

  primary_any :
      (f : ℕ) (ts : List Token)
      → 4 * length ts + 1 ≤ f
      → Agrees (length ts) (parse_primary engine f ts) (primary ts)
  primary_any f ts p =
      primary-Agrees engine f (suc (4 * length ts)) (length ts) ts p (omega arith) (omega arith)

  pub expression_any :
      (f : ℕ) (ts : List Token)
      → 4 * length ts + 4 ≤ f
      → Agrees (length ts) (parse_expression engine f ts) (expression ts)
  expression_any f ts p =
      expression-Agrees engine f (suc (suc (suc (suc (4 * length ts))))) (length ts) ts p
        (omega arith) (omega arith)

  arguments_any :
      (f n : ℕ) (args : List (Value F)) (ts : List Token)
      → length ts ≤ n
      → 4 * length ts + 5 ≤ f
      → Agrees n (parse_args engine f args ts) (arguments args ts)
  arguments_any f n args ts h p =
      args-Agrees engine f (suc (suc (suc (suc (suc (4 * length ts)))))) n args ts (omega arith)
        (omega arith) h

  pub expression_step : (ts : List Token) → expression ts ≡ (term ts >>= λ (v, rest). sums v rest)
  unfolding parse_expression
  expression_step ts =
      let n = length ts in
      let f = suc (suc (suc (4 * n))) in
      (bind-Agrees n _ _ _ _ (terms_any f ts (omega arith))
        (λ v rest h. sums_any f n v rest h (omega arith))).0

  pub term_step : (ts : List Token) → term ts ≡ (unary ts >>= λ (v, rest). products v rest)
  unfolding parse_term
  term_step ts =
      let n = length ts in
      let f = suc (suc (4 * n)) in
      (bind-Agrees n _ _ _ _ (unary_any f ts (omega arith))
        (λ v rest h. products_any f n v rest h (omega arith))).0

  pub sums_stop : (v : Value F) (ts : List Token) → accept_sum ts ≡ none → sums v ts ≡ ok (v, ts)
  unfolding sum_loop
  sums_stop v ts e = rw (e, sum_loop) refl

  pub products_stop :
      (v : Value F) (ts : List Token) → accept_product ts ≡ none → products v ts ≡ ok (v, ts)
  unfolding product_loop
  products_stop v ts e = rw (e, product_loop) refl

  module _ (o : Operator) (v : Value F) (ts : List Token) where
    pub sums_step :
        accept_sum (operator o ∷ ts) ≡ some (o, ts)
        → sums v (operator o ∷ ts)
          ≡ (term ts >>= λ (w, rest). combine engine o v w >>= λ x. sums x rest)
    unfolding sum_loop
    sums_step e =
        let n = length ts in
        let f = 4 * suc n in
        rw (e, sum_loop)
          ((bind-Agrees n _ _ _ _ (terms_any f ts (omega arith)) (λ w rest h.
            calm_bind-Agrees n (combine engine o v w) _ _ (combine-IsCalm engine o v w)
              (λ x. sums_any f n x rest h (omega arith)))).0)

    pub products_step :
        accept_product (operator o ∷ ts) ≡ some (o, ts)
        → products v (operator o ∷ ts)
          ≡ (unary ts >>= λ (w, rest). combine engine o v w >>= λ x. products x rest)
    unfolding product_loop
    products_step e =
        let n = length ts in
        let f = 4 * suc n in
        rw (e, product_loop)
          ((bind-Agrees n _ _ _ _ (unary_any f ts (omega arith)) (λ w rest h.
            calm_bind-Agrees n (combine engine o v w) _ _ (combine-IsCalm engine o v w)
              (λ x. products_any f n x rest h (omega arith)))).0)

  pub unary_minus :
      (ts : List Token)
      → unary (operator minus ∷ ts)
        ≡ (primary ts >>= λ (v, rest). negate_value engine v >>= λ w. ok (w, rest))
  unfolding parse_unary
  unary_minus ts =
      ap (λ r. r >>= λ (v, rest). negate_value engine v >>= λ w. ok (w, rest))
        ((primary_any (suc (4 * suc (length ts))) ts (omega arith)).0)

  pub unary_plain : (ts : List Token) → accept_minus ts ≡ none → unary ts ≡ primary ts
  unfolding parse_unary
  unary_plain ts e = rw (e, parse_unary) refl

  pub primary_paren :
      (ts : List Token)
      → primary (lparen ∷ ts) ≡ (expression ts >>= λ (v, rest). closing engine unclosed rest (ok v))
  unfolding parse_primary
  primary_paren ts =
      ap (λ r. r >>= λ (v, rest). closing engine unclosed rest (ok v))
        ((expression_any (4 * suc (length ts)) ts (omega arith)).0)

  module _ (name : Text) (ts : List Token) (h : keyword {F = F} name ≡ none) where
    pub primary_application :
        accept_rparen ts ≡ none
        → primary (ident name ∷ lparen ∷ ts) ≡ (
            arguments [] ts >>= λ (args, rest).
            closing engine (unclosed_call name) rest (call engine name args))
    unfolding parse_primary parse_call
    primary_application e =
        let n = length ts in
        let f = suc (4 * suc n) in
        named
        ∙ (call-Agrees engine (4 * suc (suc n)) (suc f) (suc n) name (lparen ∷ ts) (omega arith)
            (omega arith) (omega arith)).0
        ∙ opened f
        ∙ ap
            (λ r. r >>= λ (args, rest).
              closing engine (unclosed_call name) rest (call engine name args))
            ((arguments_any f n [] ts (omega arith) (omega arith)).0)
      where
        named :
            primary (ident name ∷ lparen ∷ ts)
            ≡ parse_call engine (4 * suc (suc (length ts))) name (lparen ∷ ts)
        named = rw (h, parse_primary) refl

        opened :
            (f : ℕ)
            → parse_call engine (suc f) name (lparen ∷ ts) ≡ (
                parse_args engine f [] ts >>= λ (args, rest).
                closing engine (unclosed_call name) rest (call engine name args))
        opened f = rw (e, parse_call) refl

    pub primary_application_empty :
        primary (ident name ∷ lparen ∷ rparen ∷ ts) ≡ (call engine name [] >>= λ v. ok (v, ts))
    unfolding parse_primary parse_call
    primary_application_empty =
        let n = length ts in
        named
        ∙ (call-Agrees engine (4 * suc (suc (suc n))) (suc (suc (4 * suc (suc n)))) (suc (suc n))
            name (lparen ∷ rparen ∷ ts) (omega arith) (omega arith) (omega arith)).0
      where
        named :
            primary (ident name ∷ lparen ∷ rparen ∷ ts)
            ≡ parse_call engine (4 * suc (suc (suc (length ts)))) name (lparen ∷ rparen ∷ ts)
        named = rw (h, parse_primary) refl

  pub arguments_step :
      (args : List (Value F)) (ts : List Token)
      → arguments args ts ≡ (
          expression ts >>= λ (v, rest). elim (accept_comma rest) [
            | none ↦ ok (args ++ v ∷ [], rest)
            | some more ↦ arguments (args ++ v ∷ []) more
          ])
  unfolding parse_args
  arguments_step args ts =
      let n = length ts in
      let f = suc (suc (suc (suc (4 * n)))) in
      (bind-Agrees n _ _ _ _ (expression_any f ts (omega arith)) (λ v rest h.
        elim (Option-cases (accept_comma rest)) [
          | inl missing ↦ rw missing (refl, h)
          | inr (more, found) ↦
              let shorter : length rest ≡ suc (length more) = length-accept_comma rest found in
              rw found (arguments_any f n (args ++ v ∷ []) more (omega arith) (omega arith))
        ])).0
