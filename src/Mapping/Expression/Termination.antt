-- ===== src/Mapping/Expression/Termination.antt =====
-- The rounds of tokenize and Evaluate (expression/engine.go), measured by the runes that are left.
use durable_integrations.Prelude.{
  ℕ, zero, suc, ◌+◌, ◌-◌, ◌*◌, ◌≤◌, ◌≡◌, ◌≢◌, inl, inr, Bool, true, ◌||◌, ◌&&◌, Option, none, some,
  List, [], ◌∷◌, ◌==◌, length, drop, Bool-cases, if_elim, arith,
}
use durable_integrations.Prelude.Bytes.{Text}
use durable_integrations.Prelude.Result.{Result, ok, err, ◌>>=◌}
use durable_integrations.Mapping.Expression.Syntax.{
  Value, Token, string_token, Complaint, out_of_fuel, empty_expression, unexpected_character,
  unterminated_string,
}
use durable_integrations.Mapping.Expression.{Engine, Parsed, parse_expression}
use durable_integrations.Mapping.Expression.Tokens.{
  Unicode, scan, string_body, symbol, Scanned, in_number, in_ident, in_field, starts_with,
  starts_digit, opens, next_token, tokens_from, tokenize, trim_left, trim_right, evaluate_tokens,
  evaluate,
}
use durable_integrations.Mapping.Expression.Steps.{Finishes, IsCalm}
use durable_integrations.Mapping.Expression.Fuel.{expression-Agrees}

length-scan : (p : ℕ → Bool) (cs : Text) → length (scan p cs).1 ≤ length cs
unfolding scan
length-scan p [] = omega arith
length-scan p (c ∷ cs) = ground (arith, length-scan p cs)

-- At a rune that passes, it is taken.
length-scan_first :
    (p : ℕ → Bool) (c : ℕ) (cs : Text) → p c ≡ true → length (scan p (c ∷ cs)).1 ≤ length cs
unfolding scan
length-scan_first p c cs h = ground (arith, length-scan p cs)

abbrev IsWithin : ℕ → Option (Text × Text) → Type 0
IsWithin n none = Unit
IsWithin n (some (body, rest)) = length rest ≤ n

-- A body that goes on leaves what the rest of it leaves.
further :
    (n m : ℕ) (o : Option (Text × Text)) (make : Text → Text)
    → n ≤ m
    → IsWithin n o
    → IsWithin m (elim o [ none ↦ none | some (body, rest) ↦ some (make body, rest) ])
further n m none make le h = tt
further n m (some (body, rest)) make le h = omega arith

string_body-IsWithin : (quote : ℕ) (cs : Text) → IsWithin (length cs) (string_body quote cs)
unfolding string_body
string_body-IsWithin quote [] = tt
string_body-IsWithin quote (c ∷ []) =
    if_elim (IsWithin 1) (c == quote) (some ([], [])) none (λ e. omega arith) (λ e. tt)
string_body-IsWithin quote (c ∷ d ∷ ds) = elim (Bool-cases (c == quote)) [
  | inl ends ↦ rw (ends, string_body, IsWithin) (omega arith)
  | inr inside ↦ elim (Bool-cases (c == 92)) [
    | inl escape ↦
        rw (inside, escape, string_body)
          (further (length ds) (suc (suc (length ds))) (string_body quote ds) (λ body. c ∷ d ∷ body)
            (omega arith) (string_body-IsWithin quote ds))
    | inr plain ↦
        rw (inside, plain, string_body)
          (further (suc (length ds)) (suc (suc (length ds))) (string_body quote (d ∷ ds))
            (λ body. c ∷ body) (omega arith) (string_body-IsWithin quote (d ∷ ds)))
  ]
]

-- The token is there, or the complaint is not about fuel, and at most n runes are left.
abbrev Moves : ℕ → Scanned → Type 0
Moves n (ok (t, rest)) = length rest ≤ n
Moves n (err c) = c ≢ out_of_fuel

string_token-Moves :
    (n : ℕ) (o : Option (Text × Text))
    → IsWithin n o
    → Moves n (elim o [
      | none ↦ err unterminated_string
      | some (body, rest) ↦ ok (string_token body, rest)
    ])
string_token-Moves n none h = λ e. cc
string_token-Moves n (some (body, rest)) h = h

symbol-Moves :
    (n c position : ℕ) (cs : Text) (o : Option Token)
    → length cs ≤ n
    → Moves n (elim o [ none ↦ err (unexpected_character c position) | some t ↦ ok (t, cs) ])
symbol-Moves n c position cs none h = λ e. cc
symbol-Moves n c position cs (some t) h = h

length-drop_one : (cs : Text) → length (drop 1 cs) ≤ length cs
length-drop_one [] = omega arith
length-drop_one (c ∷ cs) = omega arith

module _ (unicode : Unicode) where
  -- One round takes the rune that it stands at.
  next_token-Moves :
      (position : ℕ) (previous : Option Token) (c : ℕ) (cs : Text)
      → Moves (length cs) (next_token unicode position previous c cs)
  unfolding next_token
  next_token-Moves position previous c cs =
      let M = Moves (length cs) in
      if_elim M ((c == 34) || (c == 39)) _ _
        (λ e. string_token-Moves (length cs) (string_body c cs) (string_body-IsWithin c cs))
        λ e.
          if_elim M ((c == 36) && starts_with 46 cs) _ _
            (λ e. omega (arith, length-scan (in_field unicode) (drop 1 cs), length-drop_one cs))
            λ e.
              if_elim M (unicode.is_digit c) _ _
                (λ e. length-scan_first (in_number unicode) c cs (ground arith))
                λ e.
                  if_elim M ((c == 45) && starts_digit unicode cs && opens previous) _ _
                    (λ e. length-scan (in_number unicode) cs)
                    λ e.
                      if_elim M (unicode.is_letter c || (c == 95)) _ _
                        (λ e. length-scan_first (in_ident unicode) c cs (ground arith))
                        (λ e. symbol-Moves (length cs) c position cs (symbol c) (omega arith))

  -- A token in front of the others.
  bind-IsCalm :
      (n : ℕ) (r : Scanned) (k : Token × Text → Result Complaint (List Token))
      → Moves n r
      → ((t : Token) (rest : Text) → length rest ≤ n → IsCalm (k (t, rest)))
      → IsCalm (r >>= k)
  bind-IsCalm n (ok (t, rest)) k h next = next t rest h
  bind-IsCalm n (err c) k h next = h

  cons-IsCalm :
      (t : Token) (r : Result Complaint (List Token)) → IsCalm r → IsCalm (r >>= λ ts. ok (t ∷ ts))
  cons-IsCalm t (ok ts) h = tt
  cons-IsCalm t (err c) h = h

  tokens_from-IsCalm :
      (fuel whole : ℕ) (previous : Option Token) (cs : Text)
      → length cs ≤ fuel
      → IsCalm (tokens_from unicode fuel whole previous cs)
  unfolding tokens_from
  tokens_from-IsCalm fuel whole previous [] h = tt
  tokens_from-IsCalm zero whole previous (c ∷ cs) h = absurd (omega arith)
  tokens_from-IsCalm (suc fuel) whole previous (c ∷ cs) h = elim (Bool-cases (unicode.is_space c)) [
    | inl space ↦ rw (space, tokens_from) (tokens_from-IsCalm fuel whole previous cs (omega arith))
    | inr other ↦
        rw (other, tokens_from)
          (bind-IsCalm (length cs) _ _ (next_token-Moves (whole - length (c ∷ cs)) previous c cs)
            (λ t rest le.
              cons-IsCalm t (tokens_from unicode fuel whole (some t) rest)
                (tokens_from-IsCalm fuel whole (some t) rest (omega arith))))
  ]

  module _ {ℓ} {F : Type ℓ} (engine : Engine F) where
    value-IsCalm : (n : ℕ) (r : Parsed (Value F)) → Finishes n r → IsCalm (r >>= λ (v, rest). ok v)
    value-IsCalm n (ok (v, rest)) h = tt
    value-IsCalm n (err c) h = h

    evaluate_tokens-IsCalm : (ts : List Token) → IsCalm (evaluate_tokens engine ts)
    unfolding evaluate_tokens
    evaluate_tokens-IsCalm ts =
        let f = 4 * length ts + 4 in
        value-IsCalm (length ts) (parse_expression engine f ts) (
          (expression-Agrees engine f f (length ts) ts (omega arith) (omega arith) (omega arith)).1)

    tokens-IsCalm :
        (r : Result Complaint (List Token)) → IsCalm r → IsCalm (r >>= evaluate_tokens engine)
    tokens-IsCalm (ok ts) h = evaluate_tokens-IsCalm ts
    tokens-IsCalm (err c) h = h

    evaluate-IsCalm : (expr : Text) → IsCalm (evaluate unicode engine expr)
    unfolding evaluate tokenize
    evaluate-IsCalm expr = on_trimmed (trim_right unicode (trim_left unicode expr))
      where
        on_trimmed :
            (cs : Text)
            → IsCalm (elim cs as (λ x. Result Complaint (Value F)) [
              | [] ↦ err empty_expression
              | (c ∷ more) ↦ tokenize unicode (c ∷ more) >>= evaluate_tokens engine
            ])
        on_trimmed [] = λ e. cc
        on_trimmed (c ∷ more) = tokens-IsCalm (tokenize unicode (c ∷ more)) (
            tokens_from-IsCalm (suc (length more)) (suc (length more)) none (c ∷ more)
              (omega arith))

    -- Evaluating any text ends: the tokenizer has fuel for its runes, and the parser for its tokens.
    pub evaluate_terminates : (expr : Text) → evaluate unicode engine expr ≢ err out_of_fuel
    evaluate_terminates expr = calm_ends (evaluate unicode engine expr) (evaluate-IsCalm expr)
      where
        calm_ends : (r : Result Complaint (Value F)) → IsCalm r → r ≢ err out_of_fuel
        calm_ends (ok v) h = λ e. cc
        calm_ends (err c) h = λ e. h (same c e)
          where
            same :
                (c : Complaint)
                → ◌≡◌ {A = Result Complaint (Value F)} (err c) (err out_of_fuel)
                → c ≡ out_of_fuel
            same c e = cc
