-- ===== src/Mapping/Expression/Tokens.antt =====
-- tokenize and Evaluate. A text is its runes; what is a letter, a digit or a space is a parameter.
use durable_integrations.Prelude.{
  ℕ, zero, suc, ◌+◌, ◌-◌, ◌*◌, Bool, true, false, ◌&&◌, ◌||◌, Option, none, some, List, [], ◌∷◌,
  ◌==◌, if◌then◌else◌, length, drop,
}
use durable_integrations.Prelude.Bytes.{Text}
use durable_integrations.Prelude.Result.{Result, ok, err, ◌>>=◌}
use durable_integrations.Mapping.Expression.Syntax.{
  Value, Token, number_token, string_token, field_token, ident, operator, lparen, rparen, comma,
  eof, plus, minus, star, slash, Complaint, empty_expression, unterminated_string, out_of_fuel,
  unexpected_character,
}
use durable_integrations.Mapping.Expression.{Engine, parse_expression}

-- The package unicode.
pub record Unicode : Type 0 where
  pub is_space : ℕ → Bool
  pub is_letter : ℕ → Bool
  pub is_digit : ℕ → Bool

-- The longest front whose runes all pass, and the rest.
unfoldable pub scan : (ℕ → Bool) → Text → Text × Text
scan p [] = ([], [])
scan p (c ∷ cs) = let (taken, rest) = scan p cs in if p c then (c ∷ taken, rest) else ([], c ∷ cs)

-- What stands before the closing quote, escapes as they are written, and what follows it.
unfoldable pub string_body : ℕ → Text → Option (Text × Text)
string_body quote [] = none
string_body quote (c ∷ []) = if c == quote then some ([], []) else none
string_body quote (c ∷ d ∷ ds) = elim (c == quote) [
  | true ↦ some ([], d ∷ ds)
  | false ↦ elim (c == 92) [
    | true ↦ elim (string_body quote ds) [
      | none ↦ none
      | some (body, rest) ↦ some (c ∷ d ∷ body, rest)
    ]
    | false ↦ elim (string_body quote (d ∷ ds)) [
      | none ↦ none
      | some (body, rest) ↦ some (c ∷ body, rest)
    ]
  ]
]

-- The switch at the end of the loop.
unfoldable pub symbol : ℕ → Option Token
symbol c =
    if c == 40
    then some lparen
    else if c == 41
    then some rparen
    else if c == 44
    then some comma
    else if c == 43
    then some (operator plus)
    else if c == 45
    then some (operator minus)
    else if c == 42
    then some (operator star)
    else if c == 47
    then some (operator slash)
    else none

-- Whether a minus behind this token is the sign of a number.
abbrev pub opens : Option Token → Bool
opens none = true
opens (some lparen) = true
opens (some comma) = true
opens (some (operator o)) = true
opens (some t) = false

abbrev pub starts_with : ℕ → Text → Bool
starts_with c [] = false
starts_with c (d ∷ ds) = d == c

-- A token, and the runes behind it.
abbrev pub Scanned : Type 0
Scanned = Result Complaint (Token × Text)

abbrev pub scanned : (Text → Token) → Text × Text → Scanned
scanned make (taken, rest) = ok (make taken, rest)

module _ {ℓ} {F : Type ℓ} (engine : Engine F) where
  -- Four rounds per token and four are enough fuel.
  unfoldable pub evaluate_tokens : List Token → Result Complaint (Value F)
  evaluate_tokens ts = parse_expression engine (4 * length ts + 4) ts >>= λ (v, rest). ok v

module _ (unicode : Unicode) where
  abbrev pub in_number : ℕ → Bool
  in_number c = unicode.is_digit c || (c == 46)

  abbrev pub in_ident : ℕ → Bool
  in_ident c = unicode.is_letter c || unicode.is_digit c || (c == 95)

  abbrev pub in_field : ℕ → Bool
  in_field c = in_ident c || (c == 46) || (c == 91) || (c == 93)

  abbrev pub starts_digit : Text → Bool
  starts_digit [] = false
  starts_digit (d ∷ ds) = unicode.is_digit d

  -- One round of the loop, at a rune that is no space.
  unfoldable pub next_token : ℕ → Option Token → ℕ → Text → Scanned
  next_token position previous c cs =
      if (c == 34) || (c == 39)
      then elim (string_body c cs) [
        | none ↦ err unterminated_string
        | some (body, rest) ↦ ok (string_token body, rest)
      ]
      else if (c == 36) && starts_with 46 cs
      then scanned field_token (scan in_field (drop 1 cs))
      else if unicode.is_digit c
      then scanned number_token (scan in_number (c ∷ cs))
      else if (c == 45) && starts_digit cs && opens previous
      then scanned (λ digits. number_token (c ∷ digits)) (scan in_number cs)
      else if unicode.is_letter c || (c == 95)
      then scanned ident (scan in_ident (c ∷ cs))
      else elim (symbol c) [ none ↦ err (unexpected_character c position) | some t ↦ ok (t, cs) ]

  -- The loop, in the number of runes, which is enough fuel.
  unfoldable pub tokens_from : ℕ → ℕ → Option Token → Text → Result Complaint (List Token)
  tokens_from fuel whole previous [] = ok (eof ∷ [])
  tokens_from zero whole previous (c ∷ cs) = err out_of_fuel
  tokens_from (suc fuel) whole previous (c ∷ cs) = elim (unicode.is_space c) [
    | true ↦ tokens_from fuel whole previous cs
    | false ↦ next_token (whole - length (c ∷ cs)) previous c cs >>= λ (t, rest).
        tokens_from fuel whole (some t) rest >>= λ ts. ok (t ∷ ts)
  ]

  unfoldable pub tokenize : Text → Result Complaint (List Token)
  tokenize runes = tokens_from (length runes) (length runes) none runes

  unfoldable pub trim_left : Text → Text
  trim_left [] = []
  trim_left (c ∷ cs) = let trimmed = trim_left cs in if unicode.is_space c then trimmed else c ∷ cs

  unfoldable pub trim_right : Text → Text
  trim_right [] = []
  trim_right (c ∷ cs) = elim (trim_right cs) [
    | [] ↦ if unicode.is_space c then [] else c ∷ []
    | (d ∷ ds) ↦ c ∷ d ∷ ds
  ]

  module _ {ℓ} {F : Type ℓ} (engine : Engine F) where
    unfoldable pub evaluate : Text → Result Complaint (Value F)
    evaluate expr = elim (trim_right (trim_left expr)) [
      | [] ↦ err empty_expression
      | (c ∷ cs) ↦ tokenize (c ∷ cs) >>= evaluate_tokens engine
    ]
