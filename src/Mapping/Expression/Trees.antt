-- ===== src/Mapping/Expression/Trees.antt =====
-- Expressions as trees: what they mean by their shape alone, and how they are written with no more
-- parentheses than the two levels of operators ask for.
use durable_integrations.Prelude.{
  ℕ, suc, ◌≡◌, Bool, true, false, ◌||◌, none, some, List, [], ◌∷◌, ◌++◌, ltb,
}
use durable_integrations.Prelude.Bytes.{Text, bytes, eqb}
use durable_integrations.Prelude.Result.{Result, ok, err, ◌>>=◌}
use durable_integrations.Mapping.Expression.Syntax.{
  Value, null, boolean, number, text, Token, number_token, string_token, field_token, ident,
  operator, lparen, rparen, comma, Operator, plus, minus, star, slash, Complaint, invalid_number,
  resolve_field,
}
use durable_integrations.Mapping.Expression.{Engine, call, combine, negate_value}

mutual
  pub data Tree : Type 0 where
    numeral literal reference : Text → Tree
    yes_word no_word null_word : Tree
    negative : Tree → Tree
    binary : Operator → Tree → Tree → Tree
    apply : Text → Trees → Tree

  pub data Trees : Type 0 where
    leaf : Trees
    also : Tree → Trees → Trees

-- + and - bind at level 0, * and / at level 1; both group to the left.
abbrev pub level : Operator → ℕ
level plus = 0
level minus = 0
level star = 1
level slash = 1

abbrev pub wrap : Bool → List Token → List Token
wrap true ts = lparen ∷ ts ++ rparen ∷ []
wrap false ts = ts

unfoldable mutual
  -- The tree as an operand at a level: 0 of a sum, 1 of a product, 2 of a sign or a product on its
  -- right, 3 behind a sign.
  pub written : ℕ → Tree → List Token
  written l (numeral t) = number_token t ∷ []
  written l (literal t) = string_token t ∷ []
  written l (reference path) = field_token path ∷ []
  written l yes_word = ident (bytes "true") ∷ []
  written l no_word = ident (bytes "false") ∷ []
  written l null_word = ident (bytes "null") ∷ []
  written l (negative a) = wrap (ltb 2 l) (operator minus ∷ written 3 a)
  written l (binary o a b) =
      wrap (ltb (level o) l) (written (level o) a ++ operator o ∷ written (suc (level o)) b)
  written l (apply name args) = ident name ∷ lparen ∷ written_args args ++ rparen ∷ []

  pub written_args : Trees → List Token
  written_args leaf = []
  written_args (also a more) = written 0 a ++ written_more more

  pub written_more : Trees → List Token
  written_more leaf = []
  written_more (also a more) = comma ∷ written 0 a ++ written_more more

-- The words of the language, which are no names of functions.
abbrev pub is_word : Text → Bool
is_word name =
    eqb name (bytes "true")
    || eqb name (bytes "false")
    || eqb name (bytes "null")
    || eqb name (bytes "nil")

-- The names of functions are not the words of the language.
unfoldable mutual
  pub IsProper : Tree → Type 0
  IsProper (negative a) = IsProper a
  IsProper (binary o a b) = IsProper a × IsProper b
  IsProper (apply name args) = (is_word name ≡ false) × AreProper args
  IsProper a = Unit

  pub AreProper : Trees → Type 0
  AreProper leaf = Unit
  AreProper (also a more) = IsProper a × AreProper more

module _ {ℓ} {F : Type ℓ} (engine : Engine F) where
  unfoldable mutual
    -- The operands from left to right, and then the operator.
    pub meaning : Tree → Result Complaint (Value F)
    meaning (numeral t) = elim (engine.numbers.parse_float t) [
      | none ↦ err (invalid_number t)
      | some x ↦ ok (number x)
    ]
    meaning (literal t) = ok (text t)
    meaning (reference path) = ok (resolve_field engine.data_map path)
    meaning yes_word = ok (boolean true)
    meaning no_word = ok (boolean false)
    meaning null_word = ok null
    meaning (negative a) = meaning a >>= λ v. negate_value engine v
    meaning (binary o a b) = meaning a >>= λ v. meaning b >>= λ w. combine engine o v w
    meaning (apply name args) = meanings [] args >>= λ values. call engine name values

    pub meanings : List (Value F) → Trees → Result Complaint (List (Value F))
    meanings before leaf = ok before
    meanings before (also a more) = meaning a >>= λ v. meanings (before ++ v ∷ []) more
