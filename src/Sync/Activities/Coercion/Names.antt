-- ===== src/Sync/Activities/Coercion/Names.antt =====
-- The names of the types of CoerceTypesActivity, listed by what a value becomes.
use durable_integrations.Prelude.{
  Bool, true, false, List, [], ◌∷◌, ◌++◌, ◌≡◌, arith, sym, subst, ◌⊎◌, inl, inr, any, Bool-cases,
}
use durable_integrations.Prelude.Bytes.{Text, bytes, eqb, eqb_iff}
use durable_integrations.Prelude.Int.{ℤ}
use durable_integrations.Mapping.Expression.Syntax.{Value, boolean, number, integer, text}
use durable_integrations.Sync.Activities.Coercion.{
  Kind, string_kind, int_kind, float_kind, bool_kind, time_kind, other_kind, kind_named,
}

abbrev pub text_names : List Text
text_names = bytes "string" ∷ bytes "timestamp" ∷ bytes "datetime" ∷ []

abbrev pub integer_names : List Text
integer_names = bytes "int" ∷ bytes "int64" ∷ bytes "integer" ∷ []

abbrev pub number_names : List Text
number_names = bytes "number" ∷ bytes "float" ∷ bytes "float64" ∷ bytes "double" ∷ []

abbrev pub boolean_names : List Text
boolean_names = bytes "bool" ∷ bytes "boolean" ∷ []

abbrev pub all_names : List Text
all_names = text_names ++ integer_names ++ number_names ++ boolean_names

abbrev pub is_among : Text → List Text → Bool
is_among t names = any (eqb t) names

abbrev Each {ℓ} : (Text → Type ℓ) → List Text → Type ℓ
Each P [] = Unit
Each P (n ∷ names) = P n × Each P names

each_named {ℓ} :
    (P : Text → Type ℓ) (t : Text) (names : List Text)
    → Each P names
    → is_among t names ≡ true
    → P t
each_named P t [] h e = cc
each_named P t (n ∷ names) h e = elim (Bool-cases (eqb t n)) [
  | inl here ↦ subst P (sym ((eqb_iff t n).0 here)) h.0
  | inr there ↦ each_named P t names h.1 (rw there at e)
]

unlisted : (t : Text) → is_among t all_names ≡ false → kind_named t ≡ other_kind
unfolding kind_named
unlisted t e = ground arith

-- The names under which a conversion may fail.
abbrev pub fallible_names : List Text
fallible_names = integer_names ++ number_names ++ boolean_names

pub infallible :
    (t : Text)
    → is_among t fallible_names ≡ false
    → (kind_named t ≡ string_kind) ⊎ (kind_named t ≡ time_kind) ⊎ (kind_named t ≡ other_kind)
unfolding kind_named
infallible t e = ground arith

module _ {ℓ} {F : Type ℓ} where
  -- What `old` may have become under the type of this name, in lower case: a text, an integer, a number
  -- or a boolean as the name asks, and itself under a name that is not listed.
  abbrev pub IsNamed : Text → Value F → Value F → Type ℓ
  IsNamed t old new =
      (is_among t text_names ≡ true → (s : Text) × (new ≡ text s))
      × (is_among t integer_names ≡ true → (i : ℤ) × (new ≡ integer i))
      × (is_among t number_names ≡ true → (x : F) × (new ≡ number x))
      × (is_among t boolean_names ≡ true → (b : Bool) × (new ≡ boolean b))
      × (is_among t all_names ≡ false → new ≡ old)

  -- What the branch of the switch makes of `old`.
  abbrev pub HasKind : Kind → Value F → Value F → Type ℓ
  HasKind string_kind old v = (t : Text) × (v ≡ text t)
  HasKind int_kind old v = (i : ℤ) × (v ≡ integer i)
  HasKind float_kind old v = (x : F) × (v ≡ number x)
  HasKind bool_kind old v = (b : Bool) × (v ≡ boolean b)
  HasKind time_kind old v = (t : Text) × (v ≡ text t)
  HasKind other_kind old v = v ≡ old

  pub HasKind-IsNamed :
      (t : Text) (old new : Value F) → HasKind (kind_named t) old new → IsNamed t old new
  unfolding kind_named
  HasKind-IsNamed t old new h = (
    λ e.
        each_named (λ n. HasKind (kind_named n) old new → (s : Text) × (new ≡ text s)) t text_names
          (λ k. k, (λ k. k, (λ k. k, tt))) e h,
    λ e.
        each_named (λ n. HasKind (kind_named n) old new → (i : ℤ) × (new ≡ integer i)) t
          integer_names (λ k. k, (λ k. k, (λ k. k, tt))) e h,
    λ e.
        each_named (λ n. HasKind (kind_named n) old new → (x : F) × (new ≡ number x)) t number_names
          (λ k. k, (λ k. k, (λ k. k, (λ k. k, tt)))) e h,
    λ e.
        each_named (λ n. HasKind (kind_named n) old new → (b : Bool) × (new ≡ boolean b)) t
          boolean_names (λ k. k, (λ k. k, tt)) e h,
    λ e. subst (λ k. HasKind k old new) (unlisted t e) h,
  )
