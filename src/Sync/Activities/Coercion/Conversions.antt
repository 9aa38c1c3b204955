-- ===== src/Sync/Activities/Coercion/Conversions.antt =====
-- What a conversion makes of a value, and when it fails.
use durable_integrations.Prelude.{
  Bool, true, false, none, some, ◌≡◌, refl, arith, Option-cases, Bool-cases, inl, inr,
}
use durable_integrations.Prelude.Bytes.{Text}
use durable_integrations.Mapping.Expression.Syntax.{
  Value, null, boolean, number, integer, text, array, object,
}
use durable_integrations.Sync.Activities.{Libraries}
use durable_integrations.Sync.Activities.Coercion.{
  Kind, string_kind, int_kind, float_kind, bool_kind, time_kind, other_kind, kind_of, kind_named,
  coerce_value, coerce_to_int64, coerce_to_float64, coerce_to_bool, coerce_to,
}
use durable_integrations.Sync.Activities.Coercion.Names.{
  IsNamed, HasKind, HasKind-IsNamed, is_among, fallible_names, infallible,
}

-- The value is a number or a boolean of JSON.
abbrev pub is_scalar {ℓ} : {F : Type ℓ} → Value F → Bool
is_scalar (number x) = true
is_scalar (boolean b) = true
is_scalar null = false
is_scalar (integer i) = false
is_scalar (text t) = false
is_scalar (array items) = false
is_scalar (object fields) = false

module _ {ℓ} {F : Type ℓ} (lib : Libraries F) where
  coerce_to-HasKind :
      (kind : Kind) (v w : Value F) → coerce_to lib kind v ≡ some w → HasKind kind v w
  unfolding coerce_to
  coerce_to-HasKind string_kind v w h = ground arith
  coerce_to-HasKind int_kind v w h = elim (Option-cases (coerce_to_int64 lib v)) [
    | inl e ↦ cc
    | inr (i, e) ↦ (i, ground arith)
  ]
  coerce_to-HasKind float_kind v w h = elim (Option-cases (coerce_to_float64 lib v)) [
    | inl e ↦ cc
    | inr (x, e) ↦ (x, ground arith)
  ]
  coerce_to-HasKind bool_kind v w h = elim (Option-cases (coerce_to_bool lib v)) [
    | inl e ↦ cc
    | inr (b, e) ↦ (b, ground arith)
  ]
  coerce_to-HasKind time_kind v w h = ground arith
  coerce_to-HasKind other_kind v w h = ground arith

  pub coerce_value-IsNamed :
      (target : Text) (v w : Value F)
      → coerce_value lib target v ≡ some w
      → IsNamed (lib.to_lower target) v w
  unfolding coerce_value kind_of
  coerce_value-IsNamed target v w h =
      HasKind-IsNamed (lib.to_lower target) v w
        (coerce_to-HasKind (kind_named (lib.to_lower target)) v w h)

  -- Only a conversion to an integer, a number or a boolean fails.
  pub coerce_value_fails :
      (target : Text) (v : Value F)
      → coerce_value lib target v ≡ none
      → is_among (lib.to_lower target) fallible_names ≡ true
  unfolding coerce_value kind_of coerce_to
  coerce_value_fails target v h =
      elim (Bool-cases (is_among (lib.to_lower target) fallible_names)) [
        | inl e ↦ e
        | inr e ↦ elim (infallible (lib.to_lower target) e) [
          | inl k ↦ absurd (ground (arith, k))
          | inr (inl k) ↦ absurd (ground (arith, k))
          | inr (inr k) ↦ absurd (ground (arith, k))
        ]
      ]

  -- Numbers and booleans convert to everything.
  scalar_converts : (kind : Kind) (v : Value F) → coerce_to lib kind v ≡ none → is_scalar v ≡ false
  unfolding coerce_to coerce_to_int64 coerce_to_float64 coerce_to_bool
  scalar_converts kind (number x) h = absurd (
      elim kind as (λ k. coerce_to lib k (number x) ≡ none → ⊥) [
        | string_kind ↦ λ e. cc
        | int_kind ↦ λ e. cc
        | float_kind ↦ λ e. cc
        | bool_kind ↦ λ e. cc
        | time_kind ↦ λ e. cc
        | other_kind ↦ λ e. cc
      ]
        h)
  scalar_converts kind (boolean b) h = absurd (
      elim kind as (λ k. coerce_to lib k (boolean b) ≡ none → ⊥) [
        | string_kind ↦ λ e. cc
        | int_kind ↦ λ e.
            elim b as (λ c. coerce_to lib int_kind (boolean c) ≡ none → ⊥) [
              | true ↦ λ f. cc
              | false ↦ λ f. cc
            ]
              e
        | float_kind ↦ λ e.
            elim b as (λ c. coerce_to lib float_kind (boolean c) ≡ none → ⊥) [
              | true ↦ λ f. cc
              | false ↦ λ f. cc
            ]
              e
        | bool_kind ↦ λ e. cc
        | time_kind ↦ λ e. cc
        | other_kind ↦ λ e. cc
      ]
        h)
  scalar_converts kind null h = refl
  scalar_converts kind (integer i) h = refl
  scalar_converts kind (text t) h = refl
  scalar_converts kind (array items) h = refl
  scalar_converts kind (object fields) h = refl

  pub coerce_value_scalar :
      (target : Text) (v : Value F) → coerce_value lib target v ≡ none → is_scalar v ≡ false
  unfolding coerce_value
  coerce_value_scalar target v h = scalar_converts (kind_of lib target) v h
