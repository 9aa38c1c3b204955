-- ===== src/Transform/Coercer/Coerced.antt =====
-- The values that Coerce returns with the built-in conversions.
use durable_integrations.Prelude.{
  Option, none, some, ◌≡◌, refl, sym, subst, inl, inr, Bool-cases, ◌⊎◌,
}
use durable_integrations.Prelude.Bytes.{Text, eqb, eqb_iff}
use durable_integrations.Prelude.Result.{Result, ok, err, OnOk}
use durable_integrations.Transform.Coercer.{
  Dynamic, nil, string, int, float, bool, time, other, Libraries, CoerceFunc, CoerceError,
  coercion_key, convert_between, normalize_type, new_type_coercer, coerce,
}
use durable_integrations.Transform.Coercer.Kinds.{
  Kind, name_of, HasKind, OnConverter, new_type_coercer-Gives,
}

module _ {ℓ} {F T : Type ℓ} (lib : Libraries F T) where
  -- The value is as it was, because it is nil or the types are the same, or it has the type asked for.
  abbrev pub IsCoerced : Kind → Kind → Dynamic F T → Dynamic F T → Type ℓ
  IsCoerced from to v w = ((w ≡ v) × ((v ≡ nil) ⊎ (name_of from ≡ name_of to))) ⊎ HasKind lib to w

  ok_value : (v w : Dynamic F T) → ◌≡◌ {A = Result CoerceError (Dynamic F T)} (ok v) (ok w) → v ≡ w
  ok_value v w e = cc

  converted :
      (kind : Kind) (converter : Option (CoerceFunc F T)) (failure : CoerceError)
      (v w : Dynamic F T)
      → OnConverter lib kind converter
      → elim converter [ none ↦ err failure | some convert ↦ convert v ] ≡ ok w
      → HasKind lib kind w
  converted kind none failure v w g h = cc
  converted kind (some convert) failure v w g h = subst (OnOk (HasKind lib kind)) h (g v)

  at_names :
      (from to : Kind) (from_type to_type : Text) (v w : Dynamic F T)
      → normalize_type lib from_type ≡ name_of from
      → normalize_type lib to_type ≡ name_of to
      → convert_between lib
          (new_type_coercer lib)
          (normalize_type lib from_type)
          (normalize_type lib to_type)
          v
        ≡ ok w
      → convert_between lib (new_type_coercer lib) (name_of from) (name_of to) v ≡ ok w
  at_names from to ft tt' v w a b h = rw (a, b) at h

  convert_between-IsCoerced :
      (from to : Kind) (v w : Dynamic F T)
      → convert_between lib (new_type_coercer lib) (name_of from) (name_of to) v ≡ ok w
      → IsCoerced from to v w
  unfolding convert_between
  convert_between-IsCoerced from to v w h = elim (Bool-cases (eqb (name_of from) (name_of to))) [
    | inl e ↦ inl (
      sym (ok_value v w (rw (e, convert_between) at h)),
      inr ((eqb_iff (name_of from) (name_of to)).0 e),
    )
    | inr e ↦ inr (
        converted to (new_type_coercer lib (coercion_key (name_of from) (name_of to))) _ v w
          (new_type_coercer-Gives lib from to) (rw (e, convert_between) at h))
  ]

  -- If the named types are among the five, a conversion with the built-in converters that succeeds gives
  -- a value of the type asked for, unless the value is nil or both types are the same, and then it gives
  -- the value itself.
  pub coerce-IsCoerced :
      (from to : Kind) (from_type to_type : Text) (v w : Dynamic F T)
      → normalize_type lib from_type ≡ name_of from
      → normalize_type lib to_type ≡ name_of to
      → coerce lib (new_type_coercer lib) from_type to_type v ≡ ok w
      → IsCoerced from to v w
  unfolding coerce
  coerce-IsCoerced from to ft tt' nil w a b h = inl (sym (ok_value nil w h), inl refl)
  coerce-IsCoerced from to ft tt' (string t) w a b h =
      convert_between-IsCoerced from to (string t) w (at_names from to ft tt' (string t) w a b h)
  coerce-IsCoerced from to ft tt' (int i) w a b h =
      convert_between-IsCoerced from to (int i) w (at_names from to ft tt' (int i) w a b h)
  coerce-IsCoerced from to ft tt' (float x) w a b h =
      convert_between-IsCoerced from to (float x) w (at_names from to ft tt' (float x) w a b h)
  coerce-IsCoerced from to ft tt' (bool y) w a b h =
      convert_between-IsCoerced from to (bool y) w (at_names from to ft tt' (bool y) w a b h)
  coerce-IsCoerced from to ft tt' (time t) w a b h =
      convert_between-IsCoerced from to (time t) w (at_names from to ft tt' (time t) w a b h)
  coerce-IsCoerced from to ft tt' (other t) w a b h =
      convert_between-IsCoerced from to (other t) w (at_names from to ft tt' (other t) w a b h)
