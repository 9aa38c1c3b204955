-- ===== src/Transform/Coercer/Kinds.antt =====
-- The types of what the built-in conversions return.
use durable_integrations.Prelude.{
  Bool, true, false, Option, none, some, List, [], ◌∷◌, ◌≡◌, refl, inl, inr, Option-cases, if_elim,
}
use durable_integrations.Prelude.Bytes.{Text, bytes}
use durable_integrations.Prelude.Int.{ℤ}
use durable_integrations.Prelude.Result.{OnOk}
use durable_integrations.Transform.Coercer.{
  Dynamic, nil, string, int, float, bool, time, other, Libraries, CoerceFunc, coercion_key,
  to_string, to_int64, to_float64, string_to_int, int_to_string, string_to_float, float_to_string,
  string_to_bool, bool_to_string, first_time, formats, string_to_time, time_to_string, int_to_float,
  float_to_int, int_to_bool, bool_to_int, float_to_bool, bool_to_float, new_type_coercer, is_one_of,
}

-- The five types that the conversions know.
pub data Kind : Type 0 where
  a_string an_int a_float a_bool a_time : Kind

abbrev pub name_of : Kind → Text
name_of a_string = bytes "string"
name_of an_int = bytes "int"
name_of a_float = bytes "float"
name_of a_bool = bytes "bool"
name_of a_time = bytes "time"

module _ {ℓ} {F T : Type ℓ} (lib : Libraries F T) where
  abbrev pub HasKind : Kind → Dynamic F T → Type ℓ
  HasKind a_string v = (t : Text) × (v ≡ string t)
  HasKind an_int v = (i : ℤ) × (v ≡ int i)
  HasKind a_float v = (x : F) × (v ≡ float x)
  HasKind a_bool v = (b : Bool) × (v ≡ bool b)
  HasKind a_time v = (t : T) × (v ≡ time t)

  -- Each value that the conversion returns has the kind.
  abbrev pub Gives : Kind → CoerceFunc F T → Type ℓ
  Gives kind convert = (v : Dynamic F T) → OnOk (HasKind kind) (convert v)

  string_to_int-Gives : Gives an_int (string_to_int lib)
  unfolding string_to_int
  string_to_int-Gives v = elim (Option-cases (lib.parse_int (lib.trim_space (to_string lib v)))) [
    | inl e ↦ elim (Option-cases (lib.parse_float (lib.trim_space (to_string lib v)))) [
      | inl f ↦ rw (e, f, string_to_int) tt
      | inr (x, f) ↦ rw (e, f, string_to_int) (lib.truncate x, refl)
    ]
    | inr (i, e) ↦ rw (e, string_to_int) (i, refl)
  ]

  int_to_string-Gives : Gives a_string (int_to_string lib)
  unfolding int_to_string
  int_to_string-Gives v = elim (Option-cases (to_int64 lib v)) [
    | inl e ↦ rw (e, int_to_string) (lib.format v, refl)
    | inr (i, e) ↦ rw (e, int_to_string) (lib.format_int i, refl)
  ]

  string_to_float-Gives : Gives a_float (string_to_float lib)
  unfolding string_to_float
  string_to_float-Gives v =
      elim (Option-cases (lib.parse_float (lib.trim_space (to_string lib v)))) [
        | inl e ↦ rw (e, string_to_float) tt
        | inr (x, e) ↦ rw (e, string_to_float) (x, refl)
      ]

  float_to_string-Gives : Gives a_string (float_to_string lib)
  unfolding float_to_string
  float_to_string-Gives v = elim (Option-cases (to_float64 lib v)) [
    | inl e ↦ rw (e, float_to_string) (lib.format v, refl)
    | inr (x, e) ↦ rw (e, float_to_string) (lib.format_float x, refl)
  ]

  int_to_float-Gives : Gives a_float (int_to_float lib)
  unfolding int_to_float
  int_to_float-Gives v = elim (Option-cases (to_int64 lib v)) [
    | inl e ↦ rw (e, int_to_float) tt
    | inr (i, e) ↦ rw (e, int_to_float) (lib.of_int i, refl)
  ]

  float_to_int-Gives : Gives an_int (float_to_int lib)
  unfolding float_to_int
  float_to_int-Gives v = elim (Option-cases (to_float64 lib v)) [
    | inl e ↦ rw (e, float_to_int) tt
    | inr (x, e) ↦ rw (e, float_to_int) (lib.truncate x, refl)
  ]

  int_to_bool-Gives : Gives a_bool (int_to_bool lib)
  unfolding int_to_bool
  int_to_bool-Gives v = elim (Option-cases (to_int64 lib v)) [
    | inl e ↦ rw (e, int_to_bool) tt
    | inr (i, e) ↦ rw (e, int_to_bool) (_, refl)
  ]

  float_to_bool-Gives : Gives a_bool (float_to_bool lib)
  unfolding float_to_bool
  float_to_bool-Gives v = elim (Option-cases (to_float64 lib v)) [
    | inl e ↦ rw (e, float_to_bool) tt
    | inr (x, e) ↦ rw (e, float_to_bool) (_, refl)
  ]

  string_to_bool-Gives : Gives a_bool (string_to_bool lib)
  unfolding string_to_bool
  string_to_bool-Gives v =
      let lower = lib.to_lower (lib.trim_space (to_string lib v)) in
      elim (Option-cases (lib.parse_bool (lib.trim_space (to_string lib v)))) [
        | inl e ↦
            rw (e, string_to_bool)
              (if_elim (OnOk (HasKind a_bool))
                (is_one_of lower (bytes "yes" ∷ bytes "y" ∷ bytes "1" ∷ bytes "on" ∷ [])) _ _
                (λ f. (true, refl))
                (λ f.
                  if_elim (OnOk (HasKind a_bool))
                    (is_one_of lower (bytes "no" ∷ bytes "n" ∷ bytes "0" ∷ bytes "off" ∷ [])) _ _
                    (λ g. (false, refl)) (λ g. tt)))
        | inr (b, e) ↦ rw (e, string_to_bool) (b, refl)
      ]

  first_time-HasKind : (fs : List Text) (s : Text) → OnOk (HasKind a_time) (first_time lib fs s)
  unfolding first_time
  first_time-HasKind [] s = elim (Option-cases (lib.parse_int s)) [
    | inl e ↦ rw (e, first_time) tt
    | inr (ts, e) ↦ rw (e, first_time) (lib.unix ts, refl)
  ]
  first_time-HasKind (f ∷ fs) s = elim (Option-cases (lib.parse_time f s)) [
    | inl e ↦ rw (e, first_time) (first_time-HasKind fs s)
    | inr (t, e) ↦ rw (e, first_time) (t, refl)
  ]

  string_to_time-Gives : Gives a_time (string_to_time lib)
  unfolding string_to_time
  string_to_time-Gives v = first_time-HasKind formats (lib.trim_space (to_string lib v))

  time_to_string-Gives : Gives a_string (time_to_string lib)
  unfolding time_to_string
  time_to_string-Gives nil = (_, refl)
  time_to_string-Gives (string t) = (_, refl)
  time_to_string-Gives (int i) = (_, refl)
  time_to_string-Gives (float x) = (_, refl)
  time_to_string-Gives (bool b) = (_, refl)
  time_to_string-Gives (time t) = (_, refl)
  time_to_string-Gives (other t) = (_, refl)

  bool_to_string-Gives : Gives a_string (bool_to_string lib)
  unfolding bool_to_string
  bool_to_string-Gives (bool true) = (_, refl)
  bool_to_string-Gives (bool false) = (_, refl)
  bool_to_string-Gives nil = (_, refl)
  bool_to_string-Gives (string t) = (_, refl)
  bool_to_string-Gives (int i) = (_, refl)
  bool_to_string-Gives (float x) = (_, refl)
  bool_to_string-Gives (time t) = (_, refl)
  bool_to_string-Gives (other t) = (_, refl)

  bool_to_int-Gives : Gives an_int (bool_to_int lib)
  unfolding bool_to_int
  bool_to_int-Gives (bool true) = (_, refl)
  bool_to_int-Gives (bool false) = (_, refl)
  bool_to_int-Gives nil = tt
  bool_to_int-Gives (string t) = tt
  bool_to_int-Gives (int i) = tt
  bool_to_int-Gives (float x) = tt
  bool_to_int-Gives (time t) = tt
  bool_to_int-Gives (other t) = tt

  bool_to_float-Gives : Gives a_float (bool_to_float lib)
  unfolding bool_to_float
  bool_to_float-Gives (bool true) = (_, refl)
  bool_to_float-Gives (bool false) = (_, refl)
  bool_to_float-Gives nil = tt
  bool_to_float-Gives (string t) = tt
  bool_to_float-Gives (int i) = tt
  bool_to_float-Gives (float x) = tt
  bool_to_float-Gives (time t) = tt
  bool_to_float-Gives (other t) = tt

  abbrev pub OnConverter : Kind → Option (CoerceFunc F T) → Type ℓ
  OnConverter kind none = Unit
  OnConverter kind (some convert) = Gives kind convert

  -- The built-in conversion between two types, if there is one.
  pub new_type_coercer-Gives :
      (from to : Kind)
      → OnConverter to (new_type_coercer lib (coercion_key (name_of from) (name_of to)))
  unfolding new_type_coercer
  new_type_coercer-Gives a_string a_string = tt
  new_type_coercer-Gives a_string an_int = string_to_int-Gives
  new_type_coercer-Gives a_string a_float = string_to_float-Gives
  new_type_coercer-Gives a_string a_bool = string_to_bool-Gives
  new_type_coercer-Gives a_string a_time = string_to_time-Gives
  new_type_coercer-Gives an_int a_string = int_to_string-Gives
  new_type_coercer-Gives an_int an_int = tt
  new_type_coercer-Gives an_int a_float = int_to_float-Gives
  new_type_coercer-Gives an_int a_bool = int_to_bool-Gives
  new_type_coercer-Gives an_int a_time = tt
  new_type_coercer-Gives a_float a_string = float_to_string-Gives
  new_type_coercer-Gives a_float an_int = float_to_int-Gives
  new_type_coercer-Gives a_float a_float = tt
  new_type_coercer-Gives a_float a_bool = float_to_bool-Gives
  new_type_coercer-Gives a_float a_time = tt
  new_type_coercer-Gives a_bool a_string = bool_to_string-Gives
  new_type_coercer-Gives a_bool an_int = bool_to_int-Gives
  new_type_coercer-Gives a_bool a_float = bool_to_float-Gives
  new_type_coercer-Gives a_bool a_bool = tt
  new_type_coercer-Gives a_bool a_time = tt
  new_type_coercer-Gives a_time a_string = time_to_string-Gives
  new_type_coercer-Gives a_time an_int = tt
  new_type_coercer-Gives a_time a_float = tt
  new_type_coercer-Gives a_time a_bool = tt
  new_type_coercer-Gives a_time a_time = tt
