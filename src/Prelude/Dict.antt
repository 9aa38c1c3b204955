-- ===== src/Prelude/Dict.antt =====
-- Go's `map[string]V`: an association list behind its laws. A range over a map has no fixed order
-- in Go; here it is the order of the entries, and no theorem depends on it.
use mathlib.Core.Path.{◌≡◌, sym, subst}
use mathlib.Core.Logic.{inl, inr}
use mathlib.Core.List.{List, [], ◌∷◌}
use mathlib.Core.Option.{Option, none, some}
use native.Mathlib.Omega.{arith}
use Prim.Native.String.{String}
use text.Mathlib.Text.{◌==◌ as str_eq}
use text.Mathlib.TextEquality.{eq_iff}
use durable_integrations.Prelude.Tests.{if◌then◌else◌, Bool-cases}

abbrev pub Dict {ℓ} : Type ℓ → Type ℓ
Dict V = List (String × V)

module _ {ℓ} {V : Type ℓ} where
  -- `delete(m, key)`.
  unfoldable pub remove : String → Dict V → Dict V
  remove key [] = []
  remove key ((name, old) ∷ rest) =
      let others = remove key rest in if str_eq key name then others else (name, old) ∷ others

  -- `m[key] = value`: an entry is overwritten where it stands, and a new one goes to the end.
  unfoldable pub insert : String → V → Dict V → Dict V
  insert key value [] = (key, value) ∷ []
  insert key value ((name, old) ∷ rest) =
      let others = insert key value rest in
      if str_eq key name then (name, value) ∷ rest else (name, old) ∷ others

  -- `value, ok := m[key]`.
  unfoldable pub lookup : String → Dict V → Option V
  lookup key [] = none
  lookup key ((name, value) ∷ rest) = if str_eq key name then some value else lookup key rest

  pub lookup-remove :
      (key other : String) (m : Dict V)
      → lookup other (remove key m) ≡ (if str_eq key other then none else lookup other m)
  unfolding remove lookup
  lookup-remove key other [] = ground arith
  lookup-remove key other ((name, value) ∷ rest) =
      let below = lookup-remove key other rest in
      ground (arith, below, eq_iff key other, eq_iff key name, eq_iff other name)

  pub lookup-insert :
      (key other : String) (value : V) (m : Dict V)
      → lookup other (insert key value m)
        ≡ (if str_eq key other then some value else lookup other m)
  unfolding insert lookup
  lookup-insert key other value [] = ground (arith, eq_iff key other, eq_iff other key)
  lookup-insert key other value ((name, old) ∷ rest) =
      let below = lookup-insert key other value rest in
      ground (arith, below, eq_iff key other, eq_iff key name, eq_iff other name)

-- A predicate of every entry.
abbrev pub AllEntries {ℓ κ} : {V : Type ℓ} → (String → V → Type κ) → Dict V → Type κ
AllEntries P [] = Unit
AllEntries P ((name, value) ∷ rest) = P name value × AllEntries P rest

value_of {ℓ} : {V : Type ℓ} (a b : V) → some a ≡ some b → a ≡ b
value_of a b e = cc

module _ {ℓ κ} {V : Type ℓ} (P : String → V → Type κ) where
  pub AllEntries-lookup :
      (key : String) (m : Dict V) {value : V}
      → AllEntries P m
      → lookup key m ≡ some value
      → P key value
  unfolding lookup
  AllEntries-lookup key [] all h = cc
  AllEntries-lookup key ((name, old) ∷ rest) {value} all h = elim (Bool-cases (str_eq key name)) [
    | inl e ↦
        subst (P key) (value_of old value (rw e at h))
          (subst (λ k. P k old) (sym ((eq_iff key name).0 e)) all.0)
    | inr e ↦ AllEntries-lookup key rest all.1 (rw e at h)
  ]

  pub insert-AllEntries :
      (key : String) (value : V) (m : Dict V)
      → AllEntries P m
      → P key value
      → AllEntries P (insert key value m)
  unfolding insert
  insert-AllEntries key value [] all p = (p, tt)
  insert-AllEntries key value ((name, old) ∷ rest) all p = elim (Bool-cases (str_eq key name)) [
    | inl e ↦ rw e (subst (λ k. P k value) ((eq_iff key name).0 e) p, all.1)
    | inr e ↦ rw e (all.0, insert-AllEntries key value rest all.1 p)
  ]

  pub remove-AllEntries : (key : String) (m : Dict V) → AllEntries P m → AllEntries P (remove key m)
  unfolding remove
  remove-AllEntries key [] all = tt
  remove-AllEntries key ((name, old) ∷ rest) all = elim (Bool-cases (str_eq key name)) [
    | inl e ↦ rw e (remove-AllEntries key rest all.1)
    | inr e ↦ rw e (all.0, remove-AllEntries key rest all.1)
  ]

pub ruleset dict_laws = (lookup-insert, lookup-remove)
