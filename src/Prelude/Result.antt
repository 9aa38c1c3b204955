-- ===== src/Prelude/Result.antt =====
-- Go's `(A, error)` with an error type of the component's own.
use mathlib.Core.Path.{◌≡◌, refl}

pub data Result {ℓ κ} (E : Type κ) (A : Type ℓ) : Type (ℓ ⊔ κ) where
  ok : A → Result E A
  err : E → Result E A

infixl 5 ◌>>=◌
abbrev pub ◌>>=◌ {ℓ κ ι} :
    {E : Type ι} {A : Type ℓ} {B : Type κ} → Result E A → (A → Result E B) → Result E B
ok value >>= f = f value
err reason >>= f = err reason

-- What a chain of steps that succeeded went through.
pub bind_ok {ℓ κ ι} :
    {E : Type ι} {A : Type ℓ} {B : Type κ} {f : A → Result E B} {b : B} (m : Result E A)
    → (m >>= f) ≡ ok b
    → (a : A) × (m ≡ ok a) × (f a ≡ ok b)
bind_ok (err reason) h = cc
bind_ok (ok value) h = (value, refl, h)

-- A property of the value, if there is one.
abbrev pub OnOk {ℓ κ ι} : {E : Type ι} {A : Type ℓ} → (A → Type κ) → Result E A → Type κ
OnOk P (ok value) = P value
OnOk P (err reason) = Unit

pub bind-OnOk {ℓ κ ι} :
    {E : Type ι} {A B : Type ℓ} (P : B → Type κ) (m : Result E A) (f : A → Result E B)
    → ((a : A) → m ≡ ok a → OnOk P (f a))
    → OnOk P (m >>= f)
bind-OnOk P (err reason) f h = tt
bind-OnOk P (ok value) f h = h value refl
