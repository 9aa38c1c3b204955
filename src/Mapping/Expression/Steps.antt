-- ===== src/Mapping/Expression/Steps.antt =====
-- The steps that the functions of the parser share: results, the tests on the next token, and chains.
use durable_integrations.Prelude.{
  ℕ, suc, ◌≤◌, ◌≡◌, refl, ap, ◌≢◌, subst, inl, inr, some, List, length, Option-cases, if_elim,
  arith,
}
use durable_integrations.Prelude.Bytes.{Text}
use durable_integrations.Prelude.Result.{Result, ok, err, ◌>>=◌}
use durable_integrations.Mapping.Expression.Syntax.{
  Value, Token, Operator, plus, minus, star, slash, Complaint, out_of_fuel, failed, cannot_add,
  cannot_subtract, cannot_calculate, as_text, accept_lparen, accept_rparen, accept_comma,
  accept_minus, accept_sum, accept_product,
}
use durable_integrations.Mapping.Expression.{
  with_floats, to_float, Engine, Parsed, closing, call, combine, add_values, negate_value,
}

-- The fuel did not run out, and at most n tokens are left.
abbrev pub Finishes {ℓ} : {A : Type ℓ} → ℕ → Parsed A → Type 0
Finishes n (ok (v, rest)) = length rest ≤ n
Finishes n (err complaint) = complaint ≢ out_of_fuel

-- Two results are the same, which is not for want of fuel.
abbrev pub Agrees {ℓ} : {A : Type ℓ} → ℕ → Parsed A → Parsed A → Type ℓ
Agrees n r s = (r ≡ s) × Finishes n r

-- No complaint about the fuel.
abbrev pub IsCalm {ℓ} : {A : Type ℓ} → Result Complaint A → Type 0
IsCalm (ok v) = Unit
IsCalm (err complaint) = complaint ≢ out_of_fuel

pub bind-Agrees {ℓ} :
    {A B : Type ℓ} {n : ℕ} (m : ℕ) (r s : Parsed A) (k l : A × List Token → Parsed B)
    → Agrees n r s
    → ((v : A) (rest : List Token) → length rest ≤ n → Agrees m (k (v, rest)) (l (v, rest)))
    → Agrees m (r >>= k) (s >>= l)
bind-Agrees m (ok (v, rest)) s k l (e, h) next =
    subst (λ x. Agrees m (k (v, rest)) (x >>= l)) e (next v rest h)
bind-Agrees m (err complaint) s k l (e, h) next = (ap (λ x. x >>= l) e, h)

pub calm_bind-Agrees {ℓ} :
    {A B : Type ℓ} (m : ℕ) (r : Result Complaint A) (k l : A → Parsed B)
    → IsCalm r
    → ((v : A) → Agrees m (k v) (l v))
    → Agrees m (r >>= k) (r >>= l)
calm_bind-Agrees m (ok v) k l calm next = next v
calm_bind-Agrees m (err complaint) k l calm next = (refl, calm)

pub length-accept_sum :
    (ts : List Token) {o : Operator} {more : List Token}
    → accept_sum ts ≡ some (o, more)
    → length ts ≡ suc (length more)
length-accept_sum ts h = ground arith

pub length-accept_product :
    (ts : List Token) {o : Operator} {more : List Token}
    → accept_product ts ≡ some (o, more)
    → length ts ≡ suc (length more)
length-accept_product ts h = ground arith

pub length-accept_minus :
    (ts : List Token) {more : List Token}
    → accept_minus ts ≡ some more
    → length ts ≡ suc (length more)
length-accept_minus ts h = ground arith

pub length-accept_lparen :
    (ts : List Token) {more : List Token}
    → accept_lparen ts ≡ some more
    → length ts ≡ suc (length more)
length-accept_lparen ts h = ground arith

pub length-accept_rparen :
    (ts : List Token) {more : List Token}
    → accept_rparen ts ≡ some more
    → length ts ≡ suc (length more)
length-accept_rparen ts h = ground arith

pub length-accept_comma :
    (ts : List Token) {more : List Token}
    → accept_comma ts ≡ some more
    → length ts ≡ suc (length more)
length-accept_comma ts h = ground arith

module _ {ℓ} {F : Type ℓ} (engine : Engine F) where
  with_floats-IsCalm :
      (c : Complaint) (a b : Value F) (f : F → F → Result Complaint (Value F))
      → c ≢ out_of_fuel
      → ((x y : F) → IsCalm (f x y))
      → IsCalm (with_floats engine c a b f)
  with_floats-IsCalm c a b f h calm = elim (Option-cases (to_float engine a)) [
    | inl none_a ↦ rw (none_a, IsCalm) h
    | inr (x, some_a) ↦ elim (Option-cases (to_float engine b)) [
      | inl none_b ↦ rw (some_a, none_b, IsCalm) h
      | inr (y, some_b) ↦ rw (some_a, some_b, IsCalm) (calm x y)
    ]
  ]

  pub combine-IsCalm : (o : Operator) (a b : Value F) → IsCalm (combine engine o a b)
  unfolding combine add_values
  combine-IsCalm plus a b = elim (Option-cases (as_text a)) [
    | inl none_a ↦ elim (Option-cases (as_text b)) [
      | inl none_b ↦
          rw (none_a, none_b, IsCalm) (with_floats-IsCalm cannot_add a b _ (λ e. cc) (λ x y. tt))
      | inr (y, some_b) ↦ rw (none_a, some_b, IsCalm) tt
    ]
    | inr (x, some_a) ↦ rw (some_a, IsCalm) tt
  ]
  combine-IsCalm minus a b = with_floats-IsCalm cannot_subtract a b _ (λ e. cc) (λ x y. tt)
  combine-IsCalm star a b = with_floats-IsCalm cannot_calculate a b _ (λ e. cc) (λ x y. tt)
  combine-IsCalm slash a b =
      with_floats-IsCalm cannot_calculate a b _ (λ e. cc)
        λ x y. if_elim IsCalm (engine.numbers.is_zero y) _ _ (λ e h. cc) (λ e. tt)

  pub negate_value-IsCalm : (v : Value F) → IsCalm (negate_value engine v)
  unfolding negate_value
  negate_value-IsCalm v = elim (Option-cases (to_float engine v)) [
    | inl none_v ↦ rw (none_v, IsCalm) (λ e. cc)
    | inr (x, some_v) ↦ rw (some_v, IsCalm) tt
  ]

  pub call-IsCalm : (name : Text) (args : List (Value F)) → IsCalm (call engine name args)
  unfolding call
  call-IsCalm name args = elim (Option-cases (engine.get_func name)) [
    | inl missing ↦ rw (missing, IsCalm) (λ e. cc)
    | inr (f, yes_f) ↦ rw (yes_f, IsCalm) (answered (f args))
  ]
    where
      answered :
          (r : Result Text (Value F)) → IsCalm (elim r [ err m ↦ err (failed m) | ok v ↦ ok v ])
      answered (ok v) = tt
      answered (err m) = λ e. cc

  pub closing-Agrees :
      (n : ℕ) (c : Complaint) (ts : List Token) (r : Result Complaint (Value F))
      → length ts ≤ n
      → c ≢ out_of_fuel
      → IsCalm r
      → Agrees n (closing engine c ts r) (closing engine c ts r)
  closing-Agrees n c ts r le h calm = elim (Option-cases (accept_rparen ts)) [
    | inl missing ↦ rw (missing, closing) (refl, h)
    | inr (rest, yes_p) ↦
        rw (yes_p, closing)
          (calm_bind-Agrees n r _ _ calm
            (λ v. (refl, omega (arith, length-accept_rparen ts yes_p))))
  ]
