-- ===== src/Mapping/Expression/Printed.antt =====
-- The parser on operands and operators that are written for a tree.
use durable_integrations.Prelude.{ℕ, ◌≡◌, refl, ap, ◌∙◌, sym, none, some, List, [], ◌∷◌, ◌++◌, ltb}
use mathlib.Core.List.{append_assoc}
use durable_integrations.Prelude.Result.{Result, ok, err, ◌>>=◌}
use durable_integrations.Mapping.Expression.Syntax.{
  Value, Token, operator, lparen, rparen, Operator, minus, Complaint, accept_sum, accept_product,
  accept_minus, unclosed,
}
use durable_integrations.Mapping.Expression.{Engine, combine, negate_value, closing}
use durable_integrations.Mapping.Expression.Reading.{
  expression, sums, term, products, unary, primary, expression_step, term_step, sums_stop,
  products_stop, sums_step, products_step, unary_minus, unary_plain, primary_paren,
}
use durable_integrations.Mapping.Expression.Trees.{wrap}

pub bind_assoc {ℓ} :
    {A B C : Type ℓ} (m : Result Complaint A) (f : A → Result Complaint B)
    (g : B → Result Complaint C)
    → (m >>= f >>= g) ≡ (m >>= λ a. f a >>= g)
bind_assoc (ok a) f g = refl
bind_assoc (err c) f g = refl

pub bind_cong {ℓ} :
    {A B : Type ℓ} (m : Result Complaint A) (f g : A → Result Complaint B)
    → ((a : A) → f a ≡ g a)
    → (m >>= f) ≡ (m >>= g)
bind_cong (ok a) f g h = h a
bind_cong (err c) f g h = refl

module _ {ℓ} {F : Type ℓ} (engine : Engine F) (ts : List Token)
    (m : Result Complaint (Value F)) where
  -- As an operand, the tokens stand for the result, whatever follows them.
  abbrev pub AtPrimary : Type ℓ
  AtPrimary = (rest : List Token) → primary engine (ts ++ rest) ≡ (m >>= λ v. ok (v, rest))

  abbrev pub AtUnary : Type ℓ
  AtUnary = (rest : List Token) → unary engine (ts ++ rest) ≡ (m >>= λ v. ok (v, rest))

  abbrev pub AtTerm : Type ℓ
  AtTerm = (rest : List Token) → term engine (ts ++ rest) ≡ (m >>= λ v. products engine v rest)

  abbrev pub AtSum : Type ℓ
  AtSum =
      (rest : List Token)
      → accept_product rest ≡ none
      → expression engine (ts ++ rest) ≡ (m >>= λ v. sums engine v rest)

  term_of_unary : AtUnary → AtTerm
  term_of_unary h rest =
      term_step engine (ts ++ rest)
      ∙ ap (λ r. r >>= λ (v, more). products engine v more) (h rest)
      ∙ bind_assoc m (λ v. ok (v, rest)) (λ (v, more). products engine v more)

  sum_of_term : AtTerm → AtSum
  sum_of_term h rest stop =
      expression_step engine (ts ++ rest)
      ∙ ap (λ r. r >>= λ (v, more). sums engine v more) (h rest)
      ∙ bind_assoc m (λ v. products engine v rest) (λ (v, more). sums engine v more)
      ∙ bind_cong m _ _
          (λ v. ap (λ r. r >>= λ (w, more). sums engine w more) (products_stop engine v rest stop))

  paren :
      AtSum
      → (rest : List Token)
      → primary engine (lparen ∷ (ts ++ rparen ∷ []) ++ rest) ≡ (m >>= λ v. ok (v, rest))
  paren h rest =
      ap (λ x. primary engine (lparen ∷ x)) (append_assoc ts (rparen ∷ []) rest)
      ∙ primary_paren engine (ts ++ rparen ∷ rest)
      ∙ ap (λ r. r >>= λ (v, more). closing engine unclosed more (ok v)) (h (rparen ∷ rest) refl)
      ∙ bind_assoc m (λ v. sums engine v (rparen ∷ rest))
          (λ (v, more). closing engine unclosed more (ok v))
      ∙ bind_cong m _ _ (λ v.
        ap (λ r. r >>= λ (w, more). closing engine unclosed more (ok w))
          (sums_stop engine v (rparen ∷ rest) refl))

module _ {ℓ} {F : Type ℓ} (engine : Engine F) (o : Operator) (ta tb : List Token)
    (ma mb : Result Complaint (Value F)) where
  -- The operands' results, and then the operator's.
  abbrev both : Result Complaint (Value F)
  both = ma >>= λ v. mb >>= λ w. combine engine o v w

  spread :
      {B : Type ℓ} (k : Value F → Result Complaint B)
      → (ma >>= λ v. mb >>= λ w. combine engine o v w >>= k) ≡ (both >>= k)
  spread k = sym (
      bind_assoc ma (λ v. mb >>= λ w. combine engine o v w) k
      ∙ bind_cong ma _ _ (λ v. bind_assoc mb (λ w. combine engine o v w) k))

  sum_binary :
      ((ts : List Token) → accept_sum (operator o ∷ ts) ≡ some (o, ts))
      → ((ts : List Token) → accept_product (operator o ∷ ts) ≡ none)
      → AtSum engine ta ma
      → AtTerm engine tb mb
      → AtSum engine (ta ++ operator o ∷ tb) both
  sum_binary is_sum no_product ha hb rest stop =
      ap (expression engine) (append_assoc ta (operator o ∷ tb) rest)
      ∙ ha (operator o ∷ tb ++ rest) (no_product (tb ++ rest))
      ∙ bind_cong ma _ _ (λ v.
        let next : Value F × List Token → Result Complaint (Value F × List Token) =
          λ (w, more). combine engine o v w >>= λ x. sums engine x more in
        sums_step engine o v (tb ++ rest) (is_sum (tb ++ rest))
        ∙ ap (λ r. r >>= next) (hb rest)
        ∙ bind_assoc mb (λ w. products engine w rest) next
        ∙ bind_cong mb _ _ (λ w. ap (λ r. r >>= next) (products_stop engine w rest stop)))
      ∙ spread (λ x. sums engine x rest)

  product_binary :
      ((ts : List Token) → accept_product (operator o ∷ ts) ≡ some (o, ts))
      → AtTerm engine ta ma
      → AtUnary engine tb mb
      → AtTerm engine (ta ++ operator o ∷ tb) both
  product_binary is_product ha hb rest =
      ap (term engine) (append_assoc ta (operator o ∷ tb) rest)
      ∙ ha (operator o ∷ tb ++ rest)
      ∙ bind_cong ma _ _ (λ v.
        let next : Value F × List Token → Result Complaint (Value F × List Token) =
          λ (w, more). combine engine o v w >>= λ x. products engine x more in
        products_step engine o v (tb ++ rest) (is_product (tb ++ rest))
        ∙ ap (λ r. r >>= next) (hb rest)
        ∙ bind_assoc mb (λ w. ok (w, rest)) next)
      ∙ spread (λ x. products engine x rest)

module _ {ℓ} {F : Type ℓ} (engine : Engine F) where
  -- What is written at each level reads as the result there.
  abbrev pub Reads : (ℕ → List Token) → Result Complaint (Value F) → Type ℓ
  Reads w m =
      AtSum engine (w 0) m
      × AtTerm engine (w 1) m
      × AtUnary engine (w 2) m
      × AtPrimary engine (w 3) m

  -- A single operand.
  pub atom-Reads :
      (ts : List Token) (m : Result Complaint (Value F))
      → AtPrimary engine ts m
      → ((rest : List Token) → accept_minus (ts ++ rest) ≡ none)
      → Reads (λ l. ts) m
  atom-Reads ts m h plain =
      let u : AtUnary engine ts m = λ rest. unary_plain engine (ts ++ rest) (plain rest) ∙ h rest in
      let t : AtTerm engine ts m = term_of_unary engine ts m u in
      (sum_of_term engine ts m t, t, u, h)

  negative_unary :
      (ts : List Token) (m : Result Complaint (Value F))
      → AtPrimary engine ts m
      → AtUnary engine (operator minus ∷ ts) (m >>= λ v. negate_value engine v)
  negative_unary ts m h rest =
      unary_minus engine (ts ++ rest)
      ∙ ap (λ r. r >>= λ (v, more). negate_value engine v >>= λ w. ok (w, more)) (h rest)
      ∙ bind_assoc m (λ v. ok (v, rest)) (λ (v, more). negate_value engine v >>= λ w. ok (w, more))
      ∙ sym (bind_assoc m (λ v. negate_value engine v) (λ w. ok (w, rest)))

  pub sum-Reads :
      (ta tb : List Token) (ma mb : Result Complaint (Value F)) (o : Operator)
      → ((ts : List Token) → accept_sum (operator o ∷ ts) ≡ some (o, ts))
      → ((ts : List Token) → accept_product (operator o ∷ ts) ≡ none)
      → AtSum engine ta ma
      → AtTerm engine tb mb
      → Reads (λ l. wrap (ltb 0 l) (ta ++ operator o ∷ tb)) (both engine o ta tb ma mb)
  sum-Reads ta tb ma mb o is_sum no_product ha hb =
      let ts = ta ++ operator o ∷ tb in
      let m = both engine o ta tb ma mb in
      let s : AtSum engine ts m = sum_binary engine o ta tb ma mb is_sum no_product ha hb in
      let (s3, t3, u3, p3) =
        atom-Reads (lparen ∷ ts ++ rparen ∷ []) m (paren engine ts m s) (λ rest. refl) in
      (s, t3, u3, p3)

  pub product-Reads :
      (ta tb : List Token) (ma mb : Result Complaint (Value F)) (o : Operator)
      → ((ts : List Token) → accept_product (operator o ∷ ts) ≡ some (o, ts))
      → AtTerm engine ta ma
      → AtUnary engine tb mb
      → Reads (λ l. wrap (ltb 1 l) (ta ++ operator o ∷ tb)) (both engine o ta tb ma mb)
  product-Reads ta tb ma mb o is_product ha hb =
      let ts = ta ++ operator o ∷ tb in
      let m = both engine o ta tb ma mb in
      let t : AtTerm engine ts m = product_binary engine o ta tb ma mb is_product ha hb in
      let s : AtSum engine ts m = sum_of_term engine ts m t in
      let (s3, t3, u3, p3) =
        atom-Reads (lparen ∷ ts ++ rparen ∷ []) m (paren engine ts m s) (λ rest. refl) in
      (s, t, u3, p3)

  pub negative-Reads :
      (ts : List Token) (m : Result Complaint (Value F))
      → AtPrimary engine ts m
      → Reads (λ l. wrap (ltb 2 l) (operator minus ∷ ts)) (m >>= λ v. negate_value engine v)
  negative-Reads ts m h =
      let negated = m >>= λ v. negate_value engine v in
      let u : AtUnary engine (operator minus ∷ ts) negated = negative_unary ts m h in
      let t : AtTerm engine (operator minus ∷ ts) negated =
        term_of_unary engine (operator minus ∷ ts) negated u in
      let s : AtSum engine (operator minus ∷ ts) negated =
        sum_of_term engine (operator minus ∷ ts) negated t in
      (s, t, u, paren engine (operator minus ∷ ts) negated s)
