-- ===== src/Mapping/Expression/Meaning.antt =====
-- The parser on what is written for a tree, and the meaning of the tree.
use durable_integrations.Prelude.{
  ℕ, suc, ◌+◌, ◌*◌, ◌≡◌, refl, ap, ◌∙◌, sym, Bool, true, false, Option, none, some, List, [], ◌∷◌,
  ◌++◌, length, ltb, arith,
}
use mathlib.Core.List.{append_assoc}
use durable_integrations.Prelude.Bytes.{Text, bytes}
use durable_integrations.Prelude.Result.{Result, ok, err, ◌>>=◌}
use durable_integrations.Mapping.Expression.Syntax.{
  Value, null, boolean, number, text, Token, number_token, string_token, field_token, ident,
  operator, lparen, rparen, eof, plus, minus, star, slash, Complaint, invalid_number, keyword,
  accept_sum, accept_product, accept_comma, accept_rparen, unclosed_call,
}
use durable_integrations.Mapping.Expression.{Engine, Parsed, call, parse_primary, closing}
use durable_integrations.Mapping.Expression.Tokens.{evaluate_tokens}
use durable_integrations.Mapping.Expression.Reading.{
  sums, primary, arguments, expression_any, sums_stop, primary_application,
  primary_application_empty, arguments_step,
}
use durable_integrations.Mapping.Expression.Trees.{
  Tree, numeral, literal, reference, yes_word, no_word, null_word, negative, binary, apply, Trees,
  leaf, also, written, written_args, written_more, is_word, wrap, level, IsProper, AreProper,
  meaning, meanings,
}
use durable_integrations.Mapping.Expression.Printed.{
  bind_assoc, bind_cong, AtSum, Reads, atom-Reads, negative-Reads, sum-Reads, product-Reads,
}

keyword-is_word {ℓ} :
    {F : Type ℓ} (name : Text) → is_word name ≡ false → keyword {F = F} name ≡ none
keyword-is_word name h = ground arith

-- What follows an argument.
written_more-accept_product :
    (more : Trees) (rest : List Token) → accept_product (written_more more ++ rparen ∷ rest) ≡ none
unfolding written_more
written_more-accept_product leaf rest = refl
written_more-accept_product (also a more) rest = refl

written_more-accept_sum :
    (more : Trees) (rest : List Token) → accept_sum (written_more more ++ rparen ∷ rest) ≡ none
unfolding written_more
written_more-accept_sum leaf rest = refl
written_more-accept_sum (also a more) rest = refl

wrap-accept_rparen :
    (b : Bool) (ts rest : List Token)
    → accept_rparen (ts ++ rest) ≡ none
    → accept_rparen (wrap b ts ++ rest) ≡ none
wrap-accept_rparen true ts rest h = refl
wrap-accept_rparen false ts rest h = h

-- No tree begins with a closing parenthesis.
written-accept_rparen :
    (l : ℕ) (e : Tree) (rest : List Token) → accept_rparen (written l e ++ rest) ≡ none
unfolding written
written-accept_rparen l (numeral t) rest = refl
written-accept_rparen l (literal t) rest = refl
written-accept_rparen l (reference path) rest = refl
written-accept_rparen l yes_word rest = refl
written-accept_rparen l no_word rest = refl
written-accept_rparen l null_word rest = refl
written-accept_rparen l (negative a) rest =
    wrap-accept_rparen (ltb 2 l) (operator minus ∷ written 3 a) rest refl
written-accept_rparen l (binary o a b) rest =
    let ts = operator o ∷ written (suc (level o)) b in
    wrap-accept_rparen (ltb (level o) l) (written (level o) a ++ ts) rest (
      ap accept_rparen (append_assoc (written (level o) a) ts rest)
      ∙ written-accept_rparen (level o) a (ts ++ rest))
written-accept_rparen l (apply name args) rest = refl

numeral_read {ℓ} :
    {F : Type ℓ} (t : Text) (rest : List Token) (x : Option F)
    → ◌≡◌ {A = Parsed (Value F)}
        (elim x [ none ↦ err (invalid_number t) | some y ↦ ok (number y, rest) ])
        ((elim x as (λ z. Result Complaint (Value F)) [
          | none ↦ err (invalid_number t)
          | some y ↦ ok (number y)
        ])
          >>= λ v. ok (v, rest))
numeral_read t rest none = refl
numeral_read t rest (some x) = refl

module _ {ℓ} {F : Type ℓ} (engine : Engine F) where
  -- Arguments, of which there is at least one, are read up to the parenthesis.
  abbrev AreRead : List (Value F) → Trees → Type ℓ
  AreRead before leaf = Unit
  AreRead before (also a more) =
      (rest : List Token)
      → arguments engine before (written_args (also a more) ++ rparen ∷ rest)
        ≡ (meanings engine before (also a more) >>= λ values. ok (values, rparen ∷ rest))

  -- What is done behind an argument.
  abbrev continue : List (Value F) → Value F × List Token → Parsed (List (Value F))
  continue before (v, rest) = elim (accept_comma rest) [
    | none ↦ ok (before ++ v ∷ [], rest)
    | some more ↦ arguments engine (before ++ v ∷ []) more
  ]

  argument_read :
      (before : List (Value F)) (a : Tree) (more : Trees) (rest : List Token)
      → AtSum engine (written 0 a) (meaning engine a)
      → arguments engine before (written_args (also a more) ++ rparen ∷ rest)
        ≡ (meaning engine a >>= λ v. continue before (v, written_more more ++ rparen ∷ rest))
  unfolding written_args
  argument_read before a more rest h =
      let tail = written_more more ++ rparen ∷ rest in
      ap (arguments engine before) (append_assoc (written 0 a) (written_more more) (rparen ∷ rest))
      ∙ arguments_step engine before (written 0 a ++ tail)
      ∙ ap (λ r. r >>= continue before) (h tail (written_more-accept_product more rest))
      ∙ bind_assoc (meaning engine a) (λ v. sums engine v tail) (continue before)
      ∙ bind_cong (meaning engine a) _ _ (λ v.
        ap (λ r. r >>= continue before)
          (sums_stop engine v tail (written_more-accept_sum more rest)))

  call_read :
      (name : Text) (args : Trees)
      → is_word name ≡ false
      → AreRead [] args
      → (rest : List Token)
      → primary engine (written 3 (apply name args) ++ rest)
        ≡ (meaning engine (apply name args) >>= λ v. ok (v, rest))
  unfolding written written_args meaning meanings
  call_read name leaf h hs rest =
      primary_application_empty engine name rest (keyword-is_word name h)
  call_read name (also a more) h hs rest =
      let done_with : List (Value F) × List Token → Parsed (Value F) =
        λ (values, left). closing engine (unclosed_call name) left (call engine name values) in
      let tail = written_more more ++ rparen ∷ rest in
      let ts = written_args (also a more) ++ rparen ∷ rest in
      let opening : accept_rparen ts ≡ none =
        ap accept_rparen (append_assoc (written 0 a) (written_more more) (rparen ∷ rest))
        ∙ written-accept_rparen 0 a tail in
      ap (λ x. primary engine (ident name ∷ lparen ∷ x))
        (append_assoc (written_args (also a more)) (rparen ∷ []) rest)
      ∙ primary_application engine name ts (keyword-is_word name h) opening
      ∙ ap (λ r. r >>= done_with) (hs rest)
      ∙ bind_assoc (meanings engine [] (also a more)) (λ values. ok (values, rparen ∷ rest))
          done_with
      ∙ sym (
          bind_assoc (meanings engine [] (also a more)) (λ values. call engine name values)
            (λ v. ok (v, rest)))

  mutual
    unfolding written written_args written_more meaning meanings parse_primary IsProper AreProper

    pub written-Reads : (e : Tree) → IsProper e → Reads engine (λ l. written l e) (meaning engine e)
    written-Reads (numeral t) h =
        atom-Reads engine (number_token t ∷ []) (meaning engine (numeral t))
          (λ rest. numeral_read t rest (engine.numbers.parse_float t)) (λ rest. refl)
    written-Reads (literal t) h =
        atom-Reads engine (string_token t ∷ []) (ok (text t)) (λ rest. refl) (λ rest. refl)
    written-Reads (reference path) h =
        atom-Reads engine (field_token path ∷ []) (meaning engine (reference path)) (λ rest. refl)
          (λ rest. refl)
    written-Reads yes_word h =
        atom-Reads engine (ident (bytes "true") ∷ []) (ok (boolean true)) (λ rest. refl)
          (λ rest. refl)
    written-Reads no_word h =
        atom-Reads engine (ident (bytes "false") ∷ []) (ok (boolean false)) (λ rest. refl)
          (λ rest. refl)
    written-Reads null_word h =
        atom-Reads engine (ident (bytes "null") ∷ []) (ok null) (λ rest. refl) (λ rest. refl)
    written-Reads (negative a) h =
        let (s, t, u, p) = written-Reads a h in
        negative-Reads engine (written 3 a) (meaning engine a) p
    written-Reads (binary plus a b) (ha, hb) =
        sum-Reads engine (written 0 a) (written 1 b) (meaning engine a) (meaning engine b) plus
          (λ ts. refl) (λ ts. refl) (written-Reads a ha).0 (written-Reads b hb).1
    written-Reads (binary minus a b) (ha, hb) =
        sum-Reads engine (written 0 a) (written 1 b) (meaning engine a) (meaning engine b) minus
          (λ ts. refl) (λ ts. refl) (written-Reads a ha).0 (written-Reads b hb).1
    written-Reads (binary star a b) (ha, hb) =
        product-Reads engine (written 1 a) (written 2 b) (meaning engine a) (meaning engine b) star
          (λ ts. refl) (written-Reads a ha).1 (written-Reads b hb).2
    written-Reads (binary slash a b) (ha, hb) =
        product-Reads engine (written 1 a) (written 2 b) (meaning engine a) (meaning engine b) slash
          (λ ts. refl) (written-Reads a ha).1 (written-Reads b hb).2
    written-Reads (apply name args) (h, hs) =
        let read : (rest : List Token)
            → primary engine (written 3 (apply name args) ++ rest)
              ≡ (meaning engine (apply name args) >>= λ v. ok (v, rest)) =
          call_read name args h (written_args-AreRead [] args hs) in
        atom-Reads engine (written 3 (apply name args)) (meaning engine (apply name args)) read
          (λ rest. refl)

    written_args-AreRead :
        (before : List (Value F)) (args : Trees) → AreProper args → AreRead before args
    written_args-AreRead before leaf hs = tt
    written_args-AreRead before (also a leaf) (h, hs) = λ rest.
        argument_read before a leaf rest (written-Reads a h).0
        ∙ sym (
            bind_assoc (meaning engine a) (λ v. ok (before ++ v ∷ []))
              (λ values. ok (values, rparen ∷ rest)))
    written_args-AreRead before (also a (also b more)) (h, hs) = λ rest.
        argument_read before a (also b more) rest (written-Reads a h).0
        ∙ bind_cong (meaning engine a) _ _
            (λ v. written_args-AreRead (before ++ v ∷ []) (also b more) hs rest)
        ∙ sym (
            bind_assoc (meaning engine a) (λ v. meanings engine (before ++ v ∷ []) (also b more))
              (λ values. ok (values, rparen ∷ rest)))

  -- Evaluating what is written for a tree, with no more parentheses than needed, gives the meaning of the
  -- tree, errors included. No function of the tree has a name that is a word of the language.
  pub evaluate_tokens-written :
      (e : Tree) → IsProper e → evaluate_tokens engine (written 0 e ++ eof ∷ []) ≡ meaning engine e
  unfolding evaluate_tokens
  evaluate_tokens-written e h =
      let ts = written 0 e ++ eof ∷ [] in
      let value : Value F × List Token → Result Complaint (Value F) = λ (v, rest). ok v in
      ap (λ r. r >>= value) ((expression_any engine (4 * length ts + 4) ts (omega arith)).0)
      ∙ ap (λ r. r >>= value) ((written-Reads e h).0 (eof ∷ []) refl)
      ∙ bind_assoc (meaning engine e) (λ v. sums engine v (eof ∷ [])) value
      ∙ bind_cong (meaning engine e) _ _
          (λ v. ap (λ r. r >>= value) (sums_stop engine v (eof ∷ []) refl))
      ∙ kept (meaning engine e)
    where
      kept : (m : Result Complaint (Value F)) → (m >>= λ v. ok v) ≡ m
      kept (ok v) = refl
      kept (err c) = refl
