-- ===== src/Prelude/Bytes.antt =====
-- Go's strings as the bytes that they are, where a component looks inside them.
use Prim.Native.Nat.{ℕ}
use Prim.Native.Char.{code}
use Prim.Native.String.{String}
use mathlib.Core.Path.{◌≡◌, refl, ap, ◌∙◌, sym, subst}
use mathlib.Core.Logic.{◌↔◌, inl, inr}
use mathlib.Core.Bool.{Bool, true, false, ◌&&◌}
use mathlib.Core.Option.{Option, none, some}
use mathlib.Core.List.{List, [], ◌∷◌, ◌++◌, append_assoc, append-nil, Memᴰ}
use mathlib.Core.List.Memᴰ
use native.Mathlib.Omega.{arith}
use durable_integrations.Prelude.Tests.{◌==◌, if◌then◌else◌, Bool-cases, ==_iff}
use durable_integrations.Prelude.Lists.{any}

abbrev pub Text : Type 0
Text = List ℕ

abbrev pub bytes : String → Text
bytes String.[] = []
bytes (String.◌∷◌ c s) = code c ∷ bytes s

-- `==` on strings.
abbrev pub eqb : Text → Text → Bool
eqb [] [] = true
eqb [] (y ∷ ys) = false
eqb (x ∷ xs) [] = false
eqb (x ∷ xs) (y ∷ ys) = (x == y) && eqb xs ys

pub eqb_iff : (xs ys : Text) → (eqb xs ys ≡ true) ↔ (xs ≡ ys)
eqb_iff [] [] = (λ e. refl, λ e. refl)
eqb_iff [] (y ∷ ys) = (λ e. cc, λ e. cc)
eqb_iff (x ∷ xs) [] = (λ e. cc, λ e. cc)
eqb_iff (x ∷ xs) (y ∷ ys) = ground (arith, eqb_iff xs ys, ==_iff x y)

-- `strings.SplitN(s, sep, 2)`: what stands before and behind the first separator, if there is one.
unfoldable pub cut_from : ℕ → Text → Text → Option (Text × Text)
cut_from sep part [] = none
cut_from sep part (c ∷ cs) =
    let more = cut_from sep (part ++ c ∷ []) cs in if c == sep then some (part, cs) else more

-- The byte does not stand in the text.
abbrev pub Lacks : ℕ → Text → Type 0
Lacks sep text = any (λ c. c == sep) text ≡ false

-- A cut at the first separator: the front has none.
abbrev pub CutsAt : ℕ → Text → Text → Text → Type 0
CutsAt sep front back text = (text ≡ front ++ sep ∷ back) × Lacks sep front

pub cut_from_complete :
    (sep : ℕ) (part front back : Text)
    → Lacks sep front
    → cut_from sep part (front ++ sep ∷ back) ≡ some (part ++ front, back)
unfolding cut_from
cut_from_complete sep part [] back h = ground (arith, append-nil part)
cut_from_complete sep part (c ∷ front) back h =
    ground
      (arith, cut_from_complete sep (part ++ c ∷ []) front back, append_assoc part (c ∷ []) front)

some_pair :
    (a b c d : Text)
    → ◌≡◌ {A = Option (Text × Text)} (some (a, b)) (some (c, d))
    → (a ≡ c) × (b ≡ d)
some_pair a b c d e = (cc, cc)

pub cut_from_sound :
    (sep : ℕ) (part text front back : Text)
    → cut_from sep part text ≡ some (front, back)
    → (more : Text) × (front ≡ part ++ more) × CutsAt sep more back text
unfolding cut_from
cut_from_sound sep part [] front back h = cc
cut_from_sound sep part (c ∷ cs) front back h = elim (Bool-cases (c == sep)) [
  | inl e ↦
      let (p, q) = some_pair part cs front back (rw e at h) in
      let here : c ≡ sep = (==_iff c sep).0 e in ([], sym p ∙ sym (append-nil part), (cc, refl))
  | inr e ↦
      let (more, p, (cuts, lacks)) =
        cut_from_sound sep (part ++ c ∷ []) cs front back (rw e at h) in
      (c ∷ more, p ∙ append_assoc part (c ∷ []) more, (ap (◌∷◌ c) cuts, ground arith))
]

pub any_iff {ℓ} :
    {A : Type ℓ} (p : A → Bool) (xs : List A)
    → (any p xs ≡ true) ↔ ((x : A) × Memᴰ x xs × (p x ≡ true))
any_iff p [] = (λ e. cc, λ (x, m, e). absurd (Memᴰ.not-nil m))
any_iff p (y ∷ ys) = (
  λ h. elim (Bool-cases (p y)) [
    | inl e ↦ (y, Memᴰ.head refl, e)
    | inr e ↦ let (x, m, f) = (any_iff p ys).0 (rw e at h) in (x, Memᴰ.tail m, f)
  ],
  λ (x, m, e). elim (Memᴰ.cases_cons m) [
    | inl same ↦ let here : p y ≡ true = subst (λ z. p z ≡ true) same e in ground arith
    | inr later ↦ let below = (any_iff p ys).1 (x, later, e) in ground (arith, below)
  ],
)
