-- ===== src/Mapping/Auto/Distance/Edits.antt =====
-- What an edit distance is: texts that n insertions, deletions and substitutions turn into each other,
-- and the least such n by recursion on the texts.
use durable_integrations.Prelude.{
  ℕ, suc, ◌+◌, ◌≤◌, ◌⊎◌, List, [], ◌∷◌, ◌≡◌, sym, subst, arith, length, Bool-cases, inl, inr, ◌==◌,
  ==_iff,
}
use durable_integrations.Mapping.Auto.Distance.{least, cost}

-- The texts become one another by n edits of single runes.
pub data Edits : ℕ → List ℕ → List ℕ → Type 0 where
  nothing : Edits 0 [] []
  keep : {n : ℕ} {xs ys : List ℕ} (a : ℕ) → Edits n xs ys → Edits n (a ∷ xs) (a ∷ ys)
  insert : {n : ℕ} {xs ys : List ℕ} (b : ℕ) → Edits n xs ys → Edits (suc n) xs (b ∷ ys)
  delete : {n : ℕ} {xs ys : List ℕ} (a : ℕ) → Edits n xs ys → Edits (suc n) (a ∷ xs) ys
  substitute : {n : ℕ} {xs ys : List ℕ} (a b : ℕ) → Edits n xs ys → Edits (suc n) (a ∷ xs) (b ∷ ys)

-- The least number of edits.
unfoldable pub distance : List ℕ → List ℕ → ℕ
distance [] ys = length ys
distance (a ∷ xs) [] = length (a ∷ xs)
distance (a ∷ xs) (b ∷ ys) =
    least (distance xs (b ∷ ys) + 1) (distance (a ∷ xs) ys + 1) (distance xs ys + cost a b)

least_cases :
    (i d s : ℕ)
    → (least (i + 1) (d + 1) s ≡ suc i)
      ⊎ (least (i + 1) (d + 1) s ≡ suc d)
      ⊎ (least (i + 1) (d + 1) s ≡ s)
least_cases i d s = ground arith

distance_right : (xs ys : List ℕ) (y : ℕ) → distance xs (y ∷ ys) ≤ distance xs ys + 1
unfolding distance
distance_right [] ys y = omega arith
distance_right (x ∷ xs) ys y = ground arith

distance_left : (xs ys : List ℕ) (x : ℕ) → distance (x ∷ xs) ys ≤ distance xs ys + 1
unfolding distance
distance_left [] [] x = omega arith
distance_left (x' ∷ xs) [] x = omega arith
distance_left xs (y ∷ ys) x = ground arith

-- No fewer edits are enough.
pub distance_le : {n : ℕ} {xs ys : List ℕ} → Edits n xs ys → distance xs ys ≤ n
unfolding distance
distance_le nothing = omega arith
distance_le (keep {xs} {ys} a e) = ground (arith, distance_le e)
distance_le (insert {xs} {ys} b e) = omega (arith, distance_le e, distance_right xs ys b)
distance_le (delete {xs} {ys} a e) = omega (arith, distance_le e, distance_left xs ys a)
distance_le (substitute {xs} {ys} a b e) = ground (arith, distance_le e)

pub all_inserted : (ys : List ℕ) → Edits (length ys) [] ys
all_inserted [] = nothing
all_inserted (y ∷ ys) = insert y (all_inserted ys)

pub all_deleted : (xs : List ℕ) → Edits (length xs) xs []
all_deleted [] = nothing
all_deleted (x ∷ xs) = delete x (all_deleted xs)

changed :
    {n : ℕ} {xs ys : List ℕ} (x y : ℕ) → Edits n xs ys → Edits (n + cost x y) (x ∷ xs) (y ∷ ys)
changed {n} {xs} {ys} x y e = elim (Bool-cases (x == y)) [
  | inl p ↦
      let zero_cost : n ≡ n + cost x y = ground arith in
      subst (λ k. Edits k (x ∷ xs) (y ∷ ys)) zero_cost
        (subst (λ z. Edits n (x ∷ xs) (z ∷ ys)) ((==_iff x y).0 p) (keep x e))
  | inr p ↦
      let unit_cost : suc n ≡ n + cost x y = ground arith in
      subst (λ k. Edits k (x ∷ xs) (y ∷ ys)) unit_cost (substitute x y e)
]

-- That many edits are enough.
pub distance-Edits : (xs ys : List ℕ) → Edits (distance xs ys) xs ys
unfolding distance
distance-Edits [] ys = all_inserted ys
distance-Edits (x ∷ xs) [] = all_deleted (x ∷ xs)
distance-Edits (x ∷ xs) (y ∷ ys) =
    let inserted = distance-Edits (x ∷ xs) ys in
    let deleted = distance-Edits xs (y ∷ ys) in
    let both = distance-Edits xs ys in
    let Here : ℕ → Type 0 = λ k. Edits k (x ∷ xs) (y ∷ ys) in
    elim (least_cases (distance xs (y ∷ ys)) (distance (x ∷ xs) ys) (distance xs ys + cost x y)) [
      | inl e ↦ subst Here (sym e) (delete x deleted)
      | inr (inl e) ↦ subst Here (sym e) (insert y inserted)
      | inr (inr e) ↦ subst Here (sym e) (changed x y both)
    ]

-- The front of the first text, turned around, before the second.
unfoldable pub turned_onto : List ℕ → List ℕ → List ℕ
turned_onto [] ys = ys
turned_onto (x ∷ xs) ys = turned_onto xs (x ∷ ys)

moved : (n m : ℕ) (us vs : List ℕ) → Edits (n + suc m) us vs → Edits (suc n + m) us vs
moved n m us vs e =
    let same : n + suc m ≡ suc n + m = omega arith in subst (λ k. Edits k us vs) same e

pub turned-Edits :
    {n m : ℕ} {xs ys us vs : List ℕ}
    → Edits n xs ys
    → Edits m us vs
    → Edits (n + m) (turned_onto xs us) (turned_onto ys vs)
unfolding turned_onto
turned-Edits {m} {us} {vs} nothing f =
    let same : m ≡ 0 + m = omega arith in subst (λ k. Edits k us vs) same f
turned-Edits (keep a e) f = turned-Edits e (keep a f)
turned-Edits {m} {us} {vs} (insert {n} {xs} {ys} b e) f =
    moved n m (turned_onto xs us) (turned_onto ys (b ∷ vs)) (turned-Edits e (insert b f))
turned-Edits {m} {us} {vs} (delete {n} {xs} {ys} a e) f =
    moved n m (turned_onto xs (a ∷ us)) (turned_onto ys vs) (turned-Edits e (delete a f))
turned-Edits {m} {us} {vs} (substitute {n} {xs} {ys} a b e) f =
    moved n m (turned_onto xs (a ∷ us)) (turned_onto ys (b ∷ vs))
      (turned-Edits e (substitute a b f))

-- The edits back.
pub swapped : {n : ℕ} {xs ys : List ℕ} → Edits n xs ys → Edits n ys xs
swapped nothing = nothing
swapped (keep a e) = keep a (swapped e)
swapped (insert b e) = delete b (swapped e)
swapped (delete a e) = insert a (swapped e)
swapped (substitute a b e) = substitute b a (swapped e)
