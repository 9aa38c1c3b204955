-- ===== src/Mapping/Auto/Distance/Rows.antt =====
-- The rows of the table of levenshteinDistance.
use durable_integrations.Prelude.{
  ℕ, suc, ◌+◌, ◌≤◌, List, [], ◌∷◌, ◌++◌, ◌≡◌, refl, subst, ap, ◌∙◌, arith, length, ltb, if_elim,
  get_or,
}
use mathlib.Core.List.{append-nil}
use durable_integrations.Mapping.Auto.Distance.{
  cells, rows, first_row, table_distance, levenshtein_distance,
}
use durable_integrations.Mapping.Auto.Distance.Edits.{
  Edits, distance, distance-Edits, distance_le, turned_onto, turned-Edits, swapped, nothing,
  all_inserted, all_deleted,
}

-- The distances of the fronts of a text, turned around, to one text: of `front`, and of those with more
-- and more of `runes` before it.
unfoldable row_of : List ℕ → List ℕ → List ℕ → List ℕ
row_of front [] ys = distance front ys ∷ []
row_of front (x ∷ runes) ys = distance front ys ∷ row_of (x ∷ front) runes ys

cells-row_of :
    (front runes ys : List ℕ) (b : ℕ)
    → distance front (b ∷ ys) ∷ cells runes b (distance front (b ∷ ys)) (row_of front runes ys)
      ≡ row_of front runes (b ∷ ys)
unfolding cells row_of distance
cells-row_of front [] ys b = refl
cells-row_of front (x ∷ []) ys b = refl
cells-row_of front (x ∷ z ∷ runes) ys b =
    ap (◌∷◌ (distance front (b ∷ ys))) (cells-row_of (x ∷ front) (z ∷ runes) ys b)

rows-row_of :
    (runes front rb : List ℕ)
    → rows runes rb (length front + 1) (row_of [] runes front)
      ≡ row_of [] runes (turned_onto rb front)
unfolding rows turned_onto distance row_of
rows-row_of runes front [] = refl
rows-row_of runes front (b ∷ rb) =
    let e : length front + 1 ≡ suc (length front) = omega arith in
    ap (λ k. rows runes rb (k + 1) (k ∷ cells runes b k (row_of [] runes front))) e
    ∙ (ap (rows runes rb (suc (length front) + 1)) (cells-row_of [] runes front b)
        ∙ rows-row_of runes (b ∷ front) rb)

first_row-row_of : (runes front : List ℕ) → first_row runes (length front) ≡ row_of front runes []
unfolding first_row row_of distance
first_row-row_of [] [] = refl
first_row-row_of [] (x ∷ front) = refl
first_row-row_of (z ∷ runes) [] = ap (◌∷◌ 0) (first_row-row_of runes (z ∷ []))
first_row-row_of (z ∷ runes) (x ∷ front) =
    let e : suc (length front) + 1 ≡ suc (suc (length front)) = omega arith in
    ap (λ k. suc (length front) ∷ first_row runes k) e
    ∙ ap (◌∷◌ (suc (length front))) (first_row-row_of runes (z ∷ x ∷ front))

get_or-row_of :
    (runes front ys : List ℕ)
    → get_or (row_of front runes ys) (length runes) 0 ≡ distance (turned_onto runes front) ys
unfolding row_of turned_onto
get_or-row_of [] front ys = refl
get_or-row_of (x ∷ runes) front ys = get_or-row_of runes (x ∷ front) ys

turned_twice : (xs ys zs : List ℕ) → turned_onto (turned_onto xs ys) zs ≡ turned_onto ys (xs ++ zs)
unfolding turned_onto
turned_twice [] ys zs = refl
turned_twice (x ∷ xs) ys zs = turned_twice xs (x ∷ ys) zs

turned_back : (xs : List ℕ) → turned_onto (turned_onto xs []) [] ≡ xs
unfolding turned_onto
turned_back xs = turned_twice xs [] [] ∙ append-nil xs

-- So many edits are enough, and no fewer are.
abbrev pub IsLeast : ℕ → List ℕ → List ℕ → Type 0
IsLeast n xs ys = Edits n xs ys × ((m : ℕ) → Edits m xs ys → n ≤ m)

table_distance-distance :
    (ra rb : List ℕ) → table_distance ra rb ≡ distance (turned_onto ra []) (turned_onto rb [])
unfolding turned_onto
table_distance-distance ra rb =
    ap (λ row. get_or (rows ra rb 1 row) (length ra) 0) (first_row-row_of ra [])
    ∙ (ap (λ row. get_or row (length ra) 0) (rows-row_of ra [] rb)
        ∙ get_or-row_of ra [] (turned_onto rb []))

turn_over :
    {n : ℕ} {xs ys : List ℕ} → Edits n xs ys → Edits n (turned_onto xs []) (turned_onto ys [])
turn_over {n} {xs} {ys} e =
    let same : n + 0 ≡ n = omega arith in
    subst (λ k. Edits k (turned_onto xs []) (turned_onto ys [])) same (turned-Edits e nothing)

table_distance-IsLeast : (ra rb : List ℕ) → IsLeast (table_distance ra rb) ra rb
table_distance-IsLeast ra rb =
    let xs = turned_onto ra [] in
    let ys = turned_onto rb [] in
    rw (table_distance-distance ra rb) (
      subst (λ zs. Edits (distance xs ys) zs rb) (turned_back ra)
          (subst (Edits (distance xs ys) (turned_onto xs [])) (turned_back rb)
            (turn_over (distance-Edits xs ys))),
      λ m e. distance_le (turn_over e),
    )

IsLeast-swapped : (n : ℕ) (xs ys : List ℕ) → IsLeast n xs ys → IsLeast n ys xs
IsLeast-swapped n xs ys (e, f) = (swapped e, λ m g. f m (swapped g))

-- The distance of two texts is the least number of insertions, deletions and substitutions of single
-- runes that turn one into the other.
pub levenshtein_distance-IsLeast : (ra rb : List ℕ) → IsLeast (levenshtein_distance ra rb) ra rb
unfolding levenshtein_distance distance
levenshtein_distance-IsLeast [] rb = (all_inserted rb, λ m e. distance_le e)
levenshtein_distance-IsLeast (a ∷ ra) [] = (all_deleted (a ∷ ra), λ m e. distance_le e)
levenshtein_distance-IsLeast (a ∷ ra) (b ∷ rb) =
    if_elim (λ n. IsLeast n (a ∷ ra) (b ∷ rb)) (ltb (length (b ∷ rb)) (length (a ∷ ra))) _ _
      (λ e. IsLeast-swapped _ (b ∷ rb) (a ∷ ra) (table_distance-IsLeast (b ∷ rb) (a ∷ ra)))
      (λ e. table_distance-IsLeast (a ∷ ra) (b ∷ rb))
