-- ===== src/Mapping/Auto/Distance.antt =====
-- levenshteinDistance of automapper.go, on runes. A row of the table is a list; the loops write each
-- row from its first cell to its last and read only what they have written.
pub mod Edits
pub mod Rows
use durable_integrations.Prelude.{
  ℕ, ◌+◌, ◌-◌, Bool, List, [], ◌∷◌, if◌then◌else◌, ltb, ◌==◌, length, get_or,
}
use durable_integrations.Prelude.Bytes.{Text}

-- The least of `ins`, `del` and `sub`.
abbrev pub least : ℕ → ℕ → ℕ → ℕ
least ins del sub = let min = if ltb del ins then del else ins in if ltb sub min then sub else min

abbrev pub cost : ℕ → ℕ → ℕ
cost a b = if a == b then 0 else 1

-- The loop over `i`: the cell to the left, and the row above from the cell before on.
unfoldable pub cells : List ℕ → ℕ → ℕ → List ℕ → List ℕ
cells (a ∷ more) b left (diagonal ∷ above ∷ row) =
    let cell = least (left + 1) (above + 1) (diagonal + cost a b) in
    cell ∷ cells more b cell (above ∷ row)
cells runes b left row = []

-- The loop over `j`.
unfoldable pub rows : List ℕ → List ℕ → ℕ → List ℕ → List ℕ
rows ra [] j previous = previous
rows ra (b ∷ rb) j previous = rows ra rb (j + 1) (j ∷ cells ra b j previous)

-- The first row, from `i` on.
unfoldable pub first_row : List ℕ → ℕ → List ℕ
first_row [] i = i ∷ []
first_row (a ∷ more) i = i ∷ first_row more (i + 1)

-- With the shorter text first.
abbrev pub table_distance : List ℕ → List ℕ → ℕ
table_distance ra rb = get_or (rows ra rb 1 (first_row ra 0)) (length ra) 0

unfoldable pub levenshtein_distance : List ℕ → List ℕ → ℕ
levenshtein_distance [] rb = length rb
levenshtein_distance (a ∷ ra) [] = length (a ∷ ra)
levenshtein_distance (a ∷ ra) (b ∷ rb) =
    if ltb (length (b ∷ rb)) (length (a ∷ ra))
    then table_distance (b ∷ rb) (a ∷ ra)
    else table_distance (a ∷ ra) (b ∷ rb)
