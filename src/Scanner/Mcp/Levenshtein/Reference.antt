-- ===== src/Scanner/Mcp/Levenshtein/Reference.antt =====
-- The table of server/scanner/mcp.js:145-152 against the recursion that defines the distance. A prefix
-- is held back to front, so that its last letter is the head.
use mathlib.Core.List.{reverse_aux}
use monadguard.Base.{
  ℕ, suc, ◌+◌, ◌≡◌, refl, ◌∙◌, ap, min, List, [], ◌∷◌, Text, ◌==◌, length, if◌then◌else◌,
}
use monadguard.Scanner.Mcp.Levenshtein.{
  fill_row, next_row, first_row, fill_rows, last_cell, levenshtein,
}

-- The distance of two texts from their heads on.
unfoldable pub distance : Text → Text → ℕ
distance [] bs = length bs
distance (a ∷ as') [] = suc (length as')
distance (a ∷ as') (b ∷ bs) =
    let skip = distance as' bs in
    let remove = distance as' (b ∷ bs) in
    let insert = distance (a ∷ as') bs in if a == b then skip else 1 + min (min remove insert) skip

-- The cells of a row behind the first, for a prefix of each text.
cells : Text → Text → Text → List ℕ
cells as' front [] = []
cells as' front (b ∷ bs) = distance as' (b ∷ front) ∷ cells as' (b ∷ front) bs

fill_row-cells :
    (a : ℕ) (as' front bs : Text)
    → fill_row a bs (distance (a ∷ as') front) (distance as' front) (cells as' front bs)
      ≡ cells (a ∷ as') front bs
unfolding fill_row cells distance
fill_row-cells a as' front [] = refl
fill_row-cells a as' front (b ∷ bs) =
    ap (λ r. distance (a ∷ as') (b ∷ front) ∷ r) (fill_row-cells a as' (b ∷ front) bs)

first_row-cells :
    (j : ℕ) (front bs : Text) → j ≡ length front → first_row j bs ≡ length front ∷ cells [] front bs
unfolding first_row cells distance
first_row-cells j front [] e = ap (λ k. k ∷ []) e
first_row-cells j front (b ∷ bs) e =
    ap (λ k. k ∷ first_row (suc j) bs) e
    ∙ ap (λ r. length front ∷ r) (first_row-cells (suc j) (b ∷ front) bs (ap suc e))

next_row-cells :
    (a : ℕ) (front bs : Text)
    → next_row (suc (length front)) a bs (distance front [] ∷ cells front [] bs)
      ≡ distance (a ∷ front) [] ∷ cells (a ∷ front) [] bs
unfolding next_row distance
next_row-cells a front bs = ap (λ r. suc (length front) ∷ r) (fill_row-cells a front [] bs)

fill_rows-cells :
    (i : ℕ) (as' front bs : Text)
    → i ≡ suc (length front)
    → fill_rows i as' bs (distance front [] ∷ cells front [] bs)
      ≡ distance (reverse_aux as' front) [] ∷ cells (reverse_aux as' front) [] bs
unfolding fill_rows
fill_rows-cells i [] front bs e = refl
fill_rows-cells i (a ∷ as') front bs e =
    rw e rw (next_row-cells a front bs)
      (fill_rows-cells (suc (suc (length front))) as' (a ∷ front) bs refl)

last_cell-cells :
    (as' front bs : Text)
    → last_cell (distance as' front ∷ cells as' front bs) ≡ distance as' (reverse_aux bs front)
unfolding last_cell cells
last_cell-cells as' front [] = refl
last_cell-cells as' front (b ∷ bs) = last_cell-cells as' (b ∷ front) bs

-- The last cell of the table is the distance of the two texts read from their ends.
pub levenshtein-distance :
    (a b : Text) → levenshtein a b ≡ distance (reverse_aux a []) (reverse_aux b [])
unfolding levenshtein distance
levenshtein-distance a b =
    rw (first_row-cells 0 [] b refl)
      (ap last_cell (fill_rows-cells 1 a [] b refl) ∙ last_cell-cells (reverse_aux a []) [] b)
