-- ===== src/Scanner/Mcp/Levenshtein.antt =====
-- server/scanner/mcp.js:145-152: the edit distance, row by row. `row` is `dp[i - 1]` and the result
-- `dp[i]`.
pub mod Reference
pub mod Edits
use monadguard.Base.{ℕ, suc, ◌+◌, min, List, [], ◌∷◌, Text, ◌==◌, if◌then◌else◌}

-- The cells behind the first: `left` is `dp[i][j-1]`, `diagonal` is `dp[i-1][j-1]`, and the list
-- begins with `dp[i-1][j]`.
unfoldable pub fill_row : ℕ → Text → (left diagonal : ℕ) → List ℕ → List ℕ
fill_row a (b ∷ bs) left diagonal (above ∷ row) =
    let cell = if a == b then diagonal else 1 + min (min above left) diagonal in
    cell ∷ fill_row a bs cell above row
fill_row a [] left diagonal row = []
fill_row a (b ∷ bs) left diagonal [] = []

unfoldable pub next_row : ℕ → ℕ → Text → List ℕ → List ℕ
unfolding fill_row
next_row i a bs [] = []
next_row i a bs (diagonal ∷ row) = i ∷ fill_row a bs i diagonal row

-- `dp[0][j] = j`
unfoldable pub first_row : ℕ → Text → List ℕ
first_row j [] = j ∷ []
first_row j (b ∷ bs) = j ∷ first_row (suc j) bs

unfoldable pub fill_rows : ℕ → Text → Text → List ℕ → List ℕ
unfolding next_row
fill_rows i [] bs row = row
fill_rows i (a ∷ as') bs row = fill_rows (suc i) as' bs (next_row i a bs row)

unfoldable pub last_cell : List ℕ → ℕ
last_cell [] = 0
last_cell (n ∷ []) = n
last_cell (n ∷ m ∷ ns) = last_cell (m ∷ ns)

-- `dp[a.length][b.length]`
unfoldable pub levenshtein : Text → Text → ℕ
unfolding first_row fill_rows last_cell
levenshtein a b = last_cell (fill_rows 1 a b (first_row 0 b))
