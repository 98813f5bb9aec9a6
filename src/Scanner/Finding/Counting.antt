-- ===== src/Scanner/Finding/Counting.antt =====
-- server/scanner/mcp.js:244-248: the counts of the four severity bands, and the score.
use monadguard.Base.{◌+◌, ◌≤◌, ◌≡◌, List, [], ◌∷◌, arith, length, keep}
use monadguard.Scanner.Finding.{Finding, Tally, tally, score}

-- The counts of the four severity bands add up to the number of findings.
pub tally-total :
    (fs : List Finding)
    → (tally fs).crits + (tally fs).highs + (tally fs).mediums + (tally fs).lows ≡ length fs
unfolding tally keep
tally-total [] = omega arith
tally-total (f ∷ fs) = ground (arith, tally-total fs)

pub score-le : (t : Tally) → score t ≤ 100
unfolding score
score-le t = omega arith

-- A score of 0 says that there is no finding.
pub score-zero : (fs : List Finding) → score (tally fs) ≡ 0 → fs ≡ []
unfolding score
score-zero [] h = ground arith
score-zero (f ∷ fs) h = absurd (omega (arith, tally-total (f ∷ fs)))
