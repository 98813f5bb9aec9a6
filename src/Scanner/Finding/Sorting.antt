-- ===== src/Scanner/Finding/Sorting.antt =====
-- server/scanner/mcp.js:242: the order of the findings.
use monadguard.Base.{
  ℕ, ◌≡◌, List, ◌∈◌, ◌==◌, arith, keep, IsSorted, keep-sort_by, sort_by-IsSorted, mem-sort_by,
  mem_of_sort_by,
}
use monadguard.Scanner.Finding.{Finding, as_severe, sort_by_sev}

pub mem-sort_by_sev : (g : Finding) (fs : List Finding) → g ∈ fs → g ∈ sort_by_sev fs
unfolding sort_by_sev
mem-sort_by_sev = mem-sort_by as_severe

pub mem_of_sort_by_sev : (g : Finding) (fs : List Finding) → g ∈ sort_by_sev fs → g ∈ fs
unfolding sort_by_sev
mem_of_sort_by_sev = mem_of_sort_by as_severe

-- Sorted findings stand in order of severity, the most severe first, and those of one severity in
-- the order in which they were found.
pub sort_by_sev-stable :
    (fs : List Finding)
    → IsSorted as_severe (sort_by_sev fs)
      × ((k : ℕ) → keep (λ g. g.sev == k) (sort_by_sev fs) ≡ keep (λ g. g.sev == k) fs)
unfolding sort_by_sev
sort_by_sev-stable fs = (
  sort_by-IsSorted as_severe (λ f g h. ground arith) (λ f g k h i. ground arith) fs,
  λ k. keep-sort_by as_severe (λ g. g.sev == k) (λ f g h i. ground arith) fs,
)
