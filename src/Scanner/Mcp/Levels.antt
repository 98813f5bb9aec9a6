-- ===== src/Scanner/Mcp/Levels.antt =====
-- What the level of an examined manifest says of its findings.
use monadguard.Base.{
  IsSorted, ◌+◌, ◌<◌, ◌≤◌, ◌≡◌, ◌↔◌, ◌⊎◌, inl, inr, Bool-cases, true, false, List, ◌∈◌, All,
  All-map, any, any-false, leb, length, length-take, arith,
}
use monadguard.Scanner.Regex.{Exec, MatchIndices}
use monadguard.Scanner.Finding.{as_severe, Finding, safe, critical, tally, score, sort_by_sev}
use monadguard.Scanner.Finding.Sorting.{sort_by_sev-stable}
use monadguard.Scanner.Engine.Bands.{crits-pos, crits_pos_of_mem}
use monadguard.Scanner.Mcp.{examine, mcp_level, found_in}
use monadguard.Scanner.Mcp.Texts.{Manifest}

below_sixty : (fs : List Finding) → any (λ f. leb 60 f.sev) fs ≡ false → All (λ f. f.sev < 60) fs
below_sixty fs h =
    All-map (λ (f : Finding) (e : leb 60 f.sev ≡ false). ground arith) fs (any-false _ fs h)

module _ (exec : Exec) (match_indices : MatchIndices) (m : Manifest) where
  -- A full scan of a manifest ends at CRITICAL exactly when it reports a finding of severity 90 or
  -- more.
  pub examine-critical_iff :
      ((examine exec match_indices m true).level ≡ critical)
      ↔ ((f : Finding) × (f ∈ (examine exec match_indices m true).findings) × (90 ≤ f.sev))
  unfolding examine mcp_level
  examine-critical_iff =
      let fs = (examine exec match_indices m true).findings in
      (λ h. crits-pos fs (ground arith), λ w. ground (arith, crits_pos_of_mem fs w.0 w.1 w.2))

  -- A full scan of a manifest that ends at SAFE reports findings below severity 60 only, and it
  -- scores below 15 or reports nothing of medium severity or above.
  pub examine-safe :
      (examine exec match_indices m true).level ≡ safe
      → All (λ f. f.sev < 60) (examine exec match_indices m true).findings
        × (((examine exec match_indices m true).score < 15)
            ⊎ ((examine exec match_indices m true).crits
                  + (examine exec match_indices m true).highs
                  + (examine exec match_indices m true).mediums
                ≡ 0))
  unfolding examine mcp_level
  examine-safe h =
      let fs = sort_by_sev (found_in exec match_indices m true) in
      (
        below_sixty fs (ground arith),
        elim (Bool-cases (leb 15 (score (tally fs)))) [
          | inl e ↦ inr (ground arith)
          | inr e ↦ inl (ground arith)
        ],
      )

  -- A scan of either tier shows its findings in order, the free tier three of them at most.
  pub examine-free :
      (length (examine exec match_indices m false).findings ≤ 3)
      × IsSorted as_severe (examine exec match_indices m true).findings
  unfolding examine
  examine-free = (
    omega (arith, length-take 3 (sort_by_sev (found_in exec match_indices m false))),
    (sort_by_sev-stable (found_in exec match_indices m true)).0,
  )
