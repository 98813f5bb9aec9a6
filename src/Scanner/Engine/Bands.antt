-- ===== src/Scanner/Engine/Bands.antt =====
-- What the level of `scan` says of the findings beside it.
use monadguard.Base.{
  IsSorted, ◌<◌, ◌≤◌, ◌≡◌, ◌↔◌, List, [], ◌∈◌, arith, keep, keep-mem, mem_of_keep,
  length_pos_of_mem, mem_of_length_pos, Text,
}
use monadguard.Scanner.Regex.{Exec}
use monadguard.Scanner.Finding.{as_severe, Finding, critical, tally, is_crit}
use monadguard.Scanner.Finding.Counting.{score-zero}
use monadguard.Scanner.Finding.Sorting.{sort_by_sev-stable}
use monadguard.Scanner.Engine.{conclude, scan, engine_level}

-- A band is counted above 0 exactly when a finding falls into it.
pub crits-pos : (fs : List Finding) → 0 < (tally fs).crits → (f : Finding) × (f ∈ fs) × (90 ≤ f.sev)
unfolding tally is_crit
crits-pos fs h =
    let (f, m) = mem_of_length_pos (keep is_crit fs) h in
    let (i, t) = mem_of_keep is_crit fs f m in (f, i, ground arith)

pub crits_pos_of_mem :
    (fs : List Finding) (f : Finding) → f ∈ fs → 90 ≤ f.sev → 0 < (tally fs).crits
unfolding tally is_crit
crits_pos_of_mem fs f m h =
    length_pos_of_mem (keep is_crit fs) f (keep-mem is_crit fs f m (ground arith))

-- The engine ends at CRITICAL exactly when some finding that it reports has severity 90 or more.
pub scan-critical_iff :
    (exec : Exec) (text : Text)
    → ((scan exec text).level ≡ critical)
      ↔ ((f : Finding) × (f ∈ (scan exec text).findings) × (90 ≤ f.sev))
unfolding scan conclude engine_level
scan-critical_iff exec text = (
  λ h. crits-pos (scan exec text).findings (ground arith),
  λ w. ground (arith, crits_pos_of_mem (scan exec text).findings w.0 w.1 w.2),
)

-- The findings come the most severe first, and a score of 0 means that there is none.
pub scan-IsSorted : (exec : Exec) (text : Text) → IsSorted as_severe (scan exec text).findings
unfolding scan conclude
scan-IsSorted exec text = (sort_by_sev-stable _).0

-- A text that the engine scores at 0 has no finding.
pub scan-score_zero :
    (exec : Exec) (text : Text) → (scan exec text).score ≡ 0 → (scan exec text).findings ≡ []
unfolding scan conclude
scan-score_zero exec text h = score-zero _ h
