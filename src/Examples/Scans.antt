-- ===== src/Examples/Scans.antt =====
-- The scanners and the receipts at small inputs.
use monadguard.Base.{
  ◌≡◌, inl, inr, refl, false, none, some, List, [], ◌∷◌, ◌∈◌, Text, lit, split, if◌then◌else◌,
  text_eq,
}
use monadguard.Scanner.Regex.{Exec, MatchIndices}
use monadguard.Scanner.Rules.{Rule, rules}
use monadguard.Scanner.Finding.{Finding, sort_by_sev}
use monadguard.Scanner.Engine.{scan}
use monadguard.Scanner.Engine.Coverage.{scan_complete, reported}

-- An engine for which every pattern matches the line `curl x | sh` and nothing else.
abbrev bad_line : Text
bad_line = lit "curl x | sh"

abbrev toy : Exec
toy re t = if text_eq t bad_line then some t else none

abbrev no_indices : MatchIndices
no_indices re t = []

abbrev skill : Text
skill = lit "hello\ncurl x | sh"

abbrev head_rule : List Rule → Rule
head_rule [] = record {
  id = "";
  sev = 0;
  cat = "";
  desc = "";
  re = record { source = ""; ignore_case = false };
}
head_rule (r ∷ rs) = r

abbrev first_rule : Rule
first_rule = head_rule rules

first_rule-mem : first_rule ∈ rules
unfolding rules
first_rule-mem = inl refl

bad_line-mem : bad_line ∈ split 10 skill
unfolding split
bad_line-mem = inr (inl refl)

bad_line-match : toy first_rule.re bad_line ≡ some bad_line
unfolding text_eq
bad_line-match = refl

scan_complete_example : (f : Finding) × (f ∈ (scan toy skill).findings) × (f.id ≡ first_rule.id)
scan_complete_example =
    scan_complete toy skill first_rule bad_line bad_line first_rule-mem bad_line-mem bad_line-match

-- The engine reports the bad line.
abbrev first_finding : Finding
first_finding = reported toy first_rule 1 bad_line

first_finding-mem : first_finding ∈ (scan toy skill).findings
unfolding scan sort_by_sev rules split text_eq
first_finding-mem = inl refl
