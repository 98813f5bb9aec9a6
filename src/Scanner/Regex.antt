-- ===== src/Scanner/Regex.antt =====
-- Regular expressions. The JavaScript engine that runs them is not in the repository: it is the
-- parameters `exec` and `match_indices` of the scanners. A pattern is kept as its source text with its flag `i`.
use monadguard.Base.{String, ℕ, Bool, List, Option, none, some, true, false, Text}

pub record Regex : Type 0 where
  pub source : String
  pub ignore_case : Bool

-- `text.match(re)?.[0]`: the text of the first match.
abbrev pub Exec : Type 0
Exec = Regex → Text → Option Text

-- The indices of the successive matches of a pattern with the flag `g`.
abbrev pub MatchIndices : Type 0
MatchIndices = Regex → Text → List ℕ

-- `re.test(text)`
abbrev pub test : Exec → Regex → Text → Bool
test exec re t = elim (exec re t) [ none ↦ false | some m ↦ true ]
