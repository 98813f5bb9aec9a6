-- ===== src/Scanner/Engine.antt =====
-- server/scanner/engine.js: `scan`, the forty rules over the lines of a text.
pub mod Bands
pub mod Coverage
use monadguard.Base.{
  String, ℕ, suc, ◌+◌, Option, none, some, List, [], ◌∷◌, Text, ltb, leb, lit, split, take, str_eq,
  if◌then◌else◌,
}
use monadguard.Scanner.Regex.{Exec}
use monadguard.Scanner.Rules.{Rule, rules}
use monadguard.Scanner.Finding.{
  Finding, Level, safe, medium, high, critical, Tally, tally, score, sort_by_sev,
}
use monadguard.Scanner.Result.{ScanResult}

-- `crits > 0 ? 'CRITICAL' : highs > 2 ? 'HIGH' : score >= 15 ? 'MEDIUM' : 'SAFE'`
unfoldable pub engine_level : Tally → ℕ → Level
engine_level t points =
    if ltb 0 t.crits
    then critical
    else if ltb 2 t.highs
    then high
    else if leb 15 points
    then medium
    else safe

-- `cats[f.cat] = (cats[f.cat] || 0) + 1`
bump : String → List (String × ℕ) → List (String × ℕ)
bump cat [] = (cat, 1) ∷ []
bump cat ((c, n) ∷ m) = if str_eq c cat then (c, n + 1) ∷ m else (c, n) ∷ bump cat m

unfoldable pub categories : List (String × ℕ) → List Finding → List (String × ℕ)
unfolding bump
categories cats [] = cats
categories cats (f ∷ fs) = categories (bump f.cat cats) fs

module _ (exec : Exec) where
  -- The inner loop: the first line that the rule matches gives one finding.
  unfoldable pub first_hit : Rule → ℕ → List Text → Option Finding
  first_hit r i [] = none
  first_hit r i (l ∷ ls) =
      let rest = first_hit r (suc i) ls in
      elim (exec r.re l) [
        | none ↦ rest
        | some m ↦ some (record {
          id = r.id;
          sev = r.sev;
          cat = r.cat;
          desc = lit r.desc;
          line = some (suc i);
          field = none;
          matched = take 100 m;
        })
      ]

  unfoldable pub cons_hit : Option Finding → List Finding → List Finding
  cons_hit none fs = fs
  cons_hit (some f) fs = f ∷ fs

  unfoldable pub hits : List Rule → List Text → List Finding
  unfolding first_hit cons_hit
  hits [] lines = []
  hits (r ∷ rs) lines = cons_hit (first_hit r 0 lines) (hits rs lines)

  -- The result of a scan from the findings in the order in which they were found.
  unfoldable pub conclude : List Finding → ScanResult
  conclude found =
      let fs = sort_by_sev found in
      let t = tally fs in
      record {
        scanned = none;
        reason = none;
        score = score t;
        level = engine_level t (score t);
        findings = fs;
        crits = t.crits;
        highs = t.highs;
        mediums = t.mediums;
        lows = t.lows;
        categories = categories [] fs;
        manifest_stats = none;
        limits = none;
      }

  unfoldable pub scan : Text → ScanResult
  unfolding hits conclude
  scan text = conclude (hits rules (split 10 text))
