-- ===== src/Scanner/Free.antt =====
-- server/free_scan.js: `freeScan`, the preview of five rules.
use monadguard.Base.{
  String, ℕ, suc, ◌+◌, ◌*◌, ◌<◌, ◌≤◌, ◌≡◌, ◌↔◌, min, true, false, Option, none, some, List, [], ◌∷◌,
  ◌∈◌, All-mem, Text, ltb, leb, lit, split, take, length, keep, any, if◌then◌else◌, arith, inl, inr,
  refl, mem_of_length_pos, mem_of_keep, IsSorted,
}
use monadguard.Scanner.Regex.{Regex, Exec, test}
use monadguard.Scanner.Finding.{
  Finding, Level, safe, medium, critical, is_crit, as_severe, sort_by_sev,
}
use monadguard.Scanner.Finding.Sorting.{sort_by_sev-stable}
use monadguard.Scanner.Engine.{cons_hit}

-- A line fails the check where one of the patterns matches it.
pub record Check : Type 0 where
  pub id : String
  pub sev : ℕ
  pub cat : String
  pub desc : String
  pub patterns : List Regex

abbrev check : String → ℕ → String → String → List Regex → Check
check id sev cat desc patterns = record {
  id = id;
  sev = sev;
  cat = cat;
  desc = desc;
  patterns = patterns;
}

abbrev exact : String → Regex
exact source = record { source = source; ignore_case = false }

abbrev folded : String → Regex
folded source = record { source = source; ignore_case = true }

unfoldable pub checks : List Check
checks =
    check "S001" 100 "backdoor" "Curl pipe to shell"
      (folded "curl.*\\|.*(bash|sh|python|node)" ∷ [])
    ∷ check "S002" 100 "credentials" "Credential file access"
        (exact "cat\\s+.*\\.(env|pem|key)" ∷ exact "cat.*id_rsa" ∷ [])
    ∷ check "S003" 95 "injection" "Prompt injection attempt"
        (folded "ignore.*(previous|above).*instructions" ∷ [])
    ∷ check "S004" 90 "privilege" "Privilege escalation"
        (exact "sudo\\s+(chmod|bash|sh|python)" ∷ [])
    ∷ check "S005" 85 "wallet" "Seed phrase extraction"
        (folded "seed.phrase|mnemonic|private.key" ∷ [])
    ∷ []

pub record FreeLimits : Type 0 where
  pub rules_checked : ℕ
  pub rules_total : ℕ
  pub findings_shown : ℕ
  pub findings_total : ℕ

-- The constant field `upgrade` is left out.
pub record FreeResult : Type 0 where
  pub score : ℕ
  pub level : Level
  pub findings : List Finding
  pub crits : ℕ
  pub limits : FreeLimits

-- `crits > 0 ? 'CRITICAL' : score >= 15 ? 'MEDIUM' : 'SAFE'`
unfoldable pub free_level : ℕ → ℕ → Level
free_level crits points = if ltb 0 crits then critical else if leb 15 points then medium else safe

unfoldable pub free_score : ℕ → ℕ → ℕ
free_score crits others = min 100 (crits * 30 + others * 15)

module _ (exec : Exec) where
  -- The first line that fails the check; such a finding shows no match.
  unfoldable pub first_line : Check → ℕ → List Text → Option Finding
  first_line c i [] = none
  first_line c i (l ∷ ls) =
      let rest = first_line c (suc i) ls in
      if any (λ re. test exec re l) c.patterns
      then some (record {
        id = c.id;
        sev = c.sev;
        cat = c.cat;
        desc = lit c.desc;
        line = some (suc i);
        field = none;
        matched = [];
      })
      else rest

  unfoldable pub check_lines : List Check → List Text → List Finding
  unfolding first_line cons_hit
  check_lines [] lines = []
  check_lines (c ∷ cs) lines = cons_hit exec (first_line c 0 lines) (check_lines cs lines)

  unfoldable pub preview : List Finding → FreeResult
  unfolding sort_by_sev free_level free_score is_crit
  preview found =
      let fs = sort_by_sev found in
      let crits = length (keep is_crit fs) in
      let points = free_score crits (length (keep (λ (f : Finding). ltb f.sev 90) fs)) in
      record {
        score = points;
        level = free_level crits points;
        findings = take 3 fs;
        crits = crits;
        limits = record {
          rules_checked = 5;
          rules_total = 40;
          findings_shown = min (length fs) 3;
          findings_total = length fs;
        };
      }

  unfoldable pub free_scan : Text → FreeResult
  unfolding check_lines preview
  free_scan text = preview (check_lines checks (split 10 text))

-- Of sorted findings with a critical one, the first is critical.
head_is_crit :
    (fs : List Finding)
    → IsSorted as_severe fs
    → 0 < length (keep is_crit fs)
    → (f : Finding) × (f ∈ take 3 fs) × (90 ≤ f.sev)
unfolding is_crit keep
head_is_crit [] s h = absurd (omega arith)
head_is_crit (f ∷ fs) s h =
    let (g, m) = mem_of_length_pos (keep is_crit (f ∷ fs)) h in
    let (i, t) = mem_of_keep is_crit (f ∷ fs) g m in
    (
      f,
      inl refl,
      elim i [
        | inl e ↦ ground arith
        | inr r ↦ ground (arith, All-mem (λ x. as_severe f x ≡ true) fs g s.0 r)
      ],
    )

free_count :
    (fs : List Finding)
    → length (keep is_crit fs) + length (keep (λ (f : Finding). ltb f.sev 90) fs) ≡ length fs
unfolding is_crit keep
free_count [] = refl
free_count (f ∷ fs) = ground (arith, free_count fs)

module _ (exec : Exec) (text : Text) where
  -- The preview ends at CRITICAL only if one of the findings that it shows, three at most, has
  -- severity 90 or more.
  pub free_scan-shows_critical :
      (free_scan exec text).level ≡ critical
      → (f : Finding) × (f ∈ (free_scan exec text).findings) × (90 ≤ f.sev)
  unfolding free_scan preview free_level
  free_scan-shows_critical h =
      head_is_crit _ (sort_by_sev-stable (check_lines exec checks (split 10 text))).0 (ground arith)

  -- The preview ends at SAFE exactly when it found nothing.
  pub free_scan-safe_iff :
      ((free_scan exec text).level ≡ safe) ↔ ((free_scan exec text).limits.findings_total ≡ 0)
  unfolding free_scan preview free_level free_score
  free_scan-safe_iff =
      let fs = sort_by_sev (check_lines exec checks (split 10 text)) in
      (λ h. ground (arith, free_count fs), λ h. ground (arith, free_count fs))
