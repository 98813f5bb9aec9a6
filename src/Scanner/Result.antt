-- ===== src/Scanner/Result.antt =====
-- What a scan returns (server/scanner/engine.js:62, server/scanner/mcp.js:166-171 and 266-275).
use monadguard.Base.{String, ℕ, Bool, Option, List, ◌≡◌, false, some}
use monadguard.Scanner.Finding.{Finding, Level}

pub record ManifestStats : Type 0 where
  pub tools : ℕ
  pub resources : ℕ
  pub prompts : ℕ

pub record Limits : Type 0 where
  pub rules_checked : ℕ
  pub rules_total : ℕ
  pub tools_checked : ℕ
  pub tools_total : ℕ

-- `scanned`, `reason`, `manifest_stats` and `limits` are `none` where the scanner leaves them out.
-- Why a manifest was not examined: it has so many KB, or it declares nothing.
pub data Reason : Type 0 where
  too_large : ℕ → Reason
  nothing_declared : Reason

pub record ScanResult : Type 0 where
  pub scanned : Option Bool
  pub reason : Option Reason
  pub score : ℕ
  pub level : Level
  pub findings : List Finding
  pub crits : ℕ
  pub highs : ℕ
  pub mediums : ℕ
  pub lows : ℕ
  pub categories : List (String × ℕ)
  pub manifest_stats : Option ManifestStats
  pub limits : Option Limits

-- `result.scanned === false`
abbrev pub IsDeclined : ScanResult → Type 0
IsDeclined r = r.scanned ≡ some false
