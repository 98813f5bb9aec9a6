-- ===== src/Scanner/Finding.antt =====
-- The findings that the scanners report, their order and their counts
-- (server/scanner/engine.js:53-62, server/scanner/mcp.js:242-260).
pub mod Sorting
pub mod Counting
use monadguard.Base.{
  String, ℕ, ◌+◌, ◌*◌, min, Bool, Option, List, [], ◌∷◌, ◌&&◌, Text, ltb, leb, length, keep,
  sort_by, str_eq, if◌then◌else◌,
}

pub record Finding : Type 0 where
  pub id : String
  pub sev : ℕ
  pub cat : String
  pub desc : Text
  pub line : Option ℕ
  pub field : Option Text
  pub matched : Text

-- What a scan concludes. `other` is a level that no scanner of the program produces.
pub data Level : Type 0 where
  safe medium high critical unscanned : Level
  other : String → Level

-- `findings.sort((a, b) => b.sev - a.sev)`: stable, the most severe first.
abbrev pub as_severe : Finding → Finding → Bool
as_severe f g = leb g.sev f.sev

unfoldable pub sort_by_sev : List Finding → List Finding
unfolding sort_by
sort_by_sev = sort_by as_severe

unfoldable pub is_crit : Finding → Bool
is_crit f = leb 90 f.sev

unfoldable pub is_high : Finding → Bool
is_high f = leb 70 f.sev && ltb f.sev 90

unfoldable pub is_medium : Finding → Bool
is_medium f = leb 40 f.sev && ltb f.sev 70

unfoldable pub is_low : Finding → Bool
is_low f = ltb f.sev 40

pub record Tally : Type 0 where
  pub crits : ℕ
  pub highs : ℕ
  pub mediums : ℕ
  pub lows : ℕ

unfoldable pub tally : List Finding → Tally
unfolding is_crit is_high is_medium is_low
tally fs = record {
  crits = length (keep is_crit fs);
  highs = length (keep is_high fs);
  mediums = length (keep is_medium fs);
  lows = length (keep is_low fs);
}

-- `Math.min(100, crits*30 + highs*15 + mediums*7 + lows*2)`
unfoldable pub score : Tally → ℕ
score t = min 100 (t.crits * 30 + t.highs * 15 + t.mediums * 7 + t.lows * 2)
