-- ===== src/Scanner/Mcp.antt =====
-- server/scanner/mcp.js: `scanMCP`, the rules for manifests of MCP servers on top of the engine's.
pub mod Rules
pub mod Texts
pub mod Levenshtein
pub mod Shadowing
pub mod Refusals
pub mod Levels
pub mod Merging
use monadguard.Base.{
  String, ℕ, ◌+◌, ◌*◌, ◌/◌, min, Bool, true, false, not, ◌&&◌, ◌||◌, Option, none, some, List, [],
  ◌∷◌, ◌++◌, map, Text, lit, any, length, leb, ltb, ◌==◌, str_eq, take, join, if◌then◌else◌,
}
use monadguard.Scanner.Regex.{Exec, MatchIndices}
use monadguard.Scanner.Finding.{
  Finding, Level, safe, medium, high, critical, unscanned, Tally, tally, score, sort_by_sev,
}
use monadguard.Scanner.Result.{
  ScanResult, ManifestStats, Limits, Reason, too_large, nothing_declared,
}
use monadguard.Scanner.Engine.{scan}
use monadguard.Scanner.Mcp.Rules.{McpRule, mcp_rules, passes}
use monadguard.Scanner.Mcp.Texts.{Manifest, Chunk, Tool, declared, extract_text, or_empty}
use monadguard.Scanner.Mcp.Shadowing.{check_tool_shadowing}

abbrev pub max_manifest_bytes : ℕ
max_manifest_bytes = 512 * 1024

-- The result for a manifest that was not examined.
unfoldable pub unscanned_result : Reason → ScanResult
unscanned_result why = record {
  scanned = some false;
  reason = some why;
  score = 0;
  level = unscanned;
  findings = [];
  crits = 0;
  highs = 0;
  mediums = 0;
  lows = 0;
  categories = [];
  manifest_stats = some (record { tools = 0; resources = 0; prompts = 0 });
  limits = none;
}

-- The rules that the loop passes over at a chunk.
unfoldable pub skips : McpRule → Chunk → Bool
skips r c =
    str_eq r.id "M010"
    || (str_eq r.id "M003" && not c.is_name)
    || (str_eq r.id "M006" && not c.is_uri)
    || (str_eq r.id "M008" && c.is_schema)

-- `crits > 0 ? … : highs > 2 ? … : (strong || (mediums + highs > 0 && score >= 15)) ? … : 'SAFE'`
unfoldable pub mcp_level : Tally → ℕ → Bool → Level
mcp_level t points strong =
    if ltb 0 t.crits
    then critical
    else if ltb 2 t.highs
    then high
    else if strong || (ltb 0 (t.mediums + t.highs) && leb 15 points)
    then medium
    else safe

-- Engine findings join those at hand, unless their rule is there already.
unfoldable pub merge : List Finding → List Finding → List Finding
merge found [] = found
merge found (f ∷ fs) =
    merge
      (if any (λ x. str_eq x.id f.id) found
        then found
        else found ++ record f { field = some (lit "content") } ∷ [])
      fs

module _ (exec : Exec) (match_indices : MatchIndices) where
  -- The rules at one chunk: the first that passes gives the chunk's only finding.
  unfoldable pub chunk_finding : List McpRule → Chunk → List Finding
  unfolding skips
  chunk_finding [] c = []
  chunk_finding (r ∷ rs) c =
      if not (skips r c) && passes exec match_indices r.check c.text
      then record {
        id = r.id;
        sev = r.sev;
        cat = r.cat;
        desc = lit r.desc;
        line = none;
        field = some c.field;
        matched = take 100 c.text;
      }
        ∷ []
      else chunk_finding rs c

  unfoldable pub chunk_findings : List McpRule → List Chunk → List Finding
  unfolding chunk_finding
  chunk_findings rs [] = []
  chunk_findings rs (c ∷ cs) = chunk_finding rs c ++ chunk_findings rs cs

  -- All that is found, in the order in which it is pushed.
  unfoldable pub found_in : Manifest → Bool → List Finding
  unfolding chunk_findings merge
  found_in m full =
      let chunks = extract_text m in
      let own = chunk_findings (if full then mcp_rules else take 3 mcp_rules) chunks in
      if full
      then merge (own ++ check_tool_shadowing (or_empty m.tools))
          (scan exec (join (lit "\n") (map (λ (c : Chunk). c.text) chunks))).findings
      else own

  unfoldable pub examine : Manifest → Bool → ScanResult
  unfolding mcp_level
  examine m full =
      let fs = sort_by_sev (found_in m full) in
      let t = tally fs in
      let tool_count = length (or_empty m.tools) in
      record {
        scanned = some true;
        reason = none;
        score = score t;
        level = mcp_level t (score t) (any (λ f. leb 60 f.sev) fs);
        findings = if full then fs else take 3 fs;
        crits = t.crits;
        highs = t.highs;
        mediums = t.mediums;
        lows = t.lows;
        categories = [];
        manifest_stats = some (record {
          tools = tool_count;
          resources = length (or_empty m.resources);
          prompts = length (or_empty m.prompts);
        });
        limits =
            if full
            then none
            else some (record {
              rules_checked = 3;
              rules_total = length mcp_rules + 40;
              tools_checked = min tool_count 3;
              tools_total = tool_count;
            });
      }

  -- A manifest within the cap.
  unfoldable pub scan_capped : Option Manifest → Bool → ScanResult
  unfolding unscanned_result
  scan_capped none full = unscanned_result nothing_declared
  scan_capped (some m) full =
      if declared m == 0 then unscanned_result nothing_declared else examine m full

  -- `json` is the text of `JSON.stringify(manifest ?? null)`; a manifest that is not there declares
  -- nothing.
  unfoldable pub scan_mcp : Text → Option Manifest → Bool → ScanResult
  unfolding unscanned_result scan_capped
  scan_mcp json manifest full =
      if ltb max_manifest_bytes (length json)
      then unscanned_result (too_large ((length json + 512) / 1024))
      else scan_capped manifest full
