-- ===== src/Examples/Manifests.antt =====
-- The scan of manifests and the receipts at small inputs.
use monadguard.Base.{
  keep, split, join, truthy, any, ◌+◌, ◌<◌, ◌≤◌, ◌≡◌, ◌↔◌, ◌⊎◌, inl, refl, true, false, false, none,
  some, List, [], ◌∷◌, ◌∈◌, All, Text, lit, length,
}
use monadguard.Scanner.Regex.{Exec, MatchIndices}
use monadguard.Scanner.Finding.{Finding, safe, tally, sort_by_sev}
use monadguard.Scanner.Result.{IsDeclined}
use monadguard.Scanner.Engine.{scan}
use monadguard.Scanner.Mcp.{found_in, scan_mcp, examine, max_manifest_bytes}
use monadguard.Scanner.Mcp.Rules.{mcp_rules, passes}
use monadguard.Scanner.Mcp.Shadowing.{check_tool_shadowing}
use monadguard.Scanner.Rules.{Rule, rules}
use monadguard.Scanner.Engine.Coverage.{scan_complete}
use monadguard.Scanner.Mcp.Texts.{extract_text, Manifest, Tool, declared}
use monadguard.Scanner.Mcp.Refusals.{scan_mcp-IsDeclined_iff, DeclaresNothing}
use monadguard.Scanner.Mcp.Levels.{examine-safe}
use monadguard.Scanner.Mcp.Merging.{examine-engine, all_text}
use monadguard.Receipt.{ReceiptRequest, clean, to_verdict, build_receipt, payload_of}
use monadguard.Receipt.Clearing.{clean_receipt}

-- An engine that finds nothing, and one that finds everything.
abbrev blind : Exec
blind re t = none

abbrev paranoid : Exec
paranoid re t = some t

abbrev no_indices : MatchIndices
no_indices re t = []

abbrev adder : Tool
adder = record {
  name = some (lit "add");
  description = some (lit "Adds two numbers");
  input_schema = none;
}

abbrev calculator : Manifest
calculator = record {
  name = some (lit "calc");
  description = none;
  tools = some (adder ∷ []);
  resources = none;
  prompts = none;
}

abbrev json : Text
json = lit "{}"

scan_mcp-IsDeclined_iff_example :
    IsDeclined (scan_mcp blind no_indices json (some calculator) true)
    ↔ ((max_manifest_bytes < length json) ⊎ DeclaresNothing (some calculator))
scan_mcp-IsDeclined_iff_example =
    scan_mcp-IsDeclined_iff blind no_indices json (some calculator) true

calculator_safe : (examine blind no_indices calculator true).level ≡ safe
unfolding examine tally keep sort_by_sev found_in scan rules split join extract_text truthy
    mcp_rules passes any check_tool_shadowing
calculator_safe = refl

examine-safe_example :
    All (λ f. f.sev < 60) (examine blind no_indices calculator true).findings
    × (((examine blind no_indices calculator true).score < 15)
        ⊎ ((examine blind no_indices calculator true).crits
              + (examine blind no_indices calculator true).highs
              + (examine blind no_indices calculator true).mediums
            ≡ 0))
examine-safe_example = examine-safe blind no_indices calculator calculator_safe

abbrev no_rule : Rule
no_rule = record {
  id = "";
  sev = 0;
  cat = "";
  desc = "";
  re = record { source = ""; ignore_case = false };
}

abbrev first_rule : List Rule → Rule
first_rule [] = no_rule
first_rule (r ∷ rs) = r

first_rule-mem : first_rule rules ∈ rules
unfolding rules
first_rule-mem = inl refl

calc-mem : lit "calc" ∈ split 10 (all_text paranoid no_indices calculator)
unfolding split join extract_text truthy
calc-mem = inl refl

calc-hit :
    (f : Finding) × (f ∈ (scan paranoid (all_text paranoid no_indices calculator)).findings)
    × (f.id ≡ (first_rule rules).id)
calc-hit =
    scan_complete paranoid (all_text paranoid no_indices calculator) (first_rule rules) (lit "calc")
      (lit "calc") first_rule-mem calc-mem refl

examine-engine_example :
    (g : Finding) × (g ∈ (examine paranoid no_indices calculator true).findings)
    × (g.id ≡ calc-hit.0.id)
examine-engine_example = examine-engine paranoid no_indices calculator calc-hit.0 calc-hit.1

abbrev request : ReceiptRequest
request = record {
  tool = record { id = lit "0x1"; kind = lit "mcp"; name = lit "calc"; origin = lit "npm:calc" };
  content_hash = lit "0x2";
  result = scan_mcp blind no_indices json (some calculator) true;
  attestor_key = record { x = lit "0x3"; y = lit "0x4" };
  issued_at = none;
  ttl_days = 90;
}

request_built : build_receipt 5000 request ≡ some (payload_of 5000 request)
unfolding build_receipt scan_mcp declared examine
request_built = refl

request_clean : (payload_of 5000 request).verdict ≡ clean
unfolding payload_of scan_mcp to_verdict declared examine tally keep sort_by_sev found_in scan rules
    split join extract_text truthy mcp_rules passes any check_tool_shadowing
request_clean = refl

clean_receipt_example :
    (k : Manifest) × (some calculator ≡ some k)
    × (length json ≤ max_manifest_bytes)
    × (0 < declared k)
    × All (λ f. f.sev < 60) (examine blind no_indices k true).findings
    × ((payload_of 5000 request).score ≡ (examine blind no_indices k true).score)
clean_receipt_example =
    clean_receipt blind no_indices 5000 request (payload_of 5000 request) json (some calculator)
      refl request_built request_clean
