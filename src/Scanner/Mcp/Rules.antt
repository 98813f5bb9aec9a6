-- ===== src/Scanner/Mcp/Rules.antt =====
-- server/scanner/mcp.js: the table MCP_RULES and the tests of its rules.
use monadguard.Base.{
  String, ℕ, Bool, true, false, List, [], ◌∷◌, Text, any, drop, length, ltb, take,
}
use monadguard.Scanner.Regex.{Regex, Exec, MatchIndices, test}

-- How a rule tests a text. `sends_data` is the test of M004.
pub data Check : Type 0 where
  matches : Regex → Check
  sends_data : Check
  longer_than : ℕ → Check
  never : Check

pub record McpRule : Type 0 where
  pub id : String
  pub sev : ℕ
  pub cat : String
  pub desc : String
  pub check : Check

abbrev regex : String → Bool → Regex
regex source ignore_case = record { source = source; ignore_case = ignore_case }

abbrev rule : String → ℕ → String → String → Check → McpRule
rule id sev cat desc check = record { id = id; sev = sev; cat = cat; desc = desc; check = check }

unfoldable pub mcp_rules : List McpRule
mcp_rules =
    rule "M001" 95 "mcp_poisoning" "Tool description contains system prompt override" (
      matches (
        regex
          "(?:ignore\\s+(?:all\\s+)?(?:previous|above)\\s+instructions?|you\\s+are\\s+now|new\\s+persona|override\\s+system)"
          true))
    ∷ rule "M002" 92 "mcp_poisoning" "Hidden unicode injection in tool description"
        (matches (regex "[\\u200B-\\u200D\\uFEFF\\u2060\\u00AD\\u034F]" false))
    ∷ rule "M003" 30 "mcp_shadowing"
        "Tool name matches a common built-in tool name (risk only if another connected server exposes the same name)"
        (matches (
          regex
            "^(?:read_file|write_file|execute|bash|shell|run_command|list_directory|delete_file|create_file|python|node|eval)$"
            true))
    ∷ rule "M004" 88 "mcp_poisoning"
        "Tool description instructs to send data to an external destination" sends_data
    ∷ rule "M005" 85 "mcp_rug_pull" "Tool description references external update/reload mechanism" (
        matches (
          regex
            "(?:fetch|load|update|reload)\\s+(?:latest|new|updated)\\s+(?:instructions?|rules?|behavior|config)"
            true))
    ∷ rule "M006" 82 "mcp_exfiltration" "Resource URI points to suspicious external host" (
        matches (
          regex
            "https?:\\/\\/(?!localhost|127\\.0\\.0\\.1|api\\.anthropic|api\\.openai|github\\.com)[a-z0-9.-]+\\.[a-z]{2,}\\/(?:upload|collect|exfil|beacon|log|track)"
            true))
    ∷ rule "M007" 78 "mcp_poisoning" "Prompt template contains injection anchor" (
        matches
          (regex "(?:<\\|system\\|>|###\\s*System|SYSTEM:\\s*You are|\\[INST\\]\\s*<<SYS>>)" true))
    ∷ rule "M008" 20 "suspicious"
        "Very long tool description (>3000 chars) — more room to hide instructions; read it"
        (longer_than 3000)
    ∷ rule "M009" 70 "mcp_credential" "Tool schema accepts raw credential fields" (
        matches (
          regex
            "[\"'](?:password|secret|api_key|private_key|token|seed_phrase)[\"']\\s*:\\s*[\"']string[\"']"
            true))
    ∷ rule "M010" 65 "mcp_shadowing" "Multiple tools with near-identical names (shadowing pattern)"
        never
    ∷ []

-- The two patterns of M004: the order to send something, and an outside place to send it to.
abbrev verb : Regex
verb =
    regex
      "(?:send|upload|post|transmit|forward|exfiltrate|leak)\\s+(?:all|every|the|any)\\s+(?:data|files?|contents?|output|results?|responses?|credentials?|keys?|tokens?)"
      true

abbrev sink : Regex
sink =
    regex
      "\\b(?:to|into|at|via)\\s+(?:https?:\\/\\/\\S+|our\\s+\\w+|us\\b|an?\\s+(?:external|third[- ]party|remote|analytics|telemetry|logging|collection|monitoring)\\b|the\\s+(?:analytics|telemetry|logging|collection|monitoring|update|reporting)\\s*(?:endpoint|server|service|url|api|webhook)?\\b)"
      true

module _ (exec : Exec) (match_indices : MatchIndices) where
  -- A destination is named within 160 units of some order to send.
  unfoldable pub names_sink : Text → Bool
  names_sink text = any (λ i. test exec sink (take 160 (drop i text))) (match_indices verb text)

  -- `rule.test(text)`
  unfoldable pub passes : Check → Text → Bool
  unfolding names_sink
  passes (matches re) text = test exec re text
  passes sends_data text = names_sink text
  passes (longer_than n) text = ltb n (length text)
  passes never text = false
