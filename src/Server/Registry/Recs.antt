-- ===== src/Server/Registry/Recs.antt =====
-- server/recs.js: the advice for each category of finding.
use monadguard.Base.{none, some, List, [], ◌∷◌, String, str_eq, find}

unfoldable pub recs : List (String × String)
recs =
    ("exfiltration", "Remove all external HTTP calls.")
    ∷ ("credentials", "Never access credential files.")
    ∷ ("backdoor", "Remove all shell execution patterns.")
    ∷ ("injection", "Remove prompt override patterns.")
    ∷ ("privilege", "Remove all sudo/chmod calls.")
    ∷ ("wallet", "Never access wallet files.")
    ∷ ("network", "Audit all outbound connections.")
    ∷ ("filesystem", "Restrict file access to skill directory.")
    ∷ ("obfuscation", "All skill logic must be readable.")
    ∷ ("supply_chain", "Pin all dependencies.")
    ∷ ("privacy", "Skills must not collect PII.")
    ∷ ("suspicious", "Review this pattern carefully.")
    ∷ ("mcp_poisoning", "Remove hidden instructions from tool descriptions.")
    ∷ ("mcp_shadowing", "Rename tools to avoid shadowing system tools.")
    ∷ ("mcp_rug_pull", "Remove external update mechanisms.")
    ∷ ("mcp_exfiltration", "Remove suspicious resource URIs.")
    ∷ ("mcp_credential", "Remove credential fields from schema.")
    ∷ []

-- `recs[cat] || …`, for the keys of the table itself.
unfoldable pub recommend : String → String
unfolding recs
recommend cat = elim (find (λ r. str_eq r.0 cat) recs) [
  | none ↦ "Review this pattern manually."
  | some r ↦ r.1
]
