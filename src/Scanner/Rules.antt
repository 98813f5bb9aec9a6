-- ===== src/Scanner/Rules.antt =====
-- server/scanner/engine.js: the table RULES, each pattern written as in the source.
use monadguard.Base.{String, ℕ, true, List, [], ◌∷◌}
use monadguard.Scanner.Regex.{Regex}

pub record Rule : Type 0 where
  pub id : String
  pub sev : ℕ
  pub cat : String
  pub desc : String
  pub re : Regex

-- One line of the table; every pattern there carries the flag `i`.
abbrev rule : String → ℕ → String → String → String → Rule
rule id sev cat desc source = record {
  id = id;
  sev = sev;
  cat = cat;
  desc = desc;
  re = record { source = source; ignore_case = true };
}

unfoldable pub rules : List Rule
rules =
    rule "S001" 100 "exfiltration" "Data exfiltration endpoint"
      "https?:\\/\\/(?!api\\.anthropic|api\\.openai|github\\.com|npmjs\\.com)[a-z0-9.-]+\\.[a-z]{2,}\\/(?:upload|collect|exfil|send|log|track|beacon|ping|report)"
    ∷ rule "S002" 100 "credentials" "Credential file access"
        "(?:cat|read|open|type)\\s+[~\\/].*(?:\\.env|id_rsa|id_ed25519|authorized_keys|shadow|passwd|keychain|vault|\\.netrc|\\.pgpass)"
    ∷ rule "S003" 100 "backdoor" "Reverse shell attempt"
        "(?:bash|sh|nc|ncat|netcat)\\s+.*(?:-e|--exec|-c)\\s+['\"\\/]?(?:bash|sh|cmd|powershell)"
    ∷ rule "S004" 100 "backdoor" "Curl pipe to shell"
        "curl\\s+.+\\|\\s*(?:bash|sh|python|node|perl|ruby)"
    ∷ rule "S005" 100 "cryptominer" "Cryptominer process signature"
        "(?:xmrig|minerd|cpuminer|cgminer|stratum\\+tcp|mining\\.pool)"
    ∷ rule "S006" 95 "injection" "Prompt injection attempt"
        "(?:ignore\\s+(?:all\\s+)?(?:previous|above)\\s+instructions?|you\\s+are\\s+now\\s+in\\s+\\w+\\s+mode|\\[INST\\]\\s*System:|<\\|system\\|>|###\\s*System\\s*Override)"
    ∷ rule "S007" 95 "injection" "MCP tool poisoning"
        "(?:tool_call|function_call)\\s*:\\s*\\{[^}]*(?:system|exec|shell|eval)[^}]*\\}"
    ∷ rule "S008" 90 "privilege" "Privilege escalation via sudo"
        "sudo\\s+(?:chmod|chown|su\\b|bash|sh\\b|python|node|perl)\\s*(?:777|[+-]x|root|-R)?"
    ∷ rule "S009" 90 "privilege" "Crontab modification"
        "(?:crontab\\s+-[el]|echo\\s+.+>>\\s*\\/etc\\/cron|\\/etc\\/cron\\.d\\/)"
    ∷ rule "S010" 88 "privilege" "SSH authorized_keys injection"
        "echo\\s+.+>>\\s*~?\\/.ssh\\/authorized_keys"
    ∷ rule "S011" 85 "wallet" "Seed phrase extraction"
        "(?:seed[_\\s]?phrase|mnemonic|private[_\\s]?key|wallet\\.dat|keystore|\\.json\\s+wallet)"
    ∷ rule "S012" 85 "wallet" "MetaMask vault access"
        "(?:metamask|phantom|exodus|ledger).*(?:vault|seed|key|password)"
    ∷ rule "S013" 82 "wallet" "Clipboard hijacking for addresses"
        "(?:clipboard|navigator\\.clipboard).*(?:0x[0-9a-f]{40}|write|replace)"
    ∷ rule "S014" 80 "network" "Raw HTTP to non-whitelisted host"
        "fetch\\s*\\(\\s*['\"]http:\\/\\/(?!localhost|127\\.0\\.0\\.1|0\\.0\\.0\\.0)[^'\"]+['\"]"
    ∷ rule "S015" 80 "network" "WebSocket to external host"
        "new\\s+WebSocket\\s*\\(\\s*['\"]wss?:\\/\\/(?!localhost)[^'\"]+['\"]"
    ∷ rule "S016" 78 "network" "DNS lookup for exfiltration"
        "(?:nslookup|dig|host)\\s+[a-z0-9.-]+\\.[a-z]{2,}"
    ∷ rule "S017" 75 "network" "Port scanning activity" "(?:nmap|masscan|zmap|nc\\s+-z)\\s+"
    ∷ rule "S018" 75 "filesystem" "System file write"
        "(?:write|append|tee|echo\\s+.+>>?)\\s+['\"]?\\/(?:etc|proc|sys|boot|root|usr\\/bin)\\/"
    ∷ rule "S019" 72 "filesystem" "SSH key generation" "ssh-keygen\\s+"
    ∷ rule "S020" 70 "filesystem" "Mass file deletion"
        "rm\\s+(?:-rf?|--recursive)\\s+(?:\\/|~|\\$HOME|\\*)"
    ∷ rule "S021" 65 "obfuscation" "Base64 encoded payload"
        "(?:atob|btoa|base64\\s*(?:-d|-D)|Buffer\\.from\\([^,]+,\\s*['\"]base64['\"]\\))"
    ∷ rule "S022" 65 "obfuscation" "Hex encoded payload" "(?:\\\\x[0-9a-f]{2}){6,}"
    ∷ rule "S023" 62 "obfuscation" "Character code obfuscation"
        "(?:String\\.fromCharCode|chr\\()\\s*\\(\\s*\\d+(?:\\s*,\\s*\\d+){5,}"
    ∷ rule "S024" 60 "obfuscation" "Dynamic code execution"
        "eval\\s*\\(\\s*(?:fetch|atob|Buffer|require|__)"
    ∷ rule "S025" 58 "obfuscation" "Process environment dump"
        "process\\.env(?!\\.(PORT|NODE_ENV|PATH|HOME|PAYMENT))"
    ∷ rule "S026" 55 "supply_chain" "Typosquatted package name"
        "(?:requirre|improt|expres\\b|mongooose|axois|reqest)\\s*[=(]"
    ∷ rule "S027" 55 "supply_chain" "Unpinned remote script import"
        "import\\s+.+from\\s+['\"]https?:\\/\\/(?!esm\\.sh|cdn\\.skypack|unpkg\\.com|deno\\.land)[^'\"]+['\"]"
    ∷ rule "S028" 52 "supply_chain" "Postinstall script hook"
        "[\"']postinstall[\"']\\s*:\\s*[\"'][^\"']+[\"']"
    ∷ rule "S029" 50 "privacy" "PII collection pattern"
        "(?:ssn|social.security|credit.card|cvv|passport.number)\\s*[=:]"
    ∷ rule "S030" 50 "privacy" "Keylogger pattern"
        "(?:keydown|keypress|keyup)\\s*.*(?:send|post|fetch|log)"
    ∷ rule "S031" 48 "privacy" "Screenshot capture"
        "(?:screenshot|screen\\.capture|getDisplayMedia|html2canvas)"
    ∷ rule "S032" 45 "privacy" "Microphone or camera access"
        "getUserMedia\\s*\\(\\s*\\{[^}]*(?:audio|video)\\s*:\\s*true"
    ∷ rule "S033" 40 "suspicious" "Broad filesystem enumeration"
        "(?:readdirSync|glob\\.sync|find\\s+\\/\\s+-name)\\s*['\"\\/]"
    ∷ rule "S034" 38 "suspicious" "Self-modifying skill"
        "(?:writeFile|appendFile)\\s*\\(['\"]\\.\\/?SKILL\\.md['\"]"
    ∷ rule "S035" 35 "suspicious" "Timing-based evasion"
        "setTimeout\\s*\\([^,]+,\\s*(?:[6-9]\\d{4}|\\d{6,})\\)"
    ∷ rule "S036" 32 "suspicious" "Hidden iframe injection"
        "<iframe[^>]+(?:display\\s*:\\s*none|visibility\\s*:\\s*hidden)"
    ∷ rule "S037" 30 "suspicious" "Sensitive data in localStorage"
        "localStorage\\.setItem\\s*\\(['\"]\\w*(?:key|token|pass|secret|auth)\\w*['\"]"
    ∷ rule "S038" 28 "suspicious" "Aggressive memory allocation"
        "new\\s+(?:Array|Buffer|Uint8Array)\\s*\\(\\s*(?:[1-9]\\d{8,})\\s*\\)"
    ∷ rule "S039" 25 "suspicious" "Infinite loop risk"
        "while\\s*\\(\\s*true\\s*\\)\\s*\\{(?!.*break)"
    ∷ rule "S040" 20 "suspicious" "Unvalidated user redirect"
        "(?:window\\.location|location\\.href)\\s*=\\s*(?:req\\.|request\\.|params\\.|query\\.)"
    ∷ []
