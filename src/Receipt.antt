-- ===== src/Receipt.antt =====
-- server/receipt.js: verdicts, the gate, and the receipt that an attestor signs.
pub mod Clearing
pub mod Base64
pub mod Digests
pub mod Jws
use monadguard.Base.{
  String, ℕ, ◌+◌, ◌*◌, ◌/◌, ◌==◌, Option, none, some, Bool, true, false, List, map, Text,
  if◌then◌else◌,
}
use monadguard.Scanner.Finding.{Finding, Level, safe, medium, high, critical, unscanned, other}
use monadguard.Scanner.Result.{ScanResult, Reason}

-- The verdicts of the contract.
abbrev pub unknown : ℕ
unknown = 0

abbrev pub clean : ℕ
clean = 1

abbrev pub warn : ℕ
warn = 2

abbrev pub flagged : ℕ
flagged = 3

unfoldable pub to_verdict : Level → ℕ
to_verdict safe = clean
to_verdict medium = warn
to_verdict high = warn
to_verdict critical = flagged
to_verdict unscanned = unknown
to_verdict (other name) = unknown

pub data Gate : Type 0 where
  act halt : Gate

-- `confidence` in hundredths.
unfoldable pub to_gate : Level → ℕ → Gate × ℕ
to_gate safe score = if score == 0 then (act, 95) else (act, 75)
to_gate medium score = (halt, 40)
to_gate high score = (halt, 0)
to_gate critical score = (halt, 0)
to_gate unscanned score = (halt, 0)
to_gate (other name) score = (halt, 0)

pub record ToolIdentity : Type 0 where
  pub id : Text
  pub kind : Text
  pub name : Text
  pub origin : Text

pub record ReceiptFinding : Type 0 where
  pub id : String
  pub cat : String
  pub sev : ℕ
  pub desc : Text
  pub line : Option ℕ
  pub field : Option Text

pub record Counts : Type 0 where
  pub critical : ℕ
  pub high : ℕ
  pub medium : ℕ
  pub low : ℕ

pub record PublicKey : Type 0 where
  pub x : Text
  pub y : Text

abbrev pub receipt_version : String
receipt_version = "monadguard/receipt/v1"

abbrev pub ruleset_name : String
ruleset_name = "monadguard-rules-v1 (40 skill + 10 mcp)"

-- `attestor` is beside the constants `alg` and `crv`, which are left out.
pub record Receipt : Type 0 where
  pub version : String
  pub rules : String
  pub issued_at : ℕ
  pub expires_at : ℕ
  pub tool : ToolIdentity
  pub content_hash : Text
  pub verdict : ℕ
  pub level : Level
  pub score : ℕ
  pub gate : Gate
  pub confidence : ℕ
  pub findings : List ReceiptFinding
  pub counts : Counts
  pub attestor : PublicKey

-- `none` in place of a receipt is the exception of the source.
pub record ReceiptRequest : Type 0 where
  pub tool : ToolIdentity
  pub content_hash : Text
  pub result : ScanResult
  pub attestor_key : PublicKey
  pub issued_at : Option ℕ
  pub ttl_days : ℕ

unfoldable pub receipt_finding : Finding → ReceiptFinding
receipt_finding f = record {
  id = f.id;
  cat = f.cat;
  sev = f.sev;
  desc = f.desc;
  line = f.line;
  field = f.field;
}

-- `issuedAt ?? Math.floor(Date.now() / 1000)`
unfoldable pub issue_time : Option ℕ → ℕ → ℕ
issue_time none now_ms = now_ms / 1000
issue_time (some ts) now_ms = ts

unfoldable pub payload_of : ℕ → ReceiptRequest → Receipt
unfolding receipt_finding issue_time
payload_of now_ms q =
    let ts = issue_time q.issued_at now_ms in
    record {
      version = receipt_version;
      rules = ruleset_name;
      issued_at = ts;
      expires_at = ts + q.ttl_days * 86400;
      tool = q.tool;
      content_hash = q.content_hash;
      verdict = to_verdict q.result.level;
      level = q.result.level;
      score = q.result.score;
      gate = (to_gate q.result.level q.result.score).0;
      confidence = (to_gate q.result.level q.result.score).1;
      findings = map receipt_finding q.result.findings;
      counts = record {
        critical = q.result.crits;
        high = q.result.highs;
        medium = q.result.mediums;
        low = q.result.lows;
      };
      attestor = q.attestor_key;
    }

-- `buildReceipt`: it refuses a result with `scanned === false`.
unfoldable pub build_receipt : ℕ → ReceiptRequest → Option Receipt
unfolding payload_of
build_receipt now_ms q = elim q.result.scanned [
  | none ↦ some (payload_of now_ms q)
  | some b ↦ if b then some (payload_of now_ms q) else none
]
