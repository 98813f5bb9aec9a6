-- ===== src/Server/Scan.antt =====
-- server/index.js:111-196: POST /scan, a full scan with a signed receipt. The serialiser, the parser
-- and the cryptography are parameters.
pub mod Handler
pub mod Writes
use monadguard.Base.{
  String, ℕ, ◌≡◌, Bool, true, false, not, ◌&&◌, ◌||◌, Option, none, some, List, [], ◌∷◌, ◌++◌, Text,
  lit, text_eq, truthy, trim, if◌then◌else◌,
}
use monadguard.Scanner.Regex.{Exec, MatchIndices}
use monadguard.Scanner.Finding.{Finding, Level}
use monadguard.Scanner.Result.{ScanResult}
use monadguard.Scanner.Engine.{scan}
use monadguard.Scanner.Mcp.{scan_mcp}
use monadguard.Scanner.Mcp.Texts.{Manifest}
use monadguard.Receipt.{Receipt, ToolIdentity, PublicKey, build_receipt}
use monadguard.Identity.{tool_id, content_hash}
use monadguard.Store.{
  Db, NewScan, ToolRow, AnchorState, Signature, new_row, upsert_tool, insert_scan, set_state,
  mark_anchored,
}
use monadguard.Worker.{AnchorFields, Chain, Mined, state_of}
use monadguard.Server.Anchor.{anchor_with}

-- A JSON value: its text, and what it declares where it is not null.
pub record Document : Type 0 where
  pub text : Text
  pub manifest : Option Manifest

pub record ScanRequest : Type 0 where
  pub kind : Option Text
  pub name : Option Text
  pub origin : Option Text
  pub content : Option Text
  pub manifest : Option Document

-- What the process was started with: the key's secret and public halves, BASE_URL and AUTO_ANCHOR.
pub record ScanNode : Type 0 where
  pub key : Option (Text × PublicKey)
  pub base_url : Text
  pub auto_anchor : Bool
  pub chain_id : ℕ

pub data AnchorReply : Type 0 where
  no_registry is_waiting : AnchorReply
  was_sent : Mined → AnchorReply
  was_refused : AnchorReply

pub record Accepted : Type 0 where
  pub tool : ToolIdentity
  pub content_hash : Text
  pub receipt : Receipt
  pub receipt_hash : Text
  pub anchor : AnchorReply

-- `failed` has a status of 400 or more, `declined` is the answer of a scanner that did not look.
pub data ScanResponse : Type 0 where
  failed : ℕ → ScanResponse
  declined : Level → ScanResponse
  accepted : Accepted → ScanResponse

abbrev pub ScanHandled : Type 0
ScanHandled = Db × ScanResponse

-- `!text`: missing or empty.
unfoldable pub is_missing : Option Text → Bool
is_missing none = true
is_missing (some t) = not (truthy t)

unfoldable pub is_mcp : Option Text → Bool
is_mcp none = false
is_mcp (some kind) = text_eq kind (lit "mcp")

unfoldable pub or_blank : Option Text → Text
or_blank none = []
or_blank (some t) = t

-- `kind = 'skill'`
unfoldable pub or_skill : Option Text → Text
or_skill none = lit "skill"
or_skill (some kind) = kind

is_absent : Option Document → Bool
is_absent none = true
is_absent (some d) = false

-- The status of the first guard that a request fails, where there is one.
unfoldable pub refusal : ScanNode → ScanRequest → Option ℕ
unfolding is_missing is_mcp is_absent
refusal node body =
    if is_missing body.name || is_missing body.origin
    then some 400
    else if is_mcp body.kind && is_absent body.manifest && is_missing body.content
    then some 400
    else if not (is_mcp body.kind) && is_missing body.content
    then some 400
    else none

-- The code that is not in the repository: the regular expressions, keccak256, JSON.parse,
-- JSON.stringify of the findings, the hash of a receipt, its signature, and the anchor's.
pub record Outside : Type 0 where
  pub exec : Exec
  pub match_indices : MatchIndices
  pub keccak : Text → Text
  pub parse : Text → Option Document
  pub findings_json : List Finding → Text
  pub hash_receipt : Receipt → Text
  pub sign_receipt : Receipt → Text → Text
  pub digest : AnchorFields → Text
  pub sign : Text → Text → Signature

-- `manifest ?? JSON.parse(content)`; `none` is the exception of the parser.
unfoldable pub document_of : Outside → Option Document → Text → Option Document
document_of ext (some d) content = some d
document_of ext none content = ext.parse content

unfoldable pub tool_of : Outside → ScanRequest → ToolIdentity
unfolding or_skill or_blank
tool_of ext body = record {
  id = tool_id ext.keccak (or_skill body.kind) (or_blank body.name) (or_blank body.origin);
  kind = or_skill body.kind;
  name = or_blank body.name;
  origin = or_blank body.origin;
}

unfoldable pub receipt_url : Text → Text → Text
receipt_url base_url h = base_url ++ (lit "/receipt/" ++ h)

unfoldable pub scan_row : Outside → ScanNode → Receipt → List Finding → Text → NewScan
unfolding receipt_url
scan_row ext node payload found secret =
    let h = ext.hash_receipt payload in
    record {
      tool_id = payload.tool.id;
      content_hash = payload.content_hash;
      verdict = payload.verdict;
      score = payload.score;
      findings_json = ext.findings_json found;
      receipt_jws = ext.sign_receipt payload secret;
      receipt_hash = h;
      receipt_uri = some (receipt_url node.base_url h);
      created_at = payload.issued_at;
      chain_id = node.chain_id;
    }

unfoldable pub tool_row : ToolIdentity → ℕ → ToolRow
tool_row tool now_s = record {
  tool_id = tool.id;
  kind = tool.kind;
  name = tool.name;
  origin = tool.origin;
  first_seen = now_s;
}
