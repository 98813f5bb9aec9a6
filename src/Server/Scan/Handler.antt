-- ===== src/Server/Scan/Handler.antt =====
-- server/index.js:111-196: the handler of POST /scan, call by call.
use monadguard.Base.{
  ℕ, ◌/◌, Bool, true, false, not, ◌&&◌, Option, none, some, Text, trim, truthy, if◌then◌else◌,
}
use monadguard.Scanner.Engine.{scan}
use monadguard.Scanner.Mcp.{scan_mcp}
use monadguard.Scanner.Result.{ScanResult}
use monadguard.Receipt.{Receipt, PublicKey, build_receipt}
use monadguard.Identity.{content_hash}
use monadguard.Store.{
  Db, NewScan, AnchorState, new_row, upsert_tool, insert_scan, set_state, mark_anchored,
}
use monadguard.Worker.{Chain, Mined, state_of}
use monadguard.Server.Anchor.{anchor_with}
use monadguard.Server.Scan.{
  Document, ScanRequest, ScanNode, AnchorReply, ScanHandled, Outside, no_registry, is_waiting,
  was_sent, was_refused, failed, declined, accepted, is_mcp, or_blank, refusal, document_of,
  tool_of, scan_row, tool_row,
}

-- `result.scanned === false`
unfoldable pub was_declined : Option Bool → Bool
was_declined none = false
was_declined (some b) = not b

module _ (ext : Outside) where
  unfoldable pub scan_document : Option Document → Option (Text × ScanResult)
  scan_document none = none
  scan_document (some d) = some (d.text, scan_mcp ext.exec ext.match_indices d.text d.manifest true)

  -- The text that is hashed, and what the scanner says of it; `none` is an exception.
  unfoldable pub scan_body : ScanRequest → Option (Text × ScanResult)
  unfolding scan_document document_of is_mcp or_blank
  scan_body body =
      if is_mcp body.kind
      then scan_document (document_of ext body.manifest (or_blank body.content))
      else some (or_blank body.content, scan ext.exec (or_blank body.content))

  -- AUTO_ANCHOR: an exception leaves the row as it is.
  unfoldable pub after_auto : Db → Text → Option Mined → Db × AnchorReply
  unfolding state_of
  after_auto db h none = (db, was_refused)
  after_auto db h (some tx) =
      (mark_anchored h (some tx.hash) (some tx.block) (state_of tx.success) db, was_sent tx)

  unfoldable pub anchor_stored : ScanNode → Chain → Text → NewScan → Db → Db × AnchorReply
  unfolding after_auto anchor_with
  anchor_stored node chain secret s db =
      let sent =
        anchor_with ext.digest ext.sign chain (some secret) (new_row db.next_id s) none
          chain.wallet in
      let attempt = after_auto db s.receipt_hash sent in
      if chain.has_registry
      then if node.auto_anchor then attempt else (db, is_waiting)
      else (db, no_registry)

  -- The tool and the scan are written; without AUTO_ANCHOR the scan is kept off the chain.
  unfoldable pub store_scan : ScanNode → ScanRequest → ℕ → NewScan → Db → Db
  unfolding tool_of tool_row
  store_scan node body now_ms s db =
      let stored = insert_scan s (upsert_tool (tool_row (tool_of ext body) (now_ms / 1000)) db) in
      if node.auto_anchor then stored else set_state s.receipt_hash AnchorState.unanchored stored

  unfoldable pub accept :
      ScanNode
      → Chain
      → Db
      → ScanRequest
      → ℕ
      → Text
      → Text
      → ScanResult
      → Option Receipt
      → ScanHandled
  unfolding anchor_stored store_scan scan_row tool_of
  accept node chain db body now_ms secret raw result none = (db, failed 500)
  accept node chain db body now_ms secret raw result (some payload) =
      let s = scan_row ext node payload result.findings secret in
      let done = anchor_stored node chain secret s (store_scan node body now_ms s db) in
      (
        done.0,
        accepted (record {
          tool = tool_of ext body;
          content_hash = content_hash ext.keccak raw;
          receipt = payload;
          receipt_hash = s.receipt_hash;
          anchor = done.1;
        }),
      )

  -- The handler gives a receipt the default life, of 90 days.
  unfoldable pub conclude_scan :
      ScanNode
      → Chain
      → Db
      → ScanRequest
      → ℕ
      → Text × PublicKey
      → Option (Text × ScanResult)
      → ScanHandled
  unfolding accept was_declined tool_of is_mcp
  conclude_scan node chain db body now_ms key none = (db, failed 500)
  conclude_scan node chain db body now_ms key (some (raw, result)) =
      let payload = build_receipt now_ms (record {
        tool = tool_of ext body;
        content_hash = content_hash ext.keccak raw;
        result = result;
        attestor_key = key.1;
        issued_at = none;
        ttl_days = 90;
      }) in
      if not (is_mcp body.kind) && not (truthy (trim raw))
      then (db, failed 422)
      else if was_declined result.scanned
      then (db, declined result.level)
      else accept node chain db body now_ms key.0 raw result payload

  unfoldable pub scan_with :
      ScanNode → Chain → Db → ScanRequest → ℕ → Option ℕ → Option (Text × PublicKey) → ScanHandled
  unfolding conclude_scan scan_body
  scan_with node chain db body now_ms (some status) key = (db, failed status)
  scan_with node chain db body now_ms none none = (db, failed 503)
  scan_with node chain db body now_ms none (some key) =
      conclude_scan node chain db body now_ms key (scan_body body)

  unfoldable pub post_scan : ScanNode → Chain → Db → ScanRequest → ℕ → ScanHandled
  unfolding scan_with refusal
  post_scan node chain db body now_ms =
      scan_with node chain db body now_ms (refusal node body) node.key
