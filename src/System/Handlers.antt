-- ===== src/System/Handlers.antt =====
-- The statements of the handlers of server/index.js.
use monadguard.Base.{
  ℕ, ◌/◌, Bool, true, false, not, ◌&&◌, ◌||◌, ◌==◌, Bool-cases, Option, Option-cases, none, some,
  Text, inl, inr, trim, truthy, length, split, ltb, leb, ◌-◌, text_eq, to_lower,
}
use monadguard.Scanner.Result.{ScanResult}
use monadguard.Receipt.{Receipt, PublicKey}
use monadguard.Store.{
  Db, ScanRow, NewScan, ToolRow, AnchorState, Signature, get_scan, record_faucet_grant,
  faucet_granted, faucet_grants_since, faucet_grants_by_ip_since,
}
use monadguard.Store.Queries.{is_confirmed}
use monadguard.Worker.{AnchorFields, Mined, Chain, state_of}
use monadguard.Server.Anchor.{
  Node, AnchorRequest, after_anchor, anchor_signed, authorise, anchor_row, post_anchor, queue_row,
  post_queue, is_operator,
}
use monadguard.Server.Scan.{Outside, ScanNode, ScanRequest, scan_row, is_mcp, refusal}
use monadguard.Server.Scan.Handler.{
  after_auto, anchor_stored, store_scan, accept, conclude_scan, scan_with, post_scan, was_declined,
  scan_body,
}
use monadguard.Server.Receipts.{
  Publishing, Published, add_tool, store_receipt, check_id, check_signature, check_fields,
  check_published, post_receipt, derive_id, held, public_key,
}
use monadguard.Server.Faucet.{
  FaucetConfig, Viem, after_record, after_transfer, after_balance, is_granted, grant_to,
  post_faucet,
}
use monadguard.System.{
  Writes, nothing, upserts, inserts, sets, queues, marks, publishes, grants, Writes-trans,
}

module _ (digest : AnchorFields → Text) (sign : Text → Text → Signature) where
  after_anchor-Writes :
      (db : Db) (h : Text) (o : Option Mined) → Writes db (after_anchor digest sign db h o).0
  unfolding after_anchor
  after_anchor-Writes db h none = marks h none none AnchorState.failed nothing
  after_anchor-Writes db h (some tx) =
      marks h (some tx.hash) (some tx.block) (state_of tx.success) nothing

  authorise-Writes :
      (node : Node) (chain : Chain) (db : Db) (q : AnchorRequest) (row : ScanRow)
      (o : Option Signature)
      → Writes db (authorise digest sign node chain db q row o).0
  unfolding authorise anchor_signed
  authorise-Writes node chain db q row (some sig) = after_anchor-Writes db q.receipt_hash _
  authorise-Writes node chain db q row none = elim (Option-cases node.key) [
    | inl k ↦ rw k nothing
    | inr (key, k) ↦ elim (Bool-cases (is_operator node q)) [
      | inl e ↦ rw (k, e) (after_anchor-Writes db q.receipt_hash _)
      | inr e ↦ rw (k, e) nothing
    ]
  ]

  anchor_row-Writes :
      (node : Node) (chain : Chain) (db : Db) (q : AnchorRequest) (o : Option ScanRow)
      → Writes db (anchor_row digest sign node chain db q o).0
  unfolding anchor_row
  anchor_row-Writes node chain db q none = nothing
  anchor_row-Writes node chain db q (some row) = elim (Bool-cases (is_confirmed row.anchor_state)) [
    | inl e ↦ rw e nothing
    | inr e ↦ elim (Bool-cases chain.has_registry) [
      | inl r ↦ rw (e, r) (authorise-Writes node chain db q row q.signature)
      | inr r ↦ rw (e, r) nothing
    ]
  ]

  pub post_anchor-Writes :
      (node : Node) (chain : Chain) (db : Db) (q : AnchorRequest)
      → Writes db (post_anchor digest sign node chain db q).0
  unfolding post_anchor
  post_anchor-Writes node chain db q =
      anchor_row-Writes node chain db q (get_scan db q.receipt_hash)

queue_row-Writes :
    (db : Db) (h : Text) (sig : Signature) (o : Option ScanRow) → Writes db (queue_row db h sig o).0
unfolding queue_row
queue_row-Writes db h sig none = nothing
queue_row-Writes db h sig (some row) = elim (Bool-cases (is_confirmed row.anchor_state)) [
  | inl e ↦ rw e nothing
  | inr e ↦ rw e (queues h sig nothing)
]

pub post_queue-Writes :
    (db : Db) (h : Text) (o : Option Signature) → Writes db (post_queue db h o).0
unfolding post_queue
post_queue-Writes db h none = nothing
post_queue-Writes db h (some sig) = elim (Bool-cases (truthy sig.r && truthy sig.s)) [
  | inl e ↦ rw e (queue_row-Writes db h sig (get_scan db h))
  | inr e ↦ rw e nothing
]

module _ (ext : Outside) (node : ScanNode) (chain : Chain) where
  after_auto-Writes : (db : Db) (h : Text) (o : Option Mined) → Writes db (after_auto ext db h o).0
  unfolding after_auto
  after_auto-Writes db h none = nothing
  after_auto-Writes db h (some tx) =
      marks h (some tx.hash) (some tx.block) (state_of tx.success) nothing

  anchor_stored-Writes :
      (secret : Text) (s : NewScan) (db : Db)
      → Writes db (anchor_stored ext node chain secret s db).0
  unfolding anchor_stored
  anchor_stored-Writes secret s db = elim (Bool-cases chain.has_registry) [
    | inr e ↦ rw e nothing
    | inl e ↦ elim (Bool-cases node.auto_anchor) [
      | inl a ↦ rw (e, a) (after_auto-Writes db s.receipt_hash _)
      | inr a ↦ rw (e, a) nothing
    ]
  ]

  store_scan-Writes :
      (body : ScanRequest) (now_ms : ℕ) (s : NewScan) (db : Db)
      → Writes db (store_scan ext node body now_ms s db)
  unfolding store_scan
  store_scan-Writes body now_ms s db = elim (Bool-cases node.auto_anchor) [
    | inl e ↦ rw e (inserts s (upserts _ nothing))
    | inr e ↦ rw e (sets s.receipt_hash AnchorState.unanchored (inserts s (upserts _ nothing)))
  ]

  accept-Writes :
      (db : Db) (body : ScanRequest) (now_ms : ℕ) (secret raw : Text) (result : ScanResult)
      (o : Option Receipt)
      → Writes db (accept ext node chain db body now_ms secret raw result o).0
  unfolding accept
  accept-Writes db body now_ms secret raw result none = nothing
  accept-Writes db body now_ms secret raw result (some payload) =
      let s = scan_row ext node payload result.findings secret in
      Writes-trans (store_scan-Writes body now_ms s db)
        (anchor_stored-Writes secret s (store_scan ext node body now_ms s db))

  conclude_scan-Writes :
      (db : Db) (body : ScanRequest) (now_ms : ℕ) (key : Text × PublicKey)
      (o : Option (Text × ScanResult))
      → Writes db (conclude_scan ext node chain db body now_ms key o).0
  unfolding conclude_scan
  conclude_scan-Writes db body now_ms key none = nothing
  conclude_scan-Writes db body now_ms key (some (raw, result)) =
      elim (Bool-cases (not (is_mcp body.kind) && not (truthy (trim raw)))) [
        | inl b ↦ rw b nothing
        | inr b ↦ elim (Bool-cases (was_declined result.scanned)) [
          | inl d ↦ rw (b, d) nothing
          | inr d ↦ rw (b, d) (accept-Writes db body now_ms key.0 raw result _)
        ]
      ]

  scan_with-Writes :
      (db : Db) (body : ScanRequest) (now_ms : ℕ) (o : Option ℕ) (k : Option (Text × PublicKey))
      → Writes db (scan_with ext node chain db body now_ms o k).0
  unfolding scan_with
  scan_with-Writes db body now_ms (some status) k = nothing
  scan_with-Writes db body now_ms none none = nothing
  scan_with-Writes db body now_ms none (some key) =
      conclude_scan-Writes db body now_ms key (scan_body ext body)

  pub post_scan-Writes :
      (db : Db) (body : ScanRequest) (now_ms : ℕ)
      → Writes db (post_scan ext node chain db body now_ms).0
  unfolding post_scan
  post_scan-Writes db body now_ms = scan_with-Writes db body now_ms (refusal node body) node.key

module _ (ext : Publishing) where
  add_tool-Writes :
      (t : ToolRow) (o : Option Text) (h : Text) (db : Db) (b : Bool)
      → Writes db (add_tool t o h db b).0
  unfolding add_tool
  add_tool-Writes t o h db true = nothing
  add_tool-Writes t (some k) h db false = upserts t nothing
  add_tool-Writes t none h db false = nothing

  check_id-Writes :
      (db : Db) (jws : Text) (now : ℕ) (p : Published) (x y id : Text) (o : Option Text)
      → Writes db (check_id ext db jws now p x y id o).0
  unfolding check_id store_receipt
  check_id-Writes db jws now p x y id none = nothing
  check_id-Writes db jws now p x y id (some derived) =
      elim (Bool-cases (text_eq derived (to_lower id))) [
        | inl e ↦ rw e (Writes-trans (publishes _ nothing) (add_tool-Writes _ p.kind _ _ _))
        | inr e ↦ rw e nothing
      ]

  check_fields-Writes :
      (db : Db) (jws : Text) (now : ℕ) (p : Published) (x y id : Option Text)
      → Writes db (check_fields ext db jws now p x y id).0
  unfolding check_fields check_signature
  check_fields-Writes db jws now p (some x) (some y) (some id) =
      elim (Bool-cases (not (truthy x) || not (truthy y) || not (truthy id))) [
        | inl e ↦ rw e nothing
        | inr e ↦ elim (Bool-cases (held (ext.verify jws (public_key x y)))) [
          | inl v ↦
              rw (e, v) (check_id-Writes db jws now p x y id (derive_id ext p p.name p.origin))
          | inr v ↦ rw (e, v) nothing
        ]
      ]
  check_fields-Writes db jws now p none y id = nothing
  check_fields-Writes db jws now p (some x) none id = nothing
  check_fields-Writes db jws now p (some x) (some y) none = nothing

  check_published-Writes :
      (db : Db) (jws : Text) (now : ℕ) (o : Option Published)
      → Writes db (check_published ext db jws now o).0
  unfolding check_published
  check_published-Writes db jws now none = nothing
  check_published-Writes db jws now (some p) = check_fields-Writes db jws now p p.x p.y p.id

  pub post_receipt-Writes :
      (db : Db) (body : Option Text) (now : ℕ) → Writes db (post_receipt ext db body now).0
  unfolding post_receipt
  post_receipt-Writes db none now = nothing
  post_receipt-Writes db (some jws) now =
      elim (Bool-cases (ltb 200000 (length jws) || not (length (split b'.' jws) == 3))) [
        | inl e ↦ rw e nothing
        | inr e ↦ rw e (check_published-Writes db jws now (ext.decode jws))
      ]

module _ (cfg : FaucetConfig) (viem : Viem) where
  after_transfer-Writes :
      (db : Db) (to ip : Text) (now : ℕ) (o : Option Text)
      → Writes db (after_transfer db to ip now o).db
  unfolding after_transfer after_record
  after_transfer-Writes db to ip now none = nothing
  after_transfer-Writes db to ip now (some tx) =
      elim (Option-cases (record_faucet_grant to ip tx now db)) [
        | inl e ↦ rw e nothing
        | inr (d, e) ↦ rw e (grants to ip tx now nothing e)
      ]

  after_balance-Writes :
      (db : Db) (to ip : Text) (now : ℕ) (o : Option ℕ)
      → Writes db (after_balance cfg viem db to ip now o).db
  unfolding after_balance
  after_balance-Writes db to ip now none = nothing
  after_balance-Writes db to ip now (some bal) = elim (Bool-cases (leb (cfg.amount / 2) bal)) [
    | inl e ↦ rw e nothing
    | inr e ↦ elim (Bool-cases viem.has_wallet) [
      | inl w ↦ rw (e, w) (after_transfer-Writes db to ip now (viem.transfer to))
      | inr w ↦ rw (e, w) nothing
    ]
  ]

  grant_to-Writes :
      (before db : Db) (to ip : Text) (now then_now : ℕ)
      → Writes db (grant_to cfg viem before db to ip now then_now).db
  unfolding grant_to
  grant_to-Writes before db to ip now then_now =
      elim (Bool-cases (is_granted (faucet_granted before to))) [
        | inl a ↦ rw a nothing
        | inr a ↦
            elim (Bool-cases (leb cfg.per_ip (faucet_grants_by_ip_since before ip (now - 86400)))) [
              | inl b ↦ rw (a, b) nothing
              | inr b ↦
                  elim (Bool-cases (leb cfg.daily (faucet_grants_since before (now - 86400)))) [
                    | inl c ↦ rw (a, b, c) nothing
                    | inr c ↦
                        rw (a, b, c) (after_balance-Writes db to ip then_now (viem.balance to))
                  ]
            ]
      ]

  pub post_faucet-Writes :
      (before db : Db) (o : Option Text) (ip : Text) (now then_now : ℕ)
      → Writes db (post_faucet cfg viem before db o ip now then_now).db
  unfolding post_faucet
  post_faucet-Writes before db none ip now then_now = nothing
  post_faucet-Writes before db (some address) ip now then_now =
      elim (Bool-cases
        (cfg.chain_id == 143 || not (truthy address) || not (viem.is_address address))) [
          | inl e ↦ rw e nothing
          | inr e ↦ rw e (grant_to-Writes before db (viem.get_address address) ip now then_now)
        ]
