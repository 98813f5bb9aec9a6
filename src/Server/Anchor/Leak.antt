-- ===== src/Server/Anchor/Leak.antt =====
-- server/index.js:208-219: a rejected signature on an unanchored scan, and the worker after it.

use monadguard.Base.{◌≡◌, true, none, some, Text, text_eq_refl, arith}
use monadguard.Store.{Db, ScanRow, AnchorState, Signature, get_scan, with_anchor, mark_anchored}
use monadguard.Store.Keys.{get_scan-mark_anchored}
use monadguard.Store.Queries.{is_confirmed, is_pending}
use monadguard.Worker.{AnchorFields, Chain, to_scan_input, row_signature, scan_input, sign_row}
use monadguard.Server.Anchor.{
  Node, AnchorRequest, anchor_with, after_anchor, anchor_signed, authorise, anchor_row, post_anchor,
}

module _ (digest : AnchorFields → Text) (sign : Text → Text → Signature) where
  -- Where the chain rejects the signature, the row is marked as failed.
  post_anchor-rejected :
      (node : Node) (chain : Chain) (db : Db) (q : AnchorRequest) (row : ScanRow) (sig : Signature)
      → get_scan db q.receipt_hash ≡ some row
      → row.anchor_state ≡ AnchorState.unanchored
      → chain.has_registry ≡ true
      → q.signature ≡ some sig
      → anchor_with digest sign chain node.key row (some sig) chain.wallet ≡ none
      → (post_anchor digest sign node chain db q).0
        ≡ mark_anchored q.receipt_hash none none AnchorState.failed db
  unfolding post_anchor anchor_row authorise anchor_signed after_anchor is_confirmed
  post_anchor-rejected node chain db q row sig f u r s e = simp (f, u, r, s, e)

  post_anchor-rejected_row :
      (node : Node) (chain : Chain) (db : Db) (q : AnchorRequest) (row : ScanRow) (sig : Signature)
      → get_scan db q.receipt_hash ≡ some row
      → row.anchor_state ≡ AnchorState.unanchored
      → chain.has_registry ≡ true
      → q.signature ≡ some sig
      → anchor_with digest sign chain node.key row (some sig) chain.wallet ≡ none
      → get_scan (post_anchor digest sign node chain db q).0 q.receipt_hash
        ≡ some (with_anchor none none AnchorState.failed row)
  post_anchor-rejected_row node chain db q row sig f u r s e = rw (
    post_anchor-rejected node chain db q row sig f u r s e,
    get_scan-mark_anchored,
    text_eq_refl,
    f,
  )

  -- Where the chain throws on the signature of a request for a scan that is unanchored and has no
  -- signature, the scan becomes one that the worker picks, and a worker with a key signs it with
  -- that key.
  pub unanchored_leak :
      (node : Node) (chain : Chain) (db : Db) (q : AnchorRequest) (row : ScanRow) (sig : Signature)
      (key attestor : Text)
      → get_scan db q.receipt_hash ≡ some row
      → row.anchor_state ≡ AnchorState.unanchored
      → row.sig_r ≡ none
      → chain.has_registry ≡ true
      → q.signature ≡ some sig
      → anchor_with digest sign chain node.key row (some sig) chain.wallet ≡ none
      → (after : ScanRow) × (get_scan (post_anchor digest sign node chain db q).0 q.receipt_hash
          ≡ some after)
        × (is_pending after ≡ true)
        × (to_scan_input digest sign (some key) attestor after
            ≡ some (scan_input after (sign_row digest sign key attestor after)))
  unfolding is_pending to_scan_input row_signature
  unanchored_leak node chain db q row sig key attestor f u n r s e = (
    with_anchor none none AnchorState.failed row,
    post_anchor-rejected_row node chain db q row sig f u r s e,
    ground arith,
    ground arith,
  )
