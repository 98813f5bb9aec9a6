-- ===== src/Server/Scan/Writes.antt =====
-- What POST /scan writes, and when it writes nothing.

use monadguard.Base.{
  ℕ, ◌≡◌, inl, inr, refl, Bool, true, false, Bool-cases, not, ◌&&◌, Option, none, some,
  Option-cases, Text, trim, truthy, text_eq_refl, find, any, arith, ap, List, [], ◌∷◌, ◌++◌,
}
use monadguard.Scanner.Result.{ScanResult}
use monadguard.Receipt.{Receipt, PublicKey}
use monadguard.Store.{
  Db, ScanRow, NewScan, AnchorState, get_scan, has_hash, new_row, insert_scan, set_state,
  with_state,
}
use monadguard.Store.Keys.{get_scan-set_state}
use monadguard.Worker.{Chain}
use monadguard.Server.Scan.{
  scan_row, is_mcp, ScanRequest, ScanNode, Accepted, ScanResponse, Outside, failed, declined,
  accepted, refusal,
}
use monadguard.Server.Scan.Handler.{
  post_scan, scan_with, conclude_scan, accept, store_scan, anchor_stored, scan_body, was_declined,
}

-- The answer carries a receipt.
unfoldable pub is_accepted : ScanResponse → Bool
is_accepted (failed status) = false
is_accepted (declined level) = false
is_accepted (accepted a) = true

module _ (ext : Outside) (node : ScanNode) (chain : Chain) (db : Db) (body : ScanRequest)
    (now_ms : ℕ) where
  accept-writes :
      (secret raw : Text) (result : ScanResult) (r : Option Receipt)
      → is_accepted (accept ext node chain db body now_ms secret raw result r).1 ≡ false
      → (accept ext node chain db body now_ms secret raw result r).0 ≡ db
  unfolding accept is_accepted
  accept-writes secret raw result none h = refl
  accept-writes secret raw result (some payload) h = absurd (cc)

  conclude_scan-writes :
      (key : Text × PublicKey) (scanned : Option (Text × ScanResult))
      → is_accepted (conclude_scan ext node chain db body now_ms key scanned).1 ≡ false
      → (conclude_scan ext node chain db body now_ms key scanned).0 ≡ db
  unfolding conclude_scan is_accepted
  conclude_scan-writes key none h = refl
  conclude_scan-writes key (some (raw, result)) h = ground (arith, accept-writes key.0 raw result _)

  -- An answer of POST /scan without a receipt, be it an error or a declined scan, leaves the store
  -- as it was.
  pub post_scan-writes :
      is_accepted (post_scan ext node chain db body now_ms).1 ≡ false
      → (post_scan ext node chain db body now_ms).0 ≡ db
  unfolding post_scan scan_with is_accepted
  post_scan-writes h = elim (Option-cases (refusal node body)) [
    | inr (status, e) ↦ rw e refl
    | inl e ↦ elim (Option-cases node.key) [
      | inl k ↦ rw (e, k) refl
      | inr (key, k) ↦ rw (e, k) (conclude_scan-writes key (scan_body ext body) (rw (e, k) at h))
    ]
  ]

find_of_any :
    (p : ScanRow → Bool) (rows : List ScanRow)
    → any p rows ≡ true
    → (row : ScanRow) × (find p rows ≡ some row)
unfolding any find
find_of_any p [] h = absurd (cc)
find_of_any p (r ∷ rs) h = elim (Bool-cases (p r)) [
  | inl e ↦ (r, rw e refl)
  | inr e ↦ let (row, q) = find_of_any p rs (rw e at h) in (row, rw e q)
]

any-append_last :
    (p : ScanRow → Bool) (rows : List ScanRow) (row : ScanRow)
    → p row ≡ true
    → any p (rows ++ row ∷ []) ≡ true
unfolding any
any-append_last p [] row h = ground arith
any-append_last p (r ∷ rs) row h = ground (arith, any-append_last p rs row h)

-- A scan that was inserted is there, be it for the first time or not.
pub insert_scan-found :
    (s : NewScan) (db : Db)
    → (row : ScanRow) × (get_scan (insert_scan s db) s.receipt_hash ≡ some row)
unfolding get_scan insert_scan new_row has_hash
insert_scan-found s db = elim (Bool-cases (any (has_hash s.receipt_hash) db.scans)) [
  | inl e ↦ rw e (find_of_any (has_hash s.receipt_hash) db.scans e)
  | inr e ↦ rw e (
      find_of_any (has_hash s.receipt_hash) (db.scans ++ new_row db.next_id s ∷ []) (
        any-append_last (has_hash s.receipt_hash) db.scans (new_row db.next_id s)
          (text_eq_refl s.receipt_hash)))
]

-- The row of a hash is there and off the chain.
abbrev pub IsKeptOff : Db → Text → Type 0
IsKeptOff db h =
    (row : ScanRow) × (get_scan db h ≡ some row) × (row.anchor_state ≡ AnchorState.unanchored)

set_state-IsKeptOff :
    (db : Db) (h : Text) (row : ScanRow)
    → get_scan db h ≡ some row
    → IsKeptOff (set_state h AnchorState.unanchored db) h
set_state-IsKeptOff db h row e =
    (with_state AnchorState.unanchored row, rw (get_scan-set_state, text_eq_refl, e) refl, refl)

hash_of : ScanResponse → Text
hash_of (failed status) = []
hash_of (declined level) = []
hash_of (accepted a) = a.receipt_hash

module _ (ext : Outside) (node : ScanNode) (chain : Chain) (db : Db) (body : ScanRequest)
    (now_ms : ℕ) (off : node.auto_anchor ≡ false) where
  store_scan-IsKeptOff :
      (s : NewScan) → IsKeptOff (store_scan ext node body now_ms s db) s.receipt_hash
  unfolding store_scan
  store_scan-IsKeptOff s =
      rw off (let (row, e) = insert_scan-found s _ in set_state-IsKeptOff _ s.receipt_hash row e)

  anchor_stored-off :
      (secret : Text) (s : NewScan) (d : Db) → (anchor_stored ext node chain secret s d).0 ≡ d
  unfolding anchor_stored
  anchor_stored-off secret s d = ground (arith, off)

  accept-IsKeptOff :
      (secret raw : Text) (result : ScanResult) (r : Option Receipt) (a : Accepted)
      → (accept ext node chain db body now_ms secret raw result r).1 ≡ accepted a
      → IsKeptOff (accept ext node chain db body now_ms secret raw result r).0 a.receipt_hash
  unfolding accept hash_of
  accept-IsKeptOff secret raw result none a h = absurd (cc)
  accept-IsKeptOff secret raw result (some payload) a h =
      let s = scan_row ext node payload result.findings secret in
      rw (← ap hash_of h, anchor_stored-off secret s _) (store_scan-IsKeptOff s)

  conclude_scan-IsKeptOff :
      (key : Text × PublicKey) (scanned : Option (Text × ScanResult)) (a : Accepted)
      → (conclude_scan ext node chain db body now_ms key scanned).1 ≡ accepted a
      → IsKeptOff (conclude_scan ext node chain db body now_ms key scanned).0 a.receipt_hash
  unfolding conclude_scan
  conclude_scan-IsKeptOff key none a h = absurd (cc)
  conclude_scan-IsKeptOff key (some (raw, result)) a h =
      elim (Bool-cases (not (is_mcp body.kind) && not (truthy (trim raw)))) [
        | inl b ↦ absurd (cc (rw b at h))
        | inr b ↦ elim (Bool-cases (was_declined result.scanned)) [
          | inl d ↦ absurd (cc (rw (b, d) at h))
          | inr d ↦ rw (b, d) (accept-IsKeptOff key.0 raw result _ a (rw (b, d) at h))
        ]
      ]

  -- Without AUTO_ANCHOR, an answer of POST /scan with a receipt means that the scan of that hash is
  -- in the store and marked as unanchored.
  pub post_scan-IsKeptOff :
      (a : Accepted)
      → (post_scan ext node chain db body now_ms).1 ≡ accepted a
      → IsKeptOff (post_scan ext node chain db body now_ms).0 a.receipt_hash
  unfolding post_scan scan_with
  post_scan-IsKeptOff a h = elim (Option-cases (refusal node body)) [
    | inr (status, e) ↦ absurd (cc (rw e at h))
    | inl e ↦ elim (Option-cases node.key) [
      | inl k ↦ absurd (cc (rw (e, k) at h))
      | inr (key, k) ↦
          rw (e, k) (conclude_scan-IsKeptOff key (scan_body ext body) a (rw (e, k) at h))
    ]
  ]
