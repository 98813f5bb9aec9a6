-- ===== src/Server/Anchor/Authority.antt =====
-- Who may change a scan through POST /anchor and POST /anchor/queue.

use monadguard.Base.{
  ◌≡◌, true, false, inl, inr, Option, none, some, Option-cases, Text, text_eq, text_eq_refl, truthy,
  arith,
}
use monadguard.Store.{Db, ScanRow, AnchorState, Signature, get_scan, with_signature}
use monadguard.Store.Keys.{get_scan-mark_anchored, get_scan-queue_scan}
use monadguard.Store.Queries.{is_confirmed}
use monadguard.Worker.{AnchorFields, Chain, Mined}
use monadguard.Server.Http.{already_anchored}
use monadguard.Server.Anchor.{
  Node, AnchorRequest, is_operator, anchor_with, after_anchor, anchor_signed, authorise, anchor_row,
  post_anchor, queue_row, post_queue,
}

module _ (digest : AnchorFields → Text) (sign : Text → Text → Signature) where
  -- POST /anchor changes nothing for a request with neither a signature nor the operator's token.
  pub post_anchor-operator :
      (node : Node) (chain : Chain) (db : Db) (q : AnchorRequest)
      → q.signature ≡ none
      → is_operator node q ≡ false
      → (post_anchor digest sign node chain db q).0 ≡ db
  unfolding post_anchor anchor_row authorise
  post_anchor-operator node chain db q s t = ground arith

  -- POST /anchor leaves the store as it is for a scan that is confirmed, and answers with its
  -- transaction.
  pub post_anchor-confirmed :
      (node : Node) (chain : Chain) (db : Db) (q : AnchorRequest) (row : ScanRow)
      → get_scan db q.receipt_hash ≡ some row
      → row.anchor_state ≡ AnchorState.confirmed
      → post_anchor digest sign node chain db q ≡ (db, already_anchored row.anchor_tx)
  unfolding post_anchor anchor_row is_confirmed
  post_anchor-confirmed node chain db q row f c = ground arith

  after_anchor-others :
      (db : Db) (h k : Text) (res : Option Mined)
      → text_eq h k ≡ false
      → get_scan (after_anchor digest sign db h res).0 k ≡ get_scan db k
  unfolding after_anchor
  after_anchor-others db h k none ne = simp (get_scan-mark_anchored, ne)
  after_anchor-others db h k (some tx) ne = simp (get_scan-mark_anchored, ne)

  authorise-others :
      (node : Node) (chain : Chain) (db : Db) (q : AnchorRequest) (row : ScanRow)
      (sig : Option Signature) (k : Text)
      → text_eq q.receipt_hash k ≡ false
      → get_scan (authorise digest sign node chain db q row sig).0 k ≡ get_scan db k
  unfolding authorise anchor_signed
  authorise-others node chain db q row (some sig) k ne =
      after_anchor-others db q.receipt_hash k _ ne
  authorise-others node chain db q row none k ne = ground (
    arith,
    after_anchor-others db q.receipt_hash k
        (anchor_with digest sign chain node.key row q.signature chain.wallet) ne,
  )

  -- Whatever the request, POST /anchor changes no scan but the one that it names.
  pub post_anchor-others :
      (node : Node) (chain : Chain) (db : Db) (q : AnchorRequest) (k : Text)
      → text_eq q.receipt_hash k ≡ false
      → get_scan (post_anchor digest sign node chain db q).0 k ≡ get_scan db k
  unfolding post_anchor anchor_row
  post_anchor-others node chain db q k ne = elim (Option-cases (get_scan db q.receipt_hash)) [
    | inl e ↦ rw e
    | inr (row, e) ↦ rw e (ground (arith, authorise-others node chain db q row q.signature k ne))
  ]

-- POST /anchor/queue with both halves of a signature, for a scan that is there and not confirmed,
-- makes it wait with that signature; nothing is checked of the signature itself.
pub post_queue-row :
    (db : Db) (h : Text) (sig : Signature) (row : ScanRow)
    → truthy sig.r ≡ true
    → truthy sig.s ≡ true
    → get_scan db h ≡ some row
    → is_confirmed row.anchor_state ≡ false
    → get_scan (post_queue db h (some sig)).0 h ≡ some (with_signature sig row)
unfolding post_queue queue_row
post_queue-row db h sig row r s f c = rw (r, s, f, c, get_scan-queue_scan, text_eq_refl, f)
