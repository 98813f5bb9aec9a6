-- ===== src/Server/Anchor.antt =====
-- server/index.js:198-232: POST /anchor and POST /anchor/queue.
pub mod Authority
pub mod Leak
use monadguard.Base.{
  ℕ, Bool, true, false, not, ◌&&◌, ◌||◌, Option, none, some, List, Text, truthy, text_eq,
  if◌then◌else◌,
}
use monadguard.Store.{
  Db, ScanRow, AnchorState, Signature, failed, get_scan, mark_anchored, queue_scan,
}
use monadguard.Store.Queries.{is_confirmed}
use monadguard.Worker.{AnchorFields, Chain, Mined, ScanInput, scan_input, sign_row, state_of}
use monadguard.Server.Http.{Response, Handled, error, already_anchored, anchored, is_queued}

-- The key that the node loaded and ADMIN_TOKEN, where it is set.
pub record Node : Type 0 where
  pub key : Option Text
  pub admin_token : Option Text

-- The body of the request, and its header x-admin-token.
pub record AnchorRequest : Type 0 where
  pub receipt_hash : Text
  pub signature : Option Signature
  pub token : Option Text

-- `ADMIN_TOKEN && header === ADMIN_TOKEN`
unfoldable pub is_operator : Node → AnchorRequest → Bool
is_operator node q = elim node.admin_token [
  | none ↦ false
  | some t ↦ elim q.token [ none ↦ false | some u ↦ truthy t && text_eq u t ]
]

module _ (digest : AnchorFields → Text) (sign : Text → Text → Signature) where
  -- `chain.anchorScan`: `sig ?? signDigest(digest, key.privateKey)`, with the account of the node.
  -- `none` is an exception.
  unfoldable pub anchor_with :
      Chain → Option Text → ScanRow → Option Signature → Option Text → Option Mined
  unfolding sign_row scan_input
  anchor_with chain key row sig none = none
  anchor_with chain key row (some sig) (some attestor) = chain.anchor_one (scan_input row sig)
  anchor_with chain none row none (some attestor) = none
  anchor_with chain (some k) row none (some attestor) =
      chain.anchor_one (scan_input row (sign_row digest sign k attestor row))

  -- What the handler writes down and answers.
  unfoldable pub after_anchor : Db → Text → Option Mined → Handled
  unfolding state_of
  after_anchor db h none = (mark_anchored h none none failed db, error 502)
  after_anchor db h (some tx) = (
    mark_anchored h (some tx.hash) (some tx.block) (state_of tx.success) db,
    anchored tx.success tx.hash tx.block,
  )

  -- The guards on who may anchor, and the call.
  unfoldable pub anchor_signed : Node → Chain → Db → AnchorRequest → ScanRow → Handled
  unfolding anchor_with after_anchor
  anchor_signed node chain db q row =
      after_anchor db q.receipt_hash (anchor_with chain node.key row q.signature chain.wallet)

  unfoldable pub authorise :
      Node → Chain → Db → AnchorRequest → ScanRow → Option Signature → Handled
  unfolding anchor_signed is_operator
  authorise node chain db q row (some sig) = anchor_signed node chain db q row
  authorise node chain db q row none = elim node.key [
    | none ↦ (db, error 400)
    | some k ↦ if is_operator node q then anchor_signed node chain db q row else (db, error 403)
  ]

  unfoldable pub anchor_row : Node → Chain → Db → AnchorRequest → Option ScanRow → Handled
  unfolding authorise
  anchor_row node chain db q none = (db, error 404)
  anchor_row node chain db q (some row) =
      if is_confirmed row.anchor_state
      then (db, already_anchored row.anchor_tx)
      else if chain.has_registry
      then authorise node chain db q row q.signature
      else (db, error 503)

  unfoldable pub post_anchor : Node → Chain → Db → AnchorRequest → Handled
  unfolding anchor_row
  post_anchor node chain db q = anchor_row node chain db q (get_scan db q.receipt_hash)

unfoldable pub queue_row : Db → Text → Signature → Option ScanRow → Handled
queue_row db h sig none = (db, error 404)
queue_row db h sig (some row) =
    if is_confirmed row.anchor_state
    then (db, already_anchored row.anchor_tx)
    else (queue_scan h sig db, is_queued)

-- POST /anchor/queue wants both halves of a signature.
unfoldable pub post_queue : Db → Text → Option Signature → Handled
unfolding queue_row
post_queue db h none = (db, error 400)
post_queue db h (some sig) =
    if truthy sig.r && truthy sig.s then queue_row db h sig (get_scan db h) else (db, error 400)
