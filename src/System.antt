-- ===== src/System.antt =====
-- The node as a whole: what the handlers of server/index.js and the worker of server/worker.js write
-- to the store of server/db.js, as sequences of its statements, and the registry that they keep.
pub mod Handlers
pub mod Ticks
pub mod Registry
use monadguard.Base.{ℕ, Option, some, Text, ◌≡◌}
use monadguard.Store.{
  Db, ScanRow, ToolRow, NewScan, ExternalReceipt, AnchorState, Signature, upsert_tool, insert_scan,
  set_state, queue_scan, mark_anchored, put_external_receipt, record_faucet_grant,
}

-- What statements lead from one store to another, the last one outermost. Handlers that take turns
-- between their statements make such a sequence too.
pub data Writes : Db → Db → Type 0 where
  nothing : {db : Db} → Writes db db
  upserts : (t : ToolRow) {db d : Db} → Writes db d → Writes db (upsert_tool t d)
  inserts : (s : NewScan) {db d : Db} → Writes db d → Writes db (insert_scan s d)
  sets :
      (h : Text) (state : AnchorState) {db d : Db} → Writes db d → Writes db (set_state h state d)
  queues : (h : Text) (sig : Signature) {db d : Db} → Writes db d → Writes db (queue_scan h sig d)
  marks :
      (h : Text) (tx : Option Text) (block : Option ℕ) (state : AnchorState) {db d : Db}
      → Writes db d
      → Writes db (mark_anchored h tx block state d)
  publishes : (x : ExternalReceipt) {db d : Db} → Writes db d → Writes db (put_external_receipt x d)
  grants :
      (address ip tx : Text) (now : ℕ) {db d e : Db}
      → Writes db d
      → record_faucet_grant address ip tx now d ≡ some e
      → Writes db e

-- One sequence behind another.
pub Writes-trans : {a b c : Db} → Writes a b → Writes b c → Writes a c
Writes-trans w nothing = w
Writes-trans w (upserts t v) = upserts t (Writes-trans w v)
Writes-trans w (inserts s v) = inserts s (Writes-trans w v)
Writes-trans w (sets h state v) = sets h state (Writes-trans w v)
Writes-trans w (queues h sig v) = queues h sig (Writes-trans w v)
Writes-trans w (marks h tx block state v) = marks h tx block state (Writes-trans w v)
Writes-trans w (publishes x v) = publishes x (Writes-trans w v)
Writes-trans w (grants address ip tx now v e) = grants address ip tx now (Writes-trans w v) e
