-- ===== src/Store.antt =====
-- server/db.js over the tables of server/schema.sql: the tables are lists in the order of insertion,
-- and a statement is a function. Rows that tie in an ORDER BY keep that order.
pub mod Keys
pub mod Queries
use monadguard.Base.{
  ℕ, suc, ◌+◌, ◌==◌, Bool, true, false, not, ◌&&◌, ◌||◌, Option, none, some, List, [], ◌∷◌, ◌++◌,
  map, Text, text_eq, to_lower, leb, ltb, length, take, keep, find, any, if◌then◌else◌,
}

-- `anchor_state`
pub data AnchorState : Type 0 where
  pending queued sent confirmed failed poison unanchored : AnchorState

pub record ScanRow : Type 0 where
  pub id : ℕ
  pub tool_id : Text
  pub content_hash : Text
  pub verdict : ℕ
  pub score : ℕ
  pub findings_json : Text
  pub receipt_jws : Text
  pub receipt_hash : Text
  pub receipt_uri : Option Text
  pub sig_r : Option Text
  pub sig_s : Option Text
  pub created_at : ℕ
  pub chain_id : ℕ
  pub anchor_tx : Option Text
  pub anchor_block : Option ℕ
  pub anchor_state : AnchorState

pub record ToolRow : Type 0 where
  pub tool_id : Text
  pub kind : Text
  pub name : Text
  pub origin : Text
  pub first_seen : ℕ

pub record ExternalReceipt : Type 0 where
  pub receipt_hash : Text
  pub jws : Text
  pub tool_id : Text
  pub attestor_x : Text
  pub attestor_y : Text
  pub findings_json : Text
  pub created_at : ℕ

pub record Grant : Type 0 where
  pub address : Text
  pub ip : Text
  pub tx : Text
  pub created_at : ℕ

pub record Db : Type 0 where
  pub tools : List ToolRow
  pub scans : List ScanRow
  pub receipts : List ExternalReceipt
  pub grants : List Grant
  pub next_id : ℕ

-- What a caller of `insertScan` gives.
pub record NewScan : Type 0 where
  pub tool_id : Text
  pub content_hash : Text
  pub verdict : ℕ
  pub score : ℕ
  pub findings_json : Text
  pub receipt_jws : Text
  pub receipt_hash : Text
  pub receipt_uri : Option Text
  pub created_at : ℕ
  pub chain_id : ℕ

pub record Signature : Type 0 where
  pub r : Text
  pub s : Text

-- `SELECT * FROM scans WHERE receipt_hash = ?`
unfoldable pub has_hash : Text → ScanRow → Bool
has_hash h row = text_eq row.receipt_hash h

unfoldable pub get_scan : Db → Text → Option ScanRow
unfolding has_hash
get_scan db h = find (has_hash h) db.scans

-- `ON CONFLICT(tool_id) DO UPDATE SET name = excluded.name, origin = excluded.origin`
unfoldable pub put_tool : ToolRow → List ToolRow → List ToolRow
put_tool t [] = t ∷ []
put_tool t (u ∷ us) =
    if text_eq u.tool_id t.tool_id
    then record u { name = t.name; origin = t.origin } ∷ us
    else u ∷ put_tool t us

unfoldable pub upsert_tool : ToolRow → Db → Db
unfolding put_tool
upsert_tool t db = record db { tools = put_tool t db.tools }

unfoldable pub get_tool : Db → Text → Option ToolRow
get_tool db id = find (λ t. text_eq t.tool_id id) db.tools

unfoldable pub new_row : ℕ → NewScan → ScanRow
new_row id s = record {
  id = id;
  tool_id = s.tool_id;
  content_hash = s.content_hash;
  verdict = s.verdict;
  score = s.score;
  findings_json = s.findings_json;
  receipt_jws = s.receipt_jws;
  receipt_hash = s.receipt_hash;
  receipt_uri = s.receipt_uri;
  sig_r = none;
  sig_s = none;
  created_at = s.created_at;
  chain_id = s.chain_id;
  anchor_tx = none;
  anchor_block = none;
  anchor_state = pending;
}

-- `ON CONFLICT(receipt_hash) DO NOTHING`
unfoldable pub insert_scan : NewScan → Db → Db
unfolding new_row has_hash
insert_scan s db =
    if any (has_hash s.receipt_hash) db.scans
    then db
    else record db { scans = db.scans ++ new_row db.next_id s ∷ []; next_id = suc db.next_id }

-- `UPDATE scans SET … WHERE receipt_hash = ?`
unfoldable pub update_rows : Text → (ScanRow → ScanRow) → List ScanRow → List ScanRow
unfolding has_hash
update_rows h f [] = []
update_rows h f (row ∷ rows) = (if has_hash h row then f row else row) ∷ update_rows h f rows

unfoldable pub update_scan : Text → (ScanRow → ScanRow) → Db → Db
unfolding update_rows
update_scan h f db = record db { scans = update_rows h f db.scans }

abbrev pub with_state : AnchorState → ScanRow → ScanRow
with_state state row = record row { anchor_state = state }

abbrev pub with_signature : Signature → ScanRow → ScanRow
with_signature sig row = record row {
  sig_r = some sig.r;
  sig_s = some sig.s;
  anchor_state = queued;
}

abbrev pub with_anchor : Option Text → Option ℕ → AnchorState → ScanRow → ScanRow
with_anchor tx block state row = record row {
  anchor_tx = tx;
  anchor_block = block;
  anchor_state = state;
}

unfoldable pub set_state : Text → AnchorState → Db → Db
unfolding update_scan
set_state h state = update_scan h (with_state state)

unfoldable pub queue_scan : Text → Signature → Db → Db
unfolding update_scan
queue_scan h sig = update_scan h (with_signature sig)

unfoldable pub mark_anchored : Text → Option Text → Option ℕ → AnchorState → Db → Db
unfolding update_scan
mark_anchored h tx block state = update_scan h (with_anchor tx block state)

-- `INSERT OR IGNORE INTO external_receipts`
unfoldable pub put_external_receipt : ExternalReceipt → Db → Db
put_external_receipt x db =
    if any (λ (y : ExternalReceipt). text_eq y.receipt_hash x.receipt_hash) db.receipts
    then db
    else record db { receipts = db.receipts ++ x ∷ [] }

unfoldable pub get_external_receipt : Db → Text → Option ExternalReceipt
get_external_receipt db h = find (λ x. text_eq x.receipt_hash h) db.receipts

-- The faucet's book; addresses are kept in lower case. A second grant to one address is refused by
-- the primary key: `none` is that exception.
unfoldable pub faucet_granted : Db → Text → Option Grant
faucet_granted db address = find (λ g. text_eq g.address (to_lower address)) db.grants

unfoldable pub faucet_grants_since : Db → ℕ → ℕ
faucet_grants_since db ts = length (keep (λ g. ltb ts g.created_at) db.grants)

unfoldable pub faucet_grants_by_ip_since : Db → Text → ℕ → ℕ
faucet_grants_by_ip_since db ip ts =
    length (keep (λ g. text_eq g.ip ip && ltb ts g.created_at) db.grants)

unfoldable pub record_faucet_grant : Text → Text → Text → ℕ → Db → Option Db
record_faucet_grant address ip tx now db =
    if any (λ (g : Grant). text_eq g.address (to_lower address)) db.grants
    then none
    else some (record db {
      grants =
          db.grants
          ++ record { address = to_lower address; ip = ip; tx = tx; created_at = now } ∷ [];
    })
