-- ===== src/Server/Receipts.antt =====
-- server/index.js:234-287: POST /anchor/digest, GET /receipt/:hash and POST /receipt, which publishes
-- the receipt of another attestor. The decoder, the hash and P-256 are parameters.
pub mod Immutable
pub mod Served
use monadguard.Base.{
  ℕ, ◌-◌, Bool, true, false, not, ◌&&◌, ◌||◌, ◌==◌, Option, none, some, List, [], ◌∷◌, ◌++◌, Text,
  lit, length, drop, replicate, split, truthy, text_eq, to_lower, ltb, if◌then◌else◌,
}
use monadguard.Identity.{tool_id}
use monadguard.Receipt.Digests.{strip}
use monadguard.Store.{
  Db, ScanRow, ToolRow, ExternalReceipt, get_scan, get_tool, upsert_tool, put_external_receipt,
  get_external_receipt,
}
use monadguard.Worker.{AnchorFields}

-- What the handler reads of a payload that was decoded; a field is `none` where it is missing.
pub record Published : Type 0 where
  pub x : Option Text
  pub y : Option Text
  pub id : Option Text
  pub kind : Option Text
  pub name : Option Text
  pub origin : Option Text
  pub findings_json : Text

pub record Publishing : Type 0 where
  pub keccak : Text → Text
  pub decode : Text → Option Published
  pub verify : (jws key : Text) → Option Bool
  pub hash : Published → Text

pub data ReceiptResponse : Type 0 where
  refused : ℕ → ReceiptResponse
  stored : Text → ReceiptResponse

abbrev pub ReceiptHandled : Type 0
ReceiptHandled = Db × ReceiptResponse

unfoldable pub public_key : (x y : Text) → Text
unfolding strip
public_key x y = lit "0x04" ++ (strip x ++ strip y)

unfoldable pub held : Option Bool → Bool
held none = false
held (some ok) = ok

unfoldable pub or_undefined : Option Text → Text
or_undefined none = lit "undefined"
or_undefined (some t) = t

unfoldable pub is_known : Option ToolRow → Bool
is_known none = false
is_known (some t) = true

-- The tool is written only where it is not there; the table refuses one without a kind.
unfoldable pub add_tool : ToolRow → Option Text → Text → Db → Bool → ReceiptHandled
add_tool t kind h db true = (db, stored h)
add_tool t (some k) h db false = (upsert_tool t db, stored h)
add_tool t none h db false = (db, refused 500)

-- A tool without a name or an origin has no id: an exception.
unfoldable pub derive_id : Publishing → Published → Option Text → Option Text → Option Text
unfolding or_undefined
derive_id ext p (some name) (some origin) =
    some (to_lower (tool_id ext.keccak (or_undefined p.kind) name origin))
derive_id ext p _ _ = none

unfoldable pub store_receipt :
    Publishing → Db → (jws : Text) (now : ℕ) → Published → (x y id : Text) → ReceiptHandled
unfolding add_tool is_known
store_receipt ext db jws now p x y id =
    let h = to_lower (ext.hash p) in
    let row : ExternalReceipt = record {
      receipt_hash = h;
      jws = jws;
      tool_id = to_lower id;
      attestor_x = x;
      attestor_y = y;
      findings_json = p.findings_json;
      created_at = now;
    } in
    let tool : ToolRow = record {
      tool_id = to_lower id;
      kind = or_undefined p.kind;
      name = or_undefined p.name;
      origin = or_undefined p.origin;
      first_seen = now;
    } in
    let after = put_external_receipt row db in
    add_tool tool p.kind h after (is_known (get_tool after tool.tool_id))

unfoldable pub check_id :
    Publishing
    → Db
    → (jws : Text) (now : ℕ) → Published
    → (x y id : Text) → Option Text
    → ReceiptHandled
unfolding store_receipt
check_id ext db jws now p x y id none = (db, refused 500)
check_id ext db jws now p x y id (some derived) =
    if text_eq derived (to_lower id)
    then store_receipt ext db jws now p x y id
    else (db, refused 400)

unfoldable pub check_signature :
    Publishing → Db → (jws : Text) (now : ℕ) → Published → (x y id : Text) → ReceiptHandled
unfolding check_id derive_id public_key held
check_signature ext db jws now p x y id =
    if not (truthy x) || not (truthy y) || not (truthy id)
    then (db, refused 400)
    else if held (ext.verify jws (public_key x y))
    then check_id ext db jws now p x y id (derive_id ext p p.name p.origin)
    else (db, refused 400)

unfoldable pub check_fields :
    Publishing → Db → (jws : Text) (now : ℕ) → Published → (x y id : Option Text) → ReceiptHandled
unfolding check_signature
check_fields ext db jws now p (some x) (some y) (some id) = check_signature ext db jws now p x y id
check_fields ext db jws now p _ _ _ = (db, refused 400)

unfoldable pub check_published :
    Publishing → Db → (jws : Text) (now : ℕ) → Option Published → ReceiptHandled
unfolding check_fields
check_published ext db jws now none = (db, refused 400)
check_published ext db jws now (some p) = check_fields ext db jws now p p.x p.y p.id

-- `jws` is `none` where the body has no text there.
unfoldable pub post_receipt : Publishing → Db → Option Text → ℕ → ReceiptHandled
unfolding check_published
post_receipt ext db none now = (db, refused 400)
post_receipt ext db (some jws) now =
    if ltb 200000 (length jws) || not (length (split b'.' jws) == 3)
    then (db, refused 400)
    else check_published ext db jws now (ext.decode jws)

-- `db.getScan(hash)?.receipt_jws ?? db.getExternalReceipt(hash)?.jws`; `none` is the status 404.
unfoldable pub served : Option Text → Option Text
served none = none
served (some jws) = if truthy jws then some jws else none

unfoldable pub stored_jws : Option ScanRow → Option ExternalReceipt → Option Text
stored_jws (some row) x = some row.receipt_jws
stored_jws none (some x) = some x.jws
stored_jws none none = none

unfoldable pub get_receipt : Db → Text → Option Text
unfolding served stored_jws
get_receipt db hash =
    let h = to_lower hash in served (stored_jws (get_scan db h) (get_external_receipt db h))

-- What the browser signs: `none` is the status 404 or 400.
unfoldable pub digest_of : (AnchorFields → Text) → Text → Option Text → Option ScanRow → Option Text
digest_of digest h attestor none = none
digest_of digest h none (some row) = none
digest_of digest h (some attestor) (some row) =
    if truthy attestor
    then some (
        digest (record {
          attestor = attestor;
          tool_id = row.tool_id;
          content_hash = row.content_hash;
          verdict = row.verdict;
          score = row.score;
          receipt_hash = h;
        }))
    else none

unfoldable pub post_digest : (AnchorFields → Text) → Db → Text → Option Text → Option Text
unfolding digest_of
post_digest digest db h attestor = digest_of digest h attestor (get_scan db h)
