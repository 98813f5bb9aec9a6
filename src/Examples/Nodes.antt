-- ===== src/Examples/Nodes.antt =====
-- The store and the worker at small inputs.
use monadguard.Store.Queries.{pending_scans, queued_scans}
use mathlib.Core.Option
use monadguard.Base.{
  keep, ◌≤◌, ◌≡◌, refl, true, none, some, List, [], ◌∷◌, All, Text, lit, length, arith,
  if◌then◌else◌, any, text_eq, find,
}
use monadguard.Store.{Db, ScanRow, AnchorState, Signature, get_scan}
use monadguard.Store.Keys.{HasUniqueHashes}
use monadguard.Worker.{AnchorFields, Mined, Chain, Config, Worker, batch_rows, after_send, tick}
use monadguard.Worker.Batch.{IsPicked, batch_rows-IsPicked}
use monadguard.Worker.Updates.{listed}
use monadguard.Worker.Outcomes.{IsSettled}
use monadguard.Worker.Ticks.{settle, tick-settled, after_send-rows}

abbrev pub row : Text → AnchorState → ScanRow
row h state = record {
  id = 1;
  tool_id = lit "0x1";
  content_hash = lit "0x2";
  verdict = 1;
  score = 0;
  findings_json = lit "[]";
  receipt_jws = lit "a.b.c";
  receipt_hash = h;
  receipt_uri = none;
  sig_r = none;
  sig_s = none;
  created_at = 5;
  chain_id = 143;
  anchor_tx = none;
  anchor_block = none;
  anchor_state = state;
}

abbrev pub confirmed_row : ScanRow
confirmed_row = row (lit "0xc") AnchorState.confirmed

abbrev pub pending_row : ScanRow
pending_row = row (lit "0xd") AnchorState.pending

abbrev pub store_of : List ScanRow → Db
store_of rows = record { tools = []; scans = rows; receipts = []; grants = []; next_id = 3 }

abbrev store : Db
store = store_of (confirmed_row ∷ pending_row ∷ [])

abbrev pub digest : AnchorFields → Text
digest f = f.receipt_hash

abbrev pub sign : Text → Text → Signature
sign key d = record { r = key; s = d }

abbrev pub mined : Mined
mined = record { hash = lit "0xe"; block = 7; success = true }

abbrev pub chain : Chain
chain = record {
  has_registry = true;
  wallet = some (lit "0xa");
  anchor_batch = λ inputs. some mined;
  anchor_one = λ input. some mined;
}

abbrev config : Config
config = record {
  batch_max = 25;
  interval_ms = 15000;
  max_backoff_ms = 900000;
  poison_after = 3;
  key = some (lit "key");
}

abbrev worker : Worker
worker = record { db = store; backoff = 0; consecutive_failures = 0 }

store-HasUniqueHashes : HasUniqueHashes store.scans
unfolding text_eq
store-HasUniqueHashes = ((refl, tt), (tt, tt))

batch_rows-IsPicked_example :
    All (IsPicked store) (batch_rows config store) × (length (batch_rows config store) ≤ 25)
batch_rows-IsPicked_example = batch_rows-IsPicked config store

confirmed-found : get_scan store (lit "0xc") ≡ some confirmed_row
unfolding get_scan find text_eq
confirmed-found = refl

confirmed-IsSettled : IsSettled digest sign store (lit "0xc") confirmed_row
confirmed-IsSettled = record { found = confirmed-found; settled = λ w. ground arith }

abbrev ticked : Worker
ticked = (after_send digest sign config worker (lit "0xd" ∷ []) 1 (some mined)).0

ticked-tick : tick digest sign config chain worker ≡ some ticked
unfolding tick queued_scans keep pending_scans any
ticked-tick = refl

tick-settled_example : get_scan ticked.db (lit "0xc") ≡ some confirmed_row
tick-settled_example =
    tick-settled digest sign config chain worker ticked (lit "0xc") confirmed_row
      store-HasUniqueHashes confirmed-IsSettled ticked-tick

after_send-rows_example :
    get_scan (after_send digest sign config worker (lit "0xd" ∷ []) 1 none).0.db (lit "0xd") ≡ (
      if listed (lit "0xd") (lit "0xd" ∷ [])
      then Option.map (settle none) (get_scan store (lit "0xd"))
      else get_scan store (lit "0xd"))
after_send-rows_example =
    after_send-rows digest sign config worker (lit "0xd" ∷ []) 1 none (lit "0xd")
