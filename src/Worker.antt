-- ===== src/Worker.antt =====
-- server/worker.js: the batch worker, which anchors the signed scans of the store.
pub mod Updates
pub mod Batch
pub mod Outcomes
pub mod Ticks
use monadguard.Base.{
  ℕ, suc, ◌+◌, ◌*◌, ◌==◌, min, Bool, true, false, ◌&&◌, ◌||◌, Option, none, some, List, [], ◌∷◌,
  ◌++◌, map, Text, truthy, text_eq, leb, length, take, any, if◌then◌else◌,
}
use monadguard.Store.{
  Db, ScanRow, AnchorState, Signature, set_state, mark_anchored, sent, confirmed, failed, poison,
}
use monadguard.Store.Queries.{queued_scans, pending_scans}

-- What an anchor signature commits to, beside the chain, the registry and the attestor.
pub record AnchorFields : Type 0 where
  pub attestor : Text
  pub tool_id : Text
  pub content_hash : Text
  pub verdict : ℕ
  pub score : ℕ
  pub receipt_hash : Text

pub record ScanInput : Type 0 where
  pub tool_id : Text
  pub content_hash : Text
  pub receipt_hash : Text
  pub verdict : ℕ
  pub score : ℕ
  pub r : Text
  pub s : Text
  pub receipt_uri : Text

-- A mined transaction; `success` is its status.
pub record Mined : Type 0 where
  pub hash : Text
  pub block : ℕ
  pub success : Bool

-- The chain at one moment: `none` is an exception. `wallet` is the address of the account.
pub record Chain : Type 0 where
  pub has_registry : Bool
  pub wallet : Option Text
  pub anchor_batch : List ScanInput → Option Mined
  pub anchor_one : ScanInput → Option Mined

-- The environment of the process, and the key that it loaded.
pub record Config : Type 0 where
  pub batch_max : ℕ
  pub interval_ms : ℕ
  pub max_backoff_ms : ℕ
  pub poison_after : ℕ
  pub key : Option Text

pub record Worker : Type 0 where
  pub db : Db
  pub backoff : ℕ
  pub consecutive_failures : ℕ

pub data Drained : Type 0 where
  skipped : Drained
  anchored : ℕ → Drained
  waiting_for_signatures : ℕ → Drained
  thrown : Drained

-- A signature of a row, where neither half is missing or empty.
unfoldable pub row_signature : ScanRow → Option Signature
row_signature row = elim row.sig_r [
  | none ↦ none
  | some r ↦ elim row.sig_s [
    | none ↦ none
    | some s ↦ if truthy r && truthy s then some (record { r = r; s = s }) else none
  ]
]

unfoldable pub uri_of : Option Text → Text
uri_of none = []
uri_of (some uri) = uri

unfoldable pub scan_input : ScanRow → Signature → ScanInput
unfolding uri_of
scan_input row sig = record {
  tool_id = row.tool_id;
  content_hash = row.content_hash;
  receipt_hash = row.receipt_hash;
  verdict = row.verdict;
  score = row.score;
  r = sig.r;
  s = sig.s;
  receipt_uri = uri_of row.receipt_uri;
}

-- `all.findIndex((x) => x.receipt_hash === row.receipt_hash) === i`: the first of each hash.
unfoldable pub distinct_rows : List Text → List ScanRow → List ScanRow
distinct_rows seen [] = []
distinct_rows seen (row ∷ rows) =
    let dropped = distinct_rows seen rows in
    let kept = row ∷ distinct_rows (row.receipt_hash ∷ seen) rows in
    if any (text_eq row.receipt_hash) seen then dropped else kept

has_key : Option Text → Bool
has_key none = false
has_key (some k) = true

unfoldable pub batch_rows : Config → Db → List ScanRow
unfolding distinct_rows has_key
batch_rows cfg db = take cfg.batch_max (
    distinct_rows [] (
      queued_scans db cfg.batch_max
      ++ (if has_key cfg.key then pending_scans db cfg.batch_max else [])))

-- `for (const h of included) db.setState(h, state)`
unfoldable pub set_states : List Text → AnchorState → Db → Db
set_states [] state db = db
set_states (h ∷ hs) state db = set_states hs state (set_state h state db)

unfoldable pub mark_all : List Text → Text → ℕ → AnchorState → Db → Db
mark_all [] tx block state db = db
mark_all (h ∷ hs) tx block state db =
    mark_all hs tx block state (mark_anchored h (some tx) (some block) state db)

-- `res.status === 'success' ? 'confirmed' : 'failed'`
unfoldable pub state_of : Bool → AnchorState
state_of true = confirmed
state_of false = failed

-- `Math.min(backoff === 0 ? INTERVAL_MS : backoff * 2, MAX_BACKOFF_MS)`
unfoldable pub next_backoff : Config → ℕ → ℕ
next_backoff cfg backoff =
    min (if backoff == 0 then cfg.interval_ms else backoff * 2) cfg.max_backoff_ms

unfoldable pub cons_input : Option ScanInput → List ScanInput → List ScanInput
cons_input none inputs = inputs
cons_input (some input) inputs = input ∷ inputs

module _ (digest : AnchorFields → Text) (sign : Text → Text → Signature) where
  -- The key of this node signs what came without a signature.
  unfoldable pub sign_row : Text → Text → ScanRow → Signature
  sign_row key attestor row = sign key (
      digest (record {
        attestor = attestor;
        tool_id = row.tool_id;
        content_hash = row.content_hash;
        verdict = row.verdict;
        score = row.score;
        receipt_hash = row.receipt_hash;
      }))

  unfoldable pub to_scan_input : Option Text → Text → ScanRow → Option ScanInput
  unfolding row_signature sign_row scan_input
  to_scan_input key attestor row = elim (row_signature row) [
    | some sig ↦ some (scan_input row sig)
    | none ↦ elim key [ none ↦ none | some k ↦ some (scan_input row (sign_row k attestor row)) ]
  ]

  unfoldable pub inputs_of : Option Text → Text → List ScanRow → List ScanInput
  unfolding to_scan_input cons_input
  inputs_of key attestor [] = []
  inputs_of key attestor (row ∷ rows) =
      cons_input (to_scan_input key attestor row) (inputs_of key attestor rows)

  -- The rows are marked `sent`, the batch goes out, and the outcome is written down.
  unfoldable pub after_send : Config → Worker → List Text → ℕ → Option Mined → Worker × Drained
  unfolding set_states mark_all state_of next_backoff
  after_send cfg w included n none = (
    record w {
      db = set_states included failed (set_states included sent w.db);
      backoff = next_backoff cfg w.backoff;
    },
    thrown,
  )
  after_send cfg w included n (some res) = (
    record w {
      db =
          mark_all included res.hash res.block (state_of res.success)
            (set_states included sent w.db);
      backoff = if res.success then 0 else w.backoff;
    },
    anchored n,
  )

  unfoldable pub send_batch : Config → Chain → Worker → ℕ → List ScanInput → Worker × Drained
  unfolding after_send
  send_batch cfg chain w waiting [] = (w, waiting_for_signatures waiting)
  send_batch cfg chain w waiting (i ∷ is) =
      after_send cfg w (map (λ (x : ScanInput). x.receipt_hash) (i ∷ is)) (length (i ∷ is))
        (chain.anchor_batch (i ∷ is))

  unfoldable pub drain_rows : Config → Chain → Worker → Text → List ScanRow → Worker × Drained
  unfolding send_batch inputs_of
  drain_rows cfg chain w attestor [] = (w, anchored 0)
  drain_rows cfg chain w attestor (row ∷ rows) =
      send_batch cfg chain w (length (row ∷ rows)) (inputs_of cfg.key attestor (row ∷ rows))

  unfoldable pub drain_with : Config → Chain → Worker → Option Text → Worker × Drained
  unfolding drain_rows batch_rows
  drain_with cfg chain w none = (w, thrown)
  drain_with cfg chain w (some attestor) = drain_rows cfg chain w attestor (batch_rows cfg w.db)

  unfoldable pub drain_once : Config → Chain → Worker → Worker × Drained
  unfolding drain_with
  drain_once cfg chain w =
      if chain.has_registry then drain_with cfg chain w chain.wallet else (w, skipped)

  -- One row of the fallback: a row that throws is set aside as poison.
  unfoldable pub isolate_result : Text → Option Mined → Db → Db
  unfolding state_of
  isolate_result h none db = mark_anchored h none none poison db
  isolate_result h (some res) db =
      mark_anchored h (some res.hash) (some res.block) (state_of res.success) db

  unfoldable pub isolate_row : Chain → ScanInput → Db → Db
  unfolding isolate_result
  isolate_row chain input db = isolate_result input.receipt_hash (chain.anchor_one input) db

  unfoldable pub isolate_rows : Chain → List ScanInput → Db → Db
  unfolding isolate_row
  isolate_rows chain [] db = db
  isolate_rows chain (i ∷ is) db = isolate_rows chain is (isolate_row chain i db)

  unfoldable pub isolate_with : Config → Chain → Db → Option Text → Option Db
  unfolding isolate_rows inputs_of
  isolate_with cfg chain db none = none
  isolate_with cfg chain db (some attestor) =
      some (isolate_rows chain (inputs_of cfg.key attestor (queued_scans db cfg.batch_max)) db)

  -- `none` is the exception of a wallet without a key, which leaves `tick` too.
  unfoldable pub drain_one_by_one : Config → Chain → Db → Option Db
  unfolding isolate_with
  drain_one_by_one cfg chain db = isolate_with cfg chain db chain.wallet

  -- The fallback starts the count and the backoff again.
  unfoldable pub recovered : Option Db → Option Worker
  recovered none = none
  recovered (some db) = some (record { db = db; backoff = 0; consecutive_failures = 0 })

  unfoldable pub after_failure : Config → Chain → Worker → Option Worker
  unfolding drain_one_by_one recovered
  after_failure cfg chain w =
      if leb cfg.poison_after (suc w.consecutive_failures)
      then recovered (drain_one_by_one cfg chain w.db)
      else some (record w { consecutive_failures = suc w.consecutive_failures })

  -- The failures in a row are counted.
  unfoldable pub after_tick : Config → Chain → Worker × Drained → Option Worker
  unfolding after_failure
  after_tick cfg chain (w, thrown) = after_failure cfg chain w
  after_tick cfg chain (w, skipped) = some (record w { consecutive_failures = 0 })
  after_tick cfg chain (w, anchored n) = some (record w { consecutive_failures = 0 })
  after_tick cfg chain (w, waiting_for_signatures n) = some (record w { consecutive_failures = 0 })

  unfoldable pub tick : Config → Chain → Worker → Option Worker
  unfolding after_tick drain_once
  tick cfg chain w = after_tick cfg chain (drain_once cfg chain w)
