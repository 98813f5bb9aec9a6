-- ===== src/System/Registry.antt =====
-- The registry that the store stands for, and the runs of the node. What the handlers and the worker do
-- in between is seen as sequences of statements.
pub mod Refinement
use mathlib.Core.Option
use monadguard.Base.{ℕ, Option, none, some, Text, ◌≡◌, text_eq, if◌then◌else◌}
use monadguard.Store.{Db, ScanRow, Signature, get_scan}
use monadguard.Worker.{AnchorFields, Chain, Config, Worker, tick}
use monadguard.Server.Anchor.{Node, AnchorRequest, post_anchor, post_queue}
use monadguard.Server.Scan.{Outside, ScanNode, ScanRequest}
use monadguard.Server.Scan.Handler.{post_scan}
use monadguard.Server.Faucet.{FaucetConfig, Viem, post_faucet}
use monadguard.Server.Receipts.{Publishing, post_receipt}

-- What the node has said of a tool: all of a scan but its way to the chain.
pub record Entry : Type 0 where
  pub tool_id : Text
  pub content_hash : Text
  pub verdict : ℕ
  pub score : ℕ
  pub findings_json : Text
  pub receipt_jws : Text
  pub created_at : ℕ
  pub chain_id : ℕ

abbrev pub entry_of : ScanRow → Entry
entry_of row = record {
  tool_id = row.tool_id;
  content_hash = row.content_hash;
  verdict = row.verdict;
  score = row.score;
  findings_json = row.findings_json;
  receipt_jws = row.receipt_jws;
  created_at = row.created_at;
  chain_id = row.chain_id;
}

-- The registry: a statement under each hash of a receipt, where there is one.
abbrev pub View : Type 0
View = Text → Option Entry

unfoldable pub view : Db → View
view db h = Option.map entry_of (get_scan db h)

-- The abstract machine: it rests, or adds an entry under a hash that has none.
pub data Logged : View → View → Type 0 where
  rests : {f g : View} → ((h : Text) → g h ≡ f h) → Logged f g
  adds :
      (k : Text) (e : Entry) {f g v : View}
      → Logged f g
      → g k ≡ none
      → ((h : Text) → v h ≡ (if text_eq k h then some e else g h))
      → Logged f v

-- One request or one tick.
pub data Step : Db → Db → Type 0 where
  scans :
      (ext : Outside) (node : ScanNode) (chain : Chain) (db : Db) (body : ScanRequest) (now_ms : ℕ)
      → Step db (post_scan ext node chain db body now_ms).0
  anchors :
      (digest : AnchorFields → Text) (sign : Text → Text → Signature) (node : Node) (chain : Chain)
      (db : Db) (q : AnchorRequest)
      → Step db (post_anchor digest sign node chain db q).0
  queues : (db : Db) (h : Text) (sig : Option Signature) → Step db (post_queue db h sig).0
  publishes :
      (ext : Publishing) (db : Db) (body : Option Text) (now : ℕ)
      → Step db (post_receipt ext db body now).0
  -- It goes on at `db`, whatever the store was at its checks.
  faucets :
      (cfg : FaucetConfig) (viem : Viem) (before db : Db) (address : Option Text) (ip : Text)
      (now then_now : ℕ)
      → Step db (post_faucet cfg viem before db address ip now then_now).db
  ticks :
      (digest : AnchorFields → Text) (sign : Text → Text → Signature) (cfg : Config) (chain : Chain)
      (w next : Worker)
      → tick digest sign cfg chain w ≡ some next
      → Step w.db next.db

-- A run of the node.
pub data Run : Db → Db → Type 0 where
  start : {db : Db} → Run db db
  then_step : {a b c : Db} → Run a b → Step b c → Run a c
