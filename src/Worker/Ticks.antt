-- ===== src/Worker/Ticks.antt =====
-- Whole ticks of the worker: what they keep, and what a batch leaves behind.
use mathlib.Core.Option
use mathlib.Core.Option.{some-injective}
use monadguard.Base.{
  ℕ, suc, ◌≡◌, ◌≤◌, ap, Bool, Bool-cases, inl, inr, Option, none, some, List, [], ◌∷◌, map, Text,
  arith, length, leb, if◌then◌else◌,
}
use monadguard.Store.{Db, ScanRow, AnchorState, Signature, with_state, with_anchor, get_scan}
use monadguard.Store.Keys.{HasUniqueHashes}
use monadguard.Worker.{
  AnchorFields, ScanInput, Mined, Chain, Config, Worker, Drained, skipped, anchored,
  waiting_for_signatures, thrown, after_send, send_batch, inputs_of, drain_rows, drain_with,
  drain_once, batch_rows, drain_one_by_one, recovered, after_failure, after_tick, tick, state_of,
  next_backoff,
}
use monadguard.Worker.Outcomes.{IsSettled, drain_once-settled, isolate_with-settled}
use monadguard.Worker.Updates.{
  listed, get_scan-set_states, get_scan-mark_all, set_states-HasUniqueHashes,
  mark_all-HasUniqueHashes,
}

-- What a batch leaves of a row that was in it.
abbrev pub settle : Option Mined → ScanRow → ScanRow
settle none row = with_state AnchorState.failed row
settle (some m) row =
    with_anchor (some m.hash) (some m.block)
      (if m.success then AnchorState.confirmed else AnchorState.failed) row

module _ (digest : AnchorFields → Text) (sign : Text → Text → Signature) where
  after_send-HasUniqueHashes :
      (cfg : Config) (w : Worker) (hs : List Text) (n : ℕ) (res : Option Mined)
      → HasUniqueHashes w.db.scans
      → HasUniqueHashes (after_send digest sign cfg w hs n res).0.db.scans
  unfolding after_send
  after_send-HasUniqueHashes cfg w hs n none u =
      set_states-HasUniqueHashes hs _ _ (set_states-HasUniqueHashes hs _ w.db u)
  after_send-HasUniqueHashes cfg w hs n (some res) u =
      mark_all-HasUniqueHashes hs _ _ _ _ (set_states-HasUniqueHashes hs _ w.db u)

  send_batch-HasUniqueHashes :
      (cfg : Config) (chain : Chain) (w : Worker) (n : ℕ) (inputs : List ScanInput)
      → HasUniqueHashes w.db.scans
      → HasUniqueHashes (send_batch digest sign cfg chain w n inputs).0.db.scans
  unfolding send_batch
  send_batch-HasUniqueHashes cfg chain w n [] u = u
  send_batch-HasUniqueHashes cfg chain w n (i ∷ is) u =
      after_send-HasUniqueHashes cfg w (map (λ (x : ScanInput). x.receipt_hash) (i ∷ is))
        (length (i ∷ is)) (chain.anchor_batch (i ∷ is)) u

  drain_rows-HasUniqueHashes :
      (cfg : Config) (chain : Chain) (w : Worker) (a : Text) (rows : List ScanRow)
      → HasUniqueHashes w.db.scans
      → HasUniqueHashes (drain_rows digest sign cfg chain w a rows).0.db.scans
  unfolding drain_rows
  drain_rows-HasUniqueHashes cfg chain w a [] u = u
  drain_rows-HasUniqueHashes cfg chain w a (r ∷ rs) u =
      send_batch-HasUniqueHashes cfg chain w (length (r ∷ rs))
        (inputs_of digest sign cfg.key a (r ∷ rs)) u

  drain_with-HasUniqueHashes :
      (cfg : Config) (chain : Chain) (w : Worker) (o : Option Text)
      → HasUniqueHashes w.db.scans
      → HasUniqueHashes (drain_with digest sign cfg chain w o).0.db.scans
  unfolding drain_with
  drain_with-HasUniqueHashes cfg chain w none u = u
  drain_with-HasUniqueHashes cfg chain w (some a) u =
      drain_rows-HasUniqueHashes cfg chain w a (batch_rows cfg w.db) u

  drain_once-HasUniqueHashes :
      (cfg : Config) (chain : Chain) (w : Worker)
      → HasUniqueHashes w.db.scans
      → HasUniqueHashes (drain_once digest sign cfg chain w).0.db.scans
  unfolding drain_once
  drain_once-HasUniqueHashes cfg chain w u = elim (Bool-cases chain.has_registry) [
    | inr e ↦ simp e u
    | inl e ↦ simp e (drain_with-HasUniqueHashes cfg chain w chain.wallet u)
  ]

  recovered-db : (o : Option Db) (w : Worker) → recovered digest sign o ≡ some w → o ≡ some w.db
  unfolding recovered
  recovered-db none w h = absurd (cc)
  recovered-db (some db) w h = ground arith

  after_failure-settled :
      (cfg : Config) (chain : Chain) (w after : Worker) (k : Text) (row : ScanRow)
      → HasUniqueHashes w.db.scans
      → IsSettled digest sign w.db k row
      → after_failure digest sign cfg chain w ≡ some after
      → get_scan after.db k ≡ some row
  unfolding after_failure drain_one_by_one
  after_failure-settled cfg chain w after k row u s h =
      elim (Bool-cases (leb cfg.poison_after (suc w.consecutive_failures))) [
        | inl e ↦
            isolate_with-settled digest sign cfg chain w.db after.db chain.wallet k row u s
              (recovered-db _ after (rw (e, after_failure) at h))
        | inr e ↦
            let same : record w { consecutive_failures = suc w.consecutive_failures } ≡ after =
              some-injective _ _ (rw (e, after_failure) at h) in
            rw (← ap (λ (v : Worker). v.db) same) s.found
      ]

  after_tick-settled :
      (cfg : Config) (chain : Chain) (w after : Worker) (d : Drained) (k : Text) (row : ScanRow)
      → HasUniqueHashes w.db.scans
      → IsSettled digest sign w.db k row
      → after_tick digest sign cfg chain (w, d) ≡ some after
      → get_scan after.db k ≡ some row
  unfolding after_tick
  after_tick-settled cfg chain w after thrown k row u s h =
      after_failure-settled cfg chain w after k row u s h
  after_tick-settled cfg chain w after skipped k row u s h =
      rw (← ap (λ (v : Worker). v.db) (some-injective _ _ h)) s.found
  after_tick-settled cfg chain w after (anchored n) k row u s h =
      rw (← ap (λ (v : Worker). v.db) (some-injective _ _ h)) s.found
  after_tick-settled cfg chain w after (waiting_for_signatures n) k row u s h =
      rw (← ap (λ (v : Worker). v.db) (some-injective _ _ h)) s.found

  -- Where no two rows share a receipt hash, a tick that ends leaves a row that does not wait (sent,
  -- confirmed, set aside or unanchored) exactly as it was, also in the fallback.
  pub tick-settled :
      (cfg : Config) (chain : Chain) (w after : Worker) (k : Text) (row : ScanRow)
      → HasUniqueHashes w.db.scans
      → IsSettled digest sign w.db k row
      → tick digest sign cfg chain w ≡ some after
      → get_scan after.db k ≡ some row
  unfolding tick
  tick-settled cfg chain w after k row u s h =
      let pass : Worker × Drained = drain_once digest sign cfg chain w in
      after_tick-settled cfg chain pass.0 after pass.1 k row
        (drain_once-HasUniqueHashes cfg chain w u)
        (record {
          found = drain_once-settled digest sign cfg chain w k row u s;
          settled = s.settled;
        })
        h

  -- After a batch, a row whose hash was in it is confirmed where the transaction succeeded, and
  -- failed where it reverted or threw, with the transaction that was mined; every other row is as
  -- it was.
  pub after_send-rows :
      (cfg : Config) (w : Worker) (hs : List Text) (n : ℕ) (res : Option Mined) (k : Text)
      → get_scan (after_send digest sign cfg w hs n res).0.db k
        ≡ (if listed k hs then Option.map (settle res) (get_scan w.db k) else get_scan w.db k)
  unfolding after_send state_of
  after_send-rows cfg w hs n none k =
      simp (get_scan-set_states) (twice (listed k hs) (get_scan w.db k))
    where
      twice :
          (b : Bool) (o : Option ScanRow)
          → (if b
              then Option.map
                  (with_state AnchorState.failed)
                  (if b then Option.map (with_state AnchorState.sent) o else o)
              else (if b then Option.map (with_state AnchorState.sent) o else o))
            ≡ (if b then Option.map (settle none) o else o)
      twice b none = ground arith
      twice b (some r) = ground arith
  after_send-rows cfg w hs n (some m) k =
      simp (get_scan-mark_all, get_scan-set_states)
        (twice (listed k hs) m.success (get_scan w.db k))
    where
      twice :
          (b c : Bool) (o : Option ScanRow)
          → (if b
              then Option.map
                  (with_anchor (some m.hash) (some m.block) (state_of c))
                  (if b then Option.map (with_state AnchorState.sent) o else o)
              else (if b then Option.map (with_state AnchorState.sent) o else o))
            ≡ (if b
                then Option.map
                    (with_anchor
                      (some m.hash)
                      (some m.block)
                      (if c then AnchorState.confirmed else AnchorState.failed))
                    o
                else o)
      twice b c none = ground arith
      twice b c (some r) = ground arith

  -- A batch keeps the backoff at its maximum at most.
  pub after_send-backoff :
      (cfg : Config) (w : Worker) (hs : List Text) (n : ℕ) (res : Option Mined)
      → w.backoff ≤ cfg.max_backoff_ms
      → (after_send digest sign cfg w hs n res).0.backoff ≤ cfg.max_backoff_ms
  unfolding after_send next_backoff
  after_send-backoff cfg w hs n none h = omega arith
  after_send-backoff cfg w hs n (some res) h = ground arith
