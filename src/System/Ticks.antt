-- ===== src/System/Ticks.antt =====
-- The statements of a tick of the worker (server/worker.js:65-149).
use monadguard.Base.{
  ℕ, suc, Bool-cases, Option, none, some, List, [], ◌∷◌, Text, inl, inr, map, length, leb,
}
use monadguard.Store.{Db, ScanRow, AnchorState, Signature}
use monadguard.Store.Queries.{queued_scans}
use monadguard.Worker.{
  AnchorFields, ScanInput, Mined, Chain, Config, Worker, Drained, thrown, skipped, anchored,
  waiting_for_signatures, set_states, mark_all, state_of, inputs_of, after_send, send_batch,
  drain_rows, drain_with, drain_once, batch_rows, isolate_result, isolate_row, isolate_rows,
  isolate_with, drain_one_by_one, recovered, after_failure, after_tick, tick,
}
use monadguard.System.{Writes, nothing, sets, marks, Writes-trans}

set_states-Writes :
    (hs : List Text) (state : AnchorState) (db : Db) → Writes db (set_states hs state db)
unfolding set_states
set_states-Writes [] state db = nothing
set_states-Writes (h ∷ hs) state db =
    Writes-trans (sets h state nothing) (set_states-Writes hs state _)

mark_all-Writes :
    (hs : List Text) (tx : Text) (block : ℕ) (state : AnchorState) (db : Db)
    → Writes db (mark_all hs tx block state db)
unfolding mark_all
mark_all-Writes [] tx block state db = nothing
mark_all-Writes (h ∷ hs) tx block state db =
    Writes-trans (marks h (some tx) (some block) state nothing)
      (mark_all-Writes hs tx block state _)

-- Where a step may throw, what it leaves is a sequence of statements if it does not.
abbrev pub AreWrites : Db → Option Worker → Type 0
AreWrites db none = Unit
AreWrites db (some w) = Writes db w.db

AreWrites-after :
    {db : Db} (d : Db) → Writes db d → (o : Option Worker) → AreWrites d o → AreWrites db o
AreWrites-after d w none v = tt
AreWrites-after d w (some next) v = Writes-trans w v

module _ (digest : AnchorFields → Text) (sign : Text → Text → Signature) (cfg : Config)
    (chain : Chain) where
  after_send-Writes :
      (w : Worker) (hs : List Text) (n : ℕ) (o : Option Mined)
      → Writes w.db (after_send digest sign cfg w hs n o).0.db
  unfolding after_send
  after_send-Writes w hs n none =
      Writes-trans (set_states-Writes hs AnchorState.sent w.db)
        (set_states-Writes hs AnchorState.failed _)
  after_send-Writes w hs n (some res) =
      Writes-trans (set_states-Writes hs AnchorState.sent w.db)
        (mark_all-Writes hs res.hash res.block (state_of res.success) _)

  send_batch-Writes :
      (w : Worker) (n : ℕ) (inputs : List ScanInput)
      → Writes w.db (send_batch digest sign cfg chain w n inputs).0.db
  unfolding send_batch
  send_batch-Writes w n [] = nothing
  send_batch-Writes w n (i ∷ is) =
      after_send-Writes w (map (λ (x : ScanInput). x.receipt_hash) (i ∷ is)) (length (i ∷ is))
        (chain.anchor_batch (i ∷ is))

  drain_rows-Writes :
      (w : Worker) (attestor : Text) (rows : List ScanRow)
      → Writes w.db (drain_rows digest sign cfg chain w attestor rows).0.db
  unfolding drain_rows
  drain_rows-Writes w attestor [] = nothing
  drain_rows-Writes w attestor (row ∷ rows) =
      send_batch-Writes w (length (row ∷ rows))
        (inputs_of digest sign cfg.key attestor (row ∷ rows))

  drain_with-Writes :
      (w : Worker) (o : Option Text) → Writes w.db (drain_with digest sign cfg chain w o).0.db
  unfolding drain_with
  drain_with-Writes w none = nothing
  drain_with-Writes w (some attestor) = drain_rows-Writes w attestor (batch_rows cfg w.db)

  drain_once-Writes : (w : Worker) → Writes w.db (drain_once digest sign cfg chain w).0.db
  unfolding drain_once
  drain_once-Writes w = elim (Bool-cases chain.has_registry) [
    | inl e ↦ rw e (drain_with-Writes w chain.wallet)
    | inr e ↦ rw e nothing
  ]

  isolate_result-Writes :
      (h : Text) (o : Option Mined) (db : Db) → Writes db (isolate_result digest sign h o db)
  unfolding isolate_result
  isolate_result-Writes h none db = marks h none none AnchorState.poison nothing
  isolate_result-Writes h (some res) db =
      marks h (some res.hash) (some res.block) (state_of res.success) nothing

  isolate_rows-Writes :
      (inputs : List ScanInput) (db : Db) → Writes db (isolate_rows digest sign chain inputs db)
  unfolding isolate_rows isolate_row
  isolate_rows-Writes [] db = nothing
  isolate_rows-Writes (i ∷ is) db =
      Writes-trans (isolate_result-Writes i.receipt_hash (chain.anchor_one i) db)
        (isolate_rows-Writes is _)

  recovered-Writes :
      (db : Db) (o : Option Text)
      → AreWrites db (recovered digest sign (isolate_with digest sign cfg chain db o))
  unfolding recovered isolate_with
  recovered-Writes db none = tt
  recovered-Writes db (some attestor) =
      isolate_rows-Writes (inputs_of digest sign cfg.key attestor (queued_scans db cfg.batch_max))
        db

  after_failure-Writes : (w : Worker) → AreWrites w.db (after_failure digest sign cfg chain w)
  unfolding after_failure drain_one_by_one
  after_failure-Writes w = elim (Bool-cases (leb cfg.poison_after (suc w.consecutive_failures))) [
    | inl e ↦ rw e (recovered-Writes w.db chain.wallet)
    | inr e ↦ rw e nothing
  ]

  after_tick-Writes :
      (db : Db) (r : Worker × Drained)
      → Writes db r.0.db
      → AreWrites db (after_tick digest sign cfg chain r)
  unfolding after_tick
  after_tick-Writes db (w, thrown) h = AreWrites-after w.db h _ (after_failure-Writes w)
  after_tick-Writes db (w, skipped) h = h
  after_tick-Writes db (w, anchored n) h = h
  after_tick-Writes db (w, waiting_for_signatures n) h = h

  pub tick-Writes : (w : Worker) → AreWrites w.db (tick digest sign cfg chain w)
  unfolding tick
  tick-Writes w = after_tick-Writes w.db (drain_once digest sign cfg chain w) (drain_once-Writes w)
