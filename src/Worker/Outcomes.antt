-- ===== src/Worker/Outcomes.antt =====
-- What a pass of the worker does to the rows of the store.

use mathlib.Core.Option.{some-injective}
use monadguard.Base.{
  ℕ, ◌≡◌, refl, sym, ◌∙◌, true, false, Bool-cases, inl, inr, Option, none, some, Option-cases, List,
  [], ◌∷◌, All, map, Text, text_eq, text_eq_iff, any, arith, length,
}
use monadguard.Store.{Db, ScanRow, Signature, get_scan}
use monadguard.Store.Queries.{queued_scans}
use monadguard.Store.Keys.{HasUniqueHashes, get_scan_of_mem, get_scan-mark_anchored}
use monadguard.Worker.{
  AnchorFields, ScanInput, Mined, Chain, Config, Worker, scan_input, to_scan_input, cons_input,
  inputs_of, after_send, send_batch, drain_rows, drain_once, batch_rows, isolate_result,
  isolate_row, isolate_rows, isolate_with, drain_with,
}
use monadguard.Worker.Batch.{Waits, IsPicked, batch_rows-IsPicked, queued_scans-IsPicked}
use monadguard.Worker.Updates.{listed, get_scan-set_states, get_scan-mark_all}

module _ (digest : AnchorFields → Text) (sign : Text → Text → Signature) where
  -- The hash is that of a row of the table that waits.
  abbrev pub IsWaiting : Db → Text → Type 0
  IsWaiting db k = (row : ScanRow) × (get_scan db k ≡ some row) × Waits row

  input-hash :
      (key : Option Text) (attestor : Text) (row : ScanRow) (x : ScanInput)
      → to_scan_input digest sign key attestor row ≡ some x
      → x.receipt_hash ≡ row.receipt_hash
  unfolding to_scan_input scan_input
  input-hash key attestor row x h = ground arith

  inputs_of-IsWaiting :
      (key : Option Text) (attestor : Text) (db : Db) (rows : List ScanRow)
      → HasUniqueHashes db.scans
      → All (IsPicked db) rows
      → All (λ x. IsWaiting db x.receipt_hash) (inputs_of digest sign key attestor rows)
  unfolding inputs_of cons_input
  inputs_of-IsWaiting key attestor db [] u h = tt
  inputs_of-IsWaiting key attestor db (row ∷ rows) u h =
      elim (Option-cases (to_scan_input digest sign key attestor row)) [
        | inl e ↦ rw e (inputs_of-IsWaiting key attestor db rows u h.1)
        | inr (x, e) ↦ rw e (
          (row, rw (input-hash key attestor row x e) (get_scan_of_mem db row u h.0.0), h.0.1),
          inputs_of-IsWaiting key attestor db rows u h.1,
        )
      ]

  -- A hash among the inputs is that of a waiting row.
  listed-IsWaiting :
      (db : Db) (inputs : List ScanInput) (k : Text)
      → All (λ x. IsWaiting db x.receipt_hash) inputs
      → listed k (map (λ (x : ScanInput). x.receipt_hash) inputs) ≡ true
      → IsWaiting db k
  unfolding any
  listed-IsWaiting db [] k h l = absurd (cc)
  listed-IsWaiting db (x ∷ xs) k h l = elim (Bool-cases (text_eq x.receipt_hash k)) [
    | inl e ↦ rw (← (text_eq_iff x.receipt_hash k).0 e) h.0
    | inr e ↦ listed-IsWaiting db xs k h.1 (rw e at l)
  ]

  -- A row that does not wait.
  pub record IsSettled (db : Db) (k : Text) (row : ScanRow) : Type 0 where
    pub found : get_scan db k ≡ some row
    pub settled : ¬ Waits row

  settled-unlisted :
      (db : Db) (inputs : List ScanInput) (k : Text) (row : ScanRow)
      → All (λ x. IsWaiting db x.receipt_hash) inputs
      → IsSettled db k row
      → listed k (map (λ (x : ScanInput). x.receipt_hash) inputs) ≡ false
  settled-unlisted db inputs k row h s =
      elim (Bool-cases (listed k (map (λ (x : ScanInput). x.receipt_hash) inputs))) [
        | inr e ↦ e
        | inl e ↦
            let (other, f, w) = listed-IsWaiting db inputs k h e in
            let same : other ≡ row = some-injective other row (sym f ∙ s.found) in
            absurd (s.settled (rw same at w))
      ]

  after_send-unlisted :
      (cfg : Config) (w : Worker) (hs : List Text) (n : ℕ) (res : Option Mined) (k : Text)
      → listed k hs ≡ false
      → get_scan (after_send digest sign cfg w hs n res).0.db k ≡ get_scan w.db k
  unfolding after_send
  after_send-unlisted cfg w hs n none k l = simp (get_scan-set_states, l)
  after_send-unlisted cfg w hs n (some res) k l = simp (get_scan-mark_all, get_scan-set_states, l)

  drain_rows-settled :
      (cfg : Config) (chain : Chain) (w : Worker) (attestor : Text) (rows : List ScanRow) (k : Text)
      (row : ScanRow)
      → HasUniqueHashes w.db.scans
      → All (IsPicked w.db) rows
      → IsSettled w.db k row
      → get_scan (drain_rows digest sign cfg chain w attestor rows).0.db k ≡ some row
  unfolding drain_rows
  drain_rows-settled cfg chain w attestor [] k row u h s = s.found
  drain_rows-settled cfg chain w attestor (r ∷ rs) k row u h s =
      sent_inputs (inputs_of digest sign cfg.key attestor (r ∷ rs))
        (inputs_of-IsWaiting cfg.key attestor w.db (r ∷ rs) u h)
    where
      sent_inputs :
          (inputs : List ScanInput)
          → All (λ x. IsWaiting w.db x.receipt_hash) inputs
          → get_scan (send_batch digest sign cfg chain w (length (r ∷ rs)) inputs).0.db k ≡ some row
      sent_inputs [] p = unfold send_batch in s.found
      sent_inputs (i ∷ is) p =
          unfold send_batch in
          (after_send-unlisted cfg w _ _ (chain.anchor_batch (i ∷ is)) k
              (settled-unlisted w.db (i ∷ is) k row p s)
            ∙ s.found)

  drain_with-settled :
      (cfg : Config) (chain : Chain) (w : Worker) (o : Option Text) (k : Text) (row : ScanRow)
      → HasUniqueHashes w.db.scans
      → IsSettled w.db k row
      → get_scan (drain_with digest sign cfg chain w o).0.db k ≡ some row
  unfolding drain_with
  drain_with-settled cfg chain w none k row u s = s.found
  drain_with-settled cfg chain w (some a) k row u s =
      drain_rows-settled cfg chain w a (batch_rows cfg w.db) k row u
        (batch_rows-IsPicked cfg w.db).0 s

  -- A row that does not wait is left as it is by a pass, whatever becomes of the batch.
  pub drain_once-settled :
      (cfg : Config) (chain : Chain) (w : Worker) (k : Text) (row : ScanRow)
      → HasUniqueHashes w.db.scans
      → IsSettled w.db k row
      → get_scan (drain_once digest sign cfg chain w).0.db k ≡ some row
  unfolding drain_once
  drain_once-settled cfg chain w k row u s = elim (Bool-cases chain.has_registry) [
    | inr e ↦ rw e s.found
    | inl e ↦ rw e (drain_with-settled cfg chain w chain.wallet k row u s)
  ]

  isolate_result-unlisted :
      (h : Text) (res : Option Mined) (db : Db) (k : Text)
      → text_eq h k ≡ false
      → get_scan (isolate_result digest sign h res db) k ≡ get_scan db k
  unfolding isolate_result
  isolate_result-unlisted h none db k e = simp (get_scan-mark_anchored, e)
  isolate_result-unlisted h (some res) db k e = simp (get_scan-mark_anchored, e)

  isolate_rows-unlisted :
      (chain : Chain) (inputs : List ScanInput) (db : Db) (k : Text)
      → listed k (map (λ (x : ScanInput). x.receipt_hash) inputs) ≡ false
      → get_scan (isolate_rows digest sign chain inputs db) k ≡ get_scan db k
  unfolding isolate_rows isolate_row any
  isolate_rows-unlisted chain [] db k l = refl
  isolate_rows-unlisted chain (i ∷ is) db k l =
      isolate_rows-unlisted chain is _ k (ground arith)
      ∙ isolate_result-unlisted i.receipt_hash (chain.anchor_one i) db k (ground arith)

  pub isolate_with-settled :
      (cfg : Config) (chain : Chain) (db after : Db) (o : Option Text) (k : Text) (row : ScanRow)
      → HasUniqueHashes db.scans
      → IsSettled db k row
      → isolate_with digest sign cfg chain db o ≡ some after
      → get_scan after k ≡ some row
  unfolding isolate_with
  isolate_with-settled cfg chain db after none k row u s e = absurd (cc)
  isolate_with-settled cfg chain db after (some a) k row u s e =
      let inputs : List ScanInput =
        inputs_of digest sign cfg.key a (queued_scans db cfg.batch_max) in
      let waiting : All (λ x. IsWaiting db x.receipt_hash) inputs =
        inputs_of-IsWaiting cfg.key a db _ u (queued_scans-IsPicked db cfg.batch_max) in
      let same : isolate_rows digest sign chain inputs db ≡ after = some-injective _ _ e in
      rw (← same) (
        isolate_rows-unlisted chain inputs db k (settled-unlisted db inputs k row waiting s)
        ∙ s.found)
