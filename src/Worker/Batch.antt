-- ===== src/Worker/Batch.antt =====
-- server/worker.js:69-71: which rows the worker picks.
use monadguard.Base.{
  ◌∈◌, All-of_mem, mem_of_keep, ℕ, ◌≤◌, ◌≡◌, ◌⊎◌, inl, inr, Bool, true, false, Bool-cases, List, [],
  ◌∷◌, ◌++◌, All, All-append, All-take, keep, sort_by, sort_by-All, Text, text_eq, any, arith,
  length, length-take, take, if◌then◌else◌,
}
use monadguard.Store.{Db, ScanRow, AnchorState}
use monadguard.Store.Queries.{as_old, is_pending, is_queued, pending_scans, queued_scans}
use monadguard.Worker.{Config, distinct_rows, batch_rows, has_key}

-- The row waits: it is neither sent, nor confirmed, nor set aside.
abbrev pub Waits : ScanRow → Type 0
Waits row =
    (row.anchor_state ≡ AnchorState.pending)
    ⊎ ((row.anchor_state ≡ AnchorState.queued) ⊎ (row.anchor_state ≡ AnchorState.failed))

is_pending-Waits : (row : ScanRow) → is_pending row ≡ true → Waits row
unfolding is_pending
is_pending-Waits row h = ground arith

is_queued-Waits : (row : ScanRow) → is_queued row ≡ true → Waits row
unfolding is_queued
is_queued-Waits row h = ground arith

-- The row is in the table, and waits.
abbrev pub IsPicked : Db → ScanRow → Type 0
IsPicked db row = (row ∈ db.scans) × Waits row

selected-IsPicked :
    (db : Db) (test : ScanRow → Bool) (limit : ℕ)
    → ((row : ScanRow) → test row ≡ true → Waits row)
    → All (IsPicked db) (take limit (sort_by as_old (keep test db.scans)))
selected-IsPicked db test limit waits = All-take (IsPicked db) limit _ (
    sort_by-All as_old (IsPicked db) (keep test db.scans) (
      All-of_mem (IsPicked db) (keep test db.scans)
        (λ row m. let (i, t) = mem_of_keep test db.scans row m in (i, waits row t))))

pub queued_scans-IsPicked : (db : Db) (limit : ℕ) → All (IsPicked db) (queued_scans db limit)
unfolding queued_scans
queued_scans-IsPicked db limit = selected-IsPicked db is_queued limit is_queued-Waits

pending_scans-IsPicked : (db : Db) (limit : ℕ) → All (IsPicked db) (pending_scans db limit)
unfolding pending_scans
pending_scans-IsPicked db limit = selected-IsPicked db is_pending limit is_pending-Waits

distinct_rows-All :
    (P : ScanRow → Type 0) (seen : List Text) (rows : List ScanRow)
    → All P rows
    → All P (distinct_rows seen rows)
unfolding distinct_rows
distinct_rows-All P seen [] h = tt
distinct_rows-All P seen (row ∷ rows) h = elim (Bool-cases (any (text_eq row.receipt_hash) seen)) [
  | inl e ↦ rw e (distinct_rows-All P seen rows h.1)
  | inr e ↦ rw e (h.0, distinct_rows-All P (row.receipt_hash ∷ seen) rows h.1)
]

-- The rows of a batch are rows of the table that wait, and they are no more than BATCH_MAX.
pub batch_rows-IsPicked :
    (cfg : Config) (db : Db)
    → All (IsPicked db) (batch_rows cfg db) × (length (batch_rows cfg db) ≤ cfg.batch_max)
unfolding batch_rows
batch_rows-IsPicked cfg db = (
  All-take (IsPicked db) cfg.batch_max _ (
      distinct_rows-All (IsPicked db) [] _ (
        All-append (IsPicked db) (queued_scans db cfg.batch_max) _
          (queued_scans-IsPicked db cfg.batch_max) (rest (has_key cfg.key)))),
  omega (
    arith,
    length-take cfg.batch_max (
        distinct_rows [] (
          queued_scans db cfg.batch_max
          ++ (if has_key cfg.key then pending_scans db cfg.batch_max else []))),
  ),
)
  where
    rest : (b : Bool) → All (IsPicked db) (if b then pending_scans db cfg.batch_max else [])
    rest true = pending_scans-IsPicked db cfg.batch_max
    rest false = tt
