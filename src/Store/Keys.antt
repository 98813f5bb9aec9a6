-- ===== src/Store/Keys.antt =====
-- The scans are keyed by their receipt hash: what the statements do to the row at a key.
use mathlib.Core.Option
use monadguard.Base.{
  ℕ, ◌≡◌, inl, inr, refl, Bool, true, false, Bool-cases, Option, some, List, [], ◌∷◌, ◌++◌, ◌∈◌,
  All, All-append, All-mem, Text, text_eq, text_eq_iff, text_eq_refl, find, any, arith,
  if◌then◌else◌,
}
use monadguard.Store.{
  Db, ScanRow, NewScan, AnchorState, Signature, get_scan, has_hash, update_rows, update_scan,
  with_state, with_signature, with_anchor, set_state, queue_scan, mark_anchored, insert_scan,
  new_row,
}

-- `f` leaves the key of a row alone.
abbrev pub KeepsHash : (ScanRow → ScanRow) → Type 0
KeepsHash f = (row : ScanRow) → (f row).receipt_hash ≡ row.receipt_hash

find-update_rows :
    (h k : Text) (f : ScanRow → ScanRow) (rows : List ScanRow)
    → KeepsHash f
    → find (has_hash k) (update_rows h f rows)
      ≡ (if text_eq h k then Option.map f (find (has_hash k) rows) else find (has_hash k) rows)
unfolding find update_rows has_hash
find-update_rows h k f [] keeps = ground arith
find-update_rows h k f (row ∷ rows) keeps = ground (
  arith,
  keeps row,
  text_eq_iff row.receipt_hash h,
  text_eq_iff row.receipt_hash k,
  text_eq_iff h k,
  text_eq_refl k,
  find-update_rows h k f rows keeps,
)

-- An update at one key changes that row and no other.
pub get_scan-update_scan :
    (db : Db) (h k : Text) (f : ScanRow → ScanRow)
    → KeepsHash f
    → get_scan (update_scan h f db) k
      ≡ (if text_eq h k then Option.map f (get_scan db k) else get_scan db k)
unfolding get_scan update_scan
get_scan-update_scan db h k f keeps = find-update_rows h k f db.scans keeps

pub get_scan-set_state :
    (db : Db) (h k : Text) (state : AnchorState)
    → get_scan (set_state h state db) k
      ≡ (if text_eq h k then Option.map (with_state state) (get_scan db k) else get_scan db k)
unfolding set_state
get_scan-set_state db h k state = get_scan-update_scan db h k (with_state state) (λ row. refl)

pub get_scan-queue_scan :
    (db : Db) (h k : Text) (sig : Signature)
    → get_scan (queue_scan h sig db) k
      ≡ (if text_eq h k then Option.map (with_signature sig) (get_scan db k) else get_scan db k)
unfolding queue_scan
get_scan-queue_scan db h k sig = get_scan-update_scan db h k (with_signature sig) (λ row. refl)

pub get_scan-mark_anchored :
    (db : Db) (h k : Text) (tx : Option Text) (block : Option ℕ) (state : AnchorState)
    → get_scan (mark_anchored h tx block state db) k ≡ (
        if text_eq h k
        then Option.map (with_anchor tx block state) (get_scan db k)
        else get_scan db k)
unfolding mark_anchored
get_scan-mark_anchored db h k tx block state =
    get_scan-update_scan db h k (with_anchor tx block state) (λ row. refl)

-- The index `idx_scans_receipt`: no two rows share a receipt hash.
abbrev pub HasUniqueHashes : List ScanRow → Type 0
HasUniqueHashes [] = Unit {0}
HasUniqueHashes (row ∷ rows) =
    All (λ other. text_eq other.receipt_hash row.receipt_hash ≡ false) rows × HasUniqueHashes rows

update_rows-All :
    (h x : Text) (f : ScanRow → ScanRow) (rows : List ScanRow)
    → KeepsHash f
    → All (λ other. text_eq other.receipt_hash x ≡ false) rows
    → All (λ other. text_eq other.receipt_hash x ≡ false) (update_rows h f rows)
unfolding update_rows
update_rows-All h x f [] keeps u = tt
update_rows-All h x f (row ∷ rows) keeps u =
    (ground (arith, keeps row), update_rows-All h x f rows keeps u.1)

same_hash :
    (f : ScanRow → ScanRow)
    → KeepsHash f
    → (row : ScanRow) (b : Bool) → (if b then f row else row).receipt_hash ≡ row.receipt_hash
same_hash f keeps row true = keeps row
same_hash f keeps row false = refl

update_rows-HasUniqueHashes :
    (h : Text) (f : ScanRow → ScanRow) (rows : List ScanRow)
    → KeepsHash f
    → HasUniqueHashes rows
    → HasUniqueHashes (update_rows h f rows)
unfolding update_rows
update_rows-HasUniqueHashes h f [] keeps u = tt
update_rows-HasUniqueHashes h f (row ∷ rows) keeps u = (
  rw (same_hash f keeps row (has_hash h row)) (update_rows-All h row.receipt_hash f rows keeps u.0),
  update_rows-HasUniqueHashes h f rows keeps u.1,
)

-- An update keeps the receipt hashes unique.
pub update_scan-HasUniqueHashes :
    (h : Text) (f : ScanRow → ScanRow) (db : Db)
    → KeepsHash f
    → HasUniqueHashes db.scans
    → HasUniqueHashes (update_scan h f db).scans
unfolding update_scan
update_scan-HasUniqueHashes h f db keeps u = update_rows-HasUniqueHashes h f db.scans keeps u

append-HasUniqueHashes :
    (rows : List ScanRow) (row : ScanRow)
    → any (has_hash row.receipt_hash) rows ≡ false
    → HasUniqueHashes rows
    → HasUniqueHashes (rows ++ row ∷ [])
unfolding any has_hash
append-HasUniqueHashes [] row new u = (tt, tt)
append-HasUniqueHashes (r ∷ rs) row new u = (
  All-append (λ other. text_eq other.receipt_hash r.receipt_hash ≡ false) rs (row ∷ []) u.0
      (
        ground (
          arith,
          text_eq_iff r.receipt_hash row.receipt_hash,
          text_eq_iff row.receipt_hash r.receipt_hash,
        ),
        tt,
      ),
  append-HasUniqueHashes rs row (ground arith) u.1,
)

-- Inserting a scan keeps the receipt hashes unique.
pub insert_scan-HasUniqueHashes :
    (s : NewScan) (db : Db) → HasUniqueHashes db.scans → HasUniqueHashes (insert_scan s db).scans
unfolding insert_scan new_row
insert_scan-HasUniqueHashes s db u = elim (Bool-cases (any (has_hash s.receipt_hash) db.scans)) [
  | inl e ↦ rw e u
  | inr e ↦ rw e (append-HasUniqueHashes db.scans (new_row db.next_id s) e u)
]

find_of_mem :
    (rows : List ScanRow) (row : ScanRow)
    → HasUniqueHashes rows
    → row ∈ rows
    → find (has_hash row.receipt_hash) rows ≡ some row
unfolding find has_hash
find_of_mem [] row u m = absurd m
find_of_mem (r ∷ rs) row u (inl e) = ground (arith, text_eq_refl row.receipt_hash)
find_of_mem (r ∷ rs) row u (inr m) = ground (
  arith,
  find_of_mem rs row u.1 m,
  All-mem (λ other. text_eq other.receipt_hash r.receipt_hash ≡ false) rs row u.0 m,
  text_eq_iff r.receipt_hash row.receipt_hash,
  text_eq_iff row.receipt_hash r.receipt_hash,
)

-- A row of the table is the one that is found under its hash.
pub get_scan_of_mem :
    (db : Db) (row : ScanRow)
    → HasUniqueHashes db.scans
    → row ∈ db.scans
    → get_scan db row.receipt_hash ≡ some row
unfolding get_scan
get_scan_of_mem db row u m = find_of_mem db.scans row u m
