-- ===== src/System/Registry/Refinement.antt =====
-- The node keeps a registry that is only added to.
use mathlib.Core.Option
use mathlib.Core.Option.{some-injective}
use monadguard.Base.{
  ℕ, Bool, true, false, Bool-cases, Option, none, some, List, [], ◌∷◌, ◌++◌, Text, ◌≡◌, ◌∙◌, refl,
  sym, ap, subst, inl, inr, text_eq, text_eq_iff, to_lower, find, any, if◌then◌else◌, arith,
}
use monadguard.Store.{
  record_faucet_grant, Grant, Db, ScanRow, NewScan, get_scan, has_hash, new_row, insert_scan,
  update_scan, upsert_tool, put_external_receipt, ExternalReceipt, with_state, with_signature,
  with_anchor, set_state, queue_scan, mark_anchored,
}
use monadguard.Store.Keys.{
  KeepsHash, get_scan-update_scan, HasUniqueHashes, update_scan-HasUniqueHashes,
  insert_scan-HasUniqueHashes,
}
use monadguard.Worker.{Worker, tick}
use monadguard.System.{
  Writes, nothing, upserts, inserts, sets, queues, marks, publishes, grants, Writes-trans,
}
use monadguard.System.Handlers.{
  post_anchor-Writes, post_queue-Writes, post_scan-Writes, post_receipt-Writes, post_faucet-Writes,
}
use monadguard.System.Ticks.{tick-Writes, AreWrites}
use monadguard.System.Registry
use monadguard.System.Registry.{
  Entry, entry_of, View, view, Logged, rests, adds, Step, Run, start, then_step,
}

-- A change of a row that leaves its entry alone.
abbrev KeepsEntry : (ScanRow → ScanRow) → Type 0
KeepsEntry f = (row : ScanRow) → entry_of (f row) ≡ entry_of row

map_entry :
    (f : ScanRow → ScanRow)
    → KeepsEntry f
    → (o : Option ScanRow) → Option.map entry_of (Option.map f o) ≡ Option.map entry_of o
map_entry f keeps none = refl
map_entry f keeps (some row) = ap some (keeps row)

view-update_scan :
    (h : Text) (f : ScanRow → ScanRow) (db : Db)
    → KeepsHash f
    → KeepsEntry f
    → (k : Text) → view (update_scan h f db) k ≡ view db k
unfolding view
view-update_scan h f db keeps same k = elim (Bool-cases (text_eq h k)) [
  | inl e ↦ rw (get_scan-update_scan db h k f keeps, e) (map_entry f same (get_scan db k))
  | inr e ↦ rw (get_scan-update_scan db h k f keeps, e) refl
]

scans-put : (x : ExternalReceipt) (db : Db) → (put_external_receipt x db).scans ≡ db.scans
unfolding put_external_receipt
scans-put x db =
    elim (Bool-cases
      (any (λ (y : ExternalReceipt). text_eq y.receipt_hash x.receipt_hash) db.receipts)) [
        | inl k ↦ rw k refl
        | inr k ↦ rw k refl
      ]

get_scan-put :
    (x : ExternalReceipt) (db : Db) (h : Text)
    → get_scan (put_external_receipt x db) h ≡ get_scan db h
unfolding get_scan
get_scan-put x db h = ap (find (has_hash h)) (scans-put x db)

grant_scans :
    (address ip tx : Text) (now : ℕ) (d e : Db)
    → record_faucet_grant address ip tx now d ≡ some e
    → e.scans ≡ d.scans
unfolding record_faucet_grant
grant_scans address ip tx now d e h =
    elim (Bool-cases (any (λ (g : Grant). text_eq g.address (to_lower address)) d.grants)) [
      | inl b ↦ absurd (cc (rw b at h))
      | inr b ↦ ap (λ (x : Db). x.scans) (sym (some-injective _ _ (rw b at h)))
    ]

find-append_row :
    (k : Text) (rows : List ScanRow) (row : ScanRow)
    → any (has_hash row.receipt_hash) rows ≡ false
    → find (has_hash k) (rows ++ row ∷ [])
      ≡ (if text_eq row.receipt_hash k then some row else find (has_hash k) rows)
unfolding find any has_hash
find-append_row k [] row new = refl
find-append_row k (r ∷ rows) row new = ground (
  arith,
  find-append_row k rows row,
  text_eq_iff row.receipt_hash k,
  text_eq_iff r.receipt_hash k,
  text_eq_iff r.receipt_hash row.receipt_hash,
)

find_of_new :
    (h : Text) (rows : List ScanRow) → any (has_hash h) rows ≡ false → find (has_hash h) rows ≡ none
unfolding find any
find_of_new h [] new = refl
find_of_new h (r ∷ rows) new = ground (arith, find_of_new h rows)

map_if :
    (b : Bool) (row : ScanRow) (o : Option ScanRow)
    → Option.map entry_of (if b then some row else o)
      ≡ (if b then some (entry_of row) else Option.map entry_of o)
map_if true row o = refl
map_if false row o = refl

insert_scan-Logged :
    (s : NewScan) (f : View) (db : Db) → Logged f (view db) → Logged f (view (insert_scan s db))
unfolding view insert_scan get_scan
insert_scan-Logged s f db l = elim (Bool-cases (any (has_hash s.receipt_hash) db.scans)) [
  | inl e ↦ rw e l
  | inr e ↦ rw e (
      adds s.receipt_hash (entry_of (new_row db.next_id s)) l
        (ap (Option.map entry_of) (find_of_new s.receipt_hash db.scans e))
        (λ h.
          ap (Option.map entry_of) (find-append_row h db.scans (new_row db.next_id s) e)
          ∙ map_if (text_eq s.receipt_hash h) (new_row db.next_id s) (find (has_hash h) db.scans)))
]

Logged-same : {f g v : View} → Logged f g → ((h : Text) → v h ≡ g h) → Logged f v
Logged-same (rests e) same = rests (λ h. same h ∙ e h)
Logged-same (adds k e l n eq) same = adds k e l n (λ h. same h ∙ eq h)

Writes-Logged : {a b : Db} → Writes a b → Logged (view a) (view b)
unfolding set_state queue_scan mark_anchored view get_scan upsert_tool
Writes-Logged nothing = rests (λ h. refl)
Writes-Logged (upserts t w) = Logged-same (Writes-Logged w) (λ h. refl)
Writes-Logged (inserts s {d} w) = insert_scan-Logged s _ d (Writes-Logged w)
Writes-Logged (sets h state {d} w) =
    Logged-same (Writes-Logged w)
      (view-update_scan h (with_state state) d (λ row. refl) (λ row. refl))
Writes-Logged (queues h sig {d} w) =
    Logged-same (Writes-Logged w)
      (view-update_scan h (with_signature sig) d (λ row. refl) (λ row. refl))
Writes-Logged (marks h tx block state {d} w) =
    Logged-same (Writes-Logged w)
      (view-update_scan h (with_anchor tx block state) d (λ row. refl) (λ row. refl))
Writes-Logged (publishes x {d} w) =
    Logged-same (Writes-Logged w) (λ h. ap (Option.map entry_of) (get_scan-put x d h))
Writes-Logged (grants address ip tx now {d} {e} w eq) = Logged-same (Writes-Logged w) (λ h.
    ap (λ rows. Option.map entry_of (find (has_hash h) rows))
      (grant_scans address ip tx now d e eq))

Writes-HasUniqueHashes : {a b : Db} → Writes a b → HasUniqueHashes a.scans → HasUniqueHashes b.scans
unfolding set_state queue_scan mark_anchored upsert_tool
Writes-HasUniqueHashes nothing u = u
Writes-HasUniqueHashes (upserts t w) u = Writes-HasUniqueHashes w u
Writes-HasUniqueHashes (inserts s {d} w) u =
    insert_scan-HasUniqueHashes s d (Writes-HasUniqueHashes w u)
Writes-HasUniqueHashes (sets h state {d} w) u =
    update_scan-HasUniqueHashes h (with_state state) d (λ row. refl) (Writes-HasUniqueHashes w u)
Writes-HasUniqueHashes (queues h sig {d} w) u =
    update_scan-HasUniqueHashes h (with_signature sig) d (λ row. refl) (Writes-HasUniqueHashes w u)
Writes-HasUniqueHashes (marks h tx block state {d} w) u =
    update_scan-HasUniqueHashes h (with_anchor tx block state) d (λ row. refl)
      (Writes-HasUniqueHashes w u)
Writes-HasUniqueHashes (publishes x {d} w) u =
    subst HasUniqueHashes (sym (scans-put x d)) (Writes-HasUniqueHashes w u)
Writes-HasUniqueHashes (grants address ip tx now {d} {e} w eq) u =
    subst HasUniqueHashes (sym (grant_scans address ip tx now d e eq)) (Writes-HasUniqueHashes w u)

tick_next-Writes :
    (db : Db) (o : Option Worker) (next : Worker)
    → o ≡ some next
    → AreWrites db o
    → Writes db next.db
tick_next-Writes db none next e w = absurd (cc)
tick_next-Writes db (some v) next e w = subst (λ n. Writes db n.db) (some-injective _ _ e) w

Step-Writes : {a b : Db} → Step a b → Writes a b
Step-Writes (Registry.scans ext node chain db body now_ms) =
    post_scan-Writes ext node chain db body now_ms
Step-Writes (Registry.anchors digest sign node chain db q) =
    post_anchor-Writes digest sign node chain db q
Step-Writes (Registry.queues db h sig) = post_queue-Writes db h sig
Step-Writes (Registry.publishes ext db body now) = post_receipt-Writes ext db body now
Step-Writes (Registry.faucets cfg viem before db address ip now then_now) =
    post_faucet-Writes cfg viem before db address ip now then_now
Step-Writes (Registry.ticks digest sign cfg chain w next e) =
    tick_next-Writes w.db (tick digest sign cfg chain w) next e
      (tick-Writes digest sign cfg chain w)

Run-Writes : {a b : Db} → Run a b → Writes a b
Run-Writes start = nothing
Run-Writes (then_step r s) = Writes-trans (Run-Writes r) (Step-Writes s)

-- A run of the node, in which POST /scan, POST /anchor, POST /anchor/queue, POST /receipt, POST
-- /faucet and ticks of the worker follow each other in any order, from a store in which no two rows
-- share a receipt hash, is a run of the registry that rests or adds an entry under a hash that has
-- none: what is said of a tool under a hash (its tool, content, verdict, score, findings, receipt,
-- time and chain) never changes and is never removed; and the receipt hashes stay unique.
pub Run-Logged :
    (a b : Db)
    → Run a b
    → HasUniqueHashes a.scans
    → Logged (view a) (view b) × HasUniqueHashes b.scans
Run-Logged a b r u = (Writes-Logged (Run-Writes r), Writes-HasUniqueHashes (Run-Writes r) u)

-- An entry stays.
Logged-keeps : {f g : View} → Logged f g → (h : Text) (e : Entry) → f h ≡ some e → g h ≡ some e
Logged-keeps (rests eq) h e there = eq h ∙ there
Logged-keeps (adds k x l new eq) h e there =
    let before = Logged-keeps l h e there in
    elim (Bool-cases (text_eq k h)) [
      | inl c ↦ absurd (cc (new, before, (text_eq_iff k h).0 c))
      | inr c ↦ eq h ∙ rw c before
    ]

pub Run-keeps :
    (a b : Db) → Run a b → (h : Text) (e : Entry) → view a h ≡ some e → view b h ≡ some e
Run-keeps a b r = Logged-keeps (Writes-Logged (Run-Writes r))
