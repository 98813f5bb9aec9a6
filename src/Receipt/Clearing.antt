-- ===== src/Receipt/Clearing.antt =====
-- server/receipt.js: what a receipt says of the scan behind it.
use monadguard.Base.{
  ℕ, ◌+◌, ◌*◌, ◌<◌, ◌≤◌, ◌≡◌, ◌↔◌, refl, ap, sym, ◌∙◌, Option, none, some, true, Text, arith, All,
  inl, inr, length,
}
use monadguard.Scanner.Regex.{Exec, MatchIndices}
use monadguard.Scanner.Finding.{Level, safe}
use monadguard.Scanner.Result.{ScanResult, IsDeclined}
use monadguard.Scanner.Mcp.{scan_mcp, examine, max_manifest_bytes}
use monadguard.Scanner.Mcp.Texts.{Manifest, declared}
use monadguard.Scanner.Mcp.Refusals.{scan_mcp-cases}
use monadguard.Scanner.Mcp.Levels.{examine-safe}
use monadguard.Receipt.{
  Receipt, ReceiptRequest, act, to_gate, to_verdict, clean, build_receipt, payload_of,
}

-- The gate opens, and the verdict is CLEAN, at the level SAFE and at no other.
pub to_gate-to_verdict :
    (l : Level) (score : ℕ)
    → (((to_gate l score).0 ≡ act) ↔ (to_verdict l ≡ clean)) × ((to_verdict l ≡ clean) ↔ (l ≡ safe))
unfolding to_gate to_verdict
to_gate-to_verdict Level.safe score = ground arith
to_gate-to_verdict Level.medium score = ground arith
to_gate-to_verdict _ score = ground arith

-- A receipt is built for every result but a declined one, and only the refused are declined.
pub build_receipt-none_iff :
    (now_ms : ℕ) (q : ReceiptRequest) → (build_receipt now_ms q ≡ none) ↔ IsDeclined q.result
unfolding build_receipt
build_receipt-none_iff now_ms q = (λ h. ground arith, λ h. rw h)

pub build_receipt-payload :
    (now_ms : ℕ) (q : ReceiptRequest) (r : Receipt)
    → build_receipt now_ms q ≡ some r
    → r ≡ payload_of now_ms q
unfolding build_receipt
build_receipt-payload now_ms q r h = ground arith

to_verdict-le : (l : Level) → to_verdict l ≤ 3
unfolding to_verdict
to_verdict-le Level.safe = omega arith
to_verdict-le _ = omega arith

-- In every receipt the gate is open exactly when the verdict is CLEAN, the verdict is one of the
-- four of the contract and that of the level of the scan, and the receipt expires ttlDays days
-- after its issue.
pub build_receipt-IsConsistent :
    (now_ms : ℕ) (q : ReceiptRequest) (r : Receipt)
    → build_receipt now_ms q ≡ some r
    → ((r.gate ≡ act) ↔ (r.verdict ≡ clean))
      × (r.verdict ≤ 3)
      × (r.expires_at ≡ r.issued_at + q.ttl_days * 86400)
      × (r.verdict ≡ to_verdict q.result.level)
unfolding payload_of
build_receipt-IsConsistent now_ms q r h =
    rw (build_receipt-payload now_ms q r h) (
      (to_gate-to_verdict q.result.level q.result.score).0,
      to_verdict-le q.result.level,
      refl,
      refl,
    )

module _ (exec : Exec) (match_indices : MatchIndices) where
  -- A receipt for a full scan of a manifest with the verdict CLEAN means that the manifest was
  -- there, within the size cap, declared something, and was examined: all findings are below
  -- severity 60 and the score of the receipt is that of the examination.
  pub clean_receipt :
      (now_ms : ℕ) (q : ReceiptRequest) (r : Receipt) (json : Text) (m : Option Manifest)
      → q.result ≡ scan_mcp exec match_indices json m true
      → build_receipt now_ms q ≡ some r
      → r.verdict ≡ clean
      → (k : Manifest) × (m ≡ some k)
        × (length json ≤ max_manifest_bytes)
        × (0 < declared k)
        × All (λ f. f.sev < 60) (examine exec match_indices k true).findings
        × (r.score ≡ (examine exec match_indices k true).score)
  unfolding payload_of
  clean_receipt now_ms q r json m scanned built cleared =
      elim (scan_mcp-cases exec match_indices json m true) [
        | inl (refused, d) ↦
            absurd (cc ((build_receipt-none_iff now_ms q).1 (rw scanned refused.0), built))
        | inr (x, small) ↦
            let result : q.result ≡ examine exec match_indices x.manifest true =
              scanned ∙ x.result in
            let payload : r ≡ payload_of now_ms q = build_receipt-payload now_ms q r built in
            let is_safe : q.result.level ≡ safe =
              (to_gate-to_verdict q.result.level q.result.score).1.0
                (sym (ap (λ (p : Receipt). p.verdict) payload) ∙ cleared) in
            (
              x.manifest,
              x.is_given,
              small,
              x.declares,
              (examine-safe exec match_indices x.manifest
                  (ap (λ (p : ScanResult). p.level) (sym result) ∙ is_safe)).0,
              ap (λ (p : Receipt). p.score) payload ∙ ap (λ (p : ScanResult). p.score) result,
            )
      ]
