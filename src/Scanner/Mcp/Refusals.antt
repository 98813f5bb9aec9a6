-- ===== src/Scanner/Mcp/Refusals.antt =====
-- Which manifests `scanMCP` declines to examine.
use monadguard.Base.{
  ◌<◌, ◌≤◌, ◌≡◌, ◌↔◌, ◌⊎◌, inl, inr, refl, ap, ==_iff, Option, none, some, Bool, Bool-cases, ltb,
  ltb→lt, length, ◌==◌, arith, Text,
}
use monadguard.Scanner.Regex.{Exec, MatchIndices}
use monadguard.Scanner.Finding.{unscanned}
use monadguard.Scanner.Result.{ScanResult, IsDeclined}
use monadguard.Scanner.Mcp.{scan_mcp, scan_capped, max_manifest_bytes, unscanned_result, examine}
use monadguard.Scanner.Mcp.Texts.{Manifest, declared}

-- There is no manifest, or it declares no tool, resource or prompt.
abbrev pub DeclaresNothing : Option Manifest → Type 0
DeclaresNothing none = Unit {0}
DeclaresNothing (some m) = declared m ≡ 0

module _ (exec : Exec) (match_indices : MatchIndices) where
  -- `r` declines to examine, and says so in its level too.
  abbrev pub IsRefusal : ScanResult → Type 0
  IsRefusal r = IsDeclined r × (r.level ≡ unscanned)

  -- `r` comes from the examination of a manifest that declares something.
  pub record IsExamined (m : Option Manifest) (full : Bool) (r : ScanResult) : Type 0 where
    pub manifest : Manifest
    pub is_given : m ≡ some manifest
    pub declares : 0 < declared manifest
    pub result : r ≡ examine exec match_indices manifest full

  scan_capped-cases :
      (m : Option Manifest) (full : Bool)
      → (IsRefusal (scan_capped exec match_indices m full) × DeclaresNothing m)
        ⊎ IsExamined m full (scan_capped exec match_indices m full)
  unfolding scan_capped unscanned_result
  scan_capped-cases none full = inl ((refl, refl), tt)
  scan_capped-cases (some m) full = elim (Bool-cases (declared m == 0)) [
    | inl e ↦ rw e (inl ((refl, refl), (==_iff _ _).0 e))
    | inr e ↦
        rw e
          (inr (record { manifest = m; is_given = refl; declares = ground arith; result = refl }))
  ]

  -- A manifest is either declined, for its size or because it declares nothing, or examined.
  pub scan_mcp-cases :
      (json : Text) (m : Option Manifest) (full : Bool)
      → (IsRefusal (scan_mcp exec match_indices json m full)
          × ((max_manifest_bytes < length json) ⊎ DeclaresNothing m))
        ⊎ (IsExamined m full (scan_mcp exec match_indices json m full)
            × (length json ≤ max_manifest_bytes))
  unfolding scan_mcp unscanned_result
  scan_mcp-cases json m full = elim (Bool-cases (ltb max_manifest_bytes (length json))) [
    | inl big ↦ rw big (inl ((refl, refl), inl (ltb→lt _ _ big)))
    | inr small ↦ rw small (elim (scan_capped-cases m full) [
      | inl (r, d) ↦ inl (r, inr d)
      | inr x ↦ inr (x, ground arith)
    ])
  ]

  -- A scan of a manifest is declined exactly when its JSON text is over the size cap or it declares
  -- no tool, resource or prompt.
  pub scan_mcp-IsDeclined_iff :
      (json : Text) (m : Option Manifest) (full : Bool)
      → IsDeclined (scan_mcp exec match_indices json m full)
        ↔ ((max_manifest_bytes < length json) ⊎ DeclaresNothing m)
  unfolding scan_mcp scan_capped unscanned_result examine
  scan_mcp-IsDeclined_iff json m full = (forth, back m)
    where
      forth :
          IsDeclined (scan_mcp exec match_indices json m full)
          → (max_manifest_bytes < length json) ⊎ DeclaresNothing m
      forth h = elim (scan_mcp-cases json m full) [
        | inl (r, d) ↦ d
        | inr (x, s) ↦ absurd (cc (h, ap (λ (r : ScanResult). r.scanned) x.result))
      ]

      back :
          (o : Option Manifest)
          → (max_manifest_bytes < length json) ⊎ DeclaresNothing o
          → IsDeclined (scan_mcp exec match_indices json o full)
      back none d = ground arith
      back (some k) d = ground arith
