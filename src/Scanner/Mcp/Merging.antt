-- ===== src/Scanner/Mcp/Merging.antt =====
-- server/scanner/mcp.js:202-240: what a full scan makes of the findings of its parts.
use monadguard.Base.{
  String, ◌<◌, ◌≡◌, refl, inl, inr, true, false, Bool-cases, not, ◌&&◌, any, any-mem, some, List,
  [], ◌∷◌, ◌++◌, ◌∈◌, All, drop, mem-append_left, mem-append_right, map, join, lit, Text, str_eq,
  str_eq_iff, take, length, arith,
}
use monadguard.Scanner.Regex.{Exec, MatchIndices}
use monadguard.Scanner.Finding.{Finding}
use monadguard.Scanner.Finding.Sorting.{mem-sort_by_sev}
use monadguard.Scanner.Engine.{scan}
use monadguard.Scanner.Mcp.{merge, skips, chunk_finding, found_in, examine}
use monadguard.Scanner.Mcp.Rules.{McpRule, Check, mcp_rules, passes}
use monadguard.Scanner.Mcp.Texts.{Manifest, Chunk, extract_text}

merge-mem_left : (found fs : List Finding) (g : Finding) → g ∈ found → g ∈ merge found fs
unfolding merge
merge-mem_left found [] g m = m
merge-mem_left found (f ∷ fs) g m = elim (Bool-cases (any (λ x. str_eq x.id f.id) found)) [
  | inl e ↦ rw e (merge-mem_left found fs g m)
  | inr e ↦ rw e (merge-mem_left _ fs g (mem-append_left found _ g m))
]

-- Every rule of the second list is represented in the merge.
pub merge_complete :
    (found fs : List Finding) (f : Finding)
    → f ∈ fs
    → (g : Finding) × (g ∈ merge found fs) × (g.id ≡ f.id)
unfolding merge
merge_complete found [] f m = absurd m
merge_complete found (h ∷ fs) f (inl p) = elim (Bool-cases (any (λ x. str_eq x.id h.id) found)) [
  | inl e ↦
      let (g, i, q) = any-mem (λ (x : Finding). str_eq x.id h.id) found e in
      (g, rw e (merge-mem_left found fs g i), cc ((str_eq_iff g.id h.id).0 q, p))
  | inr e ↦
      let g : Finding = record h { field = some (lit "content") } in
      (g, rw e (merge-mem_left _ fs g (mem-append_right found (g ∷ []) g (inl refl))), cc p)
]
merge_complete found (h ∷ fs) f (inr r) = elim (Bool-cases (any (λ x. str_eq x.id h.id) found)) [
  | inl e ↦ rw e (merge_complete found fs f r)
  | inr e ↦ rw e (merge_complete _ fs f r)
]

module _ (exec : Exec) (match_indices : MatchIndices) where
  -- The text that the engine's rules read: all texts of the manifest, a line each.
  abbrev pub all_text : Manifest → Text
  all_text m = join (lit "\n") (map (λ (c : Chunk). c.text) (extract_text m))

  -- A full scan of a manifest reports every rule that the engine reports on the joined texts of the
  -- manifest.
  pub examine-engine :
      (m : Manifest) (f : Finding)
      → f ∈ (scan exec (all_text m)).findings
      → (g : Finding) × (g ∈ (examine exec match_indices m true).findings) × (g.id ≡ f.id)
  unfolding examine found_in
  examine-engine m f i =
      let (g, j, q) = merge_complete _ (scan exec (all_text m)).findings f i in
      (g, mem-sort_by_sev g _ j, q)

  -- A rule that passes hides the rules behind it: only it and those before it are reported.
  chunk_finding-masks :
      (id : String) (before behind : List McpRule) (r : McpRule) (c : Chunk)
      → All (λ s. str_eq s.id id ≡ false) before
      → str_eq r.id id ≡ false
      → skips r c ≡ false
      → passes exec match_indices r.check c.text ≡ true
      → All
          (λ f. str_eq f.id id ≡ false)
          (chunk_finding exec match_indices (before ++ r ∷ behind) c)
  unfolding chunk_finding
  chunk_finding-masks id [] behind r c h e s p = rw (s, p) (e, tt)
  chunk_finding-masks id (b ∷ bs) behind r c h e s p =
      elim (Bool-cases (not (skips b c) && passes exec match_indices b.check c.text)) [
        | inl y ↦ rw y (h.0, tt)
        | inr n ↦ rw n (chunk_finding-masks id bs behind r c h.1 e s p)
      ]

  -- The rule M008 of the table.
  abbrev long_prose : McpRule
  long_prose = record {
    id = "M008";
    sev = 20;
    cat = "suspicious";
    desc = "Very long tool description (>3000 chars) — more room to hide instructions; read it";
    check = Check.longer_than 3000;
  }

  -- The rules report nothing of M009, the raw credential fields, for a chunk outside a schema with
  -- more than 3000 units: M008 stands before it in the table and a chunk has one finding only.
  pub long_text_masks :
      (c : Chunk)
      → c.is_schema ≡ false
      → 3000 < length c.text
      → All (λ f. str_eq f.id "M009" ≡ false) (chunk_finding exec match_indices mcp_rules c)
  unfolding mcp_rules skips passes
  long_text_masks c prose long =
      chunk_finding-masks "M009" (take 7 mcp_rules) (drop 8 mcp_rules) long_prose c
        (refl, (refl, (refl, (refl, (refl, (refl, (refl, tt))))))) refl (ground arith)
        (ground arith)
