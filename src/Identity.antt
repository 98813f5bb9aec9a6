-- ===== src/Identity.antt =====
-- The identity of a tool and of its content (scripts/toolid.mjs, client/index.js:30-38). The hash
-- keccak256 of the UTF-8 bytes of a text is a parameter.
use monadguard.Base.{
  ◌==◌, ◌&&◌, [], ◌∷◌, ◌++◌, Text, lit, trim, to_lower, strip_slashes, if◌then◌else◌,
}

-- `${kind}:${origin}#${name}`, with the origin and the name trimmed and in lower case.
unfoldable pub canonical_tool : (kind name origin : Text) → Text
canonical_tool kind name origin =
    kind
    ++ (lit ":" ++ (strip_slashes (to_lower (trim origin)) ++ (lit "#" ++ to_lower (trim name))))

-- `replace(/\r\n/g, '\n')`
unfoldable pub unix_lines : Text → Text
unix_lines [] = []
unix_lines (c ∷ []) = c ∷ []
unix_lines (c ∷ d ∷ s) =
    let kept = c ∷ unix_lines (d ∷ s) in
    let joined = d ∷ unix_lines s in if c == 13 && d == 10 then joined else kept

module _ (keccak : Text → Text) where
  unfoldable pub tool_id : (kind name origin : Text) → Text
  tool_id kind name origin = keccak (canonical_tool kind name origin)

  unfoldable pub content_hash : Text → Text
  content_hash manifest_text = keccak (unix_lines manifest_text)
