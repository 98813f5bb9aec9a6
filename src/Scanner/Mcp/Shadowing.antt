-- ===== src/Scanner/Mcp/Shadowing.antt =====
-- server/scanner/mcp.js:121-143: tools whose names imitate one another.
use monadguard.Base.{
  ℕ, ◌==◌, Bool, false, not, ◌&&◌, Option, none, some, List, [], ◌∷◌, ◌++◌, reverse, Text, lit,
  text_eq, to_lower, truthy, any, leb, if◌then◌else◌,
}
use monadguard.Scanner.Finding.{Finding}
use monadguard.Scanner.Mcp.Texts.{Tool}
use monadguard.Scanner.Mcp.Levenshtein.{levenshtein}

is_digit : ℕ → Bool
is_digit c = leb b'0' c && leb c b'9'

-- On the reversed name: behind one digit or more, a `v`.
drop_digits : Text → Option Text
drop_digits [] = none
drop_digits (c ∷ s) = if is_digit c then drop_digits s else if c == b'v' then some s else none

-- `n.replace(/v\d+$/, '')`, on the reversed name.
drop_version : Text → Text
drop_version [] = []
drop_version (c ∷ s) =
    if is_digit c then elim (drop_digits s) [ none ↦ c ∷ s | some t ↦ t ] else c ∷ s

-- `n.replace(/e?s$/, '')`, on the reversed name.
drop_plural : Text → Text
drop_plural [] = []
drop_plural (c ∷ []) = if c == b's' then [] else c ∷ []
drop_plural (c ∷ d ∷ s) = if c == b's' then (if d == b'e' then s else d ∷ s) else c ∷ d ∷ s

unfoldable pub stem : Text → Text
unfolding drop_plural drop_version drop_digits is_digit
stem n = reverse (drop_plural (drop_version (reverse n)))

-- The names differ by one edit, and not by a version number or a plural.
unfoldable pub near_duplicate : Text → Text → Bool
near_duplicate name other =
    if text_eq (stem name) (stem other)
    then false
    else not (text_eq name other) && leb (levenshtein name other) 1

abbrev shadow : Text → Text → Finding
shadow name other = record {
  id = "M010";
  sev = 65;
  cat = "mcp_shadowing";
  desc =
      lit "Near-duplicate tool names detected: \""
      ++ (name ++ (lit "\" vs \"" ++ (other ++ lit "\"")));
  line = none;
  field = some (lit "tools");
  matched = name ++ (lit " / " ++ other);
}

unfoldable pub against : Text → List Text → List Finding
against name [] = []
against name (other ∷ seen) =
    if near_duplicate name other then shadow name other ∷ against name seen else against name seen

-- `seen.add(name)`: a set keeps the order of insertion.
unfoldable pub add_seen : Text → List Text → List Text
add_seen name seen = if any (text_eq name) seen then seen else seen ++ name ∷ []

unfoldable pub shadowing_loop : List Text → List Text → List Finding
unfolding against add_seen
shadowing_loop seen [] = []
shadowing_loop seen (name ∷ names) = against name seen ++ shadowing_loop (add_seen name seen) names

-- `tools.map(t => t.name?.toLowerCase()).filter(Boolean)`
unfoldable pub lower_names : List Tool → List Text
lower_names [] = []
lower_names (t ∷ ts) = elim t.name [
  | none ↦ lower_names ts
  | some n ↦ if truthy n then to_lower n ∷ lower_names ts else lower_names ts
]

unfoldable pub check_tool_shadowing : List Tool → List Finding
unfolding shadowing_loop lower_names
check_tool_shadowing tools = shadowing_loop [] (lower_names tools)
