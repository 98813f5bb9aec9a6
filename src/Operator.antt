-- ===== src/Operator.antt =====
-- scripts/survey.mjs and scripts/anchor-capture.mjs: which verdicts an operator anchors. The files
-- that were captured, the replies of the API and the hash of the ruleset are inputs; what is printed
-- is left out.
pub mod Survey
pub mod Capture
pub mod Guard
use monadguard.Base.{
  ℕ, ◌==◌, Bool, true, false, not, ◌&&◌, ◌||◌, Option, none, some, List, Text, lit, text_eq,
  to_lower, any, if◌then◌else◌, ◌++◌, truthy, strip_slashes,
}
use monadguard.Receipt.{unknown, clean, warn, flagged}
use monadguard.Scanner.Finding.{Level, safe, medium, high, critical, unscanned, other}

-- `VERDICT[LEVEL[result.level] ?? 'UNKNOWN']`
unfoldable pub survey_verdict : Level → ℕ
survey_verdict safe = clean
survey_verdict medium = warn
survey_verdict high = warn
survey_verdict critical = flagged
survey_verdict unscanned = unknown
survey_verdict (other name) = unknown

-- What the registry says of the latest scan of a tool.
pub record Latest : Type 0 where
  pub content_hash : Option Text
  pub verdict : ℕ
  pub score : ℕ

-- The reply to POST /scan, and to POST /anchor.
pub record Scanned : Type 0 where
  pub error : Option Text
  pub rules : Option Text
  pub verdict : ℕ
  pub score : ℕ
  pub hash : Text

pub record Anchored : Type 0 where
  pub ok : Bool
  pub already : Bool

-- The reply to GET /health: an error of the fetch, or the ruleset of the API.
pub record Health : Type 0 where
  pub error : Option Text
  pub rules : Option Text

-- `reviewed.has(name)`
unfoldable pub has : List Text → Text → Bool
has set name = any (λ t. text_eq t name) set

-- `a === b`, where the left one may be undefined.
unfoldable pub is_text : Option Text → Text → Bool
is_text none t = false
is_text (some s) t = text_eq s t

unfoldable pub same_content : Option Latest → Text → Bool
same_content none content_hash = false
same_content (some l) content_hash = elim l.content_hash [
  | none ↦ false
  | some h ↦ text_eq (to_lower h) (to_lower content_hash)
]

-- An error that is not empty.
unfoldable pub is_error : Option Text → Bool
is_error none = false
is_error (some e) = truthy e

-- The preflight: the API is there, and signs with the rules of this checkout.
unfoldable pub preflight : Health → (rules : Text) → Bool
unfolding is_text is_error
preflight h rules = not (is_error h.error) && is_text h.rules rules

-- The reply to the scan agrees with what was found here.
unfoldable pub agrees : Scanned → (rules : Text) (verdict score : ℕ) → Bool
unfolding is_text is_error
agrees s rules verdict score =
    not (is_error s.error) && (is_text s.rules rules && (s.verdict == verdict && s.score == score))

unfoldable pub is_anchored : Anchored → Bool
is_anchored a = a.ok || a.already
