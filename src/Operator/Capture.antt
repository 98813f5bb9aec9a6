-- ===== src/Operator/Capture.antt =====
-- scripts/anchor-capture.mjs: one captured manifest.
use monadguard.Base.{
  ℕ, ◌==◌, Bool, false, not, ◌&&◌, Option, none, some, List, Text, lit, ◌++◌, truthy, strip_slashes,
  if◌then◌else◌,
}
use monadguard.Receipt.{flagged}
use monadguard.Scanner.Result.{ScanResult}
use monadguard.Identity.{tool_id, content_hash}
use monadguard.Operator.{
  survey_verdict, Latest, Scanned, Anchored, Health, has, same_content, preflight, agrees,
  is_anchored,
}

-- A file of one capture; `declared` and `json` are of its manifest, which was there.
pub record Capture : Type 0 where
  pub declared : Option Text
  pub name : Option Text
  pub origin : Option Text
  pub url : Option Text
  pub json : Text
  pub result : ScanResult

pub record CaptureApi : Type 0 where
  pub health : Health
  pub latest : Text → Option Latest
  pub scan : (name origin : Text) → Option Scanned
  pub anchor : (hash : Text) → Option Anchored

-- The exit code, and the scan whose hash was posted to the anchor.
pub record Exit : Type 0 where
  pub code : ℕ
  pub posted : Option Scanned

abbrev exit : ℕ → Exit
exit code = record { code = code; posted = none }

-- `manifest.name ?? cap.name`
unfoldable pub name_of : Capture → Option Text
name_of c = elim c.declared [ none ↦ c.name | some n ↦ some n ]

url_origin : Option Text → Option Text
url_origin none = none
url_origin (some url) = if truthy url then some (lit "mcp:" ++ strip_slashes url) else none

-- `cap.origin ?? (cap.url ? … : null)`
unfoldable pub origin_of : Capture → Option Text
unfolding url_origin
origin_of c = elim c.origin [ none ↦ url_origin c.url | some o ↦ some o ]

module _ (keccak : Text → Text) (rules : Text) (api : CaptureApi) where
  unfoldable pub after_anchor : Scanned → Option Anchored → Exit
  unfolding is_anchored
  after_anchor s none = record { code = 1; posted = some s }
  after_anchor s (some a) = record { code = if is_anchored a then 0 else 1; posted = some s }

  unfoldable pub after_scan : (verdict score : ℕ) → Option Scanned → Exit
  unfolding agrees after_anchor
  after_scan verdict score none = exit 1
  after_scan verdict score (some s) =
      if agrees s rules verdict score then after_anchor s (api.anchor s.hash) else exit 1

  unfoldable pub same_verdict : Option Latest → ℕ → Bool
  same_verdict none verdict = false
  same_verdict (some l) verdict = l.verdict == verdict

  unfoldable pub anchor_named : List Text → Capture → (name origin : Text) → (verdict : ℕ) → Exit
  unfolding has preflight same_content same_verdict after_scan
  anchor_named reviewed c name origin verdict =
      let latest = api.latest (tool_id keccak (lit "mcp") name origin) in
      if verdict == flagged && (not (has reviewed origin) && not (has reviewed name))
      then exit 1
      else if not (preflight api.health rules)
      then exit 1
      else if same_content latest (content_hash keccak c.json) && same_verdict latest verdict
      then exit 0
      else after_scan verdict c.result.score (api.scan name origin)

  -- A capture without a name or an origin has no id.
  unfoldable pub anchor_from :
      (anchor : Bool) → List Text → Capture → (name origin : Option Text) → Exit
  unfolding anchor_named survey_verdict
  anchor_from anchor reviewed c name none = exit 1
  anchor_from anchor reviewed c none (some origin) = exit 1
  anchor_from anchor reviewed c (some name) (some origin) =
      if not (truthy origin)
      then exit 1
      else if anchor
      then anchor_named reviewed c name origin (survey_verdict c.result.level)
      else exit 0

  -- `none` is a file without a manifest.
  unfoldable pub anchor_capture : (anchor : Bool) → List Text → Option Capture → Exit
  unfolding origin_of name_of anchor_from
  anchor_capture anchor reviewed none = exit 1
  anchor_capture anchor reviewed (some c) = anchor_from anchor reviewed c (name_of c) (origin_of c)
