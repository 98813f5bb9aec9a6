-- ===== src/Operator/Survey.antt =====
-- scripts/survey.mjs: the rows of a report, and what of them is anchored.
use monadguard.Base.{
  ℕ, ◌+◌, ◌==◌, ltb, Bool, true, false, not, ◌&&◌, ◌||◌, Option, none, some, List, [], ◌∷◌, ◌++◌,
  map, Text, lit, text_eq, keep, find, length, sort_by, take, if◌then◌else◌,
}
use monadguard.Receipt.{clean, warn, flagged}
use monadguard.Scanner.Finding.{Finding}
use monadguard.Scanner.Result.{ScanResult}
use monadguard.Scanner.Mcp.Texts.{Manifest, Tool}
use monadguard.Identity.{tool_id, content_hash}
use monadguard.Operator.{
  survey_verdict, Latest, Scanned, Anchored, Health, has, same_content, preflight, agrees,
  is_anchored,
}

-- A captured file: its manifest, and the JSON text of it.
pub record Entry : Type 0 where
  pub name : Text
  pub origin : Option Text
  pub downloads : Option ℕ
  pub manifest : Manifest
  pub json : Text

pub record Row : Type 0 where
  pub pkg : Text
  pub downloads : Option ℕ
  pub tools : ℕ
  pub verdict : ℕ
  pub score : ℕ
  pub findings : List Finding
  pub tool_id : Text
  pub content_hash : Text

-- `entry.origin && !entry.origin.startsWith('npm:')`
unfoldable pub is_foreign : Option Text → Bool
is_foreign none = false
is_foreign (some []) = false
is_foreign (some (c ∷ t)) = not (text_eq (take 4 (c ∷ t)) (lit "npm:"))

or_zero : Option ℕ → ℕ
or_zero none = 0
or_zero (some n) = n

tool_count : Option (List Tool) → ℕ
tool_count none = 0
tool_count (some tools) = length tools

-- `b.score - a.score || (b.downloads ?? 0) - (a.downloads ?? 0)`
unfoldable pub row_before : Row → Row → Bool
unfolding or_zero
row_before a b =
    ltb b.score a.score
    || (a.score == b.score && not (ltb (or_zero a.downloads) (or_zero b.downloads)))

module _ (keccak : Text → Text) (scan : Entry → ScanResult) where
  unfoldable pub named_row : Entry → (name : Text) → Row
  unfolding survey_verdict tool_count
  named_row e name =
      let result = scan e in
      record {
        pkg = e.name;
        downloads = e.downloads;
        tools = tool_count e.manifest.tools;
        verdict = survey_verdict result.level;
        score = result.score;
        findings = result.findings;
        tool_id = tool_id keccak (lit "mcp") name (lit "npm:" ++ e.name);
        content_hash = content_hash keccak e.json;
      }

  -- A manifest without a name has no id: an exception, which ends the program.
  unfoldable pub row_of : Entry → Option Row
  unfolding named_row
  row_of e = elim e.manifest.name [ none ↦ none | some name ↦ some (named_row e name) ]

  unfoldable pub cons_row : Option Row → Option (List Row) → Option (List Row)
  cons_row none rows = none
  cons_row (some r) none = none
  cons_row (some r) (some rows) = some (r ∷ rows)

  unfoldable pub rows_loop : List Entry → Option (List Row)
  unfolding row_of is_foreign cons_row
  rows_loop [] = some []
  rows_loop (e ∷ es) =
      let rest = rows_loop es in if is_foreign e.origin then rest else cons_row (row_of e) rest

  -- The rows of the report, the worst first.
  unfoldable pub rows_of : List Entry → Option (List Row)
  unfolding rows_loop sort_by row_before
  rows_of entries = elim (rows_loop entries) [
    | none ↦ none
    | some rows ↦ some (sort_by row_before rows)
  ]

pub record Totals : Type 0 where
  pub scanned : ℕ
  pub tools : ℕ
  pub clean : ℕ
  pub warn : ℕ
  pub critical : ℕ
  pub reach : ℕ

unfoldable pub sum : (Row → ℕ) → List Row → ℕ
sum f [] = 0
sum f (r ∷ rs) = f r + sum f rs

unfoldable pub count_verdict : ℕ → List Row → ℕ
count_verdict v rows = length (keep (λ (r : Row). r.verdict == v) rows)

unfoldable pub totals : List Row → Totals
unfolding sum count_verdict or_zero
totals rows = record {
  scanned = length rows;
  tools = sum (λ (r : Row). r.tools) rows;
  clean = count_verdict clean rows;
  warn = count_verdict warn rows;
  critical = count_verdict flagged rows;
  reach = sum (λ (r : Row). or_zero r.downloads) rows;
}

-- The API while the survey runs. `none` is an exception of the fetch or of the parser.
pub record Api : Type 0 where
  pub latest : Text → Option Latest
  pub scan : (name : Option Text) (pkg : Text) → Option Scanned
  pub anchor : (hash : Text) → Option Anchored

-- `r.pkg.replace(/[@/]/g, '_')`
unfoldable pub file_prefix : Text → Text
file_prefix pkg = map (λ c. if c == b'@' then b'_' else if c == b'/' then b'_' else c) pkg

-- A file of the capture.
pub record Captured : Type 0 where
  pub file : Text
  pub entry : Entry

-- `files.find((f) => f.startsWith(…))`: the first file whose name begins alike.
unfoldable pub entry_of : List Captured → Row → Option Captured
unfolding file_prefix
entry_of files r =
    find (λ (c : Captured). text_eq (take (length (file_prefix r.pkg)) c.file) (file_prefix r.pkg))
      files

-- What is done for a row. A post of a hash to the anchor is kept with the row.
pub data Done : Type 0 where
  skipped already failed : Done
  posted : Scanned → (ok : Bool) → Done

module _ (api : Api) (rules : Text) where
  unfoldable pub anchor_done : Scanned → Option Anchored → Done
  unfolding is_anchored
  anchor_done s none = posted s false
  anchor_done s (some a) = posted s (is_anchored a)

  unfoldable pub after_scan : Row → Option Scanned → Done
  unfolding agrees anchor_done
  after_scan r none = failed
  after_scan r (some s) =
      if agrees s rules r.verdict r.score then anchor_done s (api.anchor s.hash) else failed

  unfoldable pub same_verdict : Option Latest → Row → Bool
  same_verdict none r = false
  same_verdict (some l) r = l.verdict == r.verdict && l.score == r.score

  -- A capture that is not found is an exception outside of any try, which ends the program.
  unfoldable pub anchor_row : List Text → List Captured → Row → Option Done
  unfolding has entry_of after_scan same_content same_verdict
  anchor_row reviewed files r =
      if r.verdict == flagged && not (has reviewed r.pkg)
      then some skipped
      else elim (entry_of files r) [
        | none ↦ none
        | some c ↦
            if same_content (api.latest r.tool_id) r.content_hash
              && same_verdict (api.latest r.tool_id) r
            then some already
            else some (after_scan r (api.scan c.entry.manifest.name r.pkg))
      ]

  -- What was done for each row, and whether the program went on to its end.
  unfoldable pub cons_done : Row → Option Done → List (Row × Done) × Bool → List (Row × Done) × Bool
  cons_done r none rest = ([], false)
  cons_done r (some d) (done, ended) = ((r, d) ∷ done, ended)

  unfoldable pub anchor_rows : List Text → List Captured → List Row → List (Row × Done) × Bool
  unfolding anchor_row cons_done
  anchor_rows reviewed files [] = ([], true)
  anchor_rows reviewed files (r ∷ rs) =
      cons_done r (anchor_row reviewed files r) (anchor_rows reviewed files rs)

  has_failed : Done → Bool
  has_failed failed = true
  has_failed (posted s ok) = not ok
  has_failed skipped = false
  has_failed already = false

  failures : List (Row × Done) → ℕ
  unfolding has_failed
  failures [] = 0
  failures ((r, d) ∷ rest) = (if has_failed d then 1 else 0) + failures rest

  -- The posts and the exit code of the program.
  unfoldable pub survey :
      (anchor : Bool) → Health → List Text → List Captured → List Row → List (Row × Done) × ℕ
  unfolding anchor_rows preflight failures
  survey anchor health reviewed files rows =
      let (done, ended) = anchor_rows reviewed files rows in
      if not anchor
      then ([], 0)
      else if preflight health rules
      then (done, if ended && failures done == 0 then 0 else 1)
      else ([], 1)
