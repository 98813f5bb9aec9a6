-- ===== src/Server/Registry.antt =====
-- server/index.js:53-54 and 289-386: the routes that show the registry, with the index first and the
-- store behind it. What the index answers is an input, `none` where the query throws; JSON.parse of
-- a row's findings is a parameter.
pub mod Cached
pub mod Recs
use monadguard.Base.{
  ℕ, ◌==◌, min, Bool, true, false, Option, none, some, List, [], ◌∷◌, ◌++◌, map, String, str_eq,
  Text, lit, truthy, to_lower, trim, strip_slashes, leb, ltb, length, if◌then◌else◌,
}
use monadguard.Scanner.Finding.{Finding}
use monadguard.Server.Registry.Recs.{recommend}
use monadguard.Store.{Db, ScanRow, ToolRow, AnchorState, get_scan, get_tool, get_external_receipt}
use monadguard.Store.Queries.{
  RecentTool, OriginTool, Stats, scans_for_tool, recent_tools, tools_by_origin, stats,
}

pub record RegistryNode : Type 0 where
  pub base_url : Text
  pub chain_id : ℕ
  pub parse : Text → Option (List Finding)

pub data Severity : Type 0 where
  critical high medium low : Severity

unfoldable pub severity : ℕ → Severity
severity sev =
    if leb 90 sev
    then critical
    else (if leb 70 sev then high else (if leb 40 sev then medium else low))

pub record Fixed : Type 0 where
  pub finding : Finding
  pub severity : Severity
  pub recommendation : String

-- `map` of a function that may throw.
unfoldable pub each {ℓ κ} : {A : Type ℓ} {B : Type κ} → (A → Option B) → List A → Option (List B)
each f [] = some []
each f (a ∷ as') = elim (f a) [
  | none ↦ none
  | some b ↦ elim (each f as') [ none ↦ none | some bs ↦ some (b ∷ bs) ]
]

-- A scan of the index.
pub record HistoryScan : Type 0 where
  pub attestor_id : Text
  pub content_hash : Text
  pub verdict : ℕ
  pub score : ℕ
  pub receipt_hash : Text
  pub receipt_uri : Text
  pub timestamp : ℕ
  pub block_number : ℕ
  pub tx_hash : Text

pub record LocalScan : Type 0 where
  pub scan : HistoryScan
  pub receipt_url : Option Text
  pub findings : Option (List Fixed)

pub record Meta : Type 0 where
  pub name : Text
  pub kind : Text
  pub origin : Text

-- A scan as the store has it.
pub record CachedScan : Type 0 where
  pub row : ScanRow
  pub receipt_url : Option Text
  pub scanned_at : ℕ
  pub findings : List Fixed

unfoldable pub meta_of : ToolRow → Meta
meta_of t = record { name = t.name; kind = t.kind; origin = t.origin }

unfoldable pub tool_meta : Db → Text → Option Meta
unfolding meta_of
tool_meta db id = elim (get_tool db id) [ none ↦ none | some t ↦ some (meta_of t) ]

pub record Candidate : Type 0 where
  pub tool : ToolRow
  pub is_anchored : Bool

pub data Resolved : Type 0 where
  origin_required : Resolved
  candidates : List Candidate → Resolved

-- GET /registry/resolve
unfoldable pub get_resolve : Db → (origin kind : Option Text) → Resolved
unfolding truthy
get_resolve db none kind = origin_required
get_resolve db (some origin) kind =
    if truthy origin
    then candidates (
        map (λ (t : OriginTool). record { tool = t.tool; is_anchored = ltb 0 t.anchored })
          (tools_by_origin db (strip_slashes (trim origin))
            (elim kind [ none ↦ none | some k ↦ (if truthy k then some k else none) ])))
    else origin_required

-- `crashed` is an exception that the route does not catch.
pub data ToolResponse (T : Type 0) : Type 0 where
  indexed : Option Meta → T → List LocalScan → ToolResponse T
  cached : (envio_error : Bool) → Option Meta → List CachedScan → ToolResponse T
  no_scans : (envio_error : Bool) → ToolResponse T
  crashed : ToolResponse T

-- `limit` of the query, where it is a whole number. SQLite takes a negative one as no limit.
pub data Limit : Type 0 where
  missing negative : Limit
  number : ℕ → Limit

pub record ListedTool : Type 0 where
  pub id : Text
  pub latest_verdict : ℕ
  pub latest_score : ℕ
  pub scan_count : ℕ
  pub last_seen : ℕ
  pub meta : Meta

pub data ListResponse (A T : Type 0) : Type 0 where
  from_index : A → List (T × Option Meta) → ListResponse A T
  from_cache : (as_of : Option ℕ) → Stats → List ListedTool → ListResponse A T

unfoldable pub capped : Db → Limit → ℕ
capped db missing = min 100 25
capped db (number n) = min 100 n
capped db negative = length db.tools

unfoldable pub listed_tool : RecentTool → ListedTool
unfolding meta_of
listed_tool t = record {
  id = t.tool.tool_id;
  latest_verdict = t.scan.verdict;
  latest_score = t.scan.score;
  scan_count = t.scan_count;
  last_seen = t.scan.created_at;
  meta = meta_of t.tool;
}

-- `rows[0]?.created_at ?? null`
unfoldable pub as_of_rows : List RecentTool → Option ℕ
as_of_rows [] = none
as_of_rows (t ∷ ts) = some t.scan.created_at

module _ (node : RegistryNode) where
  unfoldable pub with_fixes : List Finding → List Fixed
  unfolding severity recommend
  with_fixes = map (λ (f : Finding). record {
    finding = f;
    severity = severity f.sev;
    recommendation = recommend f.cat;
  })

  unfoldable pub parsed : Text → Option (List Fixed)
  unfolding with_fixes
  parsed json = elim (node.parse json) [ none ↦ none | some fs ↦ some (with_fixes fs) ]

  unfoldable pub receipt_url : Text → Option Text
  receipt_url h = if truthy h then some (node.base_url ++ (lit "/receipt/" ++ h)) else none

  -- The scan's own row first, then the receipt that another attestor published.
  unfoldable pub with_local : Db → HistoryScan → Option LocalScan
  unfolding parsed receipt_url
  with_local db s = elim (get_scan db (to_lower s.receipt_hash)) [
    | some row ↦ elim (parsed row.findings_json) [
      | none ↦ none
      | some fs ↦
          some (record { scan = s; receipt_url = receipt_url s.receipt_hash; findings = some fs })
    ]
    | none ↦ elim (get_external_receipt db (to_lower s.receipt_hash)) [
      | none ↦ some (record { scan = s; receipt_url = none; findings = none })
      | some x ↦ elim (parsed x.findings_json) [
        | none ↦ none
        | some fs ↦ some (record {
          scan = s;
          receipt_url = receipt_url (to_lower s.receipt_hash);
          findings = some fs;
        })
      ]
    ]
  ]

  unfoldable pub cached_scan : ScanRow → Option CachedScan
  unfolding parsed receipt_url
  cached_scan row = elim (parsed row.findings_json) [
    | none ↦ none
    | some fs ↦ some (record {
      row = row;
      receipt_url = receipt_url row.receipt_hash;
      scanned_at = row.created_at;
      findings = fs;
    })
  ]

  -- Behind the index: it is down, or it has not caught up.
  unfoldable pub tool_from_cache : {T : Type 0} → Db → Text → Bool → ToolResponse T
  unfolding cached_scan each tool_meta
  tool_from_cache db id envio_error =
      elim (each cached_scan (scans_for_tool db id node.chain_id 50)) [
        | none ↦ crashed
        | some [] ↦ no_scans envio_error
        | some (s ∷ ss) ↦ cached envio_error (tool_meta db id) (s ∷ ss)
      ]

  -- GET /registry/:toolId. An exception over the index's own answer leads to the store as well.
  unfoldable pub get_tool_route :
      {T : Type 0} → Db → (Text → Option (Option T × List HistoryScan)) → Text → ToolResponse T
  unfolding tool_from_cache with_local each tool_meta
  get_tool_route db history tool_id =
      let id = to_lower tool_id in
      elim (history id) [
        | none ↦ tool_from_cache db id true
        | some (none, scans) ↦ tool_from_cache db id false
        | some (some t, scans) ↦ elim (each (with_local db) scans) [
          | none ↦ tool_from_cache db id true
          | some ls ↦ indexed (tool_meta db id) t ls
        ]
      ]

  -- GET /registry
  unfoldable pub get_registry :
      {A T : Type 0} → (T → Text) → Db → (Limit → Option (A × List T)) → Limit → ListResponse A T
  unfolding capped listed_tool as_of_rows tool_meta
  get_registry id_of db tools limit = elim (tools limit) [
    | some (a, ts) ↦ from_index a (map (λ t. (t, tool_meta db (id_of t))) ts)
    | none ↦
        let rows = recent_tools db node.chain_id (capped db limit) in
        from_cache (as_of_rows rows) (stats db) (map listed_tool rows)
  ]
