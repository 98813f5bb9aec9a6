-- ===== src/Store/Queries.antt =====
-- The queries of server/db.js that select, sort and cut rows.
use monadguard.Base.{
  ℕ, ◌+◌, ◌==◌, Bool, true, false, ◌&&◌, ◌||◌, Option, none, some, List, [], ◌∷◌, map, Text,
  text_eq, to_lower, leb, ltb, length, take, sort_by, keep, any, if◌then◌else◌,
}
use monadguard.Store.{Db, ScanRow, ToolRow, AnchorState}

-- `ORDER BY created_at`
abbrev pub as_old : ScanRow → ScanRow → Bool
as_old r s = leb r.created_at s.created_at

-- `ORDER BY created_at DESC`
abbrev pub as_new : ScanRow → ScanRow → Bool
as_new r s = leb s.created_at r.created_at

unfoldable pub is_confirmed : AnchorState → Bool
is_confirmed AnchorState.confirmed = true
is_confirmed _ = false

-- `anchor_state IN ('pending','failed')`
unfoldable pub is_pending : ScanRow → Bool
is_pending r = elim r.anchor_state [
  | AnchorState.pending ↦ true
  | AnchorState.failed ↦ true
  | _ ↦ false
]

has_signature : ScanRow → Bool
has_signature r = elim r.sig_r [ none ↦ false | some x ↦ true ]

-- `anchor_state IN ('queued','failed') AND sig_r IS NOT NULL`
unfoldable pub is_queued : ScanRow → Bool
unfolding has_signature
is_queued r = elim r.anchor_state [
  | AnchorState.queued ↦ has_signature r
  | AnchorState.failed ↦ has_signature r
  | _ ↦ false
]

unfoldable pub pending_scans : Db → ℕ → List ScanRow
unfolding sort_by is_pending
pending_scans db limit = take limit (sort_by as_old (keep is_pending db.scans))

unfoldable pub queued_scans : Db → ℕ → List ScanRow
unfolding sort_by is_queued
queued_scans db limit = take limit (sort_by as_old (keep is_queued db.scans))

unfoldable pub scans_for_tool : Db → Text → ℕ → ℕ → List ScanRow
unfolding sort_by
scans_for_tool db tool_id chain limit =
    take limit
      (sort_by as_new (keep (λ r. text_eq r.tool_id tool_id && r.chain_id == chain) db.scans))

-- A row of `recent`: a tool, its newest confirmed scan, and what the subquery counts.
pub record RecentTool : Type 0 where
  pub tool : ToolRow
  pub scan : ScanRow
  pub scan_count : ℕ

-- The confirmed scans of a tool on one chain.
unfoldable pub confirmed_on : Db → Text → ℕ → List ScanRow
unfolding is_confirmed
confirmed_on db tool_id chain =
    keep (λ r. text_eq r.tool_id tool_id && (is_confirmed r.anchor_state && r.chain_id == chain))
      db.scans

-- `JOIN scans s ON s.id = (SELECT … ORDER BY created_at DESC LIMIT 1)`
unfoldable pub joined : Db → ℕ → List ToolRow → List RecentTool
unfolding confirmed_on sort_by
joined db chain [] = []
joined db chain (t ∷ ts) = elim (sort_by as_new (confirmed_on db t.tool_id chain)) [
  | [] ↦ joined db chain ts
  | r ∷ rs ↦
      record { tool = t; scan = r; scan_count = length (confirmed_on db t.tool_id chain) }
      ∷ joined db chain ts
]

abbrev pub as_recent : RecentTool → RecentTool → Bool
as_recent r s = leb s.scan.created_at r.scan.created_at

unfoldable pub recent_tools : Db → ℕ → ℕ → List RecentTool
unfolding joined sort_by
recent_tools db chain limit = take limit (sort_by as_recent (joined db chain db.tools))

-- A row of `byOrigin`.
pub record OriginTool : Type 0 where
  pub tool : ToolRow
  pub anchored : ℕ

-- The confirmed scans of a tool on any chain.
unfoldable pub anchored_count : Db → Text → ℕ
unfolding is_confirmed
anchored_count db id =
    length (keep (λ r. text_eq r.tool_id id && is_confirmed r.anchor_state) db.scans)

abbrev pub has_kind : Option Text → Text → Bool
has_kind none kind = true
has_kind (some k) kind = text_eq kind k

-- `ORDER BY anchored DESC, t.first_seen ASC`
abbrev pub as_anchored : OriginTool → OriginTool → Bool
as_anchored a b =
    ltb b.anchored a.anchored
    || (a.anchored == b.anchored && leb a.tool.first_seen b.tool.first_seen)

unfoldable pub tools_by_origin : Db → Text → Option Text → List OriginTool
unfolding anchored_count sort_by
tools_by_origin db origin kind = take 10 (
    sort_by as_anchored (
      map (λ (t : ToolRow). record { tool = t; anchored = anchored_count db t.tool_id })
        (keep (λ t. text_eq (to_lower t.origin) (to_lower origin) && has_kind kind t.kind)
          db.tools)))

-- `counts`: a SUM over no rows is NULL.
pub record Stats : Type 0 where
  pub scans : ℕ
  pub anchored : Option ℕ
  pub awaiting : Option ℕ
  pub tools : ℕ

is_awaiting : ScanRow → Bool
is_awaiting r = elim r.anchor_state [
  | AnchorState.queued ↦ true
  | AnchorState.failed ↦ true
  | _ ↦ false
]

sum_of : (ScanRow → Bool) → List ScanRow → Option ℕ
sum_of p [] = none
sum_of p (r ∷ rs) = some (length (keep p (r ∷ rs)))

-- `COUNT(DISTINCT tool_id)`
unfoldable pub distinct_tools : List ScanRow → ℕ
distinct_tools [] = 0
distinct_tools (r ∷ rs) =
    if any (λ s. text_eq s.tool_id r.tool_id) rs then distinct_tools rs else 1 + distinct_tools rs

unfoldable pub stats : Db → Stats
unfolding is_awaiting sum_of distinct_tools is_confirmed
stats db = record {
  scans = length db.scans;
  anchored = sum_of (λ r. is_confirmed r.anchor_state) db.scans;
  awaiting = sum_of is_awaiting db.scans;
  tools = distinct_tools db.scans;
}
