-- ===== src/Client/Agent.antt =====
-- client/mcp.mjs:56-120: the MCP server of the client, which answers an agent's calls of
-- `check_tool` and `scan_manifest`. What POST /scan replies is a parameter; the wording of the
-- texts is left out, what they say is a constructor.
use monadguard.Base.{
  ℕ, Bool, Option, none, some, List, [], ◌∷◌, map, get_elem?, Text, lit, text_eq, truthy,
  if◌then◌else◌,
}
pub mod Identity
use monadguard.Identity.{tool_id}
use monadguard.Client.Answer.{
  Answer, Attestation, Candidate, Source, Verdict, unknown, verdict_name,
}
use monadguard.Client.Lookup.{Services, or_else, or_value}
use monadguard.Client.Check.{Failure, Result, ok, err, ToolQuery, auto, check}

-- The arguments of a call; `manifest_name` is `m?.name`.
pub record Arguments : Type 0 where
  pub kind : Option Text
  pub name : Option Text
  pub origin : Option Text
  pub manifest_name : Option Text

-- What the advice says. `known_as` names the argument, be it there or not, and a candidate.
pub data Advice : Type 0 where
  cleared not_scanned flagged : Advice
  known_as : Option Text → Candidate → Advice

pub record Told : Type 0 where
  pub verdict : Verdict
  pub risk : Option ℕ
  pub known : Bool
  pub advice : Advice
  pub attestors : List Attestation
  pub tool_id : Option Text
  pub declared_name : Option Text
  pub source : Source

-- A finding in the reply of POST /scan, and one in the answer to the agent.
pub record ScanFinding : Type 0 where
  pub id : Text
  pub severity : Text
  pub desc : Text
  pub field : Option Text
  pub recommendation : Text

pub record ToldFinding : Type 0 where
  pub id : Text
  pub severity : Text
  pub what : Text
  pub location : Option Text
  pub fix : Text

pub record ScanBody : Type 0 where
  pub verdict : Option ℕ
  pub score : Option ℕ
  pub gate : Option Text
  pub findings : Option (List ScanFinding)
  pub receipt_uri : Option Text

-- `refused` is a status that is not ok, with the error of its body.
pub data ScanReply : Type 0 where
  refused : ℕ → Option Text → ScanReply
  accepted : ScanBody → ScanReply

pub record Preview : Type 0 where
  pub verdict : Verdict
  pub risk : Option ℕ
  pub safe_to_connect : Bool
  pub findings : List ToldFinding
  pub receipt_uri : Option Text
  pub tool_id : Text

-- `not_reached` has the verdict UNKNOWN; `thrown` is an exception of the handler.
pub data Reply : Type 0 where
  told : Told → Reply
  not_reached : Failure → Option Text → Reply
  previewed : Preview → Reply
  scan_failed : ℕ → Option Text → Reply
  unknown_tool : Text → Reply
  thrown : Reply

-- `args.name ? { name: args.name } : {}`
unfoldable pub named : Option Text → Option Text
named none = none
named (some t) = if truthy t then some t else none

unfoldable pub query_of : Arguments → ToolQuery
unfolding named or_value
query_of a = record {
  tool_id = none;
  kind = some (or_value a.kind (lit "mcp"));
  name = named a.name;
  origin = a.origin;
}

-- The advice on an UNKNOWN tool: `!r.known && r.candidates?.length ? … : …`.
unfoldable pub unknown_advice : Option Text → Answer → Advice
unknown_advice name r = if r.known then not_scanned else elim r.candidates [
  | none ↦ not_scanned
  | some [] ↦ not_scanned
  | some (c ∷ cs) ↦ known_as name c
]

unfoldable pub advice_for : Option Text → Answer → Verdict → Advice
unfolding unknown_advice
advice_for name r Verdict.clean = cleared
advice_for name r Verdict.unknown = unknown_advice name r
advice_for name r _ = flagged

unfoldable pub told_of : Option Text → Answer → Told
unfolding advice_for
told_of name r = record {
  verdict = r.verdict;
  risk = r.score;
  known = r.known;
  advice = advice_for name r r.verdict;
  attestors = r.attestors;
  tool_id = r.tool_id;
  declared_name = elim r.resolved [ none ↦ none | some c ↦ some c.name ];
  source = r.source;
}

-- `j.verdict` as an index of VERDICTS.
unfoldable pub scan_verdict : Option ℕ → Verdict
unfolding or_value
scan_verdict none = unknown
scan_verdict (some v) = or_value (verdict_name v) unknown

unfoldable pub told_finding : ScanFinding → ToldFinding
told_finding f = record {
  id = f.id;
  severity = f.severity;
  what = f.desc;
  location = f.field;
  fix = f.recommendation;
}

is_act : Option Text → Bool
is_act g = text_eq (elim g [ none ↦ [] | some t ↦ t ]) (lit "act")

-- `args.name ?? m?.name ?? 'pasted-manifest'`
unfoldable pub scan_name : Arguments → Text
unfolding or_else or_value
scan_name a = or_value (or_else a.name a.manifest_name) (lit "pasted-manifest")

module _ (keccak : Text → Text) where
  -- The answer where `check` throws. The identity of a name without an origin is an exception again.
  unfoldable pub after_failure : ToolQuery → Failure → Reply
  unfolding or_value
  after_failure q why = elim q.name [
    | none ↦ not_reached why none
    | some name ↦ elim q.origin [
      | none ↦ thrown
      | some origin ↦
          not_reached why (some (tool_id keccak (or_value q.kind (lit "mcp")) name origin))
    ]
  ]

  unfoldable pub tell : Arguments → Result Answer → Reply
  unfolding after_failure told_of query_of
  tell a (ok r) = told (told_of a.name r)
  tell a (err why) = after_failure (query_of a) why

  unfoldable pub check_tool : Services → Arguments → Reply
  unfolding tell query_of
  check_tool net a = tell a (check keccak net auto (query_of a))

  unfoldable pub preview_of : Text → ScanBody → Preview
  unfolding scan_verdict told_finding is_act or_value
  preview_of name j = record {
    verdict = scan_verdict j.verdict;
    risk = j.score;
    safe_to_connect = is_act j.gate;
    findings = map told_finding (or_value j.findings []);
    receipt_uri = j.receipt_uri;
    tool_id = tool_id keccak (lit "mcp") name (lit "mcp-client:local");
  }

  -- `post` is POST /scan of the manifest under a name; `none` where the request fails.
  unfoldable pub scan_manifest : (Text → Option ScanReply) → Arguments → Reply
  unfolding preview_of scan_name
  scan_manifest post a = elim (post (scan_name a)) [
    | none ↦ thrown
    | some (refused status e) ↦ scan_failed status e
    | some (accepted j) ↦ previewed (preview_of (scan_name a) j)
  ]

  unfoldable pub call_tool : Services → (Text → Option ScanReply) → Text → Arguments → Reply
  unfolding check_tool scan_manifest
  call_tool net post name a =
      if text_eq name (lit "check_tool")
      then check_tool net a
      else (if text_eq name (lit "scan_manifest") then scan_manifest post a else unknown_tool name)
