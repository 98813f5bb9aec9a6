-- ===== src/Client/Lookup.antt =====
-- client/index.js:122-180: `lookup`. What the two services reply is a parameter.
pub mod Latest
use mathlib.Core.Option
use monadguard.Base.{
  ℕ, ◌==◌, Bool, true, false, Option, none, some, List, [], ◌∷◌, map, Text, text_eq, any, ltb,
  length, if◌then◌else◌,
}
use monadguard.Client.Answer.{
  Answer, Candidate, Attestation, Verdict, unknown, verdict_name, Source, envio, api,
}

-- A row of `Scan` in the index, the newest first.
pub record IndexedScan : Type 0 where
  pub attestor_id : Text
  pub verdict : ℕ
  pub score : ℕ
  pub content_hash : Text
  pub timestamp : ℕ
  pub tx_hash : Text

pub record IndexedTool : Type 0 where
  pub scan_count : ℕ
  pub latest_verdict : ℕ
  pub latest_score : ℕ
  pub latest_content_hash : Text
  pub last_seen : ℕ

pub record IndexReply : Type 0 where
  pub tool : Option IndexedTool
  pub scans : List IndexedScan

-- A scan in the reply of `/registry/:toolId`; what may be missing is an `Option`.
pub record RestScan : Type 0 where
  pub attestor_id : Option Text
  pub attestor : Option Text
  pub verdict : ℕ
  pub score : ℕ
  pub content_hash : Option Text
  pub timestamp : Option ℕ
  pub scanned_at : Option ℕ
  pub tx_hash : Option Text
  pub anchor_tx : Option Text

pub record RestTool : Type 0 where
  pub latest_verdict : ℕ
  pub latest_score : ℕ

-- `not_found` is the status 404.
pub data RestReply : Type 0 where
  not_found : RestReply
  found : Option RestTool → List RestScan → RestReply

-- The services: `none` where a request fails or its reply cannot be read.
pub record Services : Type 0 where
  pub graphql : Text → Option IndexReply
  pub rest : Text → Option RestReply
  -- `/registry/resolve` by origin and kind
  pub resolve : Text → Option Text → Option (List Candidate)

-- `a ?? b`
unfoldable pub or_else {ℓ} : {A : Type ℓ} → Option A → Option A → Option A
or_else (some a) b = some a
or_else none b = b

unfoldable pub or_value {ℓ} : {A : Type ℓ} → Option A → A → A
or_value (some a) b = a
or_value none b = b

abbrev empty : Text → Source → Answer
empty id source = record {
  known = false;
  tool_id = some id;
  verdict = unknown;
  score = none;
  scans = 0;
  attestors = [];
  last_seen = none;
  source = source;
  resolved = none;
  candidates = none;
}

-- `if (!byAttestor.has(s.attestor_id)) byAttestor.set(…)`: the first row of each attestor.
unfoldable pub latest_rows : List Text → List IndexedScan → List IndexedScan
latest_rows seen [] = []
latest_rows seen (s ∷ ss) =
    let kept = s ∷ latest_rows (s.attestor_id ∷ seen) ss in
    let dropped = latest_rows seen ss in if any (text_eq s.attestor_id) seen then dropped else kept

unfoldable pub attestation : IndexedScan → Attestation
attestation s = record {
  address = some s.attestor_id;
  verdict = verdict_name s.verdict;
  score = s.score;
  content_hash = some s.content_hash;
  timestamp = s.timestamp;
  tx_hash = some s.tx_hash;
}

unfoldable pub from_index : Text → IndexReply → Answer
unfolding latest_rows attestation or_value
from_index id d = elim d.tool [
  | none ↦ empty id envio
  | some t ↦ record {
    known = true;
    tool_id = some id;
    verdict = or_value (verdict_name t.latest_verdict) unknown;
    score = some t.latest_score;
    scans = t.scan_count;
    attestors = map attestation (latest_rows [] d.scans);
    last_seen = some t.last_seen;
    source = envio;
    resolved = none;
    candidates = none;
  }
]

unfoldable pub rest_attestation : RestScan → Attestation
unfolding or_else or_value
rest_attestation s = record {
  address = or_else s.attestor_id s.attestor;
  verdict = verdict_name s.verdict;
  score = s.score;
  content_hash = s.content_hash;
  timestamp = or_value (or_else s.timestamp s.scanned_at) 0;
  tx_hash = or_else s.tx_hash s.anchor_tx;
}

-- `scans[0]`
unfoldable pub first {ℓ} : {A : Type ℓ} → List A → Option A
first [] = none
first (a ∷ as') = some a

-- `Number(…) || null`
nonzero : ℕ → Option ℕ
nonzero n = if n == 0 then none else some n

unfoldable pub rest_answer : Text → Option RestTool → List RestScan → Answer
unfolding rest_attestation or_else or_value first nonzero
rest_answer id tool scans = record {
  known = ltb 0 (length scans);
  tool_id = some id;
  verdict =
      or_value
        (verdict_name (
          or_value
            (or_else (Option.map (λ (t : RestTool). t.latest_verdict) tool)
              (Option.map (λ (s : RestScan). s.verdict) (first scans)))
            0))
        unknown;
  score =
      or_else (Option.map (λ (t : RestTool). t.latest_score) tool)
        (Option.map (λ (s : RestScan). s.score) (first scans));
  scans = length scans;
  attestors = map rest_attestation scans;
  last_seen = elim (first scans) [
    | none ↦ none
    | some s ↦ nonzero (or_value (or_else s.timestamp s.scanned_at) 0)
  ];
  source = api;
  resolved = none;
  candidates = none;
}

unfoldable pub from_rest : Text → RestReply → Answer
unfolding rest_answer
from_rest id not_found = empty id api
from_rest id (found tool scans) = rest_answer id tool scans

-- `none` is the error that MonadGuard is unreachable.
unfoldable pub lookup : Services → Text → Option Answer
unfolding from_index from_rest
lookup net id = elim (net.graphql id) [
  | some d ↦ some (from_index id d)
  | none ↦ Option.map (from_rest id) (net.rest id)
]
