-- ===== src/Client/Agent/Identity.antt =====
-- What the MCP server of the client tells an agent of a tool with a name.
use monadguard.Base.{
  ◌≡◌, ◌≢◌, inl, inr, refl, sym, ◌∙◌, ap, true, Bool-cases, Option, none, some, Option-cases, List,
  [], ◌∷◌, Text, lit, truthy, to_lower, text_eq, arith,
}
use monadguard.Identity.{tool_id}
use monadguard.Client.Answer.{Answer, Candidate, Verdict}
use monadguard.Client.Lookup.{Services, lookup, or_value}
use monadguard.Client.Check.{ToolQuery, auto, Result, ok, err, check, check_named, asked_id}
use monadguard.Client.Check.Identity.{check_named-tool_id, check_named-verdict}
use monadguard.Client.Agent.{
  Arguments, Told, told, not_scanned, known_as, cleared, named, query_of, told_of, advice_for,
  unknown_advice, tell, after_failure, check_tool, call_tool, ScanReply,
}

no_advice :
    (name : Option Text) (cs : Option (List Candidate))
    → elim cs [ none ↦ not_scanned | some [] ↦ not_scanned | some (c ∷ cs) ↦ known_as name c ]
      ≢ cleared
no_advice name none h = cc
no_advice name (some []) h = cc
no_advice name (some (c ∷ cs)) h = cc

cleared-advice_for :
    (name : Option Text) (r : Answer) (v : Verdict)
    → advice_for name r v ≡ cleared
    → v ≡ Verdict.clean
unfolding advice_for unknown_advice
cleared-advice_for name r Verdict.clean h = refl
cleared-advice_for name r Verdict.unknown h = elim (Bool-cases r.known) [
  | inl e ↦ absurd (ground arith)
  | inr e ↦ absurd (no_advice name r.candidates (rw e at h))
]
cleared-advice_for name r Verdict.warn h = absurd (cc)
cleared-advice_for name r Verdict.critical h = absurd (cc)

-- Something is told of a tool only where `check` has an answer.
tell-told :
    (keccak : Text → Text) (a : Arguments) (c : Result Answer) (t : Told)
    → tell keccak a c ≡ told t
    → (r : Answer) × (c ≡ ok r) × (t ≡ told_of a.name r)
unfolding tell after_failure
tell-told keccak a (ok r) t h = (r, refl, ground arith)
tell-told keccak a (err why) t h = elim (Option-cases (query_of a).name) [
  | inl n ↦ absurd (ground arith)
  | inr (x, n) ↦ elim (Option-cases (query_of a).origin) [
    | inl o ↦ absurd (ground arith)
    | inr (y, o) ↦ absurd (ground arith)
  ]
]

name-query_of :
    (a : Arguments) (name : Text)
    → a.name ≡ some name
    → truthy name ≡ true
    → (query_of a).name ≡ some name
unfolding query_of named
name-query_of a name n g = ground arith

check-named :
    (keccak : Text → Text) (net : Services) (q : ToolQuery) (name : Text)
    → q.name ≡ some name
    → check keccak net auto q ≡ check_named keccak net auto q name
unfolding check
check-named keccak net q name n = rw n

asked_id-query_of :
    (keccak : Text → Text) (a : Arguments) (name origin : Text)
    → a.origin ≡ some origin
    → asked_id keccak (query_of a) name
      ≡ ok (to_lower (tool_id keccak (or_value a.kind (lit "mcp")) name origin))
unfolding asked_id query_of or_value
asked_id-query_of keccak a name origin o = rw o

-- Where check_tool is called with a name and an origin and the agent is told that the tool was
-- cleared, the id that is told is that of the name and the origin, and the verdict CLEAN is what
-- the lookup of that id gave: no other identity is vouched for.
pub call_tool-cleared :
    (keccak : Text → Text) (net : Services) (post : Text → Option ScanReply) (a : Arguments)
    (name origin : Text) (t : Told)
    → a.name ≡ some name
    → truthy name ≡ true
    → a.origin ≡ some origin
    → call_tool keccak net post (lit "check_tool") a ≡ told t
    → t.advice ≡ cleared
    → let id = to_lower (tool_id keccak (or_value a.kind (lit "mcp")) name origin) in
      (t.tool_id ≡ some id)
      × ((b : Answer) × (lookup net id ≡ some b) × (b.verdict ≡ Verdict.clean))
unfolding call_tool check_tool text_eq told_of
call_tool-cleared keccak net post a name origin t n g o h c =
    let q = query_of a in
    let (r, e, p) = tell-told keccak a (check keccak net auto q) t h in
    let i = asked_id-query_of keccak a name origin o in
    let m = sym (check-named keccak net q name (name-query_of a name n g)) ∙ e in
    let (b, l, v) = check_named-verdict keccak net q name _ r i m in
    (
      ap (λ (s : Told). s.tool_id) p ∙ check_named-tool_id keccak net auto q name _ r (λ x. cc) i m,
      (
        b,
        l,
        sym v ∙ cleared-advice_for a.name r r.verdict (ap (λ (s : Told). s.advice) (sym p) ∙ c),
      ),
    )
