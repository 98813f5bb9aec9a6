-- ===== src/Client/Check/Identity.antt =====
-- Which identity and which verdict an answer of `check` is about.
use monadguard.Base.{
  ◌≡◌, ◌≢◌, inl, inr, refl, ◌∙◌, Bool-cases, none, some, Option, Option-cases, List, [], ◌∷◌, Text,
  arith, ◌||◌, if◌then◌else◌,
}
use monadguard.Client.Answer.{Answer, Candidate}
use monadguard.Client.Lookup.{
  Services, lookup, from_index, from_rest, rest_answer, IndexReply, RestReply, found, not_found,
}
use monadguard.Client.Check.{
  ToolQuery, Resolve, auto, always, never, Result, ok, err, ◌>>=◌, unreachable, ask, after_miss,
  check_named, asked_id, is_never, candidates_for,
}

tool_id-from_index : (id : Text) (d : IndexReply) → (from_index id d).tool_id ≡ some id
unfolding from_index
tool_id-from_index id d = ground arith

tool_id-from_rest : (id : Text) (d : RestReply) → (from_rest id d).tool_id ≡ some id
unfolding from_rest rest_answer
tool_id-from_rest id not_found = refl
tool_id-from_rest id (found t ss) = refl

-- An answer is about the id that was asked for.
pub tool_id-ask :
    (net : Services) (id : Text) (r : Answer) → ask net id ≡ ok r → r.tool_id ≡ some id
unfolding ask lookup
tool_id-ask net id r h = elim (Option-cases (net.graphql id)) [
  | inr (d, e) ↦ ground (arith, tool_id-from_index id d)
  | inl e ↦ elim (Option-cases (net.rest id)) [
    | inr (d, f) ↦ ground (arith, tool_id-from_rest id d)
    | inl f ↦ absurd (ground arith)
  ]
]

tool_id-after_miss :
    (net : Services) (mode : Resolve) (r s : Answer) (cs : List Candidate)
    → mode ≢ always
    → after_miss net mode r cs ≡ ok s
    → s.tool_id ≡ r.tool_id
unfolding after_miss
tool_id-after_miss net auto r s [] m h = ground arith
tool_id-after_miss net auto r s (c ∷ cs) m h = ground arith
tool_id-after_miss net never r s [] m h = ground arith
tool_id-after_miss net never r s (c ∷ cs) m h = ground arith
tool_id-after_miss net always r s cs m h = absurd (m refl)

-- A tool with a name or an id is never answered for under another identity, unless the caller asked
-- for that: the answer carries the id that was computed from the query.
pub check_named-tool_id :
    (keccak : Text → Text) (net : Services) (mode : Resolve) (q : ToolQuery) (name id : Text)
    (r : Answer)
    → mode ≢ always
    → asked_id keccak q name ≡ ok id
    → check_named keccak net mode q name ≡ ok r
    → r.tool_id ≡ some id
unfolding check_named
check_named-tool_id keccak net mode q name id r m i h =
    go (ask net id) refl (rw (i, check_named) at h)
  where
    go :
        (a : Result Answer)
        → ask net id ≡ a
        → (a >>= λ b.
            if b.known || is_never mode then ok b else after_miss net mode b (candidates_for net q))
          ≡ ok r
        → r.tool_id ≡ some id
    go (err f) e p = absurd (cc)
    go (ok b) e p = elim (Bool-cases (b.known || is_never mode)) [
      | inl t ↦ ground (arith, tool_id-ask net id b e)
      | inr t ↦
          tool_id-after_miss net mode b r (candidates_for net q) m (ground arith)
          ∙ tool_id-ask net id b e
    ]

verdict-after_miss :
    (net : Services) (r s : Answer) (cs : List Candidate)
    → after_miss net auto r cs ≡ ok s
    → s.verdict ≡ r.verdict
unfolding after_miss
verdict-after_miss net r s [] h = ground arith
verdict-after_miss net r s (c ∷ cs) h = ground arith

-- Where nothing is adopted, the verdict on a tool with a name is that of the lookup of its id.
pub check_named-verdict :
    (keccak : Text → Text) (net : Services) (q : ToolQuery) (name id : Text) (r : Answer)
    → asked_id keccak q name ≡ ok id
    → check_named keccak net auto q name ≡ ok r
    → (b : Answer) × (lookup net id ≡ some b) × (r.verdict ≡ b.verdict)
unfolding check_named ask
check_named-verdict keccak net q name id r i h =
    go (lookup net id) refl (rw (i, check_named, ask) at h)
  where
    go :
        (l : Option Answer)
        → lookup net id ≡ l
        → ((elim l [ none ↦ err unreachable | some b ↦ ok b ]) >>= λ b.
            if b.known || is_never auto then ok b else after_miss net auto b (candidates_for net q))
          ≡ ok r
        → (b : Answer) × (lookup net id ≡ some b) × (r.verdict ≡ b.verdict)
    go none e p = absurd (cc)
    go (some b) e p = elim (Bool-cases (b.known || is_never auto)) [
      | inl t ↦ (b, e, ground arith)
      | inr t ↦ (b, e, verdict-after_miss net b r (candidates_for net q) (ground arith))
    ]
