-- ===== src/Client/Check.antt =====
-- client/index.js:58-67 and 85-120: `candidatesFor`, `check` and `adoptOne`.
use monadguard.Base.{
  ℕ, ◌==◌, Bool, true, false, not, ◌&&◌, ◌||◌, Option, none, some, List, [], ◌∷◌, Text, lit, truthy,
  to_lower, if◌then◌else◌,
}
pub mod Identity
use monadguard.Identity.{tool_id}
use monadguard.Client.Answer.{Answer, Candidate, Verdict, unknown, api}
use monadguard.Client.Lookup.{Services, lookup, or_value}

-- What a caller knows of a tool.
pub record ToolQuery : Type 0 where
  pub tool_id : Option Text
  pub kind : Option Text
  pub name : Option Text
  pub origin : Option Text

-- `opts.resolve`
pub data Resolve : Type 0 where
  auto always never : Resolve

pub data Failure : Type 0 where
  unreachable malformed nothing_to_look_up resolution_is_off : Failure

pub data Result {ℓ} (A : Type ℓ) : Type ℓ where
  ok : A → Result A
  err : Failure → Result A

infixl 5 ◌>>=◌
abbrev pub ◌>>=◌ {ℓ κ} : {A : Type ℓ} {B : Type κ} → Result A → (A → Result B) → Result B
ok a >>= f = f a
err e >>= f = err e

unfoldable pub ask : Services → Text → Result Answer
ask net id = elim (lookup net id) [ none ↦ err unreachable | some r ↦ ok r ]

abbrev adopted : Candidate → List Candidate → Answer → Answer
adopted c all r = record r { resolved = some c; candidates = some all }

-- The first candidate with a verdict on chain; otherwise the first one; otherwise `fallback`.
unfoldable pub adopt_loop :
    Services
    → List Candidate
    → Option Answer
    → Option Answer
    → List Candidate
    → Result (Option Answer)
unfolding ask
adopt_loop net all fallback first [] = ok (elim first [ none ↦ fallback | some r ↦ some r ])
adopt_loop net all fallback first (c ∷ cs) = do
  r ← ask net (to_lower c.tool_id)
  let hit = adopted c all r
  let rest = adopt_loop net all fallback (elim first [ none ↦ some hit | some f ↦ some f ]) cs
  if r.known then ok (some hit) else rest

unfoldable pub adopt_one : Services → List Candidate → Option Answer → Result (Option Answer)
unfolding adopt_loop
adopt_one net cs fallback = adopt_loop net cs fallback none cs

-- `tool.origin` where it is neither missing nor empty.
given : Option Text → Option Text
given none = none
given (some t) = if truthy t then some t else none

-- `candidatesFor`: a hint, so that nothing is known where the request fails.
unfoldable pub candidates_for : Services → ToolQuery → List Candidate
unfolding given
candidates_for net q = elim (given q.origin) [
  | none ↦ []
  | some origin ↦ or_value (net.resolve origin (given q.kind)) []
]

is_never : Resolve → Bool
is_never never = true
is_never _ = false

-- `if (!candidates.length) return r; if (!adopt) return { ...r, candidates }; return adoptOne(…)`,
-- for a tool that has a name or an id.
unfoldable pub after_miss : Services → Resolve → Answer → List Candidate → Result Answer
unfolding adopt_one
after_miss net mode r [] = ok r
after_miss net always r (c ∷ cs) = do hit ← adopt_one net (c ∷ cs) (some r); ok (or_value hit r)
after_miss net _ r (c ∷ cs) = ok (record r { candidates = some (c ∷ cs) })

-- The answer where the origin leads to no identity.
abbrev nobody : Answer
nobody = record {
  known = false;
  tool_id = none;
  verdict = unknown;
  score = none;
  scans = 0;
  attestors = [];
  last_seen = none;
  source = api;
  resolved = none;
  candidates = some [];
}

-- A tool of which only the origin is known.
unfoldable pub check_origin : Services → Resolve → ToolQuery → Result Answer
unfolding given candidates_for adopt_one is_never
check_origin net mode q = elim (given q.origin) [
  | none ↦ err nothing_to_look_up
  | some origin ↦
      if is_never mode
      then err resolution_is_off
      else (do hit ← adopt_one net (candidates_for net q) none; ok (or_value hit nobody))
]

module _ (keccak : Text → Text) where
  -- `tool.toolId ?? toolId(tool)`, in lower case; a name with no origin is an exception there. A
  -- missing kind stands as `undefined` in the template.
  unfoldable pub asked_id : ToolQuery → Text → Result Text
  asked_id q name = elim q.tool_id [
    | some id ↦ ok (to_lower id)
    | none ↦ elim q.origin [
      | none ↦ err malformed
      | some origin ↦ ok (to_lower (tool_id keccak (or_value q.kind (lit "undefined")) name origin))
    ]
  ]

  unfoldable pub check_named : Services → Resolve → ToolQuery → Text → Result Answer
  unfolding asked_id ask after_miss candidates_for is_never
  check_named net mode q name = do
    id ← asked_id q name
    r ← ask net id
    if r.known || is_never mode then ok r else after_miss net mode r (candidates_for net q)

  -- The name is not looked at where the id is given.
  unfoldable pub check : Services → Resolve → ToolQuery → Result Answer
  unfolding check_named check_origin
  check net mode q = elim q.name [
    | some name ↦ check_named net mode q name
    | none ↦ elim q.tool_id [ some id ↦ check_named net mode q [] | none ↦ check_origin net mode q ]
  ]
