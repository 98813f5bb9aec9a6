-- ===== src/Client/Gate.antt =====
-- client/index.js:182-248: `gate`, which lets a tool pass or throws.
pub mod Clears
pub mod Blocks
use monadguard.Base.{
  ℕ, ◌+◌, ◌*◌, ◌==◌, Bool, true, false, not, ◌&&◌, ◌||◌, Option, none, some, List, [], ◌∷◌, Text,
  lit, truthy, text_eq, to_lower, any, keep, find, length, leb, if◌then◌else◌,
}
use monadguard.Client.Answer.{Answer, Attestation, Candidate, Verdict}
use monadguard.Client.Lookup.{Services}
use monadguard.Client.Check.{ToolQuery, Resolve, Failure, Result, ok, err, check}

-- `attestors` is `none` where the option is `undefined`.
pub record GateOptions : Type 0 where
  pub attestors : Option (List Text)
  pub max_age_days : ℕ
  pub allow_warn : Bool
  pub allow_unknown : Bool
  pub content_hash : Option Text
  pub resolve : Resolve

-- Why MonadGuardBlocked is thrown.
pub data Blocked : Type 0 where
  trusts_nobody : Blocked
  no_recent_verdict : (pinned : Bool) → Option Candidate → Blocked
  flagged_critical flagged_warn : Attestation → Blocked
  not_cleared : ℕ → Blocked

pub data Outcome : Type 0 where
  passed : Answer → Outcome
  blocked : Answer → Blocked → Outcome
  failed : Failure → Outcome

-- `!maxAgeDays || Date.now() / 1000 - t <= maxAgeDays * 86400`, in milliseconds.
unfoldable pub fresh : ℕ → ℕ → ℕ → Bool
fresh now_ms days t = days == 0 || leb now_ms (t * 1000 + days * 86400000)

-- `String(a.address)`
shown_address : Option Text → Text
shown_address none = lit "null"
shown_address (some a) = a

unfoldable pub trusted : Option (List Text) → Attestation → Bool
unfolding shown_address
trusted none a = true
trusted (some ts) a = any (λ t. text_eq (to_lower t) (to_lower (shown_address a.address))) ts

-- `!want || !a.contentHash || a.contentHash.toLowerCase() === want.toLowerCase()`
unfoldable pub same_content : Option Text → Option Text → Bool
same_content none have = true
same_content (some want) none = true
same_content (some want) (some have) =
    not (truthy want) || not (truthy have) || text_eq (to_lower have) (to_lower want)

-- What `pinned.filter(…)` lets into the pool.
unfoldable pub in_scope : ℕ → GateOptions → Attestation → Bool
unfolding fresh trusted same_content
in_scope now_ms o a =
    trusted o.attestors a
    && (fresh now_ms o.max_age_days a.timestamp && same_content o.content_hash a.content_hash)

unfoldable pub is_verdict : Verdict → Option Verdict → Bool
is_verdict Verdict.unknown (some Verdict.unknown) = true
is_verdict Verdict.clean (some Verdict.clean) = true
is_verdict Verdict.warn (some Verdict.warn) = true
is_verdict Verdict.critical (some Verdict.critical) = true
is_verdict _ _ = false

unfoldable pub clears : GateOptions → Attestation → Bool
unfolding is_verdict
clears o a =
    is_verdict Verdict.clean a.verdict
    || (o.allow_warn && is_verdict Verdict.warn a.verdict)
    || (o.allow_unknown && is_verdict Verdict.unknown a.verdict)

is_some {ℓ} : {A : Type ℓ} → Option A → Bool
is_some none = false
is_some (some a) = true

-- `!r.known && r.candidates?.length ? …`
hint : Answer → Option Candidate
hint r =
    if r.known
    then none
    else elim r.candidates [ none ↦ none | some [] ↦ none | some (c ∷ cs) ↦ some c ]

-- The checks on the verdicts in scope, from the last to the first.
unfoldable pub judge_clean : GateOptions → Answer → List Attestation → Option Attestation → Outcome
unfolding clears
judge_clean o r pool (some warned) = blocked r (flagged_warn warned)
judge_clean o r pool none =
    if any (clears o) pool then passed r else blocked r (not_cleared (length pool))

unfoldable pub judge_warned : GateOptions → Answer → List Attestation → Option Attestation → Outcome
unfolding judge_clean
judge_warned o r pool (some flagged) = blocked r (flagged_critical flagged)
judge_warned o r pool none =
    judge_clean o r pool
      (if o.allow_warn then none else find (λ a. is_verdict Verdict.warn a.verdict) pool)

unfoldable pub judge_pool : GateOptions → Answer → List Attestation → Outcome
unfolding judge_warned is_verdict
judge_pool o r pool = judge_warned o r pool (find (λ a. is_verdict Verdict.critical a.verdict) pool)

unfoldable pub judge : ℕ → GateOptions → Answer → Outcome
unfolding judge_pool in_scope is_some hint
judge now_ms o r =
    let pool = keep (in_scope now_ms o) r.attestors in
    if not r.known || length pool == 0
    then (if o.allow_unknown
        then passed r
        else blocked r (no_recent_verdict (is_some o.attestors) (hint r)))
    else judge_pool o r pool

-- `Array.isArray(trusted) && trusted.length === 0`
unfoldable pub trusts_none : Option (List Text) → Bool
trusts_none (some []) = true
trusts_none _ = false

unfoldable pub decide_gate : ℕ → GateOptions → Answer → Outcome
unfolding judge trusts_none
decide_gate now_ms o r =
    if trusts_none o.attestors then blocked r trusts_nobody else judge now_ms o r

unfoldable pub gate : (Text → Text) → Services → ℕ → GateOptions → ToolQuery → Outcome
unfolding decide_gate
gate keccak net now_ms o q = elim (check keccak net o.resolve q) [
  | ok r ↦ decide_gate now_ms o r
  | err e ↦ failed e
]
