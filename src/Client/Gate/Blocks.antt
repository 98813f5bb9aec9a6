-- ===== src/Client/Gate/Blocks.antt =====
-- What `gate` blocks whatever the options say, and what it asks the registry.
use mathlib.Core.Option.{some-injective}
use monadguard.Base.{
  ℕ, ◌≡◌, inl, inr, sym, ◌∙◌, ap, refl, true, false, Option, none, some, Option-cases, List, [],
  ◌∈◌, arith, All-mem, find, find-none, keep, keep-mem, length_pos_of_mem, Text,
}
use monadguard.Client.Answer.{Answer, Attestation, Verdict}
use monadguard.Client.Lookup.{Services}
use monadguard.Client.Check.{ToolQuery, Result, ok, err, check}
use monadguard.Client.Gate.{
  GateOptions, Outcome, passed, blocked, failed, trusts_nobody, in_scope, is_verdict, judge_pool,
  judge_warned, judge_clean, judge, decide_gate, gate, trusts_none,
}
use monadguard.Client.Gate.Clears.{InScope, IsCleared, is_verdict_refl, decide_gate-passed_iff}

judge_pool-critical :
    (o : GateOptions) (r s : Answer) (pool : List Attestation) (a : Attestation)
    → a ∈ pool
    → a.verdict ≡ some Verdict.critical
    → ¬ (judge_pool o r pool ≡ passed s)
unfolding judge_pool judge_warned
judge_pool-critical o r s pool a m e h =
    elim (Option-cases (find (λ b. is_verdict Verdict.critical b.verdict) pool)) [
      | inl f ↦ cc (
        All-mem (λ b. is_verdict Verdict.critical b.verdict ≡ false) pool a
            (find-none (λ b. is_verdict Verdict.critical b.verdict) pool f) m,
        is_verdict_refl Verdict.critical,
        e,
      )
      | inr (b, f) ↦ cc (rw f at h)
    ]

-- A CRITICAL attestation in scope of a known tool blocks it, whatever the options allow.
pub critical-blocks :
    (now_ms : ℕ) (o : GateOptions) (r s : Answer) (a : Attestation)
    → r.known ≡ true
    → InScope now_ms o r a
    → a.verdict ≡ some Verdict.critical
    → ¬ (decide_gate now_ms o r ≡ passed s)
unfolding decide_gate judge
critical-blocks now_ms o r s a k m e h =
    let i : a ∈ keep (in_scope now_ms o) r.attestors =
      keep-mem (in_scope now_ms o) r.attestors a m.0 m.1 in
    judge_pool-critical o r s (keep (in_scope now_ms o) r.attestors) a i e
      (ground (arith, length_pos_of_mem (keep (in_scope now_ms o) r.attestors) a i))

-- An empty list of trusted attestors blocks every tool, whatever the options allow.
pub empty_trust-blocks :
    (now_ms : ℕ) (o : GateOptions) (r : Answer)
    → o.attestors ≡ some []
    → decide_gate now_ms o r ≡ blocked r trusts_nobody
unfolding decide_gate trusts_none
empty_trust-blocks now_ms o r h = ground arith

-- The answer that an outcome carries.
abbrev answer_of : Outcome → Option Answer
answer_of (passed r) = some r
answer_of (blocked r why) = some r
answer_of (failed f) = none

answer_of-judge_pool :
    (o : GateOptions) (r : Answer) (pool : List Attestation)
    → answer_of (judge_pool o r pool) ≡ some r
unfolding judge_pool judge_warned judge_clean
answer_of-judge_pool o r pool = ground arith

answer_of-decide_gate :
    (now_ms : ℕ) (o : GateOptions) (r : Answer) → answer_of (decide_gate now_ms o r) ≡ some r
unfolding decide_gate judge
answer_of-decide_gate now_ms o r =
    ground (arith, answer_of-judge_pool o r (keep (in_scope now_ms o) r.attestors))

module _ (keccak : Text → Text) (net : Services) (now_ms : ℕ) (o : GateOptions)
    (q : ToolQuery) where
  -- With neither allowWarn nor allowUnknown, a tool that the gate lets pass is one whose answer
  -- from the registry the gate returns, and the answer is cleared: the tool is known, the trust
  -- list is not empty, some attestation in scope (trusted, fresh, of the wanted content) says CLEAN
  -- and none in scope says WARN or CRITICAL.
  pub gate-passed :
      (r : Answer)
      → o.allow_warn ≡ false
      → o.allow_unknown ≡ false
      → gate keccak net now_ms o q ≡ passed r
      → (check keccak net o.resolve q ≡ ok r) × IsCleared now_ms o r
  unfolding gate
  gate-passed r nw nu h = go (check keccak net o.resolve q) refl h
    where
      go :
          (c : Result Answer)
          → check keccak net o.resolve q ≡ c
          → gate keccak net now_ms o q ≡ passed r
          → (check keccak net o.resolve q ≡ ok r) × IsCleared now_ms o r
      go (err f) e p = absurd (cc (rw (e, gate) at p))
      go (ok s) e p =
          let decided : decide_gate now_ms o s ≡ passed r = rw (e, gate) at p in
          let same : s ≡ r =
            some-injective s r (sym (answer_of-decide_gate now_ms o s) ∙ ap answer_of decided) in
          (rw (← same) e, (decide_gate-passed_iff now_ms o r nw nu).0 (rw same at decided))
