-- ===== src/Client/Gate/Clears.antt =====
-- When `gate` lets a tool pass.
use monadguard.Base.{
  ℕ, ◌<◌, ◌≡◌, ◌↔◌, inl, inr, refl, sym, ap, ◌∙◌, Bool, true, false, Option, none, some,
  Option-cases, List, ◌∈◌, All-mem, arith, any, any-mem, mem-any, find, find-some, find-none, keep,
  keep-mem, mem_of_keep, length, length_pos_of_mem,
}
use monadguard.Client.Answer.{Answer, Attestation, Verdict}
use monadguard.Client.Gate.{
  GateOptions, passed, in_scope, is_verdict, clears, judge_pool, judge_warned, judge_clean, judge,
  decide_gate, trusts_none,
}

pub is_verdict_sound : (v : Verdict) (w : Option Verdict) → is_verdict v w ≡ true → w ≡ some v
unfolding is_verdict
is_verdict_sound Verdict.unknown none h = cc
is_verdict_sound _ w h = ground arith

pub is_verdict_refl : (v : Verdict) → is_verdict v (some v) ≡ true
unfolding is_verdict
is_verdict_refl Verdict.unknown = refl
is_verdict_refl _ = refl

-- No verdict in the pool is `v`.
abbrev Lacks : Verdict → List Attestation → Type 0
Lacks v pool = (a : Attestation) → a ∈ pool → ¬ (a.verdict ≡ some v)

abbrev verdict_of : Verdict → Attestation → Bool
verdict_of v a = is_verdict v a.verdict

Lacks-of_find :
    (v : Verdict) (pool : List Attestation) → find (verdict_of v) pool ≡ none → Lacks v pool
Lacks-of_find v pool h a m e = cc (
  All-mem (λ b. verdict_of v b ≡ false) pool a (find-none (verdict_of v) pool h) m,
  is_verdict_refl v,
  e,
)

find_of_Lacks :
    (v : Verdict) (pool : List Attestation) → Lacks v pool → find (verdict_of v) pool ≡ none
find_of_Lacks v pool h = elim (Option-cases (find (verdict_of v) pool)) [
  | inl e ↦ e
  | inr (a, e) ↦
      let (m, t) = find-some (verdict_of v) pool a e in
      absurd (h a m (is_verdict_sound v a.verdict t))
]

module _ (o : GateOptions) (no_warn : o.allow_warn ≡ false)
    (no_unknown : o.allow_unknown ≡ false) where
  clears-clean : (a : Attestation) → clears o a ≡ is_verdict Verdict.clean a.verdict
  unfolding clears
  clears-clean a = ground arith

  has_clean :
      (pool : List Attestation)
      → any (clears o) pool ≡ true
      → (a : Attestation) × (a ∈ pool) × (a.verdict ≡ some Verdict.clean)
  has_clean pool h =
      let (a, m, c) = any-mem (clears o) pool h in
      (a, m, is_verdict_sound Verdict.clean a.verdict (sym (clears-clean a) ∙ c))

  clean_has :
      (pool : List Attestation) (a : Attestation)
      → a ∈ pool
      → a.verdict ≡ some Verdict.clean
      → any (clears o) pool ≡ true
  clean_has pool a m e =
      mem-any (clears o) pool a m
        (clears-clean a ∙ (ap (is_verdict Verdict.clean) e ∙ is_verdict_refl Verdict.clean))

  -- The pool lets a tool pass when it has a CLEAN verdict, and neither a CRITICAL nor a WARN one.
  judge_pool-passed :
      (r : Answer) (pool : List Attestation)
      → judge_pool o r pool ≡ passed r
      → Lacks Verdict.critical pool × Lacks Verdict.warn pool × (any (clears o) pool ≡ true)
  unfolding judge_pool judge_warned judge_clean
  judge_pool-passed r pool h = elim (Option-cases (find (verdict_of Verdict.critical) pool)) [
    | inr (a, e) ↦ absurd (cc (rw e at h))
    | inl e ↦ elim (Option-cases (find (verdict_of Verdict.warn) pool)) [
      | inr (a, f) ↦ absurd (cc (rw (e, no_warn, f) at h))
      | inl f ↦ (
        Lacks-of_find Verdict.critical pool e,
        Lacks-of_find Verdict.warn pool f,
        ground (arith, rw (e, no_warn, f) at h),
      )
    ]
  ]

  passed-judge_pool :
      (r : Answer) (pool : List Attestation)
      → Lacks Verdict.critical pool
      → Lacks Verdict.warn pool
      → any (clears o) pool ≡ true
      → judge_pool o r pool ≡ passed r
  unfolding judge_pool judge_warned judge_clean
  passed-judge_pool r pool c w h =
      rw (find_of_Lacks Verdict.critical pool c) (clean_pool (find_of_Lacks Verdict.warn pool w))
    where
      clean_pool :
          find (verdict_of Verdict.warn) pool ≡ none → judge_warned o r pool none ≡ passed r
      clean_pool e = simp (no_warn, e, h)

  -- The judgement on what the registry knows.
  judge-passed :
      (now_ms : ℕ) (r : Answer)
      → judge now_ms o r ≡ passed r
      → (r.known ≡ true) × (judge_pool o r (keep (in_scope now_ms o) r.attestors) ≡ passed r)
  unfolding judge
  judge-passed now_ms r h = ground arith

  passed-judge :
      (now_ms : ℕ) (r : Answer)
      → r.known ≡ true
      → 0 < length (keep (in_scope now_ms o) r.attestors)
      → judge_pool o r (keep (in_scope now_ms o) r.attestors) ≡ passed r
      → judge now_ms o r ≡ passed r
  unfolding judge
  passed-judge now_ms r k l h = ground arith

-- In scope: a verdict of a trusted attestor, recent, and on the pinned content.
abbrev pub InScope : ℕ → GateOptions → Answer → Attestation → Type 0
InScope now_ms o r a = (a ∈ r.attestors) × (in_scope now_ms o a ≡ true)

-- The registry knows the tool, some attestor is trusted, and in scope there is a CLEAN verdict and
-- neither a CRITICAL nor a WARN one.
pub record IsCleared (now_ms : ℕ) (o : GateOptions) (r : Answer) : Type 0 where
  pub trusts_some : trusts_none o.attestors ≡ false
  pub is_known : r.known ≡ true
  pub clean : (a : Attestation) × (InScope now_ms o r a) × (a.verdict ≡ some Verdict.clean)
  pub no_critical : (a : Attestation) → InScope now_ms o r a → ¬ (a.verdict ≡ some Verdict.critical)
  pub no_warn : (a : Attestation) → InScope now_ms o r a → ¬ (a.verdict ≡ some Verdict.warn)

-- With neither WARN nor UNKNOWN allowed, the decision on an answer is to pass it exactly when it is
-- cleared.
pub decide_gate-passed_iff :
    (now_ms : ℕ) (o : GateOptions) (r : Answer)
    → o.allow_warn ≡ false
    → o.allow_unknown ≡ false
    → (decide_gate now_ms o r ≡ passed r) ↔ IsCleared now_ms o r
unfolding decide_gate
decide_gate-passed_iff now_ms o r nw nu = (forth, back)
  where
    pool : List Attestation
    pool = keep (in_scope now_ms o) r.attestors

    forth : decide_gate now_ms o r ≡ passed r → IsCleared now_ms o r
    forth h =
        let judged : judge now_ms o r ≡ passed r = ground arith in
        let (k, p) = judge-passed o nw nu now_ms r judged in
        let (c, w, y) = judge_pool-passed o nw nu r pool p in
        let (a, m, e) = has_clean o nw nu pool y in
        record {
          trusts_some = ground arith;
          is_known = k;
          clean = (a, mem_of_keep (in_scope now_ms o) r.attestors a m, e);
          no_critical = λ b s. c b (keep-mem (in_scope now_ms o) r.attestors b s.0 s.1);
          no_warn = λ b s. w b (keep-mem (in_scope now_ms o) r.attestors b s.0 s.1);
        }

    back : IsCleared now_ms o r → decide_gate now_ms o r ≡ passed r
    back g =
        let (a, s, e) = g.clean in
        let m : a ∈ pool = keep-mem (in_scope now_ms o) r.attestors a s.0 s.1 in
        let p : judge_pool o r pool ≡ passed r =
          passed-judge_pool o nw nu r pool
            (λ b i. g.no_critical b (mem_of_keep (in_scope now_ms o) r.attestors b i))
            (λ b i. g.no_warn b (mem_of_keep (in_scope now_ms o) r.attestors b i))
            (clean_has o nw nu pool a m e) in
        rw (g.trusts_some) (passed-judge o nw nu now_ms r g.is_known (length_pos_of_mem pool a m) p)
