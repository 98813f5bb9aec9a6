-- ===== src/Operator/Guard.antt =====
-- What scripts/survey.mjs and scripts/anchor-capture.mjs anchor.
use mathlib.Core.Option.{some-injective}
use monadguard.Base.{
  ℕ, ◌==◌, Bool, true, false, not, ◌&&◌, ◌||◌, Option, none, some, List, [], ◌∷◌, Text, lit,
  text_eq_sound, All, ◌≡◌, refl, ap, Bool-cases, Option-cases, inl, inr, arith, if◌then◌else◌,
  truthy,
}
use monadguard.Receipt.{flagged}
use monadguard.Identity.{tool_id, content_hash}
use monadguard.Operator.{
  Latest, Scanned, Anchored, Health, has, same_content, preflight, agrees, is_text, survey_verdict,
}
use monadguard.Operator.Survey.{
  Row, Captured, Api, Done, skipped, already, failed, posted, anchor_row, anchor_rows, after_scan,
  anchor_done, cons_done, same_verdict, survey, entry_of,
}
use monadguard.Operator.Capture
use monadguard.Operator.Capture.{
  Capture, CaptureApi, Exit, name_of, origin_of, anchor_named, anchor_capture,
}

-- The scan of the API is that of this checkout: its ruleset, verdict and score.
abbrev pub IsAgreed : (rules : Text) (verdict score : ℕ) → Scanned → Type 0
IsAgreed rules verdict score s = (s.rules ≡ some rules) × (s.verdict ≡ verdict) × (s.score ≡ score)

is_text_sound : (o : Option Text) (t : Text) → is_text o t ≡ true → o ≡ some t
unfolding is_text
is_text_sound none t h = absurd (cc)
is_text_sound (some s) t h = ap some (text_eq_sound s t h)

agrees-IsAgreed :
    (s : Scanned) (rules : Text) (verdict score : ℕ)
    → agrees s rules verdict score ≡ true
    → IsAgreed rules verdict score s
unfolding agrees
agrees-IsAgreed s rules verdict score h =
    (ground (arith, is_text_sound s.rules rules), ground arith, ground arith)

-- What is posted for a row agrees with it, and is CRITICAL only if a person reviewed the package.
abbrev pub IsMeant : (rules : Text) (reviewed : List Text) → Row → Done → Type 0
IsMeant rules reviewed r (posted s ok) =
    IsAgreed rules r.verdict r.score s × (r.verdict ≡ flagged → has reviewed r.pkg ≡ true)
IsMeant rules reviewed r skipped = Unit
IsMeant rules reviewed r already = Unit
IsMeant rules reviewed r failed = Unit

module _ (api : Api) (rules : Text) where
  anchor_done-IsMeant :
      (reviewed : List Text) (r : Row) (s : Scanned) (o : Option Anchored)
      → IsAgreed rules r.verdict r.score s
      → (r.verdict ≡ flagged → has reviewed r.pkg ≡ true)
      → IsMeant rules reviewed r (anchor_done api rules s o)
  unfolding anchor_done
  anchor_done-IsMeant reviewed r s none h k = (h, k)
  anchor_done-IsMeant reviewed r s (some a) h k = (h, k)

  after_scan-IsMeant :
      (reviewed : List Text) (r : Row) (o : Option Scanned)
      → (r.verdict ≡ flagged → has reviewed r.pkg ≡ true)
      → IsMeant rules reviewed r (after_scan api rules r o)
  unfolding after_scan
  after_scan-IsMeant reviewed r none k = tt
  after_scan-IsMeant reviewed r (some s) k = elim (Bool-cases (agrees s rules r.verdict r.score)) [
    | inr e ↦ rw e tt
    | inl e ↦ rw e (
        anchor_done-IsMeant reviewed r s (api.anchor s.hash)
          (agrees-IsAgreed s rules r.verdict r.score e) k)
  ]

  abbrev is_done : Option Latest → Row → Bool
  is_done latest r = same_content latest r.content_hash && same_verdict api rules latest r

  anchor_row-IsMeant :
      (reviewed : List Text) (files : List Captured) (r : Row) (d : Done)
      → anchor_row api rules reviewed files r ≡ some d
      → IsMeant rules reviewed r d
  unfolding anchor_row
  anchor_row-IsMeant reviewed files r d h =
      elim (Bool-cases (r.verdict == flagged && not (has reviewed r.pkg))) [
        | inl e ↦ rw (← some-injective _ _ (rw e at h)) tt
        | inr e ↦ elim (Option-cases (entry_of files r)) [
          | inl n ↦ absurd (cc (rw (e, n) at h))
          | inr (c, n) ↦ elim (Bool-cases (is_done (api.latest r.tool_id) r)) [
            | inl b ↦ rw (← some-injective _ _ (rw (e, n, b) at h)) tt
            | inr b ↦
                rw (← some-injective _ _ (rw (e, n, b) at h))
                  (after_scan-IsMeant reviewed r _ (λ v. ground arith))
          ]
        ]
      ]

  anchor_rows-IsMeant :
      (reviewed : List Text) (files : List Captured) (rows : List Row)
      → All (λ p. IsMeant rules reviewed p.0 p.1) (anchor_rows api rules reviewed files rows).0
  unfolding anchor_rows cons_done
  anchor_rows-IsMeant reviewed files [] = tt
  anchor_rows-IsMeant reviewed files (r ∷ rs) =
      elim (Option-cases (anchor_row api rules reviewed files r)) [
        | inl e ↦ rw e tt
        | inr (d, e) ↦
            rw e (anchor_row-IsMeant reviewed files r d e, anchor_rows-IsMeant reviewed files rs)
      ]

  -- Every hash that the survey posts to the anchor belongs to a scan with the ruleset of this
  -- checkout and with the verdict and the score of the row of the report, and the row is CRITICAL
  -- only if its package is on the list of reviewed ones; without --anchor, or where the API is away
  -- or has another ruleset, nothing is posted.
  pub survey-IsMeant :
      (anchor : Bool) (health : Health) (reviewed : List Text) (files : List Captured)
      (rows : List Row)
      → All
          (λ p. IsMeant rules reviewed p.0 p.1)
          (survey api rules anchor health reviewed files rows).0
        × ((anchor && preflight health rules) ≡ false
            → survey api rules anchor health reviewed files rows ≡ ([], if anchor then 1 else 0))
  unfolding survey
  survey-IsMeant false health reviewed files rows = (tt, λ h. refl)
  survey-IsMeant true health reviewed files rows = elim (Bool-cases (preflight health rules)) [
    | inl e ↦ rw e (anchor_rows-IsMeant reviewed files rows, λ h. absurd (cc))
    | inr e ↦ rw e (tt, λ h. refl)
  ]

-- What anchor-capture posts, with the capture that it was given.
abbrev pub IsMeantCapture :
    (rules : Text) (health : Health) (reviewed : List Text) → Option Capture → Scanned → Type 0
IsMeantCapture rules health reviewed none s = ⊥
IsMeantCapture rules health reviewed (some c) s =
    IsAgreed rules (survey_verdict c.result.level) c.result.score s
    × (preflight health rules ≡ true)
    × ((name : Text) × (origin : Text) × (name_of c ≡ some name)
        × (origin_of c ≡ some origin)
        × (survey_verdict c.result.level ≡ flagged
            → (has reviewed origin || has reviewed name) ≡ true))

module _ (keccak : Text → Text) (rules : Text) (api : CaptureApi) where
  after_anchor-posted :
      (s t : Scanned) (o : Option Anchored)
      → (Capture.after_anchor keccak rules api s o).posted ≡ some t
      → s ≡ t
  unfolding Capture.after_anchor
  after_anchor-posted s t none h = some-injective _ _ h
  after_anchor-posted s t (some a) h = some-injective _ _ h

  after_scan-posted :
      (verdict score : ℕ) (o : Option Scanned) (s : Scanned)
      → (Capture.after_scan keccak rules api verdict score o).posted ≡ some s
      → IsAgreed rules verdict score s
  unfolding Capture.after_scan
  after_scan-posted verdict score none s h = absurd (cc)
  after_scan-posted verdict score (some t) s h = elim (Bool-cases (agrees t rules verdict score)) [
    | inr e ↦ absurd (cc (rw e at h))
    | inl e ↦
        rw (← after_anchor-posted t s (api.anchor t.hash) (rw e at h))
          (agrees-IsAgreed t rules verdict score e)
  ]

  abbrev is_unreviewed : List Text → (name origin : Text) → ℕ → Bool
  is_unreviewed reviewed name origin verdict =
      verdict == flagged && (not (has reviewed origin) && not (has reviewed name))

  abbrev is_stored : Capture → (name origin : Text) → ℕ → Bool
  is_stored c name origin verdict =
      let latest = api.latest (tool_id keccak (lit "mcp") name origin) in
      same_content latest (content_hash keccak c.json)
      && Capture.same_verdict keccak rules api latest verdict

  anchor_named-posted :
      (reviewed : List Text) (c : Capture) (name origin : Text) (verdict : ℕ) (s : Scanned)
      → (anchor_named keccak rules api reviewed c name origin verdict).posted ≡ some s
      → IsAgreed rules verdict c.result.score s
        × (preflight api.health rules ≡ true)
        × (verdict ≡ flagged → (has reviewed origin || has reviewed name) ≡ true)
  unfolding anchor_named
  anchor_named-posted reviewed c name origin verdict s h =
      elim (Bool-cases (is_unreviewed reviewed name origin verdict)) [
        | inl e ↦ absurd (cc (rw e at h))
        | inr e ↦ elim (Bool-cases (preflight api.health rules)) [
          | inr p ↦ absurd (cc (rw (e, p) at h))
          | inl p ↦ elim (Bool-cases (is_stored c name origin verdict)) [
            | inl b ↦ absurd (cc (rw (e, p, b) at h))
            | inr b ↦ (
              after_scan-posted verdict c.result.score (api.scan name origin) s (rw (e, p, b) at h),
              p,
              λ v. ground arith,
            )
          ]
        ]
      ]

  anchor_from-posted :
      (anchor : Bool) (reviewed : List Text) (c : Capture) (n o : Option Text) (s : Scanned)
      → (Capture.anchor_from keccak rules api anchor reviewed c n o).posted ≡ some s
      → (anchor ≡ true)
        × IsAgreed rules (survey_verdict c.result.level) c.result.score s
        × (preflight api.health rules ≡ true)
        × ((name : Text) × (origin : Text) × (n ≡ some name)
            × (o ≡ some origin)
            × (survey_verdict c.result.level ≡ flagged
                → (has reviewed origin || has reviewed name) ≡ true))
  unfolding Capture.anchor_from
  anchor_from-posted anchor reviewed c n none s h = absurd (cc)
  anchor_from-posted anchor reviewed c none (some origin) s h = absurd (cc)
  anchor_from-posted anchor reviewed c (some name) (some origin) s h =
      elim (Bool-cases (truthy origin)) [
        | inr t ↦ absurd (cc (rw t at h))
        | inl t ↦ elim (Bool-cases anchor) [
          | inr a ↦ absurd (cc (rw (t, a) at h))
          | inl a ↦
              let (agreed, ready, read) =
                anchor_named-posted reviewed c name origin (survey_verdict c.result.level) s
                  (rw (t, a) at h) in
              (a, agreed, ready, (name, origin, refl, refl, read))
        ]
      ]

  -- anchor-capture posts a hash to the anchor only with --anchor, for a capture with an origin, to
  -- an API with the ruleset of this checkout, and if the scan has that ruleset and the verdict and
  -- the score found here, and CRITICAL only if the origin or the name is on the list of reviewed
  -- ones.
  pub anchor_capture-IsMeant :
      (anchor : Bool) (reviewed : List Text) (o : Option Capture) (s : Scanned)
      → (anchor_capture keccak rules api anchor reviewed o).posted ≡ some s
      → (anchor ≡ true) × IsMeantCapture rules api.health reviewed o s
  unfolding anchor_capture
  anchor_capture-IsMeant anchor reviewed none s h = absurd (cc)
  anchor_capture-IsMeant anchor reviewed (some c) s h =
      let (a, agreed, ready, read) =
        anchor_from-posted anchor reviewed c (name_of c) (origin_of c) s h in
      (a, (agreed, ready, read))
