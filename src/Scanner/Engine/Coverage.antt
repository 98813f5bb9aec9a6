-- ===== src/Scanner/Engine/Coverage.antt =====
-- server/scanner/engine.js:46-52: which findings `scan` reports.
use monadguard.Base.{
  ℕ, zero, suc, ◌+◌, ◌<◌, ◌≡◌, refl, inl, inr, none, some, Option-cases, List, [], ◌∷◌, ◌∈◌, arith,
  get_elem?, take, lit, split, Text,
}
use monadguard.Scanner.Regex.{Exec}
use monadguard.Scanner.Rules.{Rule, rules}
use monadguard.Scanner.Finding.{Finding}
use monadguard.Scanner.Finding.Sorting.{mem-sort_by_sev, mem_of_sort_by_sev}
use monadguard.Scanner.Engine.{first_hit, cons_hit, hits, conclude, scan}

module _ (exec : Exec) where
  -- The rule matches line `i` (counted from 0) with the text `m`, and no line above it.
  pub record IsFirstMatch (r : Rule) (lines : List Text) (i : ℕ) (m : Text) : Type 0 where
    pub here : (l : Text) × (get_elem? lines i ≡ some l) × (exec r.re l ≡ some m)
    pub above : (j : ℕ) (l : Text) → j < i → get_elem? lines j ≡ some l → exec r.re l ≡ none

  -- The finding that such a match gives.
  abbrev pub reported : Rule → ℕ → Text → Finding
  reported r i m = record {
    id = r.id;
    sev = r.sev;
    cat = r.cat;
    desc = lit r.desc;
    line = some (suc i);
    field = none;
    matched = take 100 m;
  }

  IsFirstMatch-zero :
      (r : Rule) (l m : Text) (ls : List Text) → exec r.re l ≡ some m → IsFirstMatch r (l ∷ ls) 0 m
  IsFirstMatch-zero r l m ls e = record {
    here = (l, refl, e);
    above = λ j k lt. absurd (omega arith);
  }

  IsFirstMatch-suc :
      (r : Rule) (l m : Text) (ls : List Text) (i : ℕ)
      → exec r.re l ≡ none
      → IsFirstMatch r ls i m
      → IsFirstMatch r (l ∷ ls) (suc i) m
  IsFirstMatch-suc r l m ls i e h = record { here = h.here; above = above }
    where
      above : (j : ℕ) (k : Text) → j < suc i → get_elem? (l ∷ ls) j ≡ some k → exec r.re k ≡ none
      above zero k lt q = ground arith
      above (suc j) k lt q = h.above j k (omega arith) q

  first_hit-some :
      (r : Rule) (n : ℕ) (lines : List Text) (f : Finding)
      → first_hit exec r n lines ≡ some f
      → (i : ℕ) × (m : Text) × IsFirstMatch r lines i m × (f ≡ reported r (n + i) m)
  unfolding first_hit
  first_hit-some r n [] f h = absurd (cc)
  first_hit-some r n (l ∷ ls) f h = elim (Option-cases (exec r.re l)) [
    | inl e ↦
        let (i, m, w, q) = first_hit-some r (suc n) ls f (rw (e, first_hit) at h) in
        (suc i, m, IsFirstMatch-suc r l m ls i e w, ground (arith, q))
    | inr (m, e) ↦ (0, m, IsFirstMatch-zero r l m ls e, ground arith)
  ]

  first_hit-none :
      (r : Rule) (n : ℕ) (lines : List Text)
      → first_hit exec r n lines ≡ none
      → (l : Text) → l ∈ lines
      → exec r.re l ≡ none
  unfolding first_hit
  first_hit-none r n [] h l m = absurd m
  first_hit-none r n (k ∷ ks) h l m = elim (Option-cases (exec r.re k)) [
    | inl e ↦ elim m [
      | inl q ↦ rw q e
      | inr q ↦ first_hit-none r (suc n) ks (rw (e, first_hit) at h) l q
    ]
    | inr (t, e) ↦ absurd (ground arith)
  ]

  hits_sound :
      (rs : List Rule) (lines : List Text) (f : Finding)
      → f ∈ hits exec rs lines
      → (r : Rule) × (i : ℕ) × (m : Text) × (r ∈ rs)
        × IsFirstMatch r lines i m
        × (f ≡ reported r i m)
  unfolding hits cons_hit
  hits_sound [] lines f h = absurd h
  hits_sound (r ∷ rs) lines f h = elim (Option-cases (first_hit exec r 0 lines)) [
    | inl e ↦ later (hits_sound rs lines f (rw e at h))
    | inr (g, e) ↦ elim (rw e at h) [
      | inl q ↦
          let (i, m, w, p) = first_hit-some r 0 lines g e in
          (r, i, m, inl refl, w, ground (arith, q, p))
      | inr q ↦ later (hits_sound rs lines f q)
    ]
  ]
    where
      later :
          (s : Rule) × (i : ℕ) × (m : Text) × (s ∈ rs)
            × IsFirstMatch s lines i m
            × (f ≡ reported s i m)
          → (s : Rule) × (i : ℕ) × (m : Text) × (s ∈ (r ∷ rs))
            × IsFirstMatch s lines i m
            × (f ≡ reported s i m)
      later (s, i, m, k, w, p) = (s, i, m, inr k, w, p)

  hits_complete :
      (rs : List Rule) (lines : List Text) (r : Rule) (l m : Text)
      → r ∈ rs
      → l ∈ lines
      → exec r.re l ≡ some m
      → (f : Finding) × (f ∈ hits exec rs lines) × (f.id ≡ r.id)
  unfolding hits cons_hit
  hits_complete [] lines r l m k p e = absurd k
  hits_complete (s ∷ rs) lines r l m (inl q) p e = elim (Option-cases (first_hit exec s 0 lines)) [
    | inl z ↦ absurd (cc (first_hit-none s 0 lines z l p, q))
    | inr (g, z) ↦
        let (i, t, w, y) = first_hit-some s 0 lines g z in
        (g, rw z (inl refl), ground (arith, y, q))
  ]
  hits_complete (s ∷ rs) lines r l m (inr k) p e =
      let (f, i, y) = hits_complete rs lines r l m k p e in
      elim (Option-cases (first_hit exec s 0 lines)) [
        | inl z ↦ (f, rw z i, y)
        | inr (g, z) ↦ (f, rw z (inr i), y)
      ]

  -- Every finding of the engine is that of a rule of the table at the first line that the rule
  -- matches.
  pub scan_sound :
      (text : Text) (f : Finding)
      → f ∈ (scan exec text).findings
      → (r : Rule) × (i : ℕ) × (m : Text) × (r ∈ rules)
        × IsFirstMatch r (split 10 text) i m
        × (f ≡ reported r i m)
  unfolding scan conclude
  scan_sound text f h = hits_sound rules (split 10 text) f (mem_of_sort_by_sev f _ h)

  -- A rule of the table that matches some line of the text is reported by the engine.
  pub scan_complete :
      (text : Text) (r : Rule) (l m : Text)
      → r ∈ rules
      → l ∈ split 10 text
      → exec r.re l ≡ some m
      → (f : Finding) × (f ∈ (scan exec text).findings) × (f.id ≡ r.id)
  unfolding scan conclude
  scan_complete text r l m k p e =
      let (f, i, y) = hits_complete rules (split 10 text) r l m k p e in
      (f, mem-sort_by_sev f _ i, y)
