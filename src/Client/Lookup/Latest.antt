-- ===== src/Client/Lookup/Latest.antt =====
-- client/index.js:133-136: the rows that `lookup` keeps.
use monadguard.Base.{
  ◌≡◌, refl, Bool, true, false, Bool-cases, inl, inr, List, [], ◌∷◌, All, All-map, Text, text_eq,
  text_eq_iff, any, find, arith,
}
use monadguard.Client.Lookup.{IndexedScan, latest_rows}

abbrev by_attestor : Text → IndexedScan → Bool
by_attestor x s = text_eq s.attestor_id x

any_seen :
    (a x : Text) (seen : List Text)
    → text_eq a x ≡ true
    → any (text_eq x) seen ≡ any (text_eq a) seen
any_seen a x seen h = rw ((text_eq_iff a x).0 h)

latest_rows-find_seen :
    (x : Text) (rows : List IndexedScan) (seen : List Text)
    → any (text_eq x) seen ≡ false
    → find (by_attestor x) (latest_rows seen rows) ≡ find (by_attestor x) rows
unfolding latest_rows find any
latest_rows-find_seen x [] seen h = refl
latest_rows-find_seen x (s ∷ ss) seen h = elim (Bool-cases (any (text_eq s.attestor_id) seen)) [
  | inl e ↦ elim (Bool-cases (text_eq s.attestor_id x)) [
    | inl q ↦ absurd (cc (any_seen s.attestor_id x seen q))
    | inr q ↦ rw (e, q) (latest_rows-find_seen x ss seen h)
  ]
  | inr e ↦ elim (Bool-cases (text_eq s.attestor_id x)) [
    | inl q ↦ rw (e, q)
    | inr q ↦ rw (e, q) (latest_rows-find_seen x ss (s.attestor_id ∷ seen) (unseen q))
  ]
]
  where
    unseen : text_eq s.attestor_id x ≡ false → any (text_eq x) (s.attestor_id ∷ seen) ≡ false
    unseen q = ground (arith, text_eq_iff s.attestor_id x, text_eq_iff x s.attestor_id)

-- No row of the list is of an attestor of a row above it.
abbrev pub IsDistinct : List IndexedScan → Type 0
IsDistinct [] = Unit {0}
IsDistinct (s ∷ ss) = All (λ t. text_eq t.attestor_id s.attestor_id ≡ false) ss × IsDistinct ss

latest_rows-unseen :
    (rows : List IndexedScan) (seen : List Text)
    → All (λ t. any (text_eq t.attestor_id) seen ≡ false) (latest_rows seen rows)
unfolding latest_rows any
latest_rows-unseen [] seen = tt
latest_rows-unseen (s ∷ ss) seen = elim (Bool-cases (any (text_eq s.attestor_id) seen)) [
  | inl e ↦ rw e (latest_rows-unseen ss seen)
  | inr e ↦ rw e (
    e,
    All-map
        (λ (t : IndexedScan) (h : any (text_eq t.attestor_id) (s.attestor_id ∷ seen) ≡ false).
          ground arith)
        _ (latest_rows-unseen ss (s.attestor_id ∷ seen)),
  )
]

latest_rows-IsDistinct_seen :
    (rows : List IndexedScan) (seen : List Text) → IsDistinct (latest_rows seen rows)
unfolding latest_rows any
latest_rows-IsDistinct_seen [] seen = tt
latest_rows-IsDistinct_seen (s ∷ ss) seen = elim (Bool-cases (any (text_eq s.attestor_id) seen)) [
  | inl e ↦ rw e (latest_rows-IsDistinct_seen ss seen)
  | inr e ↦ rw e (
    All-map
        (λ (t : IndexedScan) (h : any (text_eq t.attestor_id) (s.attestor_id ∷ seen) ≡ false).
          ground arith)
        _ (latest_rows-unseen ss (s.attestor_id ∷ seen)),
    latest_rows-IsDistinct_seen ss (s.attestor_id ∷ seen),
  )
]

-- Of the rows of the index, the client keeps for each attestor the first one, and one only.
pub latest_rows-latest :
    (rows : List IndexedScan)
    → ((x : Text)
        → find (λ s. text_eq s.attestor_id x) (latest_rows [] rows)
          ≡ find (λ s. text_eq s.attestor_id x) rows)
      × IsDistinct (latest_rows [] rows)
unfolding any
latest_rows-latest rows =
    (λ x. latest_rows-find_seen x rows [] refl, latest_rows-IsDistinct_seen rows [])
