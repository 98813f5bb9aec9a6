-- ===== src/Scanner/Mcp/Levenshtein/Edits.antt =====
-- Scripts of edits, and the shortest of them.
use monadguard.Base.{
  ℕ, suc, ◌+◌, ◌≤◌, ◌≡◌, sym, subst, min, [], ◌∷◌, Text, ◌==◌, length, arith, Bool-cases, inl, inr,
  ==_iff, ◌⊎◌,
}
use monadguard.Scanner.Mcp.Levenshtein.{levenshtein}
use monadguard.Scanner.Mcp.Levenshtein.Reference.{distance, levenshtein-distance}
use mathlib.Core.List.{reverse_aux, reverse_aux-reverse_aux-nil}

-- `n` edits of one letter each turn the first text into the second.
pub data Edits : ℕ → Text → Text → Type 0 where
  done : Edits 0 [] []
  keep : (c : ℕ) {n : ℕ} {s t : Text} → Edits n s t → Edits n (c ∷ s) (c ∷ t)
  replace : (c d : ℕ) {n : ℕ} {s t : Text} → Edits n s t → Edits (suc n) (c ∷ s) (d ∷ t)
  insert : (d : ℕ) {n : ℕ} {s t : Text} → Edits n s t → Edits (suc n) s (d ∷ t)
  remove : (c : ℕ) {n : ℕ} {s t : Text} → Edits n s t → Edits (suc n) (c ∷ s) t

-- One letter more on a side changes the distance by one at most.
abbrev IsClose : Text → Text → ℕ → ℕ → Type 0
IsClose s t c d =
    (distance (c ∷ s) t ≤ 1 + distance s t)
    × (distance s t ≤ 1 + distance (c ∷ s) t)
    × (distance s (d ∷ t) ≤ 1 + distance s t)
    × (distance s t ≤ 1 + distance s (d ∷ t))

distance-IsClose : (s t : Text) (c d : ℕ) → IsClose s t c d
unfolding distance
distance-IsClose [] [] c d = ground arith
distance-IsClose [] (b ∷ t) c d = let h = distance-IsClose [] t c b in ground arith
distance-IsClose (a ∷ s) [] c d = let h = distance-IsClose s [] a d in ground arith
distance-IsClose (a ∷ s) (b ∷ t) c d =
    let h = distance-IsClose (a ∷ s) t c b in let k = distance-IsClose s (b ∷ t) a d in ground arith

distance-insert : (s t : Text) (d n : ℕ) → distance s t ≤ n → distance s (d ∷ t) ≤ suc n
distance-insert s t d n h = let k = distance-IsClose s t d d in ground arith

distance-remove : (s t : Text) (c n : ℕ) → distance s t ≤ n → distance (c ∷ s) t ≤ suc n
distance-remove s t c n h = let k = distance-IsClose s t c c in ground arith

distance-replace : (s t : Text) (c d n : ℕ) → distance s t ≤ n → distance (c ∷ s) (d ∷ t) ≤ suc n
unfolding distance
distance-replace s t c d n h = ground arith

-- No script is shorter than the distance.
distance-le : {n : ℕ} {s t : Text} → Edits n s t → distance s t ≤ n
unfolding distance
distance-le done = omega arith
distance-le (keep c e) = ground (arith, distance-le e)
distance-le (replace c d {n} {s} {t} e) = distance-replace s t c d n (distance-le e)
distance-le (insert d {n} {s} {t} e) = distance-insert s t d n (distance-le e)
distance-le (remove c {n} {s} {t} e) = distance-remove s t c n (distance-le e)

min_cases : (p q : ℕ) → (min p q ≡ p) ⊎ (min p q ≡ q)
min_cases p q = ground arith

with_length : {n m : ℕ} {s t : Text} → n ≡ m → Edits n s t → Edits m s t
with_length {s} {t} e script = subst (λ k. Edits k s t) e script

inserts : (t : Text) → Edits (length t) [] t
inserts [] = done
inserts (d ∷ t) = insert d (inserts t)

removes : (s : Text) → Edits (length s) s []
removes [] = done
removes (c ∷ s) = remove c (removes s)

shortest :
    {n m k : ℕ} {s t : Text} → Edits n s t → Edits m s t → Edits k s t → Edits (min (min n m) k) s t
shortest {n} {m} {k} x y z = elim (min_cases (min n m) k) [
  | inr e ↦ with_length (sym e) z
  | inl e ↦ elim (min_cases n m) [
    | inl d ↦ with_length (omega (arith, e, d)) x
    | inr d ↦ with_length (omega (arith, e, d)) y
  ]
]

-- The distance is the number of edits of a script.
edits : (s t : Text) → Edits (distance s t) s t
unfolding distance
edits [] t = inserts t
edits (a ∷ s) [] = removes (a ∷ s)
edits (a ∷ s) (b ∷ t) =
    let skip = edits s t in
    let drop = edits s (b ∷ t) in
    let put = edits (a ∷ s) t in
    elim (Bool-cases (a == b)) [
      | inl e ↦
          rw e (subst (λ c. Edits (distance s t) (a ∷ s) (c ∷ t)) ((==_iff a b).0 e) (keep a skip))
      | inr e ↦
          rw e
            (with_length (omega arith) (shortest (remove a drop) (insert b put) (replace a b skip)))
    ]

-- A script of the heads, and then one of what was held back.
reverse_aux-Edits :
    {n m : ℕ} {s t u v : Text}
    → Edits n s t
    → Edits m u v
    → Edits (n + m) (reverse_aux s u) (reverse_aux t v)
reverse_aux-Edits done f = with_length (omega arith) f
reverse_aux-Edits (keep c e) f = reverse_aux-Edits e (keep c f)
reverse_aux-Edits (replace c d e) f =
    with_length (omega arith) (reverse_aux-Edits e (replace c d f))
reverse_aux-Edits (insert d e) f = with_length (omega arith) (reverse_aux-Edits e (insert d f))
reverse_aux-Edits (remove c e) f = with_length (omega arith) (reverse_aux-Edits e (remove c f))

mirrored : {n : ℕ} {s t : Text} → Edits n s t → Edits n (reverse_aux s []) (reverse_aux t [])
mirrored e = with_length (omega arith) (reverse_aux-Edits e done)

reversed_twice : (s : Text) → reverse_aux (reverse_aux s []) [] ≡ s
reversed_twice s = reverse_aux-reverse_aux-nil s []

-- The edit distance of two texts is the number of edits (of one letter each: replace, insert,
-- remove) of some script that turns the one into the other, and no script is shorter.
pub levenshtein-IsShortest :
    (a b : Text) → Edits (levenshtein a b) a b × ((n : ℕ) → Edits n a b → levenshtein a b ≤ n)
levenshtein-IsShortest a b =
    let back = mirrored (edits (reverse_aux a []) (reverse_aux b [])) in
    (
      with_length (sym (levenshtein-distance a b)) (
          subst (λ t. Edits (distance (reverse_aux a []) (reverse_aux b [])) a t) (reversed_twice b)
            (subst
              (λ s.
                Edits (distance (reverse_aux a []) (reverse_aux b [])) s
                  (reverse_aux (reverse_aux b []) []))
              (reversed_twice a) back)),
      λ n script. rw (levenshtein-distance a b) (distance-le (mirrored script)),
    )
