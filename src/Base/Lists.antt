-- ===== src/Base/Lists.antt =====
-- Lists measured by native numbers, and the array methods that the program calls.
use Prim.Native.Nat.{ℕ, zero, suc, ◌+◌, ◌≤◌, ◌<◌, min}
use mathlib.Core.Path.{◌≡◌, refl, ap}
use mathlib.Core.Logic.{◌⊎◌, inl, inr}
use mathlib.Core.Bool.{Bool, true, false, ◌&&◌, ◌||◌}
use mathlib.Core.List.{List, [], ◌∷◌, ◌++◌, map}
use mathlib.Core.Option.{Option, none, some}
use native.Mathlib.Omega.{arith}
use monadguard.Base.Tests.{if◌then◌else◌, Bool-cases}

module _ {ℓ} {A : Type ℓ} where
  abbrev pub length : List A → ℕ
  length [] = 0
  length (x ∷ xs) = suc (length xs)

  abbrev pub get_elem? : List A → ℕ → Option A
  get_elem? [] i = none
  get_elem? (x ∷ xs) zero = some x
  get_elem? (x ∷ xs) (suc i) = get_elem? xs i

  -- `xs.slice(0, n)`
  abbrev pub take : ℕ → List A → List A
  take zero xs = []
  take (suc n) [] = []
  take (suc n) (x ∷ xs) = x ∷ take n xs

  abbrev pub drop : ℕ → List A → List A
  drop zero xs = xs
  drop (suc n) [] = []
  drop (suc n) (x ∷ xs) = drop n xs

  abbrev pub replicate : ℕ → A → List A
  replicate zero a = []
  replicate (suc n) a = a ∷ replicate n a

  -- `xs.filter(p)`, `xs.some(p)`, `xs.every(p)`, `xs.find(p)`
  unfoldable pub keep : (A → Bool) → List A → List A
  keep p [] = []
  keep p (x ∷ xs) = if p x then x ∷ keep p xs else keep p xs

  unfoldable pub any : (A → Bool) → List A → Bool
  any p [] = false
  any p (x ∷ xs) = p x || any p xs

  unfoldable pub every : (A → Bool) → List A → Bool
  every p [] = true
  every p (x ∷ xs) = p x && every p xs

  unfoldable pub find : (A → Bool) → List A → Option A
  find p [] = none
  find p (x ∷ xs) = if p x then some x else find p xs

  pub length-append : (xs ys : List A) → length (xs ++ ys) ≡ length xs + length ys
  length-append [] ys = omega arith
  length-append (x ∷ xs) ys = omega (arith, length-append xs ys)

  pub length-take : (n : ℕ) (xs : List A) → length (take n xs) ≡ min n (length xs)
  length-take zero xs = omega arith
  length-take (suc n) [] = omega arith
  length-take (suc n) (x ∷ xs) = omega (arith, length-take n xs)

  pub length-replicate : (n : ℕ) (a : A) → length (replicate n a) ≡ n
  length-replicate zero a = refl
  length-replicate (suc n) a = ap suc (length-replicate n a)

module _ {ℓ κ} {A : Type ℓ} {B : Type κ} where
  pub length-map : (f : A → B) (xs : List A) → length (map f xs) ≡ length xs
  length-map f [] = refl
  length-map f (x ∷ xs) = ap suc (length-map f xs)

-- Membership and predicates over a list, by recursion, so that they compute to sums and tuples.
module _ {A : Type 0} where
  infix 4 ◌∈◌
  abbrev pub ◌∈◌ : A → List A → Type 0
  a ∈ [] = ⊥
  a ∈ (x ∷ xs) = (a ≡ x) ⊎ (a ∈ xs)

  abbrev pub All : (A → Type 0) → List A → Type 0
  All P [] = Unit
  All P (x ∷ xs) = P x × All P xs

  pub All-map : {P Q : A → Type 0} (f : (a : A) → P a → Q a) (xs : List A) → All P xs → All Q xs
  All-map f [] h = tt
  All-map f (x ∷ xs) h = (f x h.0, All-map f xs h.1)

  pub All-take : (P : A → Type 0) (n : ℕ) (xs : List A) → All P xs → All P (take n xs)
  All-take P zero xs h = tt
  All-take P (suc n) [] h = tt
  All-take P (suc n) (x ∷ xs) h = (h.0, All-take P n xs h.1)

  pub All-append : (P : A → Type 0) (xs ys : List A) → All P xs → All P ys → All P (xs ++ ys)
  All-append P [] ys h k = k
  All-append P (x ∷ xs) ys h k = (h.0, All-append P xs ys h.1 k)

  pub All-mem : (P : A → Type 0) (xs : List A) (a : A) → All P xs → a ∈ xs → P a
  All-mem P [] a h m = absurd m
  All-mem P (x ∷ xs) a h m = elim m [ inl e ↦ rw e h.0 | inr r ↦ All-mem P xs a h.1 r ]

  pub All-of_mem : (P : A → Type 0) (xs : List A) → ((a : A) → a ∈ xs → P a) → All P xs
  All-of_mem P [] f = tt
  All-of_mem P (x ∷ xs) f = (f x (inl refl), All-of_mem P xs (λ a m. f a (inr m)))

  pub mem-append_left : (xs ys : List A) (a : A) → a ∈ xs → a ∈ (xs ++ ys)
  mem-append_left [] ys a m = absurd m
  mem-append_left (x ∷ xs) ys a (inl e) = inl e
  mem-append_left (x ∷ xs) ys a (inr r) = inr (mem-append_left xs ys a r)

  pub mem-append_right : (xs ys : List A) (a : A) → a ∈ ys → a ∈ (xs ++ ys)
  mem-append_right [] ys a m = m
  mem-append_right (x ∷ xs) ys a m = inr (mem-append_right xs ys a m)

  pub mem_of_append : (xs ys : List A) (a : A) → a ∈ (xs ++ ys) → (a ∈ xs) ⊎ (a ∈ ys)
  mem_of_append [] ys a m = inr m
  mem_of_append (x ∷ xs) ys a (inl e) = inl (inl e)
  mem_of_append (x ∷ xs) ys a (inr r) = elim (mem_of_append xs ys a r) [
    | inl k ↦ inl (inr k)
    | inr k ↦ inr k
  ]

  pub length_pos_of_mem : (xs : List A) (a : A) → a ∈ xs → 0 < length xs
  length_pos_of_mem [] a m = absurd m
  length_pos_of_mem (x ∷ xs) a m = omega arith

  pub mem_of_length_pos : (xs : List A) → 0 < length xs → (a : A) × (a ∈ xs)
  mem_of_length_pos [] h = absurd (omega arith)
  mem_of_length_pos (x ∷ xs) h = (x, inl refl)

  -- What `keep` keeps passed the test.
  pub keep-All : (p : A → Bool) (xs : List A) → All (λ x. p x ≡ true) (keep p xs)
  unfolding keep
  keep-All p [] = tt
  keep-All p (x ∷ xs) = elim (Bool-cases (p x)) [
    | inl e ↦ rw e (e, keep-All p xs)
    | inr e ↦ rw e (keep-All p xs)
  ]

  pub All-keep : (P : A → Type 0) (p : A → Bool) (xs : List A) → All P xs → All P (keep p xs)
  unfolding keep
  All-keep P p [] h = tt
  All-keep P p (x ∷ xs) h = elim (Bool-cases (p x)) [
    | inl e ↦ rw e (h.0, All-keep P p xs h.1)
    | inr e ↦ rw e (All-keep P p xs h.1)
  ]

  pub keep-mem : (p : A → Bool) (xs : List A) (a : A) → a ∈ xs → p a ≡ true → a ∈ keep p xs
  unfolding keep
  keep-mem p [] a m h = m
  keep-mem p (x ∷ xs) a (inl e) h = rw (← e, h) (inl refl)
  keep-mem p (x ∷ xs) a (inr r) h = elim (Bool-cases (p x)) [
    | inl q ↦ rw q (inr (keep-mem p xs a r h))
    | inr q ↦ rw q (keep-mem p xs a r h)
  ]

  pub mem_of_keep : (p : A → Bool) (xs : List A) (a : A) → a ∈ keep p xs → (a ∈ xs) × (p a ≡ true)
  unfolding keep
  mem_of_keep p [] a m = absurd m
  mem_of_keep p (x ∷ xs) a m = elim (Bool-cases (p x)) [
    | inl q ↦ elim (rw q at m) [
      | inl e ↦ (inl e, rw e q)
      | inr r ↦ let (i, t) = mem_of_keep p xs a r in (inr i, t)
    ]
    | inr q ↦ let (i, t) = mem_of_keep p xs a (rw q at m) in (inr i, t)
  ]

  pub length-keep-le : (p : A → Bool) (xs : List A) → length (keep p xs) ≤ length xs
  unfolding keep
  length-keep-le p [] = omega arith
  length-keep-le p (x ∷ xs) = ground (arith, length-keep-le p xs)

  -- `any` finds a witness, and none is overlooked.
  pub any-mem : (p : A → Bool) (xs : List A) → any p xs ≡ true → (a : A) × (a ∈ xs) × (p a ≡ true)
  unfolding any
  any-mem p [] h = absurd (cc)
  any-mem p (x ∷ xs) h = elim (Bool-cases (p x)) [
    | inl e ↦ (x, inl refl, e)
    | inr e ↦ let (a, m, q) = any-mem p xs (rw e at h) in (a, inr m, q)
  ]

  pub mem-any : (p : A → Bool) (xs : List A) (a : A) → a ∈ xs → p a ≡ true → any p xs ≡ true
  unfolding any
  mem-any p [] a m h = absurd m
  mem-any p (x ∷ xs) a (inl e) h = rw (← e, h)
  mem-any p (x ∷ xs) a (inr r) h = ground (arith, mem-any p xs a r h)

  pub any-false : (p : A → Bool) (xs : List A) → any p xs ≡ false → All (λ x. p x ≡ false) xs
  unfolding any
  any-false p [] h = tt
  any-false p (x ∷ xs) h = elim (Bool-cases (p x)) [
    | inl e ↦ absurd (ground arith)
    | inr e ↦ (e, any-false p xs (rw e at h))
  ]

  pub find-some :
      (p : A → Bool) (xs : List A) (a : A) → find p xs ≡ some a → (a ∈ xs) × (p a ≡ true)
  unfolding find
  find-some p [] a h = absurd (cc)
  find-some p (x ∷ xs) a h = elim (Bool-cases (p x)) [
    | inl e ↦ (inl (ground arith), ground arith)
    | inr e ↦ let (m, q) = find-some p xs a (rw e at h) in (inr m, q)
  ]

  pub find-none : (p : A → Bool) (xs : List A) → find p xs ≡ none → All (λ x. p x ≡ false) xs
  unfolding find
  find-none p [] h = tt
  find-none p (x ∷ xs) h = elim (Bool-cases (p x)) [
    | inl e ↦ absurd (ground arith)
    | inr e ↦ (e, find-none p xs (rw e at h))
  ]
