-- ===== src/Base/Sorting.antt =====
-- A stable sort by a test `before x y`, that `x` may stand above `y`: what `Array.prototype.sort` and
-- ORDER BY do with a comparison.
use mathlib.Core.Path.{◌≡◌, refl, ◌∙◌}
use mathlib.Core.Logic.{◌⊎◌, inl, inr}
use mathlib.Core.Bool.{Bool, true, false}
use mathlib.Core.List.{List, [], ◌∷◌}
use native.Mathlib.Omega.{arith}
use monadguard.Base.Tests.{if◌then◌else◌, Bool-cases}
use monadguard.Base.Lists.{length, keep, ◌∈◌, All, All-map, All-mem, All-of_mem}

module _ {A : Type 0} (before : A → A → Bool) where
  unfoldable pub insert_by : A → List A → List A
  insert_by x [] = x ∷ []
  insert_by x (y ∷ ys) = if before x y then x ∷ y ∷ ys else y ∷ insert_by x ys

  unfoldable pub sort_by : List A → List A
  unfolding insert_by
  sort_by [] = []
  sort_by (x ∷ xs) = insert_by x (sort_by xs)

  insert_by-All : (P : A → Type 0) (x : A) (xs : List A) → P x → All P xs → All P (insert_by x xs)
  unfolding insert_by
  insert_by-All P x [] p h = (p, tt)
  insert_by-All P x (y ∷ ys) p h = elim (Bool-cases (before x y)) [
    | inl e ↦ rw e (p, h)
    | inr e ↦ rw e (h.0, insert_by-All P x ys p h.1)
  ]

  -- Sorting keeps what holds of every member.
  pub sort_by-All : (P : A → Type 0) (xs : List A) → All P xs → All P (sort_by xs)
  unfolding sort_by
  sort_by-All P [] h = tt
  sort_by-All P (x ∷ xs) h = insert_by-All P x (sort_by xs) h.0 (sort_by-All P xs h.1)

  mem-insert_by : (z x : A) (xs : List A) → z ∈ (x ∷ xs) → z ∈ insert_by x xs
  unfolding insert_by
  mem-insert_by z x [] m = m
  mem-insert_by z x (y ∷ ys) m = elim (Bool-cases (before x y)) [
    | inl e ↦ rw e m
    | inr e ↦ rw e (later (mem-insert_by z x ys) m)
  ]
    where
      later :
          (z ∈ (x ∷ ys) → z ∈ insert_by x ys) → z ∈ (x ∷ y ∷ ys) → (z ≡ y) ⊎ (z ∈ insert_by x ys)
      later ih (inl p) = inr (ih (inl p))
      later ih (inr (inl p)) = inl p
      later ih (inr (inr r)) = inr (ih (inr r))

  -- Sorting loses no member and invents none.
  pub mem-sort_by : (z : A) (xs : List A) → z ∈ xs → z ∈ sort_by xs
  unfolding sort_by
  mem-sort_by z [] m = m
  mem-sort_by z (x ∷ xs) (inl e) = mem-insert_by z x (sort_by xs) (inl e)
  mem-sort_by z (x ∷ xs) (inr r) = mem-insert_by z x (sort_by xs) (inr (mem-sort_by z xs r))

  pub mem_of_sort_by : (z : A) (xs : List A) → z ∈ sort_by xs → z ∈ xs
  mem_of_sort_by z xs m =
      All-mem (λ k. k ∈ xs) (sort_by xs) z
        (sort_by-All (λ k. k ∈ xs) xs (All-of_mem (λ k. k ∈ xs) xs (λ k r. r))) m

  length-keep-insert_by :
      (p : A → Bool) (x : A) (xs : List A)
      → length (keep p (insert_by x xs)) ≡ length (keep p (x ∷ xs))
  unfolding keep insert_by
  length-keep-insert_by p x [] = refl
  length-keep-insert_by p x (y ∷ ys) = ground (arith, length-keep-insert_by p x ys)

  -- No test counts differently after the sort.
  pub length-keep-sort_by :
      (p : A → Bool) (xs : List A) → length (keep p (sort_by xs)) ≡ length (keep p xs)
  unfolding sort_by keep
  length-keep-sort_by p [] = refl
  length-keep-sort_by p (x ∷ xs) =
      length-keep-insert_by p x (sort_by xs) ∙ ground (arith, length-keep-sort_by p xs)

  keep-insert_by :
      (p : A → Bool)
      → ((x y : A) → p x ≡ true → p y ≡ true → before x y ≡ true)
      → (x : A) (xs : List A) → keep p (insert_by x xs) ≡ keep p (x ∷ xs)
  unfolding keep insert_by
  keep-insert_by p tie x [] = refl
  keep-insert_by p tie x (y ∷ ys) = ground (arith, tie x y, keep-insert_by p tie x ys)

  -- Members that tie keep their order.
  pub keep-sort_by :
      (p : A → Bool)
      → ((x y : A) → p x ≡ true → p y ≡ true → before x y ≡ true)
      → (xs : List A) → keep p (sort_by xs) ≡ keep p xs
  unfolding sort_by keep
  keep-sort_by p tie [] = refl
  keep-sort_by p tie (x ∷ xs) =
      keep-insert_by p tie x (sort_by xs) ∙ ground (arith, keep-sort_by p tie xs)

  -- Each member may stand above all those behind it.
  abbrev pub IsSorted : List A → Type 0
  IsSorted [] = Unit
  IsSorted (x ∷ xs) = All (λ y. before x y ≡ true) xs × IsSorted xs

module _ {A : Type 0} (before : A → A → Bool)
    (total : (x y : A) → before x y ≡ false → before y x ≡ true)
    (transitive : (x y z : A) → before x y ≡ true → before y z ≡ true → before x z ≡ true) where
  insert_by-IsSorted :
      (x : A) (xs : List A) → IsSorted before xs → IsSorted before (insert_by before x xs)
  unfolding insert_by
  insert_by-IsSorted x [] h = (tt, tt)
  insert_by-IsSorted x (y ∷ ys) h = elim (Bool-cases (before x y)) [
    | inl e ↦ rw e ((e, All-map (λ z q. transitive x y z e q) ys h.0), h)
    | inr e ↦ rw e (
      insert_by-All before (λ z. before y z ≡ true) x ys (total x y e) h.0,
      insert_by-IsSorted x ys h.1,
    )
  ]

  pub sort_by-IsSorted : (xs : List A) → IsSorted before (sort_by before xs)
  unfolding sort_by
  sort_by-IsSorted [] = tt
  sort_by-IsSorted (x ∷ xs) = insert_by-IsSorted x (sort_by before xs) (sort_by-IsSorted xs)
