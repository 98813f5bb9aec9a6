-- ===== src/Server/Envio.antt =====
-- server/envio.js: which of the two indexes of the contract's events answers a query.
use monadguard.Base.{
  ℕ, ◌-◌, ◌≡◌, ◌⊎◌, Bool, true, false, not, ◌||◌, Bool-cases, inl, inr, refl, Option, none, some,
  List, [], ◌∷◌, ◌++◌, ltb, arith, if◌then◌else◌,
}

pub data Source : Type 0 where
  local cloud : Source

unfoldable pub is_cloud : Source → Bool
is_cloud local = false
is_cloud cloud = true

-- What `head` makes of an index: it fails, it holds no row for this chain, or it stands at a block.
pub data Head : Type 0 where
  unreachable other_chain : Head
  at_block : ℕ → Head

-- The variables of the module. `has_cloud` is whether CLOUD is set.
pub record Choice : Type 0 where
  pub has_cloud : Bool
  pub chosen : Source
  pub checked_at : ℕ
  pub eligible : List Source
  pub last_source : Source

unfoldable pub initial : Bool → Choice
initial has_cloud = record {
  has_cloud = has_cloud;
  chosen = local;
  checked_at = 0;
  eligible = local ∷ [];
  last_source = local;
}

unfoldable pub is_usable : Head → Bool
is_usable unreachable = false
is_usable other_chain = false
is_usable (at_block n) = true

-- `c > l`, where an unusable index counts as -1.
unfoldable pub is_ahead : Head → Head → Bool
unfolding is_usable
is_ahead (at_block c) (at_block l) = ltb l c
is_ahead (at_block c) l = not (is_usable l)
is_ahead c l = false

unfoldable pub eligible_of : Head → Head → List Source
unfolding is_usable
eligible_of l c =
    (if is_usable l then local ∷ [] else []) ++ (if is_usable c then cloud ∷ [] else [])

-- `pick`, with the two heads that it would read.
unfoldable pub pick : ℕ → Head → Head → Choice → Choice
unfolding is_ahead eligible_of
pick now l c s = if not s.has_cloud || ltb (now - s.checked_at) 60000 then s else record s {
  chosen = if is_ahead c l then cloud else local;
  checked_at = now;
  eligible = eligible_of l c;
}

unfoldable pub is_eligible : Source → List Source → Bool
is_eligible local [] = false
is_eligible cloud [] = false
is_eligible local (local ∷ ss) = true
is_eligible cloud (cloud ∷ ss) = true
is_eligible local (cloud ∷ ss) = is_eligible local ss
is_eligible cloud (local ∷ ss) = is_eligible cloud ss

-- The other index, where there is one: `!other` where CLOUD is not set.
unfoldable pub other_source : Choice → Source → Option Source
other_source s cloud = some local
other_source s local = if s.has_cloud then some cloud else none

module _ {A : Type 0} where
  -- `answers` gives what each index answers, `none` for an exception.
  unfoldable pub after_other : ℕ → Choice → Source → Option A → Choice × Option A
  after_other now s other none = (s, none)
  after_other now s other (some d) =
      (record s { last_source = other; chosen = other; checked_at = now }, some d)

  unfoldable pub fall_back : ℕ → (Source → Option A) → Choice → Option Source → Choice × Option A
  unfolding after_other is_eligible
  fall_back now answers s none = (s, none)
  fall_back now answers s (some other) =
      let reply = after_other now s other (answers other) in
      if is_eligible other s.eligible then reply else (s, none)

  unfoldable pub after_first : ℕ → (Source → Option A) → Choice → Option A → Choice × Option A
  unfolding fall_back other_source
  after_first now answers s (some d) = (record s { last_source = s.chosen }, some d)
  after_first now answers s none = fall_back now answers s (other_source s s.chosen)

  unfoldable pub q : ℕ → Head → Head → (Source → Option A) → Choice → Choice × Option A
  unfolding after_first pick
  q now l c answers s = let t = pick now l c s in after_first now answers t (answers t.chosen)

-- The index in use was found on this chain at the last check, or none was found there.
abbrev pub IsSound : Choice → Type 0
IsSound s = (is_eligible s.chosen s.eligible ≡ true) ⊎ (s.eligible ≡ [])

pub initial-IsSound : (has_cloud : Bool) → IsSound (initial has_cloud)
unfolding initial is_eligible
initial-IsSound has_cloud = inl refl

-- A check keeps the choice sound, whatever the indexes report.
pub pick-IsSound : (now : ℕ) (l c : Head) (s : Choice) → IsSound s → IsSound (pick now l c s)
unfolding pick is_eligible eligible_of is_ahead is_usable
pick-IsSound now l c s h = elim (Bool-cases (not s.has_cloud || ltb (now - s.checked_at) 60000)) [
  | inl e ↦ rw e h
  | inr e ↦ rw e (settled l c)
]
  where
    settled :
        (l c : Head)
        → (is_eligible (if is_ahead c l then cloud else local) (eligible_of l c) ≡ true)
          ⊎ (eligible_of l c ≡ [])
    settled unreachable unreachable = inr refl
    settled unreachable other_chain = inr refl
    settled unreachable (at_block n) = inl refl
    settled other_chain unreachable = inr refl
    settled other_chain other_chain = inr refl
    settled other_chain (at_block n) = inl refl
    settled (at_block m) unreachable = inl refl
    settled (at_block m) other_chain = inl refl
    settled (at_block m) (at_block n) = elim (Bool-cases (ltb m n)) [
      | inl e ↦ inl (rw e refl)
      | inr e ↦ inl (rw e refl)
    ]

module _ {A : Type 0} (now : ℕ) (l c : Head) (answers : Source → Option A) where
  -- What a reply of the choice `t` must satisfy.
  abbrev IsSourced : Choice → A → Type 0
  IsSourced t d = IsSound t × (t.last_source ≡ t.chosen) × (answers t.chosen ≡ some d)

  -- Where a check is due, the local index is on another chain and the cloud one is unreachable,
  -- what the local index answers is returned all the same.
  pub q-other_chain :
      (s : Choice) (d : A)
      → s.has_cloud ≡ true
      → ltb (now - s.checked_at) 60000 ≡ false
      → l ≡ other_chain
      → c ≡ unreachable
      → answers local ≡ some d
      → (q now l c answers s).1 ≡ some d
  unfolding q pick is_ahead after_first
  q-other_chain s d k f i j a = ground (arith, i, j, a)
