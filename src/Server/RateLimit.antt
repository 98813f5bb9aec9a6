-- ===== src/Server/RateLimit.antt =====
-- server/index.js:40-49 and 100-109: the limit of requests a minute, and the middleware `rl`. A key
-- `${ip}:${w}` of the map is the pair of its parts: no colon stands in the number of a minute, so that
-- `endsWith` compares the second part.
use monadguard.Base.{
  ap, ℕ, suc, ◌+◌, ◌≤◌, ◌≡◌, ◌==◌, min, Bool, true, false, not, ◌&&◌, Bool-cases, inl, inr, refl,
  Option, none, some, List, [], ◌∷◌, Text, text_eq, text_eq_refl, text_eq_sound, truthy, ◌∙◌, ltb,
  length, keep, arith, if◌then◌else◌,
}

pub record Hit : Type 0 where
  pub ip : Text
  pub minute : ℕ
  pub count : ℕ

abbrev pub has_hit_key : Text → ℕ → Hit → Bool
has_hit_key ip w h = h.minute == w && text_eq h.ip ip

-- `hits.get(k) ?? 0`
unfoldable pub count_of : Text → ℕ → List Hit → ℕ
count_of ip w [] = 0
count_of ip w (h ∷ hs) = if has_hit_key ip w h then h.count else count_of ip w hs

-- `hits.set(k, n)`
unfoldable pub put_count : Text → ℕ → ℕ → List Hit → List Hit
put_count ip w n [] = record { ip = ip; minute = w; count = n } ∷ []
put_count ip w n (h ∷ hs) =
    if has_hit_key ip w h then record h { count = n } ∷ hs else h ∷ put_count ip w n hs

unfoldable pub prune : ℕ → List Hit → List Hit
prune w hs = if ltb 5000 (length hs) then keep (λ (h : Hit). h.minute == w) hs else hs

-- The map after the request, and whether the request is over the limit.
unfoldable pub limited : ℕ → Text → ℕ → List Hit → List Hit × Bool
unfolding prune put_count count_of
limited rate ip w hits =
    let n = suc (count_of ip w hits) in (prune w (put_count ip w n hits), ltb rate n)

-- The middleware: a request without an address of its own, or with an empty one, is let through. The second part is whether
-- the request goes on; if not, the answer is 429.
unfoldable pub rl : ℕ → Option Text → ℕ → List Hit → List Hit × Bool
unfolding limited
rl rate none w hits = (hits, true)
rl rate (some ip) w hits =
    if truthy ip then ((limited rate ip w hits).0, not (limited rate ip w hits).1) else (hits, true)

-- How many requests of an address go on, among the requests that come in one minute.
abbrev one_if : Bool → ℕ
one_if true = 1
one_if false = 0

unfoldable pub admitted : ℕ → ℕ → Text → List Text → List Hit → ℕ
unfolding rl
admitted rate w ip [] hits = 0
admitted rate w ip (x ∷ xs) hits =
    one_if (text_eq x ip && (rl rate (some x) w hits).1)
    + admitted rate w ip xs (rl rate (some x) w hits).0

count_of-put_same :
    (ip : Text) (w n : ℕ) (hits : List Hit) → count_of ip w (put_count ip w n hits) ≡ n
unfolding count_of put_count
count_of-put_same ip w n [] = ground (arith, text_eq_refl ip)
count_of-put_same ip w n (h ∷ hs) = ground (arith, count_of-put_same ip w n hs)

count_of-put_other :
    (ip x : Text) (w n : ℕ) (hits : List Hit)
    → text_eq x ip ≡ false
    → count_of ip w (put_count x w n hits) ≡ count_of ip w hits
unfolding count_of put_count
count_of-put_other ip x w n [] ne = ground arith
count_of-put_other ip x w n (h ∷ hs) ne = elim (Bool-cases (text_eq h.ip x)) [
  | inl k ↦ ground (
    arith,
    text_eq_sound h.ip x k,
    ap (λ t. text_eq t ip) (text_eq_sound h.ip x k),
    count_of-put_other ip x w n hs ne,
  )
  | inr k ↦ ground (arith, count_of-put_other ip x w n hs ne)
]

count_of-put_count :
    (ip x : Text) (w n : ℕ) (hits : List Hit)
    → count_of ip w (put_count x w n hits) ≡ (if text_eq x ip then n else count_of ip w hits)
count_of-put_count ip x w n hits = elim (Bool-cases (text_eq x ip)) [
  | inl e ↦ rw (e, text_eq_sound x ip e) (count_of-put_same ip w n hits)
  | inr e ↦ rw e (count_of-put_other ip x w n hits e)
]

count_of-keep :
    (ip : Text) (w : ℕ) (hits : List Hit)
    → count_of ip w (keep (λ (h : Hit). h.minute == w) hits) ≡ count_of ip w hits
unfolding count_of keep
count_of-keep ip w [] = refl
count_of-keep ip w (h ∷ hs) = ground (arith, count_of-keep ip w hs)

-- Dropping the old minutes forgets no count of the minute that runs.
count_of-prune :
    (ip : Text) (w : ℕ) (hits : List Hit) → count_of ip w (prune w hits) ≡ count_of ip w hits
unfolding prune
count_of-prune ip w hits = ground (arith, count_of-keep ip w hits)

-- A request of an empty address changes no count of another address.
count_of-rl :
    (rate : ℕ) (ip x : Text) (w : ℕ) (hits : List Hit)
    → truthy ip ≡ true
    → count_of ip w (rl rate (some x) w hits).0
      ≡ (if text_eq x ip then suc (count_of x w hits) else count_of ip w hits)
unfolding rl limited
count_of-rl rate ip x w hits t = elim (Bool-cases (truthy x)) [
  | inl e ↦ rw (e, count_of-prune, count_of-put_count) refl
  | inr e ↦ elim (Bool-cases (text_eq x ip)) [
    | inl k ↦ absurd (cc (ap truthy (text_eq_sound x ip k)))
    | inr k ↦ rw (e, k) refl
  ]
]

rl-goes :
    (rate : ℕ) (x : Text) (w : ℕ) (hits : List Hit)
    → truthy x ≡ true
    → (rl rate (some x) w hits).1 ≡ not (ltb rate (suc (count_of x w hits)))
unfolding rl limited
rl-goes rate x w hits t = rw t refl

-- In one minute no more than RATE_PER_MIN requests of an address that is not empty go on, whoever
-- else asks and although the map is pruned; what was counted before uses up the share.
pub admitted-le :
    (rate w : ℕ) (ip : Text) (xs : List Text) (hits : List Hit)
    → truthy ip ≡ true
    → admitted rate w ip xs hits + min (count_of ip w hits) rate ≤ rate
unfolding admitted
admitted-le rate w ip [] hits t = omega arith
admitted-le rate w ip (x ∷ xs) hits t =
    let ih = admitted-le rate w ip xs (rl rate (some x) w hits).0 t in
    let c = count_of-rl rate ip x w hits t in
    elim (Bool-cases (text_eq x ip)) [
      | inl e ↦
          let q = text_eq_sound x ip e in
          let g = rl-goes rate x w hits (ap truthy q ∙ t) in
          ground (arith, ap (λ u. count_of u w hits) q)
      | inr e ↦ ground arith
    ]
