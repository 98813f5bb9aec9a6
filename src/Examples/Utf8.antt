-- ===== src/Examples/Utf8.antt =====
-- UTF-8 over texts of UTF-16 units: a lone surrogate is encoded as U+FFFD. The decoder is meant for what
-- the encoder gives.
use monadguard.Base.{
  ℕ, zero, suc, ◌+◌, ◌-◌, ◌*◌, ◌/◌, ◌%◌, ◌<◌, ◌≡◌, ◌≢◌, ◌∙◌, refl, ap, inl, inr, true, false,
  Bool-cases, ◌&&◌, List, [], ◌∷◌, ◌++◌, Text, All-append, ltb, arith, if◌then◌else◌,
}
use monadguard.Receipt.Base64.RoundTrip.{AreBytes}
use monadguard.Receipt.Jws.RoundTrip.{well_formed, in_range}

abbrev pub three : ℕ → List ℕ
three c = (224 + c / 4096 % 16) ∷ (128 + c / 64 % 64) ∷ (128 + c % 64) ∷ []

abbrev pub four : ℕ → List ℕ
four p = (240 + p / 262144 % 8) ∷ (128 + p / 4096 % 64) ∷ (128 + p / 64 % 64) ∷ (128 + p % 64) ∷ []

-- A unit that is not the first half of a pair.
unfoldable pub encode_unit : ℕ → List ℕ
encode_unit c =
    if ltb c 128
    then c ∷ []
    else (if ltb c 2048
        then (192 + c / 64 % 32) ∷ (128 + c % 64) ∷ []
        else (if in_range 55296 57343 c then three 65533 else three c))

abbrev pub joined : ℕ → ℕ → ℕ
joined c d = 65536 + ((c - 55296) * 1024 + (d - 56320))

unfoldable pub encode : Text → List ℕ
unfolding encode_unit
encode [] = []
encode (c ∷ []) = encode_unit c ++ []
encode (c ∷ d ∷ s) =
    let pair = four (joined c d) ++ encode s in
    let single = encode_unit c ++ encode (d ∷ s) in
    if in_range 55296 56319 c && in_range 56320 57343 d then pair else single

abbrev units : ℕ → Text
units p =
    if ltb p 65536 then p ∷ [] else (55296 + (p - 65536) / 1024) ∷ (56320 + (p - 65536) % 1024) ∷ []

-- `more` bytes are still to come of the code point that begins with `acc`.
unfoldable pub decode : (more acc : ℕ) → List ℕ → Text
decode more acc [] = []
decode zero acc (b ∷ bs) =
    let ascii = b ∷ decode 0 0 bs in
    let two = decode 1 (b - 192) bs in
    let of_three = decode 2 (b - 224) bs in
    let of_four = decode 3 (b - 240) bs in
    if ltb b 128
    then ascii
    else (if ltb b 224 then two else (if ltb b 240 then of_three else of_four))
decode (suc zero) acc (b ∷ bs) = units (acc * 64 + (b - 128)) ++ decode 0 0 bs
decode (suc (suc n)) acc (b ∷ bs) = decode (suc n) (acc * 64 + (b - 128)) bs

encode_unit-AreBytes : (c : ℕ) → AreBytes (encode_unit c)
unfolding encode_unit
encode_unit-AreBytes c = elim (Bool-cases (ltb c 128)) [
  | inl a ↦ rw a (ground arith, tt)
  | inr a ↦ elim (Bool-cases (ltb c 2048)) [
    | inl b ↦ rw (a, b) (omega arith, (omega arith, tt))
    | inr b ↦ elim (Bool-cases (in_range 55296 57343 c)) [
      | inl e ↦ rw (a, b, e) (omega arith, (omega arith, (omega arith, tt)))
      | inr e ↦ rw (a, b, e) (omega arith, (omega arith, (omega arith, tt)))
    ]
  ]
]

pub encode-AreBytes : (t : Text) → AreBytes (encode t)
unfolding encode
encode-AreBytes [] = tt
encode-AreBytes (c ∷ []) = All-append (λ b. b < 256) (encode_unit c) [] (encode_unit-AreBytes c) tt
encode-AreBytes (c ∷ d ∷ s) = elim (Bool-cases (in_range 55296 56319 c && in_range 56320 57343 d)) [
  | inl e ↦ rw e (omega arith, (omega arith, (omega arith, (omega arith, encode-AreBytes s))))
  | inr e ↦ rw e (
      All-append (λ b. b < 256) (encode_unit c) (encode (d ∷ s)) (encode_unit-AreBytes c)
        (encode-AreBytes (d ∷ s)))
]

-- The first byte tells how many are to come.
decode-ascii : (b : ℕ) (bs : List ℕ) → b < 128 → decode 0 0 (b ∷ bs) ≡ b ∷ decode 0 0 bs
unfolding decode
decode-ascii b bs h = ground arith

decode-first_of_two : (n : ℕ) (bs : List ℕ) → n < 32 → decode 0 0 ((192 + n) ∷ bs) ≡ decode 1 n bs
unfolding decode
decode-first_of_two n bs h =
    let e : 192 + n - 192 ≡ n = omega arith in ground (arith, ap (λ k. decode 1 k bs) e)

decode-first_of_three : (n : ℕ) (bs : List ℕ) → n < 16 → decode 0 0 ((224 + n) ∷ bs) ≡ decode 2 n bs
unfolding decode
decode-first_of_three n bs h =
    let e : 224 + n - 224 ≡ n = omega arith in ground (arith, ap (λ k. decode 2 k bs) e)

decode-first_of_four : (n : ℕ) (bs : List ℕ) → n < 8 → decode 0 0 ((240 + n) ∷ bs) ≡ decode 3 n bs
unfolding decode
decode-first_of_four n bs h =
    let e : 240 + n - 240 ≡ n = omega arith in ground (arith, ap (λ k. decode 3 k bs) e)

decode-middle :
    (more acc n : ℕ) (bs : List ℕ)
    → decode (suc (suc more)) acc ((128 + n) ∷ bs) ≡ decode (suc more) (acc * 64 + n) bs
unfolding decode
decode-middle more acc n bs = ap (λ k. decode (suc more) (acc * 64 + k) bs) (omega arith)

decode-last :
    (acc n : ℕ) (bs : List ℕ)
    → decode 1 acc ((128 + n) ∷ bs) ≡ units (acc * 64 + n) ++ decode 0 0 bs
unfolding decode
decode-last acc n bs = ap (λ k. units (acc * 64 + k) ++ decode 0 0 bs) (omega arith)

units-small : (c p : ℕ) → p ≡ c → c < 65536 → units p ≡ c ∷ []
units-small c p e h = ground arith

units-joined :
    (c d p : ℕ)
    → p ≡ joined c d
    → in_range 55296 56319 c ≡ true
    → in_range 56320 57343 d ≡ true
    → units p ≡ c ∷ d ∷ []
units-joined c d p e h k = ground arith

decode-encode_unit :
    (c : ℕ) (bs : List ℕ)
    → c < 65536
    → in_range 55296 57343 c ≡ false
    → decode 0 0 (encode_unit c ++ bs) ≡ c ∷ decode 0 0 bs
unfolding encode_unit
decode-encode_unit c bs h n = elim (Bool-cases (ltb c 128)) [
  | inl a ↦ rw a (decode-ascii c bs (ground arith))
  | inr a ↦ elim (Bool-cases (ltb c 2048)) [
    | inl b ↦
        rw (a, b)
          (decode-first_of_two (c / 64 % 32) _ (omega arith)
            ∙ decode-last (c / 64 % 32) (c % 64) bs
            ∙ ap (λ u. u ++ decode 0 0 bs) (units-small c _ (ground arith) h))
    | inr b ↦
        rw (a, b, n)
          (decode-first_of_three (c / 4096 % 16) _ (omega arith)
            ∙ decode-middle 0 (c / 4096 % 16) (c / 64 % 64) _
            ∙ decode-last (c / 4096 % 16 * 64 + c / 64 % 64) (c % 64) bs
            ∙ ap (λ u. u ++ decode 0 0 bs) (units-small c _ (omega arith) h))
  ]
]

whole :
    (p : ℕ)
    → p < 2097152
    → ((p / 262144 % 8 * 64 + p / 4096 % 64) * 64 + p / 64 % 64) * 64 + p % 64 ≡ p
whole p h = omega arith

decode-four :
    (c d : ℕ) (bs : List ℕ)
    → in_range 55296 56319 c ≡ true
    → in_range 56320 57343 d ≡ true
    → decode 0 0 (four (joined c d) ++ bs) ≡ c ∷ d ∷ decode 0 0 bs
decode-four c d bs h k =
    let p = joined c d in
    let a = p / 262144 % 8 in
    let b = p / 4096 % 64 in
    let m = p / 64 % 64 in
    decode-first_of_four a _ (omega arith)
    ∙ decode-middle 1 a b _
    ∙ decode-middle 0 (a * 64 + b) m _
    ∙ decode-last ((a * 64 + b) * 64 + m) (p % 64) bs
    ∙ ap (λ u. u ++ decode 0 0 bs) (units-joined c d _ (whole p (ground arith)) h k)

decode-nothing : decode 0 0 [] ≡ []
unfolding decode
decode-nothing = refl

-- A text without lone surrogates is decoded from what it is encoded to.
pub decode-encode : (t : Text) → well_formed t ≡ true → decode 0 0 (encode t) ≡ t
unfolding encode well_formed
decode-encode [] h = decode-nothing
decode-encode (c ∷ []) h =
    decode-encode_unit c [] (ground arith) (ground arith) ∙ ap (λ t. c ∷ t) decode-nothing
decode-encode (c ∷ d ∷ s) h = elim (Bool-cases (in_range 55296 56319 c)) [
  | inl e ↦ elim (Bool-cases (in_range 56320 57343 d)) [
    | inl k ↦
        rw (e, k)
          (decode-four c d (encode s) e k ∙ ap (λ t. c ∷ d ∷ t) (decode-encode s (rw (e, k) at h)))
    | inr k ↦ absurd (cc (rw (e, k) at h))
  ]
  | inr e ↦ rw e (
      decode-encode_unit c (encode (d ∷ s)) (ground arith) (ground arith)
      ∙ ap (λ t. c ∷ t) (decode-encode (d ∷ s) (ground arith)))
]

encode_unit-some : (c : ℕ) (bs : List ℕ) → encode_unit c ++ bs ≢ []
unfolding encode_unit
encode_unit-some c bs e = elim (Bool-cases (ltb c 128)) [
  | inl a ↦ absurd (cc (rw a at e))
  | inr a ↦ elim (Bool-cases (ltb c 2048)) [
    | inl b ↦ absurd (cc (rw (a, b) at e))
    | inr b ↦ elim (Bool-cases (in_range 55296 57343 c)) [
      | inl k ↦ absurd (cc (rw (a, b, k) at e))
      | inr k ↦ absurd (cc (rw (a, b, k) at e))
    ]
  ]
]

pub encode-some : (t : Text) → t ≢ [] → encode t ≢ []
unfolding encode
encode-some [] n e = n refl
encode-some (c ∷ []) n e = encode_unit-some c [] e
encode-some (c ∷ d ∷ s) n e = elim (Bool-cases (in_range 55296 56319 c && in_range 56320 57343 d)) [
  | inl k ↦ absurd (cc (rw k at e))
  | inr k ↦ encode_unit-some c (encode (d ∷ s)) (rw k at e)
]
