-- ===== src/Interop/Genuine.antt =====
-- What a receipt that passes every check is.

use mathlib.Core.Option.{some-injective}
use monadguard.Base.{
  ltb, length, sym, ◌∙◌, ℕ, ◌≡◌, inl, inr, refl, Bool, true, Bool-cases, ◌&&◌, Option, none, some,
  Option-cases, List, [], ◌∷◌, ◌++◌, ◌∈◌, Text, lit, text_eq_sound, split, every, arith, find,
  find-some,
}
use monadguard.Interop.{
  Jwk, Header, Check, Checked, Crypto, option_eq, only_key, or_else, find_key, verified, key_checks,
  payload_checks, hash_checks, finish, check_payload, check_header, check_parts, check_receipt,
  read_header, parts_of,
}

abbrev all_ok : List Check → Bool
all_ok = every (λ (c : Check). c.ok)

every-append :
    (p : Check → Bool) (xs ys : List Check) → every p (xs ++ ys) ≡ (every p xs && every p ys)
unfolding every
every-append p [] ys = refl
every-append p (x ∷ xs) ys = ground (arith, every-append p xs ys)

both_ok : (xs ys : List Check) → all_ok (xs ++ ys) ≡ true → (all_ok xs ≡ true) × (all_ok ys ≡ true)
both_ok xs ys h =
    let e = every-append (λ (c : Check). c.ok) xs ys in (ground (arith, e), ground (arith, e))

one_ok : (c : Check) → all_ok (c ∷ []) ≡ true → c.ok ≡ true
unfolding every
one_ok c h = ground arith

option_eq_sound : (o : Option Text) (t : Text) → option_eq o (some t) ≡ true → o ≡ some t
unfolding option_eq
option_eq_sound none t h = absurd (cc)
option_eq_sound (some s) t h = rw (text_eq_sound s t h) refl

only_key-mem : (keys : List Jwk) (k : Jwk) → only_key keys ≡ some k → k ∈ keys
unfolding only_key
only_key-mem [] k h = absurd (cc)
only_key-mem (j ∷ []) k h = inl (sym (some-injective _ _ h))
only_key-mem (j ∷ i ∷ keys) k h = absurd (cc)

-- The key that is found is one of the set.
pub find_key-mem :
    (kid : Option Text) (keys : List Jwk) (k : Jwk) → find_key kid keys ≡ some k → k ∈ keys
unfolding find_key only_key or_else
find_key-mem kid keys k h = elim (Option-cases (find (λ (j : Jwk). option_eq j.kid kid) keys)) [
  | inr (j, e) ↦ (find-some _ keys k (e ∙ (rw e at h))).0
  | inl e ↦ only_key-mem keys k (rw e at h)
]

module _ {Json : Type 0} (ext : Crypto Json) where
  -- The text is `null`, or the canonical form of what it parses to.
  abbrev pub IsCanonical : Text → Option (Option Json) → Type 0
  IsCanonical text none = ⊥
  IsCanonical text (some none) = Unit {0}
  IsCanonical text (some (some parsed)) = ext.canonical parsed ≡ text

  -- A compact JWS by a P-256 key of the set, under ES256, of a canonical payload that has the hash.
  pub record IsGenuine (jws : Text) (keys : List Jwk) (hash : Text) : Type 0 where
    pub h64 : Text
    pub p64 : Text
    pub s64 : Text
    pub header : Header
    pub key : Jwk
    pub bytes : List ℕ
    pub is_compact : split b'.' jws ≡ h64 ∷ p64 ∷ s64 ∷ []
    pub has_header : read_header ext h64 ≡ some header
    pub is_es256 : header.alg ≡ some (lit "ES256")
    pub is_published : key ∈ keys
    pub is_p256 : key.crv ≡ some (lit "P-256")
    pub is_signed : verified ext key h64 p64 s64 ≡ true
    pub is_decoded : ext.decode p64 ≡ some bytes
    pub is_canonical : IsCanonical (ext.utf8 bytes) (ext.parse (ext.utf8 bytes))
    pub is_hash : hash ≡ ext.hash bytes

  key_checks-ok :
      (o : Option Jwk) (h64 p64 s64 : Text)
      → all_ok (key_checks ext o h64 p64 s64) ≡ true
      → (k : Jwk) × (o ≡ some k)
        × (k.crv ≡ some (lit "P-256"))
        × (verified ext k h64 p64 s64 ≡ true)
  unfolding key_checks every
  key_checks-ok none h64 p64 s64 h = absurd (cc)
  key_checks-ok (some k) h64 p64 s64 h = elim (Bool-cases (option_eq k.crv (some (lit "P-256")))) [
    | inr e ↦ absurd (cc (rw e at h))
    | inl e ↦ (k, refl, option_eq_sound k.crv _ e, ground (arith, e))
  ]

  payload_checks-ok :
      (text : Text) (o : Option (Option Json))
      → all_ok (payload_checks ext text o) ≡ true
      → IsCanonical text o
  unfolding payload_checks every
  payload_checks-ok text none h = cc
  payload_checks-ok text (some none) h = tt
  payload_checks-ok text (some (some parsed)) h =
      text_eq_sound (ext.canonical parsed) text (ground arith)

  -- What follows where all the checks on a payload and those before it passed.
  abbrev IsPayload : List Check → Option (List ℕ) → Text → Type 0
  IsPayload before o hash =
      (bytes : List ℕ) × (all_ok before ≡ true)
      × (o ≡ some bytes)
      × IsCanonical (ext.utf8 bytes) (ext.parse (ext.utf8 bytes))
      × (hash ≡ ext.hash bytes)

  check_payload-ok :
      (before : List Check) (expect : Option Text) (o : Option (List ℕ)) (r : Checked) (hash : Text)
      → check_payload ext before expect o ≡ some r
      → r.ok ≡ true
      → r.hash ≡ some hash
      → IsPayload before o hash
  unfolding check_payload finish
  check_payload-ok before expect none r hash e ok h = absurd (cc)
  check_payload-ok before expect (some bytes) r hash e ok h =
      let mid = payload_checks ext (ext.utf8 bytes) (ext.parse (ext.utf8 bytes)) in
      let last =
        record { name = "receiptHash = sha256(JCS(payload))"; ok = true }
        ∷ hash_checks ext (ext.hash bytes) expect in
      let passed = rw (← some-injective _ _ e) at ok in
      let (a, b) = both_ok before (mid ++ last) passed in
      let c = payload_checks-ok (ext.utf8 bytes) _ (both_ok mid last b).0 in
      (bytes, a, refl, c, sym (some-injective _ _ (rw (← some-injective _ _ e) at h)))

  check_header-ok :
      (before : List Check) (keys : List Jwk) (expect : Option Text) (h64 p64 s64 : Text)
      (o : Option Header) (r : Checked) (hash : Text)
      → check_header ext before keys expect h64 p64 s64 o ≡ some r
      → r.ok ≡ true
      → r.hash ≡ some hash
      → (header : Header) × (key : Jwk) × (o ≡ some header)
        × (header.alg ≡ some (lit "ES256"))
        × (key ∈ keys)
        × (key.crv ≡ some (lit "P-256"))
        × (verified ext key h64 p64 s64 ≡ true)
        × IsPayload before (ext.decode p64) hash
  unfolding check_header finish
  check_header-ok before keys expect h64 p64 s64 none r hash e ok h =
      absurd (cc (rw (← some-injective _ _ e) at h))
  check_header-ok before keys expect h64 p64 s64 (some header) r hash e ok h =
      let own = key_checks ext (find_key header.kid keys) h64 p64 s64 in
      let (bytes, a, d, c, q) = check_payload-ok _ expect (ext.decode p64) r hash e ok h in
      let (b, t) = both_ok before _ a in
      let (alg, u) = both_ok (_ ∷ []) own t in
      let (k, f, crv, v) = key_checks-ok _ h64 p64 s64 u in
      (
        header,
        k,
        refl,
        option_eq_sound header.alg _ (one_ok _ alg),
        find_key-mem header.kid keys k f,
        crv,
        v,
        (bytes, b, d, c, q),
      )

  check_parts-ok :
      (before : List Check) (jws : Text) (keys : List Jwk) (expect : Option Text)
      (parts : List Text) (r : Checked) (hash : Text)
      → split b'.' jws ≡ parts
      → check_parts ext before keys expect parts ≡ some r
      → r.ok ≡ true
      → r.hash ≡ some hash
      → IsGenuine jws keys hash
  unfolding check_parts finish
  check_parts-ok before jws keys expect (h64 ∷ p64 ∷ s64 ∷ []) r hash s e ok h =
      let (header, key, o, alg, m, crv, v, (bytes, b, d, c, q)) =
        check_header-ok _ keys expect h64 p64 s64 (read_header ext h64) r hash e ok h in
      record {
        h64 = h64;
        p64 = p64;
        s64 = s64;
        header = header;
        key = key;
        bytes = bytes;
        is_compact = s;
        has_header = o;
        is_es256 = alg;
        is_published = m;
        is_p256 = crv;
        is_signed = v;
        is_decoded = d;
        is_canonical = c;
        is_hash = q;
      }
  check_parts-ok before jws keys expect _ r hash s e ok h =
      absurd (cc (rw (← some-injective _ _ e) at h))

  -- A JWS for which checkReceipt ends with all checks passed and a hash has three parts, a header
  -- with ES256, a signature that verifies with a P-256 key of the JWKS, and a payload that decodes
  -- to bytes which have the hash and which are JSON's null or the canonical form of what they parse
  -- to.
  pub check_receipt-IsGenuine :
      (jws : Text) (keys : List Jwk) (expect : Option Text) (r : Checked) (hash : Text)
      → check_receipt ext (some jws) keys expect ≡ some r
      → r.ok ≡ true
      → r.hash ≡ some hash
      → IsGenuine jws keys hash
  unfolding check_receipt parts_of
  check_receipt-IsGenuine jws keys expect r hash e ok h =
      check_parts-ok
        (record { name = "the JWKS carries at least one key"; ok = ltb 0 (length keys) } ∷ []) jws
        keys expect (split b'.' jws) r hash refl e ok h
