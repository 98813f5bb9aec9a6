-- ===== src/Receipt/Digests/Commitment.antt =====
-- What the digests of server/receipt.js:170-190 commit to.
use mathlib.Core.Logic.{◌≢◌}
use monadguard.Base.{
  ℕ, ◌+◌, ◌*◌, ◌^◌, ◌<◌, ◌≡◌, refl, ap, List, [], ◌∷◌, ◌++◌, Text, lit, length, length-append,
  arith, All, All-append, true, Bool-cases, inl, inr, ◌⊎◌, ◌&&◌, ◌||◌, leb, text_eq, text_eq_sound,
  text_eq_refl,
}
use monadguard.Receipt.Digests.{
  Field, string, uint256, uint16, uint8, address, bytes32, Registration, Anchor, anchor_fields,
  registration_fields, Digesting, digest_fields, anchor_digest, registration_digest,
}

-- Bytes in lower case hexadecimal digits.
abbrev pub IsHex : ℕ → Text → Type 0
IsHex n s =
    (length s ≡ 2 * n) × All (λ c. ((leb 48 c && leb c 57) || (leb 97 c && leb c 102)) ≡ true) s

abbrev pub IsHexText : ℕ → Text → Type 0
IsHexText n t = (digits : Text) × (t ≡ lit "0x" ++ digits) × IsHex n digits

-- A value that its type allows; addresses are in lower case.
abbrev pub IsField : Field → Type 0
IsField (string t) = All (λ c. c < 128) t
IsField (uint256 n) = n < 16 ^ 64
IsField (uint16 n) = n < 16 ^ 4
IsField (uint8 n) = n < 16 ^ 2
IsField (address t) = IsHexText 20 t
IsField (bytes32 t) = IsHexText 32 t

abbrev pub width : Field → ℕ
width (string t) = length t
width (uint256 n) = 32
width (uint16 n) = 2
width (uint8 n) = 1
width (address t) = 20
width (bytes32 t) = 32

abbrev pub concat : (Field → Text) → List Field → Text
concat enc [] = []
concat enc (f ∷ fs) = enc f ++ concat enc fs

-- What the libraries document: `encodePacked` puts the fields one behind the other, each in the
-- bytes of its type, and hexadecimal digits stand for their bytes.
pub record IsPacking (ext : Digesting) : Type 0 where
  pub enc : Field → Text
  pub packs : (fs : List Field) → ext.encode_packed fs ≡ lit "0x" ++ concat enc fs
  pub sized : (f : Field) → IsField f → IsHex (width f) (enc f)
  pub same_uint256 :
      (m n : ℕ) → m < 16 ^ 64 → n < 16 ^ 64 → enc (uint256 m) ≡ enc (uint256 n) → m ≡ n
  pub same_uint16 : (m n : ℕ) → m < 16 ^ 4 → n < 16 ^ 4 → enc (uint16 m) ≡ enc (uint16 n) → m ≡ n
  pub same_uint8 : (m n : ℕ) → m < 16 ^ 2 → n < 16 ^ 2 → enc (uint8 m) ≡ enc (uint8 n) → m ≡ n
  pub same_address :
      (s t : Text) → IsHexText 20 s → IsHexText 20 t → enc (address s) ≡ enc (address t) → s ≡ t
  pub same_bytes32 :
      (s t : Text) → IsHexText 32 s → IsHexText 32 t → enc (bytes32 s) ≡ enc (bytes32 t) → s ≡ t
  pub same_bytes :
      (m n : ℕ) (s t : Text)
      → IsHex m s
      → IsHex n t
      → ext.hex_to_bytes s ≡ ext.hex_to_bytes t
      → s ≡ t
  pub same_hex : (m n : List ℕ) → ext.bytes_to_hex m ≡ ext.bytes_to_hex n → m ≡ n

-- Two inputs of SHA-256 with one hash.
abbrev pub Collision : Digesting → Type 0
Collision ext = (m : List ℕ) × (n : List ℕ) × (m ≢ n) × (ext.sha256 m ≡ ext.sha256 n)

abbrev pub AreFields : List Field → Type 0
AreFields fs = All IsField fs

abbrev total : List Field → ℕ
total [] = 0
total (f ∷ fs) = width f + total fs

Anchor_ext :
    (a b : Anchor)
    → a.chain_id ≡ b.chain_id
    → a.registry ≡ b.registry
    → a.attestor ≡ b.attestor
    → a.tool_id ≡ b.tool_id
    → a.content_hash ≡ b.content_hash
    → a.verdict ≡ b.verdict
    → a.score ≡ b.score
    → a.receipt_hash ≡ b.receipt_hash
    → a ≡ b
Anchor_ext a b q1 q2 q3 q4 q5 q6 q7 q8 = cc

append_cancel : (s t u v : Text) → length s ≡ length t → s ++ u ≡ t ++ v → (s ≡ t) × (u ≡ v)
append_cancel [] [] u v l e = (refl, e)
append_cancel (c ∷ s) [] u v l e = absurd (omega arith)
append_cancel [] (d ∷ t) u v l e = absurd (omega arith)
append_cancel (c ∷ s) (d ∷ t) u v l e =
    let (p, q) = append_cancel s t u v (omega arith) (cc) in (cc, q)

module _ (ext : Digesting) (is : IsPacking ext) where
  concat-IsHex : (fs : List Field) → AreFields fs → IsHex (total fs) (concat is.enc fs)
  concat-IsHex [] h = (refl, tt)
  concat-IsHex (f ∷ fs) (hf, h) =
      let (l, a) = is.sized f hf in
      let (m, b) = concat-IsHex fs h in
      (
        omega (arith, length-append (is.enc f) (concat is.enc fs)),
        All-append _ (is.enc f) (concat is.enc fs) a b,
      )

  -- Fields with one digest have one encoding, or SHA-256 has a collision.
  digest_fields-same :
      (fs gs : List Field)
      → AreFields fs
      → AreFields gs
      → digest_fields ext fs ≡ digest_fields ext gs
      → (concat is.enc fs ≡ concat is.enc gs) ⊎ Collision ext
  unfolding digest_fields
  digest_fields-same fs gs hf hg e =
      let m = ext.hex_to_bytes (concat is.enc fs) in
      let n = ext.hex_to_bytes (concat is.enc gs) in
      let hashes =
        is.same_hex (ext.sha256 m) (ext.sha256 n)
          (append_cancel (lit "0x") (lit "0x") _ _ refl (rw (is.packs fs, is.packs gs) at e)).1 in
      elim (Bool-cases (text_eq m n)) [
        | inl same ↦ inl (
            is.same_bytes (total fs) (total gs) (concat is.enc fs) (concat is.enc gs)
              (concat-IsHex fs hf) (concat-IsHex gs hg) (text_eq_sound m n same))
        | inr other ↦ inr (m, n, λ same. absurd (cc (other, same, text_eq_refl n)), hashes)
      ]

  -- The encodings of two fields of one width are told apart from what follows.
  peel :
      (f g : Field) (u v : Text)
      → IsField f
      → IsField g
      → width f ≡ width g
      → is.enc f ++ u ≡ is.enc g ++ v
      → (is.enc f ≡ is.enc g) × (u ≡ v)
  peel f g u v hf hg w e =
      append_cancel (is.enc f) (is.enc g) u v
        (omega (arith, (is.sized f hf).0, (is.sized g hg).0, w)) e

  concat_anchor :
      (a b : Anchor)
      → AreFields (anchor_fields a)
      → AreFields (anchor_fields b)
      → concat is.enc (anchor_fields a) ≡ concat is.enc (anchor_fields b)
      → a ≡ b
  unfolding anchor_fields
  concat_anchor a b ha hb e =
      let (p0, e0) =
        peel (string (lit "MonadGuard/anchor/v1")) (string (lit "MonadGuard/anchor/v1")) _ _ ha.0
          hb.0 refl e in
      let (p1, e1) = peel (uint256 a.chain_id) (uint256 b.chain_id) _ _ ha.1.0 hb.1.0 refl e0 in
      let (p2, e2) = peel (address a.registry) (address b.registry) _ _ ha.1.1.0 hb.1.1.0 refl e1 in
      let (p3, e3) =
        peel (address a.attestor) (address b.attestor) _ _ ha.1.1.1.0 hb.1.1.1.0 refl e2 in
      let (p4, e4) =
        peel (bytes32 a.tool_id) (bytes32 b.tool_id) _ _ ha.1.1.1.1.0 hb.1.1.1.1.0 refl e3 in
      let (p5, e5) =
        peel (bytes32 a.content_hash) (bytes32 b.content_hash) _ _ ha.1.1.1.1.1.0 hb.1.1.1.1.1.0
          refl e4 in
      let (p6, e6) =
        peel (uint8 a.verdict) (uint8 b.verdict) _ _ ha.1.1.1.1.1.1.0 hb.1.1.1.1.1.1.0 refl e5 in
      let (p7, e7) =
        peel (uint16 a.score) (uint16 b.score) _ _ ha.1.1.1.1.1.1.1.0 hb.1.1.1.1.1.1.1.0 refl e6 in
      let (p8, e8) =
        peel (bytes32 a.receipt_hash) (bytes32 b.receipt_hash) _ _ ha.1.1.1.1.1.1.1.1.0
          hb.1.1.1.1.1.1.1.1.0 refl e7 in
      let q1 = is.same_uint256 a.chain_id b.chain_id ha.1.0 hb.1.0 p1 in
      let q2 = is.same_address a.registry b.registry ha.1.1.0 hb.1.1.0 p2 in
      let q3 = is.same_address a.attestor b.attestor ha.1.1.1.0 hb.1.1.1.0 p3 in
      let q4 = is.same_bytes32 a.tool_id b.tool_id ha.1.1.1.1.0 hb.1.1.1.1.0 p4 in
      let q5 = is.same_bytes32 a.content_hash b.content_hash ha.1.1.1.1.1.0 hb.1.1.1.1.1.0 p5 in
      let q6 = is.same_uint8 a.verdict b.verdict ha.1.1.1.1.1.1.0 hb.1.1.1.1.1.1.0 p6 in
      let q7 = is.same_uint16 a.score b.score ha.1.1.1.1.1.1.1.0 hb.1.1.1.1.1.1.1.0 p7 in
      let q8 =
        is.same_bytes32 a.receipt_hash b.receipt_hash ha.1.1.1.1.1.1.1.1.0 hb.1.1.1.1.1.1.1.1.0
          p8 in
      Anchor_ext a b q1 q2 q3 q4 q5 q6 q7 q8

  -- With an encoding that packs fields as documented, and fields that their types allow with texts
  -- in lower case, two anchors with one digest are the same in every field (the chain, the
  -- registry, the attestor, the tool, the content, the verdict, the score and the receipt), or
  -- SHA-256 has a collision.
  pub anchor_digest-commits :
      (a b : Anchor)
      → AreFields (anchor_fields a)
      → AreFields (anchor_fields b)
      → anchor_digest ext a ≡ anchor_digest ext b
      → (a ≡ b) ⊎ Collision ext
  unfolding anchor_digest
  anchor_digest-commits a b ha hb e =
      elim (digest_fields-same (anchor_fields a) (anchor_fields b) ha hb e) [
        | inl same ↦ inl (concat_anchor a b ha hb same)
        | inr collision ↦ inr collision
      ]

  -- The two kinds of encoding differ in length.
  concat_domains :
      (a : Anchor) (r : Registration)
      → AreFields (anchor_fields a)
      → AreFields (registration_fields r)
      → concat is.enc (anchor_fields a) ≢ concat is.enc (registration_fields r)
  unfolding anchor_fields registration_fields
  concat_domains a r ha hr e =
      let (m, x) = concat-IsHex (anchor_fields a) ha in
      let (n, y) = concat-IsHex (registration_fields r) hr in
      absurd (omega (arith, ap length e, m, n))

  -- With an encoding that packs fields as documented, and fields that their types allow with texts
  -- in lower case, an anchor and a registration with one digest give a collision of SHA-256: a
  -- signature for the one is none for the other.
  pub digest_domains :
      (a : Anchor) (r : Registration)
      → AreFields (anchor_fields a)
      → AreFields (registration_fields r)
      → anchor_digest ext a ≡ registration_digest ext r
      → Collision ext
  unfolding anchor_digest registration_digest
  digest_domains a r ha hr e =
      elim (digest_fields-same (anchor_fields a) (registration_fields r) ha hr e) [
        | inl same ↦ absurd (concat_domains a r ha hr same)
        | inr collision ↦ collision
      ]
