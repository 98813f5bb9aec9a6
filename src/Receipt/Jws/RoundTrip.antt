-- ===== src/Receipt/Jws/RoundTrip.antt =====
-- A receipt that server/receipt.js:134-139 signs, read by 141-155.
use mathlib.Core.Option.{some-injective}
use mathlib.Core.List.{append_assoc}
use monadguard.Base.{
  ℕ, ◌≡◌, ◌≢◌, ◌∙◌, ap, sym, true, Bool, not, ◌&&◌, ltb, leb, if◌then◌else◌, some, List, [], ◌∷◌,
  Text, split, split-append, split-whole, Option-cases, inl, inr,
}
use monadguard.Receipt.Base64.{b64url}
use monadguard.Receipt.Base64.RoundTrip.{
  AreBytes, b64url-IsDotless, truthy-b64url, from_base64url-b64url,
}
use monadguard.Receipt.Digests.{without_prefix}
use monadguard.Receipt.Jws.{
  Crypto, header_json, canonical, sign_receipt_jws, sign_text, signing_input, verify_receipt_jws,
  verify_parts, decode_receipt,
}

abbrev pub in_range : ℕ → ℕ → ℕ → Bool
in_range low high c = leb low c && leb c high

-- A text of UTF-16 units in which every surrogate stands in a pair.
unfoldable pub well_formed : Text → Bool
well_formed [] = true
well_formed (c ∷ []) = ltb c 65536 && not (in_range 55296 57343 c)
well_formed (c ∷ d ∷ s) =
    let pair = in_range 56320 57343 d && well_formed s in
    let single = ltb c 65536 && (not (in_range 56320 57343 c) && well_formed (d ∷ s)) in
    if in_range 55296 56319 c then pair else single

-- What the libraries document: texts and signatures are bytes; the decoder of UTF-8 gives back a text
-- without lone surrogates; JSON.stringify, of which the canonical form is made, writes a lone
-- surrogate as an escape; and the canonical form of a payload parses to it.
pub record IsCrypto {Payload : Type 0} (ext : Crypto Payload) : Type 0 where
  pub utf8_bytes : (t : Text) → AreBytes (ext.utf8 t)
  pub utf8_some : (t : Text) → t ≢ [] → ext.utf8 t ≢ []
  pub utf8_decodes : (t : Text) → well_formed t ≡ true → ext.from_utf8 (ext.utf8 t) ≡ t
  pub canonical_well_formed :
      (p : Payload) (t : Text) → ext.canonicalize p ≡ some t → well_formed t ≡ true
  pub canonical_parses :
      (p : Payload) (t : Text) → ext.canonicalize p ≡ some t → ext.parse t ≡ some p
  pub canonical_some : (p : Payload) (t : Text) → ext.canonicalize p ≡ some t → t ≢ []
  pub sign_bytes : (digest : List ℕ) (secret : Text) → AreBytes (ext.sign digest secret)
  pub sign_some : (digest : List ℕ) (secret : Text) → ext.sign digest secret ≢ []

-- The key, in hex, is that of the secret: its signatures verify.
pub record IsKeyPair {Payload : Type 0} (ext : Crypto Payload) (secret key : Text) : Type 0 where
  pub bytes : List ℕ
  pub is_hex : ext.hex_to_bytes (without_prefix key) ≡ some bytes
  pub verifies : (digest : List ℕ) → ext.verify (ext.sign digest secret) digest bytes ≡ some true

module _ {Payload : Type 0} (ext : Crypto Payload) (is : IsCrypto ext) where
  header_some : header_json ≢ []
  header_some e = absurd (cc)

  abbrev pub signature : (canon secret : Text) → List ℕ
  signature canon secret = ext.sign (ext.sha256 (ext.utf8 (signing_input ext canon))) secret

  -- A JWS has three parts.
  pub split-sign_text :
      (canon secret : Text)
      → split b'.' (sign_text ext (signing_input ext canon) secret)
        ≡ b64url (ext.utf8 header_json)
          ∷ b64url (ext.utf8 canon)
          ∷ b64url (signature canon secret)
          ∷ []
  unfolding sign_text signing_input
  split-sign_text canon secret =
      rw
        (append_assoc (b64url (ext.utf8 header_json)) (b'.' ∷ b64url (ext.utf8 canon))
          (b'.' ∷ b64url (signature canon secret)))
        (split-append b'.' (b64url (ext.utf8 header_json)) _
            (b64url-IsDotless (ext.utf8 header_json) (is.utf8_bytes header_json))
          ∙ ap (λ ps. b64url (ext.utf8 header_json) ∷ ps)
              (split-append b'.' (b64url (ext.utf8 canon)) _
                  (b64url-IsDotless (ext.utf8 canon) (is.utf8_bytes canon))
                ∙ ap (λ ps. b64url (ext.utf8 canon) ∷ ps)
                    (split-whole b'.' (b64url (signature canon secret))
                      (b64url-IsDotless (signature canon secret) (is.sign_bytes _ secret)))))

  -- What a signed receipt is made of.
  sign_receipt_jws-some :
      (p : Payload) (secret jws : Text)
      → sign_receipt_jws ext p secret ≡ some jws
      → (canon : Text) × (ext.canonicalize p ≡ some canon)
        × (jws ≡ sign_text ext (signing_input ext canon) secret)
  unfolding sign_receipt_jws canonical
  sign_receipt_jws-some p secret jws h = elim (Option-cases (ext.canonicalize p)) [
    | inl e ↦ absurd (cc (rw e at h))
    | inr (canon, e) ↦ (canon, e, sym (some-injective _ _ (rw e at h)))
  ]

  verify-sign_text :
      (canon secret key : Text)
      → IsKeyPair ext secret key
      → canon ≢ []
      → verify_receipt_jws ext (sign_text ext (signing_input ext canon) secret) key ≡ some true
  unfolding verify_receipt_jws verify_parts signing_input
  verify-sign_text canon secret key pair n = rw (split-sign_text canon secret) (
      rw
        (truthy-b64url (ext.utf8 header_json) (is.utf8_bytes header_json)
          (is.utf8_some header_json header_some))
        (rw (truthy-b64url (ext.utf8 canon) (is.utf8_bytes canon) (is.utf8_some canon n)) (
          rw
            (truthy-b64url (signature canon secret) (is.sign_bytes _ secret)
              (is.sign_some _ secret))
            (rw
              (from_base64url-b64url (signature canon secret) (is.sign_bytes _ secret), pair.is_hex)
              (pair.verifies _)))))

  decode-sign_text :
      (p : Payload) (canon secret : Text)
      → ext.canonicalize p ≡ some canon
      → decode_receipt ext (sign_text ext (signing_input ext canon) secret) ≡ some p
  unfolding decode_receipt
  decode-sign_text p canon secret e = rw (split-sign_text canon secret) (
      rw (from_base64url-b64url (ext.utf8 canon) (is.utf8_bytes canon)) (
        rw (is.utf8_decodes canon (is.canonical_well_formed p canon e))
          (is.canonical_parses p canon e)))

  -- With libraries that decode what they encode, in the case of UTF-8 for texts without lone
  -- surrogates, a canonical form that has none, and a key pair whose signatures verify, a receipt
  -- that signReceiptJws signed verifies under the key of the secret, and decodeReceipt gives the
  -- payload back.
  pub sign_receipt_jws-round_trip :
      (p : Payload) (secret key jws : Text)
      → IsKeyPair ext secret key
      → sign_receipt_jws ext p secret ≡ some jws
      → (verify_receipt_jws ext jws key ≡ some true) × (decode_receipt ext jws ≡ some p)
  sign_receipt_jws-round_trip p secret key jws pair h =
      let (canon, e, is_jws) = sign_receipt_jws-some p secret jws h in
      rw is_jws (
        verify-sign_text canon secret key pair (is.canonical_some p canon e),
        decode-sign_text p canon secret e,
      )
