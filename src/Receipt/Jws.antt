-- ===== src/Receipt/Jws.antt =====
-- server/receipt.js:120-163: the canonical form, the hash and the JWS of a receipt. The canonical form
-- and its parser, UTF-8, SHA-256 and P-256 are parameters; base64url is written out.
pub mod RoundTrip
use monadguard.Base.{
  ℕ, Bool, true, false, ◌&&◌, Option, none, some, List, [], ◌∷◌, ◌++◌, Text, lit, split, truthy,
  get_elem?, if◌then◌else◌,
}
use monadguard.Receipt.Base64.{b64url, from_base64url}
use monadguard.Receipt.Digests.{strip, without_prefix}

-- What the module imports, over a type of payloads. `canonicalize` gives `none` for undefined, and a
-- function that may throw gives `none` for the exception.
pub record Crypto (Payload : Type 0) : Type 0 where
  pub canonicalize : Payload → Option Text
  pub parse : Text → Option Payload
  pub utf8 : Text → List ℕ
  pub from_utf8 : List ℕ → Text
  pub sha256 : List ℕ → List ℕ
  pub bytes_to_hex : List ℕ → Text
  pub hex_to_bytes : Text → Option (List ℕ)
  pub sign : (digest : List ℕ) (secret : Text) → List ℕ
  pub verify : (signature digest key : List ℕ) → Option Bool

-- `JSON.stringify(header)`
abbrev pub header_json : Text
header_json =
    lit
      "{\"alg\":\"ES256\",\"kid\":\"monadguard-p256-v1\",\"typ\":\"application/vnd.monadguard.receipt+jws\",\"cty\":\"application/json\"}"

pub record PublishedKey : Type 0 where
  pub kid : Text
  pub crv : Text
  pub x : Text
  pub y : Text

-- `Buffer.from(text, 'hex').toString('base64url')`
unfoldable pub jwk_of : (from_hex : Text → List ℕ) (x y : Text) → PublishedKey
unfolding strip b64url
jwk_of from_hex x y = record {
  kid = lit "monadguard-p256-v1";
  crv = lit "P-256";
  x = b64url (from_hex (strip x));
  y = b64url (from_hex (strip y));
}

module _ {Payload : Type 0} (ext : Crypto Payload) where
  -- `none` is the exception for what is not canonicalizable.
  unfoldable pub canonical : Payload → Option Text
  canonical p = ext.canonicalize p

  unfoldable pub hash_text : Option Text → Option Text
  hash_text none = none
  hash_text (some canon) = some (lit "0x" ++ ext.bytes_to_hex (ext.sha256 (ext.utf8 canon)))

  unfoldable pub receipt_hash : Payload → Option Text
  unfolding canonical hash_text
  receipt_hash p = hash_text (canonical p)

  unfoldable pub signing_input : Text → Text
  unfolding b64url
  signing_input canon = b64url (ext.utf8 header_json) ++ (b'.' ∷ b64url (ext.utf8 canon))

  unfoldable pub sign_text : Text → Text → Text
  unfolding b64url
  sign_text input secret = input ++ (b'.' ∷ b64url (ext.sign (ext.sha256 (ext.utf8 input)) secret))

  unfoldable pub sign_canonical : Option Text → Text → Option Text
  unfolding sign_text signing_input
  sign_canonical none secret = none
  sign_canonical (some canon) secret = some (sign_text (signing_input canon) secret)

  unfoldable pub sign_receipt_jws : Payload → (secret : Text) → Option Text
  unfolding canonical sign_canonical
  sign_receipt_jws p secret = sign_canonical (canonical p) secret

  unfoldable pub verify_key : (signature digest : List ℕ) → Option (List ℕ) → Option Bool
  verify_key signature digest none = none
  verify_key signature digest (some key) = ext.verify signature digest key

  -- Parts behind the third are not looked at.
  unfoldable pub verify_parts : List Text → (key : Text) → Option Bool
  unfolding from_base64url without_prefix verify_key
  verify_parts (h ∷ p ∷ s ∷ more) key =
      if truthy h && (truthy p && truthy s)
      then verify_key (from_base64url s) (ext.sha256 (ext.utf8 (h ++ (b'.' ∷ p))))
          (ext.hex_to_bytes (without_prefix key))
      else some false
  verify_parts parts key = some false

  unfoldable pub verify_receipt_jws : (jws key : Text) → Option Bool
  unfolding verify_parts
  verify_receipt_jws jws key = verify_parts (split b'.' jws) key

  -- A text without a second part: an exception.
  unfoldable pub decode_part : Option Text → Option Payload
  unfolding from_base64url
  decode_part none = none
  decode_part (some p) = ext.parse (ext.from_utf8 (from_base64url p))

  unfoldable pub decode_receipt : Text → Option Payload
  unfolding decode_part
  decode_receipt jws = decode_part (get_elem? (split b'.' jws) 1)
