-- ===== src/Interop.antt =====
-- scripts/receipt-checks.mjs: `checkReceipt`, the checks that a receipt of any implementation must
-- pass. The decoders, the parsers, P-256, SHA-256 and the canonical form are parameters. The details
-- of a check, which are for the reader, are left out.
pub mod Genuine
use monadguard.Base.{
  String, ℕ, ◌+◌, ◌≡◌, ◌==◌, Bool, true, false, not, Option, none, some, List, [], ◌∷◌, ◌++◌, Text,
  lit, text_eq, to_lower, truthy, length, take, drop, replicate, split, every, find, ltb,
  if◌then◌else◌,
}

pub record Jwk : Type 0 where
  pub kid : Option Text
  pub crv : Option Text
  pub x : Text
  pub y : Text

-- The header of a JWS, which is an object.
pub record Header : Type 0 where
  pub alg : Option Text
  pub kid : Option Text

pub record Check : Type 0 where
  pub name : String
  pub ok : Bool

pub record Checked : Type 0 where
  pub ok : Bool
  pub hash : Option Text
  pub checks : List Check

abbrev check : String → Bool → Check
check name ok = record { name = name; ok = ok }

-- `a === b`, where both may be undefined.
unfoldable pub option_eq : Option Text → Option Text → Bool
option_eq none none = true
option_eq (some a) (some b) = text_eq a b
option_eq _ _ = false

-- `keys.find((k) => k.kid === header.kid) ?? (keys.length === 1 ? keys[0] : null)`
unfoldable pub only_key : List Jwk → Option Jwk
only_key (k ∷ []) = some k
only_key _ = none

unfoldable pub or_else : Option Jwk → Option Jwk → Option Jwk
or_else none k = k
or_else (some j) k = some j

unfoldable pub find_key : Option Text → List Jwk → Option Jwk
unfolding option_eq only_key or_else
find_key kid keys = or_else (find (λ (k : Jwk). option_eq k.kid kid) keys) (only_key keys)

-- `bytes.set(part, offset)`; `none` is the RangeError.
unfoldable pub set_bytes : List ℕ → ℕ → List ℕ → Option (List ℕ)
set_bytes bytes offset part =
    if ltb (length bytes) (offset + length part)
    then none
    else some (take offset bytes ++ (part ++ drop (offset + length part) bytes))

-- What the script imports. `none` is an exception; `parse` gives `some none` for JSON's null.
pub record Crypto (Json : Type 0) : Type 0 where
  pub decode : Text → Option (List ℕ)
  pub utf8 : List ℕ → Text
  pub parse_header : Text → Option Header
  pub parse : Text → Option (Option Json)
  pub canonical : Json → Text
  pub hash : List ℕ → Text
  pub verify : (signature : List ℕ) (input : Text) (key : List ℕ) → Option Bool

abbrev is_p256 : Jwk → Bool
is_p256 k = option_eq k.crv (some (lit "P-256"))

bind : {A B : Type 0} → Option A → (A → Option B) → Option B
bind none f = none
bind (some a) f = f a

was_true : Option Bool → Bool
was_true none = false
was_true (some b) = b

module _ {Json : Type 0} (ext : Crypto Json) where
  -- The uncompressed point `04 ‖ x ‖ y`.
  unfoldable pub key_bytes : Jwk → Option (List ℕ)
  unfolding bind set_bytes
  key_bytes k = bind (ext.decode k.x) (λ x.
      bind (set_bytes (4 ∷ replicate 64 0) 1 x)
        (λ bytes. bind (ext.decode k.y) (λ y. set_bytes bytes 33 y)))

  unfoldable pub verified : Jwk → (h64 p64 s64 : Text) → Bool
  unfolding key_bytes bind was_true
  verified k h64 p64 s64 = was_true (
      bind (key_bytes k)
        (λ key. bind (ext.decode s64) (λ sig. ext.verify sig (h64 ++ (lit "." ++ p64)) key)))

  unfoldable pub key_checks : Option Jwk → (h64 p64 s64 : Text) → List Check
  unfolding verified
  key_checks none h64 p64 s64 = check "the kid resolves to a key in the JWKS" false ∷ []
  key_checks (some k) h64 p64 s64 =
      check "the kid resolves to a key in the JWKS" true
      ∷ check "the key is on P-256" (is_p256 k)
      ∷ (if is_p256 k
          then check "the signature verifies against the published key" (verified k h64 p64 s64)
            ∷ []
          else [])

  -- The canonical form of `null` is not looked at.
  unfoldable pub payload_checks : Text → Option (Option Json) → List Check
  payload_checks text none = check "the payload parses as JSON" false ∷ []
  payload_checks text (some none) = check "the payload parses as JSON" true ∷ []
  payload_checks text (some (some parsed)) =
      check "the payload parses as JSON" true
      ∷ check "the payload is byte-for-byte what our JCS produces"
          (text_eq (ext.canonical parsed) text)
      ∷ []

  -- `if (expectHash)`
  unfoldable pub hash_checks : Text → Option Text → List Check
  hash_checks hash none = []
  hash_checks hash (some expected) =
      if truthy expected
      then check "it matches the published hash" (text_eq (to_lower expected) (to_lower hash)) ∷ []
      else []

  unfoldable pub finish : List Check → Option Text → Checked
  finish checks hash = record {
    ok = every (λ (c : Check). c.ok) checks;
    hash = hash;
    checks = checks;
  }

  -- The payload is decoded outside of any `try`.
  unfoldable pub check_payload : List Check → Option Text → Option (List ℕ) → Option Checked
  unfolding finish payload_checks hash_checks
  check_payload before expect none = none
  check_payload before expect (some bytes) = some (
      finish
        (before
          ++ (payload_checks (ext.utf8 bytes) (ext.parse (ext.utf8 bytes))
              ++ (check "receiptHash = sha256(JCS(payload))" true
                  ∷ hash_checks (ext.hash bytes) expect)))
        (some (ext.hash bytes)))

  -- `JSON.parse(new TextDecoder().decode(b64urlToBytes(h64)))`
  unfoldable pub read_header : Text → Option Header
  unfolding bind
  read_header h64 = bind (ext.decode h64) (λ bytes. ext.parse_header (ext.utf8 bytes))

  unfoldable pub check_header :
      List Check → List Jwk → Option Text → (h64 p64 s64 : Text) → Option Header → Option Checked
  unfolding check_payload key_checks find_key finish
  check_header before keys expect h64 p64 s64 none =
      some (finish (before ++ check "the JWS header parses" false ∷ []) none)
  check_header before keys expect h64 p64 s64 (some header) =
      check_payload
        (before
          ++ (check "the header alg is ES256" (option_eq header.alg (some (lit "ES256")))
              ∷ key_checks (find_key header.kid keys) h64 p64 s64))
        expect (ext.decode p64)

  unfoldable pub check_parts : List Check → List Jwk → Option Text → List Text → Option Checked
  unfolding check_header read_header finish
  check_parts before keys expect (h64 ∷ p64 ∷ s64 ∷ []) =
      check_header (before ++ check "the JWS is compact serialization" true ∷ []) keys expect h64
        p64 s64 (read_header h64)
  check_parts before keys expect parts =
      some (finish (before ++ check "the JWS is compact serialization" false ∷ []) none)

  -- `typeof jws === 'string' ? jws.split('.') : []`
  unfoldable pub parts_of : Option Text → List Text
  parts_of none = []
  parts_of (some jws) = split b'.' jws

  unfoldable pub check_receipt : Option Text → List Jwk → Option Text → Option Checked
  unfolding check_parts parts_of
  check_receipt jws keys expect =
      check_parts (check "the JWKS carries at least one key" (ltb 0 (length keys)) ∷ []) keys expect
        (parts_of jws)
