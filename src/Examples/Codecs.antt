-- ===== src/Examples/Codecs.antt =====
-- Base64url, a receipt's JWS, the digests and the edit distance at small inputs.
use mathlib.Core.Option.{some-injective}
use monadguard.Base.{
  ℕ, ◌≤◌, ◌<◌, ◌≡◌, ◌≢◌, ◌%◌, ◌==◌, Bool, false, map, text_eq_refl, if◌then◌else◌, refl, ap, true,
  Option, none, some, List, [], ◌∷◌, ◌++◌, Text, lit, text_eq, arith,
}
use monadguard.Scanner.Mcp.Levenshtein.{levenshtein}
use monadguard.Scanner.Mcp.Levenshtein.Edits.{Edits, levenshtein-IsShortest}
use monadguard.Receipt.Base64.{b64url, from_base64url}
use monadguard.Receipt.Base64.RoundTrip.{AreBytes, from_base64url-b64url}
use monadguard.Receipt.Jws.{
  Crypto, sign_receipt_jws, sign_text, signing_input, verify_receipt_jws, decode_receipt, canonical,
  sign_canonical,
}
use monadguard.Receipt.Digests.{without_prefix}
use monadguard.Receipt.Jws.RoundTrip.{IsCrypto, IsKeyPair, well_formed, sign_receipt_jws-round_trip}
use monadguard.Examples.Utf8.{encode, decode, encode-AreBytes, encode-some, decode-encode}

levenshtein-IsShortest_example :
    Edits (levenshtein (lit "kitten") (lit "sitting")) (lit "kitten") (lit "sitting")
    × ((n : ℕ)
        → Edits n (lit "kitten") (lit "sitting")
        → levenshtein (lit "kitten") (lit "sitting") ≤ n)
levenshtein-IsShortest_example = levenshtein-IsShortest (lit "kitten") (lit "sitting")

from_base64url-b64url_example :
    from_base64url (b64url (255 ∷ 254 ∷ 0 ∷ 7 ∷ [])) ≡ 255 ∷ 254 ∷ 0 ∷ 7 ∷ []
from_base64url-b64url_example =
    from_base64url-b64url (255 ∷ 254 ∷ 0 ∷ 7 ∷ [])
      (omega arith, (omega arith, (omega arith, (omega arith, tt))))

-- A payload is a list of truth values; its canonical form is a text in quotes, of an e with an accent and
-- of a letter outside the first plane, which is a pair of units.
abbrev letters : List Bool → Text
letters [] = b'"' ∷ []
letters (true ∷ p) = 233 ∷ letters p
letters (false ∷ p) = 55357 ∷ 56832 ∷ letters p

abbrev read_letters : Text → List Bool
read_letters [] = []
read_letters (c ∷ t) =
    let rest = read_letters t in
    if c == 233 then true ∷ rest else (if c == 55357 then false ∷ rest else rest)

abbrev read_quoted : Text → Option (List Bool)
read_quoted [] = none
read_quoted (c ∷ t) = some (read_letters t)

read_letters-letters : (p : List Bool) → read_letters (letters p) ≡ p
read_letters-letters [] = refl
read_letters-letters (true ∷ p) = ap (λ q. true ∷ q) (read_letters-letters p)
read_letters-letters (false ∷ p) = ap (λ q. false ∷ q) (read_letters-letters p)

letters-well_formed :
    (p : List Bool)
    → (well_formed (letters p) ≡ true) × ((c : ℕ) → c < 55296 → well_formed (c ∷ letters p) ≡ true)
unfolding well_formed
letters-well_formed [] = (refl, λ c h. ground arith)
letters-well_formed (true ∷ p) =
    let (w, f) = letters-well_formed p in
    (f 233 (omega arith), λ c h. ground (arith, f 233 (omega arith)))
letters-well_formed (false ∷ p) =
    let (w, f) = letters-well_formed p in (w, λ c h. ground (arith, w))

-- A code of the message under a secret, which the key that goes with it repeats.
abbrev tag : List ℕ → Text → List ℕ
tag digest secret = 1 ∷ map (λ n. n % 256) (digest ++ secret)

remainders-AreBytes : (ns : List ℕ) → AreBytes (map (λ n. n % 256) ns)
remainders-AreBytes [] = tt
remainders-AreBytes (n ∷ ns) = (omega arith, remainders-AreBytes ns)

abbrev crypto : Crypto (List Bool)
crypto = record {
  canonicalize = λ p. some (b'"' ∷ letters p);
  parse = read_quoted;
  utf8 = encode;
  from_utf8 = decode 0 0;
  sha256 = λ bytes. bytes;
  bytes_to_hex = λ bytes. bytes;
  hex_to_bytes = λ t. some t;
  sign = tag;
  verify = λ signature digest key. some (text_eq signature (tag digest key));
}

parses_back : (p : List Bool) (t : Text) → some (b'"' ∷ letters p) ≡ some t → read_quoted t ≡ some p
parses_back p t e = rw (← some-injective _ _ e) (ap some (read_letters-letters p))

not_empty : (p : List Bool) (t : Text) → some (b'"' ∷ letters p) ≡ some t → t ≢ []
not_empty p t e = λ n. absurd (cc)

pairs_only : (p : List Bool) (t : Text) → some (b'"' ∷ letters p) ≡ some t → well_formed t ≡ true
pairs_only p t e = rw (← some-injective _ _ e) ((letters-well_formed p).1 b'"' (omega arith))

crypto-IsCrypto : IsCrypto crypto
crypto-IsCrypto = record {
  utf8_bytes = encode-AreBytes;
  utf8_some = encode-some;
  utf8_decodes = decode-encode;
  canonical_well_formed = pairs_only;
  canonical_parses = parses_back;
  canonical_some = not_empty;
  sign_bytes = λ digest secret. (omega arith, remainders-AreBytes (digest ++ secret));
  sign_some = λ digest secret e. absurd (cc);
}

key_pair : IsKeyPair crypto (lit "secret") (lit "0xsecret")
unfolding without_prefix text_eq
key_pair = record {
  bytes = lit "secret";
  is_hex = refl;
  verifies = λ digest. ap some (text_eq_refl (tag digest (lit "secret")));
}

abbrev payload : List Bool
payload = true ∷ false ∷ []

abbrev jws : Text
jws = sign_text crypto (signing_input crypto (b'"' ∷ letters payload)) (lit "secret")

signed : sign_receipt_jws crypto payload (lit "secret") ≡ some jws
unfolding sign_receipt_jws canonical sign_canonical
signed = refl

sign_receipt_jws-round_trip_example :
    (verify_receipt_jws crypto jws (lit "0xsecret") ≡ some true)
    × (decode_receipt crypto jws ≡ some payload)
sign_receipt_jws-round_trip_example =
    sign_receipt_jws-round_trip crypto crypto-IsCrypto payload (lit "secret") (lit "0xsecret") jws
      key_pair signed
