-- ===== src/Receipt/Base64/RoundTrip.antt =====
-- Decoding what server/receipt.js:64-69 encoded.
use mathlib.Core.List.{reverse_aux, reverse_aux-append, reverse_aux-reverse_aux-nil}
use monadguard.Base.{
  ℕ, ◌+◌, ◌*◌, ◌/◌, ◌%◌, ◌<◌, ◌≡◌, refl, ap, true, false, List, [], ◌∷◌, ◌++◌, Text, All, ◌==◌,
  arith, map, some, truthy, ◌≢◌,
}
use monadguard.Receipt.Base64.{
  letter, btoa, url_letter, strip_pads_start, strip_pads, b64url, six_bits, bits_of, bytes_of,
  from_base64url,
}

-- The six bits of each letter of the encoded text.
sextets : List ℕ → List ℕ
sextets [] = []
sextets (a ∷ []) = (a / 4) ∷ (a % 4 * 16) ∷ []
sextets (a ∷ b ∷ []) = (a / 4) ∷ (a % 4 * 16 + b / 16) ∷ (b % 16 * 4) ∷ []
sextets (a ∷ b ∷ c ∷ rest) =
    (a / 4) ∷ (a % 4 * 16 + b / 16) ∷ (b % 16 * 4 + c / 64) ∷ (c % 64) ∷ sextets rest

pads : List ℕ → Text
pads [] = []
pads (a ∷ []) = b'=' ∷ b'=' ∷ []
pads (a ∷ b ∷ []) = b'=' ∷ []
pads (a ∷ b ∷ c ∷ rest) = pads rest

abbrev pub AreBytes : List ℕ → Type 0
AreBytes bytes = All (λ b. b < 256) bytes

sextets-AreSix : (bytes : List ℕ) → AreBytes bytes → All (λ n. n < 64) (sextets bytes)
unfolding sextets
sextets-AreSix [] h = tt
sextets-AreSix (a ∷ []) (ha, h) = (omega arith, (omega arith, tt))
sextets-AreSix (a ∷ b ∷ []) (ha, (hb, h)) = (omega arith, (omega arith, (omega arith, tt)))
sextets-AreSix (a ∷ b ∷ c ∷ rest) (ha, (hb, (hc, h))) =
    (omega arith, (omega arith, (omega arith, (omega arith, sextets-AreSix rest h))))

btoa-sextets : (bytes : List ℕ) → btoa bytes ≡ map letter (sextets bytes) ++ pads bytes
unfolding btoa sextets pads
btoa-sextets [] = refl
btoa-sextets (a ∷ []) = refl
btoa-sextets (a ∷ b ∷ []) = refl
btoa-sextets (a ∷ b ∷ c ∷ rest) = cc (btoa-sextets rest)

bytes_of-sextets : (bytes : List ℕ) → AreBytes bytes → bytes_of (sextets bytes) ≡ bytes
unfolding bytes_of sextets
bytes_of-sextets [] h = refl
bytes_of-sextets (a ∷ []) (ha, h) = ap (λ x. x ∷ []) (omega arith)
bytes_of-sextets (a ∷ b ∷ []) (ha, (hb, h)) = ground arith
bytes_of-sextets (a ∷ b ∷ c ∷ rest) (ha, (hb, (hc, h))) = ground (arith, bytes_of-sextets rest h)

url : ℕ → ℕ
url n = url_letter (letter n)

six_bits-url : (n : ℕ) → n < 64 → six_bits (url n) ≡ some n
unfolding six_bits url url_letter letter
six_bits-url n h = ground arith

url-IsLetter : (n : ℕ) → n < 64 → (url n == b'=') ≡ false
unfolding url url_letter letter
url-IsLetter n h = ground arith

bits_of-url : (ns : List ℕ) → All (λ n. n < 64) ns → bits_of (map url ns) ≡ ns
unfolding bits_of
bits_of-url [] h = refl
bits_of-url (n ∷ ns) (hn, h) =
    rw (url-IsLetter n hn) (rw (six_bits-url n hn) (ap (λ r. n ∷ r) (bits_of-url ns h)))

abbrev pub HasNoPad : Text → Type 0
HasNoPad s = All (λ c. (c == b'=') ≡ false) s

map_url-HasNoPad : (ns : List ℕ) → All (λ n. n < 64) ns → HasNoPad (map url ns)
map_url-HasNoPad [] h = tt
map_url-HasNoPad (n ∷ ns) (hn, h) = (url-IsLetter n hn, map_url-HasNoPad ns h)

strip_pads_start-HasNoPad : (s : Text) → HasNoPad s → strip_pads_start s ≡ s
unfolding strip_pads_start
strip_pads_start-HasNoPad [] h = refl
strip_pads_start-HasNoPad (c ∷ s) (hc, h) = rw hc refl

reverse_aux-HasNoPad : (s t : Text) → HasNoPad s → HasNoPad t → HasNoPad (reverse_aux s t)
reverse_aux-HasNoPad [] t h k = k
reverse_aux-HasNoPad (c ∷ s) t (hc, h) k = reverse_aux-HasNoPad s (c ∷ t) h (hc, k)

strip-pads :
    (bytes : List ℕ) (s : Text) → strip_pads_start (reverse_aux (pads bytes) s) ≡ strip_pads_start s
unfolding strip_pads_start pads
strip-pads [] s = refl
strip-pads (a ∷ []) s = refl
strip-pads (a ∷ b ∷ []) s = refl
strip-pads (a ∷ b ∷ c ∷ rest) s = strip-pads rest s

strip_pads-append : (bytes : List ℕ) (s : Text) → HasNoPad s → strip_pads (s ++ pads bytes) ≡ s
unfolding strip_pads
strip_pads-append bytes s h = rw (reverse_aux-append s (pads bytes) []) (
    rw (strip-pads bytes (reverse_aux s [])) (
      rw (strip_pads_start-HasNoPad (reverse_aux s []) (reverse_aux-HasNoPad s [] h tt))
        (reverse_aux-reverse_aux-nil s [])))

map_url-pads :
    (ns bytes : List ℕ) → map url_letter (map letter ns ++ pads bytes) ≡ map url ns ++ pads bytes
unfolding url_letter pads url
map_url-pads [] [] = refl
map_url-pads [] (a ∷ []) = refl
map_url-pads [] (a ∷ b ∷ []) = refl
map_url-pads [] (a ∷ b ∷ c ∷ rest) = map_url-pads [] rest
map_url-pads (n ∷ ns) bytes = ap (λ r. url n ∷ r) (map_url-pads ns bytes)

b64url-sextets : (bytes : List ℕ) → AreBytes bytes → b64url bytes ≡ map url (sextets bytes)
unfolding b64url
b64url-sextets bytes h = rw (btoa-sextets bytes) (
    rw (map_url-pads (sextets bytes) bytes) (
      strip_pads-append bytes (map url (sextets bytes))
        (map_url-HasNoPad (sextets bytes) (sextets-AreSix bytes h))))

-- Decoding gives back the bytes that b64url encoded.
pub from_base64url-b64url :
    (bytes : List ℕ) → AreBytes bytes → from_base64url (b64url bytes) ≡ bytes
unfolding from_base64url
from_base64url-b64url bytes h =
    rw (b64url-sextets bytes h)
      (rw (bits_of-url (sextets bytes) (sextets-AreSix bytes h)) (bytes_of-sextets bytes h))

url-IsDotless : (n : ℕ) → n < 64 → (url n == b'.') ≡ false
unfolding url url_letter letter
url-IsDotless n h = ground arith

abbrev pub IsDotless : Text → Type 0
IsDotless s = All (λ c. (c == b'.') ≡ false) s

map_url-IsDotless : (ns : List ℕ) → All (λ n. n < 64) ns → IsDotless (map url ns)
map_url-IsDotless [] h = tt
map_url-IsDotless (n ∷ ns) (hn, h) = (url-IsDotless n hn, map_url-IsDotless ns h)

pub b64url-IsDotless : (bytes : List ℕ) → AreBytes bytes → IsDotless (b64url bytes)
b64url-IsDotless bytes h =
    rw (b64url-sextets bytes h) (map_url-IsDotless (sextets bytes) (sextets-AreSix bytes h))

truthy-sextets : (b : ℕ) (bytes : List ℕ) → truthy (map url (sextets (b ∷ bytes))) ≡ true
unfolding truthy sextets
truthy-sextets b [] = refl
truthy-sextets b (c ∷ []) = refl
truthy-sextets b (c ∷ d ∷ rest) = refl

pub truthy-b64url : (bytes : List ℕ) → AreBytes bytes → bytes ≢ [] → truthy (b64url bytes) ≡ true
truthy-b64url [] h n = absurd (n refl)
truthy-b64url (b ∷ bytes) h n = rw (b64url-sextets (b ∷ bytes) h) (truthy-sextets b bytes)
