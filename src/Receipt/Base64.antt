-- ===== src/Receipt/Base64.antt =====
-- server/receipt.js:62-69: base64url. `btoa` and `Buffer.from(text, 'base64url')` are the platform's
-- and are written out here.
pub mod RoundTrip
use monadguard.Base.{
  ℕ, ◌+◌, ◌-◌, ◌*◌, ◌/◌, ◌%◌, ◌<◌, ◌≡◌, refl, ap, ◌∙◌, Bool, true, false, List, [], ◌∷◌, ◌++◌, Text,
  All, ltb, ◌==◌, arith, if◌then◌else◌, map, reverse, Option, none, some,
}

-- The alphabet of base64: a letter for six bits.
unfoldable pub letter : ℕ → ℕ
letter n =
    if ltb n 26
    then n + 65
    else if ltb n 52
    then n + 71
    else if ltb n 62
    then n - 4
    else if n == 62
    then b'+'
    else b'/'

-- `btoa`: four letters for three bytes, padded with `=`.
unfoldable pub btoa : List ℕ → Text
unfolding letter
btoa [] = []
btoa (a ∷ []) = letter (a / 4) ∷ letter (a % 4 * 16) ∷ b'=' ∷ b'=' ∷ []
btoa (a ∷ b ∷ []) = letter (a / 4) ∷ letter (a % 4 * 16 + b / 16) ∷ letter (b % 16 * 4) ∷ b'=' ∷ []
btoa (a ∷ b ∷ c ∷ rest) =
    letter (a / 4)
    ∷ letter (a % 4 * 16 + b / 16)
    ∷ letter (b % 16 * 4 + c / 64)
    ∷ letter (c % 64)
    ∷ btoa rest

-- `replace(/\+/g, '-').replace(/\//g, '_')`
unfoldable pub url_letter : ℕ → ℕ
url_letter c = if c == b'+' then b'-' else if c == b'/' then b'_' else c

-- `replace(/=+$/, '')`
unfoldable pub strip_pads_start : Text → Text
strip_pads_start [] = []
strip_pads_start (c ∷ s) = if c == b'=' then strip_pads_start s else c ∷ s

unfoldable pub strip_pads : Text → Text
unfolding strip_pads_start
strip_pads s = reverse (strip_pads_start (reverse s))

unfoldable pub b64url : List ℕ → Text
unfolding btoa url_letter strip_pads
b64url bytes = strip_pads (map url_letter (btoa bytes))

-- The six bits of a letter of either alphabet.
unfoldable pub six_bits : ℕ → Option ℕ
six_bits c =
    if c == b'-'
    then some 62
    else if c == b'+'
    then some 62
    else if c == b'_'
    then some 63
    else if c == b'/'
    then some 63
    else if ltb c 48
    then none
    else if ltb c 58
    then some (c + 4)
    else if ltb c 65
    then none
    else if ltb c 91
    then some (c - 65)
    else if ltb c 97
    then none
    else if ltb c 123
    then some (c - 71)
    else none

cons_bits : Option ℕ → List ℕ → List ℕ
cons_bits none bits = bits
cons_bits (some n) bits = n ∷ bits

-- `=` ends the text, and what is no letter is skipped.
unfoldable pub bits_of : Text → List ℕ
unfolding six_bits cons_bits
bits_of [] = []
bits_of (c ∷ s) = if c == b'=' then [] else cons_bits (six_bits c) (bits_of s)

unfoldable pub bytes_of : List ℕ → List ℕ
bytes_of (a ∷ b ∷ c ∷ d ∷ rest) =
    (a * 4 + b / 16) ∷ (b % 16 * 16 + c / 4) ∷ (c % 4 * 64 + d) ∷ bytes_of rest
bytes_of (a ∷ b ∷ c ∷ []) = (a * 4 + b / 16) ∷ (b % 16 * 16 + c / 4) ∷ []
bytes_of (a ∷ b ∷ []) = (a * 4 + b / 16) ∷ []
bytes_of (a ∷ []) = []
bytes_of [] = []

-- `Buffer.from(text, 'base64url')`
unfoldable pub from_base64url : Text → List ℕ
unfolding bits_of bytes_of
from_base64url s = bytes_of (bits_of s)
