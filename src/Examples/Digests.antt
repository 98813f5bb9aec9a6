-- ===== src/Examples/Digests.antt =====
-- The digests of a receipt and the input of the precompile at small inputs.
use monadguard.Base.{
  ℕ, zero, suc, ◌+◌, ◌*◌, ◌/◌, ◌%◌, ◌^◌, ◌<◌, ◌≡◌, ◌⊎◌, ◌∙◌, refl, sym, ap, true, List, [], ◌∷◌,
  ◌++◌, Text, lit, length, replicate, drop, All, arith, leb, Bool, ◌&&◌, ◌||◌, ltb,
}
use monadguard.Receipt.Digests.{
  Field, string, uint256, uint16, uint8, address, bytes32, Anchor, Registration, anchor_fields,
  registration_fields, Digesting, digest_fields, anchor_digest, registration_digest, hex_digit,
  sign_digest, precompile_input,
}
use monadguard.Receipt.Digests.Hex.{read_hex, digit_value-hex_digit}
use monadguard.Receipt.Digests.Input.{IsInput, sign_digest-IsInput}
use monadguard.Receipt.Digests.Commitment.{
  IsHex, IsHexText, IsField, AreFields, width, concat, IsPacking, Collision, anchor_digest-commits,
  digest_domains,
}

abbrev pub word_text : Text
word_text = lit "0x" ++ replicate 64 b'a'

abbrev pub address_text : Text
address_text = lit "0x" ++ replicate 40 b'b'

sign_digest-IsInput_example :
    IsInput
      (precompile_input word_text
        (sign_digest (λ t. t) (λ d s. (258, 77)) word_text (lit "k"))
        word_text
        word_text)
      word_text
      word_text
      word_text
      258
      77
sign_digest-IsInput_example =
    sign_digest-IsInput (λ t. t) (λ d s. (258, 77)) word_text (lit "k") word_text word_text 258 77
      refl (omega arith) (omega arith) (omega arith) (omega arith) (omega arith)

-- The last `k` hexadecimal digits of a number.
abbrev pub fixed : ℕ → ℕ → Text → Text
fixed zero n rest = rest
fixed (suc k) n rest = fixed k (n / 16) (hex_digit (n % 16) ∷ rest)

abbrev IsDigit : ℕ → Type 0
IsDigit c = ((leb 48 c && leb c 57) || (leb 97 c && leb c 102)) ≡ true

hex_digit-IsDigit : (n : ℕ) → n < 16 → IsDigit (hex_digit n)
unfolding hex_digit
hex_digit-IsDigit n h = ground arith

fixed-IsHex :
    (k n : ℕ) (rest : Text)
    → All IsDigit rest
    → (length (fixed k n rest) ≡ k + length rest) × All IsDigit (fixed k n rest)
fixed-IsHex zero n rest h = (omega arith, h)
fixed-IsHex (suc k) n rest h =
    let (l, a) =
      fixed-IsHex k (n / 16) (hex_digit (n % 16) ∷ rest)
        (hex_digit-IsDigit (n % 16) (omega arith), h) in
    (omega arith, a)

read_hex-fixed :
    (k n : ℕ) (rest : Text) → n < 16 ^ k → read_hex 0 (fixed k n rest) ≡ read_hex n rest
unfolding read_hex
read_hex-fixed zero n rest h = ap (λ m. read_hex m rest) (omega arith)
read_hex-fixed (suc k) n rest h =
    read_hex-fixed k (n / 16) (hex_digit (n % 16) ∷ rest) (omega arith)
    ∙ ap (λ m. read_hex m rest) (omega (arith, digit_value-hex_digit (n % 16) (omega arith)))

same_fixed : (k m n : ℕ) → m < 16 ^ k → n < 16 ^ k → fixed k m [] ≡ fixed k n [] → m ≡ n
unfolding read_hex
same_fixed k m n hm hn e =
    sym (read_hex-fixed k m [] hm) ∙ ap (read_hex 0) e ∙ read_hex-fixed k n [] hn

zeros-IsHex : (k c : ℕ) → IsDigit c → All IsDigit (replicate k c)
zeros-IsHex zero c h = tt
zeros-IsHex (suc k) c h = (h, zeros-IsHex k c h)

abbrev pub toy_enc : Field → Text
toy_enc (string t) = fixed (2 * length t) 0 []
toy_enc (uint256 n) = fixed 64 n []
toy_enc (uint16 n) = fixed 4 n []
toy_enc (uint8 n) = fixed 2 n []
toy_enc (address t) = drop 2 t
toy_enc (bytes32 t) = drop 2 t

fixed-sized : (k n : ℕ) → IsHex k (fixed (2 * k) n [])
fixed-sized k n = let (l, a) = fixed-IsHex (2 * k) n [] tt in (omega arith, a)

text-sized : (k : ℕ) (t : Text) → IsHexText k t → IsHex k (drop 2 t)
text-sized k t (digits, e, h) = rw e h

toy_sized : (f : Field) → IsField f → IsHex (width f) (toy_enc f)
toy_sized (string t) h = fixed-sized (length t) 0
toy_sized (uint256 n) h = fixed-sized 32 n
toy_sized (uint16 n) h = fixed-sized 2 n
toy_sized (uint8 n) h = fixed-sized 1 n
toy_sized (address t) h = text-sized 20 t h
toy_sized (bytes32 t) h = text-sized 32 t h

same_text : (k : ℕ) (s t : Text) → IsHexText k s → IsHexText k t → drop 2 s ≡ drop 2 t → s ≡ t
same_text k s t (ds, es, hs) (dt, et, ht) e =
    es ∙ ap (λ d. lit "0x" ++ d) (rw (es, et) at e) ∙ sym et

abbrev pub toy_digesting : (List ℕ → List ℕ) → Digesting
toy_digesting sha = record {
  encode_packed = λ fs. lit "0x" ++ concat toy_enc fs;
  hex_to_bytes = λ t. t;
  bytes_to_hex = λ bytes. bytes;
  sha256 = sha;
}

toy_digesting-IsPacking : (sha : List ℕ → List ℕ) → IsPacking (toy_digesting sha)
toy_digesting-IsPacking sha = record {
  enc = toy_enc;
  packs = λ fs. refl;
  sized = toy_sized;
  same_uint256 = same_fixed 64;
  same_uint16 = same_fixed 4;
  same_uint8 = same_fixed 2;
  same_address = same_text 20;
  same_bytes32 = same_text 32;
  same_bytes = λ m n s t h k e. e;
  same_hex = λ m n e. e;
}

abbrev pub anchor : Anchor
anchor = record {
  chain_id = 143;
  registry = address_text;
  attestor = address_text;
  tool_id = word_text;
  content_hash = word_text;
  verdict = 1;
  score = 3;
  receipt_hash = word_text;
}

abbrev registration : Registration
registration = record {
  chain_id = 143;
  registry = address_text;
  attestor = address_text;
  x = word_text;
  y = word_text;
}

address_text-IsHexText : IsHexText 20 address_text
address_text-IsHexText = (replicate 40 b'b', refl, (refl, zeros-IsHex 40 b'b' refl))

word_text-IsHexText : IsHexText 32 word_text
word_text-IsHexText = (replicate 64 b'a', refl, (refl, zeros-IsHex 64 b'a' refl))

abbrev is_ascii : Text → Bool
is_ascii [] = true
is_ascii (c ∷ s) = ltb c 128 && is_ascii s

is_ascii_sound : (t : Text) → is_ascii t ≡ true → All (λ c. c < 128) t
is_ascii_sound [] h = tt
is_ascii_sound (c ∷ s) h = (ground arith, is_ascii_sound s (ground arith))

anchor-AreFields : AreFields (anchor_fields anchor)
unfolding anchor_fields
anchor-AreFields = (
  is_ascii_sound (lit "MonadGuard/anchor/v1") refl,
  (
    omega arith,
    (
      address_text-IsHexText,
      (
        address_text-IsHexText,
        (
          word_text-IsHexText,
          (word_text-IsHexText, (omega arith, (omega arith, (word_text-IsHexText, tt)))),
        ),
      ),
    ),
  ),
)

registration-AreFields : AreFields (registration_fields registration)
unfolding registration_fields
registration-AreFields = (
  is_ascii_sound (lit "MonadGuard/register/v1") refl,
  (
    omega arith,
    (
      address_text-IsHexText,
      (address_text-IsHexText, (word_text-IsHexText, (word_text-IsHexText, tt))),
    ),
  ),
)

anchor_digest-commits_example : (anchor ≡ anchor) ⊎ Collision (toy_digesting (λ bytes. bytes))
anchor_digest-commits_example =
    anchor_digest-commits (toy_digesting (λ bytes. bytes))
      (toy_digesting-IsPacking (λ bytes. bytes)) anchor anchor anchor-AreFields anchor-AreFields
      refl

-- A hash that is the same for everything.
same_digest :
    anchor_digest (toy_digesting (λ bytes. [])) anchor
    ≡ registration_digest (toy_digesting (λ bytes. [])) registration
unfolding anchor_digest registration_digest digest_fields
same_digest = refl

digest_domains_example : Collision (toy_digesting (λ bytes. []))
digest_domains_example =
    digest_domains (toy_digesting (λ bytes. [])) (toy_digesting-IsPacking (λ bytes. [])) anchor
      registration anchor-AreFields registration-AreFields same_digest
