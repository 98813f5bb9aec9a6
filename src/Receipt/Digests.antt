-- ===== src/Receipt/Digests.antt =====
-- server/receipt.js:70 and 165-205: the digests that the contract computes too, and the input of
-- P256VERIFY. SHA-256, P-256 and viem's `encodePacked` are parameters.
pub mod Hex
pub mod Input
pub mod Commitment
use monadguard.Base.{
  ℕ, suc, zero, ◌+◌, ◌-◌, ◌*◌, ◌/◌, ◌%◌, ◌≡◌, List, [], ◌∷◌, ◌++◌, Text, lit, length, drop,
  replicate, ltb, if◌then◌else◌, text_eq, take,
}

-- `hex.slice(2).padStart(64, '0')`
unfoldable pub pad : Text → Text
pad digits = replicate (64 - length digits) b'0' ++ digits

unfoldable pub strip : Text → Text
unfolding pad
strip hex = pad (drop 2 hex)

-- A value of a type that `encodePacked` is called with.
pub data Field : Type 0 where
  string : Text → Field
  uint256 uint16 uint8 : ℕ → Field
  address bytes32 : Text → Field

pub record Registration : Type 0 where
  pub chain_id : ℕ
  pub registry : Text
  pub attestor : Text
  pub x : Text
  pub y : Text

pub record Anchor : Type 0 where
  pub chain_id : ℕ
  pub registry : Text
  pub attestor : Text
  pub tool_id : Text
  pub content_hash : Text
  pub verdict : ℕ
  pub score : ℕ
  pub receipt_hash : Text

unfoldable pub anchor_fields : Anchor → List Field
anchor_fields a =
    string (lit "MonadGuard/anchor/v1")
    ∷ uint256 a.chain_id
    ∷ address a.registry
    ∷ address a.attestor
    ∷ bytes32 a.tool_id
    ∷ bytes32 a.content_hash
    ∷ uint8 a.verdict
    ∷ uint16 a.score
    ∷ bytes32 a.receipt_hash
    ∷ []

unfoldable pub registration_fields : Registration → List Field
registration_fields r =
    string (lit "MonadGuard/register/v1")
    ∷ uint256 r.chain_id
    ∷ address r.registry
    ∷ address r.attestor
    ∷ bytes32 r.x
    ∷ bytes32 r.y
    ∷ []

-- `digestHex.replace(/^0x/, '')`
unfoldable pub without_prefix : Text → Text
without_prefix (a ∷ b ∷ rest) = if text_eq (a ∷ b ∷ []) (lit "0x") then rest else a ∷ b ∷ rest
without_prefix hex = hex

-- `encode_packed`, `hex_to_bytes`, `bytes_to_hex` and `sha256` of the libraries.
pub record Digesting : Type 0 where
  pub encode_packed : List Field → Text
  pub hex_to_bytes : Text → List ℕ
  pub bytes_to_hex : List ℕ → Text
  pub sha256 : List ℕ → List ℕ

module _ (ext : Digesting) where
  unfoldable pub digest_fields : List Field → Text
  digest_fields fields =
      lit "0x"
      ++ ext.bytes_to_hex (ext.sha256 (ext.hex_to_bytes (drop 2 (ext.encode_packed fields))))

  unfoldable pub anchor_digest : Anchor → Text
  unfolding digest_fields anchor_fields
  anchor_digest a = digest_fields (anchor_fields a)

  unfoldable pub registration_digest : Registration → Text
  unfolding digest_fields registration_fields
  registration_digest r = digest_fields (registration_fields r)

-- `n.toString(16)`: one digit more than the number needs is fuel enough.
unfoldable pub hex_digit : ℕ → ℕ
hex_digit n = if ltb n 10 then n + 48 else n + 87

unfoldable pub hex_digits : (fuel n : ℕ) → Text → Text
unfolding hex_digit
hex_digits zero n rest = rest
hex_digits (suc fuel) n rest =
    let more = hex_digits fuel (n / 16) (hex_digit (n % 16) ∷ rest) in
    if ltb n 16 then hex_digit n ∷ rest else more

unfoldable pub to_hex : ℕ → Text
unfolding hex_digits
to_hex n = hex_digits (suc n) n []

pub record Signature : Type 0 where
  pub r : Text
  pub s : Text

-- `sign` is `p256.sign` with `lowS`, of a digest in bytes.
unfoldable pub sign_digest :
    (hex_to_bytes : Text → List ℕ) (sign : List ℕ → Text → ℕ × ℕ) (digest secret : Text) → Signature
unfolding to_hex pad without_prefix
sign_digest hex_to_bytes sign digest secret =
    let sig = sign (hex_to_bytes (without_prefix digest)) secret in
    record { r = lit "0x" ++ pad (to_hex sig.0); s = lit "0x" ++ pad (to_hex sig.1) }

unfoldable pub precompile_input : (digest : Text) → Signature → (x y : Text) → Text
unfolding strip
precompile_input digest sig x y =
    lit "0x" ++ (strip digest ++ (strip sig.r ++ (strip sig.s ++ (strip x ++ strip y))))
