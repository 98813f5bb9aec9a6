-- ===== src/Keys.antt =====
-- scripts/attestor.mjs:36-52, server/keys.js and web/src/passkey.js:48-54: the keys that are derived
-- from 32 bytes. SHA-256, the curves and the decoder of hexadecimal digits are parameters.
pub mod Scalars
use monadguard.Base.{
  ℕ, ◌+◌, ◌-◌, ◌*◌, ◌%◌, ◌==◌, Bool, true, false, not, Option, none, some, List, [], ◌∷◌, ◌++◌,
  Text, lit, length, replicate, truthy, if◌then◌else◌,
}
use monadguard.Receipt.Digests.{pad, to_hex, without_prefix}

-- `n` of P-256 and of secp256k1.
abbrev pub p256_order : ℕ
p256_order = 115792089210356248762697446949407573529996955224135760342422259061068512044369

abbrev pub secp256k1_order : ℕ
secp256k1_order = 115792089237316195423570985008687907852837564279074904382605163141518161494337

-- The number that bytes stand for: `BigInt('0x' + bytesToHex(bytes))`.
unfoldable pub number_of : ℕ → List ℕ → ℕ
number_of n [] = n
number_of n (b ∷ bytes) = number_of (n * 256 + b) bytes

-- `BigInt(…) % (n - 1n) + 1n`
unfoldable pub scalar : (order : ℕ) → List ℕ → ℕ
unfolding number_of
scalar order wide = number_of 0 wide % (order - 1) + 1

pub record Derived : Type 0 where
  pub private_key : Text
  pub x : Text
  pub y : Text
  pub public_key : Text

pub data Origin : Type 0 where
  env_prf dev_key : Origin

-- `utf8` of a constant, SHA-256, the multiple of the base point, and `hexToBytes`, where `none` is an
-- exception. A private key stands in its hexadecimal digits.
pub record Curves : Type 0 where
  pub utf8 : Text → List ℕ
  pub sha256 : List ℕ → List ℕ
  pub multiply : ℕ → ℕ × ℕ
  pub hex_to_bytes : Text → Option (List ℕ)

module _ (ext : Curves) where
  unfoldable pub private_scalar : (order : ℕ) (domain : Text) → List ℕ → ℕ
  unfolding scalar
  private_scalar order domain prf = scalar order (ext.sha256 (ext.utf8 domain ++ prf))

  -- `none` is the exception for an output that has not 32 bytes.
  unfoldable pub derive_attestor_key : List ℕ → Option Derived
  unfolding private_scalar pad to_hex
  derive_attestor_key prf =
      let k = private_scalar p256_order (lit "MonadGuard/P256/v1") prf in
      let point = ext.multiply k in
      if length prf == 32
      then some (record {
        private_key = pad (to_hex k);
        x = lit "0x" ++ pad (to_hex point.0);
        y = lit "0x" ++ pad (to_hex point.1);
        public_key = lit "0x04" ++ (pad (to_hex point.0) ++ pad (to_hex point.1));
      })
      else none

  -- The account of a passkey, from the same bytes.
  unfoldable pub derive_evm_key : List ℕ → Text
  unfolding private_scalar pad to_hex
  derive_evm_key prf =
      pad (to_hex (private_scalar secp256k1_order (lit "MonadGuard/secp256k1/v1") prf))

  -- `cached`
  abbrev pub Cache : Type 0
  Cache = Option (Derived × Origin)

  -- A call: the cache after it, and the key, which may be none; the outer `none` is an exception.
  abbrev pub Loaded : Type 0
  Loaded = Cache × Option (Option (Derived × Origin))

  unfoldable pub keep_key : Origin → Option Derived → Loaded
  keep_key origin none = (none, none)
  keep_key origin (some k) = (some (k, origin), some (some (k, origin)))

  unfoldable pub load_prf : Option (List ℕ) → Loaded
  unfolding keep_key derive_attestor_key
  load_prf none = (none, none)
  load_prf (some bytes) =
      if length bytes == 32 then keep_key env_prf (derive_attestor_key bytes) else (none, none)

  unfoldable pub load_dev : (allow_dev_key : Bool) → Loaded
  unfolding keep_key derive_attestor_key
  load_dev allow =
      if allow then keep_key dev_key (derive_attestor_key (replicate 32 7)) else (none, some none)

  -- `MONADGUARD_PRF_HEX`, which is missing or empty where there is none.
  unfoldable pub load_fresh : (allow_dev_key : Bool) → Option Text → Loaded
  unfolding load_prf load_dev without_prefix
  load_fresh allow none = load_dev allow
  load_fresh allow (some hex) =
      if truthy hex then load_prf (ext.hex_to_bytes (without_prefix hex)) else load_dev allow

  unfoldable pub load_attestor : Cache → (allow_dev_key : Bool) → Option Text → Loaded
  unfolding load_fresh
  load_attestor (some k) allow hex = (some k, some (some k))
  load_attestor none allow hex = load_fresh allow hex
