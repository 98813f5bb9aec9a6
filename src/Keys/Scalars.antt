-- ===== src/Keys/Scalars.antt =====
-- The scalars of scripts/attestor.mjs:36-40, and when server/keys.js hands out the development key.
use monadguard.Base.{
  ℕ, ◌-◌, ◌==◌, ◌<◌, ◌≤◌, ◌≡◌, ◌^◌, refl, ap, Bool, true, false, Option, none, some, List, ◌++◌,
  Text, lit, length, Bool-cases, inl, inr, arith, truthy, [], ◌≢◌, if◌then◌else◌,
}
use native.Mathlib.Nat.{mod-lt}
use mathlib.Core.Option.{some-injective}
use monadguard.Receipt.Digests.{pad, to_hex, without_prefix}
use monadguard.Receipt.Digests.Hex.{hex_value, pad-IsWord}
use monadguard.Keys.{
  p256_order, secp256k1_order, scalar, number_of, Derived, Curves, private_scalar,
  derive_attestor_key, derive_evm_key, dev_key, env_prf, Origin, keep_key, load_prf, load_dev,
  load_fresh, load_attestor,
}

abbrev pub or_blank : Option Text → Text
or_blank none = []
or_blank (some t) = t

scalar-IsInRange : (n : ℕ) (wide : List ℕ) → 2 ≤ n → (1 ≤ scalar n wide) × (scalar n wide < n)
unfolding scalar
scalar-IsInRange n wide h =
    let m = number_of 0 wide in (omega arith, omega (arith, mod-lt m {m = n - 1} (omega arith)))

module _ (ext : Curves) where
  -- A private key in 64 digits, between 1 and the order of its curve less one.
  abbrev pub IsPrivateKey : ℕ → Text → Type 0
  IsPrivateKey order t = (length t ≡ 64) × (1 ≤ hex_value t) × (hex_value t < order)

  word_IsPrivateKey :
      (order k : ℕ) → order ≤ 16 ^ 64 → (1 ≤ k) × (k < order) → IsPrivateKey order (pad (to_hex k))
  word_IsPrivateKey order k h (lo, hi) =
      let (v, l) = pad-IsWord k (omega (arith, h, hi)) in
      (l, omega (arith, v, lo), omega (arith, v, hi))

  -- The two private keys that are derived from one output of a passkey have 64 hexadecimal digits,
  -- and lie between 1 and the order of their curve less one.
  pub derived_keys-IsPrivateKey :
      (prf : List ℕ) (key : Derived)
      → derive_attestor_key ext prf ≡ some key
      → IsPrivateKey p256_order key.private_key
        × IsPrivateKey secp256k1_order (derive_evm_key ext prf)
  unfolding derive_attestor_key derive_evm_key private_scalar
  derived_keys-IsPrivateKey prf key e = elim (Bool-cases (length prf == 32)) [
    | inr b ↦ absurd (cc (rw b at e))
    | inl b ↦
        let same = some-injective _ _ (rw b at e) in
        (
          rw (← same) (
              word_IsPrivateKey p256_order
                (private_scalar ext p256_order (lit "MonadGuard/P256/v1") prf) (omega arith)
                (scalar-IsInRange p256_order
                  (ext.sha256 (ext.utf8 (lit "MonadGuard/P256/v1") ++ prf)) (omega arith))),
          word_IsPrivateKey secp256k1_order
              (private_scalar ext secp256k1_order (lit "MonadGuard/secp256k1/v1") prf) (omega arith)
              (scalar-IsInRange secp256k1_order
                (ext.sha256 (ext.utf8 (lit "MonadGuard/secp256k1/v1") ++ prf)) (omega arith)),
        )
  ]

  keep_key-origin :
      (origin : Origin) (o : Option Derived) (key : Derived)
      → (keep_key ext origin o).1 ≡ some (some (key, dev_key))
      → origin ≡ dev_key
  unfolding keep_key
  keep_key-origin origin none key e = absurd (cc)
  keep_key-origin origin (some k) key e = ap (λ p. p.1) (some-injective _ _ (some-injective _ _ e))

  env_key-origin :
      (b : Bool) (o : Option Derived) (key : Derived)
      → (if b then keep_key ext env_prf o else (none, none)).1 ≢ some (some (key, dev_key))
  env_key-origin true o key e = absurd (cc (keep_key-origin env_prf o key e))
  env_key-origin false o key e = absurd (cc)

  load_prf-origin :
      (o : Option (List ℕ)) (key : Derived) → (load_prf ext o).1 ≢ some (some (key, dev_key))
  unfolding load_prf
  load_prf-origin none key e = absurd (cc)
  load_prf-origin (some bytes) key e =
      env_key-origin (length bytes == 32) (derive_attestor_key ext bytes) key e

  load_dev-allowed :
      (allow : Bool) (key : Derived)
      → (load_dev ext allow).1 ≡ some (some (key, dev_key))
      → allow ≡ true
  unfolding load_dev
  load_dev-allowed true key e = refl
  load_dev-allowed false key e = absurd (cc)

  pub load_attestor-dev :
      (allow : Bool) (hex : Option Text) (key : Derived)
      → (load_attestor ext none allow hex).1 ≡ some (some (key, dev_key))
      → (allow ≡ true) × (truthy (or_blank hex) ≡ false)
  unfolding load_attestor load_fresh truthy
  load_attestor-dev allow none key e = (load_dev-allowed allow key e, refl)
  load_attestor-dev allow (some hex) key e = elim (Bool-cases (truthy hex)) [
    | inr b ↦ (load_dev-allowed allow key (rw b at e), b)
    | inl b ↦ absurd (load_prf-origin (ext.hex_to_bytes (without_prefix hex)) key (rw b at e))
  ]
