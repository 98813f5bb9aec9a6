-- ===== src/Server/Chain.antt =====
-- server/chain.js: which network the node writes to, the check of it, and the calls of the contract.
-- The RPC, the account of a key, P-256 and the digests are parameters.
pub mod Guard
use monadguard.Base.{
  String, ℕ, Bool, true, false, Option, none, some, List, [], ◌∷◌, ◌++◌, Text, lit, text_eq, truthy,
  take, ◌==◌, if◌then◌else◌, replicate,
}
use monadguard.Worker.{ScanInput, Mined}
use monadguard.Receipt.Digests.{
  Digesting, Signature, Anchor, Registration, anchor_digest, registration_digest,
}

-- A variable of the environment or a field of a file that may be missing.
pub record ChainEnv : Type 0 where
  pub rpc_url : Option Text
  pub alchemy_key : Option Text
  pub private_key : Option Text
  pub registry : Option Text
  pub deployed : Option Text

-- `a ?? b`
unfoldable pub or_else : Option Text → Option Text → Option Text
or_else none b = b
or_else (some a) b = some a

abbrev pub mainnet : ℕ
mainnet = 143

-- `REGISTRY`
unfoldable pub registry_of : ChainEnv → Option Text
unfolding or_else
registry_of env = or_else env.registry env.deployed

-- `ALCHEMY_KEY` is tested for truth, and an empty `RPC_URL` is one.
unfoldable pub alchemy_url : ℕ → Option Text → Option Text
alchemy_url chain_id none = none
alchemy_url chain_id (some key) =
    if truthy key
    then some (
        lit "https://"
        ++ ((if chain_id == mainnet then lit "monad-mainnet" else lit "monad-testnet")
            ++ (lit ".g.alchemy.com/v2/" ++ key)))
    else none

public_url : ℕ → Text
public_url chain_id =
    if chain_id == mainnet then lit "https://rpc.monad.xyz" else lit "https://testnet-rpc.monad.xyz"

unwrap : Text → Option Text → Text
unwrap d none = d
unwrap d (some t) = t

unfoldable pub rpc_url : ℕ → ChainEnv → Text
unfolding or_else alchemy_url public_url unwrap
rpc_url chain_id env =
    unwrap (public_url chain_id) (or_else env.rpc_url (alchemy_url chain_id env.alchemy_key))

-- A key of the node: its secret and its public half.
pub record NodeKey : Type 0 where
  pub secret : Text
  pub x : Text
  pub y : Text

-- A call of the contract that changes it: its arguments, the URI and the signature.
pub data Write : Type 0 where
  anchor_scan_call : Anchor → (uri : Text) → Signature → Write
  register_call : (x y meta : Text) → Signature → Write
  anchor_batch_call : List ScanInput → Write

-- What the RPC answers; `none` is an exception, and no code is undefined. The answer to a write is
-- the hash of the transaction, which `wait` follows to its receipt.
pub record Rpc : Type 0 where
  pub chain_id : Option ℕ
  pub code : Text → Option (Option Text)
  pub account : Text → Option Text
  pub send : Write → Option Text
  pub wait : Text → Option Mined
  pub sign : (digest secret : Text) → Signature

-- `chainOk`, and what was sent.
pub record ChainState : Type 0 where
  pub chain_ok : Bool
  pub written : List Write

-- A program that may throw keeps what it did.
abbrev pub Run : Type 0 → Type 0
Run A = ChainState → ChainState × Option A

module _ (dig : Digesting) (rpc : Rpc) (chain_id : ℕ) (env : ChainEnv) where
  unfoldable pub has_code : Option (Option Text) → Bool
  has_code none = false
  has_code (some none) = false
  has_code (some (some code)) =
      if truthy code then (if text_eq code (lit "0x") then false else true) else false

  -- `if (REGISTRY)`: without one, or with an empty one, there is no contract to look for.
  unfoldable pub has_contract : Option Text → Bool
  unfolding has_code
  has_contract none = true
  has_contract (some r) = if truthy r then has_code (rpc.code r) else true

  unfoldable pub is_chain : Option ℕ → Bool
  is_chain none = false
  is_chain (some actual) = actual == chain_id

  -- `true` is the check that passed, `false` the exception.
  unfoldable pub assert_chain : ChainState → ChainState × Bool
  unfolding is_chain has_contract registry_of
  assert_chain s =
      if s.chain_ok
      then (s, true)
      else if is_chain rpc.chain_id
      then (if has_contract (registry_of env)
          then (record s { chain_ok = true }, true)
          else (s, false))
      else (s, false)

  -- The account of the key, with or without its prefix.
  unfoldable pub with_prefix : Text → Text
  with_prefix pk = if text_eq (take 2 pk) (lit "0x") then pk else lit "0x" ++ pk

  unfoldable pub wallet : Option Text → Option Text
  unfolding with_prefix
  wallet none = none
  wallet (some pk) = if truthy pk then rpc.account (with_prefix pk) else none

  waited : Option Text → Option Mined
  waited none = none
  waited (some hash) = rpc.wait hash

  -- `writeContract` and `waitForTransactionReceipt`
  unfoldable pub write : Write → Run Mined
  unfolding waited
  write w s = (record s { written = w ∷ s.written }, waited (rpc.send w))

  -- `sig ?? signDigest(digest, key.privateKey)`, which throws where there is no key.
  unfoldable pub sig_or : Option Signature → Option NodeKey → (digest : Text) → Option Signature
  sig_or (some sig) key digest = some sig
  sig_or none none digest = none
  sig_or none (some key) digest = some (rpc.sign digest key.secret)

  or_empty : Option Text → Text
  or_empty none = []
  or_empty (some t) = t

  unfoldable pub anchor_signed : Anchor → (uri : Text) → Option Signature → Run Mined
  unfolding write
  anchor_signed a uri none s = (s, none)
  anchor_signed a uri (some sig) s = write (anchor_scan_call a uri sig) s

  unfoldable pub anchor_from :
      Anchor → (uri : Text) → Option NodeKey → Option Signature → Option Text → Run Mined
  unfolding anchor_signed sig_or or_empty registry_of
  anchor_from a uri key sig none s = (s, none)
  anchor_from a uri key sig (some account) s =
      let b : Anchor = record a {
        chain_id = chain_id;
        registry = or_empty (registry_of env);
        attestor = account;
      } in
      anchor_signed b uri (sig_or sig key (anchor_digest dig b)) s

  -- What follows the check of the chain.
  unfoldable pub checked : Run Mined → ChainState × Bool → ChainState × Option Mined
  checked run (s, true) = run s
  checked run (s, false) = (s, none)

  unfoldable pub anchor_scan : Anchor → (uri : Text) → Option NodeKey → Option Signature → Run Mined
  unfolding assert_chain anchor_from wallet checked
  anchor_scan a uri key sig s =
      checked (anchor_from a uri key sig (wallet env.private_key)) (assert_chain s)

  unfoldable pub register_from : NodeKey → (meta : Text) → Option Text → Run Mined
  unfolding write or_empty registry_of
  register_from key meta none s = (s, none)
  register_from key meta (some account) s =
      let digest = registration_digest dig (record {
        chain_id = chain_id;
        registry = or_empty (registry_of env);
        attestor = account;
        x = key.x;
        y = key.y;
      }) in
      write (register_call key.x key.y meta (rpc.sign digest key.secret)) s

  unfoldable pub register_attestor : NodeKey → (meta : Text) → Run Mined
  unfolding assert_chain register_from wallet checked
  register_attestor key meta s =
      checked (register_from key meta (wallet env.private_key)) (assert_chain s)

  unfoldable pub batch_from : List ScanInput → Option Text → Run Mined
  unfolding write
  batch_from scans none s = (s, none)
  batch_from scans (some account) s = write (anchor_batch_call scans) s

  -- The batch path does not check the chain.
  unfoldable pub anchor_scan_batch : List ScanInput → Run Mined
  unfolding batch_from wallet
  anchor_scan_batch scans s = batch_from scans (wallet env.private_key) s
