-- ===== src/Passkey.antt =====
-- web/src/passkey.js: the attestor of the browser, whose keys come from a passkey. The ceremony of the
-- passkey, the server, the chain and the imported cryptography are parameters; what the page shows
-- and the browser's storage are left out.
pub mod Anchoring
use monadguard.Base.{
  ℕ, ◌==◌, Bool, true, false, not, ◌&&◌, Option, none, some, List, [], ◌∷◌, ◌++◌, Text, lit,
  text_eq, to_lower, trim, truthy, if◌then◌else◌,
}
use monadguard.Scanner.Regex.{Exec, MatchIndices}
use monadguard.Scanner.Engine.{scan}
use monadguard.Scanner.Mcp.{scan_mcp}
use monadguard.Scanner.Mcp.Texts.{Manifest}
use monadguard.Scanner.Result.{ScanResult, Reason}
use monadguard.Receipt.{Receipt, ToolIdentity, PublicKey, build_receipt}
use monadguard.Receipt.Digests.{
  Digesting, Signature, Anchor, Registration, anchor_digest, registration_digest,
}
use monadguard.Identity.{tool_id, content_hash}
use monadguard.Keys.{Curves, Derived, derive_attestor_key, derive_evm_key}
use monadguard.Server.Scan.Handler.{was_declined}

-- `state`: the P-256 key, and the address of the account, whose key the signing session holds.
pub record Session : Type 0 where
  pub attestor : Derived
  pub evm_key : Text
  pub address : Text
  pub credential : Text

-- A call of the contract by the account.
pub data Sent : Type 0 where
  registered : (x y meta : Text) → Signature → Sent
  anchored : Anchor → (uri : Text) → Signature → Sent

-- What the page does that others see, the latest first.
pub data Event : Type 0 where
  uploaded : (jws : Text) → Event
  sent : Sent → Event
  asked_gas : (address : Text) → Event

pub record Page : Type 0 where
  pub state : Option Session
  pub events : List Event

pub record Request : Type 0 where
  pub kind : Text
  pub name : Text
  pub origin : Text
  pub manifest : Option Manifest
  pub json : Text
  pub content : Option Text

-- The reply to POST /receipt: whether it is a success, and the URI, which may be missing.
pub record Upload : Type 0 where
  pub ok : Bool
  pub uri : Option Text

-- The receipt of a transaction.
pub record Mined : Type 0 where
  pub hash : Text
  pub block : ℕ
  pub success : Bool

-- The reply to POST /faucet.
pub record Gas : Type 0 where
  pub ok : Bool
  pub tx : Option Text

-- `none` is an exception. The JSON text of a manifest is in the request.
pub record Outside : Type 0 where
  pub curves : Curves
  pub digesting : Digesting
  pub address_of : (evm_key : Text) → Text
  pub exec : Exec
  pub match_indices : MatchIndices
  pub keccak : Text → Text
  pub hash_receipt : Receipt → Text
  pub sign_receipt : Receipt → (secret : Text) → Text
  pub sign : (digest secret : Text) → Signature
  pub upload : (jws : Text) → Option Upload
  pub write : Sent → Option Mined
  pub gas : (address : Text) → Option Gas
  pub mined : (tx : Text) → Bool
  pub registry : Text
  pub chain_id : ℕ

-- What a call leaves behind, and what it gives, unless it throws.
abbrev pub Run : Type 0 → Type 0
Run A = Page × Option A

pub record Summary : Type 0 where
  pub address : Text
  pub x : Text
  pub y : Text
  pub credential : Text

unfoldable pub summary : Option Session → Option Summary
summary none = none
summary (some s) =
    some (record {
      address = s.address;
      x = s.attestor.x;
      y = s.attestor.y;
      credential = s.credential;
    })

-- `lock`
unfoldable pub lock : Page → Page
lock page = record page { state = none }

-- What was found of the account on the chain.
unfoldable pub key_matches : Session → (registered : Option (Text × Text)) → Option Bool
key_matches s none = none
key_matches s (some (x, y)) =
    some
      (text_eq (to_lower x) (to_lower s.attestor.x) && text_eq (to_lower y) (to_lower s.attestor.y))

module _ (ext : Outside) where
  -- `open`
  unfoldable pub open_with :
      Page → (prf : List ℕ) → (credential : Text) → Option Derived → Run Summary
  unfolding derive_evm_key summary
  open_with page prf credential none = (page, none)
  open_with page prf credential (some key) =
      let evm_key = derive_evm_key ext.curves prf in
      let s : Session = record {
        attestor = key;
        evm_key = evm_key;
        address = ext.address_of evm_key;
        credential = credential;
      } in
      (record page { state = some s }, summary (some s))

  -- `create` and `unlock`: the ceremony gives the output and the credential, or throws.
  unfoldable pub unlock : Option (List ℕ × Text) → Page → Run Summary
  unfolding open_with derive_attestor_key
  unlock none page = (page, none)
  unlock (some (prf, credential)) page =
      open_with page prf credential (derive_attestor_key ext.curves prf)

  unfoldable pub mined_tx : Option Mined → Option Mined
  mined_tx none = none
  mined_tx (some m) = if m.success then some m else none

  -- `send`: a transaction that reverted is an exception.
  unfoldable pub send : Sent → Page → Run Mined
  unfolding mined_tx
  send call page = (record page { events = sent call ∷ page.events }, mined_tx (ext.write call))

  unfoldable pub register_as : (location : Text) → Page → Option Session → Run Mined
  unfolding send registration_digest
  register_as location page none = (page, none)
  register_as location page (some s) =
      let digest = registration_digest ext.digesting (record {
        chain_id = ext.chain_id;
        registry = ext.registry;
        attestor = s.address;
        x = s.attestor.x;
        y = s.attestor.y;
      }) in
      send
        (registered s.attestor.x s.attestor.y (location ++ (lit "/#attestor/" ++ s.address))
          (ext.sign digest s.attestor.private_key))
        page

  unfoldable pub register : (location : Text) → Page → Run Mined
  unfolding register_as
  register location page = register_as location page page.state

  or_blank : Option Text → Text
  or_blank none = []
  or_blank (some t) = t

  is_mcp : Request → Bool
  is_mcp q = text_eq q.kind (lit "mcp")

  -- What is hashed, and what the scanner says of it.
  unfoldable pub raw_of : Request → Text
  unfolding is_mcp or_blank
  raw_of q = if is_mcp q then q.json else or_blank q.content

  unfoldable pub result_of : Request → ScanResult
  unfolding is_mcp or_blank
  result_of q =
      if is_mcp q
      then scan_mcp ext.exec ext.match_indices q.json q.manifest true
      else scan ext.exec (or_blank q.content)

  -- There is nothing to scan: an exception.
  unfoldable pub is_empty : Request → Bool
  unfolding is_mcp or_blank
  is_empty q = not (is_mcp q) && not (truthy (trim (or_blank q.content)))

  unfoldable pub receipt_of : Session → Request → (now_ms : ℕ) → Option Receipt
  unfolding raw_of result_of
  receipt_of s q now_ms = build_receipt now_ms (record {
    tool = record {
      id = tool_id ext.keccak q.kind q.name q.origin;
      kind = q.kind;
      name = q.name;
      origin = q.origin;
    };
    content_hash = content_hash ext.keccak (raw_of q);
    result = result_of q;
    attestor_key = record { x = s.attestor.x; y = s.attestor.y };
    issued_at = none;
    ttl_days = 90;
  })

  unfoldable pub anchor_of : Session → Receipt → Anchor
  anchor_of s payload = record {
    chain_id = ext.chain_id;
    registry = ext.registry;
    attestor = s.address;
    tool_id = payload.tool.id;
    content_hash = payload.content_hash;
    verdict = payload.verdict;
    score = payload.score;
    receipt_hash = ext.hash_receipt payload;
  }

  -- The call of the contract cannot be encoded without a URI.
  unfoldable pub anchor_at : Session → Receipt → Page → Option Text → Run Mined
  unfolding send anchor_of
  anchor_at s payload page none = (page, none)
  anchor_at s payload page (some uri) =
      let a = anchor_of s payload in
      send (anchored a uri (ext.sign (anchor_digest ext.digesting a) s.attestor.private_key)) page

  -- An upload that is refused ends the call.
  unfoldable pub after_upload : Session → Receipt → Page → Option Upload → Run Mined
  unfolding anchor_at
  after_upload s payload page none = (page, none)
  after_upload s payload page (some up) =
      if up.ok then anchor_at s payload page up.uri else (page, none)

  unfoldable pub publish : Session → Page → Option Receipt → Run Mined
  unfolding after_upload
  publish s page none = (page, none)
  publish s page (some payload) =
      let jws = ext.sign_receipt payload s.attestor.private_key in
      after_upload s payload (record page { events = uploaded jws ∷ page.events }) (ext.upload jws)

  unfoldable pub scan_as : Request → (now_ms : ℕ) → Page → Option Session → Run Mined
  unfolding publish receipt_of is_empty result_of
  scan_as q now_ms page none = (page, none)
  scan_as q now_ms page (some s) =
      if is_empty q
      then (page, none)
      else if was_declined (result_of q).scanned
      then (page, none)
      else publish s page (receipt_of s q now_ms)

  unfoldable pub scan_and_anchor : Request → (now_ms : ℕ) → Page → Run Mined
  unfolding scan_as
  scan_and_anchor q now_ms page = scan_as q now_ms page page.state

  unfoldable pub granted : Option Gas → Option Gas
  granted none = none
  granted (some g) =
      if g.ok
      then elim g.tx [ none ↦ some g | some tx ↦ if ext.mined tx then some g else none ]
      else none

  unfoldable pub gas_as : Page → Option Session → Run Gas
  unfolding granted
  gas_as page none = (page, none)
  gas_as page (some s) =
      (record page { events = asked_gas s.address ∷ page.events }, granted (ext.gas s.address))

  unfoldable pub request_gas : Page → Run Gas
  unfolding gas_as
  request_gas page = gas_as page page.state
