-- ===== src/Examples/Systems.antt =====
-- The node, its keys, the scripts of the operator and the passkey page at small inputs.
use monadguard.Identity.{canonical_tool, tool_id}
use monadguard.Scanner.Rules.{rules}
use monadguard.Scanner.Finding.{score, sort_by_sev, tally}
use monadguard.Base.{
  trim, strip_slashes, keep, truthy, ◌≡◌, ◌⊎◌, ◌&&◌, refl, true, false, none, some, [], ◌∷◌, All,
  lit, length, replicate, arith, text_eq, split, find, ◌==◌, to_lower, if◌then◌else◌,
}
use monadguard.Scanner.Engine.{engine_level, scan}
use monadguard.Store.{Db, Signature, get_scan, get_external_receipt}
use monadguard.Store.Keys.{HasUniqueHashes}
use monadguard.Server.Anchor.{post_queue}
use monadguard.Server.Scan.Handler.{post_scan}
use monadguard.Server.Receipts.{derive_id, held, stored, post_receipt, get_receipt}
use monadguard.Server.Receipts.Served.{IsAcceptable, post_receipt-IsServed}
use monadguard.System.Registry
use monadguard.System.Registry.{view, Logged, Run, start, then_step}
use monadguard.System.Registry.Refinement.{Run-Logged}
use monadguard.Server.Chain.{ChainEnv, Rpc, NodeKey, ChainState, anchor_scan, register_attestor}
use monadguard.Server.Chain.Guard.{IsSound, IsGuarded, chain_writes-IsGuarded}
use monadguard.Keys.{
  p256_order, secp256k1_order, Derived, Curves, derive_attestor_key, derive_evm_key,
}
use monadguard.Keys.Scalars.{IsPrivateKey, derived_keys-IsPrivateKey}
use monadguard.Operator.{Scanned, Anchored, Health, Latest}
use monadguard.Operator.Survey.{Api, Row, Captured, survey}
use monadguard.Operator.Capture.{Capture, CaptureApi, anchor_capture}
use monadguard.Operator.Guard.{IsMeant, IsMeantCapture, survey-IsMeant, anchor_capture-IsMeant}
use monadguard.Operator
use monadguard.Passkey
use monadguard.Passkey.{Page, Session, Request, scan_and_anchor}
use monadguard.Passkey.Anchoring.{IsScanned, scan_and_anchor-IsScanned}
use monadguard.Examples.Nodes.{chain}
use monadguard.Examples.Services.{outside, scan_node, body, nothing, publishing, published}
use monadguard.Examples.Digests.{toy_digesting, anchor, word_text, address_text}

abbrev halves : Signature
halves = record { r = lit "0x1"; s = lit "0x2" }

abbrev scanned_store : Db
scanned_store = (post_scan outside scan_node chain nothing (body (lit "hi")) 5000).0

abbrev queued_store : Db
queued_store = (post_queue scanned_store (lit "0x9") (some halves)).0

scanned_and_queued : Run nothing queued_store
scanned_and_queued =
    then_step
      (then_step start (Registry.scans outside scan_node chain nothing (body (lit "hi")) 5000))
      (Registry.queues scanned_store (lit "0x9") (some halves))

Run-Logged_example : Logged (view nothing) (view queued_store) × HasUniqueHashes queued_store.scans
Run-Logged_example = Run-Logged nothing queued_store scanned_and_queued tt

abbrev rpc : Rpc
rpc = record {
  chain_id = some 143;
  code = λ r. some (some (lit "0x60"));
  account = λ pk. some address_text;
  send = λ w. some (lit "0xe");
  wait = λ tx. none;
  sign = λ d secret. record { r = d; s = secret };
}

abbrev env : ChainEnv
env = record {
  rpc_url = none;
  alchemy_key = none;
  private_key = some (lit "5");
  registry = some address_text;
  deployed = none;
}

abbrev fresh_chain : ChainState
fresh_chain = record { chain_ok = false; written = [] }

abbrev node_key : NodeKey
node_key = record { secret = lit "k"; x = word_text; y = word_text }

fresh_chain-IsSound : IsSound (toy_digesting (λ b. b)) rpc 143 env fresh_chain
fresh_chain-IsSound e = absurd (cc)

chain_writes-IsGuarded_example :
    IsGuarded
      (toy_digesting (λ b. b))
      rpc
      143
      env
      fresh_chain
      (anchor_scan
        (toy_digesting (λ b. b))
        rpc
        143
        env
        anchor
        []
        (some node_key)
        none
        fresh_chain).0
    × IsGuarded
        (toy_digesting (λ b. b))
        rpc
        143
        env
        fresh_chain
        (register_attestor (toy_digesting (λ b. b)) rpc 143 env node_key [] fresh_chain).0
chain_writes-IsGuarded_example =
    chain_writes-IsGuarded (toy_digesting (λ b. b)) rpc 143 env anchor [] [] (some node_key)
      node_key none fresh_chain fresh_chain-IsSound

abbrev curves : Curves
curves = record {
  utf8 = λ t. t;
  sha256 = λ bytes. 0 ∷ 9 ∷ [];
  multiply = λ k. (k, k);
  hex_to_bytes = λ t. none;
}

dev_derived : (key : Derived) × (derive_attestor_key curves (replicate 32 7) ≡ some key)
unfolding derive_attestor_key
dev_derived = (_, refl)

derived_keys-IsPrivateKey_example :
    IsPrivateKey curves p256_order dev_derived.0.private_key
    × IsPrivateKey curves secp256k1_order (derive_evm_key curves (replicate 32 7))
derived_keys-IsPrivateKey_example =
    derived_keys-IsPrivateKey curves (replicate 32 7) dev_derived.0 dev_derived.1

abbrev scanned : Scanned
scanned = record {
  error = none;
  rules = some (lit "v1");
  verdict = 3;
  score = 90;
  hash = lit "0x9";
}

abbrev api : Api
api = record {
  latest = λ id. none;
  scan = λ name pkg. some scanned;
  anchor = λ h. some (record { ok = true; already = false });
}

abbrev bad_row : Row
bad_row = record {
  pkg = lit "bad";
  downloads = none;
  tools = 1;
  verdict = 3;
  score = 90;
  findings = [];
  tool_id = lit "0x1";
  content_hash = lit "0x2";
}

abbrev captured : Captured
captured = record {
  file = lit "bad.json";
  entry = record {
    name = lit "bad";
    origin = none;
    downloads = none;
    manifest = record {
      name = none;
      description = none;
      tools = none;
      resources = none;
      prompts = none;
    };
    json = lit "{}";
  };
}

abbrev healthy : Health
healthy = record { error = none; rules = some (lit "v1") }

survey-IsMeant_example :
    All
      (λ p. IsMeant (lit "v1") (lit "bad" ∷ []) p.0 p.1)
      (survey api (lit "v1") true healthy (lit "bad" ∷ []) (captured ∷ []) (bad_row ∷ [])).0
    × ((true && Operator.preflight healthy (lit "v1")) ≡ false
        → survey api (lit "v1") true healthy (lit "bad" ∷ []) (captured ∷ []) (bad_row ∷ [])
          ≡ ([], if true then 1 else 0))
survey-IsMeant_example =
    survey-IsMeant api (lit "v1") true healthy (lit "bad" ∷ []) (captured ∷ []) (bad_row ∷ [])

abbrev capture : Capture
capture = record {
  declared = some (lit "hello");
  name = none;
  origin = some (lit "mcp:https://x");
  url = none;
  json = lit "{}";
  result = scan (λ re t. none) (lit "hi");
}

abbrev clean_scan : Scanned
clean_scan = record {
  error = none;
  rules = some (lit "v1");
  verdict = 1;
  score = 0;
  hash = lit "0x9";
}

abbrev capture_api : CaptureApi
capture_api = record {
  health = healthy;
  latest = λ id. none;
  scan = λ name origin. some clean_scan;
  anchor = λ h. some (record { ok = true; already = false });
}

capture_posted :
    (anchor_capture (λ t. t) (lit "v1") capture_api true [] (some capture)).posted ≡ some clean_scan
unfolding anchor_capture truthy scan engine_level tally keep sort_by_sev rules split score text_eq
capture_posted = refl

anchor_capture-IsMeant_example :
    (true ≡ true) × IsMeantCapture (lit "v1") healthy [] (some capture) clean_scan
anchor_capture-IsMeant_example =
    anchor_capture-IsMeant (λ t. t) (lit "v1") capture_api true [] (some capture) clean_scan
      capture_posted

abbrev passkeys : Passkey.Outside
passkeys = record {
  curves = curves;
  digesting = toy_digesting (λ b. b);
  address_of = λ k. address_text;
  exec = λ re t. none;
  match_indices = λ re t. [];
  keccak = λ t. word_text;
  hash_receipt = λ r. word_text;
  sign_receipt = λ r secret. lit "a.b.c";
  sign = λ d secret. record { r = d; s = secret };
  upload = λ jws. some (record { ok = true; uri = some (lit "https://x") });
  write = λ call. some (record { hash = lit "0xe"; block = 7; success = true });
  gas = λ a. none;
  mined = λ tx. true;
  registry = address_text;
  chain_id = 143;
}

abbrev page : Page
page = record {
  state = some (record {
    attestor = record {
      private_key = lit "1";
      x = word_text;
      y = word_text;
      public_key = lit "0x04";
    };
    evm_key = lit "2";
    address = address_text;
    credential = lit "c";
  });
  events = [];
}

abbrev asked : Request
asked = record {
  kind = lit "skill";
  name = lit "hello";
  origin = lit "https://x";
  manifest = none;
  json = [];
  content = some (lit "hi");
}

scan_and_anchor-IsScanned_example :
    ((scan_and_anchor passkeys asked 5000 page).0.events ≡ [])
    ⊎ IsScanned passkeys asked 5000 page (scan_and_anchor passkeys asked 5000 page).0.events
scan_and_anchor-IsScanned_example = scan_and_anchor-IsScanned passkeys asked 5000 page

parts_three : (length (split b'.' (lit "a.b.c")) == 3) ≡ true
unfolding split
parts_three = refl

not_scanned : get_scan nothing (lit "0x9") ≡ none
unfolding get_scan find
not_scanned = refl

not_published : get_external_receipt nothing (lit "0x9") ≡ none
unfolding get_external_receipt find
not_published = refl

published-IsAcceptable : IsAcceptable publishing nothing (lit "a.b.c") 5 published
unfolding truthy held derive_id tool_id canonical_tool strip_slashes to_lower trim
published-IsAcceptable = record {
  x = lit "0x3";
  y = lit "0x4";
  id = lit "mcp:npm:a#b";
  kind = lit "mcp";
  has_x = refl;
  has_y = refl;
  has_id = refl;
  has_kind = refl;
  is_x = refl;
  is_y = refl;
  is_id = refl;
  is_verified = refl;
  is_derived = refl;
}

post_receipt-IsServed_example :
    ((post_receipt publishing nothing (some (lit "a.b.c")) 5).1 ≡ stored (lit "0x9"))
    × (get_receipt (post_receipt publishing nothing (some (lit "a.b.c")) 5).0 (lit "0x9")
        ≡ some (lit "a.b.c"))
unfolding to_lower
post_receipt-IsServed_example =
    post_receipt-IsServed publishing nothing (lit "a.b.c") 5 published refl published-IsAcceptable
      (omega arith) parts_three not_scanned not_published
