-- ===== src/Examples/Services.antt =====
-- The index, POST /scan, POST /faucet and the checks of a receipt at small inputs.
use monadguard.Identity.{tool_id, canonical_tool}
use monadguard.Receipt.{build_receipt}
use monadguard.Scanner.Engine.{scan}
use monadguard.Base.{
  to_lower, strip_slashes, every, any, keep, find, trim, truthy, ℕ, ◌≡◌, ◌⊎◌, refl, true, false,
  Option, none, some, List, [], ◌∷◌, Text, lit, split, text_eq,
}
use monadguard.Store.{
  get_tool, put_external_receipt, record_faucet_grant, faucet_grants_since,
  faucet_grants_by_ip_since, Db, faucet_granted,
}
use monadguard.Server.Envio.{Source, local, cloud, Choice, initial}
use monadguard.Server.Scan.{Outside, ScanRequest, ScanNode, Accepted, accepted}
use monadguard.Server.Scan.Handler.{post_scan}
use monadguard.Server.Scan.Writes.{is_accepted, IsKeptOff, post_scan-writes, post_scan-IsKeptOff}
use monadguard.Server.Receipts.{stored, Published, Publishing, post_receipt}
use monadguard.Server.Receipts.Immutable.{IsHandled, post_receipt-IsHandled}
use monadguard.Server.Faucet.{FaucetConfig, FaucetRun, Viem, granted, failed, post_faucet}
use monadguard.Server.Faucet.Caps.{IsIdle, IsSent, post_faucet-IsDecided}
use monadguard.Interop.{Jwk, Crypto, Checked, check_receipt}
use monadguard.Interop.Genuine.{IsGenuine, check_receipt-IsGenuine}
use monadguard.Examples.Nodes.{store_of, digest, sign, chain}

abbrev answers : Source → Option ℕ
answers local = none
answers cloud = some 5

abbrev start : Choice
start = initial true

abbrev pub outside : Outside
outside = record {
  exec = λ re t. none;
  match_indices = λ re t. [];
  keccak = λ t. t;
  parse = λ t. none;
  findings_json = λ fs. lit "[]";
  hash_receipt = λ r. lit "0x9";
  sign_receipt = λ r secret. lit "a.b.c";
  digest = digest;
  sign = sign;
}

abbrev pub scan_node : ScanNode
scan_node = record {
  key = some (lit "key", record { x = lit "0x3"; y = lit "0x4" });
  base_url = lit "https://api";
  auto_anchor = false;
  chain_id = 143;
}

abbrev pub body : Text → ScanRequest
body text = record {
  kind = none;
  name = some (lit "hello");
  origin = some (lit "https://x");
  content = some text;
  manifest = none;
}

abbrev pub nothing : Db
nothing = store_of []

blank_refused :
    is_accepted (post_scan outside scan_node chain nothing (body (lit " ")) 5000).1 ≡ false
unfolding post_scan is_accepted truthy trim
blank_refused = refl

post_scan-writes_example :
    (post_scan outside scan_node chain nothing (body (lit " ")) 5000).0 ≡ nothing
post_scan-writes_example =
    post_scan-writes outside scan_node chain nothing (body (lit " ")) 5000 blank_refused

hello_accepted :
    (a : Accepted) × ((post_scan outside scan_node chain nothing (body (lit "hi")) 5000).1
      ≡ accepted a)
unfolding post_scan truthy trim scan build_receipt
hello_accepted = (_, refl)

post_scan-IsKeptOff_example :
    IsKeptOff
      (post_scan outside scan_node chain nothing (body (lit "hi")) 5000).0
      hello_accepted.0.receipt_hash
post_scan-IsKeptOff_example =
    post_scan-IsKeptOff outside scan_node chain nothing (body (lit "hi")) 5000 refl hello_accepted.0
      hello_accepted.1

abbrev faucet : FaucetConfig
faucet = record { chain_id = 10143; amount = 50; daily = 25; per_ip = 3 }

abbrev viem : Viem
viem = record {
  has_wallet = true;
  is_address = λ a. true;
  get_address = λ a. a;
  balance = λ a. some 0;
  transfer = λ a. some (lit "0xe");
}

post_faucet-IsDecided_example :
    IsIdle nothing
      (post_faucet faucet viem nothing nothing (some (lit "0xA")) (lit "1.1.1.1") 90000 90001)
    ⊎ IsSent faucet viem nothing nothing
        (lit "1.1.1.1")
        90000
        (lit "0xA")
        (post_faucet faucet viem nothing nothing (some (lit "0xA")) (lit "1.1.1.1") 90000 90001)
post_faucet-IsDecided_example =
    post_faucet-IsDecided faucet viem nothing nothing (lit "1.1.1.1") 90000 90001 (lit "0xA")

abbrev first_run : FaucetRun
first_run = post_faucet faucet viem nothing nothing (some (lit "0xA")) (lit "1.1.1.1") 90000 90001

gas_granted : (first_run.sent ≡ some (lit "0xA")) × (first_run.response ≡ granted (lit "0xe"))
unfolding post_faucet truthy faucet_granted find faucet_grants_by_ip_since keep faucet_grants_since
    record_faucet_grant any
gas_granted = (refl, refl)

-- A second request that was checked before the first one was written down sends gas once more.
abbrev second_run : FaucetRun
second_run =
    post_faucet faucet viem nothing first_run.db (some (lit "0xA")) (lit "1.1.1.1") 90000 90002

gas_sent_twice :
    (second_run.sent ≡ some (lit "0xA"))
    × (second_run.response ≡ failed 502)
    × (second_run.db ≡ first_run.db)
unfolding post_faucet truthy faucet_granted find faucet_grants_by_ip_since keep faucet_grants_since
    record_faucet_grant any to_lower text_eq
gas_sent_twice = (refl, refl, refl)

-- A codec for which every text is its own bytes and its own canonical form.
abbrev crypto : Crypto Text
crypto = record {
  decode = λ t. some t;
  utf8 = λ t. t;
  parse_header = λ t. some (record { alg = some (lit "ES256"); kid = some (lit "k") });
  parse = λ t. some (some t);
  canonical = λ t. t;
  hash = λ t. t;
  verify = λ sig input key. some true;
}

abbrev keys : List Jwk
keys = record { kid = some (lit "k"); crv = some (lit "P-256"); x = lit "x"; y = lit "y" } ∷ []

receipt_checked :
    (r : Checked) × (check_receipt crypto (some (lit "h.p.s")) keys none ≡ some r)
    × (r.ok ≡ true)
    × (r.hash ≡ some (lit "p"))
unfolding check_receipt split every text_eq find
receipt_checked = (_, refl, refl, refl)

check_receipt-IsGenuine_example : IsGenuine crypto (lit "h.p.s") keys (lit "p")
check_receipt-IsGenuine_example =
    check_receipt-IsGenuine crypto (lit "h.p.s") keys none receipt_checked.0 (lit "p")
      receipt_checked.1 receipt_checked.2 receipt_checked.3

abbrev pub published : Published
published = record {
  x = some (lit "0x3");
  y = some (lit "0x4");
  id = some (lit "mcp:npm:a#b");
  kind = some (lit "mcp");
  name = some (lit "b");
  origin = some (lit "npm:a");
  findings_json = lit "[]";
}

abbrev pub publishing : Publishing
publishing = record {
  keccak = λ t. t;
  decode = λ jws. some published;
  verify = λ jws key. some true;
  hash = λ p. lit "0x9";
}

post_receipt-IsHandled_example :
    IsHandled publishing nothing
      (lit "a.b.c")
      (post_receipt publishing nothing (some (lit "a.b.c")) 5)
post_receipt-IsHandled_example = post_receipt-IsHandled publishing nothing 5 (lit "a.b.c")

-- This call keeps the receipt.
hello_stored : (post_receipt publishing nothing (some (lit "a.b.c")) 5).1 ≡ stored (lit "0x9")
unfolding post_receipt split truthy text_eq to_lower tool_id canonical_tool strip_slashes trim
    get_tool find put_external_receipt any
hello_stored = refl
