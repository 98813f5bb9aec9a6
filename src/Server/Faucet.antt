-- ===== src/Server/Faucet.antt =====
-- server/index.js:415-441: POST /faucet. The addresses, the balance and the transfer are viem's, and
-- parameters.
pub mod Caps
use monadguard.Base.{
  ℕ, ◌-◌, ◌/◌, ◌==◌, ◌≡◌, Bool, true, false, not, ◌||◌, Option, none, some, Text, truthy, leb,
  if◌then◌else◌,
}
use monadguard.Store.{
  Db, Grant, faucet_granted, faucet_grants_since, faucet_grants_by_ip_since, record_faucet_grant,
}

pub record FaucetConfig : Type 0 where
  pub chain_id : ℕ
  pub amount : ℕ
  pub daily : ℕ
  pub per_ip : ℕ

-- `none` is an exception of the node behind viem; `has_wallet` is whether `wallet()` does not throw.
pub record Viem : Type 0 where
  pub has_wallet : Bool
  pub is_address : Text → Bool
  pub get_address : Text → Text
  pub balance : Text → Option ℕ
  pub transfer : Text → Option Text

pub data FaucetResponse : Type 0 where
  failed : ℕ → FaucetResponse
  skipped : FaucetResponse
  granted : Text → FaucetResponse

-- The store at the end, the answer, and the address to which a transfer was sent.
pub record FaucetRun : Type 0 where
  pub db : Db
  pub response : FaucetResponse
  pub sent : Option Text

abbrev pub unsent : Db → FaucetResponse → FaucetRun
unsent db response = record { db = db; response = response; sent = none }

-- The handler waits for the balance and for the transfer, and other requests run meanwhile: `before`
-- is the store at the three checks, `later` the one where the handler goes on after the transfer (or
-- ends), at the time `then_now`.
--
-- A second grant to an address is refused by the table, after the gas was sent.
unfoldable pub after_record : Db → (to tx : Text) → Option Db → FaucetRun
after_record later to tx none = record { db = later; response = failed 502; sent = some to }
after_record later to tx (some after) = record { db = after; response = granted tx; sent = some to }

unfoldable pub after_transfer : Db → (to ip : Text) (then_now : ℕ) → Option Text → FaucetRun
unfolding after_record
after_transfer later to ip then_now none = record {
  db = later;
  response = failed 502;
  sent = some to;
}
after_transfer later to ip then_now (some tx) =
    after_record later to tx (record_faucet_grant to ip tx then_now later)

unfoldable pub after_balance :
    FaucetConfig → Viem → Db → (to ip : Text) (then_now : ℕ) → Option ℕ → FaucetRun
unfolding after_transfer
after_balance cfg viem later to ip then_now none = unsent later (failed 500)
after_balance cfg viem later to ip then_now (some bal) =
    if leb (cfg.amount / 2) bal
    then unsent later skipped
    else if viem.has_wallet
    then after_transfer later to ip then_now (viem.transfer to)
    else unsent later (failed 502)

unfoldable pub is_granted : Option Grant → Bool
is_granted none = false
is_granted (some g) = true

-- The three limits; `now` is in seconds.
unfoldable pub grant_to :
    FaucetConfig → Viem → (before later : Db) → (to ip : Text) (now then_now : ℕ) → FaucetRun
unfolding after_balance is_granted
grant_to cfg viem before later to ip now then_now =
    if is_granted (faucet_granted before to)
    then unsent later (failed 409)
    else if leb cfg.per_ip (faucet_grants_by_ip_since before ip (now - 86400))
    then unsent later (failed 429)
    else if leb cfg.daily (faucet_grants_since before (now - 86400))
    then unsent later (failed 429)
    else after_balance cfg viem later to ip then_now (viem.balance to)

unfoldable pub post_faucet :
    FaucetConfig
    → Viem
    → (before later : Db) → (address : Option Text) (ip : Text) (now then_now : ℕ) → FaucetRun
unfolding grant_to
post_faucet cfg viem before later none ip now then_now = unsent later (failed 400)
post_faucet cfg viem before later (some address) ip now then_now =
    if cfg.chain_id == 143 || not (truthy address) || not (viem.is_address address)
    then unsent later (failed 400)
    else grant_to cfg viem before later (viem.get_address address) ip now then_now
