-- ===== src/Server/Faucet/Caps.antt =====
-- server/index.js:424-437: the caps of the faucet.
use monadguard.Base.{
  ℕ, suc, ◌+◌, ◌⊎◌, ◌-◌, ◌/◌, ◌==◌, ◌≡◌, ◌≤◌, ◌<◌, refl, Bool, true, false, Bool-cases, inl, inr,
  not, ◌||◌, ◌&&◌, Option, none, some, List, [], ◌∷◌, ◌++◌, Text, truthy, text_eq, text_eq_refl,
  to_lower, leb, ltb, length, keep, any, find, arith,
}
use monadguard.Store.{
  Db, Grant, faucet_granted, faucet_grants_since, faucet_grants_by_ip_since, record_faucet_grant,
}
use monadguard.Server.Faucet.{
  FaucetConfig, FaucetRun, Viem, unsent, granted, failed, skipped, after_record, after_transfer,
  after_balance, grant_to, is_granted, post_faucet,
}

keep-append_one :
    (p : Grant → Bool) (gs : List Grant) (g : Grant)
    → length (keep p (gs ++ g ∷ [])) ≤ suc (length (keep p gs))
unfolding keep
keep-append_one p [] g = ground arith
keep-append_one p (x ∷ gs) g = ground (arith, keep-append_one p gs g)

find_none-any :
    (p : Grant → Bool) (gs : List Grant) → is_granted (find p gs) ≡ false → any p gs ≡ false
unfolding find any is_granted
find_none-any p [] h = refl
find_none-any p (g ∷ gs) h = ground (arith, find_none-any p gs)

find-append_last :
    (p : Grant → Bool) (gs : List Grant) (g : Grant)
    → p g ≡ true
    → is_granted (find p (gs ++ g ∷ [])) ≡ true
unfolding find is_granted
find-append_last p [] g h = ground arith
find-append_last p (x ∷ gs) g h = ground (arith, find-append_last p gs g h)

-- The grant of a transfer is written down, and the grants of the last day are within the two caps, but
-- for those that other requests wrote down since the checks; or the answer is an error and the
-- store is left as it was, since the transfer failed or another request was granted meanwhile.
abbrev pub IsRecorded : FaucetConfig → Viem → Db → Db → Text → ℕ → Text → FaucetRun → Type 0
IsRecorded cfg viem before later ip now to r =
    ((r.db ≡ later)
      × (r.response ≡ failed 502)
      × ((viem.transfer to ≡ none) ⊎ (is_granted (faucet_granted later to) ≡ true)))
    ⊎ ((tx : Text) × (viem.transfer to ≡ some tx)
        × (r.response ≡ granted tx)
        × (is_granted (faucet_granted r.db to) ≡ true)
        × (faucet_grants_by_ip_since r.db ip (now - 86400)
              + faucet_grants_by_ip_since before ip (now - 86400)
            ≤ cfg.per_ip + faucet_grants_by_ip_since later ip (now - 86400))
        × (faucet_grants_since r.db (now - 86400) + faucet_grants_since before (now - 86400)
            ≤ cfg.daily + faucet_grants_since later (now - 86400)))

-- A transfer is sent to an address that had no grant and little gas at the checks, within both caps and
-- on a chain that is not the main one.
pub record IsSent (cfg : FaucetConfig) (viem : Viem) (before later : Db) (ip : Text) (now : ℕ)
    (to : Text) (r : FaucetRun) : Type 0 where
  pub is_sent : r.sent ≡ some to
  pub is_testnet : (cfg.chain_id == 143) ≡ false
  pub is_new : is_granted (faucet_granted before to) ≡ false
  pub is_free_by_ip : faucet_grants_by_ip_since before ip (now - 86400) < cfg.per_ip
  pub is_free_by_day : faucet_grants_since before (now - 86400) < cfg.daily
  pub is_poor : (bal : ℕ) × (viem.balance to ≡ some bal) × (bal < cfg.amount / 2)
  pub is_recorded : IsRecorded cfg viem before later ip now to r

-- Nothing is sent, nothing is written, and no gas is promised.
abbrev pub IsIdle : Db → FaucetRun → Type 0
IsIdle later r =
    (r.sent ≡ none)
    × (r.db ≡ later)
    × (((status : ℕ) × (r.response ≡ failed status)) ⊎ (r.response ≡ skipped))

any-is_granted :
    (p : Grant → Bool) (gs : List Grant) → any p gs ≡ true → is_granted (find p gs) ≡ true
unfolding find any is_granted
any-is_granted p [] h = absurd (cc)
any-is_granted p (g ∷ gs) h = ground (arith, any-is_granted p gs)

idle : (later : Db) (status : ℕ) → IsIdle later (unsent later (failed status))
idle later status = (refl, refl, inl (status, refl))

module _ (cfg : FaucetConfig) (viem : Viem) (before later : Db) (ip : Text) (now then_now : ℕ) where
  after_record-IsRecorded :
      (to tx : Text)
      → faucet_grants_by_ip_since before ip (now - 86400) < cfg.per_ip
      → faucet_grants_since before (now - 86400) < cfg.daily
      → viem.transfer to ≡ some tx
      → IsRecorded cfg viem before later ip now to
          (after_record later to tx (record_faucet_grant to ip tx then_now later))
  unfolding after_record record_faucet_grant faucet_grants_by_ip_since faucet_grants_since
      faucet_granted
  after_record-IsRecorded to tx by_ip by_day sent =
      elim (Bool-cases (any (λ (g : Grant). text_eq g.address (to_lower to)) later.grants)) [
        | inl e ↦ rw e (
            inl (
              refl,
              refl,
              inr (any-is_granted (λ g. text_eq g.address (to_lower to)) later.grants e),
            ))
        | inr e ↦ rw e (
            inr (
              tx,
              sent,
              refl,
              find-append_last (λ g. text_eq g.address (to_lower to)) later.grants _
                  (text_eq_refl (to_lower to)),
              omega (
                arith,
                by_ip,
                keep-append_one (λ g. text_eq g.ip ip && ltb (now - 86400) g.created_at)
                    later.grants _,
              ),
              omega (
                arith,
                by_day,
                keep-append_one (λ g. ltb (now - 86400) g.created_at) later.grants _,
              ),
            ))
      ]

  after_transfer-IsRecorded :
      (to : Text) (o : Option Text)
      → faucet_grants_by_ip_since before ip (now - 86400) < cfg.per_ip
      → faucet_grants_since before (now - 86400) < cfg.daily
      → viem.transfer to ≡ o
      → IsRecorded cfg viem before later ip now to (after_transfer later to ip then_now o)
  unfolding after_transfer
  after_transfer-IsRecorded to none by_ip by_day e = inl (refl, refl, inl e)
  after_transfer-IsRecorded to (some tx) by_ip by_day e =
      after_record-IsRecorded to tx by_ip by_day e

  sent-after_transfer :
      (to : Text) (o : Option Text) → (after_transfer later to ip then_now o).sent ≡ some to
  unfolding after_transfer after_record
  sent-after_transfer to none = refl
  sent-after_transfer to (some tx) = go (record_faucet_grant to ip tx then_now later)
    where
      go : (o : Option Db) → (after_record later to tx o).sent ≡ some to
      go none = refl
      go (some d) = refl

  -- Whether gas is sent to the address.
  abbrev IsDecided : Text → FaucetRun → Type 0
  IsDecided to r = IsIdle later r ⊎ IsSent cfg viem before later ip now to r

  after_balance-IsDecided :
      (to : Text) (o : Option ℕ)
      → (cfg.chain_id == 143) ≡ false
      → is_granted (faucet_granted before to) ≡ false
      → faucet_grants_by_ip_since before ip (now - 86400) < cfg.per_ip
      → faucet_grants_since before (now - 86400) < cfg.daily
      → viem.balance to ≡ o
      → IsDecided to (after_balance cfg viem later to ip then_now o)
  unfolding after_balance
  after_balance-IsDecided to none t n i d b = inl (idle later 500)
  after_balance-IsDecided to (some bal) t n i d b = elim (Bool-cases (leb (cfg.amount / 2) bal)) [
    | inl e ↦ rw e (inl (refl, refl, inr refl))
    | inr e ↦ elim (Bool-cases viem.has_wallet) [
      | inr w ↦ rw (e, w) (inl (idle later 502))
      | inl w ↦
          rw (e, w)
            (inr (record {
              is_sent = sent-after_transfer to (viem.transfer to);
              is_testnet = t;
              is_new = n;
              is_free_by_ip = i;
              is_free_by_day = d;
              is_poor = (bal, b, ground arith);
              is_recorded = after_transfer-IsRecorded to (viem.transfer to) i d refl;
            }))
    ]
  ]

  grant_to-IsDecided :
      (to : Text)
      → (cfg.chain_id == 143) ≡ false
      → IsDecided to (grant_to cfg viem before later to ip now then_now)
  unfolding grant_to
  grant_to-IsDecided to t = elim (Bool-cases (is_granted (faucet_granted before to))) [
    | inl e ↦ rw e (inl (idle later 409))
    | inr e ↦
        elim (Bool-cases (leb cfg.per_ip (faucet_grants_by_ip_since before ip (now - 86400)))) [
          | inl i ↦ rw (e, i) (inl (idle later 429))
          | inr i ↦ elim (Bool-cases (leb cfg.daily (faucet_grants_since before (now - 86400)))) [
            | inl d ↦ rw (e, i, d) (inl (idle later 429))
            | inr d ↦
                rw (e, i, d)
                  (after_balance-IsDecided to (viem.balance to) t e (ground arith) (ground arith)
                    refl)
          ]
        ]
  ]

  -- A call of POST /faucet with an address sends nothing, writes nothing and answers with an error
  -- or that the balance suffices; or it sends gas to the address, off the main chain, where at its
  -- checks the address had no grant and less than half of the amount and both counts of the last
  -- day were below their caps. Then the grant is written down, the answer is the transaction, and
  -- the grants of the last day are within the cap of the network address and within the daily cap,
  -- but for those that other requests wrote down since the checks; or the answer is an error and
  -- the store is left as it was, and the transfer failed or another request for the address was
  -- granted meanwhile.
  pub post_faucet-IsDecided :
      (address : Text)
      → IsIdle later (post_faucet cfg viem before later (some address) ip now then_now)
        ⊎ IsSent cfg viem before later ip now
            (viem.get_address address)
            (post_faucet cfg viem before later (some address) ip now then_now)
  unfolding post_faucet
  post_faucet-IsDecided address =
      elim (Bool-cases
        (cfg.chain_id == 143 || not (truthy address) || not (viem.is_address address))) [
          | inl e ↦ rw e (inl (idle later 400))
          | inr e ↦ rw e (grant_to-IsDecided (viem.get_address address) (ground arith))
        ]
