-- ===== src/Server/Chain/Guard.antt =====
-- When server/chain.js writes to the chain.
use monadguard.Base.{
  ℕ, true, Option, none, some, List, ◌∷◌, Text, ◌≡◌, ◌⊎◌, inl, inr, refl, Bool-cases, arith,
}
use monadguard.Worker.{ScanInput, Mined}
use monadguard.Receipt.Digests.{Digesting, Signature, Anchor}
use monadguard.Server.Chain.{
  ChainEnv, Rpc, NodeKey, ChainState, anchor_batch_call, registry_of, has_contract, is_chain,
  assert_chain, checked, anchor_from, anchor_scan, register_from, register_attestor,
  anchor_scan_batch, wallet, write, batch_from,
}

module _ (dig : Digesting) (rpc : Rpc) (chain_id : ℕ) (env : ChainEnv) where
  -- The RPC is on the configured chain, and the contract, where one is configured, is there.
  abbrev pub IsOnNetwork : Type 0
  IsOnNetwork =
      (rpc.chain_id ≡ some chain_id) × (has_contract dig rpc chain_id env (registry_of env) ≡ true)

  -- A check that is kept passed.
  abbrev pub IsSound : ChainState → Type 0
  IsSound s = s.chain_ok ≡ true → IsOnNetwork

  -- Nothing was sent, or it was sent to the configured network.
  abbrev pub IsGuarded : ChainState → ChainState → Type 0
  IsGuarded s t = IsSound t × ((t.written ≡ s.written) ⊎ IsOnNetwork)

  is_chain_sound : (o : Option ℕ) → is_chain dig rpc chain_id env o ≡ true → o ≡ some chain_id
  unfolding is_chain
  is_chain_sound none h = absurd (cc)
  is_chain_sound (some actual) h = ground (arith)

  checked-IsGuarded :
      (run : ChainState → ChainState × Option Mined) (s : ChainState)
      → IsSound s
      → IsGuarded s (checked dig rpc chain_id env run (assert_chain dig rpc chain_id env s)).0
  unfolding checked assert_chain
  checked-IsGuarded run s h = elim (Bool-cases s.chain_ok) [
    | inl e ↦ rw e ((λ k. h e), inr (h e))
    | inr e ↦ elim (Bool-cases (is_chain dig rpc chain_id env rpc.chain_id)) [
      | inr c ↦ rw (e, c) (λ k. absurd (cc), inl refl)
      | inl c ↦ elim (Bool-cases (has_contract dig rpc chain_id env (registry_of env))) [
        | inr d ↦ rw (e, c, d) (λ k. absurd (cc), inl refl)
        | inl d ↦
            let on = is_chain_sound rpc.chain_id c in rw (e, c, d) (λ k. (on, refl), inr (on, refl))
      ]
    ]
  ]

  -- From a state whose kept check is sound, anchorScan and registerAttestor send nothing or the RPC
  -- is on the configured chain and the contract, where one is configured, is there; and the kept
  -- check stays sound.
  pub chain_writes-IsGuarded :
      (a : Anchor) (uri meta : Text) (key : Option NodeKey) (own : NodeKey) (sig : Option Signature)
      (s : ChainState)
      → IsSound s
      → IsGuarded s (anchor_scan dig rpc chain_id env a uri key sig s).0
        × IsGuarded s (register_attestor dig rpc chain_id env own meta s).0
  unfolding anchor_scan register_attestor
  chain_writes-IsGuarded a uri meta key own sig s h = (
    checked-IsGuarded (anchor_from dig rpc chain_id env a uri key sig _) s h,
    checked-IsGuarded (register_from dig rpc chain_id env own meta _) s h,
  )

  -- A batch goes out on whatever chain the RPC is.
  pub anchor_scan_batch-writes :
      (scans : List ScanInput) (account : Text) (s : ChainState)
      → wallet dig rpc chain_id env env.private_key ≡ some account
      → (anchor_scan_batch dig rpc chain_id env scans s).0.written
        ≡ anchor_batch_call scans ∷ s.written
  unfolding anchor_scan_batch batch_from write
  anchor_scan_batch-writes scans account s e = rw e refl
