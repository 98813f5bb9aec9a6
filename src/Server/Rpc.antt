-- ===== src/Server/Rpc.antt =====
-- server/index.js:388-413: POST /rpc, the JSON-RPC proxy with its list of allowed methods.
pub mod Allowed
use monadguard.Base.{
  String, ℕ, Bool, true, false, not, ◌&&◌, ◌||◌, Option, none, some, List, [], ◌∷◌, any, find,
  length, ltb, str_eq, if◌then◌else◌,
}

-- RPC_METHODS
unfoldable pub rpc_methods : List String
rpc_methods =
    "eth_chainId" ∷ "eth_blockNumber" ∷ "eth_fillTransaction" ∷ "eth_getBalance"
    ∷ "eth_getTransactionCount" ∷ "eth_gasPrice" ∷ "eth_maxPriorityFeePerGas" ∷ "eth_feeHistory"
    ∷ "eth_estimateGas" ∷ "eth_call" ∷ "eth_getCode" ∷ "eth_sendRawTransaction"
    ∷ "eth_getTransactionReceipt" ∷ "eth_getTransactionByHash" ∷ "eth_getBlockByNumber" ∷ []

-- An entry of the body: `falsy` is `null`, `0`, `false` or the empty text; a call has a method
-- where it is an object with one.
pub data Entry : Type 0 where
  falsy : Entry
  call : Option String → Entry

-- The body: it cannot be read or is falsy, it is one call, or a batch of entries.
pub data Body : Type 0 where
  nothing : Body
  single : Entry → Body
  batch : List Entry → Body

pub data RpcOutcome : Type 0 where
  rate_limited invalid_request : RpcOutcome
  not_allowed : Entry → RpcOutcome
  forwarded : List Entry → RpcOutcome

unfoldable pub is_allowed : Option String → Bool
is_allowed none = false
is_allowed (some m) = any (str_eq m) rpc_methods

-- `!x || !RPC_METHODS.has(x.method)`
unfoldable pub is_bad : Entry → Bool
unfolding is_allowed
is_bad falsy = true
is_bad (call m) = not (is_allowed m)

-- `const bad = calls.find(…); if (bad) …`: the entry that is found counts only if it is truthy.
unfoldable pub refuse : Option Entry → List Entry → RpcOutcome
refuse none calls = forwarded calls
refuse (some falsy) calls = forwarded calls
refuse (some (call m)) calls = not_allowed (call m)

unfoldable pub check_calls : List Entry → RpcOutcome
unfolding refuse is_bad
check_calls calls =
    if ltb 20 (length calls) then invalid_request else refuse (find is_bad calls) calls

-- `over` says that the caller is over RPC_RATE.
unfoldable pub post_rpc : Bool → Body → RpcOutcome
unfolding check_calls
post_rpc true body = rate_limited
post_rpc false nothing = invalid_request
post_rpc false (single falsy) = invalid_request
post_rpc false (single (call m)) = check_calls (call m ∷ [])
post_rpc false (batch calls) = check_calls calls
