-- ===== src/Examples/Handlers.antt =====
-- The handlers of the API and the checks of a receipt at small inputs.
use monadguard.Store.{Db, ScanRow, AnchorState, Signature, get_scan}
use monadguard.Store.Queries.{is_pending}
use monadguard.Worker.{Chain, to_scan_input, scan_input, sign_row}
use monadguard.Server.Anchor.{Node, AnchorRequest, is_operator, anchor_with, post_anchor}
use monadguard.Server.Anchor.Authority.{post_anchor-operator, post_anchor-others}
use monadguard.Server.Anchor.Leak.{unanchored_leak}
use monadguard.Server.Rpc.{rpc_methods, Entry, falsy, call, batch, forwarded, post_rpc}
use monadguard.Server.Rpc.Allowed.{IsAllowed, forwarded-IsAllowed, falsy_entry-forwards}
use monadguard.Base.{
  any, find, ◌+◌, ◌≤◌, ◌≡◌, refl, min, true, false, Option, none, some, List, [], ◌∷◌, All, Text,
  lit, length, text_eq, arith, truthy,
}
use monadguard.Server.RateLimit.{count_of, admitted, admitted-le}
use monadguard.Examples.Nodes.{row, confirmed_row, store_of, digest, sign, chain}

abbrev node : Node
node = record { key = some (lit "key"); admin_token = some (lit "secret") }

abbrev waiting : ScanRow
waiting = row (lit "0xd") AnchorState.unanchored

abbrev store : Db
store = store_of (confirmed_row ∷ waiting ∷ [])

abbrev ask : Text → Option Signature → AnchorRequest
ask h sig = record { receipt_hash = h; signature = sig; token = none }

abbrev bogus : Signature
bogus = record { r = lit "1"; s = lit "2" }

abbrev strict_chain : Chain
strict_chain = record chain { anchor_one = λ input. none }

not_operator : is_operator node (ask (lit "0xd") none) ≡ false
unfolding is_operator
not_operator = refl

post_anchor-operator_example :
    (post_anchor digest sign node chain store (ask (lit "0xd") none)).0 ≡ store
post_anchor-operator_example =
    post_anchor-operator digest sign node chain store (ask (lit "0xd") none) refl not_operator

confirmed-found : get_scan store (lit "0xc") ≡ some confirmed_row
unfolding get_scan find text_eq
confirmed-found = refl

others : text_eq (lit "0xd") (lit "0xc") ≡ false
unfolding text_eq
others = refl

post_anchor-others_example :
    get_scan (post_anchor digest sign node chain store (ask (lit "0xd") (some bogus))).0 (lit "0xc")
    ≡ get_scan store (lit "0xc")
post_anchor-others_example =
    post_anchor-others digest sign node chain store (ask (lit "0xd") (some bogus)) (lit "0xc")
      others

waiting-found : get_scan store (lit "0xd") ≡ some waiting
unfolding get_scan find text_eq
waiting-found = refl

rejected :
    anchor_with digest sign strict_chain (some (lit "key")) waiting (some bogus) (some (lit "0xa"))
    ≡ none
unfolding anchor_with
rejected = refl

unanchored_leak_example :
    (after : ScanRow) × (get_scan
        (post_anchor digest sign node strict_chain store (ask (lit "0xd") (some bogus))).0
        (lit "0xd")
      ≡ some after)
    × (is_pending after ≡ true)
    × (to_scan_input digest sign (some (lit "key")) (lit "0xa") after
        ≡ some (scan_input after (sign_row digest sign (lit "key") (lit "0xa") after)))
unanchored_leak_example =
    unanchored_leak digest sign node strict_chain store (ask (lit "0xd") (some bogus)) waiting bogus
      (lit "key") (lit "0xa") waiting-found refl refl refl refl rejected

abbrev two_calls : List Entry
two_calls = call (some "eth_call") ∷ call (some "eth_chainId") ∷ []

two_calls-forwarded : post_rpc false (batch two_calls) ≡ forwarded two_calls
unfolding post_rpc find any rpc_methods
two_calls-forwarded = refl

forwarded-IsAllowed_example :
    (two_calls ≡ two_calls) × All IsAllowed two_calls × (length two_calls ≤ 20)
forwarded-IsAllowed_example =
    forwarded-IsAllowed two_calls two_calls (tt, (tt, tt)) two_calls-forwarded

abbrev admin_call : List Entry
admin_call = call (some "debug_setHead") ∷ []

falsy_entry-forwards_example :
    post_rpc false (batch (falsy ∷ admin_call)) ≡ forwarded (falsy ∷ admin_call)
falsy_entry-forwards_example = falsy_entry-forwards admin_call (omega arith)

abbrev callers : List Text
callers = lit "1.1.1.1" ∷ lit "2.2.2.2" ∷ lit "1.1.1.1" ∷ []

caller_given : truthy (lit "1.1.1.1") ≡ true
unfolding truthy
caller_given = refl

admitted-le_example :
    admitted 1 7 (lit "1.1.1.1") callers [] + min (count_of (lit "1.1.1.1") 7 []) 1 ≤ 1
admitted-le_example = admitted-le 1 7 (lit "1.1.1.1") callers [] caller_given
