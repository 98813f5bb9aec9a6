-- ===== src/Server/Rpc/Allowed.antt =====
-- Which calls pass the proxy.
use monadguard.Base.{
  ◌≤◌, ◌≡◌, true, false, Bool-cases, inl, inr, some, Option-cases, List, ◌∷◌, All, All-map, All-mem,
  ◌∈◌, subst, find, find-some, find-none, length, ltb, arith,
}
use monadguard.Server.Rpc.{
  Entry, falsy, call, batch, forwarded, is_allowed, is_bad, refuse, check_calls, post_rpc,
}

abbrev pub IsTruthy : Entry → Type 0
IsTruthy falsy = ⊥
IsTruthy (call m) = Unit {0}

-- The entry is a call of a method on the list.
abbrev pub IsAllowed : Entry → Type 0
IsAllowed falsy = ⊥
IsAllowed (call m) = is_allowed m ≡ true

is_bad-IsAllowed : (e : Entry) → is_bad e ≡ false → IsAllowed e
unfolding is_bad
is_bad-IsAllowed falsy h = cc
is_bad-IsAllowed (call m) h = ground arith

-- A batch without falsy entries that the proxy forwards is forwarded as it came, holds twenty calls
-- at most, and calls allowed methods only.
pub forwarded-IsAllowed :
    (calls sent : List Entry)
    → All IsTruthy calls
    → post_rpc false (batch calls) ≡ forwarded sent
    → (sent ≡ calls) × All IsAllowed sent × (length sent ≤ 20)
unfolding post_rpc check_calls refuse
forwarded-IsAllowed calls sent t h = elim (Bool-cases (ltb 20 (length calls))) [
  | inl e ↦ absurd (cc (rw (e, post_rpc, check_calls) at h))
  | inr e ↦ elim (Option-cases (find is_bad calls)) [
    | inl f ↦
        let same : forwarded calls ≡ forwarded sent = rw (e, f) at h in
        let all : All IsAllowed calls = All-map is_bad-IsAllowed calls (find-none is_bad calls f) in
        (cc same, subst (All IsAllowed) (cc same) all, ground arith)
    | inr (b, f) ↦ absurd (bad_entry b (find-some is_bad calls b f).0 (rw (e, f) at h))
  ]
]
  where
    bad_entry : (b : Entry) → b ∈ calls → ¬ (refuse (some b) calls ≡ forwarded sent)
    bad_entry falsy m r = All-mem IsTruthy calls falsy t m
    bad_entry (call m) i r = cc

-- A batch of twenty entries at most that starts with a falsy entry is forwarded as it came,
-- whatever methods its other entries call.
pub falsy_entry-forwards :
    (calls : List Entry)
    → length calls ≤ 19
    → post_rpc false (batch (falsy ∷ calls)) ≡ forwarded (falsy ∷ calls)
unfolding post_rpc check_calls refuse find is_bad
falsy_entry-forwards calls h = ground arith
