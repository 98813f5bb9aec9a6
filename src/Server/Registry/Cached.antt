-- ===== src/Server/Registry/Cached.antt =====
-- What GET /registry shows where the index is down.
use monadguard.Base.{
  ℕ, ◌≤◌, ◌≡◌, ◌≢◌, refl, sym, subst, inl, inr, true, Option, none, List, [], ◌∷◌, map, Text,
  text_eq_iff, length, ◌∈◌, All, All-mem, All-of_mem, All-take, mem_of_keep, mem-sort_by,
  length-take, sort_by, sort_by-All, sort_by-IsSorted, IsSorted, mem_of_sort_by, arith,
}
use monadguard.Store.{Db, ScanRow, ToolRow, AnchorState}
use monadguard.Store.Queries.{
  Stats, as_new, as_recent, confirmed_on, is_confirmed, joined, recent_tools, stats,
}
use monadguard.Server.Registry.{
  RegistryNode, ListedTool, from_cache, Limit, negative, number, missing, capped, listed_tool,
  get_registry, as_of_rows,
}

-- The verdict, the score and the time of an entry are those of a scan of the store that is confirmed
-- on the chain, and no scan of the tool that is confirmed there is newer.
abbrev pub IsAnchored : Db → ℕ → ListedTool → Type 0
IsAnchored db chain t =
    (r : ScanRow) × (r ∈ db.scans)
    × (r.tool_id ≡ t.id)
    × (r.anchor_state ≡ AnchorState.confirmed)
    × (r.chain_id ≡ chain)
    × All (λ (s : ScanRow). s.created_at ≤ r.created_at) (confirmed_on db t.id chain)
    × (t.latest_verdict ≡ r.verdict)
    × (t.latest_score ≡ r.score)
    × (t.last_seen ≡ r.created_at)
    × (t.scan_count ≡ length (confirmed_on db t.id chain))

is_confirmed-true : (a : AnchorState) → is_confirmed a ≡ true → a ≡ AnchorState.confirmed
unfolding is_confirmed
is_confirmed-true AnchorState.confirmed h = refl
is_confirmed-true _ h = absurd (cc)

mem_of_confirmed_on :
    (db : Db) (id : Text) (chain : ℕ) (r : ScanRow)
    → r ∈ confirmed_on db id chain
    → (r ∈ db.scans)
      × (r.tool_id ≡ id)
      × (r.anchor_state ≡ AnchorState.confirmed)
      × (r.chain_id ≡ chain)
unfolding confirmed_on
mem_of_confirmed_on db id chain r m =
    let (i, h) = mem_of_keep _ db.scans r m in
    (
      i,
      ground (arith, text_eq_iff r.tool_id id),
      is_confirmed-true r.anchor_state (ground arith),
      ground arith,
    )

-- The first row by `ORDER BY created_at DESC` is one of the rows, and none is newer.
newest :
    (rows rs : List ScanRow) (r : ScanRow)
    → sort_by as_new rows ≡ r ∷ rs
    → (r ∈ rows) × All (λ (s : ScanRow). s.created_at ≤ r.created_at) rows
newest rows rs r h =
    let sorted =
      subst (IsSorted as_new) h
        (sort_by-IsSorted as_new (λ f g e. ground arith) (λ f g k d e. ground arith) rows) in
    (
      mem_of_sort_by as_new r rows (subst (λ l. r ∈ l) (sym h) (inl refl)),
      All-of_mem _ rows
          (λ s m. at_head s (subst (λ l. s ∈ l) h (mem-sort_by as_new s rows m)) sorted.0),
    )
  where
    at_head :
        (s : ScanRow) → s ∈ (r ∷ rs) → All (λ y. as_new r y ≡ true) rs → s.created_at ≤ r.created_at
    at_head s (inl e) a = rw e (omega arith)
    at_head s (inr m) a = ground (arith, All-mem _ rs s a m)

joined-IsAnchored :
    (db : Db) (chain : ℕ) (ts : List ToolRow)
    → All (λ t. IsAnchored db chain (listed_tool t)) (joined db chain ts)
unfolding joined listed_tool
joined-IsAnchored db chain [] = tt
joined-IsAnchored db chain (t ∷ ts) =
    go (sort_by as_new (confirmed_on db t.tool_id chain)) refl (joined-IsAnchored db chain ts)
  where
    go :
        (l : List ScanRow)
        → sort_by as_new (confirmed_on db t.tool_id chain) ≡ l
        → All (λ u. IsAnchored db chain (listed_tool u)) (joined db chain ts)
        → All
            (λ u. IsAnchored db chain (listed_tool u))
            (elim l [
              | [] ↦ joined db chain ts
              | r ∷ rs ↦
                  record {
                    tool = t;
                    scan = r;
                    scan_count = length (confirmed_on db t.tool_id chain);
                  }
                  ∷ joined db chain ts
            ])
    go [] e rest = rest
    go (r ∷ rs) e rest =
        let (m, a) = newest (confirmed_on db t.tool_id chain) rs r e in
        let (i, k, c, n) = mem_of_confirmed_on db t.tool_id chain r m in
        ((r, i, k, c, n, a, refl, refl, refl, refl), rest)

All-of_map :
    {A B : Type 0} (P : B → Type 0) (f : A → B) (xs : List A)
    → All (λ a. P (f a)) xs
    → All P (map f xs)
All-of_map P f [] h = tt
All-of_map P f (x ∷ xs) h = (h.0, All-of_map P f xs h.1)

length-map : {A B : Type 0} (f : A → B) (xs : List A) → length (map f xs) ≡ length xs
length-map f [] = refl
length-map f (x ∷ xs) = omega (arith, length-map f xs)

capped-le : (db : Db) (limit : Limit) → limit ≢ negative → capped db limit ≤ 100
unfolding capped
capped-le db missing h = omega arith
capped-le db (number n) h = omega arith
capped-le db negative h = absurd (h refl)

recent_tools-IsAnchored :
    (db : Db) (chain limit : ℕ)
    → All (λ t. IsAnchored db chain (listed_tool t)) (recent_tools db chain limit)
unfolding recent_tools
recent_tools-IsAnchored db chain limit =
    All-take _ limit _
      (sort_by-All as_recent _ (joined db chain db.tools) (joined-IsAnchored db chain db.tools))

length-recent_tools : (db : Db) (chain limit : ℕ) → length (recent_tools db chain limit) ≤ limit
unfolding recent_tools
length-recent_tools db chain limit =
    omega (arith, length-take limit (sort_by as_recent (joined db chain db.tools)))

-- Where the index is down, GET /registry answers from the store: every entry has the verdict, the
-- score and the time of a scan of its tool that is confirmed on this chain, none confirmed there is
-- newer, and the count is that of the confirmed ones; there are no more entries than 100, unless
-- the limit asked for is negative.
pub get_registry-IsAnchored :
    {A T : Type 0} (node : RegistryNode) (id_of : T → Text) (db : Db)
    (tools : Limit → Option (A × List T)) (limit : Limit)
    → tools limit ≡ none
    → (as_of : Option ℕ) × (st : Stats) × (ts : List ListedTool) × (get_registry node id_of db tools
          limit
        ≡ from_cache as_of st ts)
      × All (IsAnchored db node.chain_id) ts
      × ((limit ≢ negative) → length ts ≤ 100)
unfolding get_registry
get_registry-IsAnchored node id_of db tools limit h =
    let rows = recent_tools db node.chain_id (capped db limit) in
    (
      as_of_rows rows,
      stats db,
      map listed_tool rows,
      rw (get_registry, h) refl,
      All-of_map (IsAnchored db node.chain_id) listed_tool rows
          (recent_tools-IsAnchored db node.chain_id (capped db limit)),
      λ n. omega (
        arith,
        length-map listed_tool rows,
        length-recent_tools db node.chain_id (capped db limit),
        capped-le db limit n,
      ),
    )
