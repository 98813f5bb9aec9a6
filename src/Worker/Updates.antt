-- ===== src/Worker/Updates.antt =====
-- What the loops over the hashes of a batch do to the row at a key.
use mathlib.Core.Option
use monadguard.Base.{
  ℕ, ◌≡◌, refl, ◌∙◌, Bool, Option, none, some, List, [], ◌∷◌, Text, text_eq, any, arith, ◌||◌,
  if◌then◌else◌,
}
use monadguard.Store.{
  Db, ScanRow, AnchorState, with_state, with_anchor, set_state, mark_anchored, get_scan,
}
use monadguard.Store.Keys.{
  HasUniqueHashes, update_scan-HasUniqueHashes, get_scan-set_state, get_scan-mark_anchored,
}
use monadguard.Worker.{set_states, mark_all}

-- The hash stands in the list.
abbrev pub listed : Text → List Text → Bool
listed k hs = any (λ h. text_eq h k) hs

pub get_scan-set_states :
    (hs : List Text) (state : AnchorState) (db : Db) (k : Text)
    → get_scan (set_states hs state db) k
      ≡ (if listed k hs then Option.map (with_state state) (get_scan db k) else get_scan db k)
unfolding set_states any
get_scan-set_states [] state db k = refl
get_scan-set_states (h ∷ hs) state db k =
    get_scan-set_states hs state (set_state h state db) k
    ∙ rw (get_scan-set_state db h k state) (both (get_scan db k) (listed k hs) (text_eq h k))
  where
    both :
        (o : Option ScanRow) (b c : Bool)
        → (if b
            then Option.map (with_state state) (if c then Option.map (with_state state) o else o)
            else (if c then Option.map (with_state state) o else o))
          ≡ (if c || b then Option.map (with_state state) o else o)
    both none b c = ground arith
    both (some r) b c = ground arith

pub get_scan-mark_all :
    (hs : List Text) (tx : Text) (block : ℕ) (state : AnchorState) (db : Db) (k : Text)
    → get_scan (mark_all hs tx block state db) k ≡ (
        if listed k hs
        then Option.map (with_anchor (some tx) (some block) state) (get_scan db k)
        else get_scan db k)
unfolding mark_all any
get_scan-mark_all [] tx block state db k = refl
get_scan-mark_all (h ∷ hs) tx block state db k =
    get_scan-mark_all hs tx block state (mark_anchored h (some tx) (some block) state db) k
    ∙ rw (get_scan-mark_anchored db h k (some tx) (some block) state)
        (both (get_scan db k) (listed k hs) (text_eq h k))
  where
    f : ScanRow → ScanRow
    f = with_anchor (some tx) (some block) state

    both :
        (o : Option ScanRow) (b c : Bool)
        → (if b
            then Option.map f (if c then Option.map f o else o)
            else (if c then Option.map f o else o))
          ≡ (if c || b then Option.map f o else o)
    both none b c = ground arith
    both (some r) b c = ground arith

pub set_states-HasUniqueHashes :
    (hs : List Text) (state : AnchorState) (db : Db)
    → HasUniqueHashes db.scans
    → HasUniqueHashes (set_states hs state db).scans
unfolding set_states
set_states-HasUniqueHashes [] state db u = u
set_states-HasUniqueHashes (h ∷ hs) state db u =
    set_states-HasUniqueHashes hs state (set_state h state db)
      (unfold set_state in update_scan-HasUniqueHashes h (with_state state) db (λ row. refl) u)

pub mark_all-HasUniqueHashes :
    (hs : List Text) (tx : Text) (block : ℕ) (state : AnchorState) (db : Db)
    → HasUniqueHashes db.scans
    → HasUniqueHashes (mark_all hs tx block state db).scans
unfolding mark_all
mark_all-HasUniqueHashes [] tx block state db u = u
mark_all-HasUniqueHashes (h ∷ hs) tx block state db u =
    mark_all-HasUniqueHashes hs tx block state (mark_anchored h (some tx) (some block) state db) (
      unfold mark_anchored in
      update_scan-HasUniqueHashes h (with_anchor (some tx) (some block) state) db (λ row. refl) u)
