-- ===== src/Examples/Registries.antt =====
-- The routes of the registry at a small store.
use monadguard.Base.{
  ℕ, ◌≤◌, ◌≡◌, ◌≢◌, refl, Option, none, some, List, [], ◌∷◌, All, Text, lit, length,
}
use monadguard.Store.{Db}
use monadguard.Store.Queries.{Stats}
use monadguard.Server.Registry.{
  RegistryNode, ListedTool, from_cache, Limit, negative, missing, get_registry,
}
use monadguard.Server.Registry.Cached.{IsAnchored, get_registry-IsAnchored}
use monadguard.Examples.Nodes.{store_of, confirmed_row}

abbrev node : RegistryNode
node = record { base_url = lit "u"; chain_id = 143; parse = λ json. some [] }

-- A tool with two confirmed scans, the newer one second.
abbrev store : Db
store =
    record (store_of (
      confirmed_row
      ∷ record confirmed_row { id = 2; receipt_hash = lit "0xe"; verdict = 3; created_at = 9 }
      ∷ [])) {
        tools =
            record {
              tool_id = lit "0x1";
              kind = lit "mcp";
              name = lit "a";
              origin = lit "npm:a";
              first_seen = 1;
            }
            ∷ [];
      }

abbrev id_of : Text → Text
id_of t = t

abbrev down : Limit → Option (ℕ × List Text)
down limit = none

get_registry-IsAnchored_example :
    (as_of : Option ℕ) × (st : Stats) × (ts : List ListedTool) × (get_registry node id_of store down
        missing
      ≡ from_cache as_of st ts)
    × All (IsAnchored store 143) ts
    × ((missing ≢ negative) → length ts ≤ 100)
get_registry-IsAnchored_example = get_registry-IsAnchored node id_of store down missing refl
