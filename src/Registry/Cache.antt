-- ===== src/Registry/Cache.antt =====
-- internal/registry/cache.go: the bounded schema cache, a map of pointers into a doubly linked list
-- that has the most recently used entry in front. An element is never given another key, and the
-- map holds at most one element of a key, so the pointer to an element is its entry's key. Sizes
-- are `int64` values; `bytes` is kept as a natural number, whose `-` never stops at 0 in a cache
-- that is linked up (Linked).
pub mod Lists
pub mod Linked
pub mod Lru
pub mod Reads
use lessen_mcp_gateway.Prelude.{
  map, ℕ, zero, suc, ◌+◌, ◌-◌, ◌^◌, Bytes, ◌==◌, Bool, true, false, ◌&&◌, not, Option, none, some,
  List, [], ◌∷◌, ltb, if◌then◌else◌, length, last, but_last, Map, lookup, delete, insert,
  has_prefix, keep, delete_if,
}
use lessen_mcp_gateway.Model.{Tool}

pub record CacheEntry : Type 0 where
  pub key : Bytes
  pub tool : Tool
  pub size : ℕ

pub record ToolCache : Type 0 where
  pub max_bytes : ℕ
  pub bytes : ℕ
  pub items : Map Bytes
  pub order : List CacheEntry

-- `1 << 20`
abbrev pub floor : ℕ
floor = 1048576

abbrev pub at_least : ℕ → ℕ
at_least max = if ltb max floor then floor else max

unfoldable pub new : ℕ → ToolCache
new max_bytes = record { max_bytes = at_least max_bytes; bytes = 0; items = []; order = [] }

-- `estimateToolBytes`
unfoldable pub estimate_tool_bytes : Tool → ℕ
estimate_tool_bytes t =
    length t.server_id
    + length t.name
    + length t.exposed_name
    + length t.title
    + length t.description
    + length t.input_schema
    + length t.output_schema
    + length t.annotations
    + length t.schema_hash
    + 256

-- The entry of the element `p` of the list.
unfoldable pub find : Bytes → List CacheEntry → Option CacheEntry
find p [] = none
find p (e ∷ l) = if e.key == p then some e else find p l

-- `c.order.Remove(p)`
unfoldable pub without : Bytes → List CacheEntry → List CacheEntry
without p [] = []
without p (e ∷ l) = if e.key == p then without p l else e ∷ without p l

-- `Get`. The second case is a pointer to an element that has left the list; there is none.
unfoldable pub get : ToolCache → Bytes → ToolCache × Option Tool
unfolding find without
get c key = elim (lookup key c.items) [
  | none ↦ (c, none)
  | some p ↦ elim (find p c.order) [
    | none ↦ (c, none)
    | some e ↦ (record c { order = e ∷ without p c.order }, some e.tool)
  ]
]

-- The body of the eviction loop: drop the entry at the back.
unfoldable pub drop_back : ToolCache → CacheEntry → ToolCache
drop_back c entry = record c {
  items = delete entry.key c.items;
  bytes = c.bytes - entry.size;
  order = but_last c.order;
}

-- `for c.bytes > c.maxBytes && c.order.Len() > 0`. Each round shortens the list, so the length of
-- the list is fuel enough.
unfoldable pub evict : ℕ → ToolCache → ToolCache
unfolding drop_back
evict zero c = c
evict (suc n) c = elim (last c.order) [
  | none ↦ c
  | some entry ↦ if ltb c.max_bytes c.bytes then evict n (drop_back c entry) else c
]

-- The first part of `Put`: the entry goes to the front, new or updated in place.
unfoldable pub store : ToolCache → Bytes → Tool → ℕ → ToolCache
unfolding find without
store c key tool size = elim (lookup key c.items) [
  | some p ↦ elim (find p c.order) [
    | none ↦ c
    | some e ↦ record c {
      bytes = c.bytes - e.size + size;
      order = record e { tool = tool; size = size } ∷ without p c.order;
    }
  ]
  | none ↦ record c {
    items = insert key key c.items;
    order = record { key = key; tool = tool; size = size } ∷ c.order;
    bytes = c.bytes + size;
  }
]

unfoldable pub put : ToolCache → Bytes → Tool → ToolCache
unfolding store evict estimate_tool_bytes
put c key tool =
    let stored = store c key tool (estimate_tool_bytes tool) in evict (length stored.order) stored

-- The sizes of the entries of the list.
unfoldable pub total : List CacheEntry → ℕ
total [] = 0
total (e ∷ l) = e.size + total l

-- The body of the loop of `DeletePrefix`: the element of a key leaves the map and the list.
unfoldable pub remove_key : Bytes → ToolCache → ToolCache
unfolding find without
remove_key key c = elim (lookup key c.items) [
  | none ↦ c
  | some p ↦ elim (find p c.order) [
    | none ↦ c
    | some e ↦ record c {
      bytes = c.bytes - e.size;
      items = delete key c.items;
      order = without p c.order;
    }
  ]
]

-- The loop over the keys of the map. Go lets a loop over a map delete from it.
unfoldable pub delete_keys : Bytes → List Bytes → ToolCache → ToolCache
unfolding remove_key
delete_keys prefix [] c = c
delete_keys prefix (key ∷ rest) c =
    delete_keys prefix rest (if has_prefix key prefix then remove_key key c else c)

unfoldable pub delete_prefix : ToolCache → Bytes → ToolCache
unfolding delete_keys
delete_prefix c prefix = delete_keys prefix (map (λ e. e.0) c.items) c

unfoldable pub clear : ToolCache → ToolCache
clear c = record c { items = []; order = []; bytes = 0 }

unfoldable pub stats : ToolCache → ℕ × ℕ
stats c = (length c.order, c.bytes)

unfoldable pub set_max_bytes : ToolCache → ℕ → ToolCache
unfolding evict
set_max_bytes c max = evict (length c.order) (record c { max_bytes = at_least max })
