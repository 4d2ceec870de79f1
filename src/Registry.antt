-- ===== src/Registry.antt =====
-- internal/registry/registry.go: the registry over any store. It keeps a routing index from exposed
-- tool names to tools, and a cache of tools under the key "<server>/<tool>". Its methods run one at
-- a time here; what a call may meet between its store access and its cache access is not modelled.
pub mod Cache
pub mod Names
pub mod Coherent
pub mod Routing
use lessen_mcp_gateway.Prelude.{
  ℕ, zero, suc, ◌+◌, ◌<◌, Bytes, codes, ◌==◌, less, to_lower, Bool, true, false, Option, none, some,
  List, [], ◌∷◌, ◌++◌, map, if◌then◌else◌, length, ltb, Map, lookup, insert, delete_if,
}
use lessen_mcp_gateway.Prelude.Int.{ℤ, pos}
use lessen_mcp_gateway.Errors.{Error, Context, Result, ok, err, not_found, ◌>>=◌}
use lessen_mcp_gateway.Model.{Server, Tool, ToolSummary, Resource, ResourceTemplate, Prompt}
use lessen_mcp_gateway.Storage.Interface.{Done, Rows, Store}
use lessen_mcp_gateway.Storage.Sort.{sort_slice}
use lessen_mcp_gateway.Registry.Cache
use lessen_mcp_gateway.Registry.Cache.{ToolCache}

-- `toolRef`
pub record ToolRef : Type 0 where
  pub server_id : Bytes
  pub name : Bytes

pub record Registry (S : Type 0) : Type 0 where
  pub stored : S
  pub cache : ToolCache
  pub tool_index : Map ToolRef

-- `id + "/" + name`
abbrev pub cache_key : Bytes → Bytes → Bytes
cache_key id name = id ++ codes "/" ++ name

-- `for _, item := range items { index[item.ExposedName] = … }`
unfoldable pub index_summaries : List ToolSummary → Map ToolRef → Map ToolRef
index_summaries [] index = index
index_summaries (item ∷ items) index =
    index_summaries items
      (insert item.exposed_name (record { server_id = item.server_id; name = item.name }) index)

unfoldable pub index_tools : List Tool → Map ToolRef → Map ToolRef
index_tools [] index = index
index_tools (tool ∷ tools) index =
    index_tools tools
      (insert tool.exposed_name (record { server_id = tool.server_id; name = tool.name }) index)

-- `for key, ref := range r.toolIndex { if ref.ServerID == id { delete(r.toolIndex, key) } }`
abbrev pub drop_server : Bytes → Map ToolRef → Map ToolRef
drop_server id index = delete_if (λ key ref. ref.server_id == id) index

module _ {S : Type 0} (store : Store S) where
  -- The loop of `RebuildIndex` from the page at hand; each full page asks for the next. `none`: the
  -- fuel, a number of pages, ran out.
  unfoldable pub rebuild_loop :
      ℕ → S → Context → List ToolSummary → ℕ → Map ToolRef → Option (Result (Map ToolRef))
  unfolding index_summaries
  rebuild_loop zero s ctx items offset index = none
  rebuild_loop (suc fuel) s ctx items offset index =
      let index' = index_summaries items index in
      let more =
        λ (next : List ToolSummary). rebuild_loop fuel s ctx next (offset + length next) index' in
      if ltb (length items) 1000
      then some (ok index')
      else elim (store.list_tool_summaries s ctx [] [] (pos 1000) (pos offset)) [
        | ok (next, _) ↦ more next
        | err e ↦ some (err e)
      ]

  unfoldable pub rebuild_index : ℕ → Registry S → Context → Option (Result (Registry S))
  unfolding rebuild_loop
  rebuild_index fuel r ctx =
      elim (store.list_tool_summaries r.stored ctx [] [] (pos 1000) (pos 0)) [
        | err e ↦ some (err e)
        | ok (items, _) ↦ elim (rebuild_loop fuel r.stored ctx items (length items) []) [
          | none ↦ none
          | some (err e) ↦ some (err e)
          | some (ok index) ↦ some (ok (record r { tool_index = index }))
        ]
      ]

  -- `New`
  unfoldable pub new : ℕ → S → ℕ → Context → Option (Result (Registry S))
  unfolding rebuild_index
  new fuel s cache_bytes ctx =
      rebuild_index fuel (record { stored = s; cache = Cache.new cache_bytes; tool_index = [] }) ctx

  unfoldable pub health : Registry S → Context → Done
  health r ctx = store.health r.stored ctx

  unfoldable pub upsert_server : Registry S → Context → Server → Registry S × Done
  upsert_server r ctx server =
      let (s, done) = store.upsert_server r.stored ctx server in (record r { stored = s }, done)

  -- What follows the store's error: nothing changes but the store.
  unfoldable pub delete_server : Registry S → Context → Bytes → Registry S × Done
  delete_server r ctx id =
      let (s, done) = store.delete_server r.stored ctx id in
      elim done [
        | err e ↦ (record r { stored = s }, err e)
        | ok _ ↦ (
          record {
            stored = s;
            cache = Cache.delete_prefix r.cache (id ++ codes "/");
            tool_index = drop_server id r.tool_index;
          },
          ok tt,
        )
      ]

  unfoldable pub get_server : Registry S → Context → Bytes → Result Server
  get_server r ctx id = store.get_server r.stored ctx id

  unfoldable pub list_servers : Registry S → Context → Result (List Server)
  list_servers r ctx = do
    items ← store.list_servers r.stored ctx
    ok (sort_slice (λ a b. less (to_lower a.name) (to_lower b.name)) items)

  unfoldable pub replace_tools : Registry S → Context → Bytes → List Tool → Registry S × Done
  unfolding index_tools
  replace_tools r ctx id tools =
      let (s, done) = store.replace_tools r.stored ctx id tools in
      elim done [
        | err e ↦ (record r { stored = s }, err e)
        | ok _ ↦ (
          record {
            stored = s;
            cache = Cache.delete_prefix r.cache (id ++ codes "/");
            tool_index = index_tools tools (drop_server id r.tool_index);
          },
          ok tt,
        )
      ]

  unfoldable pub list_tool_summaries :
      Registry S → Context → Bytes → Bytes → ℤ → ℤ → Rows ToolSummary
  list_tool_summaries r ctx id query limit offset =
      store.list_tool_summaries r.stored ctx id query limit offset

  -- The cache first, then the store; what the store has is cached.
  unfoldable pub get_tool : Registry S → Context → Bytes → Bytes → Registry S × Result Tool
  get_tool r ctx id name =
      let key = cache_key id name in
      let (cache, hit) = Cache.get r.cache key in
      elim hit [
        | some tool ↦ (record r { cache = cache }, ok tool)
        | none ↦ elim (store.get_tool r.stored ctx id name) [
          | err e ↦ (record r { cache = cache }, err e)
          | ok tool ↦ (record r { cache = Cache.put cache key tool }, ok tool)
        ]
      ]

  unfoldable pub resolve_tool : Registry S → Context → Bytes → Registry S × Result Tool
  unfolding get_tool
  resolve_tool r ctx exposed_name = elim (lookup exposed_name r.tool_index) [
    | none ↦ (r, err not_found)
    | some ref ↦ get_tool r ctx ref.server_id ref.name
  ]

  unfoldable pub list_tools : Registry S → Context → Result (List Tool)
  list_tools r ctx = store.list_tools r.stored ctx []

  unfoldable pub list_tools_page : Registry S → Context → Bytes → ℤ → ℤ → Rows Tool
  list_tools_page r ctx id limit offset = store.list_tools_page r.stored ctx id limit offset

  unfoldable pub replace_resources :
      Registry S → Context → Bytes → List Resource → Registry S × Done
  replace_resources r ctx id items =
      let (s, done) = store.replace_resources r.stored ctx id items in
      (record r { stored = s }, done)

  unfoldable pub list_resources : Registry S → Context → Bytes → ℤ → ℤ → Rows Resource
  list_resources r ctx id limit offset = store.list_resources r.stored ctx id limit offset

  unfoldable pub replace_resource_templates :
      Registry S → Context → Bytes → List ResourceTemplate → Registry S × Done
  replace_resource_templates r ctx id items =
      let (s, done) = store.replace_resource_templates r.stored ctx id items in
      (record r { stored = s }, done)

  unfoldable pub list_resource_templates :
      Registry S → Context → Bytes → ℤ → ℤ → Rows ResourceTemplate
  list_resource_templates r ctx id limit offset =
      store.list_resource_templates r.stored ctx id limit offset

  unfoldable pub replace_prompts : Registry S → Context → Bytes → List Prompt → Registry S × Done
  replace_prompts r ctx id items =
      let (s, done) = store.replace_prompts r.stored ctx id items in (record r { stored = s }, done)

  unfoldable pub list_prompts : Registry S → Context → Bytes → ℤ → ℤ → Rows Prompt
  list_prompts r ctx id limit offset = store.list_prompts r.stored ctx id limit offset

  unfoldable pub cache_stats : Registry S → ℕ × ℕ
  cache_stats r = Cache.stats r.cache

  unfoldable pub set_cache_bytes : Registry S → ℕ → Registry S
  set_cache_bytes r value = record r { cache = Cache.set_max_bytes r.cache value }
