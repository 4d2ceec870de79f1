-- ===== src/Storage/Memory.antt =====
-- internal/storage/memory.go: the store in memory. Each operation runs under the store's lock, so
-- it is one step. A map's iteration order is that of its association list.
pub mod Laws
use lessen_mcp_gateway.Prelude.{
  ℕ, zero, suc, ◌+◌, Bytes, codes, ◌==◌, less, to_lower, contains, nat_eq, leb, Bool, true, false,
  ◌&&◌, ◌||◌, Option, none, some, List, [], ◌∷◌, ◌++◌, map, if◌then◌else◌, keep, length, Map,
  lookup, insert, delete,
}
use Prim.Native.Nat.{compare, Ordering}
use lessen_mcp_gateway.Prelude.Int.{ℤ}
use lessen_mcp_gateway.Errors.{Context, check, Result, ok, err, not_found, ◌>>=◌, ◌>>◌}
use lessen_mcp_gateway.Model.{Raw, Server, Tool, ToolSummary, Resource, ResourceTemplate, Prompt}
use lessen_mcp_gateway.Storage.Sort.{sort_slice}
use lessen_mcp_gateway.Storage.Page.{page, window, page_limit}
use lessen_mcp_gateway.Storage.Search.{trim_space, tool_search_text, join, fields}
use lessen_mcp_gateway.Storage.Interface.{Done, Rows, Store}

pub record MemoryStore : Type 0 where
  pub servers : Map Server
  pub tools : Map (Map Tool)
  pub resources : Map (List Resource)
  pub templates : Map (List ResourceTemplate)
  pub prompts : Map (List Prompt)
  pub closed : Bool

unfoldable pub new_memory : MemoryStore
new_memory = record {
  servers = [];
  tools = [];
  resources = [];
  templates = [];
  prompts = [];
  closed = false;
}

-- A write: the context is asked first, and then the state is changed.
abbrev write : Context → MemoryStore → MemoryStore → MemoryStore × Done
write none m m' = (m', ok tt)
write (some e) m m' = (m, err e)

unfoldable pub health : MemoryStore → Context → Done
health m ctx = check ctx >> (if m.closed then err not_found else ok tt)

unfoldable pub close : MemoryStore → MemoryStore
close m = record m { closed = true }

unfoldable pub upsert_server : MemoryStore → Context → Server → MemoryStore × Done
upsert_server m ctx s = write ctx m (record m { servers = insert s.id s m.servers })

unfoldable pub delete_server : MemoryStore → Context → Bytes → MemoryStore × Done
delete_server m ctx id = write ctx m (record m {
  servers = delete id m.servers;
  tools = delete id m.tools;
  resources = delete id m.resources;
  templates = delete id m.templates;
  prompts = delete id m.prompts;
})

abbrev found {ℓ} : {A : Type ℓ} → Option A → Result A
found none = err not_found
found (some a) = ok a

unfoldable pub get_server : MemoryStore → Context → Bytes → Result Server
get_server m ctx id = check ctx >> found (lookup id m.servers)

-- By lower-case name, then by id.
unfoldable pub server_before : Server → Server → Bool
server_before a b =
    let left = to_lower a.name in
    let right = to_lower b.name in if left == right then less a.id b.id else less left right

unfoldable pub list_servers : MemoryStore → Context → Result (List Server)
list_servers m ctx = check ctx >> ok (sort_slice server_before (map (λ e. e.1) m.servers))

-- `for _, v := range items { next[v.Name] = v }`
unfoldable pub by_name : Map Tool → List Tool → Map Tool
by_name next [] = next
by_name next (v ∷ items) = by_name (insert v.name v next) items

unfoldable pub replace_tools : MemoryStore → Context → Bytes → List Tool → MemoryStore × Done
unfolding by_name
replace_tools m ctx id items =
    write ctx m (record m { tools = insert id (by_name [] items) m.tools })

-- `m.tools[id]`, an empty map where there is none.
abbrev pub group {ℓ} : {A : Type ℓ} → Bytes → Map (List A) → List A
group id m = elim (lookup id m) [ none ↦ [] | some g ↦ g ]

-- All groups of a map, one after the other.
unfoldable pub all_groups {ℓ} : {A : Type ℓ} → Map (List A) → List A
all_groups [] = []
all_groups ((id, g) ∷ m) = g ++ all_groups m

-- `if id != "" { the group of id } else { all groups }`
unfoldable pub select {ℓ} : {A : Type ℓ} → Bytes → Map (List A) → List A
unfolding all_groups
select [] m = all_groups m
select (c ∷ id) m = group (c ∷ id) m

unfoldable pub get_tool : MemoryStore → Context → Bytes → Bytes → Result Tool
get_tool m ctx id name = check ctx >> found (lookup name (group id m.tools))

abbrev exposed_before : Tool → Tool → Bool
exposed_before a b = less a.exposed_name b.exposed_name

unfoldable pub list_tools : MemoryStore → Context → Bytes → Result (List Tool)
unfolding select
list_tools m ctx id =
    check ctx >> ok (sort_slice exposed_before (map (λ e. e.1) (select id m.tools)))

unfoldable pub list_tools_page : MemoryStore → Context → Bytes → ℤ → ℤ → Rows Tool
list_tools_page m ctx id limit offset = do items ← list_tools m ctx id; page items limit offset

unfoldable pub summary : Tool → ToolSummary
summary v = record {
  server_id = v.server_id;
  name = v.name;
  exposed_name = v.exposed_name;
  title = v.title;
  description = v.description;
  schema_hash = v.schema_hash;
  updated_at = v.updated_at;
}

module _ (schema_keys : Raw → Option (List Bytes × List Bytes)) where
  -- `offset` is not raised to 0 here, as it is in `page`.
  unfoldable pub list_tool_summaries :
      MemoryStore → Context → Bytes → Bytes → ℤ → ℤ → Rows ToolSummary
  unfolding summary
  list_tool_summaries m ctx id q limit offset = do
    items ← list_tools m ctx id
    let query = to_lower (trim_space q)
    let filtered = keep (λ v. query == [] || contains (tool_search_text schema_keys v) query) items
    window (map summary filtered) (page_limit limit) offset

unfoldable pub replace_resources :
    MemoryStore → Context → Bytes → List Resource → MemoryStore × Done
replace_resources m ctx id v = write ctx m (record m { resources = insert id v m.resources })

unfoldable pub resource_before : Resource → Resource → Bool
resource_before a b = if a.uri == b.uri then less a.server_id b.server_id else less a.uri b.uri

unfoldable pub list_resources : MemoryStore → Context → Bytes → ℤ → ℤ → Rows Resource
unfolding select
list_resources m ctx id limit offset =
    check ctx >> page (sort_slice resource_before (select id m.resources)) limit offset

unfoldable pub replace_resource_templates :
    MemoryStore → Context → Bytes → List ResourceTemplate → MemoryStore × Done
replace_resource_templates m ctx id v =
    write ctx m (record m { templates = insert id v m.templates })

unfoldable pub template_before : ResourceTemplate → ResourceTemplate → Bool
template_before a b =
    if a.uri_template == b.uri_template
    then less a.server_id b.server_id
    else less a.uri_template b.uri_template

unfoldable pub list_resource_templates :
    MemoryStore → Context → Bytes → ℤ → ℤ → Rows ResourceTemplate
unfolding select
list_resource_templates m ctx id limit offset =
    check ctx >> page (sort_slice template_before (select id m.templates)) limit offset

unfoldable pub replace_prompts : MemoryStore → Context → Bytes → List Prompt → MemoryStore × Done
replace_prompts m ctx id v = write ctx m (record m { prompts = insert id v m.prompts })

-- By `ServerID + "__" + Name`.
unfoldable pub prompt_before : Prompt → Prompt → Bool
prompt_before a b = less (a.server_id ++ codes "__" ++ a.name) (b.server_id ++ codes "__" ++ b.name)

unfoldable pub list_prompts : MemoryStore → Context → Bytes → ℤ → ℤ → Rows Prompt
unfolding select
list_prompts m ctx id limit offset =
    check ctx >> page (sort_slice prompt_before (select id m.prompts)) limit offset

-- The store behind the interface.
module _ (schema_keys : Raw → Option (List Bytes × List Bytes)) where
  abbrev pub memory : Store MemoryStore
  memory = record {
    health = health;
    close = close;
    upsert_server = upsert_server;
    delete_server = delete_server;
    get_server = get_server;
    list_servers = list_servers;
    replace_tools = replace_tools;
    list_tool_summaries = list_tool_summaries schema_keys;
    get_tool = get_tool;
    list_tools = list_tools;
    list_tools_page = list_tools_page;
    replace_resources = replace_resources;
    list_resources = list_resources;
    replace_resource_templates = replace_resource_templates;
    list_resource_templates = list_resource_templates;
    replace_prompts = replace_prompts;
    list_prompts = list_prompts;
  }
