-- ===== src/Storage/Memory/Laws.antt =====
-- The laws of the store interface, proved of the store in memory, and what its listings hold.
use lessen_mcp_gateway.Prelude.{
  Bytes, ◌==◌, ◌≡◌, refl, Option, none, some, List, [], ◌∷◌, if◌then◌else◌, Map, lookup, insert,
  lookup-insert, lookup-delete, arith,
}
use lessen_mcp_gateway.Errors.{Error, Context, ok, err, not_found}
use lessen_mcp_gateway.Model.{Raw, Server, Tool}
use lessen_mcp_gateway.Storage.Interface.{last_named, ToolLaws}
use lessen_mcp_gateway.Storage.Memory.{
  MemoryStore, memory, group, by_name, replace_tools, delete_server, upsert_server, get_tool,
  get_server,
}

unfoldable pub tool_at : MemoryStore → Bytes → Bytes → Option Tool
tool_at m id name = lookup name (group id m.tools)

-- The map by name holds the last tool of each name.
lookup-by_name :
    (n : Bytes) (items : List Tool) (next : Map Tool)
    → lookup n (by_name next items)
      ≡ elim (last_named n items) [ some u ↦ some u | none ↦ lookup n next ]
unfolding by_name
lookup-by_name n [] next = refl
lookup-by_name n (v ∷ items) next =
    ground (arith, lookup-by_name n items (insert v.name v next), lookup-insert v.name n v next)

pub get_tool_found :
    (m : MemoryStore) (id name : Bytes) (t : Tool)
    → tool_at m id name ≡ some t
    → get_tool m none id name ≡ ok t
unfolding tool_at get_tool
get_tool_found m id name t h = ground arith

pub get_tool_missing :
    (m : MemoryStore) (id name : Bytes)
    → tool_at m id name ≡ none
    → get_tool m none id name ≡ err not_found
unfolding tool_at get_tool
get_tool_missing m id name h = ground arith

pub get_tool_ok :
    (m : MemoryStore) (ctx : Context) (id name : Bytes) (t : Tool)
    → get_tool m ctx id name ≡ ok t
    → tool_at m id name ≡ some t
unfolding tool_at get_tool
get_tool_ok m ctx id name t h = ground arith

-- A replacement that succeeds holds the last tool of each name for the server, and for every other
-- server what was held before.
pub tool_at-replace_tools :
    (m : MemoryStore) (ctx : Context) (id : Bytes) (tools : List Tool) (i n : Bytes)
    → (replace_tools m ctx id tools).1 ≡ ok tt
    → tool_at (replace_tools m ctx id tools).0 i n
      ≡ (if id == i then last_named n tools else tool_at m i n)
unfolding tool_at replace_tools lookup
tool_at-replace_tools m none id tools i n h =
    ground (arith, lookup-insert id i (by_name [] tools) m.tools, lookup-by_name n tools [])
tool_at-replace_tools m (some e) id tools i n h = cc

pub tool_at-delete_server :
    (m : MemoryStore) (ctx : Context) (id i n : Bytes)
    → (delete_server m ctx id).1 ≡ ok tt
    → tool_at (delete_server m ctx id).0 i n ≡ (if id == i then none else tool_at m i n)
unfolding tool_at delete_server lookup
tool_at-delete_server m none id i n h = ground (arith, lookup-delete id i m.tools)
tool_at-delete_server m (some e) id i n h = cc

pub tool_at-upsert_server :
    (m : MemoryStore) (ctx : Context) (s : Server) (i n : Bytes)
    → tool_at (upsert_server m ctx s).0 i n ≡ tool_at m i n
unfolding tool_at upsert_server
tool_at-upsert_server m none s i n = refl
tool_at-upsert_server m (some e) s i n = refl

pub replace_tools_failed :
    (m : MemoryStore) (ctx : Context) (id : Bytes) (tools : List Tool) {e : Error} (i n : Bytes)
    → (replace_tools m ctx id tools).1 ≡ err e
    → tool_at (replace_tools m ctx id tools).0 i n ≡ tool_at m i n
unfolding replace_tools
replace_tools_failed m none id tools i n h = cc
replace_tools_failed m (some e) id tools i n h = refl

pub delete_server_failed :
    (m : MemoryStore) (ctx : Context) (id : Bytes) {e : Error} (i n : Bytes)
    → (delete_server m ctx id).1 ≡ err e
    → tool_at (delete_server m ctx id).0 i n ≡ tool_at m i n
unfolding delete_server
delete_server_failed m none id i n h = cc
delete_server_failed m (some e) id i n h = refl

module _ (schema_keys : Raw → Option (List Bytes × List Bytes)) where
  abbrev pub memory_laws : ToolLaws (memory schema_keys)
  memory_laws = record {
    tool_at = tool_at;
    get_tool_found = get_tool_found;
    get_tool_missing = get_tool_missing;
    get_tool_ok = get_tool_ok;
    replace_tools_done = tool_at-replace_tools;
    delete_server_done = tool_at-delete_server;
    upsert_server_tools = tool_at-upsert_server;
    replace_tools_failed = replace_tools_failed;
    delete_server_failed = delete_server_failed;
  }

-- Under a live context, a server that was written is read back, and every other is as before.
pub get_server-upsert_server :
    (m : MemoryStore) (s : Server) (id : Bytes)
    → get_server (upsert_server m none s).0 none id
      ≡ (if s.id == id then ok s else get_server m none id)
unfolding get_server upsert_server
get_server-upsert_server m s id = ground (arith, lookup-insert s.id id s m.servers)

-- A deleted server is not found, and every other server is as before.
pub get_server-delete_server :
    (m : MemoryStore) (id j : Bytes)
    → get_server (delete_server m none id).0 none j
      ≡ (if id == j then err not_found else get_server m none j)
unfolding get_server delete_server
get_server-delete_server m id j = ground (arith, lookup-delete id j m.servers)
