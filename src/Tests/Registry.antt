-- ===== src/Tests/Registry.antt =====
-- The registry and its cache at concrete tools.
use lessen_mcp_gateway.Prelude.{
  ◌≡◌, ◌↔◌, ◌⊎◌, refl, Bytes, codes, none, some, List, [], ◌∷◌, lookup, arith,
}
use lessen_mcp_gateway.Errors.{ok, err, not_found}
use lessen_mcp_gateway.Model.{Tool, no_tool}
use lessen_mcp_gateway.Storage.Memory.{MemoryStore, new_memory}
use lessen_mcp_gateway.Storage.Memory
use lessen_mcp_gateway.Registry
use lessen_mcp_gateway.Registry.{
  ToolRef, get_tool, replace_tools, delete_server, resolve_tool, list_tools,
}
use lessen_mcp_gateway.Registry.Cache
use lessen_mcp_gateway.Registry.Cache.{ToolCache, put, delete_prefix, estimate_tool_bytes}
use lessen_mcp_gateway.Registry.Cache.Linked.{IsValid, new-IsValid, put-IsValid}
use lessen_mcp_gateway.Registry.Cache.Lru.{Call, run, ideal, view, run-ideal}
use lessen_mcp_gateway.Registry.Cache.Reads.{contents}
use lessen_mcp_gateway.Registry.Coherent.{
  Coherent, get_tool-store, get_tool-Coherent, replace_tools-Coherent,
}
use lessen_mcp_gateway.Registry.Names.{
  exposed_tool_name, parse_exposed_tool_name, Plain, parse_exposed_tool_name-exposed_tool_name,
}
use lessen_mcp_gateway.Registry.Routing.{
  IsRouted, replace_tools-IsRouted, resolve_tool_lem, replace_tools_collision,
}
use lessen_mcp_gateway.Tests.Values.{in_memory, in_memory_laws, read_file, write_file}

abbrev fs : Bytes
fs = codes "fs"

abbrev empty_cache : ToolCache
empty_cache = Cache.new 1000

abbrev read_key : Bytes
read_key = codes "fs/read"

abbrev cached : ToolCache
cached = put empty_cache read_key read_file

cached-IsValid : IsValid cached
cached-IsValid = put-IsValid empty_cache read_key read_file (new-IsValid 1000)

abbrev calls : List Call
calls =
    Call.put read_key read_file
    ∷ Call.put (codes "fs/write") write_file
    ∷ Call.get read_key
    ∷ Call.limit 5
    ∷ Call.get (codes "fs/write")
    ∷ []

run-ideal_example :
    ((run cached calls).0 ≡ (ideal (view cached) calls).0)
    × (view (run cached calls).1 ≡ (ideal (view cached) calls).1)
run-ideal_example = run-ideal calls cached cached-IsValid

-- A registry with nothing stored, and then with two tools of one server.
abbrev pub fresh : Registry.Registry MemoryStore
fresh = record { stored = new_memory; cache = empty_cache; tool_index = [] }

abbrev stocked : Registry.Registry MemoryStore
stocked = (replace_tools in_memory fresh none fs (read_file ∷ write_file ∷ [])).0

pub fresh-Coherent : Coherent in_memory in_memory_laws fresh
unfolding contents Cache.new Cache.find
fresh-Coherent = record { valid = new-IsValid 1000; agrees = λ i n t slash h. cc }

stocked-Coherent : Coherent in_memory in_memory_laws stocked
stocked-Coherent =
    replace_tools-Coherent in_memory in_memory_laws fresh none fs (read_file ∷ write_file ∷ [])
      fresh-Coherent refl

stocked-IsRouted : IsRouted in_memory in_memory_laws stocked
unfolding exposed_tool_name
stocked-IsRouted =
    replace_tools-IsRouted in_memory in_memory_laws fresh none fs (read_file ∷ write_file ∷ []) refl
      ((refl, refl), ((refl, refl), tt)) tt

get_tool-store_example :
    (get_tool in_memory stocked none fs (codes "read")).1
    ≡ in_memory.get_tool stocked.stored none fs (codes "read")
get_tool-store_example =
    get_tool-store in_memory in_memory_laws stocked fs (codes "read") stocked-Coherent refl

get_tool-Coherent_example :
    Coherent in_memory in_memory_laws (get_tool in_memory stocked none fs (codes "read")).0
get_tool-Coherent_example =
    get_tool-Coherent in_memory in_memory_laws stocked none fs (codes "read") stocked-Coherent refl

-- Also with a tool in the cache.
abbrev used : Registry.Registry MemoryStore
used = (get_tool in_memory stocked none fs (codes "read")).0

used-Coherent : Coherent in_memory in_memory_laws used
used-Coherent =
    get_tool-Coherent in_memory in_memory_laws stocked none fs (codes "read") stocked-Coherent refl

replace_tools-Coherent_example :
    Coherent in_memory in_memory_laws (replace_tools in_memory used none fs (write_file ∷ [])).0
replace_tools-Coherent_example =
    replace_tools-Coherent in_memory in_memory_laws used none fs (write_file ∷ []) used-Coherent
      refl

replace_tools-IsRouted_example :
    IsRouted in_memory in_memory_laws (replace_tools in_memory stocked none fs (write_file ∷ [])).0
unfolding exposed_tool_name
replace_tools-IsRouted_example =
    replace_tools-IsRouted in_memory in_memory_laws stocked none fs (write_file ∷ []) refl
      ((refl, refl), tt) stocked-IsRouted

resolve_tool_lem_example :
    ((lookup (codes "fs__read") stocked.tool_index ≡ none)
      × ((resolve_tool in_memory stocked none (codes "fs__read")).1 ≡ err not_found))
    ⊎ ((t : Tool) × ((resolve_tool in_memory stocked none (codes "fs__read")).1 ≡ ok t)
        × (t.exposed_name ≡ codes "fs__read"))
resolve_tool_lem_example =
    resolve_tool_lem in_memory in_memory_laws stocked (codes "fs__read") stocked-Coherent
      stocked-IsRouted

parse_exposed_tool_name-exposed_tool_name_example :
    (parse_exposed_tool_name (exposed_tool_name fs (codes "a__b")) ≡ ok (fs, codes "a__b"))
    ↔ Plain fs
parse_exposed_tool_name-exposed_tool_name_example =
    parse_exposed_tool_name-exposed_tool_name fs (codes "a__b") (ground arith) (ground arith)

-- Server "a" with the tool "b__c", and server "a__b" with the tool "c".
abbrev of_a : Tool
of_a = record no_tool { server_id = codes "a"; name = codes "b__c"; exposed_name = codes "a__b__c" }

abbrev of_a__b : Tool
of_a__b = record no_tool {
  server_id = codes "a__b";
  name = codes "c";
  exposed_name = codes "a__b__c";
}

replace_tools_collision_example :
    lookup
      (codes "a__b__c")
      (replace_tools in_memory
        (replace_tools in_memory fresh none (codes "a") (of_a ∷ [])).0
        none
        (codes "a__b")
        (of_a__b ∷ [])).0.tool_index
    ≡ some (record { server_id = codes "a__b"; name = codes "c" })
unfolding exposed_tool_name Memory.replace_tools
replace_tools_collision_example =
    replace_tools_collision in_memory in_memory_laws fresh none (codes "a") (codes "b") (codes "c")
      of_a of_a__b (refl, refl) refl (refl, refl) refl refl
