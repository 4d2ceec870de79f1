-- ===== src/Tests/Values.antt =====
-- The values that the tests share: two servers' tools, and a registry over a store in memory.
use lessen_mcp_gateway.Prelude.{Bytes, codes, none, List}
use lessen_mcp_gateway.Model.{Raw, Tool, no_tool}
use lessen_mcp_gateway.Storage.Interface.{Store}
use lessen_mcp_gateway.Storage.Memory.{MemoryStore, memory}
use lessen_mcp_gateway.Storage.Memory.Laws.{memory_laws}
use lessen_mcp_gateway.Storage.Interface.{ToolLaws}
use lessen_mcp_gateway.Prelude.{Option}

abbrev pub no_keys : Raw → Option (List Bytes × List Bytes)
no_keys raw = none

abbrev pub in_memory : Store MemoryStore
in_memory = memory no_keys

abbrev pub in_memory_laws : ToolLaws in_memory
in_memory_laws = memory_laws no_keys

abbrev pub read_file : Tool
read_file = record no_tool {
  server_id = codes "fs";
  name = codes "read";
  exposed_name = codes "fs__read";
  description = codes "Read a file.";
}

abbrev pub write_file : Tool
write_file = record no_tool {
  server_id = codes "fs";
  name = codes "write";
  exposed_name = codes "fs__write";
}
