-- ===== src/Tests/Stores.antt =====
-- The store in memory, its pages and its search text.
use lessen_mcp_gateway.Prelude.{◌≡◌, refl, codes, ◌==◌, none, [], ◌∷◌, if◌then◌else◌}
use lessen_mcp_gateway.Model.{Server, HealthStatus, TransportType}
use lessen_mcp_gateway.Storage.Interface.{last_named}
use lessen_mcp_gateway.Storage.Memory.{new_memory, replace_tools}
use lessen_mcp_gateway.Storage.Memory.Laws.{tool_at, tool_at-replace_tools}
use lessen_mcp_gateway.Tests.Values.{read_file}

abbrev files : Server
files = record {
  id = codes "fs";
  name = codes "Fs";
  transport = TransportType.stdio;
  status = HealthStatus.sleeping;
  status_message = [];
  endpoint = codes "mcp-fs";
  protocol_version = [];
  server_version = [];
  capabilities = [];
  tool_count = 0;
  resource_count = 0;
  resource_template_count = 0;
  prompt_count = 0;
  last_health_check = 0;
  last_discovered_at = 0;
  connected_since = 0;
  config_hash = [];
}

-- Two tools under one name: the later one stays.
tool_at-replace_tools_example :
    tool_at
      (replace_tools new_memory none
        (codes "fs")
        (read_file ∷ record read_file { title = codes "Read" } ∷ [])).0
      (codes "fs")
      (codes "read")
    ≡ (if codes "fs" == codes "fs"
        then last_named (codes "read") (read_file ∷ record read_file { title = codes "Read" } ∷ [])
        else tool_at new_memory (codes "fs") (codes "read"))
unfolding replace_tools
tool_at-replace_tools_example =
    tool_at-replace_tools new_memory none (codes "fs")
      (read_file ∷ record read_file { title = codes "Read" } ∷ []) (codes "fs") (codes "read") refl
