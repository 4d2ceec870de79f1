-- ===== src/Tests/Sessions.antt =====
-- Sessions with servers of the current and of an older revision, and a discovery of two pages.
use lessen_mcp_gateway.Prelude.{
  List, ℕ, ◌+◌, ◌≡◌, refl, Bytes, codes, ◌==◌, true, none, some, [], ◌∷◌, map, arith,
}
use lessen_mcp_gateway.Prelude.Int.{pos}
use lessen_mcp_gateway.Errors.{Result, ok, err, message}
use lessen_mcp_gateway.Config.{ServerConfig, default_lifecycle}
use lessen_mcp_gateway.Mcp.Protocol.{ClientInfo, protocol_older, supports_legacy_protocol}
use lessen_mcp_gateway.App.Client.{Client, Backend, new_backend, close}
use lessen_mcp_gateway.App.Handshake.{ensure_initialized}
use lessen_mcp_gateway.App.Handshake.Outcome.{
  Outcome, IsSound, ensure_initialized-Outcome, close-IsSound,
}
use lessen_mcp_gateway.App.Pages.{Page, ToolDefinition, tool_of, discover_tools}
use lessen_mcp_gateway.Model.{Tool}
use lessen_mcp_gateway.App.Pages.Complete.{within, Serves, listed, discover_tools_lem}

abbrev nobody : ClientInfo
nobody = record { name = []; version = [] }

-- A client whose state counts its calls, to a server that has no `server/discover` and selects the
-- revision of June 2025 whatever it is offered.
abbrev pub older : Client ℕ
older = record {
  make = λ id cfg. ok 0;
  set_protocol_version = λ v c. c;
  discover = λ ctx c. (c + 1, err (message (codes "method not found")));
  initialize = λ ctx protocol c. (c + 1, ok (codes "{}"));
  notify_initialized = λ ctx c. (c + 1, ok tt);
  session_generation = λ c. 0;
  decode_discover = λ raw. err (message (codes "not json"));
  decode_initialize = λ raw. ok (record {
    protocol_version = protocol_older;
    capabilities = codes "{}";
    server_info = nobody;
    instructions = [];
  });
}

abbrev pub files_config : ServerConfig
files_config = record {
  type = codes "stdio";
  enabled = none;
  command = codes "mcp-fs";
  args = [];
  env = [];
  working_dir = [];
  url = [];
  headers = [];
  lifecycle = default_lifecycle;
  timeout = pos 0;
  tags = [];
}

abbrev idle : Backend ℕ
idle = close (new_backend (codes "fs") files_config)

idle-IsSound : IsSound idle
idle-IsSound = close-IsSound (new_backend (codes "fs") files_config)

-- The handshake with this server ends in its revision, after three calls.
idle_session : (ensure_initialized older none none 7 idle).0 ≡ record idle {
  client = some 3;
  initialized = true;
  protocol_version = protocol_older;
  capabilities = codes "{}";
  server_name = codes "fs";
  connected_since = 7;
}
unfolding ensure_initialized close new_backend supports_legacy_protocol ◌==◌
idle_session = refl

ensure_initialized-Outcome_example : Outcome idle (ensure_initialized older none none 7 idle)
ensure_initialized-Outcome_example = ensure_initialized-Outcome older none none 7 idle idle-IsSound

abbrev pub busy : Backend ℕ
busy = record (new_backend (codes "fs") files_config) {
  client = some 3;
  initialized = true;
  protocol_version = protocol_older;
}

abbrev definition : Bytes → ToolDefinition
definition name = record {
  name = name;
  title = [];
  description = [];
  input_schema = [];
  output_schema = [];
  annotations = [];
}

abbrev pub first_page : Page ToolDefinition
first_page = record { items = definition (codes "read") ∷ []; next_cursor = codes "2" }

abbrev pub second_page : Page ToolDefinition
second_page = record { items = definition (codes "write") ∷ []; next_cursor = [] }

abbrev pub pages : Bytes → Result (Page ToolDefinition)
pages [] = ok first_page
pages (c ∷ cursor) = ok second_page

abbrev pub no_hash : Bytes → Bytes
no_hash text = []

discover_tools_lem_example :
    discover_tools (codes "fs") 7 5 10 no_hash pages
    ≡ some (within 10 (map (tool_of (codes "fs") 7 no_hash) (listed first_page (second_page ∷ []))))
unfolding Serves
discover_tools_lem_example =
    discover_tools_lem (codes "fs") 7 5 10 no_hash pages first_page (second_page ∷ [])
      (refl, ground arith, (refl, refl)) (omega arith)

-- The tools of the two pages.
abbrev found : List Tool
found =
    tool_of (codes "fs") 7 no_hash (definition (codes "read"))
    ∷ tool_of (codes "fs") 7 no_hash (definition (codes "write"))
    ∷ []
