-- ===== src/App/Client.antt =====
-- The backend of internal/app/manager.go, and the client of internal/transport/client.go that it
-- holds. A client talks to a server that the gateway does not implement, so it is a parameter: a
-- state, and what each call does to it and returns.
use lessen_mcp_gateway.Prelude.{ℕ, Bytes, Bool, false, Option, none, []}
use lessen_mcp_gateway.Errors.{Context, Result}
use lessen_mcp_gateway.Model.{Raw, Time}
use lessen_mcp_gateway.Config.{ServerConfig}
use lessen_mcp_gateway.Mcp.Protocol.{InitializeResult, DiscoverResult}

-- `initialize` names the protocol that it offers; a client that has `SetProtocolVersion` is told
-- the version before each call. What JSON texts decode to is part of the parameter.
pub record Client (C : Type 0) : Type 0 where
  -- `newClient`
  pub make : Bytes → ServerConfig → Result C
  pub set_protocol_version : Bytes → C → C
  pub discover : Context → C → C × Result Raw
  pub initialize : Context → Bytes → C → C × Result Raw
  pub notify_initialized : Context → C → C × Result (Unit {0})
  pub session_generation : C → ℕ
  pub decode_discover : Raw → Result DiscoverResult
  pub decode_initialize : Raw → Result InitializeResult

-- `backend`. Its locks, its logger and its semaphore are left out.
pub record Backend (C : Type 0) : Type 0 where
  pub id : Bytes
  pub cfg : ServerConfig
  pub client : Option C
  pub initialized : Bool
  pub initialized_generation : ℕ
  pub modern : Bool
  pub protocol_version : Bytes
  pub capabilities : Raw
  pub server_name : Bytes
  pub server_version : Bytes
  pub connected_since : Time

unfoldable pub new_backend : {C : Type 0} → Bytes → ServerConfig → Backend C
new_backend id cfg = record {
  id = id;
  cfg = cfg;
  client = none;
  initialized = false;
  initialized_generation = 0;
  modern = false;
  protocol_version = [];
  capabilities = [];
  server_name = [];
  server_version = [];
  connected_since = 0;
}

-- `close`: the client goes, and what was negotiated with it.
unfoldable pub close : {C : Type 0} → Backend C → Backend C
close b = record b {
  client = none;
  initialized = false;
  modern = false;
  protocol_version = [];
  capabilities = [];
  server_name = [];
  server_version = [];
}
