-- ===== src/Config/Defaults.antt =====
-- `ApplyDefaults` of internal/config/config.go.
use lessen_mcp_gateway.Prelude.{
  Bool-cases, inl, inr, zero, suc, ◌≡◌, refl, Bytes, codes, ◌==◌, Bool, true, Option, none, some,
  [], ◌∷◌, Map, if◌then◌else◌,
}
use lessen_mcp_gateway.Prelude.Int.{ℤ, pos, negsuc}
use lessen_mcp_gateway.Config.{
  Duration, GatewayConfig, StorageConfig, MemoryConfig, LoggingConfig, DiscoveryConfig,
  ServerConfig, Config, default, default_lifecycle,
}

-- `if v == 0 { v = d }`
unfoldable pub or_int : ℤ → ℤ → ℤ
or_int (pos zero) d = d
or_int (pos (suc n)) d = pos (suc n)
or_int (negsuc n) d = negsuc n

-- `if v == "" { v = d }`
unfoldable pub or_text : Bytes → Bytes → Bytes
or_text [] d = d
or_text (c ∷ s) d = c ∷ s

-- `if server.Enabled == nil { v := true; server.Enabled = &v }`
unfoldable pub or_enabled : Option Bool → Option Bool
or_enabled none = some true
or_enabled (some b) = some b

unfoldable pub gateway_defaults : GatewayConfig → GatewayConfig
gateway_defaults g = record {
  host = or_text g.host default.gateway.host;
  port = or_int g.port default.gateway.port;
  admin_path = or_text g.admin_path default.gateway.admin_path;
  mcp_path = or_text g.mcp_path default.gateway.mcp_path;
  shutdown_timeout = or_int g.shutdown_timeout default.gateway.shutdown_timeout;
  read_header_timeout = or_int g.read_header_timeout default.gateway.read_header_timeout;
  request_timeout = or_int g.request_timeout default.gateway.request_timeout;
  max_request_bytes = or_int g.max_request_bytes default.gateway.max_request_bytes;
  max_response_bytes = or_int g.max_response_bytes default.gateway.max_response_bytes;
}

-- The path has a default for the type "sqlite" only, the type that the line before may have set.
unfoldable pub storage_defaults : StorageConfig → StorageConfig
storage_defaults s =
    let type = or_text s.type default.storage.type in
    record s {
      type = type;
      path = if type == codes "sqlite" then or_text s.path default.storage.path else s.path;
    }

unfoldable pub memory_defaults : MemoryConfig → MemoryConfig
memory_defaults m = record {
  soft_limit_mb = or_int m.soft_limit_mb default.memory.soft_limit_mb;
  schema_cache_mb = or_int m.schema_cache_mb default.memory.schema_cache_mb;
  log_buffer_mb = or_int m.log_buffer_mb default.memory.log_buffer_mb;
  max_concurrent = or_int m.max_concurrent default.memory.max_concurrent;
  max_concurrent_per_server =
      or_int m.max_concurrent_per_server default.memory.max_concurrent_per_server;
}

unfoldable pub logging_defaults : LoggingConfig → LoggingConfig
logging_defaults l = record l {
  level = or_text l.level default.logging.level;
  format = or_text l.format default.logging.format;
  max_file_mb = or_int l.max_file_mb default.logging.max_file_mb;
  keep_files = or_int l.keep_files default.logging.keep_files;
}

unfoldable pub discovery_defaults : DiscoveryConfig → DiscoveryConfig
discovery_defaults d = record d {
  interval = or_int d.interval default.discovery.interval;
  timeout = or_int d.timeout default.discovery.timeout;
  health_interval = or_int d.health_interval default.discovery.health_interval;
  health_timeout = or_int d.health_timeout default.discovery.health_timeout;
  max_concurrent = or_int d.max_concurrent default.discovery.max_concurrent;
  max_health_concurrent = or_int d.max_health_concurrent default.discovery.max_health_concurrent;
  max_tools_per_server = or_int d.max_tools_per_server default.discovery.max_tools_per_server;
  max_resources_per_server =
      or_int d.max_resources_per_server default.discovery.max_resources_per_server;
  max_prompts_per_server = or_int d.max_prompts_per_server default.discovery.max_prompts_per_server;
}

-- The body of the loop over the servers; a server's timeout is the gateway's by default.
unfoldable pub server_defaults : Duration → ServerConfig → ServerConfig
server_defaults request_timeout s = record s {
  enabled = or_enabled s.enabled;
  lifecycle = record {
    mode = or_text s.lifecycle.mode default_lifecycle.mode;
    idle_timeout = or_int s.lifecycle.idle_timeout default_lifecycle.idle_timeout;
    restart = or_text s.lifecycle.restart default_lifecycle.restart;
    max_restarts = or_int s.lifecycle.max_restarts default_lifecycle.max_restarts;
  };
  timeout = or_int s.timeout request_timeout;
}

unfoldable pub servers_defaults : Duration → Map ServerConfig → Map ServerConfig
servers_defaults request_timeout [] = []
servers_defaults request_timeout ((name, s) ∷ m) =
    (name, server_defaults request_timeout s) ∷ servers_defaults request_timeout m

unfoldable pub apply_defaults : Config → Config
apply_defaults c = record {
  gateway = gateway_defaults c.gateway;
  storage = storage_defaults c.storage;
  memory = memory_defaults c.memory;
  logging = logging_defaults c.logging;
  discovery = discovery_defaults c.discovery;
  mcp_servers = servers_defaults (gateway_defaults c.gateway).request_timeout c.mcp_servers;
}

or_int_idem : (v d : ℤ) → or_int (or_int v d) d ≡ or_int v d
unfolding or_int
or_int_idem (pos zero) (pos zero) = refl
or_int_idem (pos zero) (pos (suc n)) = refl
or_int_idem (pos zero) (negsuc n) = refl
or_int_idem (pos (suc n)) d = refl
or_int_idem (negsuc n) d = refl

or_text_idem : (v d : Bytes) → or_text (or_text v d) d ≡ or_text v d
unfolding or_text
or_text_idem [] [] = refl
or_text_idem [] (c ∷ s) = refl
or_text_idem (c ∷ s) d = refl

or_enabled_idem : (e : Option Bool) → or_enabled (or_enabled e) ≡ or_enabled e
unfolding or_enabled
or_enabled_idem none = refl
or_enabled_idem (some b) = refl

ruleset idem = (or_int_idem, or_text_idem, or_enabled_idem)

gateway_defaults_idem :
    (g : GatewayConfig) → gateway_defaults (gateway_defaults g) ≡ gateway_defaults g
unfolding gateway_defaults
gateway_defaults_idem g = simp idem

memory_defaults_idem : (m : MemoryConfig) → memory_defaults (memory_defaults m) ≡ memory_defaults m
unfolding memory_defaults
memory_defaults_idem m = simp idem

logging_defaults_idem :
    (l : LoggingConfig) → logging_defaults (logging_defaults l) ≡ logging_defaults l
unfolding logging_defaults
logging_defaults_idem l = simp idem

discovery_defaults_idem :
    (d : DiscoveryConfig) → discovery_defaults (discovery_defaults d) ≡ discovery_defaults d
unfolding discovery_defaults
discovery_defaults_idem d = simp idem

storage_defaults_idem :
    (s : StorageConfig) → storage_defaults (storage_defaults s) ≡ storage_defaults s
unfolding storage_defaults
storage_defaults_idem s =
    simp idem (elim (Bool-cases (or_text s.type default.storage.type == codes "sqlite")) [
      | inl e ↦ simp (e, or_text_idem)
      | inr e ↦ simp e
    ])

server_defaults_idem :
    (t : Duration) (s : ServerConfig)
    → server_defaults t (server_defaults t s) ≡ server_defaults t s
unfolding server_defaults
server_defaults_idem t s = simp idem

servers_defaults_idem :
    (t : Duration) (m : Map ServerConfig)
    → servers_defaults t (servers_defaults t m) ≡ servers_defaults t m
unfolding servers_defaults
servers_defaults_idem t [] = refl
servers_defaults_idem t ((name, s) ∷ m) = cc (server_defaults_idem t s, servers_defaults_idem t m)

-- Applying the defaults twice is applying them once: a configuration that has been completed, saved
-- and loaded again does not change, and the second completion in `ApplyConfig` is harmless.
pub apply_defaults_idem : (c : Config) → apply_defaults (apply_defaults c) ≡ apply_defaults c
unfolding apply_defaults
apply_defaults_idem c = simp (
  gateway_defaults_idem, storage_defaults_idem, memory_defaults_idem, logging_defaults_idem,
  discovery_defaults_idem, servers_defaults_idem,
)
