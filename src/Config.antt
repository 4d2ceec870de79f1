-- ===== src/Config.antt =====
-- internal/config/config.go: the configuration's types. An `int`, an `int64` and a duration (in
-- nanoseconds) are integers; a `*bool` is an option.
pub mod Defaults
pub mod Validate
pub mod Redact
use lessen_mcp_gateway.Prelude.{
  ◌*◌, ℕ, zero, suc, Bytes, codes, Bool, true, false, Option, none, some, List, [], Map,
}
use lessen_mcp_gateway.Prelude.Int.{ℤ, pos, negsuc}

-- `time.Duration`
abbrev pub Duration : Type 0
Duration = ℤ

-- n seconds.
abbrev pub seconds : ℕ → Duration
seconds n = pos (n * 1000000000)

pub record Secret : Type 0 where
  pub value : Bytes
  pub env : Bytes

pub record GatewayConfig : Type 0 where
  pub host : Bytes
  pub port : ℤ
  pub admin_path : Bytes
  pub mcp_path : Bytes
  pub shutdown_timeout : Duration
  pub read_header_timeout : Duration
  pub request_timeout : Duration
  pub max_request_bytes : ℤ
  pub max_response_bytes : ℤ

pub record StorageConfig : Type 0 where
  pub type : Bytes
  pub path : Bytes
  pub dsn : Secret

pub record MemoryConfig : Type 0 where
  pub soft_limit_mb : ℤ
  pub schema_cache_mb : ℤ
  pub log_buffer_mb : ℤ
  pub max_concurrent : ℤ
  pub max_concurrent_per_server : ℤ

pub record LoggingConfig : Type 0 where
  pub level : Bytes
  pub format : Bytes
  pub file : Bytes
  pub max_file_mb : ℤ
  pub keep_files : ℤ

pub record DiscoveryConfig : Type 0 where
  pub on_startup : Bool
  pub interval : Duration
  pub timeout : Duration
  pub health_interval : Duration
  pub health_timeout : Duration
  pub max_concurrent : ℤ
  pub max_health_concurrent : ℤ
  pub max_tools_per_server : ℤ
  pub max_resources_per_server : ℤ
  pub max_prompts_per_server : ℤ

pub record LifecycleConfig : Type 0 where
  pub mode : Bytes
  pub idle_timeout : Duration
  pub restart : Bytes
  pub max_restarts : ℤ

pub record ServerConfig : Type 0 where
  pub type : Bytes
  pub enabled : Option Bool
  pub command : Bytes
  pub args : List Bytes
  pub env : Map Secret
  pub working_dir : Bytes
  pub url : Bytes
  pub headers : Map Secret
  pub lifecycle : LifecycleConfig
  pub timeout : Duration
  pub tags : List Bytes

pub record Config : Type 0 where
  pub gateway : GatewayConfig
  pub storage : StorageConfig
  pub memory : MemoryConfig
  pub logging : LoggingConfig
  pub discovery : DiscoveryConfig
  pub mcp_servers : Map ServerConfig

abbrev pub default_lifecycle : LifecycleConfig
default_lifecycle = record {
  mode = codes "lazy";
  idle_timeout = seconds 300;
  restart = codes "on-failure";
  max_restarts = pos 5;
}

-- `Default`
abbrev pub default : Config
default = record {
  gateway = record {
    host = codes "127.0.0.1";
    port = pos 4444;
    admin_path = codes "/admin";
    mcp_path = codes "/mcp";
    shutdown_timeout = seconds 10;
    read_header_timeout = seconds 5;
    request_timeout = seconds 60;
    max_request_bytes = pos 8388608;
    max_response_bytes = pos 33554432;
  };
  storage = record {
    type = codes "sqlite";
    path = codes "./data/gateway.db";
    dsn = record { value = []; env = [] };
  };
  memory = record {
    soft_limit_mb = pos 128;
    schema_cache_mb = pos 16;
    log_buffer_mb = pos 2;
    max_concurrent = pos 128;
    max_concurrent_per_server = pos 16;
  };
  logging = record {
    level = codes "info";
    format = codes "json";
    file = [];
    max_file_mb = pos 16;
    keep_files = pos 3;
  };
  discovery = record {
    on_startup = true;
    interval = seconds 900;
    timeout = seconds 20;
    health_interval = seconds 30;
    health_timeout = seconds 5;
    max_concurrent = pos 4;
    max_health_concurrent = pos 8;
    max_tools_per_server = pos 10000;
    max_resources_per_server = pos 10000;
    max_prompts_per_server = pos 2000;
  };
  mcp_servers = [];
}
