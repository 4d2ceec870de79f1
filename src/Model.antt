-- ===== src/Model.antt =====
-- internal/model/model.go: the values that the packages exchange. A `time.Time` is the number of
-- its instant, 0 for the zero time; a `json.RawMessage` is its bytes.
use lessen_mcp_gateway.Prelude.{ℕ, Bytes, codes}

-- `time.Time`
abbrev pub Time : Type 0
Time = ℕ

-- `json.RawMessage`
abbrev pub Raw : Type 0
Raw = Bytes

-- `TransportType`; `unknown` holds any other text that a configuration gives.
pub data TransportType : Type 0 where
  stdio streamable_http sse : TransportType
  unknown : Bytes → TransportType

-- `HealthStatus`; `unset` is the empty string of a fresh record.
pub data HealthStatus : Type 0 where
  unset starting healthy degraded unhealthy sleeping disabled : HealthStatus

pub record Server : Type 0 where
  pub id : Bytes
  pub name : Bytes
  pub transport : TransportType
  pub status : HealthStatus
  pub status_message : Bytes
  pub endpoint : Bytes
  pub protocol_version : Bytes
  pub server_version : Bytes
  pub capabilities : Raw
  pub tool_count : ℕ
  pub resource_count : ℕ
  pub resource_template_count : ℕ
  pub prompt_count : ℕ
  pub last_health_check : Time
  pub last_discovered_at : Time
  pub connected_since : Time
  pub config_hash : Bytes

pub record Tool : Type 0 where
  pub server_id : Bytes
  pub name : Bytes
  pub exposed_name : Bytes
  pub title : Bytes
  pub description : Bytes
  pub input_schema : Raw
  pub output_schema : Raw
  pub annotations : Raw
  pub schema_hash : Bytes
  pub updated_at : Time

pub record ToolSummary : Type 0 where
  pub server_id : Bytes
  pub name : Bytes
  pub exposed_name : Bytes
  pub title : Bytes
  pub description : Bytes
  pub schema_hash : Bytes
  pub updated_at : Time

pub record Resource : Type 0 where
  pub server_id : Bytes
  pub uri : Bytes
  pub name : Bytes
  pub title : Bytes
  pub description : Bytes
  pub mime_type : Bytes
  pub annotations : Raw
  pub payload : Raw
  pub updated_at : Time

pub record ResourceTemplate : Type 0 where
  pub server_id : Bytes
  pub uri_template : Bytes
  pub name : Bytes
  pub title : Bytes
  pub description : Bytes
  pub mime_type : Bytes
  pub annotations : Raw
  pub payload : Raw
  pub updated_at : Time

pub record Prompt : Type 0 where
  pub server_id : Bytes
  pub name : Bytes
  pub title : Bytes
  pub description : Bytes
  pub arguments : Raw
  pub payload : Raw
  pub updated_at : Time

-- The zero `Tool`.
abbrev pub no_tool : Tool
no_tool = record {
  server_id = codes "";
  name = codes "";
  exposed_name = codes "";
  title = codes "";
  description = codes "";
  input_schema = codes "";
  output_schema = codes "";
  annotations = codes "";
  schema_hash = codes "";
  updated_at = 0;
}
