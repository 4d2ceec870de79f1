-- ===== src/Config/Validate.antt =====
-- `Validate` and `ValidateServerName` of internal/config/config.go, and what a valid configuration
-- is.
pub mod Steps
pub mod Accepts
pub mod Names
use lessen_mcp_gateway.Prelude.{
  ℕ, zero, suc, ◌+◌, ◌≤◌, ◌≡◌, ◌≢◌, ◌↔◌, ◌⊎◌, inl, inr, refl, ap, Bytes, codes, ◌==◌, eq_iff, Bool,
  true, false, ◌&&◌, ◌||◌, not, Option, none, some, List, [], ◌∷◌, ◌++◌, map, Map, if◌then◌else◌,
  arith, All, Bool-cases, has_prefix, leb, ltb, nat_eq, all,
}
use lessen_mcp_gateway.Prelude.Int.{ℤ, pos, negsuc, above, not_positive}
use lessen_mcp_gateway.Errors.{Result, ok, err, message, ◌>>=◌, ◌>>◌}
use lessen_mcp_gateway.Config.{
  GatewayConfig, MemoryConfig, DiscoveryConfig, ServerConfig, Config, default,
}

abbrev pub Done : Type 0
Done = Result (Unit {0})

-- `if fails { return errors.New(text) }`
unfoldable pub refuse : Bool → Bytes → Done
refuse true text = err (message text)
refuse false text = ok tt

-- `v < n`, for a number n.
abbrev pub below : ℤ → ℕ → Bool
below (pos v) n = ltb v n
below (negsuc v) n = true

-- `r >= 'a' && r <= 'z' || r >= '0' && r <= '9' || r == '-' || r == '_'`. A rune outside ASCII
-- fails, as do the bytes that encode it.
abbrev pub name_char : ℕ → Bool
name_char r = leb b'a' r && leb r b'z' || leb b'0' r && leb r b'9' || nat_eq r b'-' || nat_eq r b'_'

unfoldable pub validate_server_name : Bytes → Done
unfolding refuse
validate_server_name [] = err (message (codes "server name cannot be empty"))
validate_server_name (c ∷ name) =
    refuse (not (all name_char (c ∷ name)))
      (codes "server name must contain only lowercase letters")

abbrev pub is_url_type : Bytes → Bool
is_url_type t = t == codes "streamable-http" || t == codes "sse"

-- `switch server.Type`
unfoldable pub validate_type : ServerConfig → Done
unfolding refuse
validate_type s =
    if s.type == codes "stdio"
    then refuse (s.command == []) (codes "command is required")
    else if is_url_type s.type
    then refuse (s.url == []) (codes "url is required")
    else err (message (codes "type is unsupported"))

unfoldable pub validate_server : Bytes → ServerConfig → Done
unfolding validate_server_name validate_type
validate_server name s = do
  validate_server_name name
  validate_type s
  refuse (not (s.lifecycle.mode == codes "lazy") && not (s.lifecycle.mode == codes "persistent"))
      (codes "lifecycle.mode must be lazy or persistent")

-- The loop over the servers stops at the first error.
unfoldable pub validate_servers : Map ServerConfig → Done
unfolding validate_server
validate_servers [] = ok tt
validate_servers ((name, s) ∷ m) = validate_server name s >> validate_servers m

unfoldable pub validate_gateway : GatewayConfig → Done
unfolding refuse
validate_gateway g = do
  refuse (below g.port 1 || above g.port 65535) (codes "gateway.port must be between 1 and 65535")
  refuse (not (has_prefix g.admin_path (codes "/")) || not (has_prefix g.mcp_path (codes "/")))
      (codes "gateway paths must begin with /")
  refuse (g.admin_path == g.mcp_path) (codes "gateway.adminPath and gateway.mcpPath must differ")

unfoldable pub validate_memory : MemoryConfig → Done
unfolding refuse
validate_memory m = do
  refuse (below m.soft_limit_mb 32) (codes "memory.softLimitMB must be at least 32")
  refuse (below m.schema_cache_mb 1 || below m.log_buffer_mb 1)
      (codes "memory cache budgets must be positive")
  refuse (below m.max_concurrent 1 || below m.max_concurrent_per_server 1)
      (codes "memory concurrency limits must be positive")

unfoldable pub validate_discovery : DiscoveryConfig → Done
unfolding refuse
validate_discovery d = do
  refuse
      (below d.max_tools_per_server 1
        || below d.max_resources_per_server 1
        || below d.max_prompts_per_server 1)
      (codes "discovery limits must be positive")
  refuse (below d.max_concurrent 1 || below d.max_health_concurrent 1)
      (codes "discovery concurrency limits must be positive")
  refuse (above d.max_concurrent 256 || above d.max_health_concurrent 256)
      (codes "discovery concurrency limits cannot exceed 256")

abbrev pub known_storage : Bytes → Bool
known_storage t = t == codes "sqlite" || t == codes "memory" || t == codes "postgres"

unfoldable pub validate : Config → Done
validate c = do
  validate_gateway c.gateway
  validate_memory c.memory
  refuse (below c.gateway.max_request_bytes 1024 || below c.gateway.max_response_bytes 1024)
      (codes "gateway request/response byte limits are too small")
  validate_discovery c.discovery
  refuse (not (known_storage c.storage.type)) (codes "unsupported storage.type")
  validate_servers c.mcp_servers

-- The number lies between two others.
abbrev pub Within : ℕ → ℕ → ℤ → Type 0
Within lo hi (pos v) = (lo ≤ v) × (v ≤ hi)
Within lo hi (negsuc v) = ⊥

abbrev pub AtLeast : ℕ → ℤ → Type 0
AtLeast lo (pos v) = lo ≤ v
AtLeast lo (negsuc v) = ⊥

pub record ValidServer (e : Bytes × ServerConfig) : Type 0 where
  pub named : e.0 ≢ []
  pub spelled : all name_char e.0 ≡ true
  pub reachable :
      ((e.1.type ≡ codes "stdio") × (e.1.command ≢ []))
      ⊎ ((is_url_type e.1.type ≡ true) × (e.1.url ≢ []))
  pub lifecycle : (e.1.lifecycle.mode ≡ codes "lazy") ⊎ (e.1.lifecycle.mode ≡ codes "persistent")

pub record ValidConfig (c : Config) : Type 0 where
  pub port : Within 1 65535 c.gateway.port
  pub admin_path : has_prefix c.gateway.admin_path (codes "/") ≡ true
  pub mcp_path : has_prefix c.gateway.mcp_path (codes "/") ≡ true
  pub paths : c.gateway.admin_path ≢ c.gateway.mcp_path
  pub soft_limit : AtLeast 32 c.memory.soft_limit_mb
  pub schema_cache : AtLeast 1 c.memory.schema_cache_mb
  pub log_buffer : AtLeast 1 c.memory.log_buffer_mb
  pub concurrent : AtLeast 1 c.memory.max_concurrent
  pub per_server : AtLeast 1 c.memory.max_concurrent_per_server
  pub request_bytes : AtLeast 1024 c.gateway.max_request_bytes
  pub response_bytes : AtLeast 1024 c.gateway.max_response_bytes
  pub tools : AtLeast 1 c.discovery.max_tools_per_server
  pub resources : AtLeast 1 c.discovery.max_resources_per_server
  pub prompts : AtLeast 1 c.discovery.max_prompts_per_server
  pub workers : Within 1 256 c.discovery.max_concurrent
  pub health_workers : Within 1 256 c.discovery.max_health_concurrent
  pub storage : known_storage c.storage.type ≡ true
  pub servers : All ValidServer c.mcp_servers
