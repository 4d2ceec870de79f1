-- ===== src/Config/Validate/Accepts.antt =====
-- `Validate` accepts the valid configurations, and no others.
use lessen_mcp_gateway.Prelude.{
  ◌≡◌, ◌≢◌, ◌↔◌, ◌⊎◌, refl, Bytes, codes, ◌==◌, eq_iff, Bool, true, false, ◌&&◌, ◌||◌, not, [], ◌∷◌,
  Map, arith, All, all,
}
use lessen_mcp_gateway.Errors.{ok, ◌>>◌}
use lessen_mcp_gateway.Config.{GatewayConfig, ServerConfig, Config}
use lessen_mcp_gateway.Config.Validate.{
  Done, refuse, below, name_char, validate_server_name, is_url_type, validate_type, validate_server,
  validate_servers, validate_gateway, validate_memory, validate_discovery, known_storage, validate,
  AtLeast, ValidServer, ValidConfig,
}
use lessen_mcp_gateway.Config.Validate.Steps.{
  refuse_iff, then_iff, below_iff, not_iff, validate_gateway_iff, validate_memory_iff,
  validate_discovery_iff,
}

name_iff :
    (name : Bytes)
    → (validate_server_name name ≡ ok tt) ↔ ((name ≢ []) × (all name_char name ≡ true))
unfolding validate_server_name
name_iff [] = (λ h. cc, λ h. absurd (h.0 refl))
name_iff (c ∷ name) = (
  λ h. (
    λ e. cc,
    (not_iff (all name_char (c ∷ name))).0 (
        (refuse_iff (not (all name_char (c ∷ name)))
            (codes "server name must contain only lowercase letters")).0
          h),
  ),
  λ h.
      (refuse_iff (not (all name_char (c ∷ name)))
          (codes "server name must contain only lowercase letters")).1
        ((not_iff (all name_char (c ∷ name))).1 h.1),
)

type_iff :
    (s : ServerConfig)
    → (validate_type s ≡ ok tt) ↔ (
        ((s.type ≡ codes "stdio") × (s.command ≢ []))
        ⊎ ((is_url_type s.type ≡ true) × (s.url ≢ [])))
unfolding validate_type
type_iff s =
    let stdio = eq_iff s.type (codes "stdio") in
    let command = eq_iff s.command [] in
    let url = eq_iff s.url [] in
    let http = eq_iff s.type (codes "streamable-http") in
    let sse = eq_iff s.type (codes "sse") in
    (
      λ h. ground (arith, stdio, command, url, http, sse),
      λ h. ground (arith, stdio, command, url, http, sse),
    )

lifecycle_iff :
    (mode : Bytes)
    → ((not (mode == codes "lazy") && not (mode == codes "persistent")) ≡ false)
      ↔ ((mode ≡ codes "lazy") ⊎ (mode ≡ codes "persistent"))
lifecycle_iff mode =
    let lazy = eq_iff mode (codes "lazy") in
    let persistent = eq_iff mode (codes "persistent") in
    (λ h. ground (arith, lazy, persistent), λ h. ground (arith, lazy, persistent))

-- The last step of `validate_server`, and the last two.
abbrev mode_text : Bytes
mode_text = codes "lifecycle.mode must be lazy or persistent"

abbrev bad_mode : ServerConfig → Bool
bad_mode s = not (s.lifecycle.mode == codes "lazy") && not (s.lifecycle.mode == codes "persistent")

abbrev mode_step : ServerConfig → Done
mode_step s = refuse (bad_mode s) mode_text

abbrev type_and_mode : ServerConfig → Done
type_and_mode s = validate_type s >> mode_step s

validate_server_iff :
    (name : Bytes) (s : ServerConfig) → (validate_server name s ≡ ok tt) ↔ ValidServer (name, s)
unfolding validate_server
validate_server_iff name s = (
  λ h.
      let (named, rest) = (then_iff (validate_server_name name) (type_and_mode s)).0 h in
      let (typed, lived) = (then_iff (validate_type s) (mode_step s)).0 rest in
      let (nonempty, spelled) = (name_iff name).0 named in
      record {
        named = nonempty;
        spelled = spelled;
        reachable = (type_iff s).0 typed;
        lifecycle =
            (lifecycle_iff s.lifecycle.mode).0 ((refuse_iff (bad_mode s) mode_text).0 lived);
      },
  λ v. (then_iff (validate_server_name name) (type_and_mode s)).1 (
    (name_iff name).1 (v.named, v.spelled),
    (then_iff (validate_type s) (mode_step s)).1 (
      (type_iff s).1 v.reachable,
      (refuse_iff (bad_mode s) mode_text).1 ((lifecycle_iff s.lifecycle.mode).1 v.lifecycle),
    ),
  ),
)

validate_servers_iff : (m : Map ServerConfig) → (validate_servers m ≡ ok tt) ↔ All ValidServer m
unfolding validate_servers
validate_servers_iff [] = (λ h. tt, λ h. refl)
validate_servers_iff ((name, s) ∷ m) = (
  λ h.
      let (this, rest) = (then_iff (validate_server name s) (validate_servers m)).0 h in
      ((validate_server_iff name s).0 this, (validate_servers_iff m).0 rest),
  λ v.
      (then_iff (validate_server name s) (validate_servers m)).1
        ((validate_server_iff name s).1 v.0, (validate_servers_iff m).1 v.1),
)

abbrev small_limits : GatewayConfig → Bool
small_limits g = below g.max_request_bytes 1024 || below g.max_response_bytes 1024

limits_iff :
    (g : GatewayConfig)
    → (small_limits g ≡ false)
      ↔ (AtLeast 1024 g.max_request_bytes × AtLeast 1024 g.max_response_bytes)
limits_iff g =
    let request = below_iff g.max_request_bytes 1024 in
    let response = below_iff g.max_response_bytes 1024 in
    (λ h. ground (arith, request, response), λ h. ground (arith, request, response))

-- The steps of `validate` after its first, second, third and fourth.
abbrev limit_step : Config → Done
limit_step c =
    refuse (small_limits c.gateway) (codes "gateway request/response byte limits are too small")

abbrev storage_step : Config → Done
storage_step c = refuse (not (known_storage c.storage.type)) (codes "unsupported storage.type")

abbrev after_discovery : Config → Done
after_discovery c = storage_step c >> validate_servers c.mcp_servers

abbrev after_limits : Config → Done
after_limits c = validate_discovery c.discovery >> after_discovery c

abbrev after_memory : Config → Done
after_memory c = limit_step c >> after_limits c

abbrev after_gateway : Config → Done
after_gateway c = validate_memory c.memory >> after_memory c

-- `Validate` accepts a configuration exactly when it is valid: ports, paths, budgets, limits, the
-- kind of storage and every server.
pub validate_iff : (c : Config) → (validate c ≡ ok tt) ↔ ValidConfig c
unfolding validate
validate_iff c =
    let bytes =
      refuse_iff (small_limits c.gateway)
        (codes "gateway request/response byte limits are too small") in
    let kind = refuse_iff (not (known_storage c.storage.type)) (codes "unsupported storage.type") in
    (
      λ h.
          let (gateway, h1) = (then_iff (validate_gateway c.gateway) (after_gateway c)).0 h in
          let (memory, h2) = (then_iff (validate_memory c.memory) (after_memory c)).0 h1 in
          let (limits, h3) = (then_iff (limit_step c) (after_limits c)).0 h2 in
          let (discovery, h4) =
            (then_iff (validate_discovery c.discovery) (after_discovery c)).0 h3 in
          let (storage, servers) =
            (then_iff (storage_step c) (validate_servers c.mcp_servers)).0 h4 in
          let (port, admin, mcp, differ) = (validate_gateway_iff c.gateway).0 gateway in
          let (soft, cache, log, calls, each) = (validate_memory_iff c.memory).0 memory in
          let (request, response) = (limits_iff c.gateway).0 (bytes.0 limits) in
          let (tools, resources, prompts, workers, checks) =
            (validate_discovery_iff c.discovery).0 discovery in
          record {
            port = port;
            admin_path = admin;
            mcp_path = mcp;
            paths = differ;
            soft_limit = soft;
            schema_cache = cache;
            log_buffer = log;
            concurrent = calls;
            per_server = each;
            request_bytes = request;
            response_bytes = response;
            tools = tools;
            resources = resources;
            prompts = prompts;
            workers = workers;
            health_workers = checks;
            storage = (not_iff (known_storage c.storage.type)).0 (kind.0 storage);
            servers = (validate_servers_iff c.mcp_servers).0 servers;
          },
      λ v. (then_iff (validate_gateway c.gateway) (after_gateway c)).1 (
        (validate_gateway_iff c.gateway).1 (v.port, v.admin_path, v.mcp_path, v.paths),
        (then_iff (validate_memory c.memory) (after_memory c)).1 (
          (validate_memory_iff c.memory).1
              (v.soft_limit, v.schema_cache, v.log_buffer, v.concurrent, v.per_server),
          (then_iff (limit_step c) (after_limits c)).1 (
            bytes.1 ((limits_iff c.gateway).1 (v.request_bytes, v.response_bytes)),
            (then_iff (validate_discovery c.discovery) (after_discovery c)).1 (
              (validate_discovery_iff c.discovery).1
                  (v.tools, v.resources, v.prompts, v.workers, v.health_workers),
              (then_iff (storage_step c) (validate_servers c.mcp_servers)).1 (
                kind.1 ((not_iff (known_storage c.storage.type)).1 v.storage),
                (validate_servers_iff c.mcp_servers).1 v.servers,
              ),
            ),
          ),
        ),
      ),
    )
