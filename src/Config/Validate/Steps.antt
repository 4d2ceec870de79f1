-- ===== src/Config/Validate/Steps.antt =====
-- When the tests of `Validate` pass, one by one, and when its parts for the gateway, the memory and
-- the discovery accept.
use lessen_mcp_gateway.Prelude.{
  ℕ, ◌≡◌, ◌≢◌, ◌↔◌, refl, Bytes, codes, ◌==◌, eq_iff, Bool, true, false, ◌||◌, not, arith,
  has_prefix,
}
use lessen_mcp_gateway.Prelude.Int.{ℤ, pos, negsuc, above}
use lessen_mcp_gateway.Errors.{ok, err, ◌>>◌}
use lessen_mcp_gateway.Config.{GatewayConfig, MemoryConfig, DiscoveryConfig}
use lessen_mcp_gateway.Config.Validate.{
  Done, refuse, below, validate_gateway, validate_memory, validate_discovery, Within, AtLeast,
}

pub refuse_iff : (b : Bool) (text : Bytes) → (refuse b text ≡ ok tt) ↔ (b ≡ false)
unfolding refuse
refuse_iff true text = (λ h. cc, λ h. cc)
refuse_iff false text = (λ h. refl, λ h. refl)

pub then_iff : (a b : Done) → ((a >> b) ≡ ok tt) ↔ ((a ≡ ok tt) × (b ≡ ok tt))
then_iff (ok _) b = (λ h. (refl, h), λ h. h.1)
then_iff (err e) b = (λ h. cc, λ h. cc)

pub below_iff : (v : ℤ) (n : ℕ) → (below v n ≡ false) ↔ AtLeast n v
below_iff (pos v) n = ground arith
below_iff (negsuc v) n = (λ h. cc, λ h. absurd h)

or_iff : (a b : Bool) → ((a || b) ≡ false) ↔ ((a ≡ false) × (b ≡ false))
or_iff true b = (λ h. cc, λ h. cc)
or_iff false b = (λ h. (refl, h), λ h. h.1)

Within-iff : (v : ℤ) (lo hi : ℕ) → ((below v lo || above v hi) ≡ false) ↔ Within lo hi v
Within-iff (pos v) lo hi = ground arith
Within-iff (negsuc v) lo hi = (λ h. cc, λ h. absurd h)

pub not_iff : (b : Bool) → (not b ≡ false) ↔ (b ≡ true)
not_iff true = (λ h. refl, λ h. refl)
not_iff false = (λ h. cc, λ h. cc)

eq_false_iff : (a b : Bytes) → ((a == b) ≡ false) ↔ (a ≢ b)
eq_false_iff a b = ground (arith, eq_iff a b)

pub validate_gateway_iff :
    (g : GatewayConfig)
    → (validate_gateway g ≡ ok tt) ↔ (
        Within 1 65535 g.port
        × (has_prefix g.admin_path (codes "/") ≡ true)
        × (has_prefix g.mcp_path (codes "/") ≡ true)
        × (g.admin_path ≢ g.mcp_path))
unfolding validate_gateway
validate_gateway_iff g =
    let port = Within-iff g.port 1 65535 in
    let paths = eq_iff g.admin_path g.mcp_path in
    (λ h. ground (arith, port, paths), λ h. ground (arith, port, paths))

pub validate_memory_iff :
    (m : MemoryConfig)
    → (validate_memory m ≡ ok tt) ↔ (
        AtLeast 32 m.soft_limit_mb
        × AtLeast 1 m.schema_cache_mb
        × AtLeast 1 m.log_buffer_mb
        × AtLeast 1 m.max_concurrent
        × AtLeast 1 m.max_concurrent_per_server)
unfolding validate_memory
validate_memory_iff m =
    let soft = below_iff m.soft_limit_mb 32 in
    let cache = below_iff m.schema_cache_mb 1 in
    let log = below_iff m.log_buffer_mb 1 in
    let calls = below_iff m.max_concurrent 1 in
    let each = below_iff m.max_concurrent_per_server 1 in
    (
      λ h. ground (arith, soft, cache, log, calls, each),
      λ h. ground (arith, soft, cache, log, calls, each),
    )

pub validate_discovery_iff :
    (d : DiscoveryConfig)
    → (validate_discovery d ≡ ok tt) ↔ (
        AtLeast 1 d.max_tools_per_server
        × AtLeast 1 d.max_resources_per_server
        × AtLeast 1 d.max_prompts_per_server
        × Within 1 256 d.max_concurrent
        × Within 1 256 d.max_health_concurrent)
unfolding validate_discovery
validate_discovery_iff d =
    let tools = below_iff d.max_tools_per_server 1 in
    let resources = below_iff d.max_resources_per_server 1 in
    let prompts = below_iff d.max_prompts_per_server 1 in
    let workers = Within-iff d.max_concurrent 1 256 in
    let checks = Within-iff d.max_health_concurrent 1 256 in
    (
      λ h. ground (arith, tools, resources, prompts, workers, checks),
      λ h. ground (arith, tools, resources, prompts, workers, checks),
    )
