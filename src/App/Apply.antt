-- ===== src/App/Apply.antt =====
-- `ApplyConfig` of internal/app/manager.go, and `Hash` of internal/config/config.go, by which it
-- tells a changed server. SHA-256 as hexadecimal digits is a parameter, and so is `marshal`, the
-- JSON text of a configuration. The semaphores are left out.
pub mod Kept
pub mod Agrees
use lessen_mcp_gateway.Prelude.{
  ℕ, ◌+◌, ◌*◌, ◌-◌, ◌%◌, ◌^◌, Bytes, codes, ◌==◌, Bool, true, false, not, ◌&&◌, ◌||◌, Option, none,
  some, List, [], ◌∷◌, ◌++◌, map, if◌then◌else◌, nat_eq, leb, ltb, Map, lookup, insert,
}
use lessen_mcp_gateway.Prelude.Int.{ℤ, pos, negsuc, clip, int_end}
use lessen_mcp_gateway.Errors.{Error, Context, Result, ok, err, not_found}
use lessen_mcp_gateway.Model.{Server, TransportType, HealthStatus}
use lessen_mcp_gateway.Config.{Secret, ServerConfig, Config}
use lessen_mcp_gateway.Config.Defaults.{apply_defaults}
use lessen_mcp_gateway.Config.Validate.{validate}
use lessen_mcp_gateway.Storage.Interface.{Store, Done}
use lessen_mcp_gateway.Storage.Search.{join}
use lessen_mcp_gateway.Registry.{
  Registry, get_server, upsert_server, delete_server, set_cache_bytes,
}
use lessen_mcp_gateway.App.Client.{Backend, new_backend, close}

-- `displayName`, for a name that is valid: "-" and "_" separate words, and each begins with a
-- capital.
abbrev capital : Bytes → List Bytes
capital [] = []
capital (c ∷ word) = ((if leb b'a' c && leb c b'z' then c - 32 else c) ∷ word) ∷ []

-- The first word, and the words after it.
unfoldable pub words : Bytes → Bytes × List Bytes
words [] = ([], [])
words (c ∷ rest) =
    let (word, later) = words rest in
    if nat_eq c b'-' || nat_eq c b'_' then ([], capital word ++ later) else (c ∷ word, later)

unfoldable pub display_name : Bytes → Bytes
unfolding words
display_name id =
    let (word, later) = words id in
    elim (capital word ++ later) [ [] ↦ id | w ∷ ws ↦ join (w ∷ ws) ]

unfoldable pub endpoint_for : ServerConfig → Bytes
endpoint_for cfg = if cfg.type == codes "stdio" then cfg.command else cfg.url

unfoldable pub transport_type : Bytes → TransportType
transport_type t =
    if t == codes "stdio"
    then TransportType.stdio
    else if t == codes "streamable-http"
    then TransportType.streamable_http
    else if t == codes "sse"
    then TransportType.sse
    else TransportType.unknown t

-- `cfg.Enabled == nil || *cfg.Enabled`
unfoldable pub is_enabled : ServerConfig → Bool
is_enabled cfg = elim cfg.enabled [ none ↦ true | some enabled ↦ enabled ]

-- The status and the text for a server that has none, or whose configuration is new.
unfoldable pub first_status : ServerConfig → HealthStatus × Bytes
first_status cfg =
    if not (is_enabled cfg)
    then (HealthStatus.disabled, codes "disabled in configuration")
    else if cfg.lifecycle.mode == codes "persistent"
    then (HealthStatus.starting, codes "waiting for discovery")
    else (HealthStatus.sleeping, codes "ready for on-demand activation")

-- `current.Status == ""`
abbrev is_unset : HealthStatus → Bool
is_unset HealthStatus.unset = true
is_unset _ = false

-- `==` on `int`s
abbrev pub same_int : ℤ → ℤ → Bool
same_int (pos a) (pos b) = nat_eq a b
same_int (negsuc a) (negsuc b) = nat_eq a b
same_int _ _ = false

-- `int64(mb) << 20`; a shift that wraps to a negative number is below the cache's floor, as 0 is.
abbrev pub cache_bytes : ℤ → ℕ
cache_bytes mb =
    let shifted = clip mb * 1048576 % 2 ^ 64 in if ltb shifted int_end then shifted else 0

module _ (sha256 : Bytes → Bytes) (marshal : ServerConfig → Bytes) where
  unfoldable pub mark : Bytes × Secret → Bytes × Secret
  mark (key, s) =
      (key, record s { value = if s.value == [] then [] else codes "sha256:" ++ sha256 s.value })

  unfoldable pub hash : ServerConfig → Bytes
  hash s = sha256 (marshal (record s { env = map mark s.env; headers = map mark s.headers }))

  module _ {C : Type 0} where
    -- `sameConfig && !perServerLimitChanged`
    unfoldable pub keeps : Bool → Backend C → ServerConfig → Bool
    keeps limit_changed b cfg = hash b.cfg == hash cfg && not limit_changed

    -- `next[id]` for a configured server.
    unfoldable pub next_backend : Bool → Map (Backend C) → Bytes → ServerConfig → Backend C
    next_backend limit_changed old id cfg = elim (lookup id old) [
      | none ↦ new_backend id cfg
      | some b ↦ if keeps limit_changed b cfg then record b { cfg = cfg } else new_backend id cfg
    ]

    unfoldable pub next_backends : Bool → Map (Backend C) → Map ServerConfig → Map (Backend C)
    next_backends limit_changed old [] = []
    next_backends limit_changed old ((id, cfg) ∷ servers) =
        insert id (next_backend limit_changed old id cfg) (next_backends limit_changed old servers)

    -- What the loop over the servers appends to `removed`.
    unfoldable pub replaced : Bool → Map (Backend C) → Map ServerConfig → Map (Backend C)
    replaced limit_changed old [] = []
    replaced limit_changed old ((id, cfg) ∷ servers) =
        let rest = replaced limit_changed old servers in
        elim (lookup id old) [
          | none ↦ rest
          | some b ↦ if keeps limit_changed b cfg then rest else (id, b) ∷ rest
        ]

module _ {C : Type 0} where
  -- What the loop over the old backends appends.
  unfoldable pub dropped : Map (Backend C) → Map (Backend C) → Map (Backend C)
  dropped next [] = []
  dropped next ((id, b) ∷ old) =
      let rest = dropped next old in elim (lookup id next) [ some _ ↦ rest | none ↦ (id, b) ∷ rest ]

-- `model.Server{ID: id, …}`
abbrev new_server : Bytes → ServerConfig → Server
new_server id cfg = record {
  id = id;
  name = display_name id;
  transport = transport_type cfg.type;
  status = HealthStatus.unset;
  status_message = [];
  endpoint = [];
  protocol_version = [];
  server_version = [];
  capabilities = [];
  tool_count = 0;
  resource_count = 0;
  resource_template_count = 0;
  prompt_count = 0;
  last_health_check = 0;
  last_discovered_at = 0;
  connected_since = 0;
  config_hash = [];
}

-- What the registry has for a server, or a new record; any other error is passed on.
unfoldable pub current_server : Bytes → ServerConfig → Result Server → Result Server
current_server id cfg (ok server) = ok server
current_server id cfg (err not_found) = ok (new_server id cfg)
current_server id cfg (err e) = err e

-- The record that is written back.
unfoldable pub configured : Bytes → ServerConfig → Bytes → Server → Server
unfolding first_status
configured id cfg new_hash current =
    let described = record current {
      name = display_name id;
      transport = transport_type cfg.type;
      config_hash = new_hash;
      endpoint = endpoint_for cfg;
    } in
    let (status, text) = first_status cfg in
    if is_unset current.status || not (current.config_hash == new_hash) || not (is_enabled cfg)
    then record described { status = status; status_message = text }
    else described

pub record Manager (C S : Type 0) : Type 0 where
  pub cfg : Config
  pub backends : Map (Backend C)
  pub registry : Registry S

module _ {C S : Type 0} (store : Store S) (sha256 : Bytes → Bytes) (marshal : ServerConfig → Bytes)
    (ctx : Context) where
  -- The loop over the new backends, which ends at the first error.
  unfoldable pub register : Registry S → Map (Backend C) → Registry S × Done
  unfolding current_server configured
  register r [] = (r, ok tt)
  register r ((id, b) ∷ rest) = elim (current_server id b.cfg (get_server store r ctx id)) [
    | err e ↦ (r, err e)
    | ok current ↦
        let (r', done) =
          upsert_server store r ctx (configured id b.cfg (hash sha256 marshal b.cfg) current) in
        let later = register r' rest in elim done [ err e ↦ (r', err e) | ok _ ↦ later ]
  ]

  -- The loop over the old ones, whose errors are ignored.
  unfoldable pub unregister : Registry S → Map (Backend C) → Map (Backend C) → Registry S
  unregister r next [] = r
  unregister r next ((id, b) ∷ old) =
      unregister (elim (lookup id next) [ some _ ↦ r | none ↦ (delete_server store r ctx id).0 ])
        next old

  -- The new state, the backends that are closed, and the error.
  unfoldable pub apply_config : Manager C S → Config → Manager C S × Map (Backend C) × Done
  apply_config m cfg =
      let cfg' = apply_defaults cfg in
      elim (validate cfg') [
        | err e ↦ (m, [], err e)
        | ok _ ↦
            let changed = not (
              same_int m.cfg.memory.max_concurrent_per_server
                cfg'.memory.max_concurrent_per_server) in
            let next = next_backends sha256 marshal changed m.backends cfg'.mcp_servers in
            let removed =
              replaced sha256 marshal changed m.backends cfg'.mcp_servers
              ++ dropped next m.backends in
            let (r, done) = register m.registry next in
            elim done [
              | err e ↦ (record { cfg = cfg'; backends = next; registry = r }, removed, err e)
              | ok _ ↦ (
                record {
                  cfg = cfg';
                  backends = next;
                  registry =
                      set_cache_bytes store (unregister r next m.backends)
                        (cache_bytes cfg'.memory.schema_cache_mb);
                },
                removed,
                ok tt,
              )
            ]
      ]
