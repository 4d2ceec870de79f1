-- ===== src/App/Handshake.antt =====
-- `ensureInitialized` of internal/app/manager.go: the probe for the stateless revision, and the
-- stateful handshake over the older revisions. It runs under the backend's `initMu`.
pub mod Outcome
use lessen_mcp_gateway.Prelude.{
  ℕ, Bytes, codes, ◌==◌, Bool, true, false, ◌&&◌, ◌||◌, Option, none, some, List, [], ◌∷◌,
  if◌then◌else◌, nat_eq,
}
use lessen_mcp_gateway.Errors.{Error, Context, Result, ok, err, message}
use lessen_mcp_gateway.Model.{Raw, Time}
use lessen_mcp_gateway.Mcp.Protocol.{
  InitializeResult, ClientInfo, DiscoverResult, identity, contains_string, supports_legacy_protocol,
  legacy_protocols, protocol_latest,
}
use lessen_mcp_gateway.App.Client.{Client, Backend}

-- `if name == "" { name = b.id }`
abbrev pub or_id : Bytes → Bytes → Bytes
or_id id [] = id
or_id id (c ∷ name) = c ∷ name

-- `cloneRaw`, and `{}` for nothing.
abbrev or_object : Raw → Raw
or_object [] = codes "{}"
or_object (c ∷ raw) = c ∷ raw

-- `if b.connectedSince.IsZero() { b.connectedSince = now }`
abbrev since : Time → Time → Time
since old now = if nat_eq old 0 then now else old

module _ {C : Type 0} (client : Client C) (ctx after_probe : Context) (now : Time) where
  -- What a backend remembers of a session that it has.
  unfoldable pub remembered : Backend C → InitializeResult
  remembered b = record {
    protocol_version = b.protocol_version;
    capabilities = b.capabilities;
    server_info = record { name = or_id b.id b.server_name; version = b.server_version };
    instructions = [];
  }

  -- A server that advertises the latest revision.
  unfoldable pub adopt_modern : Backend C → C → DiscoverResult → Backend C × Result InitializeResult
  unfolding identity
  adopt_modern b c discovered =
      let info = identity discovered in
      let name = or_id b.id info.name in
      let capabilities = or_object discovered.capabilities in
      (
        record b {
          client = some c;
          initialized = true;
          initialized_generation = client.session_generation c;
          modern = true;
          protocol_version = protocol_latest;
          capabilities = capabilities;
          server_name = name;
          server_version = info.version;
          connected_since = since b.connected_since now;
        },
        ok (record {
          protocol_version = protocol_latest;
          capabilities = capabilities;
          server_info = record { name = name; version = info.version };
          instructions = discovered.instructions;
        }),
      )

  unfoldable pub adopt_legacy :
      Backend C → C → InitializeResult → Backend C × Result InitializeResult
  adopt_legacy b c result =
      let name = or_id b.id result.server_info.name in
      (
        record b {
          client = some c;
          initialized = true;
          initialized_generation = client.session_generation c;
          modern = false;
          protocol_version = result.protocol_version;
          capabilities = result.capabilities;
          server_name = name;
          server_version = result.server_info.version;
          connected_since = since b.connected_since now;
        },
        ok (record result { server_info = record result.server_info { name = name } }),
      )

  -- `return mcp.InitializeResult{}, err`, with the client as it is by then.
  abbrev pub failed : Backend C → C → Error → Backend C × Result InitializeResult
  failed b c e = (record b { client = some c }, err e)

  -- After a successful `initialize`: the version that the server selected, and the notification.
  unfoldable pub finish_legacy :
      Backend C → C → InitializeResult → Backend C × Result InitializeResult
  unfolding adopt_legacy
  finish_legacy b c result =
      let (c', sent) = client.notify_initialized ctx c in
      elim sent [ err e ↦ failed b c' e | ok _ ↦ adopt_legacy b c' result ]

  -- `for _, protocol := range mcp.LegacyProtocols`, with the last error so far.
  unfoldable pub try_legacy :
      List Bytes → Error → Backend C → C → Backend C × Result InitializeResult
  unfolding finish_legacy
  try_legacy [] last_err b c = failed b c last_err
  try_legacy (protocol ∷ rest) last_err b c =
      let (c', reply) = client.initialize ctx protocol (client.set_protocol_version protocol c) in
      elim reply [
        | err e ↦ try_legacy rest e b c'
        | ok raw ↦ elim (client.decode_initialize raw) [
          | err e ↦ failed b c' e
          | ok result ↦
              let selected = or_id protocol result.protocol_version in
              let result' = record result { protocol_version = selected } in
              elim (supports_legacy_protocol selected) [
                | true ↦ finish_legacy b c' result'
                | false ↦
                    try_legacy rest (message (codes "server selected unsupported legacy protocol"))
                      b c'
              ]
        ]
      ]

  -- `after_probe` is what `ctx.Err()` returns between the probe and the fallback.
  unfoldable pub fall_back : Error → Backend C → C → Backend C × Result InitializeResult
  unfolding try_legacy
  fall_back last_err b c = elim after_probe [
    | some e ↦ failed b c e
    | none ↦ try_legacy legacy_protocols last_err b c
  ]

  unfoldable pub probe : Backend C → C → Backend C × Result InitializeResult
  unfolding adopt_modern fall_back
  probe b c =
      let (c', reply) = client.discover ctx (client.set_protocol_version protocol_latest c) in
      elim reply [
        | err e ↦ fall_back e b c'
        | ok raw ↦ elim (client.decode_discover raw) [
          | err e ↦ fall_back e b c'
          | ok discovered ↦
              if contains_string discovered.supported_versions protocol_latest
              then adopt_modern b c' discovered
              else fall_back (message (codes "server/discover did not advertise 2026-07-28")) b c'
        ]
      ]

  -- With a client: `initialized && (generation == 0 || generation == initializedGen)`.
  unfoldable pub with_client : Backend C → C → Backend C × Result InitializeResult
  unfolding probe remembered
  with_client b c =
      let generation = client.session_generation c in
      if b.initialized && (nat_eq generation 0 || nat_eq generation b.initialized_generation)
      then (record b { client = some c }, ok (remembered b))
      else probe b c

  unfoldable pub ensure_initialized : Backend C → Backend C × Result InitializeResult
  unfolding with_client
  ensure_initialized b = elim b.client [
    | some c ↦ with_client b c
    | none ↦ elim (client.make b.id b.cfg) [ err e ↦ (b, err e) | ok c ↦ with_client b c ]
  ]
