-- ===== src/App/Apply/Agrees.antt =====
-- The registry's cache, and the names of the backends, after a configuration is applied.
use lessen_mcp_gateway.Prelude.{
  Bool, All-insert, Bytes, not, [], ◌∷◌, Map, lookup, All, Option-cases, inl, inr,
}
use lessen_mcp_gateway.Errors.{Context, Result-cases}
use lessen_mcp_gateway.Config.{ServerConfig, Config}
use lessen_mcp_gateway.Config.Defaults.{apply_defaults}
use lessen_mcp_gateway.Config.Validate.{validate, ValidServer}
use lessen_mcp_gateway.Config.Validate.Accepts.{validate_iff}
use lessen_mcp_gateway.Config.Validate.Names.{NoSlash-name_char}
use lessen_mcp_gateway.Storage.Interface.{Store, ToolLaws}
use lessen_mcp_gateway.Registry.{Registry, get_server, upsert_server, delete_server}
use lessen_mcp_gateway.Registry.Coherent.{
  Coherent, delete_server-Coherent, set_cache_bytes-Coherent, upsert_server-Coherent,
}
use lessen_mcp_gateway.Registry.Coherent.Keys.{NoSlash}
use lessen_mcp_gateway.App.Client.{Backend}
use lessen_mcp_gateway.App.Apply.{
  next_backend, same_int, Manager, hash, current_server, configured, register, unregister,
  apply_config, next_backends, cache_bytes,
}

module _ {C S : Type 0} (store : Store S) (laws : ToolLaws store) (sha256 : Bytes → Bytes)
    (marshal : ServerConfig → Bytes) (ctx : Context) where
  register-Coherent :
      (r : Registry S) (backends : Map (Backend C))
      → Coherent store laws r
      → Coherent store laws (register store sha256 marshal ctx r backends).0
  unfolding register
  register-Coherent r [] c = c
  register-Coherent r ((id, b) ∷ rest) c =
      elim (Result-cases (current_server id b.cfg (get_server store r ctx id))) [
        | inr (e, fails) ↦ rw (register, fails) c
        | inl (current, found) ↦
            let server = configured id b.cfg (hash sha256 marshal b.cfg) current in
            let kept = upsert_server-Coherent store laws r ctx server c in
            elim (Result-cases (upsert_server store r ctx server).1) [
              | inr (e, fails) ↦ rw (register, found, fails) kept
              | inl (_, done) ↦
                  rw (register, found, done)
                    (register-Coherent (upsert_server store r ctx server).0 rest kept)
            ]
      ]

  unregister-Coherent :
      (r : Registry S) (next old : Map (Backend C))
      → All (λ e. NoSlash e.0) old
      → Coherent store laws r
      → Coherent store laws (unregister store sha256 marshal ctx r next old)
  unfolding unregister
  unregister-Coherent r next [] slash c = c
  unregister-Coherent r next ((id, b) ∷ old) slash c = elim (Option-cases (lookup id next)) [
    | inr (b', there) ↦ rw there (unregister-Coherent r next old slash.1 c)
    | inl gone ↦ rw gone (
        unregister-Coherent (delete_server store r ctx id).0 next old slash.1
          (delete_server-Coherent store laws r ctx id c slash.0))
  ]

  registry-Coherent :
      (m : Manager C S) (cfg : Config)
      → All (λ e. NoSlash e.0) m.backends
      → Coherent store laws m.registry
      → Coherent store laws (apply_config store sha256 marshal ctx m cfg).0.registry
  unfolding apply_config
  registry-Coherent m cfg slash c = elim (Result-cases (validate (apply_defaults cfg))) [
    | inr (e, refused) ↦ rw (apply_config, refused) c
    | inl (_, valid) ↦
        let cfg' = apply_defaults cfg in
        let changed =
          not (
            same_int m.cfg.memory.max_concurrent_per_server
              cfg'.memory.max_concurrent_per_server) in
        let next = next_backends sha256 marshal changed m.backends cfg'.mcp_servers in
        let kept = register-Coherent m.registry next c in
        elim (Result-cases (register store sha256 marshal ctx m.registry next).1) [
          | inr (e, fails) ↦ rw (apply_config, valid, fails) kept
          | inl (_, done) ↦
              rw (apply_config, valid, done)
                (set_cache_bytes-Coherent store laws
                  (unregister store sha256 marshal ctx
                    (register store sha256 marshal ctx m.registry next).0 next m.backends)
                  (cache_bytes cfg'.memory.schema_cache_mb)
                  (unregister-Coherent (register store sha256 marshal ctx m.registry next).0 next
                    m.backends slash kept))
        ]
  ]

  next_backends-NoSlash :
      (changed : Bool) (old : Map (Backend C)) (servers : Map ServerConfig)
      → All ValidServer servers
      → All (λ e. NoSlash e.0) (next_backends sha256 marshal changed old servers)
  unfolding next_backends
  next_backends-NoSlash changed old [] valid = tt
  next_backends-NoSlash changed old ((id, cfg) ∷ servers) valid =
      All-insert (λ e. NoSlash e.0) id (next_backend sha256 marshal changed old id cfg)
        (next_backends sha256 marshal changed old servers) (NoSlash-name_char id valid.0.spelled)
        (next_backends-NoSlash changed old servers valid.1)

  backends-NoSlash :
      (m : Manager C S) (cfg : Config)
      → All (λ e. NoSlash e.0) m.backends
      → All (λ e. NoSlash e.0) (apply_config store sha256 marshal ctx m cfg).0.backends
  unfolding apply_config
  backends-NoSlash m cfg slash = elim (Result-cases (validate (apply_defaults cfg))) [
    | inr (e, refused) ↦ rw (apply_config, refused) slash
    | inl (_, valid) ↦
        let cfg' = apply_defaults cfg in
        let changed =
          not (
            same_int m.cfg.memory.max_concurrent_per_server
              cfg'.memory.max_concurrent_per_server) in
        let next = next_backends sha256 marshal changed m.backends cfg'.mcp_servers in
        let named =
          next_backends-NoSlash changed m.backends cfg'.mcp_servers
            ((validate_iff cfg').0 valid).servers in
        elim (Result-cases (register store sha256 marshal ctx m.registry next).1) [
          | inr (e, fails) ↦ rw (apply_config, valid, fails) named
          | inl (_, done) ↦ rw (apply_config, valid, done) named
        ]
  ]

  -- Whatever configuration is applied, and whether that succeeds or fails: if the cache was
  -- coherent with the store and no backend had a slash in its name, then so it is afterwards.
  pub apply_config-Coherent :
      (m : Manager C S) (cfg : Config)
      → All (λ e. NoSlash e.0) m.backends
      → Coherent store laws m.registry
      → All (λ e. NoSlash e.0) (apply_config store sha256 marshal ctx m cfg).0.backends
        × Coherent store laws (apply_config store sha256 marshal ctx m cfg).0.registry
  apply_config-Coherent m cfg slash c =
      (backends-NoSlash m cfg slash, registry-Coherent m cfg slash c)
