-- ===== src/Tests/Applied.antt =====
-- A configuration that is applied over another, with one server of before and one new one.
use lessen_mcp_gateway.Prelude.{
  if◌then◌else◌, none, ◌==◌, ℕ, ◌≡◌, refl, Bytes, codes, false, none, some, [], ◌∷◌, ◌++◌, Map,
  lookup, All,
}
use lessen_mcp_gateway.Config.{ServerConfig, default}
use lessen_mcp_gateway.Storage.Memory.{MemoryStore}
use lessen_mcp_gateway.Registry.Coherent.{Coherent}
use lessen_mcp_gateway.Registry.Coherent.Keys.{NoSlash}
use lessen_mcp_gateway.App.Client.{new_backend, Backend}
use lessen_mcp_gateway.App.Apply.{
  Manager, next_backends, replaced, dropped, apply_config, display_name,
}
use lessen_mcp_gateway.App.Apply.Agrees.{apply_config-Coherent}
use lessen_mcp_gateway.App.Apply.Kept.{stays, kept_or_closed}
use lessen_mcp_gateway.Storage.Search.{join}
use lessen_mcp_gateway.Tests.Values.{in_memory, in_memory_laws}
use lessen_mcp_gateway.Tests.Registry.{fresh, fresh-Coherent}
use lessen_mcp_gateway.Tests.Sessions.{busy, files_config}

abbrev same_text : Bytes → Bytes
same_text text = text

-- Here two configurations have the same hash when they have the same command.
abbrev by_command : ServerConfig → Bytes
by_command cfg = cfg.command

abbrev old : Map (Backend ℕ)
old = (codes "fs", busy) ∷ []

abbrev servers : Map ServerConfig
servers = (codes "web", files_config) ∷ (codes "fs", files_config) ∷ []

abbrev manager : Manager ℕ MemoryStore
manager = record { cfg = default; backends = old; registry = fresh }

name_of_files : display_name (codes "file-system_2") ≡ codes "File System 2"
unfolding display_name join
name_of_files = refl

kept_or_closed_example :
    (lookup (codes "fs") (next_backends same_text by_command false old servers)
      ≡ some (
          if stays same_text by_command false busy (some files_config)
          then record busy { cfg = files_config }
          else new_backend (codes "fs") files_config))
    × (lookup (codes "fs") (
          replaced same_text by_command false old servers
          ++ dropped (next_backends same_text by_command false old servers) old)
        ≡ (if stays same_text by_command false busy (some files_config) then none else some busy))
unfolding lookup ◌==◌
kept_or_closed_example =
    kept_or_closed same_text by_command false old servers (codes "fs") busy (refl, (refl, tt)) refl

apply_config-Coherent_example :
    All
      (λ e. NoSlash e.0)
      (apply_config in_memory same_text by_command none manager
        (record default { mcp_servers = servers })).0.backends
    × Coherent in_memory in_memory_laws
        (apply_config in_memory same_text by_command none manager
          (record default { mcp_servers = servers })).0.registry
apply_config-Coherent_example =
    apply_config-Coherent in_memory in_memory_laws same_text by_command none manager
      (record default { mcp_servers = servers }) (refl, tt) fresh-Coherent
