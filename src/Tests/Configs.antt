-- ===== src/Tests/Configs.antt =====
-- Configurations: the default one, and one with a server.
use lessen_mcp_gateway.Prelude.{◌==◌, ◌≡◌, ◌↔◌, refl, Bytes, codes, none, [], ◌∷◌}
use lessen_mcp_gateway.Prelude.Int.{pos}
use lessen_mcp_gateway.Errors.{ok}
use lessen_mcp_gateway.Config.{Secret, ServerConfig, Config, default, default_lifecycle}
use lessen_mcp_gateway.Config.Defaults.{apply_defaults}
use lessen_mcp_gateway.Config.Redact.{redacted_server, redacted_server-Alike}
use lessen_mcp_gateway.Config.Validate.{validate, ValidConfig}
use lessen_mcp_gateway.Config.Validate.Accepts.{validate_iff}

abbrev token : Bytes → Secret
token value = record { value = value; env = [] }

abbrev search : ServerConfig
search = record {
  type = [];
  enabled = none;
  command = [];
  args = [];
  env = [];
  working_dir = [];
  url = codes "https://search.example/mcp";
  headers = (codes "Authorization", token (codes "one")) ∷ [];
  lifecycle = default_lifecycle;
  timeout = pos 0;
  tags = [];
}

abbrev with_search : Config
with_search = record default { mcp_servers = (codes "search", search) ∷ [] }

validate_iff_example :
    (validate (apply_defaults with_search) ≡ ok tt) ↔ ValidConfig (apply_defaults with_search)
validate_iff_example = validate_iff (apply_defaults with_search)

redacted_server-Alike_example :
    redacted_server (codes "search") search
    ≡ redacted_server
        (codes "search")
        (record search { env = []; headers = (codes "Authorization", token (codes "two")) ∷ [] })
unfolding ◌==◌
redacted_server-Alike_example =
    redacted_server-Alike (codes "search") search []
      ((codes "Authorization", token (codes "two")) ∷ []) tt
      (refl, record { env = refl; empty = refl }, tt)
