-- ===== src/Config/Redact.antt =====
-- `Redacted` and `RedactedServer` of internal/config/config.go: what the management API shows of a
-- server. The `map[string]any` of the source is a record; a key that is left out is `none`.
use lessen_mcp_gateway.Prelude.{
  Bytes, codes, ◌==◌, ◌≡◌, refl, ap, Bool, true, not, Option, none, some, List, [], ◌∷◌, map, Map,
  if◌then◌else◌,
}
use lessen_mcp_gateway.Config.{Secret, LifecycleConfig, ServerConfig}

pub record RedactedSecret : Type 0 where
  pub configured : Bool
  pub source : Bytes
  pub env : Option Bytes

unfoldable pub redacted : Secret → RedactedSecret
unfolding ◌==◌
redacted s =
    if not (s.env == [])
    then record { configured = true; source = codes "env"; env = some s.env }
    else record { configured = not (s.value == []); source = codes "inline"; env = none }

pub record RedactedServer : Type 0 where
  pub name : Bytes
  pub type : Bytes
  pub command : Bytes
  pub args : List Bytes
  pub working_dir : Bytes
  pub url : Bytes
  pub lifecycle : LifecycleConfig
  pub tags : List Bytes
  pub enabled : Option Bool
  pub env : Option (Map RedactedSecret)
  pub headers : Option (Map RedactedSecret)

abbrev redacted_entry : Bytes × Secret → Bytes × RedactedSecret
redacted_entry e = (e.0, redacted e.1)

-- `if len(m) > 0`
unfoldable pub redacted_map : Map Secret → Option (Map RedactedSecret)
redacted_map [] = none
redacted_map (e ∷ m) = some (map redacted_entry (e ∷ m))

unfoldable pub redacted_server : Bytes → ServerConfig → RedactedServer
unfolding redacted_map
redacted_server name s = record {
  name = name;
  type = s.type;
  command = s.command;
  args = s.args;
  working_dir = s.working_dir;
  url = s.url;
  lifecycle = s.lifecycle;
  tags = s.tags;
  enabled = s.enabled;
  env = redacted_map s.env;
  headers = redacted_map s.headers;
}

-- Two secrets that differ in the inline value only, both or neither empty, or that both come from
-- the same variable.
pub record Alike (a b : Secret) : Type 0 where
  pub env : a.env ≡ b.env
  pub empty : (a.value == []) ≡ (b.value == [])

abbrev pub AlikeMaps : Map Secret → Map Secret → Type 0
AlikeMaps [] [] = Unit
AlikeMaps [] (f ∷ n) = ⊥
AlikeMaps (e ∷ m) [] = ⊥
AlikeMaps (e ∷ m) (f ∷ n) = (e.0 ≡ f.0) × Alike e.1 f.1 × AlikeMaps m n

redacted-Alike : (a b : Secret) → Alike a b → redacted a ≡ redacted b
unfolding redacted
redacted-Alike a b h = λ i.
    if not (h.env i == [])
    then record { configured = true; source = codes "env"; env = some (h.env i) }
    else record { configured = not (h.empty i); source = codes "inline"; env = none }

map-Alike : (m n : Map Secret) → AlikeMaps m n → map redacted_entry m ≡ map redacted_entry n
map-Alike [] [] h = refl
map-Alike [] (f ∷ n) h = absurd h
map-Alike (e ∷ m) [] h = absurd h
map-Alike (e ∷ m) (f ∷ n) h = cc (h.0, redacted-Alike e.1 f.1 h.1, map-Alike m n h.2)

redacted_map-Alike : (m n : Map Secret) → AlikeMaps m n → redacted_map m ≡ redacted_map n
unfolding redacted_map
redacted_map-Alike [] [] h = refl
redacted_map-Alike [] (f ∷ n) h = absurd h
redacted_map-Alike (e ∷ m) [] h = absurd h
redacted_map-Alike (e ∷ m) (f ∷ n) h = ap some (map-Alike (e ∷ m) (f ∷ n) h)

-- Two servers that differ in the inline values of their secrets only, with the same values empty,
-- are shown the same: what the API shows does not depend on a secret value.
pub redacted_server-Alike :
    (name : Bytes) (s : ServerConfig) (env headers : Map Secret)
    → AlikeMaps s.env env
    → AlikeMaps s.headers headers
    → redacted_server name s ≡ redacted_server name (record s { env = env; headers = headers })
unfolding redacted_server
redacted_server-Alike name s env headers h k =
    cc (redacted_map-Alike s.env env h, redacted_map-Alike s.headers headers k)
