-- ===== src/App/Discover.antt =====
-- `Discover` and `DiscoverAll` of internal/app/manager.go. The contexts are given as for a call,
-- and what the server answers to its list calls is a parameter, as in Pages. `decode` reads the
-- keys of an object. `none`: a listing that is still going on when the fuel, a number of pages, is
-- used up.
pub mod Keeps
pub mod Ends
use lessen_mcp_gateway.Prelude.{
  ℕ, Bytes, codes, Bool, true, false, not, Option, none, some, List, [], ◌∷◌, ◌++◌, if◌then◌else◌,
  length, map,
}
use lessen_mcp_gateway.Prelude.Int.{ℤ, clip}
use lessen_mcp_gateway.Errors.{Error, Context, Result, ok, err, message}
use lessen_mcp_gateway.Model.{
  Raw, Time, Server, HealthStatus, Tool, Resource, ResourceTemplate, Prompt,
}
use lessen_mcp_gateway.Mcp.Protocol.{InitializeResult}
use lessen_mcp_gateway.Storage.Interface.{Store, Done}
use lessen_mcp_gateway.Registry.{
  Registry, replace_tools, replace_resources, replace_resource_templates, replace_prompts,
  get_server, upsert_server,
}
use lessen_mcp_gateway.App.Client.{Client, Backend}
use lessen_mcp_gateway.App.Handshake.{ensure_initialized}
use lessen_mcp_gateway.App.Pages.{
  Page, ToolDefinition, ResourceDefinition, ResourceTemplateDefinition, PromptDefinition,
  discover_tools, discover_resources, discover_resource_templates, discover_prompts,
}
use lessen_mcp_gateway.App.Apply.{Manager, is_enabled}
use lessen_mcp_gateway.App.Status.{mark_error, supports_capability}
use lessen_mcp_gateway.App.Calls.{Moment, find_backend, put_backend}

-- The answers of a server to the list calls, by cursor.
pub record Listing : Type 0 where
  pub tools : Bytes → Result (Page ToolDefinition)
  pub resources : Bytes → Result (Page ResourceDefinition)
  pub templates : Bytes → Result (Page ResourceTemplateDefinition)
  pub prompts : Bytes → Result (Page PromptDefinition)

-- SHA-256 and encoding/json.
pub record Encoders : Type 0 where
  pub sha256 : Bytes → Bytes
  pub resource : ResourceDefinition → Raw
  pub template : ResourceTemplateDefinition → Raw
  pub prompt : PromptDefinition → Raw
  pub decode : Raw → Result (List Bytes)

pub record Found : Type 0 where
  pub tools : List Tool
  pub resources : List Resource
  pub templates : List ResourceTemplate
  pub prompts : List Prompt

-- A listing whose error is only logged: it counts as empty.
unfoldable pub or_empty {ℓ} : {A : Type ℓ} → Option (Result (List A)) → Option (List A)
or_empty none = none
or_empty (some (err e)) = some []
or_empty (some (ok items)) = some items

-- `if supportsCapability(…) { … }`
abbrev pub listed_if {ℓ} : {A : Type ℓ} → Bool → Option (Result (List A)) → Option (Result (List A))
listed_if supported listing = if supported then listing else some (ok [])

-- The lists, once no listing is still going on.
abbrev pub gather :
    List Tool
    → Option (List Resource)
    → Option (List ResourceTemplate)
    → Option (List Prompt)
    → Option Found
gather tools none templates prompts = none
gather tools (some resources) none prompts = none
gather tools (some resources) (some templates) none = none
gather tools (some resources) (some templates) (some prompts) =
    some (record { tools = tools; resources = resources; templates = templates; prompts = prompts })

module _ {C S : Type 0} (client : Client C) (store : Store S) (encoders : Encoders)
    (error_text : Error → Bytes) (at : Moment) (fuel : ℕ) where
  -- What is found, once the tools are.
  unfoldable pub find_others : Manager C S → Bytes → Listing → Raw → List Tool → Option Found
  unfolding or_empty supports_capability discover_resources discover_resource_templates
      discover_prompts
  find_others m id listing capabilities tools =
      let limits = m.cfg.discovery in
      let has_resources = supports_capability encoders.decode capabilities (codes "resources") in
      let has_prompts = supports_capability encoders.decode capabilities (codes "prompts") in
      let resources = or_empty (
        listed_if has_resources (
          discover_resources id at.now fuel (clip limits.max_resources_per_server) encoders.resource
            listing.resources)) in
      let templates = or_empty (
        listed_if has_resources (
          discover_resource_templates id at.now fuel (clip limits.max_resources_per_server)
            encoders.template listing.templates)) in
      let prompts = or_empty (
        listed_if has_prompts (
          discover_prompts id at.now fuel (clip limits.max_prompts_per_server) encoders.prompt
            listing.prompts)) in
      gather tools resources templates prompts

  -- The four replacements, which end at the first error.
  unfoldable pub replace_all : Registry S → Bytes → Found → Registry S × Done
  unfolding replace_tools replace_resources replace_resource_templates replace_prompts
  replace_all r id found =
      let (r1, done1) = replace_tools store r at.ctx id found.tools in
      let (r2, done2) = replace_resources store r1 at.ctx id found.resources in
      let (r3, done3) = replace_resource_templates store r2 at.ctx id found.templates in
      let (r4, done4) = replace_prompts store r3 at.ctx id found.prompts in
      elim done1 [
        | err e ↦ (r1, err e)
        | ok _ ↦ elim done2 [
          | err e ↦ (r2, err e)
          | ok _ ↦ elim done3 [ err e ↦ (r3, err e) | ok _ ↦ (r4, done4) ]
        ]
      ]

  -- The record of the server after a discovery.
  unfoldable pub discovered : Backend C → InitializeResult → Found → Server → Server
  discovered b result found server = record server {
    status = HealthStatus.healthy;
    status_message = codes "discovery complete";
    protocol_version = result.protocol_version;
    server_version = result.server_info.version;
    capabilities = result.capabilities;
    tool_count = length found.tools;
    resource_count = length found.resources;
    resource_template_count = length found.templates;
    prompt_count = length found.prompts;
    last_discovered_at = at.now;
    last_health_check = at.now;
    connected_since = b.connected_since;
  }

  unfoldable pub store_found :
      Registry S → Bytes → Backend C → InitializeResult → Found → Registry S × Done
  unfolding replace_all discovered get_server upsert_server
  store_found r id b result found =
      let (r', done) = replace_all r id found in
      elim done [
        | err e ↦ (r', err e)
        | ok _ ↦ elim (get_server store r' at.ctx id) [
          | err e ↦ (r', err e)
          | ok server ↦ upsert_server store r' at.ctx (discovered b result found server)
        ]
      ]

  abbrev pub failed : Manager C S → Bytes → HealthStatus → Error → Manager C S × Done
  failed m id status e =
      (record m { registry = mark_error store error_text at.now m.registry id status e }, err e)

  unfoldable pub discover_with :
      Manager C S → Bytes → Backend C → InitializeResult → Listing → Option (Manager C S × Done)
  unfolding find_others store_found mark_error supports_capability discover_tools
  discover_with m id b result listing =
      elim (listed_if (supports_capability encoders.decode result.capabilities (codes "tools")) (
        discover_tools id at.now fuel (clip m.cfg.discovery.max_tools_per_server) encoders.sha256
          listing.tools)) [
            | none ↦ none
            | some (err e) ↦ some (failed m id HealthStatus.degraded e)
            | some (ok tools) ↦ elim (find_others m id listing result.capabilities tools) [
              | none ↦ none
              | some found ↦
                  let (r, done) = store_found m.registry id b result found in
                  some (record m { registry = r }, done)
            ]
          ]

  -- `Discover`; `begun` is what its own context says at first.
  unfoldable pub discover : Context → Manager C S → Bytes → Listing → Option (Manager C S × Done)
  unfolding ensure_initialized discover_with mark_error is_enabled
  discover begun m id listing = elim (find_backend m id) [
    | err e ↦ some (m, err e)
    | ok b ↦ elim begun [
      | some e ↦ some (m, err e)
      | none ↦
          if not (is_enabled b.cfg)
          then some (m, err (message (codes "server is disabled")))
          else let (b', ready) = ensure_initialized client at.ctx at.after_probe at.now b in
            let m' = put_backend id b' m in
            elim ready [
              | err e ↦ some (failed m' id HealthStatus.unhealthy e)
              | ok result ↦ discover_with m' id b' result listing
            ]
    ]
  ]
