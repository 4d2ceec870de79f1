-- ===== src/App/Pages.antt =====
-- The loops of `discoverTools`, `discoverResources`, `discoverResourceTemplates` and
-- `discoverPrompts` of internal/app/manager.go, which have one shape: ask for a page, take its
-- definitions up to a limit, and go on with the page's cursor until it is empty. The server's
-- answers are a parameter, a function from the cursor; Go's loop has no bound on the pages but the
-- call's timeout, so the model has fuel, a number of pages, and `none` is a loop that is still
-- running.
pub mod Complete
pub mod Owned
use lessen_mcp_gateway.Prelude.{
  ℕ, zero, suc, ◌+◌, Bytes, codes, Bool, true, false, Option, none, some, List, [], ◌∷◌, ◌++◌, map,
  if◌then◌else◌, length, leb,
}
use lessen_mcp_gateway.Errors.{Error, Result, ok, err, message}
use lessen_mcp_gateway.Model.{Raw, Time, Tool, Resource, ResourceTemplate, Prompt}
use lessen_mcp_gateway.Registry.Names.{exposed_tool_name}

-- A decoded answer of a list call: `ListToolsResult` and the like.
pub record Page (D : Type 0) : Type 0 where
  pub items : List D
  pub next_cursor : Bytes

module _ {D A : Type 0} (limit : ℕ) (convert : D → A) where
  -- `for _, def := range result.Tools`
  unfoldable pub take_defs : List D → List A → Result (List A)
  take_defs [] items = ok items
  take_defs (def ∷ defs) items =
      let rest = take_defs defs (items ++ convert def ∷ []) in
      if leb limit (length items) then err (message (codes "server exceeds its limit")) else rest

  -- One round for each page; an error of the call or of its decoding ends the loop.
  unfoldable pub discover_pages :
      ℕ → (Bytes → Result (Page D)) → Bytes → List A → Option (Result (List A))
  unfolding take_defs
  discover_pages zero call cursor items = none
  discover_pages (suc fuel) call cursor items = elim (call cursor) [
    | err e ↦ some (err e)
    | ok result ↦ elim (take_defs result.items items) [
      | err e ↦ some (err e)
      | ok items' ↦ elim result.next_cursor [
        | [] ↦ some (ok items')
        | c ∷ cursor' ↦ discover_pages fuel call (c ∷ cursor') items'
      ]
    ]
  ]

-- `mcp.ToolDefinition`
pub record ToolDefinition : Type 0 where
  pub name : Bytes
  pub title : Bytes
  pub description : Bytes
  pub input_schema : Raw
  pub output_schema : Raw
  pub annotations : Raw

-- `mcp.ResourceDefinition`
pub record ResourceDefinition : Type 0 where
  pub uri : Bytes
  pub name : Bytes
  pub title : Bytes
  pub description : Bytes
  pub mime_type : Bytes
  pub annotations : Raw

-- `mcp.ResourceTemplateDefinition`
pub record ResourceTemplateDefinition : Type 0 where
  pub uri_template : Bytes
  pub name : Bytes
  pub title : Bytes
  pub description : Bytes
  pub mime_type : Bytes
  pub annotations : Raw

-- `mcp.PromptDefinition`
pub record PromptDefinition : Type 0 where
  pub name : Bytes
  pub title : Bytes
  pub description : Bytes
  pub arguments : Raw

-- `toolHash`, over SHA-256 as hexadecimal digits.
unfoldable pub tool_hash : (Bytes → Bytes) → ToolDefinition → Bytes
tool_hash sha256 def = sha256 (
    def.name
    ++ 0 ∷ def.title
    ++ 0 ∷ def.description
    ++ def.input_schema
    ++ def.output_schema
    ++ def.annotations)

-- The discoveries of one server. The `marshal` functions are encoding/json's.
module _ (id : Bytes) (now : Time) where
  unfoldable pub tool_of : (Bytes → Bytes) → ToolDefinition → Tool
  unfolding exposed_tool_name tool_hash
  tool_of sha256 def = record {
    server_id = id;
    name = def.name;
    exposed_name = exposed_tool_name id def.name;
    title = def.title;
    description = def.description;
    input_schema = def.input_schema;
    output_schema = def.output_schema;
    annotations = def.annotations;
    schema_hash = tool_hash sha256 def;
    updated_at = now;
  }

  unfoldable pub resource_of : (ResourceDefinition → Raw) → ResourceDefinition → Resource
  resource_of marshal def = record {
    server_id = id;
    uri = def.uri;
    name = def.name;
    title = def.title;
    description = def.description;
    mime_type = def.mime_type;
    annotations = def.annotations;
    payload = marshal def;
    updated_at = now;
  }

  unfoldable pub template_of :
      (ResourceTemplateDefinition → Raw) → ResourceTemplateDefinition → ResourceTemplate
  template_of marshal def = record {
    server_id = id;
    uri_template = def.uri_template;
    name = def.name;
    title = def.title;
    description = def.description;
    mime_type = def.mime_type;
    annotations = def.annotations;
    payload = marshal def;
    updated_at = now;
  }

  unfoldable pub prompt_of : (PromptDefinition → Raw) → PromptDefinition → Prompt
  prompt_of marshal def = record {
    server_id = id;
    name = def.name;
    title = def.title;
    description = def.description;
    arguments = def.arguments;
    payload = marshal def;
    updated_at = now;
  }

module _ (id : Bytes) (now : Time) (fuel limit : ℕ) where
  unfoldable pub discover_tools :
      (Bytes → Bytes) → (Bytes → Result (Page ToolDefinition)) → Option (Result (List Tool))
  unfolding discover_pages
  discover_tools sha256 call = discover_pages limit (tool_of id now sha256) fuel call [] []

  unfoldable pub discover_resources :
      (ResourceDefinition → Raw)
      → (Bytes → Result (Page ResourceDefinition))
      → Option (Result (List Resource))
  unfolding discover_pages
  discover_resources marshal call =
      discover_pages limit (resource_of id now marshal) fuel call [] []

  unfoldable pub discover_resource_templates :
      (ResourceTemplateDefinition → Raw)
      → (Bytes → Result (Page ResourceTemplateDefinition))
      → Option (Result (List ResourceTemplate))
  unfolding discover_pages
  discover_resource_templates marshal call =
      discover_pages limit (template_of id now marshal) fuel call [] []

  unfoldable pub discover_prompts :
      (PromptDefinition → Raw)
      → (Bytes → Result (Page PromptDefinition))
      → Option (Result (List Prompt))
  unfolding discover_pages
  discover_prompts marshal call = discover_pages limit (prompt_of id now marshal) fuel call [] []
