-- ===== src/Gateway/Methods.antt =====
-- The methods of internal/gateway/gateway.go, over what they ask of the manager (Backing) and of
-- encoding/json and strconv (Texts). The state is the manager's.
pub mod Cursors
use lessen_mcp_gateway.Prelude.{
  ℕ, ◌+◌, Bytes, codes, ◌==◌, Bool, true, false, Option, none, some, List, [], ◌∷◌, ◌++◌, map,
  if◌then◌else◌, length, Map,
}
use lessen_mcp_gateway.Prelude.Int.{ℤ, pos, neg, add_int, clip}
use lessen_mcp_gateway.Errors.{Error, Context, Result, ok, err, rpc, message, ◌>>=◌}
use lessen_mcp_gateway.Model.{Raw, Tool, Resource, ResourceTemplate, Prompt}
use lessen_mcp_gateway.Config.Validate.{below}
use lessen_mcp_gateway.Mcp.Protocol.{
  supports_legacy_protocol, supported_protocols, protocol_previous,
}
use lessen_mcp_gateway.Storage.Interface.{Rows}
use lessen_mcp_gateway.Registry.Names.{exposed_tool_name, parse_exposed_tool_name}
use lessen_mcp_gateway.App.Pages.{ToolDefinition}
use lessen_mcp_gateway.Gateway.Uris.{
  Urls, encode_resource_uri, encode_resource_template_uri, decode_resource_uri,
}

-- What the gateway calls of the manager; `call_server` takes the parameters as an object of texts.
pub record Backing (M : Type 0) : Type 0 where
  pub list_tools_page : M → Context → Bytes → ℤ → ℤ → Rows Tool
  pub list_resources : M → Context → Bytes → ℤ → ℤ → Rows Resource
  pub list_resource_templates : M → Context → Bytes → ℤ → ℤ → Rows ResourceTemplate
  pub list_prompts : M → Context → Bytes → ℤ → ℤ → Rows Prompt
  pub call_tool : M → Context → Bytes → Raw → M × Result Raw
  pub call_server : M → Context → Bytes → Bytes → Map Raw → M × Result Raw

-- A resource, a template or a prompt as it is listed; `payload` is the text of the annotations or
-- of the arguments, empty where there is none that can be read.
pub record Entry : Type 0 where
  pub name : Bytes
  pub uri : Bytes
  pub title : Bytes
  pub description : Bytes
  pub mime_type : Bytes
  pub payload : Raw

-- An element of the list `contents` of a result: its `uri`, where it is an object that has a string
-- there, and the rest of it.
pub record Content : Type 0 where
  pub uri : Option Bytes
  pub rest : Raw

-- `nextCursor`, where there is one.
pub record Listed (D : Type 0) : Type 0 where
  pub items : List D
  pub next_cursor : Option Bytes

-- `json.Marshal` and `json.Unmarshal` of the values that the methods use, `strconv.Atoi` with the
-- number that it gives with an error, and `strconv.Itoa`. `decode_optional` is empty for what is no
-- JSON. `decode_contents` is the list `contents` of an object, if it has one, and `encode_contents`
-- an object with another such list.
pub record Texts : Type 0 where
  pub cursor_of : Raw → Bytes
  pub protocol_of : Raw → Bytes
  pub call_of : Raw → Result (Bytes × Raw)
  pub uri_of : Raw → Result Bytes
  pub prompt_of : Raw → Result (Bytes × Raw)
  pub atoi : Bytes → ℤ
  pub itoa : ℤ → Bytes
  pub encode_string : Bytes → Raw
  pub decode_optional : Raw → Raw
  pub encode_tools : Listed ToolDefinition → Result Raw
  pub encode_entries : Bytes → Listed Entry → Result Raw
  pub encode_discover : List Bytes → Result Raw
  pub encode_initialize : Bytes → Bytes → Bytes → Result Raw
  pub decode_contents : Raw → Result (Option (List Content))
  pub encode_contents : Raw → List Content → Result Raw

abbrev pub page_size : ℤ
page_size = pos 200

unfoldable pub default_object_schema : Raw → Raw
default_object_schema [] = codes "{\"type\":\"object\",\"properties\":{}}"
default_object_schema (c ∷ raw) = c ∷ raw

unfoldable pub prefix_description : Bytes → Bytes → Bytes
prefix_description server_id [] = codes "[" ++ server_id ++ codes "]"
prefix_description server_id (c ∷ description) =
    codes "[" ++ server_id ++ codes "] " ++ c ∷ description

-- The definition that `listTools` makes of a tool.
unfoldable pub definition_of : Tool → ToolDefinition
unfolding default_object_schema
definition_of tool = record {
  name = tool.exposed_name;
  title = tool.title;
  description = elim tool.description [
    | [] ↦ []
    | c ∷ text ↦ codes "[" ++ tool.server_id ++ codes "] " ++ c ∷ text
  ];
  input_schema = default_object_schema tool.input_schema;
  output_schema = tool.output_schema;
  annotations = tool.annotations;
}

module _ {M : Type 0} (backing : Backing M) (texts : Texts) (urls : Urls) where
  -- `cursorOffset`
  unfoldable pub cursor_offset : Raw → ℕ
  cursor_offset [] = 0
  cursor_offset (c ∷ params) = clip (texts.atoi (texts.cursor_of (c ∷ params)))

  -- `if offset+len(items) < total { result["nextCursor"] = strconv.Itoa(offset + len(items)) }`
  unfoldable pub next_cursor : ℕ → ℕ → ℕ → Option Bytes
  next_cursor offset count total =
      let next = add_int (pos offset) count in
      if below next total then some (texts.itoa next) else none

  abbrev pub listed : {A D : Type 0} → (A → D) → ℕ → List A × ℕ → Listed D
  listed convert offset (items, total) = record {
    items = map convert items;
    next_cursor = next_cursor offset (length items) total;
  }

  -- The page of `listTools`, before it is encoded.
  unfoldable pub tools_page : M → Context → Raw → Result (Listed ToolDefinition)
  unfolding cursor_offset next_cursor definition_of
  tools_page m ctx params =
      let offset = cursor_offset params in
      backing.list_tools_page m ctx [] page_size (pos offset) >>= λ page.
      ok (listed definition_of offset page)

  unfoldable pub list_tools : M → Context → Raw → Result Raw
  unfolding tools_page
  list_tools m ctx params = tools_page m ctx params >>= texts.encode_tools

  unfoldable pub resource_entry : Resource → Entry
  unfolding encode_resource_uri prefix_description
  resource_entry item = record {
    name = item.name;
    uri = encode_resource_uri urls item.server_id item.uri;
    title = item.title;
    description = prefix_description item.server_id item.description;
    mime_type = item.mime_type;
    payload = texts.decode_optional item.annotations;
  }

  unfoldable pub template_entry : ResourceTemplate → Entry
  unfolding encode_resource_template_uri prefix_description
  template_entry item = record {
    name = item.name;
    uri = encode_resource_template_uri urls item.server_id item.uri_template;
    title = item.title;
    description = prefix_description item.server_id item.description;
    mime_type = item.mime_type;
    payload = texts.decode_optional item.annotations;
  }

  unfoldable pub prompt_entry : Prompt → Entry
  unfolding exposed_tool_name prefix_description
  prompt_entry item = record {
    name = exposed_tool_name item.server_id item.name;
    uri = [];
    title = item.title;
    description = prefix_description item.server_id item.description;
    mime_type = [];
    payload = texts.decode_optional item.arguments;
  }

  unfoldable pub list_resources : M → Context → Raw → Result Raw
  unfolding cursor_offset next_cursor resource_entry
  list_resources m ctx params =
      let offset = cursor_offset params in
      backing.list_resources m ctx [] page_size (pos offset) >>= λ page.
      texts.encode_entries (codes "resources") (listed resource_entry offset page)

  unfoldable pub list_resource_templates : M → Context → Raw → Result Raw
  unfolding cursor_offset next_cursor template_entry
  list_resource_templates m ctx params =
      let offset = cursor_offset params in
      backing.list_resource_templates m ctx [] page_size (pos offset) >>= λ page.
      texts.encode_entries (codes "resourceTemplates") (listed template_entry offset page)

  unfoldable pub list_prompts : M → Context → Raw → Result Raw
  unfolding cursor_offset next_cursor prompt_entry
  list_prompts m ctx params =
      let offset = cursor_offset params in
      backing.list_prompts m ctx [] page_size (pos offset) >>= λ page.
      texts.encode_entries (codes "prompts") (listed prompt_entry offset page)
