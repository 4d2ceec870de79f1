-- ===== src/Gateway/Dispatch.antt =====
-- `dispatch` of internal/gateway/gateway.go, and the methods that call a server.
pub mod Routes
use lessen_mcp_gateway.Prelude.{
  Bytes, Option, some, none, List, map, codes, ◌==◌, ◌||◌, [], ◌∷◌, ◌++◌, if◌then◌else◌,
}
use lessen_mcp_gateway.Prelude.Int.{neg}
use lessen_mcp_gateway.Errors.{Error, Context, Result, ok, err, rpc}
use lessen_mcp_gateway.Model.{Raw}
use lessen_mcp_gateway.Mcp.Protocol.{
  supports_legacy_protocol, supported_protocols, protocol_previous,
}
use lessen_mcp_gateway.Registry.Names.{parse_exposed_tool_name}
use lessen_mcp_gateway.Gateway.Uris.{Urls, encode_resource_uri, decode_resource_uri}
use lessen_mcp_gateway.Gateway.Methods.{
  Backing, Texts, Content, list_tools, list_resources, list_resource_templates, list_prompts,
}

-- `&mcp.RPCError{Code: -32602, Message: text}`
abbrev pub bad_params : Bytes → Error
bad_params text = rpc (neg 32602) text

module _ {M : Type 0} (backing : Backing M) (texts : Texts) (urls : Urls)
    (error_text : Error → Bytes) (name version : Bytes) where
  unfoldable pub initialize : Raw → Result Raw
  unfolding supports_legacy_protocol
  initialize params =
      let requested : Bytes = elim params [ [] ↦ [] | c ∷ text ↦ texts.protocol_of (c ∷ text) ] in
      let protocol = if supports_legacy_protocol requested then requested else protocol_previous in
      texts.encode_initialize protocol name version

  unfoldable pub call_tool : M → Context → Raw → M × Result Raw
  call_tool m ctx params = elim (texts.call_of params) [
    | err e ↦ (m, err (bad_params (codes "invalid tools/call parameters")))
    | ok (tool, arguments) ↦ elim tool [
      | [] ↦ (m, err (bad_params (codes "tool name is required")))
      | c ∷ rest ↦ backing.call_tool m ctx (c ∷ rest) arguments
    ]
  ]

  unfoldable pub rewrite_uri : Bytes → Content → Content
  unfolding encode_resource_uri
  rewrite_uri server_id item = elim item.uri [
    | none ↦ item
    | some [] ↦ item
    | some (c ∷ uri) ↦ record item { uri = some (encode_resource_uri urls server_id (c ∷ uri)) }
  ]

  unfoldable pub rewrite_resource_result_uris : Bytes → Raw → Result Raw
  unfolding rewrite_uri
  rewrite_resource_result_uris server_id raw = elim (texts.decode_contents raw) [
    | err e ↦ err e
    | ok none ↦ ok raw
    | ok (some contents) ↦ texts.encode_contents raw (map (rewrite_uri server_id) contents)
  ]

  unfoldable pub read_resource : M → Context → Raw → M × Result Raw
  unfolding decode_resource_uri rewrite_resource_result_uris
  read_resource m ctx params = elim (texts.uri_of params) [
    | err e ↦ (m, err (bad_params (codes "resource URI is required")))
    | ok [] ↦ (m, err (bad_params (codes "resource URI is required")))
    | ok (c ∷ uri) ↦ elim (decode_resource_uri urls (c ∷ uri)) [
      | err e ↦ (m, err (bad_params (error_text e)))
      | ok (server_id, original) ↦
          let (m', reply) =
            backing.call_server m ctx server_id (codes "resources/read")
              ((codes "uri", texts.encode_string original) ∷ []) in
          elim reply [
            | err e ↦ (m', err e)
            | ok result ↦ (m', rewrite_resource_result_uris server_id result)
          ]
    ]
  ]

  unfoldable pub get_prompt : M → Context → Raw → M × Result Raw
  unfolding parse_exposed_tool_name
  get_prompt m ctx params = elim (texts.prompt_of params) [
    | err e ↦ (m, err (bad_params (codes "invalid prompts/get parameters")))
    | ok (exposed, arguments) ↦ elim (parse_exposed_tool_name exposed) [
      | err e ↦ (m, err (bad_params (error_text e)))
      | ok (server_id, prompt) ↦
          backing.call_server m ctx server_id (codes "prompts/get")
            ((codes "name", texts.encode_string prompt) ∷ (codes "arguments", arguments) ∷ [])
    ]
  ]

  unfoldable pub dispatch : M → Context → Bytes → Raw → M × Result Raw
  unfolding ◌==◌ initialize call_tool read_resource get_prompt list_tools list_resources
      list_resource_templates list_prompts
  dispatch m ctx method params =
      if method == codes "server/discover"
      then (m, texts.encode_discover supported_protocols)
      else if method == codes "initialize"
      then (m, initialize params)
      else if method == codes "ping"
      then (m, ok (codes "{}"))
      else if method == codes "tools/list"
      then (m, list_tools backing texts urls m ctx params)
      else if method == codes "tools/call"
      then call_tool m ctx params
      else if method == codes "resources/list"
      then (m, list_resources backing texts urls m ctx params)
      else if method == codes "resources/templates/list"
      then (m, list_resource_templates backing texts urls m ctx params)
      else if method == codes "resources/read"
      then read_resource m ctx params
      else if method == codes "prompts/list"
      then (m, list_prompts backing texts urls m ctx params)
      else if method == codes "prompts/get"
      then get_prompt m ctx params
      else if method == codes "notifications/initialized"
          || method == codes "notifications/cancelled"
      then (m, ok (codes "{}"))
      else (m, err (rpc (neg 32601) (codes "method not found: " ++ method)))
