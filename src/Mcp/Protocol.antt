-- ===== src/Mcp/Protocol.antt =====
-- internal/mcp/protocol.go: the protocol revisions, the messages, and their classification. The
-- JSON texts themselves are encoding/json's: a message is the record that it decodes to.
use lessen_mcp_gateway.Prelude.{
  Bytes, codes, ◌==◌, Bool, false, ◌||◌, Option, none, some, List, [], ◌∷◌, if◌then◌else◌,
}
use lessen_mcp_gateway.Prelude.Int.{ℤ}
use lessen_mcp_gateway.Errors.{message, Result, ok, err}
use lessen_mcp_gateway.Storage.Search.{trim_space}
use lessen_mcp_gateway.Model.{Raw}

abbrev pub jsonrpc_version : Bytes
jsonrpc_version = codes "2.0"

abbrev pub protocol_latest : Bytes
protocol_latest = codes "2026-07-28"

abbrev pub protocol_previous : Bytes
protocol_previous = codes "2025-11-25"

abbrev pub protocol_older : Bytes
protocol_older = codes "2025-06-18"

abbrev pub protocol_legacy : Bytes
protocol_legacy = codes "2024-11-05"

abbrev pub supported_protocols : List Bytes
supported_protocols = protocol_latest ∷ protocol_previous ∷ protocol_older ∷ protocol_legacy ∷ []

abbrev pub legacy_protocols : List Bytes
legacy_protocols = protocol_previous ∷ protocol_older ∷ protocol_legacy ∷ []

-- `for _, value := range values { if value == want { return true } }; return false`
unfoldable pub contains_string : List Bytes → Bytes → Bool
contains_string [] want = false
contains_string (value ∷ values) want = value == want || contains_string values want

unfoldable pub supports_protocol : Bytes → Bool
unfolding contains_string
supports_protocol value = contains_string supported_protocols value

unfoldable pub supports_legacy_protocol : Bytes → Bool
unfolding contains_string
supports_legacy_protocol value = contains_string legacy_protocols value

-- `ID`: the trimmed JSON text of an id, empty where there is none.
abbrev pub RequestId : Type 0
RequestId = Raw

-- `IsZero`
unfoldable pub is_zero : RequestId → Bool
unfolding ◌==◌
is_zero id = id == [] || id == codes "null"

pub record Request : Type 0 where
  pub jsonrpc : Bytes
  pub id : RequestId
  pub method : Bytes
  pub params : Raw

-- `Response`: a result, or an error by its code and message.
pub record Response : Type 0 where
  pub jsonrpc : Bytes
  pub id : RequestId
  pub result : Raw
  pub error : Option (ℤ × Bytes)

-- `NewResult`, `NewError` (the detail that an error may carry is left out)
unfoldable pub new_result : RequestId → Raw → Response
new_result id result = record { jsonrpc = jsonrpc_version; id = id; result = result; error = none }

unfoldable pub new_error : RequestId → ℤ → Bytes → Response
new_error id code text = record {
  jsonrpc = jsonrpc_version;
  id = id;
  result = [];
  error = some (code, text);
}

pub record ClientInfo : Type 0 where
  pub name : Bytes
  pub version : Bytes

pub record InitializeResult : Type 0 where
  pub protocol_version : Bytes
  pub capabilities : Raw
  pub server_info : ClientInfo
  pub instructions : Bytes

-- `DiscoverResult`, with what `_meta` says of the server's identity, where it can be read.
pub record DiscoverResult : Type 0 where
  pub supported_versions : List Bytes
  pub capabilities : Raw
  pub instructions : Bytes
  pub meta_server_info : Option ClientInfo
  pub server_info : ClientInfo

unfoldable pub identity : DiscoverResult → ClientInfo
identity r = elim r.meta_server_info [ some info ↦ info | none ↦ r.server_info ]

-- `ParseEnvelope`: what a text decodes to first, and then as a request or as a response.
pub record Base : Type 0 where
  pub jsonrpc : Bytes
  pub method : Bytes

pub data Envelope : Type 0 where
  request : Request → Envelope
  response : Response → Envelope

module _ (decode_base : Raw → Result Base) (decode_request : Raw → Result Request)
    (decode_response : Raw → Result Response) where
  unfoldable pub parse_envelope : Raw → Result Envelope
  unfolding ◌==◌
  parse_envelope raw = elim (decode_base raw) [
    | err e ↦ err e
    | ok base ↦
        if base.jsonrpc == jsonrpc_version
        then (if base.method == []
            then elim (decode_response raw) [ ok r ↦ ok (response r) | err e ↦ err e ]
            else elim (decode_request raw) [ ok r ↦ ok (request r) | err e ↦ err e ])
        else err (message (codes "unsupported jsonrpc version"))
  ]

pub record RequestMeta : Type 0 where
  pub protocol_version : Bytes
  pub client_info : Option ClientInfo
  pub client_capabilities : Raw

abbrev no_meta : RequestMeta
no_meta = record { protocol_version = []; client_info = none; client_capabilities = [] }

-- `decode_params` is the text of `_meta` in an object, empty where there is none.
module _ (decode_params : Raw → Result Raw) (decode_meta : Raw → Result RequestMeta) where
  unfoldable pub parse_request_meta : Raw → Result RequestMeta
  unfolding ◌==◌ trim_space
  parse_request_meta params =
      if trim_space params == [] then ok no_meta else elim (decode_params params) [
        | err e ↦ err e
        | ok meta ↦
            if trim_space meta == [] || trim_space meta == codes "null"
            then ok no_meta
            else decode_meta meta
      ]

  unfoldable pub request_protocol : Raw → Bytes
  unfolding parse_request_meta
  request_protocol params = elim (parse_request_meta params) [
    | err e ↦ []
    | ok meta ↦ meta.protocol_version
  ]

  unfoldable pub is_modern_request : Bytes → Raw → Bool
  unfolding ◌==◌ request_protocol
  is_modern_request method params =
      method == codes "server/discover" || request_protocol params == protocol_latest
