-- ===== src/Mcp/Meta.antt =====
-- internal/mcp/protocol.go: what the stateless revision adds to the parameters of a request. A
-- decoded object, `map[string]any`, is a map from its keys to texts: the text of a value is what
-- encoding the decoded value again gives, so that a number's is that of its float64, and not the
-- one that was sent.
pub mod Reads
use lessen_mcp_gateway.Prelude.{
  Bytes, codes, ◌==◌, Bool, true, false, not, ◌&&◌, ◌||◌, Option, none, some, List, [], ◌∷◌,
  if◌then◌else◌, Map, lookup, insert,
}
use lessen_mcp_gateway.Errors.{Result, ok, err, ◌>>=◌}
use lessen_mcp_gateway.Model.{Raw}
use lessen_mcp_gateway.Storage.Search.{trim_space}
use lessen_mcp_gateway.Mcp.Protocol.{ClientInfo}

abbrev pub meta_protocol_version : Bytes
meta_protocol_version = codes "io.modelcontextprotocol/protocolVersion"

abbrev pub meta_client_info : Bytes
meta_client_info = codes "io.modelcontextprotocol/clientInfo"

abbrev pub meta_client_capabilities : Bytes
meta_client_capabilities = codes "io.modelcontextprotocol/clientCapabilities"

-- What encoding/json does with objects, strings and `ClientInfo`. `decode_object` may change the
-- texts of the values as decoding to `any` does, and no law is assumed of it.
pub record Json : Type 0 where
  pub decode_object : Raw → Result (Map Raw)
  pub encode_object : Map Raw → Raw
  pub encode_string : Bytes → Raw
  pub encode_info : ClientInfo → Raw

-- What `json.Marshal` makes of parameters, if there are any.
abbrev pub Params : Type 0
Params = Option (Result Raw)

module _ (json : Json) where
  -- An object, or nothing for a text that is absent or null.
  unfoldable pub object_of : Raw → Result (Map Raw)
  unfolding ◌==◌ trim_space
  object_of raw =
      if raw == [] || trim_space raw == codes "null" then ok [] else json.decode_object raw

  unfoldable pub given_params : Params → Result (Map Raw)
  unfolding object_of
  given_params none = ok []
  given_params (some (err e)) = err e
  given_params (some (ok raw)) = object_of raw

  -- `out["_meta"]`
  unfoldable pub given_meta : Map Raw → Result (Map Raw)
  unfolding object_of lookup
  given_meta out = elim (lookup (codes "_meta") out) [ none ↦ ok [] | some raw ↦ object_of raw ]

  unfoldable pub with_meta : Bytes → ClientInfo → Raw → Map Raw → Map Raw
  unfolding ◌==◌ insert
  with_meta protocol info capabilities meta =
      let versioned = insert meta_protocol_version (json.encode_string protocol) meta in
      let named =
        if not (info.name == []) || not (info.version == [])
        then insert meta_client_info (json.encode_info info) versioned
        else versioned in
      insert meta_client_capabilities capabilities named

  -- `AddRequestMeta`
  unfoldable pub add_request_meta : Params → Bytes → ClientInfo → Raw → Result (Map Raw)
  unfolding given_params given_meta with_meta insert
  add_request_meta params protocol info capabilities = do
    out ← given_params params
    meta ← given_meta out
    ok (insert (codes "_meta") (json.encode_object (with_meta protocol info capabilities meta)) out)
