-- ===== src/Transport/StreamableHttp/Exchange.antt =====
-- internal/transport/streamable_http.go: what a request carries, and what its response changes.
use lessen_mcp_gateway.Prelude.{
  ℕ, Bytes, codes, ◌==◌, not, ◌&&◌, ◌||◌, Option, none, some, [], ◌∷◌, ◌++◌, if◌then◌else◌, Map,
  insert, lookup,
}
use lessen_mcp_gateway.Prelude.Int.{ℤ, pos}
use lessen_mcp_gateway.Errors.{Error, Context, Result, ok, err, message, ◌>>=◌}
use lessen_mcp_gateway.Model.{Raw}
use lessen_mcp_gateway.Mcp.Protocol.{
  Base, Request, Response, RequestId, jsonrpc_version, protocol_latest,
}
use lessen_mcp_gateway.Storage.Search.{trim_space}
use lessen_mcp_gateway.Transport.StreamableHttp.{
  StreamableHttpClient, HttpRequest, HttpResponse, read_limited,
}

-- What the client asks of the standard library: `canonical` is the spelling of a header's key, and
-- the decoders are encoding/json's.
pub record Http : Type 0 where
  pub canonical : Bytes → Bytes
  pub do_request : Context → HttpRequest → Result HttpResponse
  pub status_text : ℕ → Bytes
  pub format_uint : ℕ → Bytes
  pub scan_int : Bytes → ℤ → ℤ
  pub encode : Request → Result Bytes
  pub decode_base : Raw → Result Base
  pub decode_request : Raw → Result Request
  pub decode_response : Raw → Result Response
  pub decode_object : Raw → Result (Map Raw)
  pub decode_string : Raw → Bytes

-- What `json.Marshal` makes of the parameters, if there are any.
abbrev pub Params : Type 0
Params = Option (Result Raw)

abbrev marshal : Params → Result Raw
marshal none = ok []
marshal (some encoded) = encoded

module _ (h : Http) where
  -- `NewRequest`, and `NewNotification` with an empty identity
  unfoldable pub new_request : RequestId → Bytes → Params → Result Bytes
  new_request id method params = do
    raw ← marshal params
    h.encode (record { jsonrpc = jsonrpc_version; id = id; method = method; params = raw })

  -- `RequestName` of package mcp
  unfoldable pub request_name_of : Bytes → Raw → Bytes
  unfolding ◌==◌ lookup
  request_name_of method params = elim (h.decode_object params) [
    | err e ↦ []
    | ok input ↦
        let value : Bytes → Bytes = λ key. elim (lookup key input) [
          | none ↦ h.decode_string []
          | some raw ↦ h.decode_string raw
        ] in
        if method == codes "tools/call" || method == codes "prompts/get"
        then value (codes "name")
        else if method == codes "resources/read"
        then value (codes "uri")
        else []
  ]

  unfoldable pub request_name : Bytes → Params → Bytes
  unfolding request_name_of
  request_name method none = []
  request_name method (some (err e)) = []
  request_name method (some (ok raw)) = request_name_of method raw

  -- `req.Header.Set`
  abbrev pub set_header : Bytes → Bytes → Map Bytes → Map Bytes
  set_header key value headers = insert (h.canonical key) value headers

  abbrev pub set_all : Map Bytes → Map Bytes → Map Bytes
  set_all [] headers = headers
  set_all ((key, value) ∷ more) headers = set_all more (set_header key value headers)

  -- The headers of `post`, in the order in which it sets them.
  unfoldable pub post_headers : StreamableHttpClient → Bytes → Bytes → Map Bytes
  unfolding ◌==◌
  post_headers c method name =
      let basic = set_header (codes "Mcp-Method") method (
        set_header (codes "MCP-Protocol-Version") c.opts.protocol_version (
          set_header (codes "Accept") (codes "application/json, text/event-stream")
            (set_header (codes "Content-Type") (codes "application/json") []))) in
      let named = if name == [] then basic else set_header (codes "Mcp-Name") name basic in
      let in_session =
        if not (c.session_id == []) && not (c.opts.protocol_version == protocol_latest)
        then set_header (codes "Mcp-Session-Id") c.session_id named
        else named in
      set_all c.opts.headers in_session

  unfoldable pub post : Context → Bytes → Bytes → Bytes → StreamableHttpClient → Result HttpResponse
  unfolding post_headers
  post ctx method name payload c =
      if c.closed
      then err (message (codes "streamable HTTP client is closed"))
      else h.do_request ctx
          (record { url = c.opts.url; headers = post_headers c method name; body = payload })

  unfoldable pub capture_session : HttpResponse → StreamableHttpClient → StreamableHttpClient
  unfolding ◌==◌
  capture_session r c =
      if c.opts.protocol_version == protocol_latest || r.session == []
      then c
      else record c { session_id = r.session }

  unfoldable pub http_error : HttpResponse → Error
  unfolding read_limited trim_space ◌==◌
  http_error r =
      let said : Bytes = elim (read_limited r.body (pos 16384)) [
        | ok bytes ↦ trim_space bytes
        | err e ↦ []
      ] in
      let text = if said == [] then h.status_text r.status else said in
      message (codes "MCP HTTP " ++ h.format_uint r.status ++ codes ": " ++ text)
