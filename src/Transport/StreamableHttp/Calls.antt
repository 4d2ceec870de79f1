-- ===== src/Transport/StreamableHttp/Calls.antt =====
-- internal/transport/streamable_http.go: the calls of the client.
use lessen_mcp_gateway.Prelude.{
  ℕ, ◌+◌, ◌%◌, ◌^◌, Bytes, codes, ◌==◌, ltb, leb, Bool, true, not, ◌&&◌, ◌||◌, Option, some, [],
  if◌then◌else◌,
}
use lessen_mcp_gateway.Errors.{Context, Result, ok, err, message, ◌>>=◌}
use lessen_mcp_gateway.Model.{Raw}
use lessen_mcp_gateway.Mcp.Protocol.{RequestId, protocol_latest}
use lessen_mcp_gateway.Transport.StreamableHttp.{StreamableHttpClient, HttpResponse, read_limited}
use lessen_mcp_gateway.Transport.StreamableHttp.Exchange.{
  Http, Params, new_request, request_name, post, capture_session, http_error,
}
use lessen_mcp_gateway.Transport.StreamableHttp.Events.{decode_rpc_result, read_sse_for_id}

abbrev pub is_success : ℕ → Bool
is_success status = leb 200 status && ltb status 300

module _ (h : Http) where
  -- What `Call` reads in a response; `polls` is what the context says before each event.
  unfoldable pub read_answer :
      ℕ → (ℕ → Context) → HttpResponse → RequestId → StreamableHttpClient → Option (Result Raw)
  unfolding ◌==◌ read_limited decode_rpc_result read_sse_for_id http_error
  read_answer fuel polls r id c =
      if not (is_success r.status)
      then some (err (http_error h r))
      else if r.media_type == codes "text/event-stream"
      then read_sse_for_id h fuel polls r.body id c
      else if r.media_type == codes "application/json"
          || r.media_type == codes "application/json-rpc"
          || r.media_type == []
      then some
          (read_limited r.body c.opts.max_response_bytes >>= λ bytes. decode_rpc_result h bytes id)
      else some (err (message (codes "unexpected MCP content type")))

  unfoldable pub call :
      ℕ
      → (ℕ → Context)
      → Context
      → Bytes
      → Params
      → StreamableHttpClient
      → StreamableHttpClient × Option (Result Raw)
  unfolding new_request request_name post capture_session read_answer
  call fuel polls ctx method params c =
      let c1 = record c { next_id = (c.next_id + 1) % 2 ^ 64 } in
      let id = h.format_uint c1.next_id in
      elim (new_request h id method params) [
        | err e ↦ (c1, some (err e))
        | ok payload ↦ elim (post h ctx method (request_name h method params) payload c1) [
          | err e ↦ (c1, some (err e))
          | ok r ↦ let c2 = capture_session h r c1 in (c2, read_answer fuel polls r id c2)
        ]
      ]

  unfoldable pub notify :
      Context → Bytes → Params → StreamableHttpClient → StreamableHttpClient × Result (Unit {0})
  unfolding new_request request_name post capture_session http_error
  notify ctx method params c = elim (new_request h [] method params) [
    | err e ↦ (c, err e)
    | ok payload ↦ elim (post h ctx method (request_name h method params) payload c) [
      | err e ↦ (c, err e)
      | ok r ↦ (capture_session h r c, if is_success r.status then ok tt else err (http_error h r))
    ]
  ]

-- `Close`
unfoldable pub close : StreamableHttpClient → StreamableHttpClient
close c = record c { closed = true }

-- `SetProtocolVersion`
unfoldable pub set_protocol_version : Bytes → StreamableHttpClient → StreamableHttpClient
unfolding ◌==◌
set_protocol_version version c = if version == [] then c else record c {
  opts = record c.opts { protocol_version = version };
  session_id = (if version == protocol_latest then [] else c.session_id);
}
