-- ===== src/Transport/StreamableHttp/Events.antt =====
-- internal/transport/streamable_http.go: the answer to a request, in a JSON body or in an event
-- stream. The loop over events runs on fuel, one unit for an event.
use lessen_mcp_gateway.Prelude.{
  ℕ, zero, suc, Bytes, codes, ◌==◌, Option, none, some, [], if◌then◌else◌, length,
}
use lessen_mcp_gateway.Prelude.Int.{ℤ, add_int}
use lessen_mcp_gateway.Errors.{Error, Context, Result, ok, err, message}
use lessen_mcp_gateway.Model.{Raw}
use lessen_mcp_gateway.Mcp.Protocol.{RequestId, request, response, parse_envelope}
use lessen_mcp_gateway.Transport.Sse.{SseEvent, read_sse}
use lessen_mcp_gateway.Transport.Stdio.{outcome}
use lessen_mcp_gateway.Transport.StreamableHttp.{StreamableHttpClient, Body, limit_reader}
use lessen_mcp_gateway.Transport.StreamableHttp.Exchange.{Http}

module _ (h : Http) where
  -- `decodeRPCResult`
  unfoldable pub decode_rpc_result : Bytes → RequestId → Result Raw
  unfolding parse_envelope ◌==◌
  decode_rpc_result bytes id =
      elim (parse_envelope h.decode_base h.decode_request h.decode_response bytes) [
        | err e ↦ err e
        | ok (request r) ↦ err (message (codes "MCP response is not a JSON-RPC response"))
        | ok (response r) ↦
            if r.id == id
            then outcome r
            else err (message (codes "MCP response id does not match request id"))
      ]

  -- One event in `readSSEForID`: the answer, or nothing where the loop goes on.
  unfoldable pub select_answer : RequestId → SseEvent → Option (Result Raw)
  unfolding parse_envelope ◌==◌
  select_answer id event =
      if event.data_bytes == []
      then none
      else elim (parse_envelope h.decode_base h.decode_request h.decode_response event.data_bytes) [
        | err e ↦ none
        | ok (request r) ↦ none
        | ok (response r) ↦ if r.id == id then some (outcome r) else none
      ]

  -- `readSSEForID`. `ctx` is asked before each event, and numbered by the fuel that is left.
  unfoldable pub read_events :
      ℕ → (ℕ → Context) → Error → ℤ → Bytes → RequestId → Option (Result Raw)
  unfolding read_sse select_answer
  read_events zero ctx ends_with limit stream id = none
  read_events (suc fuel) ctx ends_with limit stream id = elim (ctx fuel) [
    | some e ↦ some (err e)
    | none ↦ elim (read_sse h.scan_int ends_with limit (suc (length stream)) stream) [
      | none ↦ none
      | some (err e, rest) ↦ some (err e)
      | some (ok event, rest) ↦ elim (select_answer id event) [
        | some answer ↦ some answer
        | none ↦ read_events fuel ctx ends_with limit rest id
      ]
    ]
  ]

  unfoldable pub read_sse_for_id :
      ℕ → (ℕ → Context) → Body → RequestId → StreamableHttpClient → Option (Result Raw)
  unfolding read_events limit_reader
  read_sse_for_id fuel ctx b id c =
      let limited = limit_reader b (add_int c.opts.max_response_bytes 1) in
      read_events fuel ctx limited.ends_with c.opts.max_response_bytes limited.bytes id
