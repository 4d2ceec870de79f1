-- ===== src/Transport/LegacySse/Loop.antt =====
-- internal/transport/legacy_sse.go: the request of `post`, and what `streamLoop` makes of its
-- stream. net/http and net/url are parameters: `no_content` is the test for a response without a
-- body, `wrap` is fmt.Errorf with a prefix and `%w`, `quote` is `%q`, `check_request` is the
-- refusal of http.NewRequestWithContext, and `parse_url` and `resolve_reference` are package
-- net/url's.
use lessen_mcp_gateway.Prelude.{
  Bytes, codes, ◌==◌, has_prefix, Bool, not, ◌&&◌, ◌||◌, Option, none, some, [], ◌∷◌, ◌++◌,
  if◌then◌else◌, ltb, nat_eq,
}
use lessen_mcp_gateway.Prelude.Int.{pos}
use lessen_mcp_gateway.Errors.{Error, Context, Result, ok, err, message}
use lessen_mcp_gateway.Mcp.Protocol.{Response, request, response, parse_envelope}
use lessen_mcp_gateway.Storage.Search.{trim_space}
use lessen_mcp_gateway.Transport.Sse.{SseEvent}
use lessen_mcp_gateway.Transport.Stdio.{Incoming, discards, classify}
use lessen_mcp_gateway.Transport.StreamableHttp.{HttpOptions, HttpResponse, read_limited}
use lessen_mcp_gateway.Transport.StreamableHttp.Exchange.{Http, set_header, set_all}

-- `looksLikeEndpoint`
unfoldable pub looks_like_endpoint : Bytes → Bool
unfolding has_prefix trim_space
looks_like_endpoint value =
    let text = trim_space value in
    has_prefix text (codes "http://")
    || has_prefix text (codes "https://")
    || has_prefix text (codes "/")

-- What an event makes the loop do.
pub data Reaction : Type 0 where
  announces : Bytes → Reaction
  breaks : Error → Reaction
  handles : Incoming → Reaction

module _ {Url : Type 0} (h : Http) (no_content : HttpResponse → Bool) (wrap : Bytes → Error → Error)
    (parse_url : Bytes → Result Url) (resolve_reference : Url → Url → Bytes) (quote : Bytes → Bytes)
    (check_request : Bytes → Result (Unit {0})) where
  -- An answer with another status than success
  unfoldable pub status_error : Bytes → HttpResponse → Option Error
  unfolding read_limited trim_space
  status_error name r =
      let said : Bytes = elim (read_limited r.body (pos 16384)) [
        | ok bytes ↦ trim_space bytes
        | err e ↦ []
      ] in
      if ltb r.status 200 || not (ltb r.status 300)
      then some (message (name ++ codes "HTTP " ++ h.format_uint r.status ++ codes ": " ++ said))
      else none

  -- `post`: the response that it delivers, if the answer holds one. `named` is `id != nil`.
  unfoldable pub post : Context → HttpOptions → Bytes → Bytes → Bool → Result (Option Response)
  unfolding status_error read_limited parse_envelope ◌==◌
  post ctx opts [] payload named =
      err (message (codes "legacy SSE server did not provide a POST endpoint"))
  post ctx opts (b ∷ endpoint) payload named =
      let headers = set_all h opts.headers (
        set_header h (codes "Accept") (codes "application/json")
          (set_header h (codes "Content-Type") (codes "application/json") [])) in
      elim (check_request (b ∷ endpoint)) [
        | err e ↦ err e
        | ok _ ↦
            elim (h.do_request ctx
              (record { url = b ∷ endpoint; headers = headers; body = payload })) [
                | err e ↦ err (wrap (codes "legacy SSE POST: ") e)
                | ok r ↦ elim (status_error (codes "legacy SSE POST ") r) [
                  | some e ↦ err e
                  | none ↦
                      if nat_eq r.status 202
                        || no_content r
                        || not (r.media_type == codes "application/json" && named)
                      then ok none
                      else elim (read_limited r.body opts.max_response_bytes) [
                        | err e ↦ err e
                        | ok bytes ↦
                            elim (parse_envelope h.decode_base h.decode_request h.decode_response
                              bytes) [
                                | err e ↦ err e
                                | ok (request q) ↦ ok none
                                | ok (response q) ↦ ok (some q)
                              ]
                      ]
                ]
              ]
      ]

  -- `resolveEndpoint`
  unfoldable pub resolve_endpoint : Bytes → Bytes → Result Bytes
  unfolding trim_space
  resolve_endpoint base endpoint = elim (parse_url base) [
    | err e ↦ err e
    | ok base_url ↦ elim (parse_url (trim_space endpoint)) [
      | err e ↦ err e
      | ok target ↦ ok (resolve_reference base_url target)
    ]
  ]

  -- The answer to the request of `streamLoop`
  unfoldable pub opened : Result HttpResponse → Option Error
  unfolding status_error ◌==◌
  opened (err e) = some (wrap (codes "open SSE stream: ") e)
  opened (ok r) = elim (status_error (codes "open SSE stream: ") r) [
    | some e ↦ some e
    | none ↦
        if r.media_type == codes "text/event-stream"
        then none
        else some (message (codes "legacy SSE endpoint returned " ++ quote r.media_type))
  ]

  -- `streamLoop` before it reads: the error that ends it, if the stream does not open.
  unfoldable pub stream_error : Bytes → Result HttpResponse → Option Error
  unfolding opened
  stream_error url answer = elim (check_request url) [ err e ↦ some e | ok _ ↦ opened answer ]

  -- One round of `streamLoop`, after `ReadSSE`
  unfoldable pub react : HttpOptions → Bool → SseEvent → Reaction
  unfolding looks_like_endpoint resolve_endpoint classify parse_envelope ◌==◌
  react opts signaled event =
      if event.data_bytes == []
      then handles discards
      else if event.event == codes "endpoint"
          || (not signaled && looks_like_endpoint event.data_bytes)
      then (elim (resolve_endpoint opts.url event.data_bytes) [
        | err e ↦ breaks e
        | ok endpoint ↦ announces endpoint
      ])
      else handles (
          classify
            (parse_envelope h.decode_base h.decode_request h.decode_response event.data_bytes))
