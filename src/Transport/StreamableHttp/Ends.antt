-- ===== src/Transport/StreamableHttp/Ends.antt =====
-- Every call of internal/transport/streamable_http.go returns, whatever the server sends.
use lessen_mcp_gateway.Prelude.{
  ℕ, zero, suc, ◌+◌, ◌<◌, ◌≡◌, refl, Bytes, codes, ◌==◌, Bool, true, false, not, Option, none, some,
  [], if◌then◌else◌, length, take, length-take, arith, Option-cases, inl, inr, ◌||◌, ◌%◌, ◌^◌,
}
use lessen_mcp_gateway.Prelude.Int.{ℤ, add_int, clip}
use lessen_mcp_gateway.Errors.{Error, Context, Result, ok, err, Result-cases}
use lessen_mcp_gateway.Model.{Raw}
use lessen_mcp_gateway.Mcp.Protocol.{RequestId}
use lessen_mcp_gateway.Transport.Sse.{SseEvent, read_sse}
use lessen_mcp_gateway.Transport.Sse.Reads.{Reads, read_sse-Reads}
use lessen_mcp_gateway.Transport.StreamableHttp.{
  StreamableHttpClient, HttpResponse, Body, limit_reader,
}
use lessen_mcp_gateway.Transport.StreamableHttp.Exchange.{
  Http, Params, new_request, request_name, post, capture_session, http_error,
}
use lessen_mcp_gateway.Transport.StreamableHttp.Events.{select_answer, read_events, read_sse_for_id}
use lessen_mcp_gateway.Transport.StreamableHttp.Calls.{is_success, read_answer, call}

abbrev pub Returns : Option (Result Raw) → Type 0
Returns o = (r : Result Raw) × (o ≡ some r)

Returns-if :
    (b : Bool) {x y : Option (Result Raw)} → Returns x → Returns y → Returns (if b then x else y)
Returns-if true x y = x
Returns-if false x y = y

module _ (h : Http) where
  module _ (ctx : ℕ → Context) (ends_with : Error) (limit : ℤ) (id : RequestId) where
    read_events-after :
        (fuel : ℕ) (stream : Bytes) (outcome : Result SseEvent × Bytes)
        → ctx fuel ≡ none
        → read_sse h.scan_int ends_with limit (suc (length stream)) stream ≡ some outcome
        → Reads h.scan_int ends_with limit stream 0 outcome
        → ((rest : Bytes)
            → length rest < length stream
            → Returns (read_events h fuel ctx ends_with limit rest id))
        → Returns (read_events h (suc fuel) ctx ends_with limit stream id)
    unfolding read_events
    read_events-after fuel stream (err e, rest) going runs reads next =
        (err e, rw (going, read_events, runs) refl)
    read_events-after fuel stream (ok event, rest) going runs (k, size, some_byte, fits) next =
        elim (Option-cases (select_answer h id event)) [
          | inr (answer, chosen) ↦ (answer, rw (going, read_events, runs, chosen) refl)
          | inl passed ↦
              let (r, later) = next rest (omega (arith, size, some_byte)) in
              (r, rw (going, read_events, runs, passed) later)
        ]

    read_events-ends :
        (fuel : ℕ) (stream : Bytes)
        → length stream < fuel
        → Returns (read_events h fuel ctx ends_with limit stream id)
    unfolding read_events
    read_events-ends zero stream enough = absurd (omega (arith, enough))
    read_events-ends (suc fuel) stream enough = elim (Option-cases (ctx fuel)) [
      | inr (x, done) ↦ (err x, rw (done, read_events) refl)
      | inl going ↦
          let (outcome, runs, reads) =
            read_sse-Reads h.scan_int ends_with limit (suc (length stream)) stream (omega arith) in
          read_events-after fuel stream outcome going runs reads
            (λ rest less. read_events-ends fuel rest (omega (arith, enough, less)))
    ]

  read_sse_for_id-ends :
      (fuel : ℕ) (polls : ℕ → Context) (b : Body) (id : RequestId) (c : StreamableHttpClient)
      → clip (add_int c.opts.max_response_bytes 1) < fuel
      → Returns (read_sse_for_id h fuel polls b id c)
  unfolding read_sse_for_id limit_reader
  read_sse_for_id-ends fuel polls b id c enough =
      let most = clip (add_int c.opts.max_response_bytes 1) in
      read_events-ends polls (limit_reader b (add_int c.opts.max_response_bytes 1)).ends_with
        c.opts.max_response_bytes id fuel (take most b.bytes)
        (omega (arith, length-take most b.bytes, enough))

  read_answer-ends :
      (fuel : ℕ) (polls : ℕ → Context) (r : HttpResponse) (id : RequestId)
      (c : StreamableHttpClient)
      → clip (add_int c.opts.max_response_bytes 1) < fuel
      → Returns (read_answer h fuel polls r id c)
  unfolding read_answer
  read_answer-ends fuel polls r id c enough =
      Returns-if (not (is_success r.status)) (err (http_error h r), refl)
        (Returns-if (r.media_type == codes "text/event-stream")
          (read_sse_for_id-ends fuel polls r.body id c enough)
          (Returns-if
            (r.media_type == codes "application/json"
              || r.media_type == codes "application/json-rpc"
              || r.media_type == [])
            (_, refl) (_, refl)))

  -- A call returns a result or an error whatever the server answers with, an event stream that
  -- never holds the answer included: no more events than the byte limit of the client's responses,
  -- and one more, are ever read.
  pub call-ends :
      (fuel : ℕ) (polls : ℕ → Context) (ctx : Context) (method : Bytes) (params : Params)
      (c : StreamableHttpClient)
      → clip (add_int c.opts.max_response_bytes 1) < fuel
      → Returns (call h fuel polls ctx method params c).1
  unfolding call capture_session
  call-ends fuel polls ctx method params c enough =
      let c1 = record c { next_id = (c.next_id + 1) % 2 ^ 64 } in
      let id = h.format_uint c1.next_id in
      elim (Result-cases (new_request h id method params)) [
        | inr (e, fails) ↦ (err e, rw (fails, call) refl)
        | inl (payload, made) ↦
            elim (Result-cases (post h ctx method (request_name h method params) payload c1)) [
              | inr (e, fails) ↦ (err e, rw (made, call, fails) refl)
              | inl (r, arrived) ↦
                  let c2 = capture_session h r c1 in
                  let same : c2.opts ≡ c.opts = ground arith in
                  let (answer, found) = read_answer-ends fuel polls r id c2 (rw same enough) in
                  (answer, rw (made, call, arrived) found)
            ]
      ]
