-- ===== src/Transport/StreamableHttp/Owned.antt =====
-- A result that a call of internal/transport/streamable_http.go returns is the one of its own
-- response.
use lessen_mcp_gateway.Prelude.{
  sym, ◌⊎◌, ℕ, zero, suc, ◌+◌, ◌%◌, ◌^◌, ◌≡◌, refl, ap, subst, Bytes, codes, ◌==◌, eq_iff, Bool,
  true, false, ◌||◌, Option, none, some, [], if◌then◌else◌, length, arith, Bool-cases, Option-cases,
  inl, inr,
}
use lessen_mcp_gateway.Prelude.Int.{ℤ, add_int}
use lessen_mcp_gateway.Errors.{Error, Context, Result, ok, err, Result-cases}
use lessen_mcp_gateway.Model.{Raw}
use lessen_mcp_gateway.Mcp.Protocol.{
  protocol_latest, RequestId, Response, Envelope, request, response, parse_envelope,
}
use lessen_mcp_gateway.Transport.Stdio.{outcome}
use lessen_mcp_gateway.Transport.Sse.{SseEvent, read_sse}
use lessen_mcp_gateway.Transport.StreamableHttp.{
  HttpOptions, StreamableHttpClient, HttpResponse, limit_reader, read_limited,
}
use lessen_mcp_gateway.Transport.StreamableHttp.Exchange.{
  Http, Params, new_request, request_name, post, capture_session,
}
use lessen_mcp_gateway.Transport.StreamableHttp.Events.{
  select_answer, read_events, read_sse_for_id, decode_rpc_result,
}
use lessen_mcp_gateway.Transport.StreamableHttp.Calls.{is_success, read_answer, call}

some_inj {ℓ} : {A : Type ℓ} {a b : A} → some a ≡ some b → a ≡ b
some_inj {a = a} e = ap (λ o. elim o [ none ↦ a | some x ↦ x ]) e

outcome-ok : (r : Response) (raw : Raw) → outcome r ≡ ok raw → (r.error ≡ none) × (r.result ≡ raw)
outcome-ok r raw e = elim (Option-cases r.error) [
  | inl fine ↦ (fine, ground arith)
  | inr ((code, text), failed) ↦ absurd (ground arith)
]

-- An event that is read in a stream, after any number of others.
pub data IsRead (h : Http) (ends_with : Error) (limit : ℤ) : Bytes → SseEvent → Type 0 where
  first :
      {stream rest : Bytes} {event : SseEvent}
      → read_sse h.scan_int ends_with limit (suc (length stream)) stream ≡ some (ok event, rest)
      → IsRead h ends_with limit stream event
  later :
      {stream rest : Bytes} {other event : SseEvent}
      → read_sse h.scan_int ends_with limit (suc (length stream)) stream ≡ some (ok other, rest)
      → IsRead h ends_with limit rest event
      → IsRead h ends_with limit stream event

-- A text that a server sent as an answer: the whole body of its response, or the data of an event
-- in it.
abbrev pub IsSent : Http → ℤ → HttpResponse → Bytes → Type 0
IsSent h limit r text =
    (read_limited r.body limit ≡ ok text)
    ⊎ (let limited = limit_reader r.body (add_int limit 1) in
        (event : SseEvent) × IsRead h limited.ends_with limit limited.bytes event
        × (event.data_bytes ≡ text))

module _ (h : Http) (id : RequestId) where
  -- A text that is a response to the request of the identity, without an error and with the result.
  abbrev pub Carries : Bytes → Raw → Type 0
  Carries text raw =
      (r : Response) × (parse_envelope h.decode_base h.decode_request h.decode_response text
        ≡ ok (response r))
      × (r.id ≡ id)
      × (r.error ≡ none)
      × (r.result ≡ raw)

  -- The result is carried by a text of the kind.
  abbrev Owned : (Bytes → Type 0) → Option (Result Raw) → Type 0
  Owned Sent o = (raw : Raw) → o ≡ some (ok raw) → (text : Bytes) × Sent text × Carries text raw

  Owned-imp :
      {P Q : Bytes → Type 0} (o : Option (Result Raw))
      → ((text : Bytes) → P text → Q text)
      → Owned P o
      → Owned Q o
  Owned-imp o f owned raw same =
      let (text, sent, carried) = owned raw same in (text, f text sent, carried)

  Owned-if :
      {P : Bytes → Type 0} (b : Bool) {x y : Option (Result Raw)}
      → Owned P x
      → Owned P y
      → Owned P (if b then x else y)
  Owned-if true x y = x
  Owned-if false x y = y

  abbrev decode : Raw → Result Envelope
  decode = parse_envelope h.decode_base h.decode_request h.decode_response

  outcome-Owned :
      (text : Bytes) (r : Response)
      → decode text ≡ ok (response r)
      → (r.id == id) ≡ true
      → Owned (λ sent. sent ≡ text) (some (outcome r))
  outcome-Owned text r parsed e raw same =
      let gives : outcome r ≡ ok raw = some_inj same in
      let (fine, result) = outcome-ok r raw gives in
      (text, refl, (r, parsed, (eq_iff r.id id).0 e, fine, result))

  select_answer-parsed :
      (event : SseEvent) (m : Result Envelope)
      → decode event.data_bytes ≡ m
      → Owned (λ sent. sent ≡ event.data_bytes) (select_answer h id event)
  unfolding select_answer
  select_answer-parsed event (err e) parsed =
      rw (parsed, select_answer) (Owned-if (event.data_bytes == []) (λ raw x. cc) (λ raw x. cc))
  select_answer-parsed event (ok (request r)) parsed =
      rw (parsed, select_answer) (Owned-if (event.data_bytes == []) (λ raw x. cc) (λ raw x. cc))
  select_answer-parsed event (ok (response r)) parsed =
      rw (parsed, select_answer)
        (Owned-if (event.data_bytes == []) (λ raw x. cc)
          (elim (Bool-cases (r.id == id)) [
            | inr e ↦ rw e (λ raw x. cc)
            | inl e ↦ rw e (outcome-Owned event.data_bytes r parsed e)
          ]))

  decode_rpc_result-parsed :
      (text : Bytes) (m : Result Envelope)
      → decode text ≡ m
      → Owned (λ sent. sent ≡ text) (some (decode_rpc_result h text id))
  unfolding decode_rpc_result
  decode_rpc_result-parsed text (err e) parsed = rw (parsed, decode_rpc_result) (λ raw same. cc)
  decode_rpc_result-parsed text (ok (request r)) parsed =
      rw (parsed, decode_rpc_result) (λ raw same. cc)
  decode_rpc_result-parsed text (ok (response r)) parsed = elim (Bool-cases (r.id == id)) [
    | inr e ↦ rw (parsed, decode_rpc_result, e) (λ raw same. cc)
    | inl e ↦ rw (parsed, decode_rpc_result, e) (outcome-Owned text r parsed e)
  ]

  module _ (ctx : ℕ → Context) (ends_with : Error) (limit : ℤ) where
    -- The data of an event in the stream.
    abbrev Reads : Bytes → Bytes → Type 0
    Reads stream text =
        (event : SseEvent) × IsRead h ends_with limit stream event × (event.data_bytes ≡ text)

    read_events-read :
        (fuel : ℕ) (stream : Bytes) (o : Option (Result SseEvent × Bytes))
        → ctx fuel ≡ none
        → read_sse h.scan_int ends_with limit (suc (length stream)) stream ≡ o
        → ((rest : Bytes) → Owned (Reads rest) (read_events h fuel ctx ends_with limit rest id))
        → Owned (Reads stream) (read_events h (suc fuel) ctx ends_with limit stream id)
    unfolding read_events
    read_events-read fuel stream none going runs next = rw (going, read_events, runs) (λ raw x. cc)
    read_events-read fuel stream (some (err e, rest)) going runs next =
        rw (going, read_events, runs) (λ raw x. cc)
    read_events-read fuel stream (some (ok event, rest)) going runs next =
        elim (Option-cases (select_answer h id event)) [
          | inr (answer, chosen) ↦
              rw (going, read_events, runs, chosen)
                (Owned-imp (some answer) (λ text same. (event, first runs, sym same))
                  (subst (Owned (λ sent. sent ≡ event.data_bytes)) chosen
                    (select_answer-parsed event (decode event.data_bytes) refl)))
          | inl passed ↦
              rw (going, read_events, runs, passed)
                (Owned-imp (read_events h fuel ctx ends_with limit rest id)
                  (λ text (found, read, same). (found, later runs read, same)) (next rest))
        ]

    read_events-Owned :
        (fuel : ℕ) (stream : Bytes)
        → Owned (Reads stream) (read_events h fuel ctx ends_with limit stream id)
    unfolding read_events
    read_events-Owned zero stream = λ raw x. cc
    read_events-Owned (suc fuel) stream = elim (Option-cases (ctx fuel)) [
      | inr (x, done) ↦ rw (done, read_events) (λ raw e. cc)
      | inl going ↦
          read_events-read fuel stream
            (read_sse h.scan_int ends_with limit (suc (length stream)) stream) going refl
            (read_events-Owned fuel)
    ]

  read_answer-Owned :
      (fuel : ℕ) (polls : ℕ → Context) (r : HttpResponse) (c : StreamableHttpClient)
      → Owned
          (λ text. (is_success r.status ≡ true) × IsSent h c.opts.max_response_bytes r text)
          (read_answer h fuel polls r id c)
  unfolding read_answer read_sse_for_id
  read_answer-Owned fuel polls r c =
      let limit = c.opts.max_response_bytes in
      let limited = limit_reader r.body (add_int limit 1) in
      elim (Bool-cases (is_success r.status)) [
        | inr fails ↦ rw (fails, read_answer) (λ raw e. cc)
        | inl fine ↦
            rw (fine, read_answer)
              (Owned-if (r.media_type == codes "text/event-stream")
                (Owned-imp (read_events h fuel polls limited.ends_with limit limited.bytes id)
                  (λ text read. (refl, inr read))
                  (read_events-Owned polls limited.ends_with limit fuel limited.bytes))
                (Owned-if
                  (r.media_type == codes "application/json"
                    || r.media_type == codes "application/json-rpc"
                    || r.media_type == [])
                  (elim (Result-cases (read_limited r.body limit)) [
                    | inr (e, breaks) ↦ rw breaks (λ raw x. cc)
                    | inl (text, whole) ↦ rw whole (
                        Owned-imp (some (decode_rpc_result h text id))
                          (λ sent same. (refl, inl (ap ok (sym same))))
                          (decode_rpc_result-parsed text (decode text) refl))
                  ])
                  (λ raw e. cc)))
      ]

captured_opts :
    (h : Http) (r : HttpResponse) (c : StreamableHttpClient) → (capture_session h r c).opts ≡ c.opts
unfolding capture_session
captured_opts h r c =
    elim (Bool-cases (c.opts.protocol_version == protocol_latest || r.session == [])) [
      | inl e ↦ rw (e, capture_session) refl
      | inr e ↦ rw (e, capture_session) refl
    ]

-- A result that a call returns is what the server answered to this call. The request of the call,
-- with its number as identity, was posted, and the server's response to the POST has a status of
-- success. A text that this response holds, as its whole body or as the data of an event in its
-- body, is a response of JSON-RPC whose identity is the number of this call, without an error, and
-- whose result is the one returned: neither the answer to another call, nor a notification of the
-- stream, nor a request of the server is taken for it.
pub call-Carries :
    (h : Http) (fuel : ℕ) (polls : ℕ → Context) (ctx : Context) (method : Bytes) (params : Params)
    (c : StreamableHttpClient) (raw : Raw)
    → (call h fuel polls ctx method params c).1 ≡ some (ok raw)
    → let c1 = record c { next_id = (c.next_id + 1) % 2 ^ 64 } in
      let id = h.format_uint c1.next_id in
      (payload : Bytes) × (r : HttpResponse) × (text : Bytes) × (new_request h id method params
        ≡ ok payload)
      × (post h ctx method (request_name h method params) payload c1 ≡ ok r)
      × (is_success r.status ≡ true)
      × IsSent h c.opts.max_response_bytes r text
      × Carries h id text raw
unfolding call
call-Carries h fuel polls ctx method params c raw =
    let c1 = record c { next_id = (c.next_id + 1) % 2 ^ 64 } in
    let id = h.format_uint c1.next_id in
    elim (Result-cases (new_request h id method params)) [
      | inr (e, fails) ↦ rw (fails, call) (λ x. cc)
      | inl (payload, made) ↦
          elim (Result-cases (post h ctx method (request_name h method params) payload c1)) [
            | inr (e, fails) ↦ rw (made, call, fails) (λ x. cc)
            | inl (r, arrived) ↦
                rw (made, call, arrived)
                  (λ same.
                    let (text, (fine, sent), carried) =
                      read_answer-Owned h id fuel polls r (capture_session h r c1) raw same in
                    let kept =
                      subst (λ (o : HttpOptions). IsSent h o.max_response_bytes r text)
                        (captured_opts h r c1) sent in
                    (payload, r, text, refl, arrived, fine, kept, carried))
          ]
    ]
