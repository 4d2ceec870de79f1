-- ===== src/Tests/Streams.antt =====
-- Event streams and calls over HTTP, to a server that answers at once.
use lessen_mcp_gateway.Prelude.{
  true, ◌≢◌, inl, inr, suc, ◌+◌, ◌≡◌, refl, Bytes, codes, ◌==◌, false, none, some, List, [], ◌∷◌,
  ◌++◌, arith, lookup,
}
use lessen_mcp_gateway.Prelude.Int.{ℤ, pos}
use lessen_mcp_gateway.Errors.{Result, ok, err}
use lessen_mcp_gateway.Model.{Raw}
use lessen_mcp_gateway.Mcp.Protocol.{Response, parse_envelope, protocol_older, protocol_latest}
use lessen_mcp_gateway.Transport.Sse.{SseEvent, read_sse, join_lines, newline}
use lessen_mcp_gateway.Transport.Sse.Reads.{Reads, read_sse-Reads}
use lessen_mcp_gateway.Transport.Sse.Printed.{print_event, read_sse-print_event}
use lessen_mcp_gateway.Transport.StreamableHttp.{
  StreamableHttpClient, HttpResponse, limit_reader, read_all, read_limited, eof,
}
use lessen_mcp_gateway.Transport.StreamableHttp.Exchange.{
  Http, new_request, request_name, post, post_headers, capture_session,
}
use lessen_mcp_gateway.Transport.StreamableHttp.Events.{decode_rpc_result, read_sse_for_id}
use lessen_mcp_gateway.Transport.StreamableHttp.Calls.{
  is_success, read_answer, call, set_protocol_version,
}
use lessen_mcp_gateway.Transport.StreamableHttp.Ends.{Returns, call-ends}
use lessen_mcp_gateway.Transport.StreamableHttp.Owned.{IsSent, Carries, call-Carries}
use lessen_mcp_gateway.Transport.StreamableHttp.Finds.{
  Sent, stream_of, bytes_of, read_sse_for_id-finds,
}
use lessen_mcp_gateway.Transport.StreamableHttp.Sessions.{
  captured, latest, session_key, session-carried,
}

abbrev keep_old : Bytes → ℤ → ℤ
keep_old text old = old

abbrev half : Bytes
half = codes "data: {" ++ newline ∷ newline ∷ codes "id"

read_sse-Reads_example :
    (outcome : Result SseEvent × Bytes) × (read_sse keep_old eof (pos 64) 12 half ≡ some outcome)
    × Reads keep_old eof (pos 64) half 0 outcome
read_sse-Reads_example = read_sse-Reads keep_old eof (pos 64) 12 half (omega arith)

read_sse-print_event_example :
    read_sse keep_old eof
      (pos 64)
      (3 + 2 + 0)
      (print_event (codes "7") (codes "message") (codes "{" ∷ codes "}" ∷ []) ++ codes "id: 8")
    ≡ some (
      ok (record {
        id = codes "7";
        event = codes "message";
        data_bytes = join_lines (codes "{" ∷ codes "}" ∷ []);
        retry = pos 0;
      }),
      codes "id: 8",
    )
read_sse-print_event_example =
    read_sse-print_event keep_old eof (pos 64) (codes "7") (codes "message")
      (codes "{" ∷ codes "}" ∷ []) 0 (codes "id: 8") refl refl refl (refl, (refl, tt)) refl

abbrev first_of : Bytes → Bytes
first_of [] = []
first_of (c ∷ text) = c ∷ []

-- A response's text is its identity, of one character, and its result; the server answers the first
-- request.
abbrev wire : Http
wire = record {
  canonical = λ key. key;
  do_request = λ ctx r. ok (record {
    status = 200;
    media_type = codes "application/json";
    session = codes "s";
    body = record { bytes = 1 ∷ codes "{}"; ends_with = eof };
  });
  status_text = λ status. [];
  format_uint = λ n. n ∷ [];
  scan_int = keep_old;
  encode = λ r. ok r.params;
  decode_base = λ raw. ok (record { jsonrpc = codes "2.0"; method = [] });
  decode_request = λ raw. err eof;
  decode_response =
      λ raw. ok (record { jsonrpc = codes "2.0"; id = first_of raw; result = raw; error = none });
  decode_object = λ raw. err eof;
  decode_string = λ raw. [];
}

abbrev opened : StreamableHttpClient
opened = record {
  opts = record {
    url = codes "http://localhost/mcp";
    headers = [];
    timeout = pos 60;
    idle_timeout = pos 300;
    max_idle_connections = pos 16;
    max_idle_connections_per_host = pos 2;
    max_connections_per_host = pos 8;
    max_response_bytes = pos 256;
    protocol_version = protocol_older;
  };
  next_id = 0;
  session_id = [];
  closed = false;
}

call-ends_example : Returns (call wire 258 (λ k. none) none (codes "tools/list") none opened).1
call-ends_example =
    call-ends wire 258 (λ k. none) none (codes "tools/list") none opened (omega arith)

call_answers :
    (call wire 258 (λ k. none) none (codes "tools/list") none opened).1 ≡ some (ok (1 ∷ codes "{}"))
unfolding call new_request request_name post post_headers capture_session read_answer read_limited
    limit_reader read_all decode_rpc_result parse_envelope ◌==◌
call_answers = refl

abbrev next_client : StreamableHttpClient
next_client = record opened { next_id = 1 }

call-Carries_example :
    (payload : Bytes) × (r : HttpResponse) × (text : Bytes) × (new_request wire
        (1 ∷ [])
        (codes "tools/list")
        none
      ≡ ok payload)
    × (post wire none
          (codes "tools/list")
          (request_name wire (codes "tools/list") none)
          payload
          next_client
        ≡ ok r)
    × (is_success r.status ≡ true)
    × IsSent wire (pos 256) r text
    × Carries wire (1 ∷ []) text (1 ∷ codes "{}")
call-Carries_example =
    call-Carries wire 258 (λ k. none) none (codes "tools/list") none opened (1 ∷ codes "{}")
      call_answers

abbrev noise : List Sent
noise =
    record { id = []; event = []; lines = [] }
    ∷ record { id = []; event = []; lines = (2 ∷ []) ∷ [] }
    ∷ []

abbrev last_event : Sent
last_event = record { id = []; event = codes "message"; lines = (1 ∷ codes "{}") ∷ [] }

abbrev response_of : Raw → Response
response_of raw = record { jsonrpc = codes "2.0"; id = first_of raw; result = raw; error = none }

other_id : first_of (2 ∷ []) ≢ 1 ∷ []
other_id same = ground arith

read_sse_for_id-finds_example :
    read_sse_for_id wire
      (suc (2 + 0))
      (λ k. none)
      (record { bytes = stream_of noise ++ (bytes_of last_event ++ codes "id"); ends_with = eof })
      (1 ∷ [])
      opened
    ≡ some (ok (1 ∷ codes "{}"))
unfolding parse_envelope ◌==◌ join_lines
read_sse_for_id-finds_example =
    read_sse_for_id-finds wire opened 256 (1 ∷ []) noise 0 last_event (response_of (1 ∷ codes "{}"))
      (codes "id") eof refl (omega arith)
      ((refl, refl, refl, tt), ((refl, refl, refl, (refl, tt)), tt))
      (inl refl, (inr (inr (inr (response_of (2 ∷ []), refl, other_id))), tt))
      (refl, refl, refl, (refl, tt)) (λ same. ground arith, refl, refl) (omega arith)

abbrev greeting : HttpResponse
greeting = record {
  status = 200;
  media_type = [];
  session = codes "s";
  body = record { bytes = []; ends_with = eof };
}

-- It starts a session, then answers without naming one, and then names another one.
abbrev responses : List HttpResponse
responses = record greeting { session = [] } ∷ record greeting { session = codes "t" } ∷ []

session-carried_example :
    let c1 = captured wire (greeting ∷ responses) opened in
    (lookup session_key (post_headers wire c1 (codes "ping") [])
      ≡ some (latest wire (codes "s") responses))
    × (lookup session_key
          (post_headers wire (set_protocol_version protocol_latest c1) (codes "ping") [])
        ≡ none)
unfolding ◌==◌
session-carried_example =
    session-carried wire opened greeting responses (codes "ping") [] protocol_latest
      (refl, (refl, (refl, (refl, (refl, tt))))) tt refl refl
