-- ===== src/Tests/Legacy.antt =====
-- A legacy SSE client with one call that waits for its answer.
use lessen_mcp_gateway.Prelude.{
  ◌||◌, not, arith, ℕ, ◌≡◌, refl, Bytes, codes, true, false, none, some, Bool, List, [], ◌∷◌,
  length, if◌then◌else◌,
}
use lessen_mcp_gateway.Prelude.Int.{pos}
use lessen_mcp_gateway.Mcp.Protocol.{Response}
use lessen_mcp_gateway.Transport.Sse.{SseEvent}
use lessen_mcp_gateway.Transport.Stdio.{delivers, member}
use lessen_mcp_gateway.Transport.StreamableHttp.{HttpOptions, minute, eof}
use lessen_mcp_gateway.Transport.LegacySse.Loop.{Reaction, announces, handles}
use lessen_mcp_gateway.Transport.LegacySse.System.{
  System, Action, starts, responds, closes, run, stream_actions,
}
use lessen_mcp_gateway.Transport.LegacySse.Answers.{pending-answered}
use lessen_mcp_gateway.Transport.LegacySse.Ends.{stream-answers}

abbrev text : ℕ → Bytes
text n = n ∷ []

abbrev options : HttpOptions
options = record {
  url = codes "http://mcp/sse";
  headers = [];
  timeout = pos minute;
  idle_timeout = pos minute;
  max_idle_connections = pos 0;
  max_idle_connections_per_host = pos 0;
  max_connections_per_host = pos 0;
  max_response_bytes = pos 4096;
  protocol_version = [];
}

-- Two calls wait on the stream of the first generation.
abbrev calling : System
calling = record {
  client = record {
    opts = options;
    next_id = 2;
    closed = false;
    running = true;
    generation = 1;
    endpoint = codes "http://mcp/post";
    ready = some 1;
    signals = λ g. none;
    cancel = true;
    pending = 2 ∷ 1 ∷ [];
  };
  channel = λ n. [];
}

abbrev answer : Response
answer = record { jsonrpc = codes "2.0"; id = 1 ∷ []; result = codes "{}"; error = none }

abbrev event : Bytes → Bytes → SseEvent
event name data_bytes = record { id = []; event = name; data_bytes = data_bytes; retry = pos 0 }

-- A stream of endpoints, and of answers to the call that their data names.
abbrev react : Bool → SseEvent → Reaction
react signaled e = elim e.event [
  | [] ↦ handles (delivers (record answer { id = e.data_bytes }))
  | c ∷ name ↦ announces e.data_bytes
]

abbrev done : List Action
done = responds answer ∷ starts ∷ closes ∷ []

-- An open client
is_open : calling.client.closed ≡ true → calling.client.pending ≡ []
is_open closed = ground arith

pending-answered_example : length ((run text done calling).channel 1) ≡ (
    if (run text done calling).client.closed
      || not (member 1 (run text done calling).client.pending)
    then 1
    else 0)
pending-answered_example = pending-answered text 1 done calling is_open refl refl refl

abbrev heard : List SseEvent
heard = event (codes "endpoint") (codes "http://mcp/other") ∷ event [] (1 ∷ []) ∷ []

abbrev ended : System
ended = run text (stream_actions react (λ e. e) 1 false false eof heard) calling

stream-answers_example :
    ((ended.client.running ≡ false) × (ended.client.endpoint ≡ []) × (ended.client.pending ≡ []))
    × (length (ended.channel 2) ≡ 1)
stream-answers_example =
    stream-answers text react (λ e. e) 1 eof false heard calling 2 refl is_open refl refl
