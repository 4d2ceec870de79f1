-- ===== src/Transport/LegacySse.antt =====
-- internal/transport/legacy_sse.go, `LegacySSEClient`: one event stream brings the answers to
-- requests that are posted to the endpoint it names. Each function is what a goroutine does while
-- it holds the client's lock. As in Stdio, the table `pending` is the list of the calls' numbers. A
-- stream is known by its generation, and so is the channel `ready` that is made with it; a channel
-- of capacity one is what it holds. What `post` and `streamLoop` do between those is in Loop.
pub mod Loop
pub mod System
pub mod Answers
pub mod Ends
use lessen_mcp_gateway.Prelude.{
  ℕ, ◌+◌, ◌*◌, ◌%◌, ◌^◌, Bytes, codes, ◌==◌, Bool, true, false, not, ◌&&◌, Option, none, some, List,
  [], ◌∷◌, if◌then◌else◌, nat_eq,
}
use lessen_mcp_gateway.Errors.{Error, Result, ok, err, message}
use lessen_mcp_gateway.Mcp.Protocol.{Response}
use lessen_mcp_gateway.Storage.Search.{trim_space}
use lessen_mcp_gateway.Transport.Stdio.{CallResult, without, owner, outcome}
use lessen_mcp_gateway.Transport.StreamableHttp.{HttpOptions, or_default, minute, default_max_bytes}

-- What `ensureStream` waits for.
abbrev pub Signal : Type 0
Signal = Result (Unit {0})

-- `LegacySSEClient`, less its HTTP client; `cancel` is `cancel != nil`.
pub record LegacySseClient : Type 0 where
  pub opts : HttpOptions
  pub next_id : ℕ
  pub closed : Bool
  pub running : Bool
  pub generation : ℕ
  pub endpoint : Bytes
  pub ready : Option ℕ
  pub signals : ℕ → Option Signal
  pub cancel : Bool
  pub pending : List ℕ

-- `NewLegacySSE`
unfoldable pub new_legacy_sse : HttpOptions → Result LegacySseClient
unfolding ◌==◌ trim_space
new_legacy_sse o =
    if trim_space o.url == []
    then err (message (codes "legacy SSE URL is required"))
    else ok (record {
      opts = record o {
        timeout = or_default o.timeout minute;
        idle_timeout = or_default o.idle_timeout (5 * minute);
        max_response_bytes = or_default o.max_response_bytes default_max_bytes;
      };
      next_id = 0;
      closed = false;
      running = false;
      generation = 0;
      endpoint = [];
      ready = none;
      signals = λ n. none;
      cancel = false;
      pending = [];
    })

abbrev pub put_signal : ℕ → Option Signal → (ℕ → Option Signal) → ℕ → Option Signal
put_signal g v signals h = if nat_eq g h then v else signals h

-- `select { case ready <- v: default: }`; a send to the nil channel is never ready.
unfoldable pub offer : Option ℕ → Signal → LegacySseClient → LegacySseClient
offer none v c = c
offer (some g) v c = elim (c.signals g) [
  | some held ↦ c
  | none ↦ record c { signals = put_signal g (some v) c.signals }
]

-- `ensureStream` up to its wait. The loop of a new stream is started with the new generation.
unfoldable pub start_stream : LegacySseClient → Result LegacySseClient
start_stream c =
    if c.closed
    then err (message (codes "legacy SSE client is closed"))
    else if c.running
    then ok c
    else (let g = c.generation + 1 in
        ok (record c {
          running = true;
          generation = g;
          ready = some g;
          signals = put_signal g none c.signals;
          cancel = true;
        }))

-- `err := <-ready`
unfoldable pub receive_ready : ℕ → LegacySseClient → LegacySseClient × Option Signal
receive_ready g c = (record c { signals = put_signal g none c.signals }, c.signals g)

-- What `ensureStream` does with it: the signal is put back for the calls after this one.
unfoldable pub put_back : ℕ → Signal → LegacySseClient → LegacySseClient
unfolding offer
put_back g (err e) c = c
put_back g (ok _) c = if c.running then offer (some g) (ok tt) (record c { ready = some g }) else c

-- `c.nextID.Add(1)`
unfoldable pub add_id : LegacySseClient → LegacySseClient
add_id c = record c { next_id = (c.next_id + 1) % 2 ^ 64 }

-- `c.pending[key] = ch` and the endpoint to post to, unless the client is closed
unfoldable pub register : ℕ → LegacySseClient → Result (LegacySseClient × Bytes)
register n c =
    if c.closed
    then err (message (codes "legacy SSE client is closed"))
    else ok (record c { pending = n ∷ without n c.pending }, c.endpoint)

-- `removePending`
unfoldable pub remove_pending : ℕ → LegacySseClient → LegacySseClient
remove_pending n c = record c { pending = without n c.pending }

-- `deliver`: the channel that is sent to, and what.
unfoldable pub deliver :
    (ℕ → Bytes) → Response → LegacySseClient → LegacySseClient × Option (ℕ × CallResult)
unfolding owner
deliver format_uint r c = elim (owner format_uint r.id c.pending) [
  | none ↦ (c, none)
  | some n ↦ (record c { pending = without n c.pending }, some (n, outcome r))
]

-- `streamLoop` on an endpoint, which it announces on `ready` the first time.
unfoldable pub announce : ℕ → Bytes → Bool → LegacySseClient → LegacySseClient
unfolding offer
announce generation endpoint signaled c =
    let c' =
      if nat_eq generation c.generation && not c.closed
      then record c { endpoint = endpoint }
      else c in
    if signaled then c' else offer c.ready (ok tt) c'

-- `failStream`: the new state, and the channels that are sent the error.
unfoldable pub fail_stream : ℕ → Error → LegacySseClient → LegacySseClient × List ℕ
unfolding offer
fail_stream generation e c =
    if nat_eq generation c.generation
    then (
      offer c.ready (err e)
          (record c { running = false; endpoint = []; pending = []; cancel = false }),
      c.pending,
    )
    else (c, [])

-- `Close`: the new state, and the channels that are sent `legacy SSE client closed`.
unfoldable pub close : LegacySseClient → LegacySseClient × List ℕ
close c = if c.closed then (c, []) else (record c { closed = true; pending = [] }, c.pending)
