-- ===== src/Transport/Stdio.antt =====
-- internal/transport/stdio.go, `StdioClient`: a child process that answers requests over its
-- standard streams. Each function is what one call does while it holds the client's lock; how the
-- calls interleave is in System. A channel belongs to the call of one number, and the table
-- `pending` holds it under the number's text, which strconv makes different for different numbers:
-- the table is the list of these numbers. A process is known by its generation.
pub mod System
pub mod Invariant
pub mod Answers
use lessen_mcp_gateway.Prelude.{
  ℕ, ◌+◌, ◌%◌, ◌^◌, Bytes, codes, ◌==◌, Bool, true, false, not, ◌&&◌, ◌||◌, Option, none, some,
  List, [], ◌∷◌, if◌then◌else◌, nat_eq, ltb,
}
use lessen_mcp_gateway.Errors.{Error, Context, Result, ok, err, message}
use lessen_mcp_gateway.Model.{Raw}
use lessen_mcp_gateway.Mcp.Protocol.{
  Response, RequestId, Envelope, request, response, parse_envelope, is_zero,
}

-- `StdioClient`. `running` is `cmd != nil`, and `stdin` is `stdin != nil`; `idle_timer` is the
-- generation that the timer was set for.
pub record StdioClient : Type 0 where
  pub persistent : Bool
  pub running : Bool
  pub stdin : Bool
  pub pending : List ℕ
  pub closed : Bool
  pub generation : ℕ
  pub idle_timer : Option ℕ
  pub next_id : ℕ

-- `callResult`
abbrev pub CallResult : Type 0
CallResult = Result Raw

-- `NewStdio`, after its test for a command
unfoldable pub new_stdio : Bytes → Bool → Result StdioClient
new_stdio [] persistent = err (message (codes "stdio command is required"))
new_stdio (c ∷ command) persistent = ok (record {
  persistent = persistent;
  running = false;
  stdin = false;
  pending = [];
  closed = false;
  generation = 0;
  idle_timer = none;
  next_id = 0;
})

abbrev pub member : ℕ → List ℕ → Bool
member n [] = false
member n (m ∷ ms) = nat_eq m n || member n ms

-- `delete(c.pending, key)`
abbrev pub without : ℕ → List ℕ → List ℕ
without n [] = []
without n (m ∷ ms) = if nat_eq m n then without n ms else m ∷ without n ms

-- `resetIdleLocked`, and `touch`
unfoldable pub reset_idle : StdioClient → StdioClient
reset_idle c =
    if c.persistent || c.closed || not c.running
    then c
    else record c { idle_timer = some c.generation }

-- `ensureStarted`. What the operating system may refuse, from the pipes to `Start`, is the argument
-- `started`.
unfoldable pub ensure_started :
    Context → Result (Unit {0}) → StdioClient → StdioClient × Result (Unit {0})
unfolding reset_idle
ensure_started (some e) started c = (c, err e)
ensure_started none started c =
    if c.closed
    then (c, err (message (codes "stdio client is closed")))
    else if c.running
    then (c, ok tt)
    else elim started [
      | err e ↦ (c, err e)
      | ok _ ↦ (
        reset_idle (record c { generation = c.generation + 1; running = true; stdin = true }),
        ok tt,
      )
    ]

-- `c.nextID.Add(1)`
unfoldable pub add_id : StdioClient → StdioClient
add_id c = record c { next_id = (c.next_id + 1) % 2 ^ 64 }

-- `c.pending[key] = ch`, unless the client is closed
unfoldable pub register : ℕ → StdioClient → Result StdioClient
register n c =
    if c.closed
    then err (message (codes "stdio client is closed"))
    else ok (record c { pending = n ∷ without n c.pending })

-- The part of `write` under the lock: the process whose input is written to next.
unfoldable pub writable : StdioClient → Result ℕ
writable c =
    if c.closed
    then err (message (codes "stdio client is closed"))
    else if c.stdin
    then ok c.generation
    else err (message (codes "stdio server is not running"))

-- `removePending`
unfoldable pub remove_pending : ℕ → StdioClient → StdioClient
remove_pending n c = record c { pending = without n c.pending }

-- The call whose number has a text.
unfoldable pub owner : (ℕ → Bytes) → Bytes → List ℕ → Option ℕ
owner format_uint key [] = none
owner format_uint key (n ∷ ns) = if format_uint n == key then some n else owner format_uint key ns

abbrev pub outcome : Response → CallResult
outcome r = elim r.error [ none ↦ ok r.result | some (code, text) ↦ err (Error.rpc code text) ]

-- `deliver`: the channel that is sent to, and what.
unfoldable pub deliver :
    (ℕ → Bytes) → Response → StdioClient → StdioClient × Option (ℕ × CallResult)
unfolding owner
deliver format_uint r c = elim (owner format_uint r.id c.pending) [
  | none ↦ (c, none)
  | some n ↦ (record c { pending = without n c.pending }, some (n, outcome r))
]

-- `Close`: the new state, and the channels that are sent `stdio client closed`.
unfoldable pub close : StdioClient → StdioClient × List ℕ
close c = if c.closed then (c, []) else (
  record c { closed = true; idle_timer = none; running = false; stdin = false; pending = [] },
  c.pending,
)

-- `handleExit`: the new state, and the channels that are sent the exit's error.
unfoldable pub handle_exit : ℕ → StdioClient → StdioClient × List ℕ
handle_exit generation c =
    if nat_eq generation c.generation
    then (record c { running = false; stdin = false; pending = []; idle_timer = none }, c.pending)
    else (c, [])

-- `handleStreamClosed`: is the process killed?
unfoldable pub handle_stream_closed : ℕ → StdioClient → Bool
handle_stream_closed generation c = nat_eq generation c.generation && c.running

-- `stopIdle`
unfoldable pub stop_idle : ℕ → StdioClient → StdioClient
stop_idle generation c = elim c.pending [
  | n ∷ ns ↦ c
  | [] ↦
      if c.closed || c.persistent || not (nat_eq generation c.generation) || not c.running
      then c
      else record c {
        running = false;
        stdin = false;
        idle_timer = none;
        generation = c.generation + 1;
      }
]

-- `IsRunning`, `SessionGeneration`
unfoldable pub is_running : StdioClient → Bool
is_running c = c.running

unfoldable pub session_generation : StdioClient → ℕ
session_generation c = c.generation

-- What `readLoop` does with a line.
pub data Incoming : Type 0 where
  delivers : Response → Incoming
  refuses : RequestId → Incoming
  discards : Incoming

unfoldable pub classify : Result Envelope → Incoming
classify (err e) = discards
classify (ok (response r)) = delivers r
classify (ok (request r)) = if is_zero r.id then discards else refuses r.id
