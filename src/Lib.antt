-- ===== src/Lib.antt =====
-- Lessen MCP gateway: a gateway between MCP clients and many MCP servers. It keeps a catalogue of the
-- servers' tools in a store, with a small cache of their schemas in memory, and connects to a server
-- when it is needed.
--
-- The parts, and where they are modelled:
--   Model       internal/model/model.go: the records that the packages exchange.
--   Storage     internal/storage: the store's interface and the laws that the registry relies on
--               (Interface, store.go), the store in memory (Memory, memory.go) and that it obeys the
--               laws (Memory/Laws), paging over Go's integers (Page), the search text (Search,
--               search.go), and a stable sort in place of sort.Slice (Sort).
--   Registry    internal/registry/registry.go: the routing index and the cache over any store.
--               Cache is cache.go, with its invariant (Linked), its refinement to an ideal cache (Lru)
--               and what is read back (Reads). Coherent says that the cache agrees with the store,
--               Routing that the index does, and Names is about the exposed names.
--   Logbuf      internal/logbuf/ring.go: the ring of entries (Ring) and the rotating file (Rotation).
--   Config      internal/config/config.go: the records and their default values, ApplyDefaults
--               (Defaults), Validate, and what the API shows of a server (Redact).
--   Mcp         internal/mcp/protocol.go: revisions, requests, responses and envelopes, and the metadata
--               that the stateless revision adds to a request (Meta).
--   Transport   internal/transport: the stdio client (Stdio, stdio.go) as what each call does under
--               the lock, and its calls, its process and its timer interleaved in any order
--               (Stdio/System, with the invariant of every reachable state in Stdio/Invariant); the
--               reader of event streams (Sse, sse.go); and the streamable HTTP client (StreamableHttp,
--               streamable_http.go): what a request carries (Exchange), the answer in a body or a
--               stream (Events), and the calls (Calls); and the older client for event streams
--               (LegacySse, legacy_sse.go): its table and its ready channels, what the loop makes of an
--               event (Loop), and the actions of its goroutines in any order (System).
--   App         internal/app/manager.go: a backend and its client (Client), ensureInitialized
--               (Handshake), the loops that discover tools and the like, page by page (Pages),
--               ApplyConfig (Apply), what is recorded of a server (Status), CallTool and CallServer
--               (Calls), checkHealth (Checks) and Discover (Discover).
--   Gateway     internal/gateway/gateway.go: single messages and batches, which of them are answered
--               (Replies), and what a result is decorated with (Decorate); dispatch and the methods
--               that call a server (Dispatch), the methods that list (Methods), and the resource URIs
--               (Uris).
--   Prelude, Errors   what the parts share: byte strings, maps, Go's integers, errors, results.
--   Tests       runs at concrete values.
--
-- How the code is read. A method with a receiver takes its state and returns the new state; each
-- runs under its lock, and so is one step. A `context.Context` is what `ctx.Err()` returns.
-- Strings are their bytes. A Go map is an association list, and its order stands for one of the
-- orders that Go may take. Errors keep what the code tests of them, and the fixed part of their
-- text. Integers are natural numbers where the code cannot go below 0, and `Prelude.Int` where it
-- can or where a sum may wrap.
--
-- What the code calls and this repository does not hold is a parameter: encoding/json (`marshal`,
-- `marshal_size`, `schema_keys`, the `decode` functions, `Codec`), SHA-256 as hexadecimal digits
-- (`sha256`), and the MCP servers behind a client
-- (App.Client). No law is assumed of encoding/json in the theorems on metadata: a decoded
-- `map[string]any` is a map to the texts that its values are encoded to again. The registry is over any store
-- with the laws of `ToolLaws`, and the store in memory has them.
--
-- Fuel. `rebuild_loop` and `discover_pages` take a number of pages, since the loops of the source
-- end only when a store or a server ends them; one page more than follow the first is enough.
-- `evict` of the cache takes the length of its list, which each round makes shorter. `read_sse`
-- takes a number of lines and `read_events` a number of events; each takes a byte of the stream
-- at least, so that one more than its bytes is enough.
--
-- What runs at the same time. A step of Stdio/System is what a goroutine does under the client's
-- lock, with the send to the channels of capacity one that follows it. App/Calls runs a call
-- alone but for `meanwhile`, which is what others do to the backend between the handshake and the
-- call. LegacySse/System runs any list of the actions that its goroutines take under the lock.
-- Elsewhere the operations run one after another.
--
-- Not modelled: the SQL stores, the HTTP routes and the command line, which are I/O; the
-- manager's worker pools and background loops; the parts of the standard library that the
-- transports and the gateway call, which the records `Http`, `Json`, `Texts` and `Urls` stand
-- for.
pub mod Prelude
pub mod Errors
pub mod Model
pub mod Registry
pub mod Storage
pub mod Logbuf
pub mod Config
pub mod Mcp
pub mod App
pub mod Transport
pub mod Gateway
pub mod Tests
