-- ===== src/Transport/StreamableHttp.antt =====
-- internal/transport/streamable_http.go: a client that posts each request, and reads the answer as
-- JSON or from an event stream. net/http and encoding/json are parameters: `do_request` sends a
-- request, `canonical` is how a header's key is spelled in a message, and the body of a response is
-- its bytes and the error that reading ends with.
pub mod Exchange
pub mod Events
pub mod Calls
pub mod Ends
pub mod Owned
pub mod Finds
pub mod Sessions
use lessen_mcp_gateway.Prelude.{
  ℕ, zero, suc, ◌+◌, ◌*◌, ◌%◌, ◌^◌, Bytes, codes, ◌==◌, nat_eq, ltb, leb, Bool, true, false, not,
  ◌&&◌, ◌||◌, Option, none, some, List, [], ◌∷◌, ◌++◌, if◌then◌else◌, length, take, Map, insert,
  lookup,
}
use lessen_mcp_gateway.Prelude.Int.{ℤ, pos, negsuc, add_int, clip, not_positive}
use lessen_mcp_gateway.Errors.{Error, Context, Result, ok, err, message, ◌>>=◌, ◌>>◌, check}
use lessen_mcp_gateway.Model.{Raw}
use lessen_mcp_gateway.Mcp.Protocol.{
  Base, Request, Response, RequestId, Envelope, request, response, parse_envelope, jsonrpc_version,
  protocol_latest,
}
use lessen_mcp_gateway.Storage.Search.{trim_space}
use lessen_mcp_gateway.Transport.Sse.{SseEvent, read_sse}
use lessen_mcp_gateway.Transport.Stdio.{outcome}

-- `HTTPOptions`, less the logger
pub record HttpOptions : Type 0 where
  pub url : Bytes
  pub headers : Map Bytes
  pub timeout : ℤ
  pub idle_timeout : ℤ
  pub max_idle_connections : ℤ
  pub max_idle_connections_per_host : ℤ
  pub max_connections_per_host : ℤ
  pub max_response_bytes : ℤ
  pub protocol_version : Bytes

pub record StreamableHttpClient : Type 0 where
  pub opts : HttpOptions
  pub next_id : ℕ
  pub session_id : Bytes
  pub closed : Bool

-- `60 * time.Second` and `5 * time.Minute`, in nanoseconds, and `32 << 20`.
abbrev pub minute : ℕ
minute = 60000000000

abbrev pub default_max_bytes : ℕ
default_max_bytes = 33554432

-- `if value <= 0 { value = fallback }`
abbrev pub or_default : ℤ → ℕ → ℤ
or_default value fallback = if not_positive value then pos fallback else value

-- `NewStreamableHTTP`; the transport of net/http that it sets up is not part of the state.
unfoldable pub new_streamable_http : HttpOptions → Result StreamableHttpClient
unfolding ◌==◌ trim_space
new_streamable_http o =
    if trim_space o.url == []
    then err (message (codes "streamable HTTP URL is required"))
    else ok (record {
      opts = record o {
        timeout = or_default o.timeout minute;
        idle_timeout = or_default o.idle_timeout (5 * minute);
        max_idle_connections = or_default o.max_idle_connections 16;
        max_idle_connections_per_host = or_default o.max_idle_connections_per_host 2;
        max_connections_per_host = or_default o.max_connections_per_host 8;
        max_response_bytes = or_default o.max_response_bytes default_max_bytes;
        protocol_version =
            (if o.protocol_version == [] then protocol_latest else o.protocol_version);
      };
      next_id = 0;
      session_id = [];
      closed = false;
    })

-- An `*http.Request`
pub record HttpRequest : Type 0 where
  pub url : Bytes
  pub headers : Map Bytes
  pub body : Bytes

-- A body, and the error that its reader ends with.
pub record Body : Type 0 where
  pub bytes : Bytes
  pub ends_with : Error

-- An `*http.Response`: its status, the media type that package mime reads in its content type, and
-- the value of the header Mcp-Session-Id, empty where there is none.
pub record HttpResponse : Type 0 where
  pub status : ℕ
  pub media_type : Bytes
  pub session : Bytes
  pub body : Body

abbrev pub eof : Error
eof = message (codes "EOF")

abbrev pub is_eof : Error → Bool
is_eof (message text) = text == codes "EOF"
is_eof e = false

-- `io.LimitReader(body, n)`: io.EOF once n bytes are read.
unfoldable pub limit_reader : Body → ℤ → Body
limit_reader b n = record {
  bytes = take (clip n) b.bytes;
  ends_with = (if leb (clip n) (length b.bytes) then eof else b.ends_with);
}

-- `io.ReadAll`
unfoldable pub read_all : Body → Result Bytes
read_all b = if is_eof b.ends_with then ok b.bytes else err b.ends_with

unfoldable pub read_limited : Body → ℤ → Result Bytes
unfolding read_all limit_reader
read_limited b limit = do
  let most = or_default limit default_max_bytes
  bytes ← read_all (limit_reader b (add_int most 1))
  if ltb (clip most) (length bytes)
      then err (message (codes "response exceeds limit"))
      else ok bytes
