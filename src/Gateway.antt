-- ===== src/Gateway.antt =====
-- internal/gateway/gateway.go: JSON-RPC requests of MCP clients. `handle` takes a message apart,
-- runs each request of it, and answers those that want an answer. What a method does is a parameter
-- here, `dispatch`, over a state that it may change; so is encoding/json (Codec).
pub mod Replies
pub mod Decorate
pub mod Uris
pub mod Methods
pub mod Dispatch
use lessen_mcp_gateway.Prelude.{
  ℕ, Bytes, codes, ◌==◌, Bool, true, false, not, ◌&&◌, ◌||◌, Option, none, some, List, [], ◌∷◌,
  if◌then◌else◌, has_prefix, Map, lookup, insert,
}
use lessen_mcp_gateway.Prelude.Int.{ℤ, neg}
use lessen_mcp_gateway.Errors.{
  Error, Result, ok, err, canceled, deadline_exceeded, not_found, panicked, rpc, message,
}
use lessen_mcp_gateway.Model.{Raw}
use lessen_mcp_gateway.Storage.Search.{trim_space}
use lessen_mcp_gateway.Mcp.Protocol.{
  RequestMeta, Base, Request, Response, Envelope, request, response, parse_envelope,
  is_modern_request, is_zero, new_error, new_result,
}

-- What JSON texts decode to, and what values encode to. `marshal` gives no bytes for a response
-- whose result is not JSON.
pub record Codec : Type 0 where
  pub decode_base : Raw → Result Base
  pub decode_request : Raw → Result Request
  pub decode_response : Raw → Result Response
  pub decode_params : Raw → Result Raw
  pub decode_meta : Raw → Result RequestMeta
  pub decode_batch : Raw → Option (List Raw)
  pub marshal : Response → Raw
  pub marshal_batch : List Raw → Raw
  pub decode_object : Raw → Result (Map Raw)
  pub marshal_object : Map Raw → Raw

-- The code and the text for an error of a method; a panic never comes to this point.
unfoldable pub error_reply : Error → ℤ × Bytes
error_reply (rpc code text) = (code, text)
error_reply canceled = (neg 32001, codes "context canceled")
error_reply deadline_exceeded = (neg 32001, codes "context deadline exceeded")
error_reply not_found = (neg 32602, codes "storage: not found")
error_reply panicked = (neg 32603, codes "panic")
error_reply (message text) = (neg 32603, text)

unfoldable pub is_cacheable_method : Bytes → Bool
unfolding ◌==◌
is_cacheable_method method =
    method == codes "server/discover"
    || method == codes "tools/list"
    || method == codes "resources/list"
    || method == codes "resources/templates/list"
    || method == codes "resources/read"
    || method == codes "prompts/list"

-- `if _, ok := result[key]; !ok { result[key] = value }`
unfoldable pub put_missing : Bytes → Raw → Map Raw → Map Raw
put_missing key value m = elim (lookup key m) [ some v ↦ m | none ↦ insert key value m ]

abbrev pub ttl : Bytes → Raw
ttl method = if method == codes "resources/read" then codes "0" else codes "30000"

-- What `decorateModernResult` adds to an object, with the text of the new `_meta`.
unfoldable pub decorate_object : Bytes → Raw → Map Raw → Map Raw
unfolding put_missing is_cacheable_method
decorate_object method meta m =
    let with_meta =
      insert (codes "_meta") meta (put_missing (codes "resultType") (codes "\"complete\"") m) in
    if is_cacheable_method method
    then put_missing (codes "cacheScope") (codes "\"private\"")
        (put_missing (codes "ttlMs") (ttl method) with_meta)
    else with_meta

module _ (codec : Codec) (server_info : Raw) where
  -- `existing != nil`, and an object that cannot be read counts as empty.
  unfoldable pub meta_of : Option Raw → Map Raw
  unfolding ◌==◌
  meta_of none = []
  meta_of (some raw) = elim (codec.decode_object raw) [ ok m ↦ m | err e ↦ [] ]

  unfoldable pub decorate_modern_result : Bytes → Raw → Result Raw
  unfolding decorate_object meta_of trim_space
  decorate_modern_result method raw =
      let trimmed = trim_space raw in
      let decoded =
        if trimmed == [] || trimmed == codes "null" then ok [] else codec.decode_object raw in
      elim decoded [
        | err e ↦ err e
        | ok m ↦
            let meta =
              insert (codes "io.modelcontextprotocol/serverInfo") server_info
                (meta_of (lookup (codes "_meta") m)) in
            ok (codec.marshal_object (decorate_object method (codec.marshal_object meta) m))
      ]

  module _ {S : Type 0} (dispatch : S → Bytes → Raw → S × Result Raw) where
    -- The answer to a request that wants one.
    unfoldable pub answer : Request → Result Raw → Response
    unfolding error_reply is_modern_request decorate_modern_result new_error new_result
    answer r (err e) = let (code, text) = error_reply e in new_error r.id code text
    answer r (ok result) =
        if is_modern_request codec.decode_params codec.decode_meta r.method r.params
        then elim (decorate_modern_result r.method result) [
          | ok decorated ↦ new_result r.id decorated
          | err e ↦ new_error r.id (neg 32603) (codes "gateway produced an invalid MCP result")
        ]
        else new_result r.id result

    -- The reply, and whether the message is a notification. The detail that a parse error carries
    -- is left out.
    unfoldable pub handle_one : S → Raw → S × Raw × Bool
    unfolding answer parse_envelope is_zero new_error
    handle_one s raw =
        elim (parse_envelope codec.decode_base codec.decode_request codec.decode_response raw) [
          | err e ↦ (
            s,
            codec.marshal (new_error [] (neg 32700) (codes "invalid JSON-RPC request")),
            false,
          )
          | ok (response r) ↦ (
            s,
            codec.marshal
                (new_error r.id (neg 32600) (codes "gateway accepts requests, not responses")),
            false,
          )
          | ok (request r) ↦
              let (s', result) = dispatch s r.method r.params in
              if is_zero r.id then (s', [], true) else (s', codec.marshal (answer r result), false)
        ]

    -- `for _, item := range batch`: the items are run in order.
    unfoldable pub handle_batch : S → List Raw → S × List Raw
    unfolding handle_one ◌==◌
    handle_batch s [] = (s, [])
    handle_batch s (item ∷ items) =
        let (s', reply, notification) = handle_one s item in
        let (s'', replies) = handle_batch s' items in
        (s'', if not notification && not (reply == []) then reply ∷ replies else replies)

    -- `if len(responses) == 0 { return nil, true }`
    unfoldable pub batch_reply : S × List Raw → S × Raw × Bool
    batch_reply (s, []) = (s, [], true)
    batch_reply (s, reply ∷ replies) = (s, codec.marshal_batch (reply ∷ replies), false)

    -- A message that is refused as a whole.
    unfoldable pub refuse : S → ℤ → Bytes → S × Raw × Bool
    refuse s code text = (s, codec.marshal (new_error [] code text), false)

    unfoldable pub handle : S → Raw → S × Raw × Bool
    handle s raw =
        let trimmed = trim_space raw in
        if trimmed == []
        then refuse s (neg 32700) (codes "empty JSON-RPC request")
        else if has_prefix trimmed (codes "[")
        then elim (codec.decode_batch raw) [
          | none ↦ refuse s (neg 32700) (codes "invalid JSON")
          | some [] ↦ refuse s (neg 32600) (codes "empty JSON-RPC batch")
          | some (item ∷ items) ↦ batch_reply (handle_batch s (item ∷ items))
        ]
        else handle_one s raw
