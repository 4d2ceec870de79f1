-- ===== src/Gateway/Replies.antt =====
-- Which messages are answered, and in which order.
use lessen_mcp_gateway.Prelude.{Bytes, Bool, true, not, List, [], ◌∷◌}
use lessen_mcp_gateway.Errors.{Result, ok, err}
use lessen_mcp_gateway.Model.{Raw}
use lessen_mcp_gateway.Mcp.Protocol.{Envelope, request, response, parse_envelope, is_zero}
use lessen_mcp_gateway.Gateway.{Codec, handle_one}

module _ (codec : Codec) (server_info : Raw) {S : Type 0}
    (dispatch : S → Bytes → Raw → S × Result Raw) where
  abbrev parsed : Raw → Result Envelope
  parsed raw = parse_envelope codec.decode_base codec.decode_request codec.decode_response raw

  -- All but the requests without an id, which are notifications.
  unfoldable pub wants_reply : Raw → Bool
  wants_reply raw = elim (parsed raw) [
    | err e ↦ true
    | ok (response r) ↦ true
    | ok (request r) ↦ not (is_zero r.id)
  ]

  -- The state that a message leaves: only a request runs a method.
  unfoldable pub after : S → Raw → S
  after s raw = elim (parsed raw) [
    | err e ↦ s
    | ok (response r) ↦ s
    | ok (request r) ↦ (dispatch s r.method r.params).0
  ]

  -- Each message of a batch, with the state that the messages before it leave.
  unfoldable pub trace : S → List Raw → List (S × Raw)
  trace s [] = []
  trace s (item ∷ items) = (s, item) ∷ trace (after s item) items

  -- The state that a batch leaves.
  unfoldable pub after_all : S → List Raw → S
  after_all s [] = s
  after_all s (item ∷ items) = after_all (after s item) items

  abbrev pub reply_at : S × Raw → Raw
  reply_at x = (handle_one codec server_info dispatch x.0 x.1).1
