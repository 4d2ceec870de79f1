-- ===== src/Transport/LegacySse/System.antt =====
-- internal/transport/legacy_sse.go: what goroutines do to a client and to the channels of its
-- calls, in the order in which they take the lock.
use lessen_mcp_gateway.Prelude.{
  ℕ, Bytes, codes, Bool, true, Option, none, some, List, [], ◌∷◌, if◌then◌else◌,
}
use lessen_mcp_gateway.Errors.{Error, Result, ok, err, message}
use lessen_mcp_gateway.Mcp.Protocol.{Response}
use lessen_mcp_gateway.Transport.Stdio.{CallResult, delivers, refuses, discards}
use lessen_mcp_gateway.Transport.Stdio.System.{send, send_all}
use lessen_mcp_gateway.Transport.Sse.{SseEvent}
use lessen_mcp_gateway.Transport.LegacySse.{
  LegacySseClient, Signal, start_stream, receive_ready, put_back, add_id, register, remove_pending,
  deliver, announce, fail_stream, close,
}
use lessen_mcp_gateway.Transport.LegacySse.Loop.{Reaction, announces, breaks, handles}

pub record System : Type 0 where
  pub client : LegacySseClient
  pub channel : ℕ → List CallResult

pub data Action : Type 0 where
  -- `ensureStream`
  starts : Action
  receives : ℕ → Action
  puts_back : ℕ → Signal → Action
  -- `Call`
  numbers : Action
  registers : ℕ → Action
  removes : ℕ → Action
  -- `streamLoop` and `post`
  announcing : ℕ → Bytes → Bool → Action
  responds : Response → Action
  fails : ℕ → Error → Action
  -- `Close`
  closes : Action

abbrev pub sending : System → LegacySseClient × Option (ℕ × CallResult) → System
sending s (c, none) = record s { client = c }
sending s (c, some (n, r)) = record s { client = c; channel = send n r s.channel }

abbrev pub sending_all : CallResult → System → LegacySseClient × List ℕ → System
sending_all r s (c, ns) = record s { client = c; channel = send_all ns r s.channel }

abbrev pub starting : LegacySseClient → Result LegacySseClient → LegacySseClient
starting c (err e) = c
starting c (ok c') = c'

abbrev pub registering : LegacySseClient → Result (LegacySseClient × Bytes) → LegacySseClient
registering c (err e) = c
registering c (ok (c', endpoint)) = c'

unfoldable pub act : (ℕ → Bytes) → Action → System → System
unfolding start_stream receive_ready put_back add_id register remove_pending deliver announce
    fail_stream close
act f starts s = record s { client = starting s.client (start_stream s.client) }
act f (receives g) s = record s { client = (receive_ready g s.client).0 }
act f (puts_back g v) s = record s { client = put_back g v s.client }
act f numbers s = record s { client = add_id s.client }
act f (registers n) s = record s { client = registering s.client (register n s.client) }
act f (removes n) s = record s { client = remove_pending n s.client }
act f (announcing g endpoint signaled) s = record s {
  client = announce g endpoint signaled s.client;
}
act f (responds r) s = sending s (deliver f r s.client)
act f (fails g e) s = sending_all (err e) s (fail_stream g e s.client)
act f closes s = sending_all (err (message (codes "legacy SSE client closed"))) s (close s.client)

unfoldable pub run : (ℕ → Bytes) → List Action → System → System
unfolding act
run f [] s = s
run f (a ∷ actions) s = run f actions (act f a s)

-- The actions of `streamLoop` on the events that it reads, until reading ends with an error; that
-- the client was closed (`canceled`) ends it without one. Refusals are posted by goroutines of
-- their own.
unfoldable pub stream_actions :
    (Bool → SseEvent → Reaction)
    → (Error → Error)
    → ℕ
    → Bool
    → Bool
    → Error
    → List SseEvent
    → List Action
stream_actions react wrap g canceled signaled ends_with [] =
    if canceled then [] else fails g (wrap ends_with) ∷ []
stream_actions react wrap g canceled signaled ends_with (event ∷ events) =
    let rest = stream_actions react wrap g canceled signaled ends_with events in
    let signaled_rest = stream_actions react wrap g canceled true ends_with events in
    elim (react signaled event) [
      | breaks e ↦ fails g e ∷ []
      | announces endpoint ↦ announcing g endpoint signaled ∷ signaled_rest
      | handles (delivers r) ↦ responds r ∷ rest
      | handles (refuses id) ↦ rest
      | handles discards ↦ rest
    ]
