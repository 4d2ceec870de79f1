-- ===== src/App/Calls.antt =====
-- internal/app/manager.go: a call to a server through the manager. `ctx` and `after_probe` are what
-- the call's context says, and `meanwhile` is what other goroutines do to the backend between the
-- handshake and the call, when no lock is held. Waiting for the locks of a backend (`initMu`, `mu`)
-- and for the server is no part of the model: a handshake and a call are functions that return.
pub mod Places
pub mod Sound
use lessen_mcp_gateway.Prelude.{
  ℕ, zero, suc, ◌+◌, ◌-◌, Bytes, codes, ◌==◌, Bool, true, false, Option, none, some, List, [], ◌∷◌,
  ◌++◌, if◌then◌else◌, ltb, Map, lookup, insert,
}
use lessen_mcp_gateway.Errors.{Error, Context, Result, ok, err, message, panicked}
use lessen_mcp_gateway.Model.{Raw, Time, HealthStatus}
use lessen_mcp_gateway.Mcp.Protocol.{ClientInfo, InitializeResult, protocol_latest}
use lessen_mcp_gateway.Mcp.Meta.{Json, Params, add_request_meta}
use lessen_mcp_gateway.Storage.Interface.{Store}
use lessen_mcp_gateway.Registry.{Registry, resolve_tool}
use lessen_mcp_gateway.App.Client.{Client, Backend}
use lessen_mcp_gateway.App.Handshake.{ensure_initialized}
use lessen_mcp_gateway.App.Apply.{Manager, is_enabled}
use lessen_mcp_gateway.App.Status.{mark_error, mark_health}

-- A channel used as a semaphore.
pub record Semaphore : Type 0 where
  pub capacity : ℕ
  pub held : ℕ

-- `acquire`; `none` is a call that waits for a place. Where both a place and the end of the context
-- are there, Go takes either, as `gives_up` says.
unfoldable pub acquire : Context → Bool → Semaphore → Option (Semaphore × Result (Unit {0}))
acquire none gives_up s =
    if ltb s.held s.capacity then some (record s { held = s.held + 1 }, ok tt) else none
acquire (some e) gives_up s =
    if ltb s.held s.capacity
    then (if gives_up then some (s, err e) else some (record s { held = s.held + 1 }, ok tt))
    else some (s, err e)

unfoldable pub release : Semaphore → Semaphore
release s = record s { held = s.held - 1 }

-- `globalSem`, and the `sem` of the backend that is called.
pub record Gates : Type 0 where
  pub global : Semaphore
  pub own : Semaphore

-- What the manager calls of a client besides the handshake; `is_running` is there for clients that
-- have `IsRunning`.
pub record Caller (C : Type 0) : Type 0 where
  pub call : Context → Bytes → Params → C → C × Result Raw
  pub health : Context → C → C × Result (Unit {0})
  pub is_running : C → Option Bool

abbrev pub find_backend : {C S : Type 0} → Manager C S → Bytes → Result (Backend C)
unfolding lookup
find_backend m id = elim (lookup id m.backends) [
  | some b ↦ ok b
  | none ↦ err (message (codes "server is not configured"))
]

abbrev pub put_backend : {C S : Type 0} → Bytes → Backend C → Manager C S → Manager C S
put_backend id b m = record m { backends = insert id b m.backends }

-- `paramsForBackend`, and the encoding that `NewRequest` makes of its result.
unfoldable pub params_for_backend :
    {C : Type 0} → Json → ClientInfo → Backend C → Params → Result Params
unfolding add_request_meta
params_for_backend json info b params =
    if b.modern
    then elim (add_request_meta json params
        (elim b.protocol_version [ [] ↦ protocol_latest | c ∷ version ↦ c ∷ version ]) info
        (codes "{}")) [ err e ↦ err e | ok out ↦ ok (some (ok (json.encode_object out))) ]
    else ok params

-- The contexts of a call, and the choices of `acquire`.
pub record Moment : Type 0 where
  pub ctx : Context
  pub after_probe : Context
  pub gives_up_global : Bool
  pub gives_up_own : Bool
  pub now : Time

module _ {C S : Type 0} (client : Client C) (caller : Caller C) (json : Json) (info : ClientInfo)
    (store : Store S) (error_text : Error → Bytes) (at : Moment)
    (meanwhile : Backend C → Backend C) where
  abbrev pub marked : Bytes → HealthStatus → Error → Manager C S → Manager C S
  marked id status e m = record m {
    registry = mark_error store error_text at.now m.registry id status e;
  }

  -- `client.Call`, on the client that the backend has by then; a call on none panics.
  unfoldable pub call_client :
      Manager C S → Bytes → Backend C → Bytes → Params → Manager C S × Result Raw
  unfolding params_for_backend mark_error
  call_client m id b method params = elim (params_for_backend json info b params) [
    | err e ↦ (put_backend id b m, err e)
    | ok request ↦ elim b.client [
      | none ↦ (put_backend id b m, err panicked)
      | some c ↦
          let (c', reply) = caller.call at.ctx method request c in
          let m' = put_backend id (record b { client = some c' }) m in
          elim reply [
            | err e ↦ (marked id HealthStatus.degraded e m', err e)
            | ok result ↦ (m', ok result)
          ]
    ]
  ]

  -- What `CallTool` and `CallServer` do once they have their places.
  unfoldable pub call_backend :
      Manager C S → Bytes → Backend C → Bytes → Params → Manager C S × Result Raw
  unfolding ensure_initialized call_client mark_error
  call_backend m id b method params =
      let (b', ready) = ensure_initialized client at.ctx at.after_probe at.now b in
      elim ready [
        | err e ↦ (marked id HealthStatus.unhealthy e (put_backend id b' m), err e)
        | ok _ ↦ call_client m id (meanwhile b') method params
      ]

  -- The two semaphores around a call; what was acquired is released however the call ends.
  unfoldable pub guarded :
      Gates
      → Manager C S
      → Bytes
      → Backend C
      → Bytes
      → Params
      → Option (Gates × Manager C S × Result Raw)
  unfolding acquire release call_backend
  guarded g m id b method params = elim (acquire at.ctx at.gives_up_global g.global) [
    | none ↦ none
    | some (global, err e) ↦ some (record g { global = global }, m, err e)
    | some (global, ok _) ↦ elim (acquire at.ctx at.gives_up_own g.own) [
      | none ↦ none
      | some (own, err e) ↦ some (record { global = release global; own = own }, m, err e)
      | some (own, ok _) ↦
          let (m', reply) = call_backend m id b method params in
          some (record { global = release global; own = release own }, m', reply)
    ]
  ]

  unfoldable pub call_server :
      Gates → Manager C S → Bytes → Bytes → Params → Option (Gates × Manager C S × Result Raw)
  unfolding guarded find_backend
  call_server g m id method params = elim (find_backend m id) [
    | err e ↦ some (g, m, err e)
    | ok b ↦ guarded g m id b method params
  ]

  -- `encode_call` is the JSON text of `CallToolParams`.
  unfoldable pub call_tool :
      (Bytes → Raw → Result Raw)
      → Gates
      → Manager C S
      → Bytes
      → Raw
      → Option (Gates × Manager C S × Result Raw)
  unfolding guarded find_backend resolve_tool
  call_tool encode_call g m exposed_name arguments =
      let (r, resolved) = resolve_tool store m.registry at.ctx exposed_name in
      let m' = record m { registry = r } in
      elim resolved [
        | err e ↦ some (g, m', err e)
        | ok tool ↦ elim (find_backend m' tool.server_id) [
          | err e ↦ some (g, m', err e)
          | ok b ↦
              guarded g m' tool.server_id b (codes "tools/call")
                (some (encode_call tool.name arguments))
        ]
      ]
