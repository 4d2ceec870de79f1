-- ===== src/App/Calls/Sound.antt =====
-- What a call of internal/app/manager.go reports, and what it leaves in the registry.
use lessen_mcp_gateway.Prelude.{subst, ◌≡◌, inl, inr, refl, Bytes, some}
use lessen_mcp_gateway.Errors.{Error, Result, ok, err, panicked, Result-cases}
use lessen_mcp_gateway.Model.{Raw, HealthStatus}
use lessen_mcp_gateway.Mcp.Protocol.{ClientInfo, InitializeResult}
use lessen_mcp_gateway.Mcp.Meta.{Json, Params}
use lessen_mcp_gateway.Storage.Interface.{Store}
use lessen_mcp_gateway.App.Client.{Client, Backend, close}
use lessen_mcp_gateway.App.Handshake.{ensure_initialized}
use lessen_mcp_gateway.App.Handshake.Outcome.{IsSound, Outcome, ensure_initialized-Outcome}
use lessen_mcp_gateway.App.Apply.{Manager}
use lessen_mcp_gateway.App.Status.{mark_error}
use lessen_mcp_gateway.App.Calls.{Caller, Moment, params_for_backend, call_client, call_backend}

module _ {C S : Type 0} (client : Client C) (caller : Caller C) (json : Json) (info : ClientInfo)
    (store : Store S) (error_text : Error → Bytes) (at : Moment) where
  -- The registry and the reply after the server's answer.
  abbrev pub Answered : Manager C S → Bytes → Result Raw → Manager C S × Result Raw → Type 0
  Answered m id (ok result) (m', reply) = (m'.registry ≡ m.registry) × (reply ≡ ok result)
  Answered m id (err e) (m', reply) =
      (m'.registry ≡ mark_error store error_text at.now m.registry id HealthStatus.degraded e)
      × (reply ≡ err e)

  -- After the handshake of a backend: its client is asked, unless the parameters fail.
  abbrev pub Asked :
      Manager C S → Bytes → Backend C → Bytes → Result Params → Manager C S × Result Raw → Type 0
  Asked m id b method (err e) (m', reply) = (m'.registry ≡ m.registry) × (reply ≡ err e)
  Asked m id b method (ok request) out =
      (c : C) × (b.client ≡ some c) × Answered m id (caller.call at.ctx method request c).1 out

  -- By the backend after the handshake, and what the handshake says.
  abbrev pub Reported :
      Manager C S
      → Bytes
      → Bytes
      → Params
      → Backend C
      → Result InitializeResult
      → Manager C S × Result Raw
      → Type 0
  Reported m id method params b (err e) (m', reply) =
      (m'.registry ≡ mark_error store error_text at.now m.registry id HealthStatus.unhealthy e)
      × (reply ≡ err e)
  Reported m id method params b (ok ready) out =
      Asked m id b method (params_for_backend json info b params) out

  call_client-Asked :
      (m : Manager C S) (id : Bytes) (b : Backend C) (method : Bytes) (params : Params) (c : C)
      → b.client ≡ some c
      → Asked m id b method
          (params_for_backend json info b params)
          (call_client client caller json info store error_text at (λ x. x) m id b method params)
  unfolding call_client
  call_client-Asked m id b method params c there =
      elim (Result-cases (params_for_backend json info b params)) [
        | inr (e, fails) ↦ rw (fails, call_client) (refl, refl)
        | inl (request, fits) ↦ elim (Result-cases (caller.call at.ctx method request c).1) [
          | inl (result, answers) ↦ rw (fits, call_client, there) (c, refl, rw answers (refl, refl))
          | inr (e, fails) ↦ rw (fits, call_client, there) (c, refl, rw fails (refl, refl))
        ]
      ]

  -- When no other goroutine changes the backend between the handshake and the call, a call on a
  -- sound backend ends as follows. If the handshake fails, the call returns its error, and the
  -- server is marked unhealthy with that error. Else, if the parameters cannot be encoded, it
  -- returns that error and records nothing. Else there is a client to ask: a result of it is
  -- returned, and the registry is as it was; an error of it is returned, and the server is marked
  -- degraded with that error.
  pub call_backend-Reported :
      (m : Manager C S) (id : Bytes) (b : Backend C) (method : Bytes) (params : Params)
      → IsSound b
      → Reported m id method params
          (ensure_initialized client at.ctx at.after_probe at.now b).0
          (ensure_initialized client at.ctx at.after_probe at.now b).1
          (call_backend client caller json info store error_text at (λ x. x) m id b method params)
  unfolding call_backend
  call_backend-Reported m id b method params sound =
      let begun = ensure_initialized client at.ctx at.after_probe at.now b in
      let known = ensure_initialized-Outcome client at.ctx at.after_probe at.now b sound in
      elim (Result-cases begun.1) [
        | inr (e, fails) ↦ rw (fails, call_backend) (refl, refl)
        | inl (r, ready) ↦
            let (done, revision, version, kept, (c, there)) =
              subst (λ (x : Result InitializeResult). Outcome b (begun.0, x)) ready known in
            rw (ready, call_backend) (call_client-Asked m id begun.0 method params c there)
      ]

  -- When the backend is closed between the handshake and the call, as a reload of the configuration
  -- does to a server that it removes or replaces, every call whose handshake succeeds panics: it
  -- calls a client that is nil.
  pub call_backend-closed :
      (m : Manager C S) (id : Bytes) (b : Backend C) (method : Bytes) (params : Params)
      (r : InitializeResult)
      → (ensure_initialized client at.ctx at.after_probe at.now b).1 ≡ ok r
      → (call_backend client caller json info store error_text at close m id b method params).1
        ≡ err panicked
  unfolding call_backend call_client params_for_backend close
  call_backend-closed m id b method params r ready = rw (ready, call_backend) refl
