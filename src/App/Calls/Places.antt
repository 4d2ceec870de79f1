-- ===== src/App/Calls/Places.antt =====
-- The semaphores of internal/app/manager.go around a call.
use lessen_mcp_gateway.Prelude.{
  codes, ℕ, ◌+◌, ◌≡◌, inl, inr, subst, refl, ap, Bytes, Bool, true, false, Option, none, some, ltb,
  arith, Bool-cases, Option-cases,
}
use lessen_mcp_gateway.Errors.{Error, Context, Result, ok, err, Result-cases}
use lessen_mcp_gateway.Model.{Raw}
use lessen_mcp_gateway.Mcp.Protocol.{ClientInfo}
use lessen_mcp_gateway.Mcp.Meta.{Json, Params}
use lessen_mcp_gateway.Storage.Interface.{Store}
use lessen_mcp_gateway.Registry.{resolve_tool}
use lessen_mcp_gateway.App.Client.{Client, Backend}
use lessen_mcp_gateway.App.Apply.{Manager}
use lessen_mcp_gateway.App.Calls.{
  Semaphore, acquire, release, Gates, Caller, Moment, find_backend, guarded, call_server, call_tool,
}

-- A place that is given back leaves the semaphore as it was; one that is not taken leaves it alone.
abbrev Acquired : Semaphore → Option (Semaphore × Result (Unit {0})) → Type 0
Acquired s none = Unit
Acquired s (some (t, err e)) = t ≡ s
Acquired s (some (t, ok _)) = release t ≡ s

release_taken : (s : Semaphore) → release (record s { held = s.held + 1 }) ≡ s
unfolding release
release_taken s = ap (λ (k : ℕ). record s { held = k }) (omega arith)

acquire-Acquired :
    (ctx : Context) (gives_up : Bool) (s : Semaphore) → Acquired s (acquire ctx gives_up s)
unfolding acquire release
acquire-Acquired none gives_up s = elim (Bool-cases (ltb s.held s.capacity)) [
  | inl room ↦ rw room (release_taken s)
  | inr full ↦ rw full tt
]
acquire-Acquired (some e) true s = elim (Bool-cases (ltb s.held s.capacity)) [
  | inl room ↦ rw room refl
  | inr full ↦ rw full refl
]
acquire-Acquired (some e) false s = elim (Bool-cases (ltb s.held s.capacity)) [
  | inl room ↦ rw room (release_taken s)
  | inr full ↦ rw full refl
]

-- A call that does not wait for a place, with the semaphores that it leaves.
abbrev pub Ended : {C S : Type 0} → Gates → Option (Gates × Manager C S × Result Raw) → Type 0
Ended g none = Unit
Ended g (some (h, m, reply)) = h ≡ g

module _ {C S : Type 0} (client : Client C) (caller : Caller C) (json : Json) (info : ClientInfo)
    (store : Store S) (error_text : Error → Bytes) (at : Moment)
    (meanwhile : Backend C → Backend C) where
  guarded-Ended :
      (g : Gates) (m : Manager C S) (id : Bytes) (b : Backend C) (method : Bytes) (params : Params)
      → Ended g
          (guarded client caller json info store error_text at meanwhile g m id b method params)
  unfolding guarded
  guarded-Ended g m id b method params =
      let first = acquire-Acquired at.ctx at.gives_up_global g.global in
      let second = acquire-Acquired at.ctx at.gives_up_own g.own in
      elim (Option-cases (acquire at.ctx at.gives_up_global g.global)) [
        | inl waits ↦ rw (waits, guarded) tt
        | inr ((global, err e), refused) ↦
            rw (refused, guarded)
              (ap (λ x. record g { global = x }) (subst (Acquired g.global) refused first))
        | inr ((global, ok _), taken) ↦
            let back : release global ≡ g.global = subst (Acquired g.global) taken first in
            elim (Option-cases (acquire at.ctx at.gives_up_own g.own)) [
              | inl waits ↦ rw (taken, guarded, waits) tt
              | inr ((own, err e), refused) ↦
                  rw (taken, guarded, refused)
                    (let left : own ≡ g.own = subst (Acquired g.own) refused second in
                      rw (back, left) refl)
              | inr ((own, ok _), also) ↦
                  rw (taken, guarded, also)
                    (let back_own : release own ≡ g.own = subst (Acquired g.own) also second in
                      rw (back, back_own) refl)
            ]
      ]

  -- However a call through the manager ends, with a result, with an error of the handshake, of the
  -- parameters or of the server, with a panic, or with a context that is done while it waits for a
  -- place, it leaves both semaphores as it found them. This holds of `CallServer`.
  pub call_server-Ended :
      (g : Gates) (m : Manager C S) (id method : Bytes) (params : Params)
      → Ended g
          (call_server client caller json info store error_text at meanwhile g m id method params)
  unfolding call_server
  call_server-Ended g m id method params = elim (Result-cases (find_backend m id)) [
    | inr (e, missing) ↦ rw (missing, call_server) refl
    | inl (b, found) ↦ rw (found, call_server) (guarded-Ended g m id b method params)
  ]

  -- The same of `CallTool`, which finds the server by the tool's exposed name.
  pub call_tool-Ended :
      (encode_call : Bytes → Raw → Result Raw) (g : Gates) (m : Manager C S) (exposed_name : Bytes)
      (arguments : Raw)
      → Ended g (
          call_tool client caller json info store error_text at meanwhile encode_call g m
            exposed_name arguments)
  unfolding call_tool
  call_tool-Ended encode_call g m exposed_name arguments =
      let r = (resolve_tool store m.registry at.ctx exposed_name).0 in
      let m' = record m { registry = r } in
      elim (Result-cases (resolve_tool store m.registry at.ctx exposed_name).1) [
        | inr (e, missing) ↦ rw (missing, call_tool) refl
        | inl (tool, resolved) ↦ elim (Result-cases (find_backend m' tool.server_id)) [
          | inr (e, missing) ↦ rw (resolved, call_tool, missing) refl
          | inl (b, found) ↦
              rw (resolved, call_tool, found)
                (guarded-Ended g m' tool.server_id b (codes "tools/call")
                  (some (encode_call tool.name arguments)))
        ]
      ]
