-- ===== src/App/Checks.antt =====
-- `checkHealth` of internal/app/manager.go, for a context that ends no sooner than the health
-- timeout; the parameters are those of Calls.
use lessen_mcp_gateway.Prelude.{
  Bytes, codes, ◌==◌, true, false, not, ◌&&◌, none, some, if◌then◌else◌,
}
use lessen_mcp_gateway.Errors.{Error, Result, ok, err, panicked}
use lessen_mcp_gateway.Model.{HealthStatus}
use lessen_mcp_gateway.Mcp.Protocol.{ClientInfo}
use lessen_mcp_gateway.Mcp.Meta.{Json}
use lessen_mcp_gateway.Storage.Interface.{Store}
use lessen_mcp_gateway.App.Client.{Client, Backend}
use lessen_mcp_gateway.App.Handshake.{ensure_initialized}
use lessen_mcp_gateway.App.Apply.{Manager, is_enabled}
use lessen_mcp_gateway.App.Status.{mark_error, mark_health}
use lessen_mcp_gateway.App.Calls.{Caller, Moment, put_backend, params_for_backend, marked}

module _ {C S : Type 0} (client : Client C) (caller : Caller C) (json : Json) (info : ClientInfo)
    (store : Store S) (error_text : Error → Bytes) (at : Moment)
    (meanwhile : Backend C → Backend C) where
  abbrev mark : Bytes → HealthStatus → Error → Manager C S → Manager C S
  mark = marked client caller json info store error_text at meanwhile

  abbrev healthy : HealthStatus → Bytes → Bytes → Manager C S → Manager C S
  healthy status text id m = record m {
    registry = mark_health store error_text at.now m.registry id status text;
  }

  -- What `checkHealth` records of the answer.
  abbrev answered : Bytes → Manager C S → Result (Unit {0}) → Manager C S
  answered id m (err e) = mark id HealthStatus.unhealthy e m
  answered id m (ok _) = healthy HealthStatus.healthy (codes "health check passed") id m

  -- The check of an initialised backend. The result is an error where it panics, and only there.
  unfoldable pub ask_health : Manager C S → Bytes → Backend C → Manager C S × Result (Unit {0})
  unfolding params_for_backend mark_error mark_health
  ask_health m id b =
      if b.modern
      then elim (params_for_backend json info b none) [
        | err e ↦ (answered id (put_backend id b m) (err e), ok tt)
        | ok request ↦ elim b.client [
          | none ↦ (put_backend id b m, err panicked)
          | some c ↦
              let (c', reply) = caller.call at.ctx (codes "server/discover") request c in
              (
                answered id (put_backend id (record b { client = some c' }) m)
                    (elim reply [ err e ↦ err e | ok _ ↦ ok tt ]),
                ok tt,
              )
        ]
      ]
      else elim b.client [
        | none ↦ (put_backend id b m, err panicked)
        | some c ↦
            let (c', reply) = caller.health at.ctx c in
            (answered id (put_backend id (record b { client = some c' }) m) reply, ok tt)
      ]

  unfoldable pub probe_health : Manager C S → Bytes → Backend C → Manager C S × Result (Unit {0})
  unfolding ensure_initialized ask_health mark_error
  probe_health m id b =
      let (b', ready) = ensure_initialized client at.ctx at.after_probe at.now b in
      elim ready [
        | err e ↦ (mark id HealthStatus.unhealthy e (put_backend id b' m), ok tt)
        | ok _ ↦ ask_health m id (meanwhile b')
      ]

  -- `checkHealth`: a lazy process that does not run is left asleep.
  unfoldable pub check_health : Manager C S → Bytes → Backend C → Manager C S × Result (Unit {0})
  unfolding probe_health mark_health is_enabled ◌==◌
  check_health m id b =
      if not (is_enabled b.cfg)
      then (healthy HealthStatus.disabled (codes "disabled in configuration") id m, ok tt)
      else if b.cfg.type == codes "stdio" && b.cfg.lifecycle.mode == codes "lazy"
      then elim b.client [
        | none ↦
            (healthy HealthStatus.sleeping (codes "ready for on-demand activation") id m, ok tt)
        | some c ↦ elim (caller.is_running c) [
          | some false ↦ (
            healthy HealthStatus.sleeping (codes "stopped after idle timeout") id
                (put_backend id (record b { initialized = false }) m),
            ok tt,
          )
          | some true ↦ probe_health m id b
          | none ↦ probe_health m id b
        ]
      ]
      else probe_health m id b
