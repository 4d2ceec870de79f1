-- ===== src/App/Status.antt =====
-- internal/app/manager.go: what the manager records of a server, and its health checks.
-- `error_text` is Go's `Error()`; the records are read and written with `context.Background()`,
-- which is never done.
pub mod Recorded
use lessen_mcp_gateway.Prelude.{
  ℕ, zero, suc, Bytes, codes, ◌==◌, Bool, true, false, ◌||◌, none, List, [], ◌∷◌, ◌++◌,
  if◌then◌else◌, length, take, leb, ltb, nat_eq,
}
use lessen_mcp_gateway.Prelude.Int.{ℤ, pos, negsuc}
use lessen_mcp_gateway.Errors.{Error, Result, ok, err}
use lessen_mcp_gateway.Model.{Raw, Time, HealthStatus}
use lessen_mcp_gateway.Mcp.Protocol.{contains_string}
use lessen_mcp_gateway.Storage.Interface.{Store}
use lessen_mcp_gateway.Registry.{Registry, get_server, upsert_server}

-- The bytes of "…".
abbrev ellipsis : Bytes
ellipsis = 226 ∷ 128 ∷ 166 ∷ []

unfoldable pub truncate : Bytes → ℕ → Bytes
truncate v max = if leb (length v) max then v else take max v ++ ellipsis

-- `workerCount`, for a number of jobs.
unfoldable pub worker_count : ℤ → ℕ → ℕ
worker_count configured zero = 0
worker_count (negsuc configured) (suc jobs) = 1
worker_count (pos zero) (suc jobs) = 1
worker_count (pos (suc configured)) (suc jobs) =
    if ltb (suc jobs) (suc configured) then suc jobs else suc configured

-- `isMethodNotFound`
unfoldable pub is_method_not_found : Error → Bool
is_method_not_found (Error.rpc (negsuc code) text) = nat_eq code 32600
is_method_not_found e = false

-- `supportsCapability`; `decode` is what encoding/json reads as the keys of an object.
unfoldable pub supports_capability : (Raw → Result (List Bytes)) → Raw → Bytes → Bool
unfolding ◌==◌
supports_capability decode raw name =
    if raw == [] || raw == codes "null"
    then true
    else elim (decode raw) [ err e ↦ true | ok keys ↦ contains_string keys name ]

module _ {S : Type 0} (store : Store S) (error_text : Error → Bytes) (now : Time) where
  unfoldable pub mark_health : Registry S → Bytes → HealthStatus → Bytes → Registry S
  unfolding get_server upsert_server
  mark_health r id status text = elim (get_server store r none id) [
    | err e ↦ r
    | ok server ↦
        (upsert_server store r none
          (record server { status = status; status_message = text; last_health_check = now })).0
  ]

  unfoldable pub mark_error : Registry S → Bytes → HealthStatus → Error → Registry S
  unfolding truncate get_server upsert_server
  mark_error r id status cause = elim (get_server store r none id) [
    | err e ↦ r
    | ok server ↦
        (upsert_server store r none (record server {
          status = status;
          status_message = truncate (error_text cause) 512;
          last_health_check = now;
        })).0
  ]
