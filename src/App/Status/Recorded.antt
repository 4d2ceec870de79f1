-- ===== src/App/Status/Recorded.antt =====
-- What internal/app/manager.go records of an error, and how many workers it starts.
use lessen_mcp_gateway.Prelude.{
  ◌++◌, if◌then◌else◌, ℕ, zero, suc, ◌+◌, ◌≤◌, ◌≡◌, refl, ap, ◌∙◌, Bytes, ◌==◌, Option, none, List,
  [], ◌∷◌, length, length-append, length-take, take, leb, arith, Bool-cases, inl, inr,
}
use lessen_mcp_gateway.Prelude.Int.{ℤ, pos, negsuc, clip}
use lessen_mcp_gateway.Errors.{Error, ok}
use lessen_mcp_gateway.Model.{Raw, Time, Server, HealthStatus}
use lessen_mcp_gateway.Storage.Memory.{MemoryStore, memory, get_server}
use lessen_mcp_gateway.Storage.Memory.Laws.{get_server-upsert_server}
use lessen_mcp_gateway.Registry
use lessen_mcp_gateway.Registry.{Registry}
use lessen_mcp_gateway.App.Status.{truncate, worker_count, mark_error}

-- A message that is cut has the three bytes of "…" after its end.
pub length-truncate-le : (v : Bytes) (max : ℕ) → length (truncate v max) ≤ max + 3
unfolding truncate
length-truncate-le v max = elim (Bool-cases (leb (length v) max)) [
  | inl short ↦ rw short (ground arith)
  | inr long ↦
      rw long (omega (arith, length-append (take max v) (226 ∷ 128 ∷ 166 ∷ []), length-take max v))
]

-- For any number of jobs there are workers, as few as the configuration asks for and no more than
-- the jobs: none exactly when there is no job, and one where the configuration asks for less.
pub worker_count-bounds :
    (configured : ℤ) (jobs : ℕ)
    → (worker_count configured jobs ≤ jobs)
      × (1 ≤ jobs → 1 ≤ worker_count configured jobs)
      × (worker_count configured jobs ≤ clip configured + 1)
      × (clip configured ≤ jobs
          → 1 ≤ clip configured
          → worker_count configured jobs ≡ clip configured)
unfolding worker_count
worker_count-bounds configured zero =
    (omega arith, λ h. omega (arith, h), omega arith, λ h k. absurd (omega (arith, h, k)))
worker_count-bounds (negsuc k) (suc jobs) =
    (ground arith, λ h. ground arith, ground arith, λ h k. ground arith)
worker_count-bounds (pos zero) (suc jobs) =
    (ground arith, λ h. ground arith, ground arith, λ h k. ground arith)
worker_count-bounds (pos (suc k)) (suc jobs) =
    (ground arith, λ h. ground arith, ground arith, λ h k. ground arith)

-- An error's text as it is recorded: whole, or its first 512 bytes and the three bytes of "…".
abbrev pub recorded_text : Bytes → Bytes
recorded_text text = if leb (length text) 512 then text else take 512 text ++ 226 ∷ 128 ∷ 166 ∷ []

-- Over the store in memory, an error that is marked is what the record of the server says from then
-- on: its status, its text, which is cut after 512 bytes and takes 515 bytes at most with the mark
-- for the cut, and the time. The record is otherwise as it was, and the records of the other
-- servers are.
pub mark_error-recorded :
    (schema_keys : Raw → Option (List Bytes × List Bytes)) (error_text : Error → Bytes) (now : Time)
    (r : Registry MemoryStore) (id : Bytes) (status : HealthStatus) (cause : Error)
    (server : Server)
    → get_server r.stored none id ≡ ok server
    → server.id ≡ id
    → (length (recorded_text (error_text cause)) ≤ 515)
      × ((other : Bytes)
          → get_server
              (mark_error (memory schema_keys) error_text now r id status cause).stored
              none
              other
            ≡ (if id == other
                then ok (record server {
                  status = status;
                  status_message = recorded_text (error_text cause);
                  last_health_check = now;
                })
                else get_server r.stored none other))
unfolding mark_error truncate Registry.get_server Registry.upsert_server
mark_error-recorded schema_keys error_text now r id status cause server there named =
    let written = record server {
      status = status;
      status_message = recorded_text (error_text cause);
      last_health_check = now;
    } in
    (
      length-truncate-le (error_text cause) 512,
      λ other.
          let same : (server.id == other) ≡ (id == other) = ap (λ k. k == other) named in
          rw (there, mark_error) (get_server-upsert_server r.stored written other ∙ rw same refl),
    )
