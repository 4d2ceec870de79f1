-- ===== src/Transport/Stdio/System.antt =====
-- The calls of a stdio client and the process, interleaved in any order. A call goes through `Call`
-- of internal/transport/stdio.go from phase to phase, and lets go of the lock in between.
use lessen_mcp_gateway.Prelude.{
  ℕ, ◌+◌, ◌<◌, ◌^◌, ◌≡◌, Bytes, Option, none, some, List, [], ◌∷◌, ◌++◌, if◌then◌else◌, nat_eq,
  codes,
}
use lessen_mcp_gateway.Errors.{Error, Context, Result, ok, err, message}
use lessen_mcp_gateway.Mcp.Protocol.{Response}
use lessen_mcp_gateway.Transport.Stdio.{
  StdioClient, CallResult, member, ensure_started, add_id, register, writable, remove_pending,
  deliver, close, handle_exit, stop_idle, reset_idle,
}

-- `unused`: no call has this number yet. `failing`: `write` has failed, and the entry of the table
-- is still to be removed. `writing` and `waiting` name the process that is written to.
pub data Phase : Type 0 where
  unused numbered registered : Phase
  writing waiting : ℕ → Phase
  failing : Error → Phase
  returned : CallResult → Phase

pub record System : Type 0 where
  pub client : StdioClient
  pub phase : ℕ → Phase
  pub channel : ℕ → List CallResult

abbrev pub set {ℓ} : {A : Type ℓ} → ℕ → A → (ℕ → A) → ℕ → A
set i a f j = if nat_eq i j then a else f j

-- `ch <- r`
abbrev pub send : ℕ → CallResult → (ℕ → List CallResult) → ℕ → List CallResult
send n r channel = set n (channel n ++ r ∷ []) channel

-- `for _, ch := range pending { ch <- r }`
abbrev pub send_all : List ℕ → CallResult → (ℕ → List CallResult) → ℕ → List CallResult
send_all ns r channel n = if member n ns then channel n ++ r ∷ [] else channel n

abbrev pub registering : ℕ → System → Result StdioClient → System
registering n s (err e) = record s { phase = set n (Phase.returned (err e)) s.phase }
registering n s (ok c) = record s { client = c; phase = set n Phase.registered s.phase }

abbrev pub writing_to : ℕ → System → Result ℕ → System
writing_to n s (err e) = record s { phase = set n (Phase.failing e) s.phase }
writing_to n s (ok g) = record s { phase = set n (Phase.writing g) s.phase }

abbrev pub delivering : System → StdioClient × Option (ℕ × CallResult) → System
delivering s (c, none) = record s { client = c }
delivering s (c, some (n, r)) = record s { client = c; channel = send n r s.channel }

abbrev pub failing_all : CallResult → System → StdioClient × List ℕ → System
failing_all r s (c, ns) = record s { client = c; channel = send_all ns r s.channel }

-- The client after `Close`, and after the process of a generation has exited.
abbrev pub closing : System → System
closing s = failing_all (err (message (codes "stdio client closed"))) s (close s.client)

abbrev pub exiting : ℕ → Error → System → System
exiting generation e s = failing_all (err e) s (handle_exit generation s.client)

pub data Step (format_uint : ℕ → Bytes) (s : System) : System → Type 0 where
  -- `ensureStarted`, of a call or of a notification
  starts :
      (ctx : Context) (started : Result (Unit {0}))
      → Step format_uint s (record s { client = (ensure_started ctx started s.client).0 })
  -- A call takes the next number, before the counter wraps.
  numbers :
      (n : ℕ)
      → n ≡ s.client.next_id + 1
      → n < 2 ^ 64
      → Step format_uint s
          (record s { client = add_id s.client; phase = set n Phase.numbered s.phase })
  registers :
      (n : ℕ)
      → s.phase n ≡ Phase.numbered
      → Step format_uint s (registering n s (register n s.client))
  begins :
      (n : ℕ)
      → s.phase n ≡ Phase.registered
      → Step format_uint s (writing_to n s (writable s.client))
  writes :
      (n g : ℕ)
      → s.phase n ≡ Phase.writing g
      → Step format_uint s (record s { phase = set n (Phase.waiting g) s.phase })
  breaks :
      (n g : ℕ) (e : Error)
      → s.phase n ≡ Phase.writing g
      → Step format_uint s (record s { phase = set n (Phase.failing e) s.phase })
  gives_up :
      (n : ℕ) (e : Error)
      → s.phase n ≡ Phase.failing e
      → Step format_uint s (record s {
        client = remove_pending n s.client;
        phase = set n (Phase.returned (err e)) s.phase;
      })
  -- `case <-ctx.Done()`
  cancels :
      (n g : ℕ) (e : Error)
      → s.phase n ≡ Phase.waiting g
      → Step format_uint s (record s {
        client = remove_pending n s.client;
        phase = set n (Phase.returned (err e)) s.phase;
      })
  -- `case outcome := <-ch`
  receives :
      (n g : ℕ) (r : CallResult) (rest : List CallResult)
      → s.phase n ≡ Phase.waiting g
      → s.channel n ≡ r ∷ rest
      → Step format_uint s
          (record s { phase = set n (Phase.returned r) s.phase; channel = set n rest s.channel })
  responds : (r : Response) → Step format_uint s (delivering s (deliver format_uint r s.client))
  exits : (generation : ℕ) (e : Error) → Step format_uint s (exiting generation e s)
  closes : Step format_uint s (closing s)
  idles :
      (generation : ℕ) → Step format_uint s (record s { client = stop_idle generation s.client })
  touches : Step format_uint s (record s { client = reset_idle s.client })

abbrev pub init : StdioClient → System
init c = record { client = c; phase = λ n. Phase.unused; channel = λ n. [] }

pub data Reach (format_uint : ℕ → Bytes) (c : StdioClient) : System → Type 0 where
  start : Reach format_uint c (init c)
  later : {s t : System} → Reach format_uint c s → Step format_uint s t → Reach format_uint c t
