-- ===== src/Tests/Pipes.antt =====
-- A stdio client whose first call has written its request.
use lessen_mcp_gateway.Prelude.{
  ℕ, ◌≡◌, ◌≤◌, refl, Bytes, codes, true, false, none, some, List, [], ◌∷◌, nat_eq, length, ap,
  arith,
}
use lessen_mcp_gateway.Errors.{Error, ok, err, message}
use lessen_mcp_gateway.Mcp.Protocol.{Response}
use lessen_mcp_gateway.Transport.Stdio.{
  StdioClient, new_stdio, outcome, member, deliver, ensure_started, reset_idle, add_id, register,
  writable,
}
use lessen_mcp_gateway.Transport.Stdio.System.{
  set, unused, numbered, registered, writing, waiting, System, starts, numbers, registers, begins,
  writes, closes, Reach, start, later, closing, exiting, delivering,
}
use lessen_mcp_gateway.Transport.Stdio.Answers.{one_answer, waiting-answered, response-reaches}

abbrev text : ℕ → Bytes
text n = n ∷ []

abbrev made : StdioClient
made = record {
  persistent = false;
  running = false;
  stdin = false;
  pending = [];
  closed = false;
  generation = 0;
  idle_timer = none;
  next_id = 0;
}

is_made : new_stdio (codes "mcp-fs") false ≡ ok made
unfolding new_stdio
is_made = refl

abbrev running : StdioClient
running = record made {
  running = true;
  stdin = true;
  pending = 1 ∷ [];
  generation = 1;
  idle_timer = some 1;
  next_id = 1;
}

abbrev asked : System
asked = record {
  client = running;
  phase = set 1 (waiting 1) (set 1 (writing 1) (set 1 registered (set 1 numbered (λ n. unused))));
  channel = λ n. [];
}

trace : Reach text made asked
unfolding ensure_started reset_idle add_id register writable
trace =
    later
      (later
        (later (later (later start (starts none (ok tt))) (numbers 1 refl (omega arith)))
          (registers 1 refl))
        (begins 1 refl))
      (writes 1 1 refl)

one_answer_example : length (asked.channel 1) ≤ 1
one_answer_example = one_answer text (codes "mcp-fs") false is_made trace 1

abbrev broken : Error
broken = message (codes "exit status 1")

waiting-answered_example :
    ((exiting 1 broken asked).channel 1 ≡ err broken ∷ [])
    × ((closing asked).channel 1 ≡ err (message (codes "stdio client closed")) ∷ [])
waiting-answered_example =
    waiting-answered text (codes "mcp-fs") false is_made trace 1 1 broken refl refl

shut_trace : Reach text made (closing asked)
shut_trace = later trace closes

abbrev answer : Response
answer = record { jsonrpc = codes "2.0"; id = text 1; result = codes "{}"; error = none }

abbrev head_of : List ℕ → ℕ
head_of [] = 0
head_of (n ∷ ns) = n

response-reaches_example :
    let t = delivering asked (deliver text answer asked.client) in
    (t.channel 1 ≡ outcome answer ∷ [])
    × ((j : ℕ) → nat_eq 1 j ≡ false → t.channel j ≡ asked.channel j)
    × (member 1 t.client.pending ≡ false)
response-reaches_example =
    response-reaches text (codes "mcp-fs") false is_made trace (λ a b e. ap head_of e) 1 1 answer
      refl refl refl
