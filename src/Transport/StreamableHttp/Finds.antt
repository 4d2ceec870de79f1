-- ===== src/Transport/StreamableHttp/Finds.antt =====
-- What internal/transport/streamable_http.go finds in a well-formed event stream.
use lessen_mcp_gateway.Prelude.{
  ◌⊎◌, ◌≢◌, inl, inr, ◌==◌, eq_iff, Bool, Bool-cases, Option-cases, if◌then◌else◌, leb, ℕ, suc, ◌+◌,
  ◌≤◌, ◌-◌, ◌<◌, ◌≡◌, refl, ap, ◌∙◌, subst, Bytes, codes, nat_eq, true, false, not, Option, none,
  some, List, [], ◌∷◌, ◌++◌, length, length-append, all, All, arith, take_all,
}
use mathlib.Core.List.{append_assoc}
use lessen_mcp_gateway.Prelude.Int.{ℤ, pos, add_int, int_end}
use lessen_mcp_gateway.Errors.{Error, Context, Result, ok, err, rpc}
use lessen_mcp_gateway.Model.{Raw}
use lessen_mcp_gateway.Mcp.Protocol.{
  RequestId, Request, Response, Envelope, request, response, parse_envelope,
}
use lessen_mcp_gateway.Transport.Sse.{SseEvent, newline, read_sse, exceeds, join_lines}
use lessen_mcp_gateway.Transport.Sse.Printed.{
  IsLine, print_field, print_data, print_event, read_sse-print_event,
}
use lessen_mcp_gateway.Transport.StreamableHttp.{StreamableHttpClient, Body, limit_reader}
use lessen_mcp_gateway.Transport.StreamableHttp.Exchange.{Http}
use lessen_mcp_gateway.Transport.StreamableHttp.Events.{select_answer, read_events, read_sse_for_id}

-- An event that a server sends.
pub record Sent : Type 0 where
  pub id : Bytes
  pub event : Bytes
  pub lines : List Bytes

abbrev pub IsSent : Sent → Type 0
IsSent s =
    IsLine s.id × (all (λ c. not (nat_eq c 0)) s.id ≡ true) × IsLine s.event × All IsLine s.lines

abbrev pub bytes_of : Sent → Bytes
bytes_of s = print_event s.id s.event s.lines

abbrev pub stream_of : List Sent → Bytes
stream_of [] = []
stream_of (s ∷ ss) = bytes_of s ++ stream_of ss

abbrev pub received : Sent → SseEvent
received s = record { id = s.id; event = s.event; data_bytes = join_lines s.lines; retry = pos 0 }

length-print_data-le : (ls : List Bytes) → length ls ≤ length (print_data ls)
length-print_data-le [] = omega arith
length-print_data-le (l ∷ ls) =
    omega
      (arith, length-print_data-le ls, length-append (print_field (codes "data") l) (print_data ls))

-- An event has a byte at least for each of its lines.
length-lines-le : (s : Sent) → 3 + length s.lines ≤ length (bytes_of s)
length-lines-le s =
    let a = print_field (codes "event") s.event in
    let b = print_field (codes "id") s.id in
    let d = print_data s.lines in
    omega (
      arith,
      length-append (a ++ b ++ d) (newline ∷ []),
      length-append (a ++ b) d,
      length-append a b,
      length-print_data-le s.lines,
      length-append (codes "event") (b':' ∷ b' ' ∷ s.event ++ newline ∷ []),
      length-append (codes "id") (b':' ∷ b' ' ∷ s.id ++ newline ∷ []),
    )

within : (limit n : ℕ) → n ≤ limit → exceeds (pos limit) n ≡ false
within limit n h = ground arith

read_sse-received :
    (scan_int : Bytes → ℤ → ℤ) (ends_with : Error) (limit : ℕ) (s : Sent) (rest : Bytes)
    → IsSent s
    → length (bytes_of s ++ rest) ≤ limit
    → read_sse scan_int ends_with
        (pos limit)
        (suc (length (bytes_of s ++ rest)))
        (bytes_of s ++ rest)
      ≡ some (ok (received s), rest)
read_sse-received scan_int ends_with limit s rest (i, z, e, ls) fits =
    let size = length-append (bytes_of s) rest in
    let enough = length-lines-le s in
    let spare = length (bytes_of s) + length rest - (2 + length s.lines) in
    subst
      (λ (k : ℕ).
        read_sse scan_int ends_with (pos limit) k (bytes_of s ++ rest)
        ≡ some (ok (received s), rest))
      (omega (arith, size, enough))
      (read_sse-print_event scan_int ends_with (pos limit) s.id s.event s.lines spare rest i z e ls
        (within limit (length (bytes_of s)) (omega (arith, size, fits))))

module _ (h : Http) (id : RequestId) where
  -- The data of an event.
  abbrev pub data_of : Sent → Bytes
  data_of s = join_lines s.lines

  abbrev envelope : Sent → Result Envelope
  envelope s = parse_envelope h.decode_base h.decode_request h.decode_response (data_of s)

  -- What is not the response to the request of the identity: an event without data, data that are
  -- no message, a request or a notification, and a response to another request.
  abbrev pub IsNoise : Sent → Type 0
  IsNoise s =
      (data_of s ≡ [])
      ⊎ (((e : Error) × (envelope s ≡ err e))
          ⊎ (((q : Request) × (envelope s ≡ ok (request q)))
              ⊎ ((q : Response) × (envelope s ≡ ok (response q)) × (q.id ≢ id))))

  -- The response to the request.
  abbrev pub Answers : Sent → Response → Type 0
  Answers s q = (data_of s ≢ []) × (envelope s ≡ ok (response q)) × (q.id ≡ id)

  -- What a caller gets of a response: its error, where it has one, or else its result.
  abbrev pub reply : Response → Result Raw
  reply q = elim q.error [ some (code, text) ↦ err (rpc code text) | none ↦ ok q.result ]

  differs : (a b : Bytes) → a ≢ b → (a == b) ≡ false
  differs a b apart = elim (Bool-cases (a == b)) [
    | inl e ↦ absurd (apart ((eq_iff a b).0 e))
    | inr e ↦ e
  ]

  either_way : (b : Bool) (o : Option (Result Raw)) → (if b then o else o) ≡ o
  either_way true o = refl
  either_way false o = refl

  select_answer-passes : (s : Sent) → IsNoise s → select_answer h id (received s) ≡ none
  unfolding select_answer ◌==◌
  select_answer-passes s (inl empty) = rw (empty, select_answer) refl
  select_answer-passes s (inr (inl (e, parsed))) =
      rw (parsed, select_answer) (either_way (data_of s == []) none)
  select_answer-passes s (inr (inr (inl (q, parsed)))) =
      rw (parsed, select_answer) (either_way (data_of s == []) none)
  select_answer-passes s (inr (inr (inr (q, parsed, apart)))) =
      rw (parsed, select_answer, differs q.id id apart) (either_way (data_of s == []) none)

  select_answer-takes :
      (s : Sent) (q : Response) → Answers s q → select_answer h id (received s) ≡ some (reply q)
  unfolding select_answer
  select_answer-takes s q (full, parsed, same) =
      let mine : (q.id == id) ≡ true = (eq_iff q.id id).1 same in
      rw (differs (data_of s) [] full, select_answer, parsed, mine)
        (elim (Option-cases q.error) [ inl e ↦ rw e refl | inr (x, e) ↦ rw e refl ])

module _ (h : Http) (ends_with : Error) (limit : ℕ) (id : RequestId) where
  abbrev answers : ℕ → Bytes → Option (Result Raw)
  answers fuel stream = read_events h fuel (λ k. none) ends_with (pos limit) stream id

  read_events-takes :
      (fuel : ℕ) (stream rest : Bytes) (event : SseEvent) (r : Result Raw)
      → read_sse h.scan_int ends_with (pos limit) (suc (length stream)) stream
        ≡ some (ok event, rest)
      → select_answer h id event ≡ some r
      → answers (suc fuel) stream ≡ some r
  unfolding read_events
  read_events-takes fuel stream rest event r reads chosen = rw (reads, read_events, chosen) refl

  read_events-passes :
      (fuel : ℕ) (stream rest : Bytes) (event : SseEvent)
      → read_sse h.scan_int ends_with (pos limit) (suc (length stream)) stream
        ≡ some (ok event, rest)
      → select_answer h id event ≡ none
      → answers (suc fuel) stream ≡ answers fuel rest
  unfolding read_events
  read_events-passes fuel stream rest event reads passed = rw (reads, read_events, passed) refl

  read_events-finds :
      (noise : List Sent) (fuel : ℕ) (answer : Sent) (r : Result Raw) (rest : Bytes)
      → All IsSent noise
      → All (λ s. select_answer h id (received s) ≡ none) noise
      → IsSent answer
      → select_answer h id (received answer) ≡ some r
      → length (stream_of noise ++ (bytes_of answer ++ rest)) ≤ limit
      → answers (suc (length noise + fuel)) (stream_of noise ++ (bytes_of answer ++ rest)) ≡ some r
  read_events-finds [] fuel answer r rest a b c d fits =
      read_events-takes (0 + fuel) (bytes_of answer ++ rest) rest (received answer) r
        (read_sse-received h.scan_int ends_with limit answer rest c fits) d
  read_events-finds (s ∷ noise) fuel answer r rest (a, more) (b, passed) c d fits =
      let after = stream_of noise ++ (bytes_of answer ++ rest) in
      let same : bytes_of s ++ stream_of noise ++ (bytes_of answer ++ rest) ≡ bytes_of s ++ after =
        append_assoc (bytes_of s) (stream_of noise) (bytes_of answer ++ rest) in
      let whole : length (bytes_of s ++ after) ≤ limit =
        subst (λ (l : Bytes). length l ≤ limit) same fits in
      ap (answers (suc (suc (length noise) + fuel))) same
      ∙ ap (λ k. answers (suc k) (bytes_of s ++ after)) (omega arith)
      ∙ read_events-passes (suc (length noise + fuel)) (bytes_of s ++ after) after (received s)
          (read_sse-received h.scan_int ends_with limit s after a whole) b
      ∙ read_events-finds noise fuel answer r rest more passed c d
          (omega (arith, whole, length-append (bytes_of s) after))

read_sse_for_id-whole :
    (h : Http) (c : StreamableHttpClient) (limit fuel : ℕ) (polls : ℕ → Context) (b : Body)
    (id : RequestId)
    → c.opts.max_response_bytes ≡ pos limit
    → limit + 1 < int_end
    → length b.bytes ≤ limit
    → read_sse_for_id h fuel polls b id c
      ≡ read_events h fuel polls b.ends_with (pos limit) b.bytes id
unfolding read_sse_for_id limit_reader
read_sse_for_id-whole h c limit fuel polls b id most small fits =
    let next : add_int (pos limit) 1 ≡ pos (limit + 1) = ground arith in
    let all_of = take_all (limit + 1) b.bytes (omega (arith, fits)) in
    let short : leb (limit + 1) (length b.bytes) ≡ false = ground arith in
    rw most (rw (next, all_of, short) refl)

passes-all :
    (h : Http) (id : RequestId) (noise : List Sent)
    → All (IsNoise h id) noise
    → All (λ s. select_answer h id (received s) ≡ none) noise
passes-all h id [] a = tt
passes-all h id (s ∷ noise) (a, more) = (select_answer-passes h id s a, passes-all h id noise more)

-- An answer in an event stream is found. Suppose that the server sends well-formed events that are
-- not the response to the request, of any kind and number, and then an event that is, within the
-- byte limit of the client and before the context is done. Then reading the stream returns the
-- error of that response, if it has one, and else its result, whatever follows it in the body. Fuel
-- for these events is enough.
pub read_sse_for_id-finds :
    (h : Http) (c : StreamableHttpClient) (limit : ℕ) (id : RequestId) (noise : List Sent)
    (fuel : ℕ) (answer : Sent) (q : Response) (rest : Bytes) (failure : Error)
    → c.opts.max_response_bytes ≡ pos limit
    → limit + 1 < int_end
    → All IsSent noise
    → All (IsNoise h id) noise
    → IsSent answer
    → Answers h id answer q
    → length (stream_of noise ++ (bytes_of answer ++ rest)) ≤ limit
    → read_sse_for_id h
        (suc (length noise + fuel))
        (λ k. none)
        (record { bytes = stream_of noise ++ (bytes_of answer ++ rest); ends_with = failure })
        id
        c
      ≡ some (elim q.error [ some (code, text) ↦ err (rpc code text) | none ↦ ok q.result ])
unfolding read_sse_for_id limit_reader
read_sse_for_id-finds h c limit id noise fuel answer q rest failure most small a passed s d fits =
    let b : Body = record {
      bytes = stream_of noise ++ (bytes_of answer ++ rest);
      ends_with = failure;
    } in
    read_sse_for_id-whole h c limit (suc (length noise + fuel)) (λ k. none) b id most small fits
    ∙ read_events-finds h failure limit id noise fuel answer (reply h id q) rest a
        (passes-all h id noise passed) s (select_answer-takes h id answer q d) fits
