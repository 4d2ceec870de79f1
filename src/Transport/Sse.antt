-- ===== src/Transport/Sse.antt =====
-- internal/transport/sse.go: one event of an event stream. A stream is the bytes up to the error
-- that the reader ends with, which is io.EOF where the body is read to its end. The loop runs on
-- fuel, one unit for a line.
pub mod Reads
pub mod Printed
use lessen_mcp_gateway.Prelude.{
  ℕ, zero, suc, ◌+◌, Bytes, codes, ◌==◌, nat_eq, ltb, Bool, true, false, not, ◌&&◌, ◌||◌, Option,
  none, some, List, [], ◌∷◌, ◌++◌, if◌then◌else◌, length, drop, cut, all,
}
use lessen_mcp_gateway.Prelude.Int.{ℤ, pos, negsuc}
use lessen_mcp_gateway.Errors.{Error, Result, ok, err, message}
use lessen_mcp_gateway.Model.{Raw}

abbrev pub newline : ℕ
newline = 10

-- `SSEEvent`
pub record SseEvent : Type 0 where
  pub id : Bytes
  pub event : Bytes
  pub data_bytes : Bytes
  pub retry : ℤ

-- `event` and `data`, the variables of `ReadSSE`.
pub record Pending : Type 0 where
  pub id : Bytes
  pub event : Bytes
  pub data_lines : List Bytes
  pub retry : ℤ

abbrev pub nothing_yet : Pending
nothing_yet = record { id = []; event = []; data_lines = []; retry = pos 0 }

-- `reader.ReadString('\n')`: the line with its end, the bytes after it, and whether the reader has
-- ended instead.
unfoldable pub read_string : Bytes → Bytes × Bytes × Bool
read_string [] = ([], [], true)
read_string (c ∷ s) =
    let (line, rest, ended) = read_string s in
    if nat_eq c newline then (c ∷ [], s, false) else (c ∷ line, rest, ended)

-- `strings.TrimRight(line, "\r\n")`
abbrev pub is_line_end : ℕ → Bool
is_line_end c = nat_eq c 13 || nat_eq c newline

unfoldable pub trim_line : Bytes → Bytes
trim_line [] = []
trim_line (c ∷ s) = if all is_line_end (c ∷ s) then [] else c ∷ trim_line s

-- `strings.Join(data, "\n")`
unfoldable pub join_lines : List Bytes → Bytes
join_lines [] = []
join_lines (l ∷ []) = l
join_lines (l ∷ m ∷ ls) = l ++ newline ∷ join_lines (m ∷ ls)

-- `maxBytes > 0 && consumed > maxBytes`
abbrev pub exceeds : ℤ → ℕ → Bool
exceeds (pos limit) consumed = ltb 0 limit && ltb limit consumed
exceeds (negsuc limit) consumed = false

-- `strings.TrimPrefix(value, " ")`
abbrev pub trim_blank : Bytes → Bytes
trim_blank [] = []
trim_blank (c ∷ s) = if nat_eq c b' ' then s else c ∷ s

-- `strings.Cut(line, ":")`, and the value without its blank.
unfoldable pub split_field : Bytes → Bytes × Bytes
unfolding cut
split_field line = elim (cut line (codes ":")) [
  | none ↦ (line, [])
  | some (field, value) ↦ (field, trim_blank value)
]

abbrev pub finish : Pending → SseEvent
finish p = record {
  id = p.id;
  event = p.event;
  data_bytes = join_lines p.data_lines;
  retry = p.retry;
}

-- What one line does to the event: it ends it, ends the read, or is one more of its lines.
pub data Taken : Type 0 where
  finished : SseEvent → Taken
  broken : Error → Taken
  continues : Pending → Taken

-- `scan_int` is what `fmt.Sscanf` with the verb %d leaves in a variable.
module _ (scan_int : Bytes → ℤ → ℤ) (ends_with : Error) (limit : ℤ) where
  -- `switch field`
  unfoldable pub set_field : Bytes × Bytes → Pending → Pending
  set_field (field, value) p =
      if field == codes "event"
      then record p { event = value }
      else if field == codes "data"
      then record p { data_lines = p.data_lines ++ value ∷ [] }
      else if field == codes "id"
      then (if all (λ c. not (nat_eq c 0)) value then record p { id = value } else p)
      else if field == codes "retry"
      then record p { retry = scan_int value p.retry }
      else p

  -- A line whose text is not empty.
  unfoldable pub take_text : Bytes → Bool → Pending → Taken
  unfolding set_field split_field
  take_text [] ended p = Taken.finished (finish p)
  take_text (c ∷ text) ended p =
      let next = if nat_eq c b':' then p else set_field (split_field (c ∷ text)) p in
      if ended then Taken.broken ends_with else Taken.continues next

  -- The body of the loop, after `ReadString`.
  unfoldable pub take_line : Bytes → Bool → ℕ → Pending → Taken
  unfolding take_text trim_line
  take_line line ended consumed p =
      if exceeds limit consumed
      then Taken.broken (message (codes "SSE event exceeds configured response limit"))
      else if ended && nat_eq (length line) 0
      then Taken.broken ends_with
      else take_text (trim_line line) ended p

  unfoldable pub read_lines : ℕ → Bytes → ℕ → Pending → Option (Result SseEvent × Bytes)
  unfolding take_line read_string
  read_lines zero stream consumed p = none
  read_lines (suc fuel) stream consumed p =
      let (line, rest, ended) = read_string stream in
      elim (take_line line ended (consumed + length line) p) [
        | finished e ↦ some (ok e, rest)
        | broken e ↦ some (err e, rest)
        | continues next ↦ read_lines fuel rest (consumed + length line) next
      ]

  -- `ReadSSE`, with what it leaves of the stream.
  unfoldable pub read_sse : ℕ → Bytes → Option (Result SseEvent × Bytes)
  unfolding read_lines
  read_sse fuel stream = read_lines fuel stream 0 nothing_yet

-- `DecodeSSEResponse`
unfoldable pub decode_sse_response : (Bytes → Result Raw) → SseEvent → Result Bytes
decode_sse_response unmarshal e = elim e.data_bytes [
  | [] ↦ err (message (codes "EOF"))
  | c ∷ text ↦ elim (unmarshal e.data_bytes) [
    | ok raw ↦ ok e.data_bytes
    | err failure ↦ err failure
  ]
]
