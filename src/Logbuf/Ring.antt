-- ===== src/Logbuf/Ring.antt =====
-- internal/logbuf/ring.go, `Ring`: the log entries in memory, oldest first, within a byte budget.
-- Each method runs under the ring's lock. The size of an entry is the length of its JSON text,
-- which encoding/json decides: `marshal_size` is a parameter. A level, and the attributes, are
-- their text. The byte counts are `int` values that are never below 0 in a ring that is valid
-- (IsValid).
pub mod Bounds
pub mod Listing
use lessen_mcp_gateway.Prelude.Int.{ℤ, clip, not_positive}
use lessen_mcp_gateway.Prelude.{
  ℕ, zero, suc, ◌+◌, ◌-◌, ◌*◌, ◌/◌, ◌≤◌, Bytes, codes, Bool, true, false, ◌&&◌, ◌||◌, List, [], ◌∷◌,
  ◌++◌, if◌then◌else◌, length, take, drop, ltb, leb, nat_eq,
}
use lessen_mcp_gateway.Model.{Time}

-- `Entry`
pub record Entry : Type 0 where
  pub sequence : ℕ
  pub time : Time
  pub level : Bytes
  pub message : Bytes
  pub attrs : List (Bytes × Bytes)
  pub size : ℕ

pub record Ring : Type 0 where
  pub entries : List Entry
  pub max_bytes : ℕ
  pub bytes : ℕ
  pub next_seq : ℕ

-- `64*1024`
abbrev pub floor : ℕ
floor = 65536

abbrev pub at_least : ℕ → ℕ
at_least max = if ltb max floor then floor else max

unfoldable pub new : ℕ → Ring
new max_bytes = record { entries = []; max_bytes = at_least max_bytes; bytes = 0; next_seq = 0 }

-- `truncate`; "…" is three bytes.
unfoldable pub truncate : Bytes → ℕ → Bytes
truncate value max =
    if nat_eq max 0 || leb (length value) max then value else take max value ++ 226 ∷ 128 ∷ 166 ∷ []

-- `for len(r.entries) > 0 && r.bytes+extra > r.maxBytes`: the oldest entry goes first. The loop
-- walks along the entries; `bytes` is the count when it comes to the first of them.
unfoldable pub evict : ℕ → ℕ → List Entry → ℕ → List Entry × ℕ
evict extra max [] bytes = ([], bytes)
evict extra max (e ∷ rest) bytes =
    let next = evict extra max rest (bytes - e.size) in
    if ltb max (bytes + extra) then next else (e ∷ rest, bytes)

unfoldable pub set_max_bytes : Ring → ℕ → Ring
unfolding evict
set_max_bytes r max =
    let (rest, bytes) = evict 0 (at_least max) r.entries r.bytes in
    record r { max_bytes = at_least max; entries = rest; bytes = bytes }

-- `map[string]any{"truncated": true}`
abbrev pub truncated_attrs : List (Bytes × Bytes)
truncated_attrs = (codes "truncated", codes "true") ∷ []

-- `if limit <= 0 || limit > 1000 { limit = 200 }`, for a limit that is not negative.
abbrev pub list_limit : ℤ → ℕ
list_limit limit = if not_positive limit || ltb 1000 (clip limit) then 200 else clip limit

-- `for start < len(r.entries) && r.entries[start].Sequence <= after { start++ }`: what is left.
unfoldable pub skip_until : ℕ → List Entry → List Entry
skip_until after [] = []
skip_until after (e ∷ l) = if leb e.sequence after then skip_until after l else e ∷ l

unfoldable pub list : Ring → ℕ → ℤ → List Entry
unfolding skip_until
list r after limit =
    let from = if ltb 0 after then skip_until after r.entries else r.entries in
    take (list_limit limit) from

unfoldable pub stats : Ring → ℕ × ℕ
stats r = (length r.entries, r.bytes)

module _ (marshal_size : Entry → ℕ) where
  -- The entry as it is stored: numbered, measured, and cut where it is larger than half the ring.
  unfoldable pub prepare : Ring → Entry → Entry
  unfolding truncate
  prepare r entry =
      let numbered = record entry { sequence = r.next_seq + 1 } in
      let sized = record numbered { size = marshal_size numbered } in
      if ltb (r.max_bytes / 2) sized.size
      then (let cut = record sized {
        message = truncate sized.message (r.max_bytes / 4);
        attrs = truncated_attrs;
      } in
          record cut { size = marshal_size cut })
      else sized

  unfoldable pub add : Ring → Entry → Ring
  unfolding prepare evict
  add r entry =
      let stored = prepare r entry in
      let (rest, bytes) = evict stored.size r.max_bytes r.entries r.bytes in
      record r {
        entries = rest ++ stored ∷ [];
        bytes = bytes + stored.size;
        next_seq = r.next_seq + 1;
      }
