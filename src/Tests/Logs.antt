-- ===== src/Tests/Logs.antt =====
-- The ring of log entries and the rotating log file.
use lessen_mcp_gateway.Prelude.Int.{pos}
use lessen_mcp_gateway.Prelude.{
  Bool, false, ℕ, zero, suc, ◌+◌, ◌≤◌, ◌<◌, ◌≡◌, ◌⊎◌, refl, Bytes, codes, true, none, some, [],
  length, take, keep, ltb, arith,
}
use lessen_mcp_gateway.Logbuf.Ring
use lessen_mcp_gateway.Logbuf.Ring.{Entry, Ring, prepare, add, set_max_bytes, list, list_limit}
use lessen_mcp_gateway.Logbuf.Ring.Bounds.{IsValid, new-IsValid, add-IsValid}
use lessen_mcp_gateway.Logbuf.Ring.Listing.{list_lem}
use lessen_mcp_gateway.Logbuf.Rotation.Generations.{Tracks, start, rotate_lem, write_lem}
use lessen_mcp_gateway.Logbuf.Rotation.{Files, RotatingWriter, rotate, write}

abbrev started : Entry
started = record {
  sequence = 0;
  time = 0;
  level = codes "INFO";
  message = codes "started";
  attrs = [];
  size = 0;
}

-- Every entry takes 40000 bytes, so that a ring of 100000 holds two.
abbrev large : Entry → ℕ
large e = 40000

abbrev empty : Ring
empty = Ring.new 100000

empty-IsValid : IsValid empty
empty-IsValid = new-IsValid 100000

abbrev one : Ring
one = add large empty started

one-IsValid : IsValid one
unfolding add prepare Ring.new
one-IsValid = add-IsValid large empty started empty-IsValid (omega arith)

abbrev two : Ring
two = add large one started

two-IsValid : IsValid two
unfolding add prepare Ring.new Ring.evict
two-IsValid = add-IsValid large one started one-IsValid (omega arith)

add-IsValid_example : IsValid (add large two started)
unfolding add prepare Ring.new Ring.evict
add-IsValid_example = add-IsValid large two started two-IsValid (omega arith)

list_lem_example :
    (list two 1 (pos 10) ≡ take (list_limit (pos 10)) (keep (λ e. ltb 1 e.sequence) two.entries))
    × (length (list two 1 (pos 10)) ≤ 1000)
list_lem_example = list_lem two 1 (pos 10) two-IsValid

-- A log of three files, the oldest one last.
abbrev files : Files
files zero = some (codes "abc")
files (suc zero) = some (codes "ab")
files (suc (suc n)) = none

abbrev writer : RotatingWriter
writer = record { max_bytes = 4; keep = 2; file = true; size = 3 }

-- Every rename but that of the path's file is allowed.
abbrev all_but_first : ℕ → Bool
all_but_first zero = false
all_but_first (suc n) = true

rotate_lem_example :
    (((rotate (λ i. true) true writer files).0.size ≡ 0)
      × ((rotate (λ i. true) true writer files).1 0 ≡ some []))
    × ((j : ℕ) (c : Bytes)
        → j < 2
        → files j ≡ some c
        → (rotate (λ i. true) true writer files).1 (j + 1) ≡ some c)
    × ((j : ℕ) → 2 < j → (rotate (λ i. true) true writer files).1 j ≡ files j)
rotate_lem_example = rotate_lem writer files (omega arith)

write_lem_example :
    Tracks
      (write all_but_first true 2 (codes "de") writer files).0
      (write all_but_first true 2 (codes "de") writer files).1
    × (((write all_but_first true 2 (codes "de") writer files).0.size ≤ 4)
        ⊎ ((write all_but_first true 2 (codes "de") writer files).0.size
            ≤ start all_but_first writer + length (codes "de")))
write_lem_example =
    write_lem all_but_first 2 (codes "de") writer files refl
      (record { content = codes "abc"; there = refl; counted = refl })
