-- ===== src/Logbuf/Ring/Bounds.antt =====
-- The invariant of the ring: the byte count is the sum of the sizes, and the entries are numbered
-- in order, up to the last number given.
use lessen_mcp_gateway.Prelude.{
  ℕ, ◌+◌, ◌-◌, ◌/◌, ◌≤◌, ◌<◌, ◌≡◌, refl, List, [], ◌∷◌, ◌++◌, inl, inr, ltb, arith, Bool-cases,
}
use lessen_mcp_gateway.Logbuf.Ring.{
  Entry, Ring, floor, at_least, new, evict, set_max_bytes, prepare, add,
}

unfoldable pub total : List Entry → ℕ
total [] = 0
total (e ∷ l) = e.size + total l

-- The numbers `first`, `first + 1`, … up to `last`.
abbrev pub Numbered : ℕ → ℕ → List Entry → Type 0
Numbered first last [] = first ≡ last + 1
Numbered first last (e ∷ l) = (e.sequence ≡ first) × Numbered (first + 1) last l

pub record IsValid (r : Ring) : Type 0 where
  pub counted : r.bytes ≡ total r.entries
  pub first : ℕ
  pub numbered : Numbered first r.next_seq r.entries
  pub positive : 0 < first
  pub fits : r.bytes ≤ r.max_bytes
  pub room : floor ≤ r.max_bytes

-- What is left of a valid list, and the count for it.
pub record Left (first last : ℕ) (left : List Entry × ℕ) : Type 0 where
  pub counted : left.1 ≡ total left.0
  pub first' : ℕ
  pub later : first ≤ first'
  pub numbered : Numbered first' last left.0

-- The loop drops entries from the front only, and keeps the count.
evict-Left :
    (extra max : ℕ) (l : List Entry) (bytes first last : ℕ)
    → bytes ≡ total l
    → Numbered first last l
    → Left first last (evict extra max l bytes)
unfolding evict total
evict-Left extra max [] bytes first last counted numbered = record {
  counted = counted;
  first' = first;
  later = omega arith;
  numbered = numbered;
}
evict-Left extra max (e ∷ l) bytes first last counted numbered =
    elim (Bool-cases (ltb max (bytes + extra))) [
      | inl over ↦
          let rest =
            evict-Left extra max l (bytes - e.size) (first + 1) last (omega arith) numbered.1 in
          rw over (record {
            counted = rest.counted;
            first' = rest.first';
            later = omega (arith, rest.later);
            numbered = rest.numbered;
          })
      | inr fits ↦
          rw fits
            (record { counted = counted; first' = first; later = omega arith; numbered = numbered })
    ]

-- The loop ends with room for the new entry, if that fits at all.
evict-le :
    (extra max : ℕ) (l : List Entry) (bytes : ℕ)
    → bytes ≡ total l
    → extra ≤ max
    → (evict extra max l bytes).1 + extra ≤ max
unfolding evict total
evict-le extra max [] bytes counted h = omega arith
evict-le extra max (e ∷ l) bytes counted h = ground (arith, evict-le extra max l (bytes - e.size))

pub new-IsValid : (max : ℕ) → IsValid (new max)
unfolding new total
new-IsValid max = record {
  counted = refl;
  first = 1;
  numbered = refl;
  positive = omega arith;
  fits = omega arith;
  room = ground arith;
}

-- Another size leaves a valid ring valid: numbered in order, counted, and within its new budget.
pub set_max_bytes-IsValid : (r : Ring) (max : ℕ) → IsValid r → IsValid (set_max_bytes r max)
unfolding set_max_bytes
set_max_bytes-IsValid r max v =
    let left =
      evict-Left 0 (at_least max) r.entries r.bytes v.first r.next_seq v.counted v.numbered in
    record {
      counted = left.counted;
      first = left.first';
      numbered = left.numbered;
      positive = omega (arith, left.later, v.positive);
      fits = omega (arith, evict-le 0 (at_least max) r.entries r.bytes v.counted);
      room = ground arith;
    }

-- One more entry, with the next number.
Numbered-append :
    (first last : ℕ) (l : List Entry) (e : Entry)
    → Numbered first last l
    → e.sequence ≡ last + 1
    → Numbered first (last + 1) (l ++ e ∷ [])
Numbered-append first last [] e n h = omega arith
Numbered-append first last (x ∷ l) e n h = (n.0, Numbered-append (first + 1) last l e n.1 h)

total-append : (l : List Entry) (e : Entry) → total (l ++ e ∷ []) ≡ total l + e.size
unfolding total
total-append [] e = omega arith
total-append (x ∷ l) e = omega (arith, total-append l e)

module _ (marshal_size : Entry → ℕ) where
  sequence-prepare : (r : Ring) (e : Entry) → (prepare marshal_size r e).sequence ≡ r.next_seq + 1
  unfolding prepare
  sequence-prepare r e = ground arith

  -- Adding an entry whose stored form is not larger than a valid ring's budget keeps the ring
  -- valid: numbered in order, counted, and within its budget.
  pub add-IsValid :
      (r : Ring) (e : Entry)
      → IsValid r
      → (prepare marshal_size r e).size ≤ r.max_bytes
      → IsValid (add marshal_size r e)
  unfolding add
  add-IsValid r e v fits =
      let stored = prepare marshal_size r e in
      let left =
        evict-Left stored.size r.max_bytes r.entries r.bytes v.first r.next_seq v.counted
          v.numbered in
      let rest = (evict stored.size r.max_bytes r.entries r.bytes).0 in
      record {
        counted = omega (arith, left.counted, total-append rest stored);
        first = left.first';
        numbered =
            Numbered-append left.first' r.next_seq rest stored left.numbered (sequence-prepare r e);
        positive = omega (arith, left.later, v.positive);
        fits = omega (arith, evict-le stored.size r.max_bytes r.entries r.bytes v.counted fits);
        room = v.room;
      }

  -- An entry of at most half the ring is stored as it came, but for its number and size.
  pub prepare_small :
      (r : Ring) (e : Entry)
      → marshal_size (record e { sequence = r.next_seq + 1 }) ≤ r.max_bytes / 2
      → (prepare marshal_size r e).message ≡ e.message
  unfolding prepare
  prepare_small r e h = ground arith
