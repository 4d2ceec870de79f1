-- ===== src/Transport/Sse/Reads.antt =====
-- How much of a stream one event of internal/transport/sse.go takes.
use lessen_mcp_gateway.Prelude.{
  subst, ◌⊎◌, sym, ◌∙◌, length-append, ℕ, zero, suc, ◌+◌, ◌≤◌, ◌<◌, ◌≡◌, ◌≢◌, refl, ap, Bytes,
  nat_eq, Bool, true, false, ◌&&◌, some, [], ◌∷◌, ◌++◌, length, arith, Bool-cases, inl, inr,
}
use lessen_mcp_gateway.Prelude.Int.{ℤ}
use lessen_mcp_gateway.Errors.{Error, Result, ok, err}
use lessen_mcp_gateway.Transport.Sse.{
  SseEvent, Pending, newline, read_string, trim_line, exceeds, Taken, finished, broken, continues,
  take_text, take_line, read_lines, read_sse, nothing_yet,
}

-- A line and what is after it are the stream; a line that the reader did not end is not empty.
read_string-parts :
    (s : Bytes)
    → ((read_string s).0 ++ (read_string s).1 ≡ s)
      × ((read_string s).2 ≡ false → 1 ≤ length (read_string s).0)
unfolding read_string
read_string-parts [] = (refl, λ e. cc)
read_string-parts (c ∷ s) = elim (Bool-cases (nat_eq c newline)) [
  | inl e ↦ (rw e refl, λ h. rw e (omega arith))
  | inr e ↦
      let (parts, more) = read_string-parts s in
      (rw e (ap (λ t. c ∷ t) parts), λ h. rw e (omega arith))
]

length-read_string : (s : Bytes) → length s ≡ length (read_string s).0 + length (read_string s).1
length-read_string s =
    sym (ap length (read_string-parts s).0) ∙ length-append (read_string s).0 (read_string s).1

-- What a line was, from what it does.
abbrev Fits : ℤ → Bool → ℕ → ℕ → Taken → Type 0
Fits limit ended size consumed (finished e) =
    (exceeds limit consumed ≡ false) × (ended ≡ true → size ≢ 0)
Fits limit ended size consumed (broken e) = Unit
Fits limit ended size consumed (continues p) = ended ≡ false

Taken-cases :
    (t : Taken)
    → ((e : SseEvent) × (t ≡ finished e))
      ⊎ (((e : Error) × (t ≡ broken e)) ⊎ ((p : Pending) × (t ≡ continues p)))
Taken-cases (finished e) = inl (e, refl)
Taken-cases (broken e) = inr (inl (e, refl))
Taken-cases (continues p) = inr (inr (p, refl))

module _ (scan_int : Bytes → ℤ → ℤ) (ends_with : Error) (limit : ℤ) where
  take_text-Fits :
      (text : Bytes) (ended : Bool) (size consumed : ℕ) (p : Pending)
      → exceeds limit consumed ≡ false
      → (ended ≡ true → size ≢ 0)
      → Fits limit ended size consumed (take_text scan_int ends_with limit text ended p)
  unfolding take_text
  take_text-Fits [] ended size consumed p e h = (e, h)
  take_text-Fits (c ∷ text) true size consumed p e h = tt
  take_text-Fits (c ∷ text) false size consumed p e h = refl

  take_line-Fits :
      (line : Bytes) (ended : Bool) (consumed : ℕ) (p : Pending)
      → Fits limit ended
          (length line)
          consumed
          (take_line scan_int ends_with limit line ended consumed p)
  unfolding take_line
  take_line-Fits line ended consumed p = elim (Bool-cases (exceeds limit consumed)) [
    | inl e ↦ rw e tt
    | inr e ↦ elim (Bool-cases (ended && nat_eq (length line) 0)) [
      | inl h ↦ rw (e, h) tt
      | inr h ↦
          rw (e, h)
            (take_text-Fits (trim_line line) ended (length line) consumed p e (λ q. ground arith))
    ]
  ]

  -- What `ReadSSE` returns: an event takes a byte at least, and stays within the limit.
  abbrev pub Reads : Bytes → ℕ → Result SseEvent × Bytes → Type 0
  Reads s consumed (ok e, rest) =
      (k : ℕ) × (length s ≡ k + length rest) × (1 ≤ k) × (exceeds limit (consumed + k) ≡ false)
  Reads s consumed (err e, rest) = length rest ≤ length s

  Reads-earlier :
      (s rest : Bytes) (consumed size : ℕ) (outcome : Result SseEvent × Bytes)
      → length s ≡ size + length rest
      → Reads rest (consumed + size) outcome
      → Reads s consumed outcome
  Reads-earlier s rest consumed size (ok e, after) same (k, length_is, some_byte, fits) = (
    size + k,
    omega (arith, same, length_is),
    omega (arith, some_byte),
    subst (λ (n : ℕ). exceeds limit n ≡ false) (omega arith) fits,
  )
  Reads-earlier s rest consumed size (err e, after) same reads = omega (arith, same, reads)

  read_lines-Reads :
      (fuel : ℕ) (s : Bytes) (consumed : ℕ) (p : Pending)
      → length s < fuel
      → (outcome : Result SseEvent × Bytes) × (read_lines scan_int ends_with limit fuel s consumed p
          ≡ some outcome)
        × Reads s consumed outcome
  unfolding read_lines
  read_lines-Reads zero s consumed p enough = absurd (omega (arith, enough))
  read_lines-Reads (suc fuel) s consumed p enough =
      let line = (read_string s).0 in
      let rest = (read_string s).1 in
      let ended = (read_string s).2 in
      let size = length-read_string s in
      let more = (read_string-parts s).1 in
      let t = take_line scan_int ends_with limit line ended (consumed + length line) p in
      let fits = take_line-Fits line ended (consumed + length line) p in
      elim (Taken-cases t) [
        | inl (e, h) ↦
            let now : (exceeds limit (consumed + length line) ≡ false)
                × (ended ≡ true → length line ≢ 0) =
              subst (Fits limit ended (length line) (consumed + length line)) h fits in
            let some_byte : 1 ≤ length line = elim (Bool-cases ended) [
              | inl q ↦ let full = now.1 q in omega arith
              | inr q ↦ more q
            ] in
            ((ok e, rest), rw (h, read_lines) refl, (length line, size, some_byte, now.0))
        | inr (inl (e, h)) ↦ ((err e, rest), rw (h, read_lines) refl, omega (arith, size))
        | inr (inr (next, h)) ↦
            let going : ended ≡ false =
              subst (Fits limit ended (length line) (consumed + length line)) h fits in
            let some_byte = more going in
            let (outcome, runs, reads) =
              read_lines-Reads fuel rest (consumed + length line) next
                (omega (arith, size, some_byte, enough)) in
            (
              outcome,
              rw (h, read_lines) runs,
              Reads-earlier s rest consumed (length line) outcome size reads,
            )
      ]

  -- `ReadSSE` ends on every stream: as many units of fuel as the stream has bytes, and one more,
  -- are enough. An event that it returns has taken at least one byte from the stream, so that a
  -- loop over events makes progress, and with a limit it has taken no more bytes than the limit
  -- allows; with an error too, what is left of the stream is no longer than the stream.
  pub read_sse-Reads :
      (fuel : ℕ) (s : Bytes)
      → length s < fuel
      → (outcome : Result SseEvent × Bytes) × (read_sse scan_int ends_with limit fuel s
          ≡ some outcome)
        × Reads s 0 outcome
  unfolding read_sse
  read_sse-Reads fuel s enough = read_lines-Reads fuel s 0 nothing_yet enough
