-- ===== src/Transport/Sse/Printed.antt =====
-- Events in the form that internal/transport/sse.go reads, and what it reads in them.
use mathlib.Core.List.{append_assoc, append-nil}
use lessen_mcp_gateway.Prelude.{
  subst, ℕ, suc, ◌+◌, ◌≡◌, refl, ap, sym, ◌∙◌, Bytes, codes, nat_eq, Bool, true, false, not, ◌&&◌,
  Option, none, some, List, [], ◌∷◌, ◌++◌, length, arith, All, all, ◌==◌, cut, has_prefix,
  length-append,
}
use lessen_mcp_gateway.Prelude.Int.{ℤ, pos, negsuc}
use lessen_mcp_gateway.Errors.{Error, Result, ok}
use lessen_mcp_gateway.Transport.Sse.{
  SseEvent, Pending, newline, is_line_end, read_string, trim_line, exceeds, continues, take_text,
  take_line, read_lines, read_sse, finish, set_field, split_field, nothing_yet, join_lines,
  trim_blank,
}

-- No character that ends a line.
abbrev pub IsLine : Bytes → Type 0
IsLine text = all (λ c. not (is_line_end c)) text ≡ true

-- `name: text`, as a server sends a field.
abbrev pub print_field : Bytes → Bytes → Bytes
print_field name text = name ++ b':' ∷ b' ' ∷ text ++ newline ∷ []

abbrev pub print_data : List Bytes → Bytes
print_data [] = []
print_data (l ∷ ls) = print_field (codes "data") l ++ print_data ls

-- An event, and the empty line after it.
abbrev pub print_event : Bytes → Bytes → List Bytes → Bytes
print_event id event lines =
    print_field (codes "event") event
    ++ print_field (codes "id") id
    ++ print_data lines
    ++ newline ∷ []

read_string-line :
    (text rest : Bytes)
    → IsLine text
    → read_string (text ++ newline ∷ rest) ≡ (text ++ newline ∷ [], rest, false)
unfolding read_string
read_string-line [] rest h = refl
read_string-line (c ∷ text) rest h = rw (read_string-line text rest (ground arith)) (ground arith)

trim_line-line : (text : Bytes) → IsLine text → trim_line (text ++ newline ∷ []) ≡ text
unfolding trim_line
trim_line-line [] h = refl
trim_line-line (c ∷ text) h = ground (arith, trim_line-line text (ground arith))

-- A field's name: a line without a colon, and not empty.
abbrev IsName : Bytes → Type 0
IsName [] = ⊥
IsName (c ∷ name) = all (λ x. not (is_line_end x) && not (nat_eq x b':')) (c ∷ name) ≡ true

IsLine-append :
    (name text : Bytes)
    → all (λ x. not (is_line_end x) && not (nat_eq x b':')) name ≡ true
    → IsLine text
    → IsLine (name ++ b':' ∷ b' ' ∷ text)
IsLine-append [] text n h = h
IsLine-append (c ∷ name) text n h = ground (arith, IsLine-append name text (ground arith) h)

cut-name :
    (name text : Bytes)
    → all (λ x. not (is_line_end x) && not (nat_eq x b':')) name ≡ true
    → cut (name ++ b':' ∷ text) (codes ":") ≡ some (name, text)
unfolding cut has_prefix
cut-name [] text n = refl
cut-name (c ∷ name) text n = rw (cut-name name text (ground arith)) (ground arith)

split_field-name :
    (name text : Bytes)
    → all (λ x. not (is_line_end x) && not (nat_eq x b':')) name ≡ true
    → split_field (name ++ b':' ∷ b' ' ∷ text) ≡ (name, text)
unfolding split_field
split_field-name name text n =
    ap
      (λ (o : Option (Bytes × Bytes)). elim o [
        | none ↦ (name ++ b':' ∷ b' ' ∷ text, [])
        | some (field, value) ↦ (field, trim_blank value)
      ])
      (cut-name name (b' ' ∷ text) n)

read_string-field :
    (name text rest : Bytes)
    → IsName name
    → IsLine text
    → read_string (print_field name text ++ rest) ≡ (print_field name text, rest, false)
read_string-field [] text rest n h = absurd n
read_string-field (c ∷ name) text rest n h =
    let line = (c ∷ name) ++ b':' ∷ b' ' ∷ text in
    let whole : print_field (c ∷ name) text ≡ line ++ newline ∷ [] = simp append_assoc in
    let same : print_field (c ∷ name) text ++ rest ≡ line ++ newline ∷ rest = simp append_assoc in
    rw (same, whole) (read_string-line line rest (IsLine-append (c ∷ name) text n h))

exceeds-less : (limit : ℤ) (n k : ℕ) → exceeds limit (n + k) ≡ false → exceeds limit n ≡ false
exceeds-less (pos limit) n k h = ground arith
exceeds-less (negsuc limit) n k h = refl

module _ (scan_int : Bytes → ℤ → ℤ) (ends_with : Error) (limit : ℤ) where
  abbrev lines_of : ℕ → Bytes → ℕ → Pending → Option (Result SseEvent × Bytes)
  lines_of = read_lines scan_int ends_with limit

  same_read :
      {f f' : ℕ} {s s' : Bytes} {n n' : ℕ} {p p' : Pending}
      → f ≡ f'
      → s ≡ s'
      → n ≡ n'
      → p ≡ p'
      → lines_of f s n p ≡ lines_of f' s' n' p'
  same_read a b c d = rw (a, b, c, d) refl

  read_lines-continues :
      (fuel : ℕ) (s line rest : Bytes) (consumed : ℕ) (p q : Pending)
      → read_string s ≡ (line, rest, false)
      → take_line scan_int ends_with limit line false (consumed + length line) p ≡ continues q
      → lines_of (suc fuel) s consumed p ≡ lines_of fuel rest (consumed + length line) q
  unfolding read_lines
  read_lines-continues fuel s line rest consumed p q reads takes =
      subst
        (λ (r : Bytes × Bytes × Bool).
          take_line scan_int ends_with limit r.0 r.2 (consumed + length r.0) p ≡ continues q
          → lines_of (suc fuel) s consumed p ≡ lines_of fuel r.1 (consumed + length r.0) q)
        reads (λ h. rw (h, read_lines) refl) takes

  take_line-field :
      (name text : Bytes) (consumed : ℕ) (p : Pending)
      → IsName name
      → IsLine text
      → exceeds limit consumed ≡ false
      → take_line scan_int ends_with limit (print_field name text) false consumed p
        ≡ continues (set_field scan_int ends_with limit (name, text) p)
  unfolding take_line take_text
  take_line-field [] text consumed p n h fits = absurd n
  take_line-field (c ∷ name) text consumed p n h fits =
      let line = (c ∷ name) ++ b':' ∷ b' ' ∷ text in
      let whole : print_field (c ∷ name) text ≡ line ++ newline ∷ [] = simp append_assoc in
      let trimmed = ap trim_line whole ∙ trim_line-line line (IsLine-append (c ∷ name) text n h) in
      let split = split_field-name (c ∷ name) text n in
      let named : nat_eq c b':' ≡ false = ground arith in rw (fits, trimmed, named, split) refl

  read_lines-field :
      (fuel : ℕ) (name text rest : Bytes) (consumed : ℕ) (p : Pending)
      → IsName name
      → IsLine text
      → exceeds limit (consumed + length (print_field name text)) ≡ false
      → lines_of (suc fuel) (print_field name text ++ rest) consumed p
        ≡ lines_of fuel rest
            (consumed + length (print_field name text))
            (set_field scan_int ends_with limit (name, text) p)
  read_lines-field fuel name text rest consumed p n h fits =
      read_lines-continues fuel (print_field name text ++ rest) (print_field name text) rest
        consumed p (set_field scan_int ends_with limit (name, text) p)
        (read_string-field name text rest n h) (take_line-field name text _ p n h fits)

  read_lines-blank :
      (fuel : ℕ) (rest : Bytes) (consumed : ℕ) (p : Pending)
      → exceeds limit (consumed + 1) ≡ false
      → lines_of (suc fuel) (newline ∷ rest) consumed p ≡ some (ok (finish p), rest)
  unfolding read_lines take_line take_text read_string trim_line
  read_lines-blank fuel rest consumed p fits = rw (fits, read_lines) refl

  abbrev with_data : List Bytes → Pending → Pending
  with_data ls p = record p { data_lines = p.data_lines ++ ls }

  read_lines-data :
      (ls : List Bytes) (fuel : ℕ) (rest : Bytes) (consumed : ℕ) (p : Pending)
      → All IsLine ls
      → exceeds limit (consumed + length (print_data ls)) ≡ false
      → lines_of (length ls + fuel) (print_data ls ++ rest) consumed p
        ≡ lines_of fuel rest (consumed + length (print_data ls)) (with_data ls p)
  unfolding set_field ◌==◌
  read_lines-data [] fuel rest consumed p h fits =
      same_read (omega arith) refl (omega arith) (rw (append-nil p.data_lines) refl)
  read_lines-data (l ∷ ls) fuel rest consumed p h fits =
      let size = length-append (print_field (codes "data") l) (print_data ls) in
      same_read (omega arith) (append_assoc (print_field (codes "data") l) (print_data ls) rest)
        refl refl
      ∙ read_lines-field (length ls + fuel) (codes "data") l (print_data ls ++ rest) consumed p refl
          h.0
          (exceeds-less limit _ (length (print_data ls))
            (subst (λ (k : ℕ). exceeds limit k ≡ false) (omega (arith, size)) fits))
      ∙ read_lines-data ls fuel rest (consumed + length (print_field (codes "data") l))
          (with_data (l ∷ []) p) h.1
          (subst (λ (k : ℕ). exceeds limit k ≡ false) (omega (arith, size)) fits)
      ∙ same_read refl refl (omega (arith, size)) (rw (append_assoc p.data_lines (l ∷ []) ls) refl)

  -- An event as a server sends it, with an identity, a kind and lines of data that hold no line
  -- ends, and no zero byte in the identity, is read back whole when it is within the limit: the
  -- data is the lines joined by line ends, and exactly the bytes after the event's empty line are
  -- left in the stream, whatever they are. Fuel for its lines is enough.
  pub read_sse-print_event :
      (id event : Bytes) (ls : List Bytes) (fuel : ℕ) (rest : Bytes)
      → IsLine id
      → all (λ c. not (nat_eq c 0)) id ≡ true
      → IsLine event
      → All IsLine ls
      → exceeds limit (length (print_event id event ls)) ≡ false
      → read_sse scan_int ends_with limit (3 + length ls + fuel) (print_event id event ls ++ rest)
        ≡ some (
          ok (record { id = id; event = event; data_bytes = join_lines ls; retry = pos 0 }),
          rest,
        )
  unfolding read_sse set_field ◌==◌
  read_sse-print_event id event ls fuel rest i z e h fits =
      let a = print_field (codes "event") event in
      let b = print_field (codes "id") id in
      let d = print_data ls in
      let size : length (print_event id event ls) ≡ length a + length b + length d + 1 =
        length-append (a ++ b ++ d) (newline ∷ [])
        ∙ ap (λ k. k + 1) (length-append (a ++ b) d ∙ ap (λ k. k + length d) (length-append a b)) in
      let within : (k j : ℕ) → k + j ≡ length (print_event id event ls) → exceeds limit k ≡ false =
        λ k j same. exceeds-less limit k j (subst (λ n. exceeds limit n ≡ false) (sym same) fits) in
      let named = record nothing_yet { event = event } in
      same_read {f' = suc (suc (length ls + suc fuel))} {s' = a ++ (b ++ (d ++ newline ∷ rest))}
        (omega arith) (simp append_assoc) refl refl
      ∙ read_lines-field (suc (length ls + suc fuel)) (codes "event") event
          (b ++ (d ++ newline ∷ rest)) 0 nothing_yet refl e
          (within (0 + length a) (length b + length d + 1) (omega (arith, size)))
      ∙ read_lines-field (length ls + suc fuel) (codes "id") id (d ++ newline ∷ rest) (0 + length a)
          named refl i (within (0 + length a + length b) (length d + 1) (omega (arith, size)))
      ∙ same_read refl refl refl (rw z refl)
      ∙ read_lines-data ls (suc fuel) (newline ∷ rest) (0 + length a + length b)
          (record named { id = id }) h
          (within (0 + length a + length b + length d) 1 (omega (arith, size)))
      ∙ read_lines-blank fuel rest (0 + length a + length b + length d)
          (with_data ls (record named { id = id }))
          (within (0 + length a + length b + length d + 1) 0 (omega (arith, size)))
