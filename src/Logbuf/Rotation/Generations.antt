-- ===== src/Logbuf/Rotation/Generations.antt =====
-- What the files hold after a rotation, and what the writer's count says of them.
use lessen_mcp_gateway.Prelude.{
  ltb→le, subst, ℕ, zero, suc, ◌+◌, ◌-◌, ◌≤◌, ◌<◌, ◌≡◌, refl, ap, sym, ◌∙◌, ◌⊎◌, inl, inr, Bytes,
  Bool, true, false, not, Option, none, some, [], ◌++◌, if◌then◌else◌, length, length-append,
  length-take, take, ltb, nat_eq, arith, Bool-cases,
}
use lessen_mcp_gateway.Errors.{ok}
use lessen_mcp_gateway.Logbuf.Rotation.{
  Files, write_file, rename, RotatingWriter, open_file, shift, rotate, bytes_of, append_bytes,
  append_after, write_open, closed_pipe, write,
}

rename_other :
    (b : Bool) (i j k : ℕ) (fs : Files)
    → nat_eq i k ≡ false
    → nat_eq j k ≡ false
    → rename b i j fs k ≡ fs k
unfolding rename
rename_other false i j k fs hi hj = refl
rename_other true i j k fs hi hj = ground arith

rename_there : (i j : ℕ) (fs : Files) {c : Bytes} → fs i ≡ some c → rename true i j fs j ≡ some c
unfolding rename
rename_there i j fs h = ground arith

-- Renaming up to generation n + 1 leaves what lies above.
shift_above : (allowed : ℕ → Bool) (n k : ℕ) (fs : Files) → n + 1 < k → shift allowed n fs k ≡ fs k
unfolding shift
shift_above allowed zero k fs h = refl
shift_above allowed (suc n) k fs h =
    shift_above allowed n k (rename (allowed (suc n)) (suc n) (suc n + 1) fs) (omega arith)
    ∙ rename_other (allowed (suc n)) (suc n) (suc n + 1) k fs (ground arith) (ground arith)

shift_zero : (allowed : ℕ → Bool) (n : ℕ) (fs : Files) → shift allowed n fs 0 ≡ fs 0
unfolding shift
shift_zero allowed zero fs = refl
shift_zero allowed (suc n) fs =
    shift_zero allowed n (rename (allowed (suc n)) (suc n) (suc n + 1) fs)
    ∙ rename_other (allowed (suc n)) (suc n) (suc n + 1) 0 fs (ground arith) (ground arith)

-- Each generation moves up by one, where the renames are allowed.
shift_up :
    (n j : ℕ) (fs : Files) {c : Bytes}
    → 1 ≤ j
    → j ≤ n
    → fs j ≡ some c
    → shift (λ i. true) n fs (j + 1) ≡ some c
unfolding shift
shift_up zero j fs lo hi h = absurd (omega arith)
shift_up (suc n) j fs {c} lo hi h = elim (Bool-cases (nat_eq j (suc n))) [
  | inl top ↦
      let e : j ≡ suc n = ground arith in
      shift_above (λ i. true) n (j + 1) (rename true (suc n) (suc n + 1) fs) (omega arith)
      ∙ subst (λ (k : ℕ). rename true (suc n) (suc n + 1) fs (k + 1) ≡ some c) (sym e)
          (rename_there (suc n) (suc n + 1) fs (ap fs (sym e) ∙ h))
  | inr below ↦
      shift_up n j (rename true (suc n) (suc n + 1) fs) lo (ground arith)
        (rename_other true (suc n) (suc n + 1) j fs (ground arith) (ground arith) ∙ h)
]

rename_gone : (i j : ℕ) (fs : Files) → nat_eq i j ≡ false → rename true i j fs i ≡ none
unfolding rename
rename_gone i j fs h = ground arith

abbrev renamed : (ℕ → Bool) → RotatingWriter → Files → Files
renamed allowed w fs = rename (allowed 0) 0 1 (shift allowed (w.keep - 1) fs)

-- Once its file is renamed the path is free, so a file that can be opened is new.
rotate_new :
    (allowed : ℕ → Bool) (w : RotatingWriter) (fs : Files)
    → allowed 0 ≡ true
    → rotate allowed true w fs
      ≡ (record w { file = true; size = 0 }, write_file 0 (some []) (renamed allowed w fs), ok tt)
unfolding rotate
rotate_new allowed w fs free =
    let moved = shift allowed (w.keep - 1) fs in
    let gone : renamed allowed w fs 0 ≡ none =
      ap (λ b. rename b 0 1 moved 0) free ∙ rename_gone 0 1 moved refl in
    rw (rotate, open_file, gone) refl

-- Else the file at the path is opened again.
rotate_same :
    (allowed : ℕ → Bool) (w : RotatingWriter) (fs : Files) {c : Bytes}
    → renamed allowed w fs 0 ≡ some c
    → rotate allowed true w fs
      ≡ (record w { file = true; size = length c }, renamed allowed w fs, ok tt)
unfolding rotate
rotate_same allowed w fs still = rw (rotate, open_file, still) refl

renamed_stays :
    (allowed : ℕ → Bool) (w : RotatingWriter) (fs : Files)
    → allowed 0 ≡ false
    → renamed allowed w fs 0 ≡ fs 0
unfolding rename
renamed_stays allowed w fs stays =
    let moved = shift allowed (w.keep - 1) fs in
    ap (λ b. rename b 0 1 moved 0) stays ∙ shift_zero allowed (w.keep - 1) fs

write_file_other :
    (i j : ℕ) (c : Option Bytes) (fs : Files) → nat_eq i j ≡ false → write_file i c fs j ≡ fs j
unfolding write_file
write_file_other i j c fs h = ground arith

write_file_self : (i : ℕ) (c : Option Bytes) (fs : Files) → write_file i c fs i ≡ c
unfolding write_file
write_file_self i c fs = ground arith

renamed_up :
    (w : RotatingWriter) (fs : Files) (j : ℕ) (c : Bytes)
    → j < w.keep
    → fs j ≡ some c
    → renamed (λ i. true) w fs (j + 1) ≡ some c
renamed_up w fs zero c h e =
    rename_there 0 1 (shift (λ i. true) (w.keep - 1) fs)
      (shift_zero (λ i. true) (w.keep - 1) fs ∙ e)
renamed_up w fs (suc j) c h e =
    rename_other true 0 1 (suc j + 1) (shift (λ i. true) (w.keep - 1) fs) (ground arith)
      (ground arith)
    ∙ shift_up (w.keep - 1) (suc j) fs (omega arith) (omega arith) e

-- A rotation that keeps at least one old file, whose renames all are allowed, and that can open the
-- new file, leaves an empty file at the path and counts from 0. Every file that there was in a
-- generation below `keep` has moved up by one, and what lies above the generation `keep` is as
-- before.
pub rotate_lem :
    (w : RotatingWriter) (fs : Files)
    → 1 ≤ w.keep
    → (((rotate (λ i. true) true w fs).0.size ≡ 0) × ((rotate (λ i. true) true w fs).1 0 ≡ some []))
      × ((j : ℕ) (c : Bytes)
          → j < w.keep
          → fs j ≡ some c
          → (rotate (λ i. true) true w fs).1 (j + 1) ≡ some c)
      × ((j : ℕ) → w.keep < j → (rotate (λ i. true) true w fs).1 j ≡ fs j)
rotate_lem w fs h =
    let after = renamed (λ i. true) w fs in
    rw (rotate_new (λ i. true) w fs refl) (
      (refl, write_file_self 0 (some []) after),
      (λ j c lt e.
          write_file_other 0 (j + 1) (some []) after (ground arith) ∙ renamed_up w fs j c lt e),
      (λ j gt.
          write_file_other 0 j (some []) after (ground arith)
          ∙ rename_other true 0 1 j (shift (λ i. true) (w.keep - 1) fs) (ground arith)
              (ground arith)
          ∙ shift_above (λ i. true) (w.keep - 1) j fs (omega arith)),
    )

-- The writer knows the length of the file at the path.
pub record Tracks (w : RotatingWriter) (fs : Files) : Type 0 where
  pub content : Bytes
  pub there : fs 0 ≡ some content
  pub counted : w.size ≡ length content

append_bytes-Tracks :
    (taken : ℕ) (p : Bytes) (w : RotatingWriter) (fs : Files)
    → Tracks w fs
    → Tracks (append_bytes taken p w fs).0 (append_bytes taken p w fs).1
unfolding append_bytes
append_bytes-Tracks taken p w fs t = record {
  content = bytes_of (fs 0) ++ take taken p;
  there = write_file_self 0 (some (bytes_of (fs 0) ++ take taken p)) fs;
  counted = omega (
    arith,
    length-append (bytes_of (fs 0)) (take taken p),
    ap (λ o. length (bytes_of o)) t.there,
    t.counted,
  );
}

rotated-Tracks :
    (allowed : ℕ → Bool) (w : RotatingWriter) (fs : Files)
    → Tracks (record w { file = true; size = 0 }) (write_file 0 (some []) (renamed allowed w fs))
rotated-Tracks allowed w fs = record {
  content = [];
  there = write_file_self 0 (some []) (renamed allowed w fs);
  counted = refl;
}

reopened-Tracks :
    (allowed : ℕ → Bool) (w : RotatingWriter) (fs : Files) {c : Bytes}
    → renamed allowed w fs 0 ≡ some c
    → Tracks (record w { file = true; size = length c }) (renamed allowed w fs)
reopened-Tracks allowed w fs {c} still = record { content = c; there = still; counted = refl }

-- The count that a rotation leaves.
abbrev pub start : (ℕ → Bool) → RotatingWriter → ℕ
start allowed w = if allowed 0 then 0 else w.size

write_open_lem :
    (allowed : ℕ → Bool) (taken : ℕ) (p : Bytes) (w : RotatingWriter) (fs : Files)
    → Tracks w fs
    → Tracks (write_open allowed true taken p w fs).0 (write_open allowed true taken p w fs).1
      × (((write_open allowed true taken p w fs).0.size ≤ w.max_bytes)
          ⊎ ((write_open allowed true taken p w fs).0.size ≤ start allowed w + length p))
unfolding write_open
write_open_lem allowed taken p w fs t = elim (Bool-cases (ltb w.max_bytes (w.size + length p))) [
  | inl full ↦ elim (Bool-cases (allowed 0)) [
    | inl free ↦
        rw (free, write_open, full, ap (append_after taken p) (rotate_new allowed w fs free))
          (
            append_bytes-Tracks taken p (record w { file = true; size = 0 })
                (write_file 0 (some []) (renamed allowed w fs)) (rotated-Tracks allowed w fs),
            inr (omega (arith, length-take taken p)),
          )
    | inr stays ↦
        let still = renamed_stays allowed w fs stays ∙ t.there in
        rw (stays, write_open, full, ap (append_after taken p) (rotate_same allowed w fs still))
          (
            append_bytes-Tracks taken p (record w { file = true; size = length t.content })
                (renamed allowed w fs) (reopened-Tracks allowed w fs still),
            inr (omega (arith, length-take taken p, t.counted)),
          )
  ]
  | inr fits ↦
      rw (write_open, fits)
        (
          append_bytes-Tracks taken p w fs t,
          inl (omega (arith, length-take taken p, ltb→le _ _ fits)),
        )
]

write-write_open :
    (allowed : ℕ → Bool) (taken : ℕ) (p : Bytes) (w : RotatingWriter) (fs : Files)
    → w.file ≡ true
    → write allowed true taken p w fs ≡ write_open allowed true taken p w fs
unfolding write
write-write_open allowed taken p w fs h =
    ap (λ (b : Bool). if not b then (w, fs, closed_pipe) else write_open allowed true taken p w fs)
      h

-- A write to an open file, with a rotation that can open a file and read its size where one is due,
-- keeps the count equal to the length of the file at the path, if it was, whichever renames are
-- refused. Afterwards the count is within the limit, or no more than the length of this one write;
-- only where the rename of the path's file is refused, which the writer ignores, it may be what it
-- was and this write more.
pub write_lem :
    (allowed : ℕ → Bool) (taken : ℕ) (p : Bytes) (w : RotatingWriter) (fs : Files)
    → w.file ≡ true
    → Tracks w fs
    → Tracks (write allowed true taken p w fs).0 (write allowed true taken p w fs).1
      × (((write allowed true taken p w fs).0.size ≤ w.max_bytes)
          ⊎ ((write allowed true taken p w fs).0.size ≤ start allowed w + length p))
write_lem allowed taken p w fs isopen t =
    rw (write-write_open allowed taken p w fs isopen) (write_open_lem allowed taken p w fs t)
