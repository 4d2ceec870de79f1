-- ===== src/Logbuf/Rotation.antt =====
-- internal/logbuf/ring.go, `RotatingWriter`: a log file that is renamed to "<path>.1" when it is
-- full, the older ones to ".2" and so on. The files are a function from the number of a generation,
-- 0 for the path itself, to its bytes. `os.Rename` of a file that is not there fails, and so may
-- any other; a failure is ignored, as in the source. What the operating system may refuse comes as
-- arguments: whether the file of a generation can be renamed, whether a file can be opened, and how
-- many bytes a write takes. `Stat` of a file that was opened is taken to succeed.
pub mod Generations
use lessen_mcp_gateway.Prelude.{
  ltb→le, subst, ℕ, zero, suc, ◌+◌, ◌-◌, ◌≤◌, ◌<◌, ◌≡◌, refl, ap, sym, ◌∙◌, ◌⊎◌, inl, inr, Bytes,
  Bool, true, false, not, Option, none, some, [], ◌++◌, if◌then◌else◌, length, length-append,
  length-take, take, ltb, nat_eq, arith, Bool-cases, codes,
}
use lessen_mcp_gateway.Errors.{Result, ok, err, message}

abbrev pub Files : Type 0
Files = ℕ → Option Bytes

unfoldable pub write_file : ℕ → Option Bytes → Files → Files
write_file i c fs j = if nat_eq i j then c else fs j

-- `os.Rename`, which the system allows or not
unfoldable pub rename : Bool → ℕ → ℕ → Files → Files
unfolding write_file
rename false i j fs = fs
rename true i j fs = elim (fs i) [
  | none ↦ fs
  | some c ↦ write_file j (some c) (write_file i none fs)
]

pub record RotatingWriter : Type 0 where
  pub max_bytes : ℕ
  pub keep : ℕ
  pub file : Bool
  pub size : ℕ

-- The sizes that `NewRotatingWriter` takes in place of 0.
unfoldable pub new_writer : ℕ → ℕ → RotatingWriter
new_writer max_bytes keep = record {
  max_bytes = if nat_eq max_bytes 0 then 16777216 else max_bytes;
  keep = if nat_eq keep 0 then 3 else keep;
  file = false;
  size = 0;
}

-- `open`, with `O_APPEND|O_CREATE`.
unfoldable pub open_file :
    Bool → RotatingWriter → Files → RotatingWriter × Files × Result (Unit {0})
unfolding write_file
open_file false w fs = (w, fs, err (message (codes "open")))
open_file true w fs = elim (fs 0) [
  | none ↦ (record w { file = true; size = 0 }, write_file 0 (some []) fs, ok tt)
  | some c ↦ (record w { file = true; size = length c }, fs, ok tt)
]

-- `for i := w.keep - 1; i >= 1; i--`
unfoldable pub shift : (ℕ → Bool) → ℕ → Files → Files
unfolding rename
shift allowed zero fs = fs
shift allowed (suc i) fs = shift allowed i (rename (allowed (suc i)) (suc i) (suc i + 1) fs)

unfoldable pub rotate :
    (ℕ → Bool) → Bool → RotatingWriter → Files → RotatingWriter × Files × Result (Unit {0})
unfolding shift open_file
rotate allowed can_open w fs =
    open_file can_open w (rename (allowed 0) 0 1 (shift allowed (w.keep - 1) fs))

abbrev pub bytes_of : Option Bytes → Bytes
bytes_of none = []
bytes_of (some c) = c

-- The bytes that the open file takes. The error that comes with a short count is left out.
pub append_bytes : ℕ → Bytes → RotatingWriter → Files → RotatingWriter × Files × Result ℕ
append_bytes taken p w fs =
    let bytes = take taken p in
    (
      record w { size = w.size + length bytes },
      write_file 0 (some (bytes_of (fs 0) ++ bytes)) fs,
      ok (length bytes),
    )

-- `if err := w.rotate(); err != nil { return 0, err }`, and then the write.
pub append_after :
    ℕ → Bytes → RotatingWriter × Files × Result (Unit {0}) → RotatingWriter × Files × Result ℕ
append_after taken p (w, fs, err e) = (w, fs, err e)
append_after taken p (w, fs, ok _) = append_bytes taken p w fs

-- `Write`, after the test that there is a file.
pub write_open :
    (ℕ → Bool) → Bool → ℕ → Bytes → RotatingWriter → Files → RotatingWriter × Files × Result ℕ
unfolding append_bytes append_after
write_open allowed can_open taken p w fs =
    if ltb w.max_bytes (w.size + length p)
    then append_after taken p (rotate allowed can_open w fs)
    else append_bytes taken p w fs

abbrev closed_pipe : Result ℕ
closed_pipe = err (message (codes "io: read/write on closed pipe"))

unfoldable pub write :
    (ℕ → Bool) → Bool → ℕ → Bytes → RotatingWriter → Files → RotatingWriter × Files × Result ℕ
unfolding write_open
write allowed can_open taken p w fs =
    if not w.file then (w, fs, closed_pipe) else write_open allowed can_open taken p w fs

unfoldable pub close : RotatingWriter → RotatingWriter
close w = record w { file = false }
