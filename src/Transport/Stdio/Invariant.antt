-- ===== src/Transport/Stdio/Invariant.antt =====
-- What holds of the calls and the client of System in every reachable state. Between its entry in
-- the table and its return, a call has its entry or an answer in its channel, and never both.
pub mod Own
pub mod Steps
use lessen_mcp_gateway.Prelude.{
  ℕ, zero, suc, ◌+◌, ◌≤◌, ◌<◌, ◌^◌, ◌≡◌, ◌≢◌, refl, ap, sym, ◌∙◌, subst, Bytes, codes, Bool, true,
  false, Option, none, some, List, [], ◌∷◌, ◌++◌, if◌then◌else◌, nat_eq, length, length-append, ltb,
  ltb→lt, ltb→le, Bool-cases, Option-cases, inl, inr, arith, ◌==◌,
}
use lessen_mcp_gateway.Errors.{Error, Context, Result, ok, err, Result-cases, message}
use lessen_mcp_gateway.Mcp.Protocol.{Response}
use lessen_mcp_gateway.Transport.Stdio.{
  outcome, StdioClient, CallResult, member, without, ensure_started, add_id, register, writable,
  remove_pending, owner, deliver, close, handle_exit, stop_idle, reset_idle, new_stdio,
}
use lessen_mcp_gateway.Transport.Stdio.System.{
  Phase, unused, numbered, registered, writing, waiting, failing, returned, System, set, send,
  send_all, registering, writing_to, delivering, failing_all, closing, exiting, Step, starts,
  numbers, registers, begins, writes, breaks, gives_up, cancels, receives, responds, exits, closes,
  idles, touches, init, Reach, start, later,
}

abbrev pub count : Bool → ℕ
count true = 1
count false = 0

-- The process of a call that is in the table is the one that runs.
abbrev pub Runs : StdioClient → ℕ → Bool → Type 0
Runs c g m = m ≡ true → (c.running ≡ true) × (c.generation ≡ g)

-- A call in a phase, with its entry in the table and the answers in its channel: between its entry
-- and its return it has one of the two.
abbrev pub CallInv : StdioClient → Phase → Bool → ℕ → Type 0
CallInv c unused m k = k + count m ≡ 0
CallInv c numbered m k = k + count m ≡ 0
CallInv c registered m k = k + count m ≡ 1
CallInv c (failing e) m k = k + count m ≡ 1
CallInv c (writing g) m k = (k + count m ≡ 1) × Runs c g m
CallInv c (waiting g) m k = (k + count m ≡ 1) × Runs c g m
CallInv c (returned r) m k = (m ≡ false) × (k ≤ 1)

pub record Inv (s : System) : Type 0 where
  pub stdin : s.client.stdin ≡ s.client.running
  pub shut : s.client.closed ≡ true → (s.client.pending ≡ []) × (s.client.running ≡ false)
  pub above : (n : ℕ) → s.client.next_id < n → s.phase n ≡ unused
  pub calls :
      (n : ℕ) → CallInv s.client (s.phase n) (member n s.client.pending) (length (s.channel n))

pub member-without :
    (n j : ℕ) (ns : List ℕ) → member j (without n ns) ≡ (if nat_eq n j then false else member j ns)
member-without n j [] = ground arith
member-without n j (m ∷ ns) = ground (arith, member-without n j ns)

pub member-owner :
    (f : ℕ → Bytes) (key : Bytes) (ns : List ℕ) (n : ℕ)
    → owner f key ns ≡ some n
    → member n ns ≡ true
unfolding owner
member-owner f key [] n h = cc
member-owner f key (m ∷ ns) n h = elim (Bool-cases (f m == key)) [
  | inl e ↦ let same = (rw e at h) in ground arith
  | inr e ↦ let rest = member-owner f key ns n (rw e at h) in ground arith
]

-- A client that keeps a running process keeps every call's promise.
pub CallInv-frame :
    (c c' : StdioClient) (p : Phase) (m : Bool) (k : ℕ)
    → (m ≡ true → c.running ≡ true → (c'.running ≡ true) × (c'.generation ≡ c.generation))
    → CallInv c p m k
    → CallInv c' p m k
CallInv-frame c c' unused m k f h = h
CallInv-frame c c' numbered m k f h = h
CallInv-frame c c' registered m k f h = h
CallInv-frame c c' (failing e) m k f h = h
CallInv-frame c c' (writing g) m k f h =
    (h.0, λ e. ((f e (h.1 e).0).0, (f e (h.1 e).0).1 ∙ (h.1 e).1))
CallInv-frame c c' (waiting g) m k f h =
    (h.0, λ e. ((f e (h.1 e).0).0, (f e (h.1 e).0).1 ∙ (h.1 e).1))
CallInv-frame c c' (returned r) m k f h = h

-- An entry that leaves the table for an answer in the channel.
pub CallInv-answer :
    (c c' : StdioClient) (p : Phase) (m : Bool) (k k' : ℕ)
    → k' ≡ k + count m
    → CallInv c p m k
    → CallInv c' p false k'
CallInv-answer c c' unused m k k' e h = omega arith
CallInv-answer c c' numbered m k k' e h = omega arith
CallInv-answer c c' registered m k k' e h = omega arith
CallInv-answer c c' (failing x) m k k' e h = omega arith
CallInv-answer c c' (writing g) m k k' e h = (omega arith, λ x. cc)
CallInv-answer c c' (waiting g) m k k' e h = (omega arith, λ x. cc)
CallInv-answer c c' (returned r) m k k' e h = (refl, ground arith)

pub length-send_all :
    (ns : List ℕ) (r : CallResult) (channel : ℕ → List CallResult) (n : ℕ)
    → length (send_all ns r channel n) ≡ length (channel n) + count (member n ns)
length-send_all ns r channel n = elim (Bool-cases (member n ns)) [
  | inl e ↦ rw e (length-append (channel n) (r ∷ []))
  | inr e ↦ rw e (omega arith)
]

-- A change of the client alone that keeps the table, and the process while the table has entries.
pub record Frame (c c' : StdioClient) : Type 0 where
  pub pending : c'.pending ≡ c.pending
  pub next_id : c'.next_id ≡ c.next_id
  pub closed : c'.closed ≡ c.closed
  pub stdin : c.stdin ≡ c.running → c'.stdin ≡ c'.running
  pub stopped : c.closed ≡ true → c.running ≡ false → c'.running ≡ false
  pub process :
      (n : ℕ)
      → member n c.pending ≡ true
      → c.running ≡ true
      → (c'.running ≡ true) × (c'.generation ≡ c.generation)

pub Frame-Inv :
    (s : System) (c' : StdioClient) → Frame s.client c' → Inv s → Inv (record s { client = c' })
Frame-Inv s c' f i = record {
  stdin = f.stdin i.stdin;
  shut = λ e.
      let was = i.shut (sym f.closed ∙ e) in
      (f.pending ∙ was.0, f.stopped (sym f.closed ∙ e) was.1);
  above = λ n h. i.above n (subst (λ (k : ℕ). k < n) f.next_id h);
  calls = λ n.
      subst (λ (ns : List ℕ). CallInv c' (s.phase n) (member n ns) (length (s.channel n)))
        (sym f.pending)
        (CallInv-frame s.client c' (s.phase n) (member n s.client.pending) (length (s.channel n))
          (f.process n) (i.calls n));
}

pub reset_idle-Frame : (c : StdioClient) → Frame c (reset_idle c)
unfolding reset_idle
reset_idle-Frame c = record {
  pending = ground arith;
  next_id = ground arith;
  closed = ground arith;
  stdin = λ h. ground arith;
  stopped = λ h k. ground arith;
  process = λ n h r. ground arith;
}

pub ensure_started-Frame :
    (ctx : Context) (started : Result (Unit {0})) (c : StdioClient)
    → Frame c (ensure_started ctx started c).0
unfolding ensure_started
ensure_started-Frame ctx started c = record {
  pending = ground arith;
  next_id = ground arith;
  closed = ground arith;
  stdin = λ h. ground arith;
  stopped = λ h k. ground arith;
  process = λ n h r. ground arith;
}

pub stop_idle-Frame : (g : ℕ) (c : StdioClient) → Frame c (stop_idle g c)
unfolding stop_idle
stop_idle-Frame g c = record {
  pending = ground arith;
  next_id = ground arith;
  closed = ground arith;
  stdin = λ h. ground arith;
  stopped = λ h k. ground arith;
  process = λ n h r. ground arith;
}

-- The table is emptied, and each call that was in it has the answer.
pub failing_all-Inv :
    (s : System) (c' : StdioClient) (r : CallResult)
    → (c'.pending ≡ [])
      × (c'.next_id ≡ s.client.next_id)
      × (c'.stdin ≡ false)
      × (c'.running ≡ false)
    → Inv s
    → Inv (failing_all r s (c', s.client.pending))
failing_all-Inv s c' r (empty, same, no_stdin, stopped) i = record {
  stdin = no_stdin ∙ sym stopped;
  shut = λ e. (empty, stopped);
  above = λ n h. i.above n (subst (λ (k : ℕ). k < n) same h);
  calls = λ n.
      subst
        (λ (ns : List ℕ).
          CallInv c' (s.phase n) (member n ns) (length (send_all s.client.pending r s.channel n)))
        (sym empty)
        (CallInv-answer s.client c' (s.phase n) (member n s.client.pending) (length (s.channel n))
          (length (send_all s.client.pending r s.channel n))
          (length-send_all s.client.pending r s.channel n) (i.calls n));
}
