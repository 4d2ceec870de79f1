-- ===== src/Transport/Stdio/Answers.antt =====
-- Every call of a stdio client is owed one answer.
use lessen_mcp_gateway.Prelude.{
  ℕ, ◌≤◌, ◌≡◌, refl, ap, ◌∙◌, Bytes, codes, Bool, true, false, some, List, [], ◌∷◌, ◌++◌, nat_eq,
  length, Bool-cases, inl, inr, arith, ◌==◌, eq_iff, eq_refl,
}
use lessen_mcp_gateway.Errors.{Error, ok, err, message}
use lessen_mcp_gateway.Mcp.Protocol.{Response}
use lessen_mcp_gateway.Transport.Stdio.{
  StdioClient, new_stdio, outcome, member, owner, deliver, close, handle_exit,
}
use lessen_mcp_gateway.Transport.Stdio.System.{
  Phase, unused, numbered, registered, returned, writing, waiting, failing, System, Step, starts,
  numbers, registers, begins, writes, breaks, gives_up, cancels, receives, responds, exits, closes,
  idles, touches, init, Reach, start, later, closing, exiting, delivering,
}
use lessen_mcp_gateway.Transport.Stdio.Invariant.{
  Inv, CallInv, count, Frame-Inv, reset_idle-Frame, ensure_started-Frame, stop_idle-Frame,
  member-without,
}
use lessen_mcp_gateway.Transport.Stdio.Invariant.Own.{in_phase, phase-Inv, removing-Inv, set_self}
use lessen_mcp_gateway.Transport.Stdio.Invariant.Steps.{
  numbers-Inv, registers-Inv, begins-Inv, responds-Inv, exits-Inv, closes-Inv, receives-Inv,
}

-- Every step keeps the invariant.
Step-Inv : (format_uint : ℕ → Bytes) {s t : System} → Step format_uint s t → Inv s → Inv t
Step-Inv f {s} (starts ctx started) i = Frame-Inv s _ (ensure_started-Frame ctx started s.client) i
Step-Inv f {s} (numbers n e fits) i = numbers-Inv f s i n e fits
Step-Inv f {s} (registers n e) i = registers-Inv f s i n e
Step-Inv f {s} (begins n e) i = begins-Inv f s i n e
Step-Inv f {s} (writes n g e) i =
    phase-Inv s n (writing g) (waiting g) e (λ q. cc) (in_phase s n (writing g) i e) i
Step-Inv f {s} (breaks n g x e) i =
    phase-Inv s n (writing g) (failing x) e (λ q. cc) (in_phase s n (writing g) i e).0 i
Step-Inv f {s} (gives_up n x e) i =
    removing-Inv s n (failing x) (err x) e (λ q. cc) (omega (arith, in_phase s n (failing x) i e)) i
Step-Inv f {s} (cancels n g x e) i =
    removing-Inv s n (waiting g) (err x) e (λ q. cc) (omega (arith, in_phase s n (waiting g) i e)) i
Step-Inv f {s} (receives n g r rest e full) i = receives-Inv f s i n g r rest e full
Step-Inv f {s} (responds r) i = responds-Inv f s i r
Step-Inv f {s} (exits g x) i = exits-Inv f s i g x
Step-Inv f {s} closes i = closes-Inv f s i
Step-Inv f {s} (idles g) i = Frame-Inv s _ (stop_idle-Frame g s.client) i
Step-Inv f {s} touches i = Frame-Inv s _ (reset_idle-Frame s.client) i

init-Inv :
    (command : Bytes) (persistent : Bool) {c : StdioClient}
    → new_stdio command persistent ≡ ok c
    → Inv (init c)
unfolding new_stdio
init-Inv [] persistent {c} e = cc
init-Inv (x ∷ command) persistent {c} e = record {
  stdin = ground arith;
  shut = λ h. ground arith;
  above = λ n h. refl;
  calls = λ n. ground arith;
}

Reach-Inv :
    (format_uint : ℕ → Bytes) (command : Bytes) (persistent : Bool) {c : StdioClient} {s : System}
    → new_stdio command persistent ≡ ok c
    → Reach format_uint c s
    → Inv s
Reach-Inv f command persistent e start = init-Inv command persistent e
Reach-Inv f command persistent e (later r st) = Step-Inv f st (Reach-Inv f command persistent e r)

count-true : (m : Bool) → count m ≡ 1 → m ≡ true
count-true true h = refl
count-true false h = absurd (omega (arith, h))

CallInv-le : (c : StdioClient) (p : Phase) (m : Bool) (k : ℕ) → CallInv c p m k → k ≤ 1
CallInv-le c unused m k h = omega arith
CallInv-le c numbered m k h = omega arith
CallInv-le c registered m k h = omega arith
CallInv-le c (failing e) m k h = omega arith
CallInv-le c (writing g) m k h = omega (arith, h.0)
CallInv-le c (waiting g) m k h = omega (arith, h.0)
CallInv-le c (returned r) m k h = h.1

not_same : (f : ℕ → Bytes) (m n : ℕ) → (f m == f n) ≡ false → nat_eq m n ≡ false
not_same f m n e = elim (Bool-cases (nat_eq m n)) [
  | inl h ↦
      let same : m ≡ n = ground arith in let equal = ap (λ a. f a == f n) same ∙ eq_refl (f n) in cc
  | inr h ↦ h
]

owner-member :
    (f : ℕ → Bytes)
    → ((a b : ℕ) → f a ≡ f b → a ≡ b)
    → (ns : List ℕ) (n : ℕ) → member n ns ≡ true
    → owner f (f n) ns ≡ some n
unfolding owner
owner-member f distinct [] n h = cc
owner-member f distinct (m ∷ ns) n h = elim (Bool-cases (f m == f n)) [
  | inl e ↦ rw e (ap some (distinct m n ((eq_iff (f m) (f n)).0 e)))
  | inr e ↦
      let differs : nat_eq m n ≡ false = not_same f m n e in
      rw e (owner-member f distinct ns n (ground arith))
]

module _ (format_uint : ℕ → Bytes) (command : Bytes) (persistent : Bool) {c : StdioClient}
    {s : System} (made : new_stdio command persistent ≡ ok c) (r : Reach format_uint c s) where
  safe : Inv s
  safe = Reach-Inv format_uint command persistent made r

  -- In every state that calls, responses, exits of the process, idle stops and Close can reach, in
  -- any order, the channel of a call holds at most one answer: its capacity is one, so no goroutine
  -- that answers a call is ever blocked.
  pub one_answer : (n : ℕ) → length (s.channel n) ≤ 1
  one_answer n =
      CallInv-le s.client (s.phase n) (member n s.client.pending) (length (s.channel n))
        (safe.calls n)

  -- A call that waits and has no answer yet has its entry in the table, and the process that its
  -- request was written to is the one that runs: neither an idle stop nor a restart has replaced
  -- it.
  pub waiting-runs :
      (n g : ℕ)
      → s.phase n ≡ waiting g
      → s.channel n ≡ []
      → (member n s.client.pending ≡ true) × (s.client.running ≡ true) × (s.client.generation ≡ g)
  waiting-runs n g e empty =
      let now = in_phase s n (waiting g) safe e in
      let here = count-true (member n s.client.pending) (omega (arith, now.0, ap length empty)) in
      let process = now.1 here in (here, process.0, process.1)

  -- A call that waits and has no answer yet gets one as soon as its process exits, whatever the
  -- exit's error, and as soon as the client is closed: no call is left waiting for a process that
  -- is gone.
  pub waiting-answered :
      (n g : ℕ) (e : Error)
      → s.phase n ≡ waiting g
      → s.channel n ≡ []
      → ((exiting g e s).channel n ≡ err e ∷ [])
        × ((closing s).channel n ≡ err (message (codes "stdio client closed")) ∷ [])
  unfolding handle_exit close
  waiting-answered n g e waits empty =
      let (here, runs, same) = waiting-runs n g waits empty in
      let not_closed : s.client.closed ≡ false = elim (Bool-cases s.client.closed) [
        | inl h ↦ let gone = (safe.shut h).1 in cc
        | inr h ↦ h
      ] in
      let reaches : nat_eq g s.client.generation ≡ true = ground arith in
      (rw (reaches, exiting, here, empty) refl, rw (not_closed, closing, here, empty) refl)

  -- After Close, in every later state, the table of calls is empty and no process runs.
  pub closed-stays : s.client.closed ≡ true → (s.client.pending ≡ []) × (s.client.running ≡ false)
  closed-stays e = safe.shut e

  -- A response whose identity is the text of a call's number reaches that call, when it waits
  -- without an answer: its channel holds the response's outcome, every other channel is as before,
  -- and the call's entry is gone from the table. It needs that different numbers have different
  -- texts.
  pub response-reaches :
      ((a b : ℕ) → format_uint a ≡ format_uint b → a ≡ b)
      → (n g : ℕ) (answer : Response) → answer.id ≡ format_uint n
      → s.phase n ≡ waiting g
      → s.channel n ≡ []
      → let t = delivering s (deliver format_uint answer s.client) in
        (t.channel n ≡ outcome answer ∷ [])
        × ((j : ℕ) → nat_eq n j ≡ false → t.channel j ≡ s.channel j)
        × (member n t.client.pending ≡ false)
  unfolding deliver
  response-reaches distinct n g answer named waits empty =
      let here = (waiting-runs n g waits empty).0 in
      let found : owner format_uint answer.id s.client.pending ≡ some n =
        rw named (owner-member format_uint distinct s.client.pending n here) in
      (
        rw (found, deliver, set_self n (s.channel n ++ outcome answer ∷ []) s.channel, empty) refl,
        λ j e. rw (found, deliver, e) refl,
        rw (found, deliver) (ground (arith, member-without n n s.client.pending)),
      )
