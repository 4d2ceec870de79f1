-- ===== src/Transport/Stdio/Invariant/Steps.antt =====
-- Each step of System keeps the invariant.
use lessen_mcp_gateway.Prelude.{
  ℕ, ◌+◌, ◌<◌, ◌^◌, ◌≡◌, ◌≢◌, refl, ap, sym, ◌∙◌, Bytes, codes, true, false, none, List, [], ◌∷◌,
  ◌++◌, nat_eq, length, length-append, Bool-cases, Option-cases, inl, inr, arith,
}
use lessen_mcp_gateway.Errors.{Error, ok, err, Result-cases, message}
use lessen_mcp_gateway.Mcp.Protocol.{Response}
use lessen_mcp_gateway.Transport.Stdio.{
  outcome, CallResult, member, without, add_id, register, writable, remove_pending, owner, deliver,
  close, handle_exit,
}
use lessen_mcp_gateway.Transport.Stdio.System.{
  unused, numbered, registered, writing, waiting, failing, returned, System, set, send, registering,
  writing_to, delivering, closing, exiting,
}
use lessen_mcp_gateway.Transport.Stdio.Invariant.{
  count, Runs, Inv, member-without, member-owner, CallInv-answer, failing_all-Inv,
}
use lessen_mcp_gateway.Transport.Stdio.Invariant.Own.{
  Own-Inv, set_self, set-Inv, is_used, in_phase, same_client, phase-Inv, remove_pending-Own,
}

module _ (format_uint : ℕ → Bytes) (s : System) (i : Inv s) where
  pub numbers-Inv :
      (n : ℕ)
      → n ≡ s.client.next_id + 1
      → n < 2 ^ 64
      → Inv (record s { client = add_id s.client; phase = set n numbered s.phase })
  unfolding add_id
  numbers-Inv n e fits =
      set-Inv s n numbered (add_id s.client) s.channel
        (record {
          running = refl;
          generation = refl;
          stdin = refl;
          closed = refl;
          grows = omega arith;
          others = λ j h. refl;
          shut = λ h k. k;
        })
        (λ j h. refl) (omega arith) (in_phase s n unused i (i.above n (omega arith))) i

  pub registers-Inv : (n : ℕ) → s.phase n ≡ numbered → Inv (registering n s (register n s.client))
  unfolding register
  registers-Inv n e =
      let now = in_phase s n numbered i e in
      elim (Bool-cases s.client.closed) [
        | inl h ↦
            let refused : register n s.client ≡ err (message (codes "stdio client is closed")) =
              ground arith in
            rw refused (
              phase-Inv s n numbered (returned (err (message (codes "stdio client is closed")))) e
                (λ q. cc) (ground arith, omega arith) i)
        | inr h ↦
            let c' = record s.client { pending = n ∷ without n s.client.pending } in
            let done : register n s.client ≡ ok c' = ground arith in
            rw done (
              set-Inv s n registered c' s.channel
                (record {
                  running = refl;
                  generation = refl;
                  stdin = refl;
                  closed = refl;
                  grows = omega arith;
                  others = λ j q. ground (arith, member-without n j s.client.pending);
                  shut = λ q k. cc;
                })
                (λ j q. refl) (is_used s n i (λ q. cc)) (ground arith) i)
      ]

  pub begins-Inv : (n : ℕ) → s.phase n ≡ registered → Inv (writing_to n s (writable s.client))
  unfolding writable
  begins-Inv n e =
      let now = in_phase s n registered i e in
      elim (Result-cases (writable s.client)) [
        | inr (x, h) ↦ rw h (phase-Inv s n registered (failing x) e (λ q. cc) now i)
        | inl (g, h) ↦
            let runs : Runs s.client g (member n s.client.pending) =
              λ q. (sym i.stdin ∙ ground arith, ground arith) in
            rw h (phase-Inv s n registered (writing g) e (λ q. cc) (now, runs) i)
      ]

  pub responds-Inv : (r : Response) → Inv (delivering s (deliver format_uint r s.client))
  unfolding deliver remove_pending
  responds-Inv r = elim (Option-cases (owner format_uint r.id s.client.pending)) [
    | inl h ↦ rw (h, deliver) i
    | inr (n, h) ↦
        let here = member-owner format_uint r.id s.client.pending n h in
        let gone : member n (without n s.client.pending) ≡ false =
          ground (arith, member-without n n s.client.pending) in
        let grown : length (send n (outcome r) s.channel n)
            ≡ length (s.channel n) + count (member n s.client.pending) =
          rw (set_self n (s.channel n ++ outcome r ∷ []) s.channel, here)
            (length-append (s.channel n) (outcome r ∷ [])) in
        let answered =
          CallInv-answer s.client (remove_pending n s.client) (s.phase n)
            (member n s.client.pending) (length (s.channel n))
            (length (send n (outcome r) s.channel n)) grown (i.calls n) in
        let used : s.phase n ≢ unused =
          λ e. absurd (omega (arith, in_phase s n unused i e, ap count here)) in
        rw (h, deliver)
          (Own-Inv s n s.phase (remove_pending n s.client) (send n (outcome r) s.channel)
            (remove_pending-Own n s.client) (λ j q. refl) (λ j q. rw q refl) (is_used s n i used)
            (rw gone answered) i)
  ]

  pub exits-Inv : (g : ℕ) (e : Error) → Inv (exiting g e s)
  unfolding handle_exit
  exits-Inv g e = elim (Bool-cases (nat_eq g s.client.generation)) [
    | inl h ↦
        rw (h, exiting)
          (failing_all-Inv s
            (record s.client { running = false; stdin = false; pending = []; idle_timer = none })
            (err e) (refl, refl, refl, refl) i)
    | inr h ↦ rw (h, exiting) i
  ]

  pub closes-Inv : Inv (closing s)
  unfolding close
  closes-Inv = elim (Bool-cases s.client.closed) [
    | inl h ↦ let done : close s.client ≡ (s.client, []) = ground arith in rw (done, closing) i
    | inr h ↦
        let c' = record s.client {
          closed = true;
          idle_timer = none;
          running = false;
          stdin = false;
          pending = [];
        } in
        let done : close s.client ≡ (c', s.client.pending) = ground arith in
        rw (done, closing)
          (failing_all-Inv s c' (err (message (codes "stdio client closed")))
            (refl, refl, refl, refl) i)
  ]

  pub receives-Inv :
      (n g : ℕ) (r : CallResult) (rest : List CallResult)
      → s.phase n ≡ waiting g
      → s.channel n ≡ r ∷ rest
      → Inv (record s { phase = set n (returned r) s.phase; channel = set n rest s.channel })
  receives-Inv n g r rest e full =
      let now = in_phase s n (waiting g) i e in
      let one = ap length full in
      let quiet : member n s.client.pending ≡ false =
        elim (Bool-cases (member n s.client.pending)) [
          | inl h ↦ absurd (omega (arith, now.0, one, ap count h))
          | inr h ↦ h
        ] in
      set-Inv s n (returned r) s.client (set n rest s.channel) (same_client n s.client)
        (λ j q. rw q refl) (is_used s n i (λ q. cc))
        (quiet, rw (set_self n rest s.channel) (omega (arith, now.0, one))) i
