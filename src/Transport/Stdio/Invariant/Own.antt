-- ===== src/Transport/Stdio/Invariant/Own.antt =====
-- A step of the call of one number leaves the other calls alone.
use lessen_mcp_gateway.Prelude.{
  ℕ, ◌≤◌, ◌≡◌, ◌≢◌, refl, sym, ◌∙◌, subst, true, false, List, [], nat_eq, length, ltb, ltb→lt,
  ltb→le, Bool-cases, inl, inr, arith,
}
use lessen_mcp_gateway.Transport.Stdio.{StdioClient, CallResult, member, remove_pending}
use lessen_mcp_gateway.Transport.Stdio.System.{Phase, unused, returned, System, set}
use lessen_mcp_gateway.Transport.Stdio.Invariant.{CallInv, Inv, member-without, CallInv-frame}

-- What a step of the call of one number leaves alone.
pub record Own (n : ℕ) (c c' : StdioClient) : Type 0 where
  pub running : c'.running ≡ c.running
  pub generation : c'.generation ≡ c.generation
  pub stdin : c'.stdin ≡ c.stdin
  pub closed : c'.closed ≡ c.closed
  pub grows : c.next_id ≤ c'.next_id
  pub others : (j : ℕ) → nat_eq n j ≡ false → member j c'.pending ≡ member j c.pending
  pub shut : c.closed ≡ true → c.pending ≡ [] → c'.pending ≡ []

pub Own-Inv :
    (s : System) (n : ℕ) (phase : ℕ → Phase) (c' : StdioClient) (channel : ℕ → List CallResult)
    → Own n s.client c'
    → ((j : ℕ) → nat_eq n j ≡ false → phase j ≡ s.phase j)
    → ((j : ℕ) → nat_eq n j ≡ false → channel j ≡ s.channel j)
    → n ≤ c'.next_id
    → CallInv c' (phase n) (member n c'.pending) (length (channel n))
    → Inv s
    → Inv (record { client = c'; phase = phase; channel = channel })
Own-Inv s n phase c' channel o kept_phase kept used now i = record {
  stdin = o.stdin ∙ i.stdin ∙ sym o.running;
  shut = λ e.
      let was = i.shut (sym o.closed ∙ e) in (o.shut (sym o.closed ∙ e) was.0, o.running ∙ was.1);
  above = λ j h. elim (Bool-cases (nat_eq n j)) [
    | inl e ↦ absurd (ground arith)
    | inr e ↦ kept_phase j e ∙ i.above j (omega (arith, o.grows))
  ];
  calls = λ j. elim (Bool-cases (nat_eq n j)) [
    | inl e ↦
        let same : n ≡ j = ground arith in
        subst (λ (k : ℕ). CallInv c' (phase k) (member k c'.pending) (length (channel k))) same now
    | inr e ↦
        rw (kept_phase j e, o.others j e, kept j e)
          (CallInv-frame s.client c' (s.phase j) (member j s.client.pending) (length (s.channel j))
            (λ h r. (o.running ∙ r, o.generation)) (i.calls j))
  ];
}

pub set_self {ℓ} : {A : Type ℓ} (n : ℕ) (a : A) (f : ℕ → A) → set n a f n ≡ a
set_self n a f = elim (Bool-cases (nat_eq n n)) [
  | inl e ↦ rw e refl
  | inr e ↦ absurd (ground arith)
]

pub set-Inv :
    (s : System) (n : ℕ) (p : Phase) (c' : StdioClient) (channel : ℕ → List CallResult)
    → Own n s.client c'
    → ((j : ℕ) → nat_eq n j ≡ false → channel j ≡ s.channel j)
    → n ≤ c'.next_id
    → CallInv c' p (member n c'.pending) (length (channel n))
    → Inv s
    → Inv (record { client = c'; phase = set n p s.phase; channel = channel })
set-Inv s n p c' channel o kept used now i =
    Own-Inv s n (set n p s.phase) c' channel o (λ j e. rw e refl) kept used
      (subst (λ (q : Phase). CallInv c' q (member n c'.pending) (length (channel n)))
        (sym (set_self n p s.phase)) now)
      i

pub is_used : (s : System) (n : ℕ) → Inv s → s.phase n ≢ unused → n ≤ s.client.next_id
is_used s n i h = elim (Bool-cases (ltb s.client.next_id n)) [
  | inl e ↦ absurd (h (i.above n (ltb→lt s.client.next_id n e)))
  | inr e ↦ ltb→le s.client.next_id n e
]

pub in_phase :
    (s : System) (n : ℕ) (p : Phase)
    → Inv s
    → s.phase n ≡ p
    → CallInv s.client p (member n s.client.pending) (length (s.channel n))
in_phase s n p i e =
    subst (λ (q : Phase). CallInv s.client q (member n s.client.pending) (length (s.channel n))) e
      (i.calls n)

pub same_client : (n : ℕ) (c : StdioClient) → Own n c c
same_client n c = record {
  running = refl;
  generation = refl;
  stdin = refl;
  closed = refl;
  grows = omega arith;
  others = λ j e. refl;
  shut = λ e h. h;
}

-- A phase that changes nothing but itself.
pub phase-Inv :
    (s : System) (n : ℕ) (p q : Phase)
    → s.phase n ≡ p
    → p ≢ unused
    → CallInv s.client q (member n s.client.pending) (length (s.channel n))
    → Inv s
    → Inv (record s { phase = set n q s.phase })
phase-Inv s n p q e used now i =
    set-Inv s n q s.client s.channel (same_client n s.client) (λ j h. refl)
      (is_used s n i (λ h. used (sym e ∙ h))) now i

pub remove_pending-Own : (n : ℕ) (c : StdioClient) → Own n c (remove_pending n c)
unfolding remove_pending
remove_pending-Own n c = record {
  running = refl;
  generation = refl;
  stdin = refl;
  closed = refl;
  grows = omega arith;
  others = λ j e. member-without n j c.pending ∙ rw e refl;
  shut = λ e h. rw h refl;
}

-- The entry of a call goes, and the call returns.
pub removing-Inv :
    (s : System) (n : ℕ) (p : Phase) (r : CallResult)
    → s.phase n ≡ p
    → p ≢ unused
    → length (s.channel n) ≤ 1
    → Inv s
    → Inv (record s { client = remove_pending n s.client; phase = set n (returned r) s.phase })
unfolding remove_pending
removing-Inv s n p r e used few i =
    set-Inv s n (returned r) (remove_pending n s.client) s.channel (remove_pending-Own n s.client)
      (λ j h. refl) (is_used s n i (λ h. used (sym e ∙ h)))
      (ground (arith, member-without n n s.client.pending), few) i
