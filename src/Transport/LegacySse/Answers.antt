-- ===== src/Transport/LegacySse/Answers.antt =====
-- internal/transport/legacy_sse.go: a call's entry in the table is exchanged for one answer.
use lessen_mcp_gateway.Prelude.{
  ◌||◌, not, ℕ, ◌+◌, ◌≡◌, refl, sym, ap, ◌∙◌, Bytes, codes, Bool, true, false, not, ◌&&◌, Option,
  none, some, List, [], ◌∷◌, if◌then◌else◌, nat_eq, length, length-append, Bool-cases, Option-cases,
  inl, inr, arith,
}
use lessen_mcp_gateway.Errors.{Error, ok, err, message}
use lessen_mcp_gateway.Mcp.Protocol.{Response}
use lessen_mcp_gateway.Transport.Stdio.{CallResult, member, without, owner, outcome}
use lessen_mcp_gateway.Transport.Stdio.System.{send, send_all}
use lessen_mcp_gateway.Transport.Stdio.Invariant.{
  count, member-without, member-owner, length-send_all,
}
use lessen_mcp_gateway.Transport.LegacySse.{
  LegacySseClient, Signal, start_stream, put_back, register, remove_pending, deliver, announce,
  fail_stream, close, offer,
}
use lessen_mcp_gateway.Transport.LegacySse.System.{
  System, Action, starts, receives, puts_back, numbers, registers, removes, announcing, responds,
  fails, closes, act, run, starting,
}

-- What a call has, its entry and the answers in its channel.
abbrev holds : ℕ → System → ℕ
holds n s = length (s.channel n) + count (member n s.client.pending)

-- Neither the start nor the end of the call.
abbrev pub leaves : ℕ → Action → Bool
leaves n (registers m) = not (nat_eq m n)
leaves n (removes m) = not (nat_eq m n)
leaves n a = true

abbrev pub all_leave : ℕ → List Action → Bool
all_leave n [] = true
all_leave n (a ∷ actions) = leaves n a && all_leave n actions

abbrev pub Shut : LegacySseClient → Type 0
Shut c = c.closed ≡ true → c.pending ≡ []

-- A change that leaves the table and `closed` alone.
abbrev Same : LegacySseClient → LegacySseClient → Type 0
Same c c' = (c'.pending ≡ c.pending) × (c'.closed ≡ c.closed)

offer-Same : (r : Option ℕ) (v : Signal) (c : LegacySseClient) → Same c (offer r v c)
unfolding offer
offer-Same none v c = (refl, refl)
offer-Same (some g) v c = elim (Option-cases (c.signals g)) [
  | inl e ↦ rw (e, offer) (refl, refl)
  | inr (held, e) ↦ rw (e, offer) (refl, refl)
]

start-Same : (c : LegacySseClient) → Same c (starting c (start_stream c))
unfolding start_stream
start-Same c = (ground arith, ground arith)

put_back-Same : (g : ℕ) (v : Signal) (c : LegacySseClient) → Same c (put_back g v c)
unfolding put_back
put_back-Same g (err e) c = (refl, refl)
put_back-Same g (ok _) c =
    let same = offer-Same (some g) (ok tt) (record c { ready = some g }) in
    (ground (arith, same), ground (arith, same))

announce-Same :
    (g : ℕ) (endpoint : Bytes) (signaled : Bool) (c : LegacySseClient)
    → Same c (announce g endpoint signaled c)
unfolding announce
announce-Same g endpoint signaled c =
    let here = offer-Same c.ready (ok tt) (record c { endpoint = endpoint }) in
    let there = offer-Same c.ready (ok tt) c in
    (ground (arith, here, there), ground (arith, here, there))

-- What an action keeps of a call that it neither starts nor ends, and of the client.
abbrev Kept : ℕ → System → System → Type 0
Kept n s s' = (holds n s' ≡ holds n s) × (Shut s.client → Shut s'.client)

Same-Kept :
    (n : ℕ) (s : System) (c : LegacySseClient)
    → Same s.client c
    → Kept n s (record s { client = c })
Same-Kept n s c same = (rw same.0 refl, λ shut closed. same.0 ∙ shut (sym same.1 ∙ closed))

-- Everything in the table is sent something.
emptied-Kept :
    (n : ℕ) (s : System) (r : CallResult) (c : LegacySseClient)
    → c.pending ≡ []
    → Kept n s (record s { client = c; channel = send_all s.client.pending r s.channel })
emptied-Kept n s r c empty =
    let sent = length-send_all s.client.pending r s.channel n in
    (rw empty (omega arith), λ shut closed. empty)

fails-Kept : (f : ℕ → Bytes) (n g : ℕ) (e : Error) (s : System) → Kept n s (act f (fails g e) s)
unfolding act fail_stream
fails-Kept f n g e s =
    let c = s.client in
    let failed : LegacySseClient = record c {
      running = false;
      endpoint = [];
      pending = [];
      cancel = false;
    } in
    let same = offer-Same c.ready (err e) failed in
    elim (Bool-cases (nat_eq g c.generation)) [
      | inl x ↦ rw x (emptied-Kept n s (err e) (offer c.ready (err e) failed) same.0)
      | inr x ↦ rw x (refl, λ shut. shut)
    ]

closes-Kept : (f : ℕ → Bytes) (n : ℕ) (s : System) → Kept n s (act f closes s)
unfolding act close
closes-Kept f n s =
    let said = err (message (codes "legacy SSE client closed")) in
    let emptied = emptied-Kept n s said (record s.client { closed = true; pending = [] }) refl in
    elim (Bool-cases s.client.closed) [
      | inl x ↦ rw x (refl, λ shut. shut)
      | inr x ↦ rw x (emptied.0, λ shut closed. refl)
    ]

registers-Kept :
    (f : ℕ → Bytes) (n m : ℕ) (s : System) → nat_eq m n ≡ false → Kept n s (act f (registers m) s)
unfolding act register
registers-Kept f n m s other =
    let gone = member-without m n s.client.pending in
    elim (Bool-cases s.client.closed) [
      | inl x ↦ rw x (refl, λ shut. shut)
      | inr x ↦ rw x (rw (other, gone, other) refl, λ shut closed. ground arith)
    ]

removes-Kept :
    (f : ℕ → Bytes) (n m : ℕ) (s : System) → nat_eq m n ≡ false → Kept n s (act f (removes m) s)
unfolding act remove_pending
removes-Kept f n m s other =
    let gone = member-without m n s.client.pending in
    (rw (gone, other) refl, λ shut closed. rw (shut closed) refl)

-- An entry that leaves the table for an answer.
send-without :
    (n m : ℕ) (r : CallResult) (channel : ℕ → List CallResult) (pending : List ℕ)
    → member m pending ≡ true
    → length (send m r channel n) + count (member n (without m pending))
      ≡ length (channel n) + count (member n pending)
send-without n m r channel pending listed =
    let gone = member-without m n pending in
    let longer = length-append (channel m) (r ∷ []) in
    elim (Bool-cases (nat_eq m n)) [
      | inl x ↦
          let same : m ≡ n = ground arith in
          let here : member n pending ≡ true = rw⁻¹ same listed in
          let length_same : length (channel m) ≡ length (channel n) =
            ap (λ k. length (channel k)) same in
          rw (gone, x, here) (omega (arith, longer, length_same))
      | inr x ↦ rw (x, gone, x) refl
    ]

responds-Kept :
    (f : ℕ → Bytes) (n : ℕ) (r : Response) (s : System) → Kept n s (act f (responds r) s)
unfolding act deliver
responds-Kept f n r s = elim (Option-cases (owner f r.id s.client.pending)) [
  | inl x ↦ rw (x, deliver) (refl, λ shut. shut)
  | inr (m, x) ↦
      let listed = member-owner f r.id s.client.pending m x in
      rw (x, deliver)
        (
          send-without n m (outcome r) s.channel s.client.pending listed,
          λ shut closed. rw (shut closed) refl,
        )
]

act-Kept :
    (f : ℕ → Bytes) (n : ℕ) (a : Action) (s : System) → leaves n a ≡ true → Kept n s (act f a s)
unfolding act
act-Kept f n starts s h =
    Same-Kept n s (starting s.client (start_stream s.client)) (start-Same s.client)
act-Kept f n (receives g) s h = (refl, λ shut. shut)
act-Kept f n (puts_back g v) s h =
    Same-Kept n s (put_back g v s.client) (put_back-Same g v s.client)
act-Kept f n numbers s h = (refl, λ shut. shut)
act-Kept f n (registers m) s h = registers-Kept f n m s (ground arith)
act-Kept f n (removes m) s h = removes-Kept f n m s (ground arith)
act-Kept f n (announcing g endpoint signaled) s h =
    Same-Kept n s (announce g endpoint signaled s.client)
      (announce-Same g endpoint signaled s.client)
act-Kept f n (responds r) s h = responds-Kept f n r s
act-Kept f n (fails g e) s h = fails-Kept f n g e s
act-Kept f n closes s h = closes-Kept f n s

run-Kept :
    (f : ℕ → Bytes) (n : ℕ) (actions : List Action) (s : System)
    → all_leave n actions ≡ true
    → Kept n s (run f actions s)
unfolding run
run-Kept f n [] s h = (refl, λ shut. shut)
run-Kept f n (a ∷ actions) s h =
    let first = act-Kept f n a s (ground arith) in
    let rest = run-Kept f n actions (act f a s) (ground arith) in
    (rest.0 ∙ first.0, λ shut. rest.1 (first.1 shut))

-- Take a client that, if it is closed, has no call in its table, and a call that has its entry and
-- no answer. Whatever goroutines then do, in any order, streams that start, fail and announce
-- endpoints, answers that arrive, other calls and `Close`, as long as the call itself does not
-- start again or give up: once its entry is gone, or the client is closed, its channel holds
-- exactly one answer, and until then none.
pub pending-answered :
    (f : ℕ → Bytes) (n : ℕ) (actions : List Action) (s : System)
    → Shut s.client
    → member n s.client.pending ≡ true
    → s.channel n ≡ []
    → all_leave n actions ≡ true
    → length ((run f actions s).channel n) ≡ (
        if (run f actions s).client.closed || not (member n (run f actions s).client.pending)
        then 1
        else 0)
pending-answered f n actions s shut listed empty alone =
    let kept = run-Kept f n actions s alone in
    let before : length (s.channel n) + count (member n s.client.pending) ≡ 1 =
      rw (listed, empty) refl in
    let total = kept.0 ∙ before in
    elim (Bool-cases (run f actions s).client.closed) [
      | inl closed ↦
          let gone = kept.1 shut closed in
          let none_left : member n (run f actions s).client.pending ≡ false = rw gone refl in
          ground (arith, total, none_left)
      | inr opened ↦ ground (arith, total)
    ]
