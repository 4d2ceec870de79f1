-- ===== src/Transport/LegacySse/Ends.antt =====
-- internal/transport/legacy_sse.go: the end of `streamLoop`, by an error of its stream.
use lessen_mcp_gateway.Prelude.{
  ℕ, ◌≡◌, refl, ◌∙◌, Bytes, Bool, true, false, Option, none, some, List, [], ◌∷◌, nat_eq, length,
  Option-cases, inl, inr, arith,
}
use lessen_mcp_gateway.Errors.{Error, ok, err}
use lessen_mcp_gateway.Mcp.Protocol.{Response}
use lessen_mcp_gateway.Transport.Sse.{SseEvent}
use lessen_mcp_gateway.Transport.Stdio.{discards, refuses, delivers, member, owner}
use lessen_mcp_gateway.Transport.LegacySse.{
  LegacySseClient, Signal, deliver, announce, fail_stream, offer,
}
use lessen_mcp_gateway.Transport.LegacySse.Loop.{Reaction, announces, breaks, handles}
use lessen_mcp_gateway.Transport.LegacySse.System.{
  System, Action, announcing, responds, fails, act, run, stream_actions,
}
use lessen_mcp_gateway.Transport.LegacySse.Answers.{all_leave, pending-answered, Shut}

-- A client whose stream is gone.
abbrev Down : LegacySseClient → Type 0
Down c = (c.running ≡ false) × (c.endpoint ≡ []) × (c.pending ≡ [])

offer-generation :
    (r : Option ℕ) (v : Signal) (c : LegacySseClient) → (offer r v c).generation ≡ c.generation
unfolding offer
offer-generation none v c = refl
offer-generation (some g) v c = elim (Option-cases (c.signals g)) [
  | inl e ↦ rw (e, offer) refl
  | inr (held, e) ↦ rw (e, offer) refl
]

offer-Down : (r : Option ℕ) (v : Signal) (c : LegacySseClient) → Down c → Down (offer r v c)
unfolding offer
offer-Down none v c d = d
offer-Down (some g) v c d = elim (Option-cases (c.signals g)) [
  | inl e ↦ rw (e, offer) d
  | inr (held, e) ↦ rw (e, offer) d
]

announce-generation :
    (g : ℕ) (endpoint : Bytes) (signaled : Bool) (c : LegacySseClient)
    → (announce g endpoint signaled c).generation ≡ c.generation
unfolding announce
announce-generation g endpoint signaled c =
    let here = offer-generation c.ready (ok tt) (record c { endpoint = endpoint }) in
    let there = offer-generation c.ready (ok tt) c in ground (arith, here, there)

responds-generation :
    (f : ℕ → Bytes) (r : Response) (s : System)
    → (act f (responds r) s).client.generation ≡ s.client.generation
unfolding act deliver
responds-generation f r s = elim (Option-cases (owner f r.id s.client.pending)) [
  | inl x ↦ rw (x, deliver) refl
  | inr (m, x) ↦ rw (x, deliver) refl
]

fails-Down :
    (f : ℕ → Bytes) (g : ℕ) (e : Error) (s : System)
    → s.client.generation ≡ g
    → Down (act f (fails g e) s).client
unfolding act fail_stream
fails-Down f g e s same =
    let c = s.client in
    let failed : LegacySseClient = record c {
      running = false;
      endpoint = [];
      pending = [];
      cancel = false;
    } in
    let current : nat_eq g c.generation ≡ true = ground arith in
    rw current (offer-Down c.ready (err e) failed (refl, refl, refl))

module _ (f : ℕ → Bytes) (react : Bool → SseEvent → Reaction) (wrap : Error → Error) (g : ℕ)
    (ends_with : Error) where
  abbrev actions : Bool → List SseEvent → List Action
  actions signaled events = stream_actions react wrap g false signaled ends_with events

  actions-leave :
      (n : ℕ) (signaled : Bool) (events : List SseEvent)
      → all_leave n (actions signaled events) ≡ true
  unfolding stream_actions
  actions-leave n signaled [] = refl
  actions-leave n signaled (event ∷ events) =
      let rest = actions-leave n signaled events in
      let signaled_rest = actions-leave n true events in
      elim (react signaled event)
        as (λ reaction.
          all_leave n (elim reaction [
            | breaks e ↦ fails g e ∷ []
            | announces endpoint ↦ announcing g endpoint signaled ∷ actions true events
            | handles (delivers r) ↦ responds r ∷ actions signaled events
            | handles (refuses id) ↦ actions signaled events
            | handles discards ↦ actions signaled events
          ])
          ≡ true) [
            | breaks e ↦ refl
            | announces endpoint ↦ signaled_rest
            | handles (delivers r) ↦ rest
            | handles (refuses id) ↦ rest
            | handles discards ↦ rest
          ]

  actions-Down :
      (signaled : Bool) (events : List SseEvent) (s : System)
      → s.client.generation ≡ g
      → Down (run f (actions signaled events) s).client
  unfolding stream_actions run
  actions-Down signaled [] s same = fails-Down f g (wrap ends_with) s same
  actions-Down signaled (event ∷ events) s same =
      let rest = actions-Down signaled events in
      let signaled_rest = actions-Down true events in
      elim (react signaled event)
        as (λ reaction.
          Down
            (run f
              (elim reaction [
                | breaks e ↦ fails g e ∷ []
                | announces endpoint ↦ announcing g endpoint signaled ∷ actions true events
                | handles (delivers r) ↦ responds r ∷ actions signaled events
                | handles (refuses id) ↦ actions signaled events
                | handles discards ↦ actions signaled events
              ])
              s).client) [
                | breaks e ↦ fails-Down f g e s same
                | announces endpoint ↦
                    signaled_rest (act f (announcing g endpoint signaled) s)
                      (announce-generation g endpoint signaled s.client ∙ same)
                | handles (delivers r) ↦
                    rest (act f (responds r) s) (responds-generation f r s ∙ same)
                | handles (refuses id) ↦ rest s same
                | handles discards ↦ rest s same
              ]

  -- The loop of the current stream, on any events until reading ends with an error, while no
  -- `Close` cancels it: when it has returned, no stream runs, there is no endpoint to post to, the
  -- table is empty, and a call that was in it with no answer yet has exactly one. (A closed client
  -- must have an empty table before.)
  pub stream-answers :
      (signaled : Bool) (events : List SseEvent) (s : System) (n : ℕ)
      → s.client.generation ≡ g
      → Shut s.client
      → member n s.client.pending ≡ true
      → s.channel n ≡ []
      → Down (run f (actions signaled events) s).client
        × (length ((run f (actions signaled events) s).channel n) ≡ 1)
  stream-answers signaled events s n same shut listed empty =
      let down = actions-Down signaled events s same in
      let answered =
        pending-answered f n (actions signaled events) s shut listed empty
          (actions-leave n signaled events) in
      let gone : member n (run f (actions signaled events) s).client.pending ≡ false =
        rw down.2 refl in
      (down, ground (arith, answered, gone))
