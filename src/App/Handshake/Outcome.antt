-- ===== src/App/Handshake/Outcome.antt =====
-- What an initialisation leaves behind, whatever the server does.
use lessen_mcp_gateway.Prelude.{
  codes, Bytes, ◌≡◌, refl, Bool, true, false, ◌&&◌, ◌||◌, Option, some, List, [], ◌∷◌, ◌⊎◌, inl,
  inr, nat_eq, Bool-cases, Option-cases, arith,
}
use lessen_mcp_gateway.Errors.{Error, Context, Result, ok, err, message, Result-cases}
use lessen_mcp_gateway.Model.{Time}
use lessen_mcp_gateway.Mcp.Protocol.{
  InitializeResult, contains_string, supports_legacy_protocol, legacy_protocols, protocol_latest,
}
use lessen_mcp_gateway.App.Client.{Client, Backend, close}
use lessen_mcp_gateway.App.Handshake.{
  or_id, remembered, finish_legacy, try_legacy, fall_back, probe, with_client, ensure_initialized,
}

-- The stateless revision is the latest; a stateful session is of a revision that is supported.
abbrev pub Revision : Bool → Bytes → Type 0
Revision modern version =
    ((modern ≡ true) × (version ≡ protocol_latest))
    ⊎ ((modern ≡ false) × (supports_legacy_protocol version ≡ true))

pub record IsSound {C : Type 0} (b : Backend C) : Type 0 where
  pub revision : b.initialized ≡ true → Revision b.modern b.protocol_version

-- On success the backend is initialised, with a client, over a revision that fits its mode, and the
-- result names the revision and the capabilities that the backend remembers. On failure nothing but
-- the client has changed.
abbrev pub Outcome : {C : Type 0} → Backend C → Backend C × Result InitializeResult → Type 0
Outcome {C} b (b', ok r) =
    (b'.initialized ≡ true)
    × Revision b'.modern b'.protocol_version
    × (r.protocol_version ≡ b'.protocol_version)
    × (r.capabilities ≡ b'.capabilities)
    × ((c : C) × (b'.client ≡ some c))
Outcome {C} b (b', err e) = (c : Option C) × (b' ≡ record b { client = c })

module _ {C : Type 0} (client : Client C) (ctx after_probe : Context) (now : Time) where
  finish_legacy-Outcome :
      (b : Backend C) (c : C) (r : InitializeResult)
      → supports_legacy_protocol r.protocol_version ≡ true
      → Outcome b (finish_legacy client ctx after_probe now b c r)
  unfolding finish_legacy
  finish_legacy-Outcome b c r h = elim (Result-cases (client.notify_initialized ctx c).1) [
    | inr (e, fails) ↦ rw (finish_legacy, fails) (some (client.notify_initialized ctx c).0, refl)
    | inl (_, sent) ↦
        rw (finish_legacy, sent)
          (refl, inr (refl, h), refl, refl, ((client.notify_initialized ctx c).0, refl))
  ]

  try_legacy-Outcome :
      (protocols : List Bytes) (e : Error) (b : Backend C) (c : C)
      → Outcome b (try_legacy client ctx after_probe now protocols e b c)
  unfolding try_legacy
  try_legacy-Outcome [] e b c = (some c, refl)
  try_legacy-Outcome (p ∷ rest) e b c =
      let told = client.set_protocol_version p c in
      let c' = (client.initialize ctx p told).0 in
      elim (Result-cases (client.initialize ctx p told).1) [
        | inr (fault, fails) ↦ rw (try_legacy, fails) (try_legacy-Outcome rest fault b c')
        | inl (raw, replied) ↦ elim (Result-cases (client.decode_initialize raw)) [
          | inr (fault, bad) ↦ rw (try_legacy, replied, bad) (some c', refl)
          | inl (r, decoded) ↦
              let selected = or_id p r.protocol_version in
              elim (Bool-cases (supports_legacy_protocol selected)) [
                | inl good ↦
                    rw (try_legacy, replied, decoded, good)
                      (finish_legacy-Outcome b c' (record r { protocol_version = selected }) good)
                | inr bad ↦
                    rw (try_legacy, replied, decoded, bad)
                      (try_legacy-Outcome rest
                        (message (codes "server selected unsupported legacy protocol")) b c')
              ]
        ]
      ]

  fall_back-Outcome :
      (e : Error) (b : Backend C) (c : C) → Outcome b (fall_back client ctx after_probe now e b c)
  unfolding fall_back
  fall_back-Outcome e b c = elim (Option-cases after_probe) [
    | inl live ↦ rw (fall_back, live) (try_legacy-Outcome legacy_protocols e b c)
    | inr (dead, gone) ↦ rw (fall_back, gone) (some c, refl)
  ]

  probe-Outcome : (b : Backend C) (c : C) → Outcome b (probe client ctx after_probe now b c)
  unfolding probe
  probe-Outcome b c =
      let told = client.set_protocol_version protocol_latest c in
      let c' = (client.discover ctx told).0 in
      elim (Result-cases (client.discover ctx told).1) [
        | inr (fault, fails) ↦ rw (probe, fails) (fall_back-Outcome fault b c')
        | inl (raw, replied) ↦ elim (Result-cases (client.decode_discover raw)) [
          | inr (fault, bad) ↦ rw (probe, replied, bad) (fall_back-Outcome fault b c')
          | inl (d, decoded) ↦
              elim (Bool-cases (contains_string d.supported_versions protocol_latest)) [
                | inl good ↦
                    rw (probe, replied, decoded, good)
                      (refl, inl (refl, refl), refl, refl, (c', refl))
                | inr other ↦
                    rw (probe, replied, decoded, other)
                      (fall_back-Outcome
                        (message (codes "server/discover did not advertise 2026-07-28")) b c')
              ]
        ]
      ]

  with_client-Outcome :
      (b : Backend C) (c : C) → IsSound b → Outcome b (with_client client ctx after_probe now b c)
  unfolding with_client
  with_client-Outcome b c sound =
      let generation = client.session_generation c in
      elim (Bool-cases
        (b.initialized && (nat_eq generation 0 || nat_eq generation b.initialized_generation))) [
          | inl fresh ↦
              let there : b.initialized ≡ true = ground (arith, fresh) in
              rw (with_client, fresh) (there, sound.revision there, refl, refl, (c, refl))
          | inr stale ↦ rw (with_client, stale) (probe-Outcome b c)
        ]

  -- Whatever the server does, an initialisation of a backend whose session, if any, is of a
  -- supported revision either succeeds, and then the backend is initialised over a supported
  -- revision that fits its mode, with a client, and the result has the revision and the
  -- capabilities that the backend remembers; or it fails, and then nothing but the client has
  -- changed.
  pub ensure_initialized-Outcome :
      (b : Backend C) → IsSound b → Outcome b (ensure_initialized client ctx after_probe now b)
  unfolding ensure_initialized
  ensure_initialized-Outcome b sound = elim (Option-cases b.client) [
    | inr (c, there) ↦ rw (ensure_initialized, there) (with_client-Outcome b c sound)
    | inl missing ↦ elim (Result-cases (client.make b.id b.cfg)) [
      | inr (e, fails) ↦ rw (ensure_initialized, missing, fails) (b.client, refl)
      | inl (c, made) ↦ rw (ensure_initialized, missing, made) (with_client-Outcome b c sound)
    ]
  ]

  -- A session that is initialised, and that its client has not replaced, is used as it is: nothing
  -- is sent, and neither the backend nor its client changes.
  pub ensure_initialized_again :
      (b : Backend C) (c : C)
      → b.client ≡ some c
      → b.initialized ≡ true
      → ((client.session_generation c ≡ 0)
          ⊎ (client.session_generation c ≡ b.initialized_generation))
      → ensure_initialized client ctx after_probe now b
        ≡ (b, ok (remembered client ctx after_probe now b))
  unfolding ensure_initialized
  ensure_initialized_again b c there initialized same = ground arith

-- A closed backend is sound: it has no session.
pub close-IsSound : {C : Type 0} (b : Backend C) → IsSound (close b)
unfolding close
close-IsSound b = record { revision = λ h. cc }
