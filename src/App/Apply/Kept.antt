-- ===== src/App/Apply/Kept.antt =====
-- What becomes of the backends when a configuration is applied.
use lessen_mcp_gateway.Prelude.{
  sym, not, ◌&&◌, Option, if◌then◌else◌, ◌≡◌, refl, ap, ◌∙◌, inl, inr, Bytes, ◌==◌, eq_iff, Bool,
  true, false, none, some, [], ◌∷◌, ◌++◌, Map, lookup, lookup-insert, Option-cases, Bool-cases,
}
use lessen_mcp_gateway.Config.{ServerConfig}
use lessen_mcp_gateway.App.Client.{Backend, new_backend}
use lessen_mcp_gateway.App.Apply.{hash, keeps, next_backend, next_backends, replaced, dropped}

lookup-append :
    {V : Type 0} (k : Bytes) (xs ys : Map V)
    → lookup k (xs ++ ys) ≡ elim (lookup k xs) [ some v ↦ some v | none ↦ lookup k ys ]
unfolding lookup
lookup-append k [] ys = refl
lookup-append k ((j, v) ∷ xs) ys = elim (Bool-cases (j == k)) [
  | inl e ↦ rw e refl
  | inr e ↦ rw e (lookup-append k xs ys)
]

-- A Go map, which has each key once.
abbrev pub IsMap : {V : Type 0} → Map V → Type 0
IsMap [] = Unit
IsMap ((key, v) ∷ more) = (lookup key more ≡ none) × IsMap more

module _ (sha256 : Bytes → Bytes) (marshal : ServerConfig → Bytes) {C : Type 0} where
  lookup-next_backends :
      (changed : Bool) (old : Map (Backend C)) (servers : Map ServerConfig) (id : Bytes)
      → lookup id (next_backends sha256 marshal changed old servers) ≡ elim (lookup id servers) [
        | none ↦ none
        | some cfg ↦ some (next_backend sha256 marshal changed old id cfg)
      ]
  unfolding next_backends lookup
  lookup-next_backends changed old [] id = refl
  lookup-next_backends changed old ((j, cfg) ∷ servers) id =
      let e =
        lookup-insert j id (next_backend sha256 marshal changed old j cfg)
          (next_backends sha256 marshal changed old servers) in
      elim (Bool-cases (j == id)) [
        | inl same ↦
            rw (e, same)
              (ap (λ k. some (next_backend sha256 marshal changed old k cfg))
                ((eq_iff j id).0 same))
        | inr other ↦ rw (e, other) (lookup-next_backends changed old servers id)
      ]

  lookup-dropped :
      (next old : Map (Backend C)) (id : Bytes) {b : Backend C}
      → lookup id old ≡ some b
      → lookup id next ≡ none
      → lookup id (dropped next old) ≡ some b
  unfolding dropped lookup
  lookup-dropped next [] id h gone = cc
  lookup-dropped next ((j, c) ∷ old) id {b} h gone = elim (Bool-cases (j == id)) [
    | inl same ↦
        let none_there : lookup j next ≡ none =
          ap (λ k. lookup k next) ((eq_iff j id).0 same) ∙ gone in
        rw (dropped, none_there, same) (rw same at h)
    | inr other ↦
        let rest = lookup-dropped next old id (rw other at h) gone in
        elim (Option-cases (lookup j next)) [
          | inl n ↦ rw (dropped, n, other) rest
          | inr (v, n) ↦ rw (dropped, n) rest
        ]
  ]

  -- Nothing is replaced under a name that is not configured.
  lookup-replaced-none :
      (changed : Bool) (old : Map (Backend C)) (servers : Map ServerConfig) (id : Bytes)
      → lookup id servers ≡ none
      → lookup id (replaced sha256 marshal changed old servers) ≡ none
  unfolding replaced lookup
  lookup-replaced-none changed old [] id h = refl
  lookup-replaced-none changed old ((j, cfg) ∷ servers) id h = elim (Bool-cases (j == id)) [
    | inl same ↦ let bad = (rw same at h) in cc
    | inr other ↦
        let rest = lookup-replaced-none changed old servers id (rw other at h) in
        elim (Option-cases (lookup j old)) [
          | inl n ↦ rw (replaced, n) rest
          | inr (b, n) ↦ elim (Bool-cases (keeps sha256 marshal changed b cfg)) [
            | inl k ↦ rw (replaced, n, k) rest
            | inr k ↦ rw (replaced, n, k, other) rest
          ]
        ]
  ]

  lookup-replaced :
      (changed : Bool) (old : Map (Backend C)) (servers : Map ServerConfig) (id : Bytes)
      {b : Backend C} {cfg : ServerConfig}
      → lookup id old ≡ some b
      → lookup id servers ≡ some cfg
      → keeps sha256 marshal changed b cfg ≡ false
      → lookup id (replaced sha256 marshal changed old servers) ≡ some b
  unfolding replaced lookup
  lookup-replaced changed old [] id h there new = cc
  lookup-replaced changed old ((j, d) ∷ servers) id {b} {cfg} h there new =
      elim (Bool-cases (j == id)) [
        | inl same ↦
            let found : lookup j old ≡ some b = ap (λ k. lookup k old) ((eq_iff j id).0 same) ∙ h in
            let configured = (rw same at there) in
            let q : d ≡ cfg = cc in
            let new' : keeps sha256 marshal changed b d ≡ false =
              ap (keeps sha256 marshal changed b) q ∙ new in
            rw (replaced, found, new', same) refl
        | inr other ↦
            let rest = lookup-replaced changed old servers id h (rw other at there) new in
            elim (Option-cases (lookup j old)) [
              | inl n ↦ rw (replaced, n) rest
              | inr (c, n) ↦ elim (Bool-cases (keeps sha256 marshal changed c d)) [
                | inl k ↦ rw (replaced, n, k) rest
                | inr k ↦ rw (replaced, n, k, other) rest
              ]
            ]
      ]

  -- What is configured is in the new table, so it is not dropped.
  lookup-dropped-none :
      (next old : Map (Backend C)) (id : Bytes) {b : Backend C}
      → lookup id next ≡ some b
      → lookup id (dropped next old) ≡ none
  unfolding dropped lookup
  lookup-dropped-none next [] id h = refl
  lookup-dropped-none next ((j, c) ∷ old) id {b} h =
      let rest = lookup-dropped-none next old id h in
      elim (Option-cases (lookup j next)) [
        | inr (v, n) ↦ rw (dropped, n) rest
        | inl n ↦ elim (Bool-cases (j == id)) [
          | inl same ↦
              let bad : lookup id next ≡ none =
                ap (λ k. lookup k next) (sym ((eq_iff j id).0 same)) ∙ n in
              cc
          | inr other ↦ rw (dropped, n, other) rest
        ]
      ]

  -- A backend that is kept is not replaced, where no name is configured twice.
  lookup-replaced-kept :
      (changed : Bool) (old : Map (Backend C)) (servers : Map ServerConfig) (id : Bytes)
      {b : Backend C} {cfg : ServerConfig}
      → IsMap servers
      → lookup id old ≡ some b
      → lookup id servers ≡ some cfg
      → keeps sha256 marshal changed b cfg ≡ true
      → lookup id (replaced sha256 marshal changed old servers) ≡ none
  unfolding replaced lookup
  lookup-replaced-kept changed old [] id unique h there new = cc
  lookup-replaced-kept changed old ((j, d) ∷ servers) id {b} {cfg} (absent, unique) h there new =
      elim (Bool-cases (j == id)) [
        | inl same ↦
            let found : lookup j old ≡ some b = ap (λ k. lookup k old) ((eq_iff j id).0 same) ∙ h in
            let configured = (rw same at there) in
            let q : d ≡ cfg = cc in
            let new' : keeps sha256 marshal changed b d ≡ true =
              ap (keeps sha256 marshal changed b) q ∙ new in
            let later : lookup id servers ≡ none =
              ap (λ k. lookup k servers) (sym ((eq_iff j id).0 same)) ∙ absent in
            rw (replaced, found, new') (lookup-replaced-none changed old servers id later)
        | inr other ↦
            let rest =
              lookup-replaced-kept changed old servers id unique h (rw other at there) new in
            elim (Option-cases (lookup j old)) [
              | inl n ↦ rw (replaced, n) rest
              | inr (c, n) ↦ elim (Bool-cases (keeps sha256 marshal changed c d)) [
                | inl k ↦ rw (replaced, n, k) rest
                | inr k ↦ rw (replaced, n, k, other) rest
              ]
            ]
      ]

  -- What becomes of a backend: whether it stays, by the configuration of its name.
  abbrev pub stays : Bool → Backend C → Option ServerConfig → Bool
  stays changed b none = false
  stays changed b (some cfg) = hash sha256 marshal b.cfg == hash sha256 marshal cfg && not changed

  -- A backend of before stays when its name is configured with an equal hash and the limit per
  -- server has not changed. If it stays, it is in the new table under its name, with all but its
  -- configuration as it was, and it is not among those that are closed. Else it is among those that
  -- are closed, and the new table has a new backend under its name, or none where the name is not
  -- configured.
  pub kept_or_closed :
      (changed : Bool) (old : Map (Backend C)) (servers : Map ServerConfig) (id : Bytes)
      (b : Backend C)
      → IsMap servers
      → lookup id old ≡ some b
      → (lookup id (next_backends sha256 marshal changed old servers) ≡ elim (lookup id servers) [
        | none ↦ none
        | some cfg ↦
            some (if stays changed b (some cfg) then record b { cfg = cfg } else new_backend id cfg)
      ])
        × (lookup id (
              replaced sha256 marshal changed old servers
              ++ dropped (next_backends sha256 marshal changed old servers) old)
            ≡ (if stays changed b (lookup id servers) then none else some b))
  unfolding next_backend keeps
  kept_or_closed changed old servers id b unique h =
      let next = lookup-next_backends changed old servers id in
      let table = next_backends sha256 marshal changed old servers in
      let gone =
        lookup-append id (replaced sha256 marshal changed old servers) (dropped table old) in
      elim (Option-cases (lookup id servers)) [
        | inl missing ↦ (
          rw (next, missing) refl,
          rw (gone, lookup-replaced-none changed old servers id missing, missing)
              (lookup-dropped table old id h (rw (next, missing) refl)),
        )
        | inr (cfg, there) ↦
            let named : lookup id table ≡ some (next_backend sha256 marshal changed old id cfg) =
              rw (next, there) refl in
            elim (Bool-cases (keeps sha256 marshal changed b cfg)) [
              | inl k ↦ (
                rw (next, there, next_backend, h) refl,
                rw
                    (
                      gone,
                      lookup-replaced-kept changed old servers id unique h there k,
                      lookup-dropped-none table old id named,
                      there,
                      k,
                    )
                    refl,
              )
              | inr k ↦ (
                rw (next, there, next_backend, h) refl,
                rw (gone, lookup-replaced changed old servers id h there k, there, k) refl,
              )
            ]
      ]
