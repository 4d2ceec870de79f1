-- ===== src/App/Discover/Ends.antt =====
-- A discovery of internal/app/manager.go ends, when the server's lists do.
use lessen_mcp_gateway.Prelude.{
  ℕ, suc, ◌≡◌, refl, subst, Bytes, codes, Bool, true, false, Option, some, List, [], ◌∷◌,
  Bool-cases, Option-cases, inl, inr,
}
use lessen_mcp_gateway.Prelude.Int.{clip}
use lessen_mcp_gateway.Errors.{Error, Context, Result, ok, err, Result-cases}
use lessen_mcp_gateway.Model.{Raw, Tool, Resource, ResourceTemplate, Prompt}
use lessen_mcp_gateway.Mcp.Protocol.{InitializeResult}
use lessen_mcp_gateway.Storage.Interface.{Store, Done, ToolLaws}
use lessen_mcp_gateway.Registry.Coherent.Keys.{NoSlash}
use lessen_mcp_gateway.App.Client.{Client, Backend}
use lessen_mcp_gateway.App.Handshake.{ensure_initialized}
use lessen_mcp_gateway.App.Pages.{
  Page, discover_pages, take_defs, discover_tools, discover_resources, discover_resource_templates,
  discover_prompts, resource_of, template_of, prompt_of, tool_of,
}
use lessen_mcp_gateway.App.Apply.{Manager, is_enabled}
use lessen_mcp_gateway.App.Status.{supports_capability}
use lessen_mcp_gateway.App.Calls.{Moment, find_backend, put_backend}
use lessen_mcp_gateway.App.Discover.{
  Listing, Encoders, or_empty, listed_if, gather, find_others, discover_with, discover,
}
use lessen_mcp_gateway.App.Discover.Keeps.{OtherWrites, Kept, KeptOut, discover-Kept}

-- From a cursor on, the server's pages end within a number of calls: with an error, or with a page
-- without a cursor.
pub data IsEnding {D : Type 0} (call : Bytes → Result (Page D)) : ℕ → Bytes → Type 0 where
  fails : {n : ℕ} {cursor : Bytes} (e : Error) → call cursor ≡ err e → IsEnding call (suc n) cursor
  last :
      {n : ℕ} {cursor : Bytes} (p : Page D)
      → call cursor ≡ ok p
      → p.next_cursor ≡ []
      → IsEnding call (suc n) cursor
  more :
      {n : ℕ} {cursor : Bytes} (p : Page D)
      → call cursor ≡ ok p
      → IsEnding call n p.next_cursor
      → IsEnding call (suc n) cursor

abbrev pub IsSome {ℓ} : {A : Type ℓ} → Option A → Type ℓ
IsSome {A = A} o = (a : A) × (o ≡ some a)

module _ {D A : Type 0} (limit : ℕ) (convert : D → A) (call : Bytes → Result (Page D)) where
  after_page :
      (n : ℕ) (next : Bytes) (items : List A) (m : Result (List A))
      → ((xs : List A) → IsSome (discover_pages limit convert n call next xs))
      → IsSome {A = Result (List A)} (elim m [
        | err e ↦ some (err e)
        | ok xs ↦ elim next [
          | [] ↦ some (ok xs)
          | c ∷ cs ↦ discover_pages limit convert n call (c ∷ cs) xs
        ]
      ])
  after_page n next items (err e) later = (err e, refl)
  after_page n [] items (ok xs) later = (ok xs, refl)
  after_page n (c ∷ cs) items (ok xs) later = later xs

  last_page :
      (n : ℕ) (next : Bytes) (m : Result (List A))
      → next ≡ []
      → IsSome {A = Result (List A)} (elim m [
        | err e ↦ some (err e)
        | ok xs ↦ elim next [
          | [] ↦ some (ok xs)
          | c ∷ cs ↦ discover_pages limit convert n call (c ∷ cs) xs
        ]
      ])
  last_page n next (err e) stop = (err e, refl)
  last_page n [] (ok xs) stop = (ok xs, refl)
  last_page n (c ∷ cs) (ok xs) stop = cc

  discover_pages-IsSome :
      {n : ℕ} {cursor : Bytes} (items : List A)
      → IsEnding call n cursor
      → IsSome (discover_pages limit convert n call cursor items)
  unfolding discover_pages
  discover_pages-IsSome items (fails e h) = rw (h, discover_pages) (err e, refl)
  discover_pages-IsSome {n = suc n} items (last p h stop) =
      rw (h, discover_pages)
        (last_page n p.next_cursor (take_defs limit convert p.items items) stop)
  discover_pages-IsSome {n = suc n} items (more p h rest) =
      rw (h, discover_pages)
        (after_page n p.next_cursor items (take_defs limit convert p.items items)
          (λ xs. discover_pages-IsSome xs rest))

-- All the lists of a server end.
pub record IsFinite (fuel : ℕ) (listing : Listing) : Type 0 where
  pub tools : IsEnding listing.tools fuel []
  pub resources : IsEnding listing.resources fuel []
  pub templates : IsEnding listing.templates fuel []
  pub prompts : IsEnding listing.prompts fuel []

listed_if-IsSome :
    {A : Type 0} (supported : Bool) (o : Option (Result (List A)))
    → IsSome o
    → IsSome (listed_if supported o)
listed_if-IsSome true o known = known
listed_if-IsSome false o known = (ok [], refl)

or_empty-IsSome : {A : Type 0} (o : Option (Result (List A))) → IsSome o → IsSome (or_empty o)
unfolding or_empty
or_empty-IsSome o (err e, h) = rw (h, or_empty) ([], refl)
or_empty-IsSome o (ok xs, h) = rw (h, or_empty) (xs, refl)

gather-IsSome :
    (tools : List Tool) {a : Option (List Resource)} {b : Option (List ResourceTemplate)}
    {c : Option (List Prompt)}
    → IsSome a
    → IsSome b
    → IsSome c
    → IsSome (gather tools a b c)
gather-IsSome tools (x, f) (y, g) (z, h) = rw (f, g, h, gather) (_, refl)

module _ {C S : Type 0} (client : Client C) (store : Store S) (encoders : Encoders)
    (error_text : Error → Bytes) (at : Moment) (fuel : ℕ) where
  find_others-IsSome :
      (m : Manager C S) (id : Bytes) (listing : Listing) (capabilities : Raw) (tools : List Tool)
      → IsFinite fuel listing
      → IsSome
          (find_others client store encoders error_text at fuel m id listing capabilities tools)
  unfolding find_others discover_resources discover_resource_templates discover_prompts
  find_others-IsSome m id listing capabilities tools finite =
      let limits = m.cfg.discovery in
      gather-IsSome tools
        (or_empty-IsSome _ (
          listed_if-IsSome _ _ (
            discover_pages-IsSome (clip limits.max_resources_per_server)
              (resource_of id at.now encoders.resource) listing.resources [] finite.resources)))
        (or_empty-IsSome _ (
          listed_if-IsSome _ _ (
            discover_pages-IsSome (clip limits.max_resources_per_server)
              (template_of id at.now encoders.template) listing.templates [] finite.templates)))
        (or_empty-IsSome _ (
          listed_if-IsSome _ _ (
            discover_pages-IsSome (clip limits.max_prompts_per_server)
              (prompt_of id at.now encoders.prompt) listing.prompts [] finite.prompts)))

  discover_with-IsSome :
      (m : Manager C S) (id : Bytes) (b : Backend C) (result : InitializeResult) (listing : Listing)
      → IsFinite fuel listing
      → IsSome (discover_with client store encoders error_text at fuel m id b result listing)
  unfolding discover_with discover_tools
  discover_with-IsSome m id b result listing finite =
      let supported = supports_capability encoders.decode result.capabilities (codes "tools") in
      let (asked, known) = listed_if-IsSome supported _ (
        discover_pages-IsSome (clip m.cfg.discovery.max_tools_per_server)
          (tool_of id at.now encoders.sha256) listing.tools [] finite.tools) in
      elim (Result-cases asked) [
        | inr (e, f) ↦ rw (known, discover_with, f) (_, refl)
        | inl (tools, f) ↦
            let (found, g) = find_others-IsSome m id listing result.capabilities tools finite in
            rw (known, discover_with, f, g) (_, refl)
      ]

  discover-IsSome :
      (begun : Context) (m : Manager C S) (id : Bytes) (listing : Listing)
      → IsFinite fuel listing
      → IsSome (discover client store encoders error_text at fuel begun m id listing)
  unfolding discover
  discover-IsSome begun m id listing finite = elim (Result-cases (find_backend m id)) [
    | inr (e, f) ↦ rw (f, discover) (_, refl)
    | inl (b, f) ↦ elim (Option-cases begun) [
      | inr (e, g) ↦ rw (f, discover, g) (_, refl)
      | inl g ↦ elim (Bool-cases (is_enabled b.cfg)) [
        | inr off ↦ rw (f, discover, g, off) (_, refl)
        | inl on ↦
            let (b', ready) = ensure_initialized client at.ctx at.after_probe at.now b in
            elim (Result-cases ready) [
              | inr (e, h) ↦ rw (f, discover, g, on, h) (_, refl)
              | inl (result, h) ↦
                  rw (f, discover, g, on, h)
                    (discover_with-IsSome (put_backend id b' m) id b' result listing finite)
            ]
      ]
    ]
  ]

  -- A discovery at a server whose lists end within the fuel, with an error or with a last page,
  -- ends too: well, or with an error of the handshake, of a listing or of the store. However it
  -- ends, it keeps the registry in order: every cached tool is the stored one, and every entry of
  -- the routing index leads to a stored tool of that exposed name. It needs a server's name without
  -- a slash, and a store whose other writes leave the tools alone.
  pub discover-ends-Kept :
      (laws : ToolLaws store) (others : OtherWrites store laws) (begun : Context) (m : Manager C S)
      (id : Bytes) (listing : Listing)
      → NoSlash id
      → Kept store laws others m.registry
      → IsFinite fuel listing
      → (after : Manager C S) × (done : Done) × (discover client store encoders error_text at fuel
            begun m id listing
          ≡ some (after, done))
        × Kept store laws others after.registry
  discover-ends-Kept laws others begun m id listing slash kept finite =
      let ((after, done), ended) = discover-IsSome begun m id listing finite in
      (
        after,
        done,
        ended,
        subst (KeptOut store laws others encoders error_text at fuel client) ended (
            discover-Kept store laws others encoders error_text at fuel client begun m id listing
              slash kept),
      )
