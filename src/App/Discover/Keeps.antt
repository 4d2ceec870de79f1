-- ===== src/App/Discover/Keeps.antt =====
-- A discovery of internal/app/manager.go keeps what the registry promises.
use lessen_mcp_gateway.Prelude.{
  [], ℕ, ◌≡◌, ap, sym, ◌∙◌, subst, Bytes, codes, Bool, true, false, Option, none, some, List, All,
  All-imp, Bool-cases, Option-cases, inl, inr,
}
use lessen_mcp_gateway.Prelude.Int.{clip}
use lessen_mcp_gateway.Errors.{Error, Context, Result, ok, err, Result-cases}
use lessen_mcp_gateway.Model.{Raw, Server, HealthStatus, Tool, Resource, ResourceTemplate, Prompt}
use lessen_mcp_gateway.Mcp.Protocol.{InitializeResult}
use lessen_mcp_gateway.Storage.Interface.{Store, Done, ToolLaws}
use lessen_mcp_gateway.Registry.{
  Registry, replace_tools, replace_resources, replace_resource_templates, replace_prompts,
  get_server, upsert_server,
}
use lessen_mcp_gateway.Registry.Coherent.{Coherent, replace_tools-Coherent}
use lessen_mcp_gateway.Registry.Coherent.Keys.{NoSlash}
use lessen_mcp_gateway.Registry.Routing.{IsOf, IsRouted, Leads, replace_tools-IsRouted}
use lessen_mcp_gateway.App.Client.{Client, Backend}
use lessen_mcp_gateway.App.Handshake.{ensure_initialized}
use lessen_mcp_gateway.App.Pages.{discover_tools}
use lessen_mcp_gateway.App.Pages.Owned.{discover_tools-IsOf}
use lessen_mcp_gateway.App.Apply.{Manager, is_enabled}
use lessen_mcp_gateway.App.Status.{mark_error, supports_capability}
use lessen_mcp_gateway.App.Calls.{Moment, find_backend, put_backend}
use lessen_mcp_gateway.App.Discover.{
  Listing, Encoders, Found, listed_if, gather, find_others, replace_all, store_found, discover_with,
  discover,
}

-- The writes of a store that are not about tools leave the tools alone.
pub record OtherWrites {S : Type 0} (store : Store S) (laws : ToolLaws store) : Type 0 where
  pub resources :
      (s : S) (ctx : Context) (id i n : Bytes) (items : List Resource)
      → laws.tool_at (store.replace_resources s ctx id items).0 i n ≡ laws.tool_at s i n
  pub templates :
      (s : S) (ctx : Context) (id i n : Bytes) (items : List ResourceTemplate)
      → laws.tool_at (store.replace_resource_templates s ctx id items).0 i n ≡ laws.tool_at s i n
  pub prompts :
      (s : S) (ctx : Context) (id i n : Bytes) (items : List Prompt)
      → laws.tool_at (store.replace_prompts s ctx id items).0 i n ≡ laws.tool_at s i n

gather-tools :
    (tools : List Tool) (a : Option (List Resource)) (b : Option (List ResourceTemplate))
    (c : Option (List Prompt)) (found : Found)
    → gather tools a b c ≡ some found
    → found.tools ≡ tools
gather-tools tools none b c found e = cc
gather-tools tools (some a) none c found e = cc
gather-tools tools (some a) (some b) none found e = cc
gather-tools tools (some a) (some b) (some c) found e =
    sym (ap (λ (o : Option Found). elim o [ none ↦ tools | some f ↦ f.tools ]) e)

module _ {S : Type 0} (store : Store S) (laws : ToolLaws store)
    (others : OtherWrites store laws) where
  abbrev pub Kept : Registry S → Type 0
  Kept r = Coherent store laws r × IsRouted store laws r

  stored-Kept :
      (r : Registry S) (s : S)
      → ((i n : Bytes) → laws.tool_at s i n ≡ laws.tool_at r.stored i n)
      → Kept r
      → Kept (record r { stored = s })
  stored-Kept r s same (c, routed) = (
    record { valid = c.valid; agrees = λ i n t slash h. same i n ∙ c.agrees i n t slash h },
    All-imp (Leads store laws r.stored) (Leads store laws s) r.tool_index
        (λ e (slash, (t, held, name)). (slash, (t, same e.1.server_id e.1.name ∙ held, name)))
        routed,
  )

  upsert_server-Kept :
      (r : Registry S) (ctx : Context) (server : Server)
      → Kept r
      → Kept (upsert_server store r ctx server).0
  unfolding upsert_server
  upsert_server-Kept r ctx server kept =
      stored-Kept r (store.upsert_server r.stored ctx server).0
        (laws.upsert_server_tools r.stored ctx server) kept

  mark_error-Kept :
      (error_text : Error → Bytes) (now : ℕ) (r : Registry S) (id : Bytes) (status : HealthStatus)
      (cause : Error)
      → Kept r
      → Kept (mark_error store error_text now r id status cause)
  unfolding mark_error
  mark_error-Kept error_text now r id status cause kept =
      elim (Result-cases (get_server store r none id)) [
        | inr (e, missing) ↦ rw (missing, mark_error) kept
        | inl (server, there) ↦ rw (there, mark_error) (upsert_server-Kept r none _ kept)
      ]

  module _ (encoders : Encoders) (error_text : Error → Bytes) (at : Moment) (fuel : ℕ) {C : Type 0}
      (client : Client C) where
    replace_all-Kept :
        (r : Registry S) (id : Bytes) (found : Found)
        → NoSlash id
        → All (IsOf id) found.tools
        → Kept r
        → Kept (replace_all client store encoders error_text at fuel r id found).0
    unfolding replace_all replace_resources replace_resource_templates replace_prompts
    replace_all-Kept r id found slash ofs (c, routed) =
        let (r1, done1) = replace_tools store r at.ctx id found.tools in
        let k1 : Kept r1 = (
          replace_tools-Coherent store laws r at.ctx id found.tools c slash,
          replace_tools-IsRouted store laws r at.ctx id found.tools slash ofs routed,
        ) in
        let (r2, done2) = replace_resources store r1 at.ctx id found.resources in
        let k2 : Kept r2 =
          stored-Kept r1 r2.stored (λ i n. others.resources r1.stored at.ctx id i n found.resources)
            k1 in
        let (r3, done3) = replace_resource_templates store r2 at.ctx id found.templates in
        let k3 : Kept r3 =
          stored-Kept r2 r3.stored (λ i n. others.templates r2.stored at.ctx id i n found.templates)
            k2 in
        let (r4, done4) = replace_prompts store r3 at.ctx id found.prompts in
        let k4 : Kept r4 =
          stored-Kept r3 r4.stored (λ i n. others.prompts r3.stored at.ctx id i n found.prompts)
            k3 in
        elim (Result-cases done1) [
          | inr (e, f) ↦ rw (f, replace_all) k1
          | inl (x, f) ↦ elim (Result-cases done2) [
            | inr (e, g) ↦ rw (f, replace_all, g) k2
            | inl (y, g) ↦ elim (Result-cases done3) [
              | inr (e, h) ↦ rw (f, replace_all, g, h) k3
              | inl (z, h) ↦ rw (f, replace_all, g, h) k4
            ]
          ]
        ]

    store_found-Kept :
        (r : Registry S) (id : Bytes) (b : Backend C) (result : InitializeResult) (found : Found)
        → NoSlash id
        → All (IsOf id) found.tools
        → Kept r
        → Kept (store_found client store encoders error_text at fuel r id b result found).0
    unfolding store_found
    store_found-Kept r id b result found slash ofs kept =
        let (r', done) = replace_all client store encoders error_text at fuel r id found in
        let k : Kept r' = replace_all-Kept r id found slash ofs kept in
        elim (Result-cases done) [
          | inr (e, f) ↦ rw (f, store_found) k
          | inl (x, f) ↦ elim (Result-cases (get_server store r' at.ctx id)) [
            | inr (e, g) ↦ rw (f, store_found, g) k
            | inl (server, g) ↦ rw (f, store_found, g) (upsert_server-Kept r' at.ctx _ k)
          ]
        ]

    find_others-tools :
        (m : Manager C S) (id : Bytes) (listing : Listing) (capabilities : Raw) (tools : List Tool)
        (found : Found)
        → find_others client store encoders error_text at fuel m id listing capabilities tools
          ≡ some found
        → found.tools ≡ tools
    unfolding find_others
    find_others-tools m id listing capabilities tools found e = gather-tools tools _ _ _ found e

    abbrev pub KeptOut : Option (Manager C S × Done) → Type 0
    KeptOut none = Unit
    KeptOut (some (m, done)) = Kept m.registry

    listed_if-IsOf :
        (supported : Bool) (listing : Option (Result (List Tool))) (id : Bytes) (tools : List Tool)
        → ((ts : List Tool) → listing ≡ some (ok ts) → All (IsOf id) ts)
        → listed_if supported listing ≡ some (ok tools)
        → All (IsOf id) tools
    listed_if-IsOf true listing id tools ofs e = ofs tools e
    listed_if-IsOf false listing id tools ofs e =
        let same : [] ≡ tools = cc in subst (All (IsOf id)) same tt

    discover_with-Kept :
        (m : Manager C S) (id : Bytes) (b : Backend C) (result : InitializeResult)
        (listing : Listing)
        → NoSlash id
        → Kept m.registry
        → KeptOut (discover_with client store encoders error_text at fuel m id b result listing)
    unfolding discover_with
    discover_with-Kept m id b result listing slash kept =
        let supported = supports_capability encoders.decode result.capabilities (codes "tools") in
        let asked =
          discover_tools id at.now fuel (clip m.cfg.discovery.max_tools_per_server) encoders.sha256
            listing.tools in
        elim (Option-cases (listed_if supported asked)) [
          | inl stuck ↦ rw (stuck, discover_with) tt
          | inr (err e, f) ↦
              rw (f, discover_with)
                (mark_error-Kept error_text at.now m.registry id HealthStatus.degraded e kept)
          | inr (ok tools, f) ↦
              let ofs =
                listed_if-IsOf supported asked id tools
                  (λ ts q.
                    discover_tools-IsOf id at.now fuel (clip m.cfg.discovery.max_tools_per_server)
                      encoders.sha256 listing.tools ts q)
                  f in
              elim (Option-cases (
                find_others client store encoders error_text at fuel m id listing
                  result.capabilities tools)) [
                    | inl stuck ↦ rw (f, discover_with, stuck) tt
                    | inr (found, g) ↦
                        let same =
                          find_others-tools m id listing result.capabilities tools found g in
                        rw (f, discover_with, g)
                          (store_found-Kept m.registry id b result found slash
                            (subst (All (IsOf id)) (sym same) ofs) kept)
                  ]
        ]

    -- A discovery that ends, well or with an error of the handshake, of a listing or of the store,
    -- keeps the registry in order. Of one that is out of fuel nothing is said here.
    pub discover-Kept :
        (begun : Context) (m : Manager C S) (id : Bytes) (listing : Listing)
        → NoSlash id
        → Kept m.registry
        → KeptOut (discover client store encoders error_text at fuel begun m id listing)
    unfolding discover
    discover-Kept begun m id listing slash kept = elim (Result-cases (find_backend m id)) [
      | inr (e, f) ↦ rw (f, discover) kept
      | inl (b, f) ↦ elim (Option-cases begun) [
        | inr (e, g) ↦ rw (f, discover, g) kept
        | inl g ↦ elim (Bool-cases (is_enabled b.cfg)) [
          | inr off ↦ rw (f, discover, g, off) kept
          | inl on ↦
              let (b', ready) = ensure_initialized client at.ctx at.after_probe at.now b in
              elim (Result-cases ready) [
                | inr (e, h) ↦
                    rw (f, discover, g, on, h)
                      (mark_error-Kept error_text at.now m.registry id HealthStatus.unhealthy e
                        kept)
                | inl (result, h) ↦
                    rw (f, discover, g, on, h)
                      (discover_with-Kept (put_backend id b' m) id b' result listing slash kept)
              ]
        ]
      ]
    ]
