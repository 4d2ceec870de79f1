-- ===== src/Registry/Routing.antt =====
-- The routing index: every entry leads to a tool of the store that has the entry's exposed name.
use lessen_mcp_gateway.Prelude.{
  subst, Bytes, codes, ◌==◌, eq_iff, eq_refl, ◌≡◌, refl, ap, sym, ◌∙◌, Bool, true, false, none,
  some, List, [], ◌∷◌, ◌++◌, ◌||◌, arith, Bool-cases, Option-cases, inl, inr, ◌⊎◌, lookup, insert,
  Map, All, All-imp, All-delete_if, All-insert, All-lookup, lookup-insert,
}
use lessen_mcp_gateway.Errors.{Context, ok, err, not_found, Result-cases}
use lessen_mcp_gateway.Model.{Tool}
use lessen_mcp_gateway.Storage.Interface.{Store, ToolLaws, last_named}
use lessen_mcp_gateway.Registry.{
  Registry, ToolRef, index_tools, drop_server, resolve_tool, replace_tools, delete_server,
}
use lessen_mcp_gateway.Registry.Names.{exposed_tool_name, exposed_tool_name_collision}
use lessen_mcp_gateway.Registry.Coherent.{Coherent, get_tool-store}
use lessen_mcp_gateway.Registry.Coherent.Keys.{NoSlash}

abbrev named : Bytes → List Tool → Bool
named n [] = false
named n (t ∷ ts) = t.name == n || named n ts

last_named_missing : (n : Bytes) (ts : List Tool) → named n ts ≡ false → last_named n ts ≡ none
last_named_missing n [] h = refl
last_named_missing n (t ∷ ts) h = ground (arith, last_named_missing n ts)

-- Every tool of a list is named in it.
named-All : (ts : List Tool) → All (λ t. named t.name ts ≡ true) ts
named-All [] = tt
named-All (t ∷ ts) = (
  ground (arith, eq_refl t.name),
  All-imp (λ u. named u.name ts ≡ true) (λ u. named u.name (t ∷ ts) ≡ true) ts (λ u h. ground arith)
      (named-All ts),
)

last_named_found :
    (P : Tool → Type 0) (n : Bytes) (ts : List Tool)
    → All P ts
    → named n ts ≡ true
    → (u : Tool) × (last_named n ts ≡ some u) × (u.name ≡ n) × P u
last_named_found P n [] all h = cc
last_named_found P n (t ∷ ts) all h = elim (Bool-cases (named n ts)) [
  | inl later ↦
      let (u, found, name, p) = last_named_found P n ts all.1 later in (u, rw found, name, p)
  | inr missing ↦
      let name : (t.name == n) ≡ true = ground (arith, missing) in
      (t, rw (last_named_missing n ts missing, name), (eq_iff t.name n).0 name, all.0)
]

-- A tool as discovery makes it for a server.
abbrev pub IsOf : Bytes → Tool → Type 0
IsOf id t = (t.server_id ≡ id) × (t.exposed_name ≡ exposed_tool_name id t.name)

module _ {S : Type 0} (store : Store S) (laws : ToolLaws store) where
  -- An entry of the index leads to a tool that is stored under its exposed name.
  abbrev pub Leads : S → Bytes × ToolRef → Type 0
  Leads s e =
      NoSlash e.1.server_id
      × ((t : Tool) × (laws.tool_at s e.1.server_id e.1.name ≡ some t) × (t.exposed_name ≡ e.0))

  abbrev pub IsRouted : Registry S → Type 0
  IsRouted r = All (Leads r.stored) r.tool_index

  index_tools-Leads :
      (s : S) (id : Bytes) (all ts : List Tool) (index : Map ToolRef)
      → NoSlash id
      → ((n : Bytes) → laws.tool_at s id n ≡ last_named n all)
      → All (IsOf id) all
      → All (λ t. named t.name all ≡ true) ts
      → All (IsOf id) ts
      → All (Leads s) index
      → All (Leads s) (index_tools ts index)
  unfolding index_tools
  index_tools-Leads s id all [] index slash held ofs names of_ts leads = leads
  index_tools-Leads s id all (t ∷ ts) index slash held ofs names of_ts leads =
      let (u, found, name, of_u) = last_named_found (IsOf id) t.name all ofs names.0 in
      let entry : Leads s (t.exposed_name, record { server_id = t.server_id; name = t.name }) = (
        subst NoSlash (sym of_ts.0.0) slash,
        (
          u,
          ap (λ i. laws.tool_at s i t.name) of_ts.0.0 ∙ held t.name ∙ found,
          of_u.1 ∙ ap (exposed_tool_name id) name ∙ sym of_ts.0.1,
        ),
      ) in
      index_tools-Leads s id all ts
        (insert t.exposed_name (record { server_id = t.server_id; name = t.name }) index) slash held
        ofs names.1 of_ts.1
        (All-insert (Leads s) t.exposed_name (record { server_id = t.server_id; name = t.name })
          index entry leads)

  -- Replacing a server's tools, whether it is done or fails, by tools of that server under their
  -- exposed names leaves every entry of the index leading to a stored tool of the entry's exposed
  -- name, if all did so before and the server's name has no slash.
  pub replace_tools-IsRouted :
      (r : Registry S) (ctx : Context) (id : Bytes) (tools : List Tool)
      → NoSlash id
      → All (IsOf id) tools
      → IsRouted r
      → IsRouted (replace_tools store r ctx id tools).0
  unfolding replace_tools
  replace_tools-IsRouted r ctx id tools slash ofs routed =
      let s = (store.replace_tools r.stored ctx id tools).0 in
      elim (Result-cases (store.replace_tools r.stored ctx id tools).1) [
        | inr (e, failed) ↦
            rw (failed, replace_tools)
              (All-imp (Leads r.stored) (Leads s) r.tool_index
                (λ x h. (
                  h.0,
                  (
                    h.1.0,
                    laws.replace_tools_failed r.stored ctx id tools x.1.server_id x.1.name failed
                        ∙ h.1.1,
                    h.1.2,
                  ),
                ))
                routed)
        | inl (_, done) ↦
            rw (done, replace_tools)
              (index_tools-Leads s id tools tools (drop_server id r.tool_index) slash
                (λ n.
                  ground
                    (arith, laws.replace_tools_done r.stored ctx id tools id n done, eq_refl id))
                ofs (named-All tools) ofs
                (All-delete_if (Leads r.stored) (Leads s) (λ key ref. ref.server_id == id)
                  r.tool_index
                  (λ k v other h. (
                    h.0,
                    (
                      h.1.0,
                      ground (
                        arith,
                        laws.replace_tools_done r.stored ctx id tools v.server_id v.name done,
                        eq_iff id v.server_id,
                        eq_iff v.server_id id,
                        h.1.1,
                      ),
                      h.1.2,
                    ),
                  ))
                  routed))
      ]

  -- After the deletion of a server, done or failed, every entry of the index leads to a stored tool
  -- of the entry's exposed name, if all did so before.
  pub delete_server-IsRouted :
      (r : Registry S) (ctx : Context) (id : Bytes)
      → IsRouted r
      → IsRouted (delete_server store r ctx id).0
  unfolding delete_server
  delete_server-IsRouted r ctx id routed =
      let s = (store.delete_server r.stored ctx id).0 in
      elim (Result-cases (store.delete_server r.stored ctx id).1) [
        | inr (e, failed) ↦
            rw (failed, delete_server)
              (All-imp (Leads r.stored) (Leads s) r.tool_index
                (λ x h. (
                  h.0,
                  (
                    h.1.0,
                    laws.delete_server_failed r.stored ctx id x.1.server_id x.1.name failed ∙ h.1.1,
                    h.1.2,
                  ),
                ))
                routed)
        | inl (_, done) ↦
            rw (done, delete_server)
              (All-delete_if (Leads r.stored) (Leads s) (λ key ref. ref.server_id == id)
                r.tool_index
                (λ k v other h. (
                  h.0,
                  (
                    h.1.0,
                    ground (
                      arith,
                      laws.delete_server_done r.stored ctx id v.server_id v.name done,
                      eq_iff id v.server_id,
                      eq_iff v.server_id id,
                      h.1.1,
                    ),
                    h.1.2,
                  ),
                ))
                routed)
      ]

  -- Where every entry of the index leads to a stored tool of the entry's exposed name, and the
  -- cache is coherent, a name that is resolved under a live context either is not indexed and gives
  -- `ErrNotFound`, or gives a tool that has this exposed name.
  pub resolve_tool_lem :
      (r : Registry S) (x : Bytes)
      → Coherent store laws r
      → IsRouted r
      → ((lookup x r.tool_index ≡ none) × ((resolve_tool store r none x).1 ≡ err not_found))
        ⊎ ((t : Tool) × ((resolve_tool store r none x).1 ≡ ok t) × (t.exposed_name ≡ x))
  unfolding resolve_tool
  resolve_tool_lem r x c routed = elim (Option-cases (lookup x r.tool_index)) [
    | inl miss ↦ inl (miss, rw (resolve_tool, miss))
    | inr (ref, hit) ↦
        let (slash, leads) = All-lookup (Leads r.stored) x r.tool_index ref routed hit in
        let (t, held, name) = leads in
        inr (
          t,
          rw (resolve_tool, hit)
              (get_tool-store store laws r ref.server_id ref.name c slash
                ∙ laws.get_tool_found r.stored ref.server_id ref.name t held),
          name,
        )
  ]

  -- A tool that is stored alone for its server is indexed under its name.
  lookup-replace_tools_one :
      (r : Registry S) (ctx : Context) (id : Bytes) (t : Tool)
      → (store.replace_tools r.stored ctx id (t ∷ [])).1 ≡ ok tt
      → lookup t.exposed_name (replace_tools store r ctx id (t ∷ [])).0.tool_index
        ≡ some (record { server_id = t.server_id; name = t.name })
  unfolding replace_tools index_tools
  lookup-replace_tools_one r ctx id t done =
      rw (replace_tools, done, lookup-insert, eq_refl t.exposed_name)

  -- Whatever was indexed before, when tool "b__c" of server "a" is stored first and tool "c" of
  -- server "a__b" next, the first tool's exposed name leads to server "a__b".
  pub replace_tools_collision :
      (r : Registry S) (ctx : Context) (a b c : Bytes) (first second : Tool)
      → IsOf a first
      → first.name ≡ b ++ codes "__" ++ c
      → IsOf (a ++ codes "__" ++ b) second
      → second.name ≡ c
      → (store.replace_tools
          (replace_tools store r ctx a (first ∷ [])).0.stored
          ctx
          (a ++ codes "__" ++ b)
          (second ∷ [])).1
        ≡ ok tt
      → lookup first.exposed_name
          (replace_tools store
            (replace_tools store r ctx a (first ∷ [])).0
            ctx
            (a ++ codes "__" ++ b)
            (second ∷ [])).0.tool_index
        ≡ some (record { server_id = a ++ codes "__" ++ b; name = c })
  replace_tools_collision r ctx a b c first second of_first name of_second other done =
      let same : second.exposed_name ≡ first.exposed_name =
        of_second.1
        ∙ ap (exposed_tool_name (a ++ codes "__" ++ b)) other
        ∙ sym (exposed_tool_name_collision a b c)
        ∙ sym (of_first.1 ∙ ap (exposed_tool_name a) name) in
      let r' = (replace_tools store r ctx a (first ∷ [])).0 in
      let led = lookup-replace_tools_one r' ctx (a ++ codes "__" ++ b) second done in
      let r'' = (replace_tools store r' ctx (a ++ codes "__" ++ b) (second ∷ [])).0 in
      ap (λ x. lookup x r''.tool_index) (sym same)
      ∙ led
      ∙ (λ i. some (record { server_id = of_second.0 i; name = other i }))
