-- ===== src/Registry/Coherent.antt =====
-- The cache and the store agree: what is cached for a server and a tool is what the store holds.
-- The keys "<server>/<tool>" tell server names apart that have no slash, as configured names have.
pub mod Keys
use lessen_mcp_gateway.Prelude.{
  ℕ, Bytes, codes, ◌==◌, eq_iff, eq_refl, ◌≡◌, ◌≢◌, refl, ap, sym, ◌∙◌, Bool, true, false, Option,
  none, some, List, [], ◌∷◌, ◌++◌, if◌then◌else◌, arith, Bool-cases, Option-cases, inl, inr, ◌⊎◌,
  has_prefix, lookup, leb,
}
use lessen_mcp_gateway.Errors.{Error, Context, Result, ok, err, not_found, Result-cases}
use lessen_mcp_gateway.Model.{Server, Tool, Server}
use lessen_mcp_gateway.Storage.Interface.{Store, ToolLaws, last_named}
use lessen_mcp_gateway.Registry.Cache
use lessen_mcp_gateway.Registry.Cache.{ToolCache}
use lessen_mcp_gateway.Registry.Cache.Linked.{
  IsValid, get-IsValid, put-IsValid, delete_prefix-IsValid, set_max_bytes-IsValid,
}
use lessen_mcp_gateway.Registry.Cache.Reads.{
  contents, get-contents, contents-get, contents-put_ne, contents-put_self, contents-delete_prefix,
  contents-set_max_bytes,
}
use lessen_mcp_gateway.Registry.{
  upsert_server, Registry, cache_key, get_tool, replace_tools, delete_server, set_cache_bytes,
}
use lessen_mcp_gateway.Registry.Coherent.Keys.{NoSlash, cache_key-injective, has_prefix-cache_key}

module _ {S : Type 0} (store : Store S) (laws : ToolLaws store) where
  pub record Coherent (r : Registry S) : Type 0 where
    pub valid : IsValid r.cache
    pub agrees :
        (i n : Bytes) (t : Tool)
        → NoSlash i
        → contents r.cache (cache_key i n) ≡ some t
        → laws.tool_at r.stored i n ≡ some t

  -- With a coherent cache, a tool that `GetTool` returns is the one that the store holds.
  pub get_tool_stored :
      (r : Registry S) (ctx : Context) (id name : Bytes) (t : Tool)
      → Coherent r
      → NoSlash id
      → (get_tool store r ctx id name).1 ≡ ok t
      → laws.tool_at r.stored id name ≡ some t
  unfolding get_tool
  get_tool_stored r ctx id name t c slash h =
      let key = cache_key id name in
      elim (Option-cases (Cache.get r.cache key).1) [
        | inl miss ↦ laws.get_tool_ok r.stored ctx id name t (ground (arith, miss))
        | inr (u, hit) ↦
            c.agrees id name t slash (sym (get-contents r.cache key c.valid) ∙ ground (arith, hit))
      ]

  -- With a coherent cache, a live context and a server name without a slash, `GetTool` returns what
  -- the store itself would return, a tool or an error.
  pub get_tool-store :
      (r : Registry S) (id name : Bytes)
      → Coherent r
      → NoSlash id
      → (get_tool store r none id name).1 ≡ store.get_tool r.stored none id name
  unfolding get_tool
  get_tool-store r id name c slash =
      let key = cache_key id name in
      elim (Option-cases (Cache.get r.cache key).1) [
        | inl miss ↦ ground (arith, miss)
        | inr (u, hit) ↦
            let held = c.agrees id name u slash (sym (get-contents r.cache key c.valid) ∙ hit) in
            ground (arith, hit, laws.get_tool_found r.stored id name u held)
      ]

  put_self-agrees :
      (r : Registry S) (cache : ToolCache) (id name : Bytes) (u : Tool)
      → IsValid cache
      → NoSlash id
      → (i n : Bytes) (t : Tool) → NoSlash i
      → cache_key id name ≡ cache_key i n
      → laws.tool_at r.stored id name ≡ some u
      → contents (Cache.put cache (cache_key id name) u) (cache_key i n) ≡ some t
      → laws.tool_at r.stored i n ≡ some t
  put_self-agrees r cache id name u v slash i n t s same found h =
      let (ids, names) = cache_key-injective id i name n slash s same in
      let kept = contents-put_self cache (cache_key id name) u v in
      let put = ap (contents (Cache.put cache (cache_key id name) u)) same ∙ h in
      rw (← ids, ← names) (ground (arith, kept, put, found))

  -- `GetTool` of a server whose name has no slash, also when it fails, keeps the cache coherent.
  pub get_tool-Coherent :
      (r : Registry S) (ctx : Context) (id name : Bytes)
      → Coherent r
      → NoSlash id
      → Coherent (get_tool store r ctx id name).0
  unfolding get_tool
  get_tool-Coherent r ctx id name c slash =
      let key = cache_key id name in
      let read = (Cache.get r.cache key).0 in
      let read_valid = get-IsValid r.cache key c.valid in
      let read_agrees : (i n : Bytes) (t : Tool)
          → NoSlash i
          → contents read (cache_key i n) ≡ some t
          → laws.tool_at r.stored i n ≡ some t =
        λ i n t s h.
          c.agrees i n t s (sym (contents-get r.cache key (cache_key i n) c.valid) ∙ h) in
      elim (Option-cases (Cache.get r.cache key).1) [
        | inr (u, hit) ↦ rw (hit, get_tool) (record { valid = read_valid; agrees = read_agrees })
        | inl miss ↦ elim (Result-cases (store.get_tool r.stored ctx id name)) [
          | inr (e, failed) ↦
              rw (miss, get_tool, failed) (record { valid = read_valid; agrees = read_agrees })
          | inl (u, found) ↦
              rw (miss, get_tool, found)
                (record {
                  valid = put-IsValid read key u read_valid;
                  agrees = λ i n t s h. elim (Bool-cases (key == cache_key i n)) [
                    | inl same ↦
                        put_self-agrees r read id name u read_valid slash i n t s
                          ((eq_iff _ _).0 same) (laws.get_tool_ok r.stored ctx id name u found) h
                    | inr other ↦ read_agrees i n t s (
                        contents-put_ne read key (cache_key i n) u read_valid
                          (λ e. cc (other, (eq_iff key (cache_key i n)).1 e)) h)
                  ];
                })
        ]
      ]

  -- A replacement of a server's tools, done or failed, keeps the cache coherent, if the server's
  -- name has no slash.
  pub replace_tools-Coherent :
      (r : Registry S) (ctx : Context) (id : Bytes) (tools : List Tool)
      → Coherent r
      → NoSlash id
      → Coherent (replace_tools store r ctx id tools).0
  unfolding replace_tools
  replace_tools-Coherent r ctx id tools c slash =
      elim (Result-cases (store.replace_tools r.stored ctx id tools).1) [
        | inr (e, failed) ↦
            rw (failed, replace_tools)
              (record {
                valid = c.valid;
                agrees = λ i n t s h.
                    laws.replace_tools_failed r.stored ctx id tools i n failed ∙ c.agrees i n t s h;
              })
        | inl (_, done) ↦
            rw (done, replace_tools)
              (record {
                valid = delete_prefix-IsValid r.cache (id ++ codes "/") c.valid;
                agrees = λ i n t s h. ground (
                  arith,
                  contents-delete_prefix r.cache (id ++ codes "/") (cache_key i n) c.valid,
                  has_prefix-cache_key i id n s slash,
                  eq_iff i id,
                  eq_iff id i,
                  c.agrees i n t s,
                  laws.replace_tools_done r.stored ctx id tools i n done,
                );
              })
      ]

  -- A deletion of a server, done or failed, keeps the cache coherent, if the server's name has no
  -- slash.
  pub delete_server-Coherent :
      (r : Registry S) (ctx : Context) (id : Bytes)
      → Coherent r
      → NoSlash id
      → Coherent (delete_server store r ctx id).0
  unfolding delete_server
  delete_server-Coherent r ctx id c slash =
      elim (Result-cases (store.delete_server r.stored ctx id).1) [
        | inr (e, failed) ↦
            rw (failed, delete_server)
              (record {
                valid = c.valid;
                agrees = λ i n t s h.
                    laws.delete_server_failed r.stored ctx id i n failed ∙ c.agrees i n t s h;
              })
        | inl (_, done) ↦
            rw (done, delete_server)
              (record {
                valid = delete_prefix-IsValid r.cache (id ++ codes "/") c.valid;
                agrees = λ i n t s h. ground (
                  arith,
                  contents-delete_prefix r.cache (id ++ codes "/") (cache_key i n) c.valid,
                  has_prefix-cache_key i id n s slash,
                  eq_iff i id,
                  eq_iff id i,
                  c.agrees i n t s,
                  laws.delete_server_done r.stored ctx id i n done,
                );
              })
      ]

  pub upsert_server-Coherent :
      (r : Registry S) (ctx : Context) (server : Server)
      → Coherent r
      → Coherent (upsert_server store r ctx server).0
  unfolding upsert_server
  upsert_server-Coherent r ctx server c = record {
    valid = c.valid;
    agrees =
        λ i n t slash h. laws.upsert_server_tools r.stored ctx server i n ∙ c.agrees i n t slash h;
  }

  pub set_cache_bytes-Coherent :
      (r : Registry S) (value : ℕ) → Coherent r → Coherent (set_cache_bytes store r value)
  unfolding set_cache_bytes
  set_cache_bytes-Coherent r value c = record {
    valid = set_max_bytes-IsValid r.cache value c.valid;
    agrees = λ i n t slash h.
        c.agrees i n t slash (contents-set_max_bytes r.cache value (cache_key i n) c.valid h);
  }
