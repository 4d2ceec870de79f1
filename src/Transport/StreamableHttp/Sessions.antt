-- ===== src/Transport/StreamableHttp/Sessions.antt =====
-- Sessions and closing, in internal/transport/streamable_http.go.
use lessen_mcp_gateway.Prelude.{
  ◌≡◌, refl, ◌∙◌, Bytes, codes, ◌==◌, Bool, true, false, not, ◌&&◌, none, some, List, [], ◌∷◌,
  if◌then◌else◌, All, Map, lookup, lookup-insert, lookup-empty, eq_refl, eq_iff, Bool-cases, inl,
  inr,
}
use lessen_mcp_gateway.Mcp.Protocol.{protocol_latest}
use lessen_mcp_gateway.Transport.StreamableHttp.{StreamableHttpClient, HttpResponse}
use lessen_mcp_gateway.Transport.StreamableHttp.Exchange.{
  Http, set_header, set_all, post_headers, capture_session,
}
use lessen_mcp_gateway.Transport.StreamableHttp.Calls.{set_protocol_version}

abbrev pub session_key : Bytes
session_key = codes "Mcp-Session-Id"

module _ (h : Http) where
  -- A header whose key is not the session's.
  abbrev pub IsOther : Bytes → Type 0
  IsOther key = (h.canonical key == h.canonical session_key) ≡ false

  lookup-if :
      (b : Bool) (value : Bytes) (headers : Map Bytes)
      → lookup (h.canonical session_key) headers ≡ none
      → lookup
          (h.canonical session_key)
          (if b then set_header h session_key value headers else headers)
        ≡ (if b then some value else none)
  lookup-if true value headers none_yet =
      lookup-insert (h.canonical session_key) (h.canonical session_key) value headers
      ∙ rw (eq_refl (h.canonical session_key)) refl
  lookup-if false value headers none_yet = none_yet

  lookup-set_header :
      (key value : Bytes) (headers : Map Bytes)
      → IsOther key
      → lookup (h.canonical session_key) (set_header h key value headers)
        ≡ lookup (h.canonical session_key) headers
  lookup-set_header key value headers other =
      lookup-insert (h.canonical key) (h.canonical session_key) value headers ∙ rw other refl

  lookup-set_all :
      (more headers : Map Bytes)
      → All (λ entry. IsOther entry.0) more
      → lookup (h.canonical session_key) (set_all h more headers)
        ≡ lookup (h.canonical session_key) headers
  lookup-set_all [] headers other = refl
  lookup-set_all ((key, value) ∷ more) headers (other, others) =
      lookup-set_all more (set_header h key value headers) others
      ∙ lookup-set_header key value headers other

  -- The keys that `post` sets besides.
  abbrev pub other_keys : List Bytes
  other_keys =
      codes "Mcp-Method"
      ∷ codes "MCP-Protocol-Version"
      ∷ codes "Accept"
      ∷ codes "Content-Type"
      ∷ codes "Mcp-Name"
      ∷ []

  lookup-post_headers :
      (c : StreamableHttpClient) (method name : Bytes)
      → All IsOther other_keys
      → All (λ entry. IsOther entry.0) c.opts.headers
      → lookup (h.canonical session_key) (post_headers h c method name) ≡ (
          if not (c.session_id == []) && not (c.opts.protocol_version == protocol_latest)
          then some c.session_id
          else none)
  unfolding post_headers
  lookup-post_headers c method name (a, (b, (d, (e, (x, done))))) others =
      let basic = set_header h (codes "Mcp-Method") method (
        set_header h (codes "MCP-Protocol-Version") c.opts.protocol_version (
          set_header h (codes "Accept") (codes "application/json, text/event-stream")
            (set_header h (codes "Content-Type") (codes "application/json") []))) in
      let named = if name == [] then basic else set_header h (codes "Mcp-Name") name basic in
      let without_basic : lookup (h.canonical session_key) basic ≡ none =
        lookup-set_header (codes "Mcp-Method") method _ a
        ∙ lookup-set_header (codes "MCP-Protocol-Version") c.opts.protocol_version _ b
        ∙ lookup-set_header (codes "Accept") (codes "application/json, text/event-stream") _ d
        ∙ lookup-set_header (codes "Content-Type") (codes "application/json") [] e
        ∙ lookup-empty (h.canonical session_key) in
      let without : lookup (h.canonical session_key) named ≡ none = elim (Bool-cases (name == [])) [
        | inl q ↦ rw q without_basic
        | inr q ↦ rw q (lookup-set_header (codes "Mcp-Name") name basic x ∙ without_basic)
      ] in
      lookup-set_all c.opts.headers _ others
      ∙ lookup-if (not (c.session_id == []) && not (c.opts.protocol_version == protocol_latest))
          c.session_id named without

  -- The responses that arrive, in order.
  abbrev pub captured : List HttpResponse → StreamableHttpClient → StreamableHttpClient
  captured [] c = c
  captured (r ∷ rs) c = captured rs (capture_session h r c)

  -- The session that a server named last, if it has named one since the given session.
  abbrev pub latest : Bytes → List HttpResponse → Bytes
  latest session [] = session
  latest session (r ∷ rs) = latest (if r.session == [] then session else r.session) rs

  -- The session of a client is the one that was named last, and its options are as they were.
  captured-latest :
      (rs : List HttpResponse) (c : StreamableHttpClient)
      → (c.opts.protocol_version == protocol_latest) ≡ false
      → captured rs c ≡ record c { session_id = latest c.session_id rs }
  unfolding capture_session
  captured-latest [] c older = refl
  captured-latest (r ∷ rs) c older = elim (Bool-cases (r.session == [])) [
    | inl q ↦ rw (older, capture_session, q) (captured-latest rs c older)
    | inr q ↦
        rw (older, capture_session, q)
          (captured-latest rs (record c { session_id = r.session }) older)
  ]

  latest-full :
      (session : Bytes) (rs : List HttpResponse)
      → (session == []) ≡ false
      → (latest session rs == []) ≡ false
  latest-full session [] full = full
  latest-full session (r ∷ rs) full = elim (Bool-cases (r.session == [])) [
    | inl q ↦ rw q (latest-full session rs full)
    | inr q ↦ rw q (latest-full r.session rs q)
  ]

  -- When a server of an older revision starts a session in a response, the requests after it name
  -- the session, however many responses arrive in between: each names the session that a response
  -- named last, and a response that names none changes nothing. When another revision is set the
  -- next request names it still, but for the latest revision: then it names none. This is so when
  -- no header of the configuration, and none of the others that the client sets, is spelled like
  -- the session's.
  pub session-carried :
      (c : StreamableHttpClient) (r : HttpResponse) (rs : List HttpResponse)
      (method name version : Bytes)
      → All IsOther other_keys
      → All (λ entry. IsOther entry.0) c.opts.headers
      → (c.opts.protocol_version == protocol_latest) ≡ false
      → (r.session == []) ≡ false
      → let c1 = captured (r ∷ rs) c in
        (lookup (h.canonical session_key) (post_headers h c1 method name)
          ≡ some (latest r.session rs))
        × (lookup
              (h.canonical session_key)
              (post_headers h (set_protocol_version version c1) method name)
            ≡ (if version == protocol_latest then none else some (latest r.session rs)))
  unfolding capture_session set_protocol_version
  session-carried c r rs method name version keys config older starts =
      let named = latest r.session rs in
      let c1 = record c { session_id = named } in
      let full : (named == []) ≡ false = latest-full r.session rs starts in
      let reached : captured (r ∷ rs) c ≡ c1 = captured-latest (r ∷ rs) c older ∙ rw starts refl in
      let carried = lookup-post_headers c1 method name keys config ∙ rw (full, older) refl in
      rw reached (
        carried,
        elim (Bool-cases (version == [])) [
          | inl q ↦
              let empty : version ≡ [] = (eq_iff version []).0 q in
              rw (empty, set_protocol_version) carried
          | inr q ↦ elim (Bool-cases (version == protocol_latest)) [
            | inl e ↦
                rw (q, e)
                  (lookup-post_headers
                    (record c1 {
                      opts = record c1.opts { protocol_version = version };
                      session_id = [];
                    })
                    method name keys config)
            | inr e ↦
                rw (q, e)
                  (lookup-post_headers
                      (record c1 { opts = record c1.opts { protocol_version = version } }) method
                      name keys config
                    ∙ rw (full, e) refl)
          ]
        ],
      )
