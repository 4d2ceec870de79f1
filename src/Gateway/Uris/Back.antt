-- ===== src/Gateway/Uris/Back.antt =====
-- A resource URI of the gateway leads back to its server and resource.
use lessen_mcp_gateway.Prelude.{
  ◌≡◌, refl, ap, ◌∙◌, Bytes, codes, ◌==◌, true, false, not, [], ◌∷◌, ◌++◌, all, nat_eq, arith,
}
use lessen_mcp_gateway.Errors.{ok, err, message}
use lessen_mcp_gateway.Gateway.Uris.{
  Urls, scheme_name, encode_resource_uri, decode_resource_uri, trim_slashes, trim_slashes_right,
  trim_slashes_left,
}

-- What the code relies on in net/url and encoding/base64, for the names of servers at hand: such a
-- name is written in a path and read as a host as it is, and a text in base64 has no slash.
pub record UrlLaws (urls : Urls) (IsName : Bytes → Type 0) : Type 0 where
  pub escapes : (name : Bytes) → IsName name → urls.path_escape name ≡ name
  pub not_empty : (name : Bytes) → IsName name → (name == []) ≡ false
  pub decodes : (text : Bytes) → urls.decode_base64 (urls.encode_base64 text) ≡ ok text
  pub no_slash : (text : Bytes) → all (λ c. not (nat_eq c b'/')) (urls.encode_base64 text) ≡ true
  pub parses :
      (name text : Bytes)
      → IsName name
      → urls.parse (codes "mcp-gateway://" ++ name ++ codes "/" ++ urls.encode_base64 text)
        ≡ ok (record {
          scheme = scheme_name;
          host = name;
          path = b'/' ∷ urls.encode_base64 text;
          escaped_path = b'/' ∷ urls.encode_base64 text;
          query = [];
        })

abbrev NoSlashes : Bytes → Type 0
NoSlashes s = all (λ c. not (nat_eq c b'/')) s ≡ true

trim_right-plain : (s : Bytes) → NoSlashes s → trim_slashes_right s ≡ s
trim_right-plain [] h = refl
trim_right-plain (c ∷ []) h = ground arith
trim_right-plain (c ∷ d ∷ s) h = rw (trim_right-plain (d ∷ s) (ground arith)) refl

trim_left-plain : (s : Bytes) → NoSlashes s → trim_slashes_left s ≡ s
trim_left-plain [] h = refl
trim_left-plain (c ∷ s) h = ground arith

trim_slashes-plain : (s : Bytes) → NoSlashes s → trim_slashes (b'/' ∷ s) ≡ s
unfolding trim_slashes
trim_slashes-plain s h = rw (trim_left-plain s h) (trim_right-plain s h)

-- A resource URI that the gateway gives out is read back as the server and the resource that it was
-- made of, unless the base64 text of the resource is the word that marks a template; that one is
-- refused.
pub decode_resource_uri-encode_resource_uri :
    (urls : Urls) (IsName : Bytes → Type 0) (laws : UrlLaws urls IsName)
    (server_id original : Bytes)
    → IsName server_id
    → ((urls.encode_base64 original == codes "template") ≡ false
        → decode_resource_uri urls (encode_resource_uri urls server_id original)
          ≡ ok (server_id, original))
      × ((urls.encode_base64 original == codes "template") ≡ true
          → decode_resource_uri urls (encode_resource_uri urls server_id original)
            ≡ err (message (codes "invalid gateway resource template URI")))
unfolding decode_resource_uri encode_resource_uri ◌==◌
decode_resource_uri-encode_resource_uri urls IsName laws server_id original named =
    let encoded = urls.encode_base64 original in
    let uri : encode_resource_uri urls server_id original
        ≡ codes "mcp-gateway://" ++ server_id ++ codes "/" ++ encoded =
      rw (laws.escapes server_id named) refl in
    let reads = ap urls.parse uri ∙ laws.parses server_id original named in
    let path = trim_slashes-plain encoded (laws.no_slash original) in
    let host = laws.not_empty server_id named in
    (
      λ e. rw (reads, decode_resource_uri, host, path, e, laws.decodes original) refl,
      λ e. rw (reads, decode_resource_uri, host, path, e) refl,
    )
