-- ===== src/Gateway/Uris.antt =====
-- The resource URIs of internal/gateway/gateway.go. net/url and encoding/base64 are parameters.
pub mod Back
use lessen_mcp_gateway.Prelude.{
  Bytes, codes, ◌==◌, Bool, true, false, not, ◌||◌, Option, none, some, List, [], ◌∷◌, ◌++◌,
  if◌then◌else◌, nat_eq, has_prefix, drop, length,
}
use lessen_mcp_gateway.Errors.{Error, Result, ok, err, message, ◌>>=◌}

-- What `url.Parse` finds: `query` is the value of `uri` in the query, empty where there is none.
pub record Url : Type 0 where
  pub scheme : Bytes
  pub host : Bytes
  pub path : Bytes
  pub escaped_path : Bytes
  pub query : Bytes

pub record Urls : Type 0 where
  pub parse : Bytes → Result Url
  pub path_escape : Bytes → Bytes
  pub query_escape : Bytes → Bytes
  pub encode_base64 : Bytes → Bytes
  pub decode_base64 : Bytes → Result Bytes

abbrev pub scheme_name : Bytes
scheme_name = codes "mcp-gateway"

-- `strings.ReplaceAll(s, old, new)` for an `old` of three characters.
unfoldable pub replace_all : Bytes → Bytes → Bytes → Bytes
replace_all old new [] = []
replace_all old new (a ∷ []) = a ∷ []
replace_all old new (a ∷ b ∷ []) = a ∷ b ∷ []
replace_all old new (a ∷ b ∷ c ∷ s) =
    let skipped = new ++ replace_all old new s in
    let kept = a ∷ replace_all old new (b ∷ c ∷ s) in
    if (a ∷ b ∷ c ∷ []) == old then skipped else kept

-- `strings.Trim(s, "/")`
abbrev pub trim_slashes_left : Bytes → Bytes
trim_slashes_left [] = []
trim_slashes_left (c ∷ s) = if nat_eq c b'/' then trim_slashes_left s else c ∷ s

abbrev pub trim_slashes_right : Bytes → Bytes
trim_slashes_right [] = []
trim_slashes_right (c ∷ s) = elim (trim_slashes_right s) [
  | [] ↦ if nat_eq c b'/' then [] else c ∷ []
  | d ∷ r ↦ c ∷ d ∷ r
]

unfoldable pub trim_slashes : Bytes → Bytes
trim_slashes s = trim_slashes_right (trim_slashes_left s)

-- `strings.TrimPrefix(s, "/")`
abbrev pub trim_slash : Bytes → Bytes
trim_slash [] = []
trim_slash (c ∷ s) = if nat_eq c b'/' then s else c ∷ s

module _ (urls : Urls) where
  unfoldable pub encode_resource_uri : Bytes → Bytes → Bytes
  encode_resource_uri server_id original =
      codes "mcp-gateway://"
      ++ urls.path_escape server_id
      ++ codes "/"
      ++ urls.encode_base64 original

  unfoldable pub encode_resource_template_uri : Bytes → Bytes → Bytes
  unfolding replace_all
  encode_resource_template_uri server_id original =
      codes "mcp-gateway://"
      ++ urls.path_escape server_id
      ++ codes "/template?uri="
      ++ replace_all (codes "%7D") (codes "}")
          (replace_all (codes "%7B") (codes "{") (urls.query_escape original))

  unfoldable pub decode_resource_uri : Bytes → Result (Bytes × Bytes)
  unfolding trim_slashes ◌==◌
  decode_resource_uri value = elim (urls.parse value) [
    | err e ↦ err e
    | ok parsed ↦
        if not (parsed.scheme == scheme_name) || parsed.host == []
        then err (message (codes "resource URI is not managed by this gateway"))
        else if trim_slashes parsed.path == codes "template"
        then (if parsed.query == []
            then err (message (codes "invalid gateway resource template URI"))
            else ok (parsed.host, parsed.query))
        else elim (urls.decode_base64 (trim_slash parsed.escaped_path)) [
          | err e ↦ err (message (codes "invalid gateway resource URI"))
          | ok original ↦ ok (parsed.host, original)
        ]
  ]
