-- ===== src/Gateway/Dispatch/Routes.antt =====
-- What internal/gateway/gateway.go lists can be used: a resource and a prompt lead to their
-- servers.
use lessen_mcp_gateway.Prelude.{inl, inr, ◌≢◌, ◌≡◌, refl, Bytes, codes, ◌==◌, false, [], ◌∷◌}
use lessen_mcp_gateway.Errors.{Error, Context, ok, ◌>>=◌, Result-cases}
use lessen_mcp_gateway.Model.{Raw, Resource, Prompt}
use lessen_mcp_gateway.Registry.Names.{Plain, parse_exposed_tool_name-exposed_tool_name}
use lessen_mcp_gateway.Gateway.Uris.{Urls, encode_resource_uri}
use lessen_mcp_gateway.Gateway.Uris.Back.{UrlLaws, decode_resource_uri-encode_resource_uri}
use lessen_mcp_gateway.Gateway.Methods.{Backing, Texts, resource_entry, prompt_entry}
use lessen_mcp_gateway.Gateway.Dispatch.{read_resource, rewrite_resource_result_uris, get_prompt}

module _ {M : Type 0} (backing : Backing M) (texts : Texts) (urls : Urls)
    (error_text : Error → Bytes) (name version : Bytes) where
  -- To read a resource under the URI that the gateway lists it with asks the resource's own server
  -- for the resource's own URI, once: the new state is the one that this call leaves, and the reply
  -- is the server's with its URIs rewritten for that server, or its error. The server's name is one
  -- that net/url leaves as it is, and the base64 text of the URI is not the word that marks a
  -- template.
  pub read_resource-listed :
      (IsName : Bytes → Type 0) (laws : UrlLaws urls IsName) (m : M) (ctx : Context) (params : Raw)
      (item : Resource)
      → IsName item.server_id
      → (urls.encode_base64 item.uri == codes "template") ≡ false
      → texts.uri_of params ≡ ok (resource_entry backing texts urls item).uri
      → let (m', reply) =
          backing.call_server m ctx item.server_id
            (codes "resources/read")
            ((codes "uri", texts.encode_string item.uri) ∷ []) in
        read_resource backing texts urls error_text name version m ctx params ≡ (
          m',
          reply
              >>= rewrite_resource_result_uris backing texts urls error_text name version
                  item.server_id,
        )
  unfolding read_resource resource_entry encode_resource_uri
  read_resource-listed IsName laws m ctx params item named other asked =
      let back =
        (decode_resource_uri-encode_resource_uri urls IsName laws item.server_id item.uri named).0
          other in
      let reply =
        (backing.call_server m ctx item.server_id (codes "resources/read")
          ((codes "uri", texts.encode_string item.uri) ∷ [])).1 in
      elim (Result-cases reply) [
        | inl (result, answers) ↦ rw (asked, read_resource, back, answers) refl
        | inr (e, fails) ↦ rw (asked, read_resource, back, fails) refl
      ]

  -- To get a prompt under the name that the gateway lists it with asks the prompt's own server for
  -- the prompt's own name, when the server's name has no two underscores in a row and does not end
  -- in one, and neither name is empty.
  pub get_prompt-listed :
      (m : M) (ctx : Context) (params arguments : Raw) (item : Prompt)
      → Plain item.server_id
      → item.server_id ≢ []
      → item.name ≢ []
      → texts.prompt_of params ≡ ok ((prompt_entry backing texts urls item).name, arguments)
      → get_prompt backing texts urls error_text name version m ctx params
        ≡ backing.call_server m ctx item.server_id
            (codes "prompts/get")
            ((codes "name", texts.encode_string item.name) ∷ (codes "arguments", arguments) ∷ [])
  unfolding get_prompt prompt_entry
  get_prompt-listed m ctx params arguments item plain server prompt asked =
      let parsed =
        (parse_exposed_tool_name-exposed_tool_name item.server_id item.name server prompt).1
          plain in
      rw (asked, get_prompt, parsed) refl
