-- ===== src/Mcp/Meta/Reads.antt =====
-- What internal/mcp/protocol.go reads back of what it adds to a request.
use lessen_mcp_gateway.Prelude.{
  ◌&&◌, Option, none, if◌then◌else◌, ◌≡◌, Bytes, codes, ◌==◌, not, some, [], Map, lookup,
}
use lessen_mcp_gateway.Errors.{ok, err}
use lessen_mcp_gateway.Model.{Raw}
use lessen_mcp_gateway.Mcp.Protocol.{ClientInfo}
use lessen_mcp_gateway.Mcp.Meta.{
  Json, object_of, meta_protocol_version, meta_client_info, meta_client_capabilities,
}

module _ (json : Json) where
  -- What is known under a key of metadata that are given, where there are any and they are an
  -- object.
  abbrev pub given_value : Option Raw → Bytes → Option Raw
  given_value none key = none
  given_value (some raw) key = elim (object_of json raw) [ err e ↦ none | ok m ↦ lookup key m ]

  -- `out` is what was given, but for its metadata, which are `marked`: those that were given, with
  -- the three of the gateway in their place.
  abbrev pub Added : Bytes → ClientInfo → Raw → Map Raw → Map Raw → Type 0
  Added protocol info capabilities given out =
      (marked : Map Raw) × ((key : Bytes)
        → lookup key out
          ≡ (if codes "_meta" == key then some (json.encode_object marked) else lookup key given))
      × ((key : Bytes)
          → lookup key marked ≡ (
              if meta_client_capabilities == key
              then some capabilities
              else if not (info.name == [] && info.version == []) && meta_client_info == key
              then some (json.encode_info info)
              else if meta_protocol_version == key
              then some (json.encode_string protocol)
              else given_value (lookup (codes "_meta") given) key))
