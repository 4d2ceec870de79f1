-- ===== src/Tests/Gateways.antt =====
-- Messages of a client: a batch with a notification in it.
use lessen_mcp_gateway.Prelude.{
  ◌++◌, ℕ, ◌+◌, Bytes, codes, ◌==◌, some, List, [], ◌∷◌, if◌then◌else◌,
}
use lessen_mcp_gateway.Errors.{Result, ok, err, message}
use lessen_mcp_gateway.Model.{Raw}
use lessen_mcp_gateway.Gateway.{Codec}

-- A message is the id of a ping; "." stands for a notification, and a reply for its id.
abbrev id_of : Raw → Raw
id_of [] = []
id_of (c ∷ raw) = if c ∷ raw == codes "." then [] else c ∷ raw

abbrev pings : Codec
pings = record {
  decode_base = λ raw. ok (record { jsonrpc = codes "2.0"; method = codes "ping" });
  decode_request = λ raw.
      ok (record { jsonrpc = codes "2.0"; id = id_of raw; method = codes "ping"; params = [] });
  decode_response = λ raw. err (message (codes "not a response"));
  decode_params = λ raw. ok [];
  decode_meta = λ raw. err (message (codes "no metadata"));
  decode_batch = λ raw. some (codes "1" ∷ codes "." ∷ codes "2" ∷ []);
  marshal = λ r. codes "#" ++ r.id;
  marshal_batch = λ replies. codes "[#1,#2]";
  decode_object = λ raw. ok [];
  marshal_object = λ m. codes "{}";
}

-- The state counts the calls.
abbrev count : ℕ → Bytes → Raw → ℕ × Result Raw
count n method params = (n + 1, ok (codes "{}"))

abbrev batch : List Raw
batch = codes "1" ∷ codes "." ∷ codes "2" ∷ []
