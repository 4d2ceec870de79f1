-- ===== src/Config/Validate/Names.antt =====
-- What validated server names are good for: they have no slash, so the registry's cache keys tell
-- them apart, and they may have two underscores in a row.
use lessen_mcp_gateway.Prelude.{Bytes, codes, ◌≡◌, refl, true, [], ◌∷◌, ◌++◌, arith, all}
use lessen_mcp_gateway.Errors.{ok}
use lessen_mcp_gateway.Config.Validate.{name_char, validate_server_name}
use lessen_mcp_gateway.Registry.Coherent.Keys.{NoSlash}

pub NoSlash-name_char : (s : Bytes) → all name_char s ≡ true → NoSlash s
NoSlash-name_char [] h = refl
NoSlash-name_char (c ∷ s) h = ground (arith, NoSlash-name_char s)

-- A name that `ValidateServerName` accepts has no slash.
pub validate_server_name-NoSlash : (name : Bytes) → validate_server_name name ≡ ok tt → NoSlash name
unfolding validate_server_name
validate_server_name-NoSlash [] h = refl
validate_server_name-NoSlash (c ∷ name) h = NoSlash-name_char (c ∷ name) (ground arith)

all_append :
    (s t : Bytes) → all name_char s ≡ true → all name_char t ≡ true → all name_char (s ++ t) ≡ true
all_append [] t h k = k
all_append (c ∷ s) t h k = ground (arith, all_append s t)

-- Two accepted names with "__" between them are an accepted name.
pub validate_server_name-append :
    (a b : Bytes)
    → validate_server_name a ≡ ok tt
    → validate_server_name b ≡ ok tt
    → validate_server_name (a ++ codes "__" ++ b) ≡ ok tt
unfolding validate_server_name
validate_server_name-append [] b h k = cc
validate_server_name-append (c ∷ a) [] h k = cc
validate_server_name-append (c ∷ a) (d ∷ b) h k =
    ground (arith, all_append (a ++ codes "__") (d ∷ b), all_append a (codes "__"))
