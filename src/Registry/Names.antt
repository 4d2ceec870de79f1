-- ===== src/Registry/Names.antt =====
-- The exposed names "<server>__<tool>" of registry.go: printing, parsing, and where they collide.
use lessen_mcp_gateway.Prelude.{
  Bytes, codes, ◌==◌, ◌≡◌, ◌↔◌, refl, ◌||◌, none, some, [], ◌∷◌, ◌++◌, if◌then◌else◌, arith,
  has_prefix, cut, ◌≢◌,
}
use mathlib.Core.List.{append_assoc}
use lessen_mcp_gateway.Errors.{Result, ok, err, message}

-- `ExposedToolName`
unfoldable pub exposed_tool_name : Bytes → Bytes → Bytes
exposed_tool_name server_id tool_name = server_id ++ codes "__" ++ tool_name

-- `ParseExposedToolName`
unfoldable pub parse_exposed_tool_name : Bytes → Result (Bytes × Bytes)
parse_exposed_tool_name value = elim (cut value (codes "__")) [
  | none ↦ err (message (codes "invalid namespaced tool name"))
  | some (server, name) ↦
      if server == [] || name == []
      then err (message (codes "invalid namespaced tool name"))
      else ok (server, name)
]

-- No two underscores in a row, also with one more underscore behind the name.
abbrev pub Plain : Bytes → Type 0
Plain s = cut (s ++ codes "_") (codes "__") ≡ none

cut_at_end : (s n : Bytes) → Plain s → cut (s ++ codes "__" ++ n) (codes "__") ≡ some (s, n)
unfolding cut has_prefix
cut_at_end [] n p = ground arith
cut_at_end (c ∷ []) n p = ground arith
cut_at_end (c ∷ d ∷ s) n p = ground (arith, cut_at_end (d ∷ s) n)

Plain-cut : (s n : Bytes) → cut (s ++ codes "__" ++ n) (codes "__") ≡ some (s, n) → Plain s
unfolding cut has_prefix
Plain-cut [] n p = ground arith
Plain-cut (c ∷ []) n p = ground arith
Plain-cut (c ∷ d ∷ s) n p = ground (arith, Plain-cut (d ∷ s) n)

-- The exposed name of a server and a tool, neither empty, is parsed back to the two exactly when
-- the server's name has no two underscores in a row and does not end in one.
pub parse_exposed_tool_name-exposed_tool_name :
    (s n : Bytes)
    → s ≢ []
    → n ≢ []
    → (parse_exposed_tool_name (exposed_tool_name s n) ≡ ok (s, n)) ↔ Plain s
unfolding parse_exposed_tool_name exposed_tool_name ◌==◌
parse_exposed_tool_name-exposed_tool_name [] n hs hn = absurd (hs refl)
parse_exposed_tool_name-exposed_tool_name (c ∷ s) [] hs hn = absurd (hn refl)
parse_exposed_tool_name-exposed_tool_name (c ∷ s) (d ∷ n) hs hn = (
  λ h. Plain-cut (c ∷ s) (d ∷ n) (ground arith),
  λ p. rw (parse_exposed_tool_name, cut_at_end (c ∷ s) (d ∷ n) p),
)

-- Exposed names are not unique: tool "b__c" of server "a" has the exposed name of tool "c" of
-- server "a__b".
pub exposed_tool_name_collision :
    (a b c : Bytes)
    → exposed_tool_name a (b ++ codes "__" ++ c) ≡ exposed_tool_name (a ++ codes "__" ++ b) c
unfolding exposed_tool_name
exposed_tool_name_collision a b c = simp append_assoc
