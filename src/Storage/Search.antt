-- ===== src/Storage/Search.antt =====
-- internal/storage/search.go: the text of a tool that a query is looked for in. What encoding/json
-- reads in an input schema is a parameter: the keys of `properties`, in the map's order, and the
-- list `required`, or nothing where the schema is no JSON object of that form.
use lessen_mcp_gateway.Prelude.{
  ℕ, Bytes, less, to_lower, nat_eq, leb, ltb, Bool, ◌&&◌, ◌||◌, Option, none, some, List, [], ◌∷◌,
  ◌++◌, if◌then◌else◌, length, take, ◌≤◌, arith, length-take, Bool-cases, inl, inr, ltb→le,
}
use lessen_mcp_gateway.Model.{Tool, Raw}
use lessen_mcp_gateway.Storage.Sort.{sort_slice}

-- `8 << 10`
abbrev pub max_tool_search_text_bytes : ℕ
max_tool_search_text_bytes = 8192

-- `strings.Join(parts, " ")`
unfoldable pub join : List Bytes → Bytes
join [] = []
join (p ∷ []) = p
join (p ∷ q ∷ ps) = p ++ b' ' ∷ join (q ∷ ps)

-- The ASCII characters that `unicode.IsSpace` accepts.
abbrev pub is_space : ℕ → Bool
is_space c = nat_eq c b' ' || leb 9 c && leb c 13

-- `strings.TrimSpace`
abbrev trim_left : Bytes → Bytes
trim_left [] = []
trim_left (c ∷ s) = if is_space c then trim_left s else c ∷ s

abbrev pub trim_right : Bytes → Bytes
trim_right [] = []
trim_right (c ∷ s) = elim (trim_right s) [
  | [] ↦ if is_space c then [] else c ∷ []
  | x ∷ r ↦ c ∷ x ∷ r
]

unfoldable pub trim_space : Bytes → Bytes
trim_space s = trim_right (trim_left s)

-- `strings.Fields`: the runs of other characters. The first argument is the run that is being read.
unfoldable pub fields : Bytes → Bytes → List Bytes
fields [] [] = []
fields (x ∷ run) [] = (x ∷ run) ∷ []
fields [] (c ∷ s) = if is_space c then fields [] s else fields (c ∷ []) s
fields (x ∷ run) (c ∷ s) =
    let next = (x ∷ run) ∷ fields [] s in
    if is_space c then next else fields ((x ∷ run) ++ c ∷ []) s

-- `if len(text) > maxToolSearchTextBytes { text = text[:maxToolSearchTextBytes] }`
cut : Bytes → Bytes
cut text =
    if ltb max_tool_search_text_bytes (length text)
    then take max_tool_search_text_bytes text
    else text

length-cut-le : (text : Bytes) → length (cut text) ≤ max_tool_search_text_bytes
unfolding cut
length-cut-le text = elim (Bool-cases (ltb max_tool_search_text_bytes (length text))) [
  | inl e ↦ rw e (omega (arith, length-take max_tool_search_text_bytes text))
  | inr e ↦ rw e (ltb→le _ _ e)
]

module _ (schema_keys : Raw → Option (List Bytes × List Bytes)) where
  abbrev argument_names : Raw → List Bytes
  argument_names [] = []
  argument_names (c ∷ raw) = elim (schema_keys (c ∷ raw)) [
    | none ↦ []
    | some (properties, required) ↦ sort_slice less (properties ++ required)
  ]

  -- The text before it is cut.
  unfoldable pub search_document : Tool → Bytes
  unfolding join fields
  search_document tool =
      let parts =
        (tool.server_id ∷ tool.name ∷ tool.exposed_name ∷ tool.title ∷ tool.description ∷ [])
        ++ argument_names tool.input_schema in
      join (fields [] (to_lower (join parts)))

  unfoldable pub tool_search_text : Tool → Bytes
  unfolding search_document cut
  tool_search_text tool = cut (search_document tool)

  -- The search text of any tool, whatever its schema holds, has at most 8192 bytes.
  pub length-tool_search_text-le :
      (t : Tool) → length (tool_search_text t) ≤ max_tool_search_text_bytes
  unfolding tool_search_text
  length-tool_search_text-le t = length-cut-le (search_document t)
