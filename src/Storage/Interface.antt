-- ===== src/Storage/Interface.antt =====
-- internal/storage/store.go: the operations of a `storage.Store` over its state, and the laws that
-- the registry relies on.
use lessen_mcp_gateway.Prelude.{
  ℕ, Bytes, ◌==◌, ◌≡◌, List, [], ◌∷◌, Option, none, some, if◌then◌else◌,
}
use lessen_mcp_gateway.Prelude.Int.{ℤ}
use lessen_mcp_gateway.Errors.{Error, Context, Result, ok, err, not_found}
use lessen_mcp_gateway.Model.{Server, Tool, ToolSummary, Resource, ResourceTemplate, Prompt}

abbrev pub Done : Type 0
Done = Result (Unit {0})

-- A page of rows, and the number of all rows.
abbrev pub Rows : Type 0 → Type 0
Rows A = Result (List A × ℕ)

-- An operation that changes the store returns the new state beside its error.
pub record Store (S : Type 0) : Type 0 where
  pub health : S → Context → Done
  pub close : S → S
  pub upsert_server : S → Context → Server → S × Done
  pub delete_server : S → Context → Bytes → S × Done
  pub get_server : S → Context → Bytes → Result Server
  pub list_servers : S → Context → Result (List Server)
  pub replace_tools : S → Context → Bytes → List Tool → S × Done
  pub list_tool_summaries : S → Context → Bytes → Bytes → ℤ → ℤ → Rows ToolSummary
  pub get_tool : S → Context → Bytes → Bytes → Result Tool
  pub list_tools : S → Context → Bytes → Result (List Tool)
  pub list_tools_page : S → Context → Bytes → ℤ → ℤ → Rows Tool
  pub replace_resources : S → Context → Bytes → List Resource → S × Done
  pub list_resources : S → Context → Bytes → ℤ → ℤ → Rows Resource
  pub replace_resource_templates : S → Context → Bytes → List ResourceTemplate → S × Done
  pub list_resource_templates : S → Context → Bytes → ℤ → ℤ → Rows ResourceTemplate
  pub replace_prompts : S → Context → Bytes → List Prompt → S × Done
  pub list_prompts : S → Context → Bytes → ℤ → ℤ → Rows Prompt

-- The last tool of a list with a name: a later one of the same name takes the place of an earlier.
abbrev pub last_named : Bytes → List Tool → Option Tool
last_named name [] = none
last_named name (t ∷ ts) = elim (last_named name ts) [
  | some u ↦ some u
  | none ↦ if t.name == name then some t else none
]

-- How tools are read after each write. `tool_at` is what the store holds, whatever the context.
pub record ToolLaws {S : Type 0} (store : Store S) : Type 0 where
  pub tool_at : S → Bytes → Bytes → Option Tool
  pub get_tool_found :
      (s : S) (id name : Bytes) (t : Tool)
      → tool_at s id name ≡ some t
      → store.get_tool s none id name ≡ ok t
  pub get_tool_missing :
      (s : S) (id name : Bytes)
      → tool_at s id name ≡ none
      → store.get_tool s none id name ≡ err not_found
  pub get_tool_ok :
      (s : S) (ctx : Context) (id name : Bytes) (t : Tool)
      → store.get_tool s ctx id name ≡ ok t
      → tool_at s id name ≡ some t
  pub replace_tools_done :
      (s : S) (ctx : Context) (id : Bytes) (tools : List Tool) (i n : Bytes)
      → (store.replace_tools s ctx id tools).1 ≡ ok tt
      → tool_at (store.replace_tools s ctx id tools).0 i n
        ≡ (if id == i then last_named n tools else tool_at s i n)
  pub delete_server_done :
      (s : S) (ctx : Context) (id i n : Bytes)
      → (store.delete_server s ctx id).1 ≡ ok tt
      → tool_at (store.delete_server s ctx id).0 i n ≡ (if id == i then none else tool_at s i n)
  pub upsert_server_tools :
      (s : S) (ctx : Context) (server : Server) (i n : Bytes)
      → tool_at (store.upsert_server s ctx server).0 i n ≡ tool_at s i n
  -- A write that fails leaves the tools alone.
  pub replace_tools_failed :
      (s : S) (ctx : Context) (id : Bytes) (tools : List Tool) {e : Error} (i n : Bytes)
      → (store.replace_tools s ctx id tools).1 ≡ err e
      → tool_at (store.replace_tools s ctx id tools).0 i n ≡ tool_at s i n
  pub delete_server_failed :
      (s : S) (ctx : Context) (id : Bytes) {e : Error} (i n : Bytes)
      → (store.delete_server s ctx id).1 ≡ err e
      → tool_at (store.delete_server s ctx id).0 i n ≡ tool_at s i n
