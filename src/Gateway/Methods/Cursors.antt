-- ===== src/Gateway/Methods/Cursors.antt =====
-- A client that follows the cursors of `listTools`.
use lessen_mcp_gateway.Prelude.{
  ℕ, zero, suc, ◌≤◌, ◌<◌, ◌≡◌, Bytes, Option, none, some, List, [], ◌++◌, take, drop, length,
}
use lessen_mcp_gateway.Prelude.Int.{pos, int_end}
use lessen_mcp_gateway.Errors.{Context, Result, ok, err}
use lessen_mcp_gateway.Model.{Raw, Tool}
use lessen_mcp_gateway.App.Pages.{ToolDefinition}
use lessen_mcp_gateway.Gateway.Uris.{Urls}
use lessen_mcp_gateway.Gateway.Methods.{
  Backing, Texts, page_size, cursor_offset, next_cursor, tools_page,
}

module _ {M : Type 0} (backing : Backing M) (texts : Texts) (urls : Urls) (m : M) (ctx : Context)
    (with_cursor : Bytes → Raw) where
  -- The pages from some parameters on, with a number of requests; `with_cursor` is how the client
  -- writes a cursor into the next request.
  unfoldable pub follow : ℕ → Raw → Option (Result (List ToolDefinition))
  follow zero params = none
  follow (suc requests) params = elim (tools_page backing texts urls m ctx params) [
    | err e ↦ some (err e)
    | ok page ↦ elim page.next_cursor [
      | none ↦ some (ok page.items)
      | some cursor ↦ elim (follow requests (with_cursor cursor)) [
        | none ↦ none
        | some (err e) ↦ some (err e)
        | some (ok items) ↦ some (ok (page.items ++ items))
      ]
    ]
  ]

  -- The manager pages over all tools, and a number that strconv writes is read back, also from a
  -- client's request.
  pub record Paged (all : List Tool) : Type 0 where
    pub pages :
        (offset : ℕ)
        → offset ≤ length all
        → backing.list_tools_page m ctx [] page_size (pos offset)
          ≡ ok (take 200 (drop offset all), length all)
    pub few : length all < int_end
    pub reads_cursor :
        (n : ℕ)
        → n < int_end
        → cursor_offset backing texts urls (with_cursor (texts.itoa (pos n))) ≡ n
