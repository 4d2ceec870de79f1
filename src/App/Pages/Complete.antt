-- ===== src/App/Pages/Complete.antt =====
-- What a discovery returns: everything that the server lists, in order, or the error of its limit.
use lessen_mcp_gateway.Prelude.{
  ℕ, zero, suc, ◌≤◌, ◌<◌, ◌≡◌, ◌≢◌, refl, ap, sym, ◌∙◌, Bytes, codes, some, List, [], ◌∷◌, ◌++◌,
  map, if◌then◌else◌, length, leb, arith, Bool-cases, inl, inr, length-append,
}
use mathlib.Core.List.{append_assoc, append-nil, map-append}
use lessen_mcp_gateway.Errors.{Result, ok, err, message}
use lessen_mcp_gateway.Model.{Time}
use lessen_mcp_gateway.App.Pages.{
  Page, take_defs, discover_pages, ToolDefinition, tool_of, discover_tools,
}

-- A list, or the error that it has more than the limit's elements.
unfoldable pub within : {A : Type 0} → ℕ → List A → Result (List A)
within limit xs =
    if leb (length xs) limit then ok xs else err (message (codes "server exceeds its limit"))

module _ {D : Type 0} where
  -- The server answers the cursor with a first page, that page's cursor with the next, and so on.
  unfoldable pub Serves : (Bytes → Result (Page D)) → Bytes → Page D → List (Page D) → Type 0
  Serves call cursor p [] = (call cursor ≡ ok p) × (p.next_cursor ≡ [])
  Serves call cursor p (q ∷ ps) =
      (call cursor ≡ ok p) × (p.next_cursor ≢ []) × Serves call p.next_cursor q ps

  unfoldable pub listed : Page D → List (Page D) → List D
  listed p [] = p.items
  listed p (q ∷ ps) = p.items ++ listed q ps

within_ok : {A : Type 0} (limit : ℕ) (xs : List A) → length xs ≤ limit → within limit xs ≡ ok xs
unfolding within
within_ok limit xs h = ground arith

within_over :
    {A : Type 0} (limit : ℕ) (xs : List A)
    → limit < length xs
    → within limit xs ≡ err (message (codes "server exceeds its limit"))
unfolding within
within_over limit xs h = ground arith

nonempty : (xs : Bytes) → xs ≢ [] → (c : ℕ) × (cs : Bytes) × (xs ≡ c ∷ cs)
nonempty [] h = ground (arith, h)
nonempty (x ∷ xs) h = (x, xs, refl)

within_err :
    {A : Type 0} (limit : ℕ) (xs ys : List A)
    → limit < length xs
    → within limit (xs ++ ys) ≡ err (message (codes "server exceeds its limit"))
unfolding within
within_err limit xs ys h = let e = length-append xs ys in ground arith

module _ {D A : Type 0} (limit : ℕ) (convert : D → A) where
  take_defs_lem :
      (defs : List D) (items : List A)
      → length items ≤ limit
      → take_defs limit convert defs items ≡ within limit (items ++ map convert defs)
  unfolding take_defs
  take_defs_lem [] items h = rw (append-nil items) (sym (within_ok limit items h))
  take_defs_lem (d ∷ defs) items h =
      let e = append_assoc items (convert d ∷ []) (map convert defs) in
      let l = length-append items (convert d ∷ []) in
      elim (Bool-cases (leb limit (length items))) [
        | inl full ↦ rw full (
            sym (
              ap (within limit) (sym e)
              ∙ within_err limit (items ++ convert d ∷ []) (map convert defs) (ground (arith, l))))
        | inr room ↦
            rw room (
              take_defs_lem defs (items ++ convert d ∷ []) (ground (arith, l))
              ∙ ap (within limit) e)
      ]

  discover_pages_lem :
      (call : Bytes → Result (Page D)) (cursor : Bytes) (p : Page D) (ps : List (Page D)) (fuel : ℕ)
      (items : List A)
      → Serves call cursor p ps
      → length items ≤ limit
      → length ps < fuel
      → discover_pages limit convert fuel call cursor items
        ≡ some (within limit (items ++ map convert (listed p ps)))
  unfolding discover_pages Serves listed
  discover_pages_lem call cursor p [] zero items s h enough = ground arith
  discover_pages_lem call cursor p [] (suc fuel) items s h enough =
      rw (s.0, discover_pages, take_defs_lem p.items items h)
        (elim (Bool-cases (leb (length (items ++ map convert p.items)) limit)) [
          | inl fits ↦ rw (within_ok limit (items ++ map convert p.items) (ground arith), s.1) refl
          | inr over ↦ rw (within_over limit (items ++ map convert p.items) (ground arith)) refl
        ])
  discover_pages_lem call cursor p (q ∷ ps) zero items s h enough = ground arith
  discover_pages_lem call cursor p (q ∷ ps) (suc fuel) items s h enough =
      let e = append_assoc items (map convert p.items) (map convert (listed q ps)) in
      let m = ap (λ ys. items ++ ys) (map-append convert p.items (listed q ps)) in
      rw (s.0, discover_pages, take_defs_lem p.items items h)
        (elim (Bool-cases (leb (length (items ++ map convert p.items)) limit)) [
          | inl fits ↦
              let (c, cs, next) = nonempty p.next_cursor s.1 in
              let ih =
                discover_pages_lem call p.next_cursor q ps fuel (items ++ map convert p.items) s.2
                  (ground arith) (omega arith) in
              rw (within_ok limit (items ++ map convert p.items) (ground arith), next)
                ((rw next at ih) ∙ ap (λ xs. some (within limit xs)) (e ∙ sym m))
          | inr over ↦ rw (within_over limit (items ++ map convert p.items) (ground arith)) (
              ap some (
                sym (
                  ap (within limit) (m ∙ sym e)
                  ∙ within_err limit (items ++ map convert p.items) (map convert (listed q ps))
                      (ground arith))))
        ])

-- A server answers the first call, the call with that page's cursor, and so on to a page without a
-- cursor. With fuel for these pages, the discovery of its tools returns every tool that it lists,
-- in order and under the server's id, when they are at most the limit, and an error when they are
-- more.
pub discover_tools_lem :
    (id : Bytes) (now : Time) (fuel limit : ℕ) (sha256 : Bytes → Bytes)
    (call : Bytes → Result (Page ToolDefinition)) (p : Page ToolDefinition)
    (ps : List (Page ToolDefinition))
    → Serves call [] p ps
    → length ps < fuel
    → discover_tools id now fuel limit sha256 call
      ≡ some (within limit (map (tool_of id now sha256) (listed p ps)))
unfolding discover_tools
discover_tools_lem id now fuel limit sha256 call p ps s enough =
    discover_pages_lem limit (tool_of id now sha256) call [] p ps fuel [] s (omega arith) enough
