-- ===== src/App/Pages/Owned.antt =====
-- Whose tools a discovery returns.
use lessen_mcp_gateway.Prelude.{
  ℕ, zero, suc, ◌≡◌, ◌⊎◌, refl, subst, Bytes, some, List, [], ◌∷◌, ◌++◌, length, leb, Bool-cases,
  inl, inr, All,
}
use lessen_mcp_gateway.Errors.{Result, ok, Result-cases}
use lessen_mcp_gateway.Model.{Time, Tool}
use lessen_mcp_gateway.Registry.Routing.{IsOf}
use lessen_mcp_gateway.App.Pages.{
  Page, take_defs, discover_pages, ToolDefinition, tool_of, discover_tools,
}

cursor_cases : (xs : Bytes) → (xs ≡ []) ⊎ ((c : ℕ) × (cs : Bytes) × (xs ≡ c ∷ cs))
cursor_cases [] = inl refl
cursor_cases (c ∷ cs) = inr (c, cs, refl)

module _ {A : Type 0} (P : A → Type 0) where
  All-snoc : (items : List A) (x : A) → All P items → P x → All P (items ++ x ∷ [])
  All-snoc [] x all p = (p, tt)
  All-snoc (y ∷ items) x all p = (all.0, All-snoc items x all.1 p)

  module _ {D : Type 0} (limit : ℕ) (convert : D → A) (each : (d : D) → P (convert d)) where
    take_defs-All :
        (defs : List D) (items out : List A)
        → All P items
        → take_defs limit convert defs items ≡ ok out
        → All P out
    unfolding take_defs
    take_defs-All [] items out all e =
        let same : items ≡ out = cc in subst (λ (l : List A). All P l) same all
    take_defs-All (d ∷ defs) items out all e = elim (Bool-cases (leb limit (length items))) [
      | inl full ↦ let bad = (rw full at e) in cc
      | inr room ↦
          take_defs-All defs (items ++ convert d ∷ []) out (All-snoc items (convert d) all (each d))
            (rw room at e)
    ]

    discover_pages-All :
        (fuel : ℕ) (call : Bytes → Result (Page D)) (cursor : Bytes) (items out : List A)
        → All P items
        → discover_pages limit convert fuel call cursor items ≡ some (ok out)
        → All P out
    unfolding discover_pages
    discover_pages-All zero call cursor items out all e = cc
    discover_pages-All (suc fuel) call cursor items out all e = elim (Result-cases (call cursor)) [
      | inr (x, fails) ↦ let bad = (rw (fails, discover_pages) at e) in cc
      | inl (page, answered) ↦ elim (Result-cases (take_defs limit convert page.items items)) [
        | inr (x, over) ↦ let bad = (rw (answered, discover_pages, over) at e) in cc
        | inl (items', taken) ↦
            let all' = take_defs-All page.items items items' all taken in
            elim (cursor_cases page.next_cursor) [
              | inl done ↦
                  let last = (rw (answered, discover_pages, taken, done) at e) in
                  let same : items' ≡ out = cc in subst (λ (l : List A). All P l) same all'
              | inr (c, cs, next) ↦
                  discover_pages-All fuel call (c ∷ cs) items' out all'
                    (rw (answered, discover_pages, taken, next) at e)
            ]
      ]
    ]

-- Whatever a server answers, and however many pages it takes: the tools that a discovery returns
-- are all filed under that server's id, with the exposed names that the routing index relies on.
pub discover_tools-IsOf :
    (id : Bytes) (now : Time) (fuel limit : ℕ) (sha256 : Bytes → Bytes)
    (call : Bytes → Result (Page ToolDefinition)) (tools : List Tool)
    → discover_tools id now fuel limit sha256 call ≡ some (ok tools)
    → All (IsOf id) tools
unfolding discover_tools tool_of
discover_tools-IsOf id now fuel limit sha256 call tools e =
    discover_pages-All (IsOf id) limit (tool_of id now sha256) (λ d. (refl, refl)) fuel call [] []
      tools tt e
