-- ===== src/Storage/Page.antt =====
-- `page` of internal/storage/memory.go, with Go's slices and 64-bit sums, and what a client sees
-- that follows the offsets.
use lessen_mcp_gateway.Prelude.{
  ℕ, ◌+◌, ◌-◌, ◌≤◌, ◌<◌, ◌≡◌, ◌&&◌, List, [], arith, if◌then◌else◌, length, take, drop, ltb, leb,
  take_enough, drop_past, length-drop, Bool-cases, inl, inr,
}
use lessen_mcp_gateway.Prelude.Int.{ℤ, pos, negsuc, clip, int_end, add_int, above, not_positive}
use lessen_mcp_gateway.Errors.{Result, ok, err, panicked}

-- `if limit <= 0 { limit = 200 }`
abbrev pub page_limit : ℤ → ℕ
page_limit limit = if not_positive limit then 200 else clip limit

module _ {A : Type 0} where
  -- `items[lo:hi]`, which panics unless 0 <= lo <= hi <= len(items).
  unfoldable pub slice : List A → ℤ → ℤ → Result (List A)
  slice items (pos lo) (pos hi) =
      if leb lo hi && leb hi (length items)
      then ok (take (hi - lo) (drop lo items))
      else err panicked
  slice items (pos lo) (negsuc hi) = err panicked
  slice items (negsuc lo) hi = err panicked

  -- The end of both listings: `if offset > total`, the sum, `if end > total`, and the slice.
  unfoldable pub window : List A → ℕ → ℤ → Result (List A × ℕ)
  unfolding slice
  window items limit offset =
      let total = length items in
      let offset' = if above offset total then pos total else offset in
      let end = add_int offset' limit in
      let end' = if above end total then pos total else end in
      elim (slice items offset' end') [ ok rows ↦ ok (rows, total) | err e ↦ err e ]

  unfoldable pub page : List A → ℤ → ℤ → Result (List A × ℕ)
  unfolding window
  page items limit offset =
      window items (page_limit limit) (elim offset [ pos n ↦ pos n | negsuc _ ↦ pos 0 ])

  slice-rows :
      (items : List A) (lo hi : ℕ)
      → lo ≤ hi
      → hi ≤ length items
      → slice items (pos lo) (pos hi) ≡ ok (take (hi - lo) (drop lo items))
  unfolding slice
  slice-rows items lo hi h k = ground arith

  -- With a positive limit, an offset that is not negative, and a number of rows that with the limit
  -- stays below 2^63, the page is the rows from the offset on, at most the limit of them, and the
  -- number of all rows.
  pub window_lem :
      (items : List A) (limit offset : ℕ)
      → 0 < limit
      → length items + limit < int_end
      → window items limit (pos offset) ≡ ok (take limit (drop offset items), length items)
  unfolding window
  window_lem items limit offset h fits = elim (Bool-cases (ltb (length items) offset)) [
    | inl past ↦ ground (
      arith,
      past,
      slice-rows items (length items) (length items),
      take_enough {A = A} (length items - length items) limit [],
      drop_past (length items) items,
      drop_past offset items,
    )
    | inr within ↦ ground (
      arith,
      within,
      slice-rows items offset (length items),
      slice-rows items offset (offset + limit),
      take_enough (length items - offset) limit (drop offset items),
      length-drop offset items,
    )
  ]
