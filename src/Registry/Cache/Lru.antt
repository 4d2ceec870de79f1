-- ===== src/Registry/Cache/Lru.antt =====
-- An ideal cache: a limit, and the entries, most recently used first. It has no map, no byte
-- counter and no loop. The cache of cache.go computes the same replies, and holds the same entries.
use lessen_mcp_gateway.Prelude.{
  ◌∙◌, ℕ, zero, suc, ◌-◌, ◌≤◌, ◌<◌, ◌≡◌, refl, ap, sym, Bytes, Option, none, some, List, [], ◌∷◌,
  length, last, but_last, arith, if◌then◌else◌, Bool-cases, inl, inr, Option-cases, leb, ltb,
  length-but_last, ltb→lt, ltb→le,
}
use lessen_mcp_gateway.Model.{Tool}
use lessen_mcp_gateway.Registry.Cache
use lessen_mcp_gateway.Registry.Cache.{
  CacheEntry, ToolCache, at_least, estimate_tool_bytes, find, without, drop_back, evict, store,
  total,
}
use lessen_mcp_gateway.Registry.Cache.Lists.{
  has, find-has, find-key, find-none, without_absent, last-none, length_of_last,
}
use lessen_mcp_gateway.Registry.Cache.Linked.{
  Linked, IsValid, drop_back-Linked, store-Linked, put-IsValid, get-IsValid, set_max_bytes-IsValid,
}

pub record Lru : Type 0 where
  pub limit : ℕ
  pub entries : List CacheEntry

-- The longest run of entries, from the front, that fits a budget.
unfoldable pub fit : ℕ → List CacheEntry → List CacheEntry
fit budget [] = []
fit budget (e ∷ l) = if leb e.size budget then e ∷ fit (budget - e.size) l else []

abbrev pub entry : Bytes → Tool → CacheEntry
entry key tool = record { key = key; tool = tool; size = estimate_tool_bytes tool }

pub data Call : Type 0 where
  get : Bytes → Call
  put : Bytes → Tool → Call
  limit : ℕ → Call

unfoldable pub reply : Lru → Call → Option Tool
reply s (get key) = elim (find key s.entries) [ none ↦ none | some e ↦ some e.tool ]
reply s _ = none

unfoldable pub after : Lru → Call → Lru
after s (get key) = elim (find key s.entries) [
  | none ↦ s
  | some e ↦ record s { entries = e ∷ without key s.entries }
]
after s (put key tool) = record s { entries = fit s.limit (entry key tool ∷ without key s.entries) }
after s (limit max) = record { limit = at_least max; entries = fit (at_least max) s.entries }

-- What an ideal cache answers to a sequence of calls, and what is in it at the end.
unfoldable pub ideal : Lru → List Call → List (Option Tool) × Lru
ideal s [] = ([], s)
ideal s (call ∷ calls) =
    let (replies, end) = ideal (after s call) calls in (reply s call ∷ replies, end)

abbrev pub view : ToolCache → Lru
view c = record { limit = c.max_bytes; entries = c.order }

-- One call of the cache.
unfoldable pub step : ToolCache → Call → ToolCache × Option Tool
step c (get key) = Cache.get c key
step c (put key tool) = (Cache.put c key tool, none)
step c (limit max) = (Cache.set_max_bytes c max, none)

unfoldable pub run : ToolCache → List Call → List (Option Tool) × ToolCache
run c [] = ([], c)
run c (call ∷ calls) =
    let (c', answer) = step c call in let (replies, end) = run c' calls in (answer ∷ replies, end)

fit_all : (b : ℕ) (l : List CacheEntry) → total l ≤ b → fit b l ≡ l
unfolding fit total
fit_all b [] h = refl
fit_all b (e ∷ l) h = ground (arith, fit_all (b - e.size) l)

fit-but_last :
    (b : ℕ) (l : List CacheEntry) {x : CacheEntry}
    → last l ≡ some x
    → b < total l
    → fit b l ≡ fit b (but_last l)
unfolding fit total
fit-but_last b [] h over = cc
fit-but_last b (e ∷ []) h over = ground arith
fit-but_last b (e ∷ y ∷ l) {x} h over = ground (arith, fit-but_last (b - e.size) (y ∷ l) {x = x} h)

-- The loop from the back leaves what fits from the front.
order-evict :
    (n : ℕ) (c : ToolCache)
    → Linked c
    → length c.order ≤ n
    → (evict n c).order ≡ fit c.max_bytes c.order
unfolding evict drop_back total fit
order-evict zero c v h = elim (Option-cases (last c.order)) [
  | inl e ↦ rw (last-none c.order e) refl
  | inr (b, e) ↦ absurd (omega (arith, length_of_last c.order e, h))
]
order-evict (suc n) c v h = elim (Option-cases (last c.order)) [
  | inl e ↦ rw (e, evict) (sym (fit_all _ _ (omega (arith, ap total (last-none c.order e)))))
  | inr (b, e) ↦ elim (Bool-cases (ltb c.max_bytes c.bytes)) [
    | inl over ↦
        rw (e, over, evict)
          (order-evict n (drop_back c b) (drop_back-Linked c b v e)
              (omega (arith, length-but_last c.order, h))
            ∙ sym (fit-but_last c.max_bytes c.order e (omega (arith, v.counted, ltb→lt _ _ over))))
    | inr fits ↦ rw (e, fits, evict) (sym (fit_all _ _ (omega (arith, v.counted, ltb→le _ _ fits))))
  ]
]

order-store :
    (c : ToolCache) (k : Bytes) (t : Tool) (size : ℕ)
    → Linked c
    → (store c k t size).order ≡ record { key = k; tool = t; size = size } ∷ without k c.order
unfolding store
order-store c k t size v = elim (Bool-cases (has k c.order)) [
  | inl old ↦
      let (e, found) = find-has k c.order old in
      rw (v.linked k, old, store, found, find-key k c.order found)
  | inr absent ↦ rw (v.linked k, absent, store, without_absent k c.order absent)
]

max_bytes-store :
    (c : ToolCache) (k : Bytes) (t : Tool) (size : ℕ) → (store c k t size).max_bytes ≡ c.max_bytes
unfolding store
max_bytes-store c k t size = ground arith

max_bytes-evict : (n : ℕ) (c : ToolCache) → (evict n c).max_bytes ≡ c.max_bytes
unfolding evict drop_back
max_bytes-evict zero c = refl
max_bytes-evict (suc n) c = elim (Option-cases (last c.order)) [
  | inl e ↦ rw (e, evict)
  | inr (b, e) ↦ ground (arith, max_bytes-evict n (drop_back c b))
]

pub view-get :
    (c : ToolCache) (k : Bytes)
    → IsValid c
    → (view (Cache.get c k).0 ≡ after (view c) (get k))
      × ((Cache.get c k).1 ≡ reply (view c) (get k))
unfolding Cache.get after reply
view-get c k v = elim (Bool-cases (has k c.order)) [
  | inl hit ↦
      let (e, found) = find-has k c.order hit in
      (
        rw (v.inner.linked k, hit, Cache.get, found, after),
        rw (v.inner.linked k, hit, Cache.get, found, reply),
      )
  | inr miss ↦ (
    rw (v.inner.linked k, miss, Cache.get, find-none k c.order miss, after),
    rw (v.inner.linked k, miss, Cache.get, find-none k c.order miss, reply),
  )
]

pub view-put :
    (c : ToolCache) (k : Bytes) (t : Tool)
    → IsValid c
    → view (Cache.put c k t) ≡ after (view c) (put k t)
unfolding Cache.put after
view-put c k t v =
    let size = estimate_tool_bytes t in
    let stored = store c k t size in
    cc (
      max_bytes-evict (length stored.order) stored,
      max_bytes-store c k t size,
      order-evict (length stored.order) stored (store-Linked c k t size v.inner) (omega arith),
      order-store c k t size v.inner,
    )

pub view-set_max_bytes :
    (c : ToolCache) (max : ℕ)
    → IsValid c
    → view (Cache.set_max_bytes c max) ≡ after (view c) (limit max)
unfolding Cache.set_max_bytes after
view-set_max_bytes c max v =
    let c' = record c { max_bytes = at_least max } in
    cc (
      max_bytes-evict (length c.order) c',
      order-evict (length c.order) c'
          (record {
            linked = v.inner.linked;
            distinct = v.inner.distinct;
            counted = v.inner.counted;
          })
          (omega arith),
    )

pub step-IsValid : (c : ToolCache) (call : Call) → IsValid c → IsValid (step c call).0
unfolding step
step-IsValid c (get k) v = get-IsValid c k v
step-IsValid c (put k t) v = put-IsValid c k t v
step-IsValid c (limit max) v = set_max_bytes-IsValid c max v

view-step :
    (c : ToolCache) (call : Call)
    → IsValid c
    → (view (step c call).0 ≡ after (view c) call) × ((step c call).1 ≡ reply (view c) call)
unfolding step reply
view-step c (get k) v = unfold reply in view-get c k v
view-step c (put k t) v = (view-put c k t v, refl)
view-step c (limit max) v = (view-set_max_bytes c max v, refl)

-- From a valid cache, any sequence of gets, puts and changes of the limit gets the replies of the
-- ideal cache with the same limit and entries, and leaves the limit and the entries of the ideal
-- cache, in order.
pub run-ideal :
    (calls : List Call) (c : ToolCache)
    → IsValid c
    → ((run c calls).0 ≡ (ideal (view c) calls).0)
      × (view (run c calls).1 ≡ (ideal (view c) calls).1)
unfolding run ideal
run-ideal [] c v = (refl, refl)
run-ideal (call ∷ calls) c v =
    let (state, answer) = view-step c call v in
    let (replies, end) = run-ideal calls (step c call).0 (step-IsValid c call v) in
    (cc (state, answer, replies), cc (state, end))
