-- ===== src/Registry/Cache/Reads.antt =====
-- What a `Get` returns after each other call: what the registry relies on.
use lessen_mcp_gateway.Prelude.{
  Map, ℕ, ◌-◌, ◌≡◌, ◌≢◌, refl, ap, sym, ◌∙◌, Bytes, ◌==◌, eq_iff, eq_refl, Bool, true, false,
  Option, none, some, List, [], ◌∷◌, arith, if◌then◌else◌, Bool-cases, inl, inr, Option-cases,
  lookup, leb, has_prefix, map, ◌&&◌, ◌||◌,
}
use lessen_mcp_gateway.Model.{Tool}
use lessen_mcp_gateway.Registry.Cache.{
  CacheEntry, ToolCache, set_max_bytes, at_least, estimate_tool_bytes, find, without, get, put,
  remove_key, delete_keys, delete_prefix,
}
use lessen_mcp_gateway.Registry.Cache.Lists.{has, find-without, find-none, find-key}
use lessen_mcp_gateway.Registry.Cache.Linked.{IsValid, order-remove_key, remove_key-IsValid}
use lessen_mcp_gateway.Registry.Cache.Lru.{
  Lru, entry, fit, reply, after, view-get, view-put, view-set_max_bytes,
}

-- What is cached for a key.
unfoldable pub contents : ToolCache → Bytes → Option Tool
contents c k = elim (find k c.order) [ none ↦ none | some e ↦ some e.tool ]

pub get-contents : (c : ToolCache) (k : Bytes) → IsValid c → (get c k).1 ≡ contents c k
unfolding contents reply
get-contents c k v = (view-get c k v).1

-- A `Get` moves an entry and changes no contents.
pub contents-get : (c : ToolCache) (k j : Bytes) → IsValid c → contents (get c k).0 j ≡ contents c j
unfolding contents after find
contents-get c k j v =
    let entries = ap (λ (s : Lru). find j s.entries) (view-get c k v).0 in
    elim (Option-cases (find k c.order)) [
      | inl miss ↦ ground (arith, entries)
      | inr (e, hit) ↦ ground (
        arith,
        entries,
        find-key k c.order hit,
        find-without k j c.order,
        eq_iff e.key j,
        eq_iff k j,
      )
    ]

find-fit :
    (b : ℕ) (j : Bytes) (l : List CacheEntry) {e : CacheEntry}
    → find j (fit b l) ≡ some e
    → find j l ≡ some e
unfolding find fit
find-fit b j [] h = cc
find-fit b j (x ∷ l) {e} h = ground (arith, find-fit (b - x.size) j l {e = e})

-- A `Put` may forget other keys, and never changes what is cached for them.
pub contents-put_ne :
    (c : ToolCache) (k j : Bytes) (t : Tool) {u : Tool}
    → IsValid c
    → k ≢ j
    → contents (put c k t) j ≡ some u
    → contents c j ≡ some u
unfolding contents find after
contents-put_ne c k j t {u} v ne h = elim (Option-cases (find j (put c k t).order)) [
  | inl e ↦ cc (rw (e, contents) at h)
  | inr (e, found) ↦
      let kept =
        find-fit c.max_bytes j (entry k t ∷ without k c.order)
          (ap (λ (s : Lru). find j s.entries) (sym (view-put c k t v)) ∙ found) in
      ground (arith, kept, find-without k j c.order, eq_iff k j)
]

-- In a valid cache, a `Put` caches the tool, if its estimated size is within the limit, and else
-- nothing for the key.
pub contents-put_self :
    (c : ToolCache) (k : Bytes) (t : Tool)
    → IsValid c
    → contents (put c k t) k ≡ (if leb (estimate_tool_bytes t) c.max_bytes then some t else none)
unfolding contents find fit after
contents-put_self c k t v =
    rw (ap (λ (s : Lru). s.entries) (view-put c k t v)) (ground (arith, eq_refl k))

contents-remove_key :
    (k j : Bytes) (c : ToolCache)
    → IsValid c
    → contents (remove_key k c) j ≡ (if k == j then none else contents c j)
unfolding contents
contents-remove_key k j c v =
    rw (order-remove_key k c v.inner) (ground (arith, find-without k j c.order))

-- Is the key among those that the loop goes over?
abbrev among : Bytes → List Bytes → Bool
among j [] = false
among j (k ∷ ks) = k == j || among j ks

contents-delete_keys :
    (prefix j : Bytes) (keys : List Bytes) (c : ToolCache)
    → IsValid c
    → contents (delete_keys prefix keys c) j
      ≡ (if among j keys && has_prefix j prefix then none else contents c j)
unfolding delete_keys
contents-delete_keys prefix j [] c v = refl
contents-delete_keys prefix j (k ∷ keys) c v = elim (Bool-cases (has_prefix k prefix)) [
  | inl e ↦
      rw (e, contents-delete_keys prefix j keys (remove_key k c) (remove_key-IsValid k c v))
        (ground (arith, contents-remove_key k j c v, eq_iff k j))
  | inr e ↦ rw (e, contents-delete_keys prefix j keys c v) (ground (arith, eq_iff k j))
]

among-keys :
    (j : Bytes) (m : Map Bytes) {p : Bytes}
    → lookup j m ≡ some p
    → among j (map (λ e. e.0) m) ≡ true
unfolding lookup
among-keys j [] h = cc
among-keys j ((k, q) ∷ m) {p} h = ground (arith, among-keys j m {p = p})

contents-absent :
    (c : ToolCache) (k : Bytes) → IsValid c → lookup k c.items ≡ none → contents c k ≡ none
unfolding contents
contents-absent c k v h = elim (Bool-cases (has k c.order)) [
  | inl hit ↦ absurd (ground (arith, v.inner.linked k))
  | inr miss ↦ rw (contents, find-none k c.order miss)
]

-- In a valid cache, after `DeletePrefix` nothing is cached under the prefix, and all else is cached
-- as before.
pub contents-delete_prefix :
    (c : ToolCache) (prefix j : Bytes)
    → IsValid c
    → contents (delete_prefix c prefix) j ≡ (if has_prefix j prefix then none else contents c j)
unfolding delete_prefix
contents-delete_prefix c prefix j v =
    rw (contents-delete_keys prefix j (map (λ e. e.0) c.items) c v)
      (elim (Option-cases (lookup j c.items)) [
        | inl e ↦ ground (arith, contents-absent c j v e)
        | inr (p, e) ↦ rw (among-keys j c.items e)
      ])

-- Another limit may forget, and never changes what is cached.
pub contents-set_max_bytes :
    (c : ToolCache) (max : ℕ) (j : Bytes) {u : Tool}
    → IsValid c
    → contents (set_max_bytes c max) j ≡ some u
    → contents c j ≡ some u
unfolding contents after
contents-set_max_bytes c max j {u} v h = elim (Option-cases (find j (set_max_bytes c max).order)) [
  | inl e ↦ cc (rw (e, contents) at h)
  | inr (e, found) ↦
      let kept =
        find-fit (at_least max) j c.order
          (ap (λ (s : Lru). find j s.entries) (sym (view-set_max_bytes c max v)) ∙ found) in
      ground (arith, kept)
]
