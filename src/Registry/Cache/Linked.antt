-- ===== src/Registry/Cache/Linked.antt =====
-- The representation invariant of the cache, and that every operation keeps it. The map and the
-- list hold the same keys, no key twice, and `bytes` is the sum of the sizes, within the limit.
use lessen_mcp_gateway.Prelude.{
  map, has_prefix, ℕ, zero, suc, ◌≤◌, ◌≡◌, refl, ap, Bytes, eq_iff, true, false, none, some, List,
  [], ◌∷◌, length, last, arith, if◌then◌else◌, Bool-cases, inl, inr, Option-cases, lookup,
  lookup-insert, lookup-delete, ltb, length-but_last,
}
use lessen_mcp_gateway.Model.{Tool}
use lessen_mcp_gateway.Registry.Cache.{
  CacheEntry, ToolCache, remove_key, at_least, new, estimate_tool_bytes, without, get, drop_back,
  evict, store, put, total, delete_keys, delete_prefix, clear, set_max_bytes,
}
use lessen_mcp_gateway.Registry.Cache.Lists.{
  has, Distinct, find-has, find-key, has-without, Distinct-without, total-without, last-none,
  length_of_last, total-but_last, has-but_last, Distinct-but_last, without_absent,
}

-- Between the parts of an operation the limit may be passed.
pub record Linked (c : ToolCache) : Type 0 where
  pub linked : (k : Bytes) → lookup k c.items ≡ (if has k c.order then some k else none)
  pub distinct : Distinct c.order
  pub counted : c.bytes ≡ total c.order

pub record IsValid (c : ToolCache) : Type 0 where
  pub inner : Linked c
  pub fits : c.bytes ≤ c.max_bytes

pub drop_back-Linked :
    (c : ToolCache) (b : CacheEntry) → Linked c → last c.order ≡ some b → Linked (drop_back c b)
unfolding drop_back
drop_back-Linked c b v h = record {
  linked = λ k.
      ground
        (arith, v.linked k, lookup-delete b.key k c.items, has-but_last k c.order v.distinct h);
  distinct = Distinct-but_last c.order v.distinct h;
  counted = omega (arith, v.counted, total-but_last c.order h);
}

-- The loop keeps the invariant, and it ends only with the limit kept.
pub evict-IsValid : (n : ℕ) (c : ToolCache) → Linked c → length c.order ≤ n → IsValid (evict n c)
unfolding evict total
evict-IsValid zero c v h = elim (Option-cases (last c.order)) [
  | inl e ↦ record { inner = v; fits = omega (arith, ap total (last-none c.order e), v.counted) }
  | inr (b, e) ↦ absurd (omega (arith, length_of_last c.order e, h))
]
evict-IsValid (suc n) c v h = elim (Option-cases (last c.order)) [
  | inl e ↦
      rw (e, evict)
        (record { inner = v; fits = omega (arith, ap total (last-none c.order e), v.counted) })
  | inr (b, e) ↦ elim (Bool-cases (ltb c.max_bytes c.bytes)) [
    | inl over ↦
        rw (e, over, evict)
          (evict-IsValid n (drop_back c b) (drop_back-Linked c b v e)
            (omega (arith, length-but_last c.order, h)))
    | inr fits ↦ rw (e, fits, evict) (record { inner = v; fits = ground arith })
  ]
]

store_new-Linked :
    (c : ToolCache) (k : Bytes) (t : Tool) (size : ℕ)
    → Linked c
    → has k c.order ≡ false
    → Linked (store c k t size)
unfolding store total
store_new-Linked c k t size v absent =
    rw (v.linked k, absent, store)
      (record {
        linked = λ j. ground (arith, v.linked j, lookup-insert k j k c.items, eq_iff k j);
        distinct = (absent, v.distinct);
        counted = omega (arith, v.counted);
      })

store_old-Linked :
    (c : ToolCache) (k : Bytes) (t : Tool) (size : ℕ)
    → Linked c
    → has k c.order ≡ true
    → Linked (store c k t size)
unfolding store total
store_old-Linked c k t size v old =
    let (e, found) = find-has k c.order old in
    let key = find-key k c.order found in
    rw (v.linked k, old, store, found)
      (record {
        linked =
            λ j. ground (arith, v.linked j, has-without k j c.order, eq_iff k j, eq_iff e.key j);
        distinct = (
          ground (arith, has-without k e.key c.order, eq_iff k e.key),
          Distinct-without k c.order v.distinct,
        );
        counted = omega (arith, v.counted, total-without k c.order v.distinct found);
      })

pub store-Linked :
    (c : ToolCache) (k : Bytes) (t : Tool) (size : ℕ) → Linked c → Linked (store c k t size)
store-Linked c k t size v = elim (Bool-cases (has k c.order)) [
  | inl old ↦ store_old-Linked c k t size v old
  | inr absent ↦ store_new-Linked c k t size v absent
]

-- A new cache is valid.
pub new-IsValid : (max : ℕ) → IsValid (new max)
unfolding new lookup total
new-IsValid max = record {
  inner = record { linked = λ k. refl; distinct = tt; counted = refl };
  fits = omega arith;
}

-- A `Put` into a valid cache leaves it valid: the map and the list hold the same keys, no key
-- twice, and the byte count is the sum of the sizes, within the limit.
pub put-IsValid : (c : ToolCache) (k : Bytes) (t : Tool) → IsValid c → IsValid (put c k t)
unfolding put
put-IsValid c k t v =
    evict-IsValid _ _ (store-Linked c k t (estimate_tool_bytes t) v.inner) (omega arith)

pub set_max_bytes-IsValid : (c : ToolCache) (max : ℕ) → IsValid c → IsValid (set_max_bytes c max)
unfolding set_max_bytes
set_max_bytes-IsValid c max v =
    evict-IsValid (length c.order) (record c { max_bytes = at_least max })
      (record { linked = v.inner.linked; distinct = v.inner.distinct; counted = v.inner.counted })
      (omega arith)

pub clear-IsValid : (c : ToolCache) → IsValid (clear c)
unfolding clear lookup total
clear-IsValid c = record {
  inner = record { linked = λ k. refl; distinct = tt; counted = refl };
  fits = omega arith;
}

pub get-IsValid : (c : ToolCache) (k : Bytes) → IsValid c → IsValid (get c k).0
unfolding get total
get-IsValid c k v = elim (Bool-cases (has k c.order)) [
  | inr miss ↦ rw (v.inner.linked k, miss, get) v
  | inl hit ↦
      let (e, found) = find-has k c.order hit in
      let key = find-key k c.order found in
      rw (v.inner.linked k, hit, get, found)
        (record {
          inner = record {
            linked = λ j.
                ground
                  (arith, v.inner.linked j, has-without k j c.order, eq_iff k j, eq_iff e.key j);
            distinct = (
              ground (arith, has-without k e.key c.order, eq_iff k e.key),
              Distinct-without k c.order v.inner.distinct,
            );
            counted =
                omega (arith, v.inner.counted, total-without k c.order v.inner.distinct found);
          };
          fits = v.fits;
        })
]

-- A key that is there leaves the map and the list; one that is not changes nothing.
pub order-remove_key :
    (k : Bytes) (c : ToolCache) → Linked c → (remove_key k c).order ≡ without k c.order
unfolding remove_key
order-remove_key k c v = elim (Bool-cases (has k c.order)) [
  | inl hit ↦ let (e, found) = find-has k c.order hit in rw (v.linked k, hit, remove_key, found)
  | inr miss ↦ rw (v.linked k, miss, remove_key, without_absent k c.order miss)
]

remove_key-Linked : (k : Bytes) (c : ToolCache) → Linked c → Linked (remove_key k c)
unfolding remove_key
remove_key-Linked k c v = elim (Bool-cases (has k c.order)) [
  | inr miss ↦ rw (v.linked k, miss, remove_key) v
  | inl hit ↦
      let (e, found) = find-has k c.order hit in
      rw (v.linked k, hit, remove_key, found)
        (record {
          linked =
              λ j. ground (arith, v.linked j, has-without k j c.order, lookup-delete k j c.items);
          distinct = Distinct-without k c.order v.distinct;
          counted = omega (arith, v.counted, total-without k c.order v.distinct found);
        })
]

-- Removing keys never raises the sum.
bytes-remove_key-le : (k : Bytes) (c : ToolCache) → (remove_key k c).bytes ≤ c.bytes
unfolding remove_key
bytes-remove_key-le k c = ground arith

max_bytes-remove_key : (k : Bytes) (c : ToolCache) → (remove_key k c).max_bytes ≡ c.max_bytes
unfolding remove_key
max_bytes-remove_key k c = ground arith

pub remove_key-IsValid : (k : Bytes) (c : ToolCache) → IsValid c → IsValid (remove_key k c)
remove_key-IsValid k c v = record {
  inner = remove_key-Linked k c v.inner;
  fits = omega (arith, bytes-remove_key-le k c, max_bytes-remove_key k c, v.fits);
}

pub delete_keys-IsValid :
    (prefix : Bytes) (keys : List Bytes) (c : ToolCache)
    → IsValid c
    → IsValid (delete_keys prefix keys c)
unfolding delete_keys
delete_keys-IsValid prefix [] c v = v
delete_keys-IsValid prefix (k ∷ keys) c v = elim (Bool-cases (has_prefix k prefix)) [
  | inl e ↦ rw e (delete_keys-IsValid prefix keys (remove_key k c) (remove_key-IsValid k c v))
  | inr e ↦ rw e (delete_keys-IsValid prefix keys c v)
]

-- A `DeletePrefix` leaves a valid cache valid: the map and the list hold the same keys, no key
-- twice, and the byte count is the sum of the sizes, within the limit.
pub delete_prefix-IsValid :
    (c : ToolCache) (prefix : Bytes) → IsValid c → IsValid (delete_prefix c prefix)
unfolding delete_prefix
delete_prefix-IsValid c prefix v = delete_keys-IsValid prefix (map (λ e. e.0) c.items) c v
