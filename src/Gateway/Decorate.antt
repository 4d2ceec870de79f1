-- ===== src/Gateway/Decorate.antt =====
-- What a client of the current revision finds in a result.
use lessen_mcp_gateway.Prelude.{
  ◌≡◌, refl, Bytes, codes, ◌==◌, eq_iff, Bool, true, false, ◌&&◌, Option, none, some, Map, lookup,
  insert, lookup-insert, if◌then◌else◌, Option-cases, Bool-cases, inl, inr, arith,
}
use lessen_mcp_gateway.Model.{Raw}
use lessen_mcp_gateway.Gateway.{is_cacheable_method, put_missing, ttl, decorate_object}

-- What is there, or else what is added.
abbrev pub or_else : Option Raw → Option Raw → Option Raw
or_else (some v) added = some v
or_else none added = added

lookup-put_missing :
    (key value k : Bytes) (m : Map Raw)
    → lookup k (put_missing key value m)
      ≡ or_else (lookup k m) (if key == k then some value else none)
unfolding put_missing
lookup-put_missing key value k m = ground (arith, lookup-insert key k value m, eq_iff key k)

-- Of three additions the first one that applies is found.
three_additions :
    (x y z : Bool) (u v w : Raw)
    → or_else
        (or_else (if x then some u else none) (if y then some v else none))
        (if z then some w else none)
      ≡ (if x then some u else if y then some v else if z then some w else none)
three_additions true y z u v w = refl
three_additions false true z u v w = refl
three_additions false false z u v w = refl

-- The entries that are added where they are missing.
unfoldable pub default_entry : Bytes → Bytes → Option Raw
default_entry method k =
    if codes "resultType" == k
    then some (codes "\"complete\"")
    else if is_cacheable_method method && (codes "ttlMs" == k)
    then some (ttl method)
    else if is_cacheable_method method && (codes "cacheScope" == k)
    then some (codes "\"private\"")
    else none

-- The decorated result has the new `_meta`, every other entry of the result as it was, and where
-- the result has none, a result type, and for a method whose results may be cached a time to live
-- and a private scope; nothing else is added.
pub lookup-decorate_object :
    (method : Bytes) (meta : Raw) (m : Map Raw) (k : Bytes)
    → lookup k (decorate_object method meta m)
      ≡ (if codes "_meta" == k then some meta else or_else (lookup k m) (default_entry method k))
unfolding decorate_object default_entry
lookup-decorate_object method meta m k =
    let typed = put_missing (codes "resultType") (codes "\"complete\"") m in
    let with_meta = insert (codes "_meta") meta typed in
    let timed = put_missing (codes "ttlMs") (ttl method) with_meta in
    let e0 = lookup-put_missing (codes "resultType") (codes "\"complete\"") k m in
    let e1 = lookup-insert (codes "_meta") k meta typed in
    let e2 = lookup-put_missing (codes "ttlMs") (ttl method) k with_meta in
    let e3 = lookup-put_missing (codes "cacheScope") (codes "\"private\"") k timed in
    elim (Bool-cases (is_cacheable_method method)) [
      | inl c ↦
          rw (c, e3, e2, e1, e0)
            (elim (Bool-cases (codes "_meta" == k)) [
              | inl i ↦ rw i refl
              | inr i ↦ elim (Option-cases (lookup k m)) [
                | inl n ↦
                    rw (i, n)
                      (three_additions (codes "resultType" == k) (codes "ttlMs" == k)
                        (codes "cacheScope" == k) (codes "\"complete\"") (ttl method)
                        (codes "\"private\""))
                | inr (v, n) ↦ rw (i, n) refl
              ]
            ])
      | inr c ↦ rw (c, e1, e0) refl
    ]
