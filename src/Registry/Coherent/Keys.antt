-- ===== src/Registry/Coherent/Keys.antt =====
-- The keys "<server>/<tool>" of the cache.
use lessen_mcp_gateway.Prelude.{
  Bytes, codes, ◌==◌, ◌≡◌, refl, true, not, [], ◌∷◌, ◌++◌, arith, nat_eq, has_prefix, all,
}
use lessen_mcp_gateway.Registry.{cache_key}

abbrev pub NoSlash : Bytes → Type 0
NoSlash s = all (λ c. not (nat_eq c 47)) s ≡ true

pub cache_key-injective :
    (i j n m : Bytes) → NoSlash i → NoSlash j → cache_key i n ≡ cache_key j m → (i ≡ j) × (n ≡ m)
cache_key-injective [] [] n m h k e = (refl, cc)
cache_key-injective [] (d ∷ j) n m h k e = ground arith
cache_key-injective (c ∷ i) [] n m h k e = ground arith
cache_key-injective (c ∷ i) (d ∷ j) n m h k e = ground (arith, cache_key-injective i j n m)

-- A key has the prefix "<server>/" exactly when it is of that server.
pub has_prefix-cache_key :
    (i id n : Bytes)
    → NoSlash i
    → NoSlash id
    → has_prefix (cache_key i n) (id ++ codes "/") ≡ (id == i)
unfolding has_prefix ◌==◌
has_prefix-cache_key [] [] n h k = ground arith
has_prefix-cache_key [] (d ∷ id) n h k = ground arith
has_prefix-cache_key (c ∷ i) [] n h k = ground arith
has_prefix-cache_key (c ∷ i) (d ∷ id) n h k = ground (arith, has_prefix-cache_key i id n)
