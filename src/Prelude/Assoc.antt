-- ===== src/Prelude/Assoc.antt =====
-- Go maps with string keys, as association lists. `insert` and `delete` leave a key at most once.
-- Go iterates over a map in an unspecified order; the list's order stands for one such order.
use mathlib.Core.Path.{◌≡◌, refl}
use mathlib.Core.Bool.{Bool}
use mathlib.Core.List.{List, [], ◌∷◌}
use mathlib.Core.Option.{Option, none, some}
use mathlib.Core.Path.{subst}
use mathlib.Core.Bool.{false}
use mathlib.Core.Logic.{inl, inr}
use lessen_mcp_gateway.Prelude.Lists.{All}
use native.Mathlib.Omega.{arith}
use lessen_mcp_gateway.Prelude.Tests.{Bool-cases, if◌then◌else◌}
use lessen_mcp_gateway.Prelude.Text.{Bytes, ◌==◌, eq_iff}

abbrev pub Map {ℓ} : Type ℓ → Type ℓ
Map V = List (Bytes × V)

module _ {ℓ} {V : Type ℓ} where
  unfoldable pub lookup : Bytes → Map V → Option V
  lookup k [] = none
  lookup k ((j, v) ∷ m) = if j == k then some v else lookup k m

  -- The entries whose key and value fail a test: a loop of `delete(m, key)` under an `if`.
  unfoldable pub delete_if : (Bytes → V → Bool) → Map V → Map V
  delete_if p [] = []
  delete_if p ((j, v) ∷ m) = if p j v then delete_if p m else (j, v) ∷ delete_if p m

  -- `delete(m, k)`
  unfoldable pub delete : Bytes → Map V → Map V
  unfolding delete_if
  delete k m = delete_if (λ j v. j == k) m

  -- `m[k] = v`
  unfoldable pub insert : Bytes → V → Map V → Map V
  insert k v m = (k, v) ∷ delete k m

  pub lookup-delete :
      (k j : Bytes) (m : Map V) → lookup j (delete k m) ≡ (if k == j then none else lookup j m)
  unfolding lookup delete
  lookup-delete k j [] = ground arith
  lookup-delete k j ((i, v) ∷ m) =
      ground (arith, lookup-delete k j m, eq_iff i k, eq_iff i j, eq_iff k j)

  pub lookup-insert :
      (k j : Bytes) (v : V) (m : Map V)
      → lookup j (insert k v m) ≡ (if k == j then some v else lookup j m)
  unfolding lookup insert
  lookup-insert k j v m = ground (arith, lookup-delete k j m)

pub lookup-empty {ℓ} : {V : Type ℓ} (k : Bytes) → lookup {V = V} k [] ≡ none
unfolding lookup
lookup-empty k = refl

module _ {V : Type 0} where
  pub All-delete_if :
      (P Q : Bytes × V → Type 0) (test : Bytes → V → Bool) (m : Map V)
      → ((k : Bytes) (v : V) → test k v ≡ false → P (k, v) → Q (k, v))
      → All P m
      → All Q (delete_if test m)
  unfolding delete_if
  All-delete_if P Q test [] f h = tt
  All-delete_if P Q test ((k, v) ∷ m) f h = elim (Bool-cases (test k v)) [
    | inl e ↦ rw e (All-delete_if P Q test m f h.1)
    | inr e ↦ rw e (f k v e h.0, All-delete_if P Q test m f h.1)
  ]

  pub All-insert :
      (P : Bytes × V → Type 0) (k : Bytes) (v : V) (m : Map V)
      → P (k, v)
      → All P m
      → All P (insert k v m)
  unfolding insert delete
  All-insert P k v m h all = (h, All-delete_if P P (λ j w. j == k) m (λ j w _ p. p) all)

  pub All-lookup :
      (P : Bytes × V → Type 0) (k : Bytes) (m : Map V) (v : V)
      → All P m
      → lookup k m ≡ some v
      → P (k, v)
  unfolding lookup
  All-lookup P k [] v h e = cc
  All-lookup P k ((j, w) ∷ m) v h e = elim (Bool-cases (j == k)) [
    | inl q ↦
        let same : w ≡ v = ground (arith, q) in
        subst (λ (x : V). P (k, x)) same (subst (λ (x : Bytes). P (x, w)) ((eq_iff j k).0 q) h.0)
    | inr q ↦ All-lookup P k m v h.1 (rw q at e)
  ]

pub ruleset map_laws = (lookup-empty, lookup-delete, lookup-insert)
