-- ===== src/Registry/Cache/Lists.antt =====
-- Lemmas on the cache's list of entries: finding, removing and dropping one.
use lessen_mcp_gateway.Prelude.{
  Bool-cases, inl, inr, ◌+◌, ◌≤◌, ◌≡◌, refl, Bytes, ◌==◌, eq_iff, eq_refl, Bool, true, false, none,
  some, List, [], ◌∷◌, length, last, but_last, arith, if◌then◌else◌, Bool-cases, inl, inr,
}
use lessen_mcp_gateway.Registry.Cache.{CacheEntry, find, without, total}

-- Is there an element with this key?
abbrev pub has : Bytes → List CacheEntry → Bool
has p [] = false
has p (e ∷ l) = if e.key == p then true else has p l

-- No two elements have one key.
abbrev pub Distinct : List CacheEntry → Type 0
Distinct [] = Unit
Distinct (e ∷ l) = (has e.key l ≡ false) × Distinct l

pub find-has :
    (p : Bytes) (l : List CacheEntry) → has p l ≡ true → (e : CacheEntry) × (find p l ≡ some e)
unfolding find
find-has p [] h = cc
find-has p (e ∷ l) h = elim (Bool-cases (e.key == p)) [
  | inl q ↦ (e, rw q)
  | inr q ↦ rw q (find-has p l (rw q at h))
]

pub find-key : (p : Bytes) (l : List CacheEntry) {e : CacheEntry} → find p l ≡ some e → e.key ≡ p
unfolding find
find-key p [] h = cc
find-key p (x ∷ l) {e} h = ground (arith, find-key p l {e = e}, eq_iff x.key p)

pub find-none : (p : Bytes) (l : List CacheEntry) → has p l ≡ false → find p l ≡ none
unfolding find
find-none p [] h = refl
find-none p (e ∷ l) h = ground (arith, find-none p l)

pub has-find :
    (p : Bytes) (l : List CacheEntry) {e : CacheEntry} → find p l ≡ some e → has p l ≡ true
unfolding find
has-find p [] h = cc
has-find p (x ∷ l) {e} h = ground (arith, has-find p l {e = e})

pub has-without :
    (p k : Bytes) (l : List CacheEntry) → has k (without p l) ≡ (if p == k then false else has k l)
unfolding without
has-without p k [] = ground arith
has-without p k (e ∷ l) =
    ground (arith, has-without p k l, eq_iff e.key p, eq_iff e.key k, eq_iff p k)

pub find-without :
    (p k : Bytes) (l : List CacheEntry) → find k (without p l) ≡ (if p == k then none else find k l)
unfolding find without
find-without p k [] = ground arith
find-without p k (e ∷ l) =
    ground (arith, find-without p k l, eq_iff e.key p, eq_iff e.key k, eq_iff p k)

pub without_absent : (p : Bytes) (l : List CacheEntry) → has p l ≡ false → without p l ≡ l
unfolding without
without_absent p [] h = refl
without_absent p (e ∷ l) h = ground (arith, without_absent p l)

pub Distinct-without : (p : Bytes) (l : List CacheEntry) → Distinct l → Distinct (without p l)
unfolding without
Distinct-without p [] d = tt
Distinct-without p (e ∷ l) d = ground (arith, Distinct-without p l, has-without p e.key l)

pub total-without :
    (p : Bytes) (l : List CacheEntry) {e : CacheEntry}
    → Distinct l
    → find p l ≡ some e
    → total (without p l) + e.size ≡ total l
unfolding find without total
total-without p [] d h = cc
total-without p (x ∷ l) {e} d h =
    ground (arith, total-without p l {e = e} d.1, without_absent p l, eq_iff x.key p)

pub length-without-le : (p : Bytes) (l : List CacheEntry) → length (without p l) ≤ length l
unfolding without
length-without-le p [] = omega arith
length-without-le p (e ∷ l) = ground (arith, length-without-le p l)

-- The entry at the back of a list that is not empty.
pub last-cons : (e : CacheEntry) (l : List CacheEntry) → (b : CacheEntry) × (last (e ∷ l) ≡ some b)
last-cons e [] = (e, refl)
last-cons e (x ∷ l) = last-cons x l

pub last-none : (l : List CacheEntry) → last l ≡ none → l ≡ []
last-none [] h = refl
last-none (e ∷ l) h = cc (h, (last-cons e l).1)

pub length_of_last : (l : List CacheEntry) {b : CacheEntry} → last l ≡ some b → 1 ≤ length l
length_of_last [] h = cc
length_of_last (e ∷ l) h = omega arith

pub total-but_last :
    (l : List CacheEntry) {b : CacheEntry} → last l ≡ some b → total (but_last l) + b.size ≡ total l
unfolding total
total-but_last [] h = cc
total-but_last (e ∷ []) h = ground arith
total-but_last (e ∷ x ∷ l) h = omega (arith, total-but_last (x ∷ l) h)

pub has-last : (l : List CacheEntry) {b : CacheEntry} → last l ≡ some b → has b.key l ≡ true
has-last [] h = cc
has-last (e ∷ []) {b} h = ground (arith, eq_refl b.key)
has-last (e ∷ x ∷ l) h = ground (arith, has-last (x ∷ l) h)

pub has-but_last :
    (k : Bytes) (l : List CacheEntry) {b : CacheEntry}
    → Distinct l
    → last l ≡ some b
    → has k (but_last l) ≡ (if b.key == k then false else has k l)
has-but_last k [] d h = cc
has-but_last k (e ∷ []) {b} d h = ground arith
has-but_last k (e ∷ x ∷ l) {b} d h =
    ground (arith, has-but_last k (x ∷ l) d.1 h, has-last (x ∷ l) h, eq_iff b.key k, eq_iff e.key k)

pub Distinct-but_last :
    (l : List CacheEntry) {b : CacheEntry} → Distinct l → last l ≡ some b → Distinct (but_last l)
Distinct-but_last [] d h = tt
Distinct-but_last (e ∷ []) d h = tt
Distinct-but_last (e ∷ x ∷ l) {b} d h =
    (ground (arith, has-but_last e.key (x ∷ l) d.1 h), Distinct-but_last (x ∷ l) d.1 h)
