-- ===== src/Logbuf/Ring/Listing.antt =====
-- What a reader of the log sees: the entries after a number.
use lessen_mcp_gateway.Prelude.Int.{ℤ, pos, negsuc}
use lessen_mcp_gateway.Prelude.{
  length-take, ℕ, ◌+◌, ◌≤◌, ◌<◌, ◌≡◌, refl, ap, sym, List, [], ◌∷◌, if◌then◌else◌, length, ltb, leb,
  arith, Bool-cases, inl, inr, keep, take,
}
use lessen_mcp_gateway.Logbuf.Ring.{Entry, Ring, list_limit, skip_until, list}
use lessen_mcp_gateway.Logbuf.Ring.Bounds.{Numbered, IsValid}

-- The entries with a number above `after`.
abbrev newer : ℕ → List Entry → List Entry
newer after l = keep (λ e. ltb after e.sequence) l

keep_above :
    (after first last : ℕ) (l : List Entry)
    → after < first
    → Numbered first last l
    → newer after l ≡ l
keep_above after first last [] h n = refl
keep_above after first last (e ∷ l) h n =
    ground (arith, keep_above after (first + 1) last l (omega arith) n.1)

skip_until-newer :
    (after first last : ℕ) (l : List Entry)
    → Numbered first last l
    → skip_until after l ≡ newer after l
unfolding skip_until
skip_until-newer after first last [] n = refl
skip_until-newer after first last (e ∷ l) n = elim (Bool-cases (leb e.sequence after)) [
  | inl old ↦ ground (arith, skip_until-newer after (first + 1) last l n.1)
  | inr new ↦ ground (arith, keep_above after (first + 1) last l (ground arith) n.1)
]

list_limit-le : (limit : ℤ) → list_limit limit ≤ 1000
list_limit-le (negsuc n) = ground arith
list_limit-le (pos n) = ground arith

length-list-le : (r : Ring) (after : ℕ) (limit : ℤ) → length (list r after limit) ≤ 1000
unfolding list
length-list-le r after limit = omega (
  arith,
  length-take (list_limit limit) (if ltb 0 after then skip_until after r.entries else r.entries),
  list_limit-le limit,
)

-- In a valid ring a listing after a number is the first entries, at most the limit, of those with a
-- higher number, in order; there are at most 1000 of them, whatever limit is asked for.
pub list_lem :
    (r : Ring) (after : ℕ) (limit : ℤ)
    → IsValid r
    → (list r after limit ≡ take (list_limit limit) (keep (λ e. ltb after e.sequence) r.entries))
      × (length (list r after limit) ≤ 1000)
unfolding list
list_lem r after limit v = elim (Bool-cases (ltb 0 after)) [
  | inl later ↦ (
    rw (later, skip_until-newer after v.first r.next_seq r.entries v.numbered),
    length-list-le r after limit,
  )
  | inr oldest ↦ (
    rw oldest (
        ap (take (list_limit limit)) (
          sym (
            keep_above after v.first r.next_seq r.entries (ground (arith, v.positive))
              v.numbered))),
    length-list-le r after limit,
  )
]
