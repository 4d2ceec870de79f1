-- ===== src/Errors.antt =====
-- The error values that the packages exchange, and fallible results. `errors.Is` and `errors.As`
-- are tests on the constructors.
use lessen_mcp_gateway.Prelude.{Bytes, Option, none, some, ◌≡◌, refl, ◌⊎◌, inl, inr}
use lessen_mcp_gateway.Prelude.Int.{ℤ}

-- `context.Canceled`, `context.DeadlineExceeded`, `storage.ErrNotFound`, `*mcp.RPCError` with its
-- code and message, a run-time panic (which ends the call too), and any other error by its text.
pub data Error : Type 0 where
  canceled deadline_exceeded not_found panicked : Error
  rpc : ℤ → Bytes → Error
  message : Bytes → Error

-- `(T, error)`, where a call that fails returns the zero `T`.
pub data Result {ℓ} (T : Type ℓ) : Type ℓ where
  ok : T → Result T
  err : Error → Result T

-- `v, err := m; if err != nil { return err }`, and the rest of the function.
infixl 5 ◌>>=◌
abbrev pub ◌>>=◌ {ℓ κ} : {T : Type ℓ} {U : Type κ} → Result T → (T → Result U) → Result U
err failure >>= rest = err failure
ok value >>= rest = rest value

-- `if err := m; err != nil { return err }`
infixl 5 ◌>>◌
abbrev pub ◌>>◌ {ℓ} : {T : Type ℓ} → Result (Unit {0}) → Result T → Result T
err failure >> rest = err failure
ok tt >> rest = rest

-- A `context.Context`, by what `ctx.Err()` returns during the call.
abbrev pub Context : Type 0
Context = Option Error

-- `if err := ctx.Err(); err != nil { return err }`
abbrev pub check : Context → Result (Unit {0})
check none = ok tt
check (some e) = err e

pub Result-cases {ℓ} :
    {T : Type ℓ} (m : Result T)
    → ((value : T) × (m ≡ ok value)) ⊎ ((failure : Error) × (m ≡ err failure))
Result-cases (err failure) = inr (failure, refl)
Result-cases (ok value) = inl (value, refl)
