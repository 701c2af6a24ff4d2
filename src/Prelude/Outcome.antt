-- ===== src/Prelude/Outcome.antt =====
-- Python's exceptions as values. `http n` is HTTPException with status code n; an operation that
-- raises gives no new state, since its session is never committed.
use Prim.Native.Nat.{ℕ}
use mathlib.Core.Path.{◌≡◌, refl, subst}
use mathlib.Core.Logic.{◌⊎◌, inl, inr}
use mathlib.Core.Bool.{Bool, true, false}

pub data Error : Type 0 where
  value_error type_error integrity_error database_error batch_not_found key_error cycle_error :
      Error
  http : ℕ → Error

pub data Result {ℓ} (X : Type ℓ) : Type ℓ where
  err : Error → Result X
  ok : X → Result X

-- `if c: raise e`
abbrev pub raise_if : Bool → Error → Result (Unit {0})
raise_if false e = ok tt
raise_if true e = err e

infixl 5 ◌>>=◌
abbrev pub ◌>>=◌ {ℓ κ} : {X : Type ℓ} {Y : Type κ} → Result X → (X → Result Y) → Result Y
err e >>= k = err e
ok x >>= k = k x

infixl 5 ◌>>◌
abbrev pub ◌>>◌ {κ} : {Y : Type κ} → Result (Unit {0}) → Result Y → Result Y
first >> rest = first >>= λ done. rest

-- Where the operation returns, its value satisfies `P`.
abbrev pub IfReturns {ℓ κ} : {X : Type ℓ} → (X → Type κ) → Result X → Type κ
IfReturns P (ok x) = P x
IfReturns P (err e) = Unit

pub IfReturns-ok {ℓ κ} :
    {X : Type ℓ} (P : X → Type κ) (r : Result X) (x : X) → IfReturns P r → r ≡ ok x → P x
IfReturns-ok P r x h e = subst (IfReturns P) e h

-- What a bind that returns has gone through.
pub >>=-eq-ok {ℓ κ} :
    {X : Type ℓ} {Y : Type κ} (r : Result X) (k : X → Result Y) {y : Y}
    → (r >>= k) ≡ ok y
    → (x : X) × (r ≡ ok x) × (k x ≡ ok y)
>>=-eq-ok (err e) k returns = cc
>>=-eq-ok (ok x) k returns = (x, refl, returns)

pub Result-cases {ℓ} :
    {X : Type ℓ} (r : Result X) → ((x : X) × (r ≡ ok x)) ⊎ ((why : Error) × (r ≡ err why))
Result-cases (err why) = inr (why, refl)
Result-cases (ok x) = inl (x, refl)
