-- ===== src/Prelude/Equality.antt =====
-- Equality tests as an interface: the column types of the tables and the enums have instances.
use Prim.Native.Nat.{ℕ}
use Prim.Native.String.{String}
use mathlib.Core.Path.{◌≡◌, refl, ap}
use mathlib.Core.Logic.{◌↔◌}
use mathlib.Core.Bool.{Bool, true, false, ◌||◌}
use mathlib.Core.Option.{Option, none, some}
use mathlib.Core.List.{List, [], ◌∷◌}
use native.Mathlib.Omega.{arith}
use text.Mathlib.Text.{◌==◌ as str_eq}
use text.Mathlib.TextEquality.{eq_iff}
use kira_backend.Prelude.Tests.{nat_beq, nat_beq_iff}

-- A test on `T` that decides its paths.
pub record Eq {ℓ} (T : Type ℓ) : Type ℓ where
  pub test : T → T → Bool
  pub test_iff : (x y : T) → (test x y ≡ true) ↔ (x ≡ y)

infix 50 ◌==◌
abbrev pub ◌==◌ {ℓ} : {T : Type ℓ} ⦃q : Eq T⦄ → T → T → Bool
◌==◌ ⦃q⦄ x y = q.test x y

abbrev pub option_beq {ℓ} : {T : Type ℓ} ⦃q : Eq T⦄ → Option T → Option T → Bool
option_beq none none = true
option_beq (some x) (some y) = x == y
option_beq _ _ = false

pub option_beq_iff {ℓ} :
    {T : Type ℓ} ⦃q : Eq T⦄ (x y : Option T) → (option_beq x y ≡ true) ↔ (x ≡ y)
option_beq_iff none none = (λ _. refl, λ _. refl)
option_beq_iff none (some y) = ground arith
option_beq_iff (some x) none = ground arith
option_beq_iff ⦃q⦄ (some x) (some y) =
    (λ h. ap some ((q.test_iff x y).0 h), λ h. (q.test_iff x y).1 (ground arith))

-- Identifiers, texts and nullable columns
instance abbrev pub nat_eq : Eq ℕ
nat_eq = record { test = nat_beq; test_iff = nat_beq_iff }

instance abbrev pub option_eq {ℓ} : {T : Type ℓ} ⦃q : Eq T⦄ → Eq (Option T)
option_eq = record { test = option_beq; test_iff = option_beq_iff }

instance abbrev pub string_eq : Eq String
string_eq = record { test = str_eq; test_iff = eq_iff }

-- `x in xs`
abbrev pub contains {ℓ} : {T : Type ℓ} ⦃q : Eq T⦄ → List T → T → Bool
contains [] x = false
contains (y ∷ ys) x = x == y || contains ys x
