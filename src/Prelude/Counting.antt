-- ===== src/Prelude/Counting.antt =====
-- Lists of identifiers without repetition, and the count of them that a list has room for.
use Prim.Native.Nat.{ℕ, suc, ◌≤◌}
use mathlib.Core.Path.{◌≡◌, refl}
use mathlib.Core.Bool.{true, false, ◌||◌}
use mathlib.Core.List.{List, [], ◌∷◌, ◌++◌}
use native.Mathlib.Omega.{arith}
use kira_backend.Prelude.Tests.{nat_beq, nat_beq_iff, if◌then◌else◌}
use kira_backend.Prelude.Lists.{length, All}
use kira_backend.Prelude.Equality.{nat_eq, contains}

-- No identifier occurs twice.
abbrev pub Distinct : List ℕ → Type 0
Distinct [] = Unit
Distinct (x ∷ xs) = (contains xs x ≡ false) × Distinct xs

drop_first : ℕ → List ℕ → List ℕ
drop_first x [] = []
drop_first x (y ∷ ys) = if nat_beq x y then ys else y ∷ drop_first x ys

length-drop_first :
    (x : ℕ) (ys : List ℕ) → contains ys x ≡ true → suc (length (drop_first x ys)) ≡ length ys
unfolding drop_first
length-drop_first x [] h = cc
length-drop_first x (y ∷ ys) h = ground (arith, length-drop_first x ys)

contains-drop_first :
    (x z : ℕ) (ys : List ℕ)
    → nat_beq z x ≡ false
    → contains ys z ≡ true
    → contains (drop_first x ys) z ≡ true
unfolding drop_first
contains-drop_first x z [] d h = cc
contains-drop_first x z (y ∷ ys) d h =
    ground (arith, contains-drop_first x z ys d, nat_beq_iff x y, nat_beq_iff z y, nat_beq_iff z x)

All-drop_first :
    (x : ℕ) (xs ys : List ℕ)
    → contains xs x ≡ false
    → All (λ z. contains ys z ≡ true) xs
    → All (λ z. contains (drop_first x ys) z ≡ true) xs
All-drop_first x [] ys n h = tt
All-drop_first x (z ∷ xs) ys n h = (
  contains-drop_first x z ys (ground (arith, nat_beq_iff z x, nat_beq_iff x z)) h.0,
  All-drop_first x xs ys (ground arith) h.1,
)

-- A list without repetition is no longer than a list that has all its elements.
pub length-Distinct :
    (xs ys : List ℕ) → Distinct xs → All (λ z. contains ys z ≡ true) xs → length xs ≤ length ys
length-Distinct [] ys d h = omega arith
length-Distinct (x ∷ xs) ys d h = omega (
  arith,
  length-drop_first x ys h.0,
  length-Distinct xs (drop_first x ys) d.1 (All-drop_first x xs ys d.0 h.1),
)

pub contains-append :
    (xs ys : List ℕ) (i : ℕ) → contains (xs ++ ys) i ≡ (contains xs i || contains ys i)
contains-append [] ys i = refl
contains-append (x ∷ xs) ys i = ground (arith, contains-append xs ys i)

-- Two lists with nothing in common
pub Distinct-append :
    (xs ys : List ℕ)
    → Distinct xs
    → Distinct ys
    → ((i : ℕ) → contains ys i ≡ true → contains xs i ≡ false)
    → Distinct (xs ++ ys)
Distinct-append [] ys d e apart = e
Distinct-append (x ∷ xs) ys d e apart = (
  ground (arith, contains-append xs ys x, apart x, nat_beq_iff x x),
  Distinct-append xs ys d.1 e (λ i h. ground (arith, apart i h)),
)
