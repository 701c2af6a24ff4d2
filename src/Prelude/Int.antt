-- ===== src/Prelude/Int.antt =====
-- Python's integers where they may be negative: `negsuc n` is -(n + 1).
use Prim.Native.Nat.{ℕ, suc, ◌+◌, ◌-◌, ◌≤◌, min}
use mathlib.Core.Path.{◌≡◌}
use mathlib.Core.Logic.{◌↔◌}
use mathlib.Core.Bool.{Bool, true, false}
use native.Mathlib.Omega.{arith}
use kira_backend.Prelude.Tests.{leb, nat_beq, nat_beq_iff, if◌then◌else◌}

pub data ℤ : Type 0 where
  pos : ℕ → ℤ
  negsuc : ℕ → ℤ

abbrev pub int_beq : ℤ → ℤ → Bool
int_beq (pos a) (pos b) = nat_beq a b
int_beq (negsuc a) (negsuc b) = nat_beq a b
int_beq _ _ = false

-- `a + n` for `0 ≤ n`
abbrev pub add_ℕ : ℤ → ℕ → ℤ
add_ℕ (pos a) n = pos (a + n)
add_ℕ (negsuc m) n = if leb (suc m) n then pos (n - suc m) else negsuc (m - n)

-- `min(100, max(0, a))`, also written `max(0, min(100, a))`
abbrev pub clamp_100 : ℤ → ℕ
clamp_100 (pos a) = min 100 a
clamp_100 (negsuc m) = 0

pub clamp_100-le : (a : ℤ) → clamp_100 a ≤ 100
clamp_100-le (pos a) = omega arith
clamp_100-le (negsuc m) = omega arith

pub int_beq_iff : (a b : ℤ) → (int_beq a b ≡ true) ↔ (a ≡ b)
int_beq_iff (pos a) (pos b) = ground (arith, nat_beq_iff a b)
int_beq_iff (pos a) (negsuc b) = ground arith
int_beq_iff (negsuc a) (pos b) = ground arith
int_beq_iff (negsuc a) (negsuc b) = ground (arith, nat_beq_iff a b)
