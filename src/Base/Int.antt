-- ===== src/Base/Int.antt =====
-- The integers, as JavaScript's whole numbers with a sign.
use Prim.Native.Nat.{ℕ, ◌+◌, ◌-◌}
use mathlib.Core.Path.{◌≡◌}
use mathlib.Core.Bool.{Bool, true, false}
use native.Mathlib.Omega.{arith}
use wosm.Base.Tests.{nat_beq, nat_beq_iff, if◌then◌else◌, leb}

pub data ℤ : Type 0 where
  pos negsuc : ℕ → ℤ

-- `m - n`.
abbrev pub sub_nat : ℕ → ℕ → ℤ
sub_nat m n = if leb n m then pos (m - n) else negsuc (n - m - 1)

infix 65 ◌+ℤ◌
abbrev pub ◌+ℤ◌ : ℤ → ℤ → ℤ
pos m +ℤ pos n = pos (m + n)
pos m +ℤ negsuc n = sub_nat m (n + 1)
negsuc m +ℤ pos n = sub_nat n (m + 1)
negsuc m +ℤ negsuc n = negsuc (m + n + 1)

-- `Math.max(0, z)`.
abbrev pub max_zero : ℤ → ℕ
max_zero (pos n) = n
max_zero (negsuc n) = 0

abbrev pub int_beq : ℤ → ℤ → Bool
int_beq (pos m) (pos n) = nat_beq m n
int_beq (negsuc m) (negsuc n) = nat_beq m n
int_beq _ _ = false

pub int_beq_pos : (m n : ℕ) → int_beq (pos m) (pos n) ≡ true → m ≡ n
int_beq_pos m n h = ground (arith, nat_beq_iff m n)

pub max_zero-sub_nat : (m n : ℕ) → max_zero (sub_nat m n) ≡ m - n
max_zero-sub_nat m n = ground arith
