-- ===== src/Base/Int.antt =====
-- Signed integers, as Go's `int` (64 bits) has them.
use Prim.Native.Nat.{ℕ, ◌-◌, ◌%◌, ◌^◌}
use helpdesk_microservices.Base.Tests.{ltb, if◌then◌else◌}

-- `negsuc n` is -(n + 1).
pub data ℤ : Type 0 where
  pos : ℕ → ℤ
  negsuc : ℕ → ℤ

-- The integer if it is not negative, else 0.
abbrev pub pos_part : ℤ → ℕ
pos_part (pos n) = n
pos_part (negsuc n) = 0

-- The `int` that the low 64 bits of a number stand for.
abbrev pub wrap64 : ℕ → ℤ
wrap64 n = let m = n % 2 ^ 64 in if ltb m (2 ^ 63) then pos m else negsuc (2 ^ 64 - m - 1)
