-- ===== src/Base/Int.antt =====
-- The integers over the native numbers, as far as the code goes below zero.
use Prim.Native.Nat.{ℕ, zero, suc, ◌-◌}
use dvrbridge.Base.Tests.{leb, if◌then◌else◌}

pub data ℤ : Type 0 where
  pos : ℕ → ℤ
  negsuc : ℕ → ℤ

-- `a - b` on two naturals
unfoldable pub difference : ℕ → ℕ → ℤ
difference a b = if leb b a then pos (a - b) else negsuc (b - a - 1)

-- `-n` on a natural
unfoldable pub negated : ℕ → ℤ
negated zero = pos 0
negated (suc n) = negsuc n
