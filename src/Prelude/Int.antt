-- ===== src/Prelude/Int.antt =====
-- Signed integers, for the C interfaces whose results are negative on a failure.
use Prim.Native.Nat.{ℕ}

-- `negsuc n` is -(n + 1).
pub data ℤ : Type 0 where
  pos : ℕ → ℤ
  negsuc : ℕ → ℤ
