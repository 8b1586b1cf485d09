-- ===== src/Base/Int.antt =====
-- Signed numbers over the native ℕ, for the fields that Go declares `int`.
use Prim.Native.Nat.{ℕ}

-- `negsuc n` is the number -(n + 1).
pub data ℤ : Type 0 where
  pos negsuc : ℕ → ℤ
