-- ===== src/Base/Int.antt =====
-- Go's int, as far as the program only carries it: a configured or requested number.
use Prim.Native.Nat.{ℕ}

-- `negsuc n` is -(n + 1).
pub data ℤ : Type 0 where
  pos : ℕ → ℤ
  negsuc : ℕ → ℤ
