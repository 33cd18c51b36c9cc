-- ===== src/Prelude/Int.antt =====
-- Signed integers over the native numbers.
use Prim.Native.Nat.{ℕ, zero}
use mathlib.Core.Bool.{Bool, true, false}

-- `negsuc n` is -(n + 1).
pub data ℤ : Type 0 where
  pos : ℕ → ℤ
  negsuc : ℕ → ℤ

-- `i <= 0`.
abbrev pub is_nonpositive : ℤ → Bool
is_nonpositive (pos n) = elim n [ zero ↦ true | _ ↦ false ]
is_nonpositive (negsuc n) = true
