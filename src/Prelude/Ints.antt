-- ===== src/Prelude/Ints.antt =====
-- Go's `int`, where it may be negative.
use Prim.Native.Nat.{ℕ}
use mathlib.Core.Bool.{Bool, false}
use binance_tss_demo.Prelude.Tests.{ltb}

pub data ℤ : Type 0 where
  pos negsuc : ℕ → ℤ

-- `n > 0`.
abbrev pub is_positive : ℤ → Bool
is_positive (pos n) = ltb 0 n
is_positive (negsuc n) = false

-- `len(s) < n`.
abbrev pub is_below : ℕ → ℤ → Bool
is_below m (pos n) = ltb m n
is_below m (negsuc n) = false
