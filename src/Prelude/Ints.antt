-- ===== src/Prelude/Ints.antt =====
-- Go's signed `int`, over the native numbers under the library's names.
use Prim.Native.Nat.{ℕ, zero, suc}
use mathlib.Core.Bool.{Bool, true, false}
use split_flap_display_web.Prelude.Tests.{leb}

-- `negsuc n` is -(n + 1).
pub data ℤ : Type 0 where
  pos : ℕ → ℤ
  negsuc : ℕ → ℤ

-- `z > 0`
abbrev pub is_positive : ℤ → Bool
is_positive (pos zero) = false
is_positive (pos (suc n)) = true
is_positive (negsuc n) = false

-- `z <= n`
abbrev pub le_nat : ℤ → ℕ → Bool
le_nat (pos m) n = leb m n
le_nat (negsuc m) n = true

-- The integer, or 0 where it is negative.
abbrev pub to_ℕ : ℤ → ℕ
to_ℕ (pos n) = n
to_ℕ (negsuc n) = 0
