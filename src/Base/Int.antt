-- ===== src/Base/Int.antt =====
-- Python's integers, where the source's values may be negative.
use Prim.Native.Nat.{ℕ, zero, suc, ◌+◌}
use Prim.Native.String.{String, ◌++◌ as ◌<>◌}
use mathlib.Core.Bool.{Bool, true, false}
use nixpkgs_llvm_ws.Base.Decimal.{str}

-- `negsuc n` is `-(n + 1)`.
pub data ℤ : Type 0 where
  pos : ℕ → ℤ
  negsuc : ℕ → ℤ

-- `n == 0`
abbrev pub is_zero : ℤ → Bool
is_zero (pos zero) = true
is_zero (pos (suc n)) = false
is_zero (negsuc n) = false

-- `f"{n}"`
unfoldable pub show : ℤ → String
unfolding str
show (pos n) = str n
show (negsuc n) = "-" <> str (n + 1)
