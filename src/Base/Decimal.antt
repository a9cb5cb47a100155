-- ===== src/Base/Decimal.antt =====
-- `str` of a natural number and `int` of a text of decimal digits.
pub mod Read
use Prim.Native.Char.{code}
use Prim.Native.Nat.{ℕ, zero, suc, ◌+◌, ◌-◌, ◌*◌, ◌/◌, ◌%◌}
use Prim.Native.String.{String, ◌++◌ as ◌<>◌}
use mathlib.Core.Path.{◌≡◌, refl}
use mathlib.Core.Bool.{Bool, ◌&&◌}
use mathlib.Core.Option.{Option, none, some}
use nixpkgs_llvm_ws.Base.Equality.{if◌then◌else◌, ltb, leb}

unfoldable pub digit : ℕ → String
digit zero = "0"
digit (suc zero) = "1"
digit (suc (suc zero)) = "2"
digit (suc (suc (suc zero))) = "3"
digit (suc (suc (suc (suc zero)))) = "4"
digit (suc (suc (suc (suc (suc zero))))) = "5"
digit (suc (suc (suc (suc (suc (suc zero)))))) = "6"
digit (suc (suc (suc (suc (suc (suc (suc zero))))))) = "7"
digit (suc (suc (suc (suc (suc (suc (suc (suc zero)))))))) = "8"
digit _ = "9"

-- The number loses a digit in each round, so `suc n` rounds suffice.
unfoldable pub str_rounds : ℕ → ℕ → String
str_rounds zero n = ""
str_rounds (suc fuel) n =
    let front = str_rounds fuel (n / 10) in if ltb n 10 then digit n else front <> digit (n % 10)

-- `str(n)`
unfoldable pub str : ℕ → String
unfolding str_rounds digit
str n = str_rounds (suc n) n

abbrev pub is_digit : ℕ → Bool
is_digit c = leb b'0' c && leb c b'9'

-- The digits of the text behind those that were read as `n`; `none` is a `ValueError`.
unfoldable pub int_onto : ℕ → String → Option ℕ
int_onto n String.[] = some n
int_onto n (String.◌∷◌ c s) =
    if is_digit (code c) then int_onto (n * 10 + (code c - b'0')) s else none

-- `int(s)` of a text without sign, spaces and underscores.
unfoldable pub int : String → Option ℕ
unfolding int_onto
int String.[] = none
int (String.◌∷◌ c s) = int_onto 0 (String.◌∷◌ c s)

str_example : str 1204 ≡ "1204"
unfolding str
str_example = refl

int_example : int "1204" ≡ some 1204
unfolding int
int_example = refl
