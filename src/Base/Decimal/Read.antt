-- ===== src/Base/Decimal/Read.antt =====
-- `int` reads back what `str` writes.
use Prim.Native.Char.{code}
use Prim.Native.Nat.{ℕ, zero, suc, ◌+◌, ◌-◌, ◌*◌, ◌/◌, ◌%◌, ◌<◌, ◌≤◌}
use Prim.Native.String.{String, ◌++◌ as ◌<>◌}
use text.Mathlib.TextLemmas.{cons-append, nil-append}
use mathlib.Core.Path.{◌≡◌, refl, ◌∙◌, ap}
use mathlib.Core.Option.{none, some}
use native.Mathlib.Omega.{arith}
use mathlib.Core.Logic.{inl, inr}
use nixpkgs_llvm_ws.Base.Equality.{Bool-cases, ltb}
use nixpkgs_llvm_ws.Base.Decimal.{digit, str_rounds, str, int_onto, int}

int_onto-digit : (a n : ℕ) → n < 10 → int_onto a (digit n) ≡ some (a * 10 + n)
unfolding int_onto digit
int_onto-digit a zero h = refl
int_onto-digit a (suc zero) h = refl
int_onto-digit a (suc (suc zero)) h = refl
int_onto-digit a (suc (suc (suc zero))) h = refl
int_onto-digit a (suc (suc (suc (suc zero)))) h = refl
int_onto-digit a (suc (suc (suc (suc (suc zero))))) h = refl
int_onto-digit a (suc (suc (suc (suc (suc (suc zero)))))) h = refl
int_onto-digit a (suc (suc (suc (suc (suc (suc (suc zero))))))) h = refl
int_onto-digit a (suc (suc (suc (suc (suc (suc (suc (suc zero)))))))) h = refl
int_onto-digit a (suc (suc (suc (suc (suc (suc (suc (suc (suc zero))))))))) h = refl
int_onto-digit a (suc (suc (suc (suc (suc (suc (suc (suc (suc (suc n)))))))))) h =
    absurd (omega arith)

int_onto-append :
    (a b : ℕ) (x y : String) → int_onto a x ≡ some b → int_onto a (x <> y) ≡ int_onto b y
unfolding int_onto
int_onto-append a b String.[] y read =
    ap (int_onto a) (nil-append y)
    ∙ ap (λ o. elim o [ none ↦ int_onto b y | some z ↦ int_onto z y ]) read
int_onto-append a b (String.◌∷◌ c x) y read =
    ap (int_onto a) (cons-append c x y)
    ∙ ground (arith, int_onto-append (a * 10 + (code c - b'0')) b x y)

shorter : (n fuel : ℕ) → n < suc fuel → 10 ≤ n → n / 10 < fuel
shorter n fuel h large = omega arith

onto_zero : (n : ℕ) → 0 * 10 + n ≡ n
onto_zero n = omega arith

restored : (n : ℕ) → n / 10 * 10 + n % 10 ≡ n
restored n = omega arith

int_onto-str_rounds : (fuel n : ℕ) → n < fuel → int_onto 0 (str_rounds fuel n) ≡ some n
unfolding str_rounds
int_onto-str_rounds zero n h = absurd (omega arith)
int_onto-str_rounds (suc fuel) n h = elim (Bool-cases (ltb n 10)) [
  | inl small ↦ rw small (int_onto-digit 0 n (ground arith) ∙ ap some (onto_zero n))
  | inr large ↦ rw large (
      int_onto-append 0 (n / 10) (str_rounds fuel (n / 10)) (digit (n % 10))
        (int_onto-str_rounds fuel (n / 10) (shorter n fuel h (ground arith)))
      ∙ int_onto-digit (n / 10) (n % 10) (omega arith)
      ∙ ap some (restored n))
]

nonempty : (s : String) (n : ℕ) → int_onto 0 s ≡ some (suc n) → int s ≡ some (suc n)
unfolding int int_onto
nonempty String.[] n read = cc
nonempty (String.◌∷◌ c s) n read = read

pub int-str : (n : ℕ) → int (str n) ≡ some n
unfolding str int str_rounds int_onto digit
int-str zero = refl
int-str (suc n) = nonempty (str (suc n)) n (int_onto-str_rounds (suc (suc n)) (suc n) (omega arith))
