-- ===== src/SystemdBoot/Text.antt =====
-- Texts as lists of code points, and lines.
use Prim.Native.Char.{code}
use nixpkgs_llvm_ws.Base.{ℕ, String, List, [], ◌∷◌, ◌++◌, false, if◌then◌else◌, ◌==◌, nat_eq, Eq}
use nixpkgs_llvm_ws.Base.{◌≡◌, ◌≢◌}
use nixpkgs_llvm_ws.Base.Lists.{All}
use native.Mathlib.Decide.{ℕ_discrete}

abbrev pub Text : Type 0
Text = List ℕ

abbrev pub codes : String → Text
codes String.[] = []
codes (String.◌∷◌ c s) = code c ∷ codes s

list_dec : Discrete Text
list_dec = hlevel ℕ_discrete

instance unfoldable pub text_eq : Eq Text
unfolding list_dec
text_eq = record { dec = list_dec }

-- `"\n".join(lines)`
unfoldable pub join_lines : List Text → Text
join_lines [] = []
join_lines (l ∷ []) = l
join_lines (l ∷ m ∷ ls) = l ++ (10 ∷ join_lines (m ∷ ls))

-- Puts a character at the head of the first line.
unfoldable pub onto_first : ℕ → List Text → List Text
onto_first c [] = (c ∷ []) ∷ []
onto_first c (l ∷ ls) = (c ∷ l) ∷ ls

-- `s.splitlines()` of a text whose only line ends are `\n`.
unfoldable pub split_lines : Text → List Text
unfolding onto_first
split_lines [] = []
split_lines (c ∷ s) = let rest = split_lines s in if c == 10 then [] ∷ rest else onto_first c rest

abbrev pub IsLine : Text → Type 0
IsLine l = (l ≢ []) × All (λ c. (c == 10) ≡ false) l
