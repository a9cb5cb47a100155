-- ===== src/SystemdBoot/SortKey.antt =====
-- The sort keys: the smallest of the generations', and the key in front of it that the default entry
-- gets, so that systemd-boot lists it first.
pub mod First
use nixpkgs_llvm_ws.Base.{
  ℕ, ◌-◌, List, [], ◌∷◌, ◌++◌, Bool, true, false, ltb, ◌||◌, if◌then◌else◌, ◌==◌, nat_eq, Option,
  none, some,
}
use mathlib.Core.Option
use nixpkgs_llvm_ws.SystemdBoot.Text.{Text, codes, text_eq}

-- `s < t` for texts
unfoldable pub lt_text : Text → Text → Bool
lt_text s [] = false
lt_text [] (d ∷ t) = true
lt_text (c ∷ s) (d ∷ t) = let rest = lt_text s t in if c == d then rest else ltb c d

-- `sorted_first[:-1] + chr(ord(sorted_first[-1])-1) + "-default"`; `none` is the exception for an empty
-- key, or for one that ends in the character 0.
unfoldable pub default_sort_key : Text → Option Text
default_sort_key [] = none
default_sort_key (c ∷ []) = if c == 0 then none else some ((c - 1) ∷ codes "-default")
default_sort_key (c ∷ d ∷ s) = Option.map (λ k. c ∷ k) (default_sort_key (d ∷ s))

-- The loop that computes `sorted_first`, over the sort keys of the generations.
unfoldable pub first_key : Text → List Text → Text
unfolding lt_text text_eq
first_key acc [] = acc
first_key acc (k ∷ ks) = first_key (if lt_text k acc || acc == [] then k else acc) ks

unfoldable pub sorted_first : List Text → Text
unfolding first_key
sorted_first keys = first_key [] keys
