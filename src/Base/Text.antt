-- ===== src/Base/Text.antt =====
-- Python's operations on texts, by recursion on the characters.
use Prim.Native.Char.{code}
use Prim.Native.Nat.{ℕ}
use Prim.Native.String.{String, ◌++◌ as ◌<>◌}
use mathlib.Core.Bool.{Bool, true, false, ◌&&◌, ◌||◌}
use mathlib.Core.Option.{Option, none, some}
use mathlib.Core.List.{List, [], ◌∷◌}
use nixpkgs_llvm_ws.Base.Equality.{◌==◌, nat_eq, string_eq, if◌then◌else◌, leb}

-- ASCII white space.
abbrev pub is_space : ℕ → Bool
is_space c = c == 32 || leb 9 c && leb c 13

-- `s.lstrip(…)` by the characters to strip.
unfoldable pub lstrip : (ℕ → Bool) → String → String
lstrip p String.[] = ""
lstrip p (String.◌∷◌ c s) = let rest = lstrip p s in if p (code c) then rest else String.◌∷◌ c s

unfoldable pub rstrip : (ℕ → Bool) → String → String
rstrip p String.[] = ""
rstrip p (String.◌∷◌ c s) =
    let rest = rstrip p s in if rest == "" && p (code c) then "" else String.◌∷◌ c rest

unfoldable pub strip : (ℕ → Bool) → String → String
unfolding lstrip rstrip
strip p s = rstrip p (lstrip p s)

-- What follows the prefix, if the text begins with it.
unfoldable pub after_prefix : String → String → Option String
after_prefix String.[] s = some s
after_prefix (String.◌∷◌ p ps) String.[] = none
after_prefix (String.◌∷◌ p ps) (String.◌∷◌ c s) =
    let rest = after_prefix ps s in if code p == code c then rest else none

-- `s.startswith(prefix)`
unfoldable pub starts_with : String → String → Bool
unfolding after_prefix
starts_with s prefix = elim (after_prefix prefix s) [ none ↦ false | some _ ↦ true ]

-- `c in s` for a character
unfoldable pub has_char : ℕ → String → Bool
has_char k String.[] = false
has_char k (String.◌∷◌ c s) = code c == k || has_char k s

-- `sub in s`
unfoldable pub has_text : String → String → Bool
unfolding starts_with
has_text sub String.[] = sub == ""
has_text sub (String.◌∷◌ c s) = starts_with (String.◌∷◌ c s) sub || has_text sub s

-- `s.endswith(c)` for a character
unfoldable pub ends_with_char : ℕ → String → Bool
ends_with_char k String.[] = false
ends_with_char k (String.◌∷◌ c s) =
    let rest = ends_with_char k s in if s == "" then code c == k else rest

-- `os.path.join(a, b)`
unfoldable pub join : String → String → String
unfolding starts_with ends_with_char
join a b =
    if starts_with b "/"
    then b
    else if a == "" || ends_with_char b'/' a
    then a <> b
    else a <> "/" <> b

unfoldable pub join_all : String → List String → String
unfolding join
join_all a [] = a
join_all a (b ∷ bs) = join_all (join a b) bs
