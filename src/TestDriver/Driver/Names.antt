-- ===== src/TestDriver/Driver/Names.antt =====
-- `pythonize_name` of nixos/lib/test-driver/test_driver/driver.py: the variable of a machine.
use Prim.Native.Char.{Char, code}
use nixpkgs_llvm_ws.Base.{
  ℕ, String, ◌≡◌, ◌≢◌, refl, Bool, true, false, ◌&&◌, ◌||◌, leb, if◌then◌else◌, ◌==◌, nat_eq, arith,
}

-- The class `A-z` holds what stands between `Z` and `a`: [ \ ] ^ _ and the backquote.
abbrev pub is_a_to_z : ℕ → Bool
is_a_to_z c = leb 65 c && leb c 122

abbrev pub is_a_to_z_or_digit : ℕ → Bool
is_a_to_z_or_digit c = is_a_to_z c || leb 48 c && leb c 57

abbrev pub underscore : Char
underscore = Char.char 95 tt

-- The second branch of the pattern, on each character.
unfoldable pub replaced : String → String
replaced String.[] = ""
replaced (String.◌∷◌ c s) =
    let rest = replaced s in String.◌∷◌ (if is_a_to_z_or_digit (code c) then c else underscore) rest

-- The first branch is tried at the start of the text only.
unfoldable pub pythonize_name : String → String
unfolding replaced
pythonize_name String.[] = ""
pythonize_name (String.◌∷◌ c s) =
    String.◌∷◌ (if is_a_to_z (code c) then c else underscore) (replaced s)

abbrev is_letter : ℕ → Bool
is_letter c = leb 65 c && leb c 90 || leb 97 c && leb c 122 || c == 95

abbrev is_part : ℕ → Bool
is_part c = is_letter c || leb 48 c && leb c 57

-- The characters `[`, `\`, `]`, `^` and the backquote.
abbrev pub between : ℕ → Bool
between c = leb 91 c && leb c 94 || c == 96

unfoldable pub has_between : String → Bool
has_between String.[] = false
has_between (String.◌∷◌ c s) = between (code c) || has_between s

unfoldable pub all_parts : String → Bool
all_parts String.[] = true
all_parts (String.◌∷◌ c s) = is_part (code c) && all_parts s

-- A name in Python, of ASCII characters.
unfoldable pub is_identifier : String → Bool
unfolding all_parts
is_identifier String.[] = false
is_identifier (String.◌∷◌ c s) = is_letter (code c) && all_parts s

filled :
    (p : ℕ → Bool)
    → p 95 ≡ true
    → (b : Bool) (c : Char) → (b ≡ true → p (code c) ≡ true)
    → p (code (if b then c else underscore)) ≡ true
filled p other true c kept = kept refl
filled p other false c kept = other

letter_lem : (n : ℕ) → between n ≡ false → is_a_to_z n ≡ true → is_letter n ≡ true
letter_lem n free kept = ground arith

part_lem : (n : ℕ) → between n ≡ false → is_a_to_z_or_digit n ≡ true → is_part n ≡ true
part_lem n free kept = ground arith

has_between-cons :
    (c : Char) (s : String)
    → has_between (String.◌∷◌ c s) ≡ false
    → (between (code c) ≡ false) × (has_between s ≡ false)
unfolding has_between
has_between-cons c s free = ground arith

&&-true : (a b : Bool) → a ≡ true → b ≡ true → (a && b) ≡ true
&&-true a b p q = ground arith

replaced_parts : (s : String) → has_between s ≡ false → all_parts (replaced s) ≡ true
unfolding replaced all_parts nat_eq
replaced_parts String.[] free = refl
replaced_parts (String.◌∷◌ c s) free =
    let (here, there) = has_between-cons c s free in
    &&-true (is_part (code (if is_a_to_z_or_digit (code c) then c else underscore)))
      (all_parts (replaced s))
      (filled is_part refl (is_a_to_z_or_digit (code c)) c (part_lem (code c) here))
      (replaced_parts s there)

-- A machine name that is not empty, and that has none of the characters `[`, `\`, `]`, `^` and the
-- backquote, becomes a Python name.
pub is_identifier-pythonize_name :
    (s : String) → s ≢ "" → has_between s ≡ false → is_identifier (pythonize_name s) ≡ true
unfolding pythonize_name is_identifier nat_eq
is_identifier-pythonize_name String.[] given free = absurd (given refl)
is_identifier-pythonize_name (String.◌∷◌ c s) given free =
    let (here, there) = has_between-cons c s free in
    &&-true (is_letter (code (if is_a_to_z (code c) then c else underscore)))
      (all_parts (replaced s))
      (filled is_letter refl (is_a_to_z (code c)) c (letter_lem (code c) here))
      (replaced_parts s there)
