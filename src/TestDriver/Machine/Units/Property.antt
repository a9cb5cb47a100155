-- ===== src/TestDriver/Machine/Units/Property.antt =====
-- The line of a property is read back.
use Prim.Native.Char.{Char, code}
use nixpkgs_llvm_ws.Base.{
  String, ◌<>◌, ◌≡◌, ◌∙◌, ap, refl, false, some, ◌==◌, string_eq, nat_eq, arith,
}
use text.Mathlib.TextLemmas.{nil-append, cons-append}
use nixpkgs_llvm_ws.Base.Text.{has_char}
use nixpkgs_llvm_ws.TestDriver.Machine.Units.{cut, without_newline, line_pattern}

abbrev pub equals_sign : Char
equals_sign = "="

cut-cons :
    (c : Char) (s value : String)
    → (code c == b'=') ≡ false
    → cut (s <> String.◌∷◌ equals_sign value) ≡ some (s, value)
    → cut (String.◌∷◌ c (s <> String.◌∷◌ equals_sign value)) ≡ some (String.◌∷◌ c s, value)
unfolding cut
cut-cons c s value h e = ground arith

cut-line :
    (property value : String)
    → has_char b'=' property ≡ false
    → cut (property <> String.◌∷◌ equals_sign value) ≡ some (property, value)
unfolding cut has_char nat_eq
cut-line String.[] value h = ap cut (nil-append (String.◌∷◌ equals_sign value))
cut-line (String.◌∷◌ c s) value h =
    ap cut (cons-append c s (String.◌∷◌ equals_sign value))
    ∙ cut-cons c s value (ground arith) (cut-line s value (ground arith))

without_newline-none :
    (value : String) → has_char b'\n' value ≡ false → without_newline value ≡ value
unfolding without_newline has_char
without_newline-none String.[] h = refl
without_newline-none (String.◌∷◌ c s) h = let rest = without_newline-none s in ground arith

line_pattern-cut :
    (line property value : String)
    → cut line ≡ some (property, value)
    → (property == "") ≡ false
    → without_newline value ≡ value
    → has_char b'\n' value ≡ false
    → line_pattern line ≡ some (property, value)
unfolding line_pattern
line_pattern-cut line property value parts nonempty same one_line = ground arith

-- `line_pattern` reads a property and its value back from their line, when the property is not
-- empty and has no `=`, and the value has no newline.
pub line_pattern-line :
    (property value : String)
    → (property == "") ≡ false
    → has_char b'=' property ≡ false
    → has_char b'\n' value ≡ false
    → line_pattern (property <> String.◌∷◌ equals_sign value) ≡ some (property, value)
line_pattern-line property value nonempty name line =
    line_pattern-cut (property <> String.◌∷◌ equals_sign value) property value
      (cut-line property value name) nonempty (without_newline-none value line) line
