-- ===== src/TaskServer/Export/Quoting.antt =====
-- The word that `User.export` writes, as a POSIX shell reads it.
use Prim.Native.Char.{Char, code}
use text.Mathlib.TextLemmas.{cons-append}
use text.Mathlib.TextEquality.{Char-path}
use mathlib.Core.Option
use nixpkgs_llvm_ws.Base.{
  String, ◌<>◌, ◌≡◌, refl, sym, Bool, true, false, not, ◌&&◌, ◌||◌, leb, ◌==◌, nat_eq, ℕ,
}
use nixpkgs_llvm_ws.Base.{if◌then◌else◌, Option, none, some, ap, ◌∙◌, arith, Bool-cases, inl, inr}
use nixpkgs_llvm_ws.TaskServer.Export.{
  allow_unquoted, all_unquoted, apostrophe, backslash, escape_apostrophes, credentials_word,
}

-- Where the reader of a word stands: `bad` behind a character that ends the word or means something
-- to the shell.
pub data Mode : Type 0 where
  plain quoted escaped bad : Mode

-- The characters that stand for themselves outside quotes: here, letters, digits and `/-_.`.
abbrev is_word_character : ℕ → Bool
is_word_character c =
    leb b'a' c && leb c b'z' || leb b'A' c && leb c b'Z' || leb b'-' c && leb c b'9' || c == b'_'

step : Mode → ℕ → Mode
step plain c =
    if c == b'\''
    then quoted
    else if c == b'\\'
    then escaped
    else if is_word_character c
    then plain
    else bad
step quoted c = if c == b'\'' then plain else quoted
step escaped c = plain
step bad c = bad

-- Whether the character becomes part of the word's value.
emits : Mode → ℕ → Bool
emits plain c = not (c == b'\'') && not (c == b'\\')
emits quoted c = not (c == b'\'')
emits escaped c = true
emits bad c = false

-- The value of a text as one shell word; `none` if it is not one word.
read_from : Mode → String → Option String
read_from plain String.[] = some ""
read_from quoted String.[] = none
read_from escaped String.[] = none
read_from bad String.[] = none
read_from m (String.◌∷◌ c s) =
    let rest = read_from (step m (code c)) s in
    if emits m (code c) then Option.map (λ t. String.◌∷◌ c t) rest else rest

unfoldable pub shell_word : String → Option String
unfolding read_from emits step
shell_word = read_from plain

read_allowed :
    (c : Char) (s : String)
    → allow_unquoted (code c) ≡ true
    → read_from plain (String.◌∷◌ c s) ≡ Option.map (λ t. String.◌∷◌ c t) (read_from plain s)
unfolding read_from emits step allow_unquoted
read_allowed c s h = ground arith

read_unquoted : (s : String) → all_unquoted s ≡ true → read_from plain s ≡ some s
unfolding all_unquoted read_from
read_unquoted String.[] h = refl
read_unquoted (String.◌∷◌ c s) h =
    read_allowed c s (ground arith)
    ∙ ap (Option.map (λ t. String.◌∷◌ c t)) (read_unquoted s (ground arith))

-- Inside quotes every character but the apostrophe stands for itself, and the four characters
-- that replace an apostrophe stand for it.
read_quoted :
    (c : Char) (s : String)
    → (code c == b'\'') ≡ false
    → read_from quoted (String.◌∷◌ c s) ≡ Option.map (λ t. String.◌∷◌ c t) (read_from quoted s)
unfolding read_from emits step
read_quoted c s h = ground arith

read_apostrophe :
    (s : String)
    → read_from quoted (
        String.◌∷◌ apostrophe
          (String.◌∷◌ backslash (String.◌∷◌ apostrophe (String.◌∷◌ apostrophe s))))
      ≡ Option.map (λ t. String.◌∷◌ apostrophe t) (read_from quoted s)
unfolding read_from emits step nat_eq
read_apostrophe s = refl

read_end : read_from quoted ("" <> "'") ≡ some ""
unfolding read_from emits step nat_eq
read_end = refl

read_escaped : (s : String) → read_from quoted (escape_apostrophes s <> "'") ≡ some s
unfolding escape_apostrophes
read_escaped String.[] = read_end
read_escaped (String.◌∷◌ c s) = elim (Bool-cases (code c == b'\'')) [
  | inl same ↦
      let e : c ≡ apostrophe = Char-path c apostrophe (ground arith) in
      rw same (
        simp cons-append (
          read_apostrophe (escape_apostrophes s <> "'")
          ∙ ap (Option.map (λ t. String.◌∷◌ apostrophe t)) (read_escaped s)
          ∙ ap (λ d. some (String.◌∷◌ d s)) (sym e)))
  | inr other ↦ rw other (
      rw cons-append (
        read_quoted c (escape_apostrophes s <> "'") other
        ∙ ap (Option.map (λ t. String.◌∷◌ c t)) (read_escaped s)))
]

-- A shell that reads the exported word gets the credentials, whatever characters they hold.
pub shell_word-credentials_word :
    (credentials : String) → shell_word (credentials_word credentials) ≡ some credentials
unfolding shell_word credentials_word nat_eq
shell_word-credentials_word s = elim (Bool-cases (all_unquoted s)) [
  | inl safe ↦ rw safe (read_unquoted s safe)
  | inr unsafe ↦ rw unsafe (read_escaped s)
]
