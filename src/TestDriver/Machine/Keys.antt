-- ===== src/TestDriver/Machine/Keys.antt =====
-- `CHAR_TO_KEY` of machine.py, and the calls that type on the virtual keyboard.
use nixpkgs_llvm_ws.Base.{
  ℕ, String, ◌<>◌, List, [], ◌∷◌, Bool, false, if◌then◌else◌, Option, none, some, string_eq,
}
use nixpkgs_llvm_ws.Base.{modify, done, for_each, ◌>>◌}
use mathlib.Core.Option
use nixpkgs_llvm_ws.Base.Dict.{Dict, lookup}
use nixpkgs_llvm_ws.TestDriver.Machine.Shell.{Outside, Call, log, send_monitor_command}

abbrev pub char_to_key : Dict String String
char_to_key =
    ("A", "shift-a")
    ∷ ("N", "shift-n")
    ∷ ("-", "0x0C")
    ∷ ("_", "shift-0x0C")
    ∷ ("B", "shift-b")
    ∷ ("O", "shift-o")
    ∷ ("=", "0x0D")
    ∷ ("+", "shift-0x0D")
    ∷ ("C", "shift-c")
    ∷ ("P", "shift-p")
    ∷ ("[", "0x1A")
    ∷ ("{", "shift-0x1A")
    ∷ ("D", "shift-d")
    ∷ ("Q", "shift-q")
    ∷ ("]", "0x1B")
    ∷ ("}", "shift-0x1B")
    ∷ ("E", "shift-e")
    ∷ ("R", "shift-r")
    ∷ (";", "0x27")
    ∷ (":", "shift-0x27")
    ∷ ("F", "shift-f")
    ∷ ("S", "shift-s")
    ∷ ("'", "0x28")
    ∷ ("\"", "shift-0x28")
    ∷ ("G", "shift-g")
    ∷ ("T", "shift-t")
    ∷ ("`", "0x29")
    ∷ ("~", "shift-0x29")
    ∷ ("H", "shift-h")
    ∷ ("U", "shift-u")
    ∷ ("\\", "0x2B")
    ∷ ("|", "shift-0x2B")
    ∷ ("I", "shift-i")
    ∷ ("V", "shift-v")
    ∷ (",", "0x33")
    ∷ ("<", "shift-0x33")
    ∷ ("J", "shift-j")
    ∷ ("W", "shift-w")
    ∷ (".", "0x34")
    ∷ (">", "shift-0x34")
    ∷ ("K", "shift-k")
    ∷ ("X", "shift-x")
    ∷ ("/", "0x35")
    ∷ ("?", "shift-0x35")
    ∷ ("L", "shift-l")
    ∷ ("Y", "shift-y")
    ∷ (" ", "spc")
    ∷ ("M", "shift-m")
    ∷ ("Z", "shift-z")
    ∷ ("\n", "ret")
    ∷ ("!", "shift-0x02")
    ∷ ("@", "shift-0x03")
    ∷ ("#", "shift-0x04")
    ∷ ("$", "shift-0x05")
    ∷ ("%", "shift-0x06")
    ∷ ("^", "shift-0x07")
    ∷ ("&", "shift-0x08")
    ∷ ("*", "shift-0x09")
    ∷ ("(", "shift-0x0A")
    ∷ (")", "shift-0x0B")
    ∷ []

-- `CHAR_TO_KEY.get(key, key)`
unfoldable pub key_of : String → String
unfolding lookup string_eq
key_of key = Option.get_or (lookup key char_to_key) key

-- The log entry and the delay of `send_key`.
module _ (O : Outside) where
  unfoldable pub announced : Bool → String → Call O (Unit {0})
  unfolding key_of
  announced logged key = if logged then log O ("sending key " <> key_of key) else done

  unfoldable pub paused : Option ℕ → Call O (Unit {0})
  paused none = done
  paused (some ticks) = modify (λ m. record m { world = O.sleep ticks m.world })

module _ (O : Outside) (callbacks : List (Call O (Unit {0}))) where
  unfoldable pub send_key : String → Option ℕ → Bool → Call O (Unit {0})
  unfolding send_monitor_command key_of announced paused
  send_key key delay logged = do
    announced O logged key
    send_monitor_command O callbacks ("sendkey " <> key_of key)
    paused O delay

  -- `send_chars`, over the characters of its text.
  unfoldable pub send_chars : List String → Option ℕ → Call O (Unit {0})
  unfolding for_each send_key
  send_chars chars delay = for_each (λ char. send_key char delay false) chars
