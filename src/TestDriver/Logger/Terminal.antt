-- ===== src/TestDriver/Logger/Terminal.antt =====
-- `TerminalLogger`: lines on standard error, with the colours of the library `colorama`.
use nixpkgs_llvm_ws.Base.{
  ℕ, ◌-◌, String, ◌<>◌, List, [], ◌∷◌, ◌++◌, Bool, true, if◌then◌else◌, none, some, string_eq,
}
use nixpkgs_llvm_ws.Base.{Action, ok, modify, ◌>>◌}
use nixpkgs_llvm_ws.Base.Dict.{lookup}
use nixpkgs_llvm_ws.TestDriver.Errors.{Error}
use nixpkgs_llvm_ws.TestDriver.Logger.{Attributes, Context, Logger}

-- The texts that switch the style, and the format of the times.
pub record Style : Type 0 where
  pub bright_green : String
  pub dim : String
  pub reset_all : String
  pub two_decimals : ℕ → String

-- `now` is the clock.
pub record State : Type 0 where
  pub lines : List String
  pub print_serial_logs : Bool
  pub now : ℕ

unfoldable pub new_logger : ℕ → State
new_logger now = record { lines = []; print_serial_logs = true; now = now }

unfoldable pub maybe_prefix : String → Attributes → String
unfolding lookup string_eq
maybe_prefix message attributes = elim (lookup "machine" attributes) [
  | none ↦ message
  | some machine ↦ machine <> ": " <> message
]

-- `_eprint`
abbrev pub eprint : String → Action State Error (Unit {0})
eprint line = modify (λ s. record s { lines = s.lines ++ line ∷ [] })

unfoldable pub log : String → Attributes → Action State Error (Unit {0})
unfolding maybe_prefix
log message attributes = eprint (maybe_prefix message attributes)

module _ (style : Style) where
  open style use {bright_green, dim, reset_all, two_decimals}

  unfoldable pub finished : String → ℕ → Action State Error (Unit {0})
  unfolding log
  finished message tic s =
      log ("(finished: " <> message <> ", in " <> two_decimals (s.now - tic) <> " seconds)") [] s

  unfoldable pub nested : String → Attributes → Context State
  unfolding maybe_prefix finished
  nested message attributes = do
    eprint (maybe_prefix (bright_green <> message <> reset_all) attributes)
    λ s. (ok (finished message s.now), s)

  unfoldable pub subtest : String → Attributes → Context State
  unfolding nested
  subtest name attributes = nested ("subtest: " <> name) attributes

  unfoldable pub log_serial : String → String → Action State Error (Unit {0})
  log_serial message machine s =
      if s.print_serial_logs
      then eprint (dim <> (machine <> " # " <> message) <> reset_all) s
      else (ok tt, s)

  unfoldable pub terminal_logger : Logger State
  unfolding log nested subtest log_serial
  terminal_logger = record {
    log = log;
    subtest = subtest;
    nested = nested;
    info = log;
    warning = log;
    error = log;
    log_serial = log_serial;
    print_serial_logs = λ enable. modify (λ s. record s { print_serial_logs = enable });
  }
