-- ===== src/Tests/Logger.antt =====
-- Runs of the loggers.
use nixpkgs_llvm_ws.Base.{ℕ, String, Bool, true, [], ◌∷◌, ◌≡◌, refl, leb, string_eq}
use nixpkgs_llvm_ws.Base.{ok, err, raise}
use nixpkgs_llvm_ws.TestDriver.Errors.{Error, exception, system_exit}
use nixpkgs_llvm_ws.TestDriver.Logger.{composite_logger}
use nixpkgs_llvm_ws.TestDriver.Logger.Script.{Step, Steps, nil, cons, run_steps}
use nixpkgs_llvm_ws.TestDriver.Logger.Junit
use nixpkgs_llvm_ws.TestDriver.Logger.Junit.{junit_logger}
use nixpkgs_llvm_ws.TestDriver.Logger.Junit.Cases.{case_of}
use nixpkgs_llvm_ws.TestDriver.Logger.Junit.Attributed.{
  output_of_all, fails_in_any, run_steps-new_logger,
}
use nixpkgs_llvm_ws.TestDriver.Logger.Xml
use nixpkgs_llvm_ws.TestDriver.Logger.Xml.Closed.{closes, close-closes}
use nixpkgs_llvm_ws.TestDriver.Logger.Terminal
use nixpkgs_llvm_ws.TestDriver.Logger.Terminal.{Style, terminal_logger}
use nixpkgs_llvm_ws.TestDriver.Driver.Subtest.{
  is_exception, Answers, subtest, subtest-composite_logger,
}

abbrev steps : Steps
steps = cons (Step.logs "begin") (
    cons
      (Step.in_subtest "boots"
        (cons (Step.prints "Linux" "server") (cons (Step.errs "no network") nil)))
      (cons (Step.logs "end") nil))

run_steps-new_logger_example :
    (t : Junit.State) × (run_steps junit_logger steps Junit.new_logger ≡ (ok tt, t))
    × (t.current_subtest ≡ "main")
    × ((k : String) → (case_of k t).stdout ≡ output_of_all k "main" true steps)
    × ((k : String) → (case_of k t).failure ≡ fails_in_any k "main" steps)
run_steps-new_logger_example = run_steps-new_logger steps

abbrev is_control : ℕ → Bool
is_control c = leb c 31

abbrev two_decimals : ℕ → String
two_decimals n = "0.00"

close-closes_example :
    (t : Xml.State) × (run_steps (Xml.xml_logger is_control two_decimals) steps (Xml.new_logger 3)
      ≡ (ok tt, t))
    × (closes (Xml.close t).xml [] ≡ true)
close-closes_example = close-closes is_control two_decimals steps 3

abbrev plain : Style
plain = record { bright_green = ""; dim = ""; reset_all = ""; two_decimals = two_decimals }

abbrev shown : Error → String
shown (exception message) = message
shown e = ""

terminal-Answers : Answers (terminal_logger plain)
unfolding terminal_logger
terminal-Answers = record { subtest = λ name s. (_, _, refl); error = λ message s. (_, refl) }

abbrev screen : Terminal.State
screen = record { lines = []; print_serial_logs = true; now = 0 }

subtest-composite_logger_example :
    (t : Terminal.State) × (subtest
        (composite_logger (terminal_logger plain ∷ []))
        shown
        "boots"
        (raise {A = Unit {0}} (exception "no network"))
        screen
      ≡ (err (system_exit 1), t))
unfolding is_exception
subtest-composite_logger_example =
    subtest-composite_logger (terminal_logger plain ∷ []) (terminal-Answers, tt) shown "boots"
      (raise (exception "no network")) screen (λ t. (exception "no network", t, refl, refl))
