-- ===== src/TestDriver/Logger/Junit.antt =====
-- `JunitXMLLogger`: what was logged, by subtests.
pub mod Cases
pub mod Attributed
use nixpkgs_llvm_ws.Base.{
  String, ◌<>◌, List, [], ◌∷◌, Bool, true, false, if◌then◌else◌, Option, none, some, ◌==◌,
  string_eq,
}
use nixpkgs_llvm_ws.Base.{Action, ok, err, pure, done, modify, ◌>>=◌, ◌>>◌}
use nixpkgs_llvm_ws.Base.Dict.{Dict, lookup, insert}
use nixpkgs_llvm_ws.TestDriver.Errors.{Error, key_error}
use nixpkgs_llvm_ws.TestDriver.Logger.{Attributes, Context, Logger}

pub record TestCaseState : Type 0 where
  pub stdout : String
  pub stderr : String
  pub failure : Bool

abbrev pub new_case : TestCaseState
new_case = record { stdout = ""; stderr = ""; failure = false }

pub record State : Type 0 where
  pub tests : Dict String TestCaseState
  pub current_subtest : String
  pub print_serial_logs : Bool

unfoldable pub new_logger : State
new_logger = record {
  tests = ("main", new_case) ∷ [];
  current_subtest = "main";
  print_serial_logs = true;
}

-- What `self.tests[self.currentSubtest]` is used for: the state of the case is replaced.
unfoldable pub on_case : (TestCaseState → TestCaseState) → Action State Error (Unit {0})
unfolding lookup insert string_eq
on_case f s = elim (lookup s.current_subtest s.tests) [
  | none ↦ (err (key_error s.current_subtest), s)
  | some c ↦ (ok tt, record s { tests = insert s.current_subtest (f c) s.tests })
]

abbrev pub to_stdout : String → TestCaseState → TestCaseState
to_stdout message c = record c { stdout = c.stdout <> (message <> "\n") }

abbrev pub to_stderr : String → TestCaseState → TestCaseState
to_stderr message c = record c { stderr = c.stderr <> (message <> "\n"); failure = true }

unfoldable pub log : String → Action State Error (Unit {0})
unfolding on_case
log message = on_case (to_stdout message)

unfoldable pub error : String → Action State Error (Unit {0})
unfolding on_case
error message = on_case (to_stderr message)

unfoldable pub log_serial : String → String → Action State Error (Unit {0})
unfolding log
log_serial message machine s =
    if s.print_serial_logs then log (machine <> " # " <> message) s else (ok tt, s)

unfoldable pub print_serial_logs : Bool → Action State Error (Unit {0})
print_serial_logs enable s = (ok tt, record s { print_serial_logs = enable })

-- `self.tests.setdefault(name, self.TestCaseState())`
unfoldable pub with_case : String → Dict String TestCaseState → Dict String TestCaseState
unfolding lookup insert string_eq
with_case name tests = elim (lookup name tests) [
  | none ↦ insert name new_case tests
  | some _ ↦ tests
]

unfoldable pub subtest : String → Context State
unfolding with_case
subtest name s = (
  ok (modify (λ u. record u { current_subtest = s.current_subtest })),
  record s { tests = with_case name s.tests; current_subtest = name },
)

unfoldable pub nested : String → Context State
unfolding log
nested message = log message >> pure done

unfoldable pub junit_logger : Logger State
unfolding log error log_serial print_serial_logs subtest nested
junit_logger = record {
  log = λ message attributes. log message;
  subtest = λ name attributes. subtest name;
  nested = λ message attributes. nested message;
  info = λ message attributes. log message;
  warning = λ message attributes. log message;
  error = λ message attributes. error message;
  log_serial = log_serial;
  print_serial_logs = print_serial_logs;
}

-- A test case of the library `junit_xml`: its name, its texts, and whether it has failed.
pub record TestCase : Type 0 where
  pub name : String
  pub stdout : String
  pub stderr : String
  pub failed : Bool

-- The test cases of `close`.
unfoldable pub test_cases : Dict String TestCaseState → List TestCase
test_cases [] = []
test_cases ((name, c) ∷ tests) =
    record { name = name; stdout = c.stdout; stderr = c.stderr; failed = c.failure }
    ∷ test_cases tests
