-- ===== src/Tests/TestDriver.antt =====
-- Runs of the test driver: retries, a polling condition, a machine and a QMP session.
use nixpkgs_llvm_ws.Base.{
  ℕ, zero, suc, ◌+◌, String, ◌<>◌, List, [], ◌∷◌, ◌≡◌, ◌↔◌, refl, Bool, true, false, not,
  if◌then◌else◌, Option, none, some, ◌==◌, string_eq, nat_eq, arith,
}
use nixpkgs_llvm_ws.Base.{Action, Result, ok, err, ◌⊎◌}
use nixpkgs_llvm_ws.Base.Int.{is_zero}
use nixpkgs_llvm_ws.Base.Text.{has_char}
use nixpkgs_llvm_ws.TestDriver.Errors.{Error, system_exit}
use nixpkgs_llvm_ws.TestDriver.Retry.{retry}
use nixpkgs_llvm_ws.TestDriver.Retry.Attempts.{Settles, verdict, retry-Settles}
use nixpkgs_llvm_ws.TestDriver.Retry.Budget.{WithinBudget, counting, recording, retry-WithinBudget}
use nixpkgs_llvm_ws.TestDriver.Polling
use nixpkgs_llvm_ws.TestDriver.Polling.{
  Tools, Settings, World, escapes, overdue, check, maybe_raise, status_message, opened,
  last_message,
}
use nixpkgs_llvm_ws.TestDriver.Polling.Throttle.{check-IsBalanced, maybe_raise-entered, check_again}
use nixpkgs_llvm_ws.TestDriver.Machine.Shell.{Outside, Machine, unmade}
use nixpkgs_llvm_ws.TestDriver.Machine.Script.{Op, perform_all}
use nixpkgs_llvm_ws.TestDriver.Machine.Devices.{Devices}
use nixpkgs_llvm_ws.TestDriver.Machine.Script.After.{IsSound}
use nixpkgs_llvm_ws.TestDriver.Machine.Script.Sound.{perform_all-IsSound}
use nixpkgs_llvm_ws.TestDriver.Machine.Commands.{succeed, fail}
use nixpkgs_llvm_ws.TestDriver.Machine.Commands.Outcome.{Ran, succeed_iff, fail_iff}
use nixpkgs_llvm_ws.TestDriver.Machine.Units.{line_pattern}
use nixpkgs_llvm_ws.TestDriver.Machine.Units.Property.{equals_sign, line_pattern-line}
use nixpkgs_llvm_ws.TestDriver.Qmp.{Message, Session, wait_for_new_result}
use nixpkgs_llvm_ws.TestDriver.Qmp.Order.{Read, wait_for_new_result-Read}

-- A call that answers `True` from the third second on; the world is the clock.
abbrev third_second : Bool → Action ℕ Error Bool
third_second last zero = (ok false, zero)
third_second last (suc zero) = (ok false, suc zero)
third_second last (suc (suc n)) = (ok true, suc (suc n))

abbrev seconds : ℕ → ℕ → ℕ
seconds n clock = clock + n

retry-Settles_example :
    (r : Result Error Bool) × (v : ℕ) × Settles seconds third_second 5 0 r v
    × (retry seconds third_second 5 0 ≡ (verdict 5 r, v))
retry-Settles_example = retry-Settles seconds third_second 5 0

retry-WithinBudget_example :
    let (_, (_, calls, slept)) =
      retry (counting seconds third_second) (recording seconds third_second) 5 (0, [], 0) in
    WithinBudget seconds third_second 5 calls slept
retry-WithinBudget_example = retry-WithinBudget seconds third_second 5 0

abbrev quiet : Tools ℕ
quiet = record {
  info = λ msg u. u + 1;
  nested_begin = λ msg u. u;
  nested_end = λ msg u. u;
  two_decimals = λ n. "0.00";
  repr = λ s. s;
}

abbrev every_two : Settings
every_two = record { seconds_interval = 2; description = "the disk is not full" }

abbrev never : Action (World ℕ) Error (Option Bool)
never w = (ok (some false), w)

abbrev idle : World ℕ
idle = record { now = 10; last_called = some 3; entry_count = 0; rest = 0 }

abbrev inside : World ℕ
inside = record { now = 10; last_called = some 3; entry_count = 1; rest = 0 }

check-IsBalanced_example :
    let (r, u) = check quiet every_two never true idle in
    (((b : Bool) × (r ≡ ok b)) ⊎ ((e : Error) × (r ≡ err e) × (escapes e ≡ true)))
    × (u.entry_count ≡ idle.entry_count)
check-IsBalanced_example = check-IsBalanced quiet every_two never (λ w. refl) true idle

maybe_raise-entered_example : maybe_raise quiet every_two never inside ≡ (ok tt, inside)
unfolding opened
maybe_raise-entered_example = maybe_raise-entered quiet every_two never idle inside refl

abbrev later : World ℕ
later = record { now = 11; last_called = some 10; entry_count = 0; rest = 7 }

check_again_example : check quiet every_two never false later ≡ (ok true, later)
unfolding check overdue Polling.run_condition opened
check_again_example =
    check_again quiet every_two never (λ w. refl) idle later refl refl refl (omega arith)

-- A condition that ends the process.
abbrev exiting : Action (World ℕ) Error (Option Bool)
exiting w = (err (system_exit 1), w)

-- A guest whose commands print nothing and exit with the status 0.
abbrev guest : Outside
guest = record {
  World = ℕ;
  shell_answer = λ text w. ("0\n" ∷ [], w + 1);
  create_sockets = λ w. (ok tt, w);
  run_qemu = λ reboots w. (ok 42, w + 1);
  accept_monitor = λ w. (ok tt, w);
  accept_shell = λ w. (ok ("Spawning backdoor root shell...\n" ∷ []), w);
  open_qmp = λ w. (ok tt, w);
  await_prompt = λ w. (ok tt, w);
  monitor = λ command w. ("(qemu) ", w + 1);
  wait_process = λ w. (ok tt, w);
  terminate = λ w. w;
  sleep = λ ms w. w;
  log = λ msg w. w;
  shlex_quote = λ s. s;
  b64decode = λ s. s;
}

-- A host whose screen shows nothing.
abbrev no_devices : Devices guest
no_devices = record {
  searches = λ regex text. true;
  splitlines = λ text. text ∷ [];
  join_names = λ names. "";
  file_as_base64 = λ source w. "";
  screen_text = λ path w. ([], w);
  converts = λ name w. (true, w);
  write_stdin = λ text w. w;
  next_line = λ w. (none, w);
}

abbrev machine : Machine guest
machine = record {
  name = "machine";
  booted = false;
  connected = false;
  pid = none;
  process = false;
  shell = unmade;
  monitor = unmade;
  world = 0;
}

abbrev script : List Op
script =
    Op.connects
    ∷ Op.executes "true" true true (some 900)
    ∷ Op.blocks
    ∷ Op.succeeds none ("true" ∷ [])
    ∷ Op.waits_for_unit "sshd" none 2
    ∷ Op.takes_screenshot "/out" "desktop"
    ∷ Op.waits_for_x 3
    ∷ Op.reboots
    ∷ Op.crashes
    ∷ []

perform_all-IsSound_example : IsSound guest (perform_all guest no_devices [] script machine)
perform_all-IsSound_example = perform_all-IsSound guest no_devices [] tt script machine (record {
  connected = refl;
  process = refl;
  pid = refl;
  shell = refl;
  monitor = refl;
  held = refl;
})

succeed_iff_example :
    (succeed guest [] none ("true" ∷ []) machine ≡ (ok "", machine))
    ↔ Ran guest [] is_zero "must succeed: " none ("true" ∷ []) machine "" machine ""
succeed_iff_example = succeed_iff guest [] none ("true" ∷ []) machine machine ""

fail_iff_example :
    (fail guest [] none ("false" ∷ []) machine ≡ (ok "", machine))
    ↔ Ran guest []
        (λ status. not (is_zero status))
        "must fail: "
        none
        ("false" ∷ [])
        machine
        ""
        machine
        ""
fail_iff_example = fail_iff guest [] none ("false" ∷ []) machine machine ""

line_pattern-line_example :
    line_pattern ("ActiveState" <> String.◌∷◌ equals_sign "active") ≡ some ("ActiveState", "active")
unfolding string_eq nat_eq has_char
line_pattern-line_example = line_pattern-line "ActiveState" "active" refl refl refl

-- An event, and then a result.
abbrev event_message : Message
event_message = record {
  return = false;
  qmp = false;
  event = true;
  error = false;
  class = none;
  desc = none;
  text = "STOP";
}

abbrev result_message : Message
result_message = record {
  return = true;
  qmp = false;
  event = false;
  error = false;
  class = none;
  desc = none;
  text = "{}";
}

abbrev decode : String → Option Message
decode line = if line == "event\n" then some event_message else some result_message

abbrev session : Session
session = record {
  incoming = "event\n" ∷ "result\n" ∷ [];
  results = [];
  pending_events = [];
  written = [];
}

abbrev session_after : Session
session_after = record {
  incoming = [];
  results = [];
  pending_events = event_message ∷ [];
  written = [];
}

wait_for_new_result-Read_example :
    (session.results ≡ [])
    × ((lines : List String) × Read decode lines (result_message ∷ []) session session_after)
unfolding wait_for_new_result string_eq
wait_for_new_result-Read_example =
    wait_for_new_result-Read decode session session_after result_message refl
