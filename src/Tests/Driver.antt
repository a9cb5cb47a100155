-- ===== src/Tests/Driver.antt =====
-- Runs of a driver: its machines, its polling conditions and its names.
use Prim.Native.Char.{Char}
use nixpkgs_llvm_ws.Base.{
  ℕ, ◌+◌, String, true, false, [], ◌∷◌, ◌≡◌, ◌≢◌, refl, none, string_eq, nat_eq,
}
use nixpkgs_llvm_ws.Base.{Action, ok, err, pure}
use nixpkgs_llvm_ws.Base.Lists.{All}
use nixpkgs_llvm_ws.Base.Dict.{Dict, lookup}
use nixpkgs_llvm_ws.TestDriver.Errors.{Error, assertion}
use nixpkgs_llvm_ws.TestDriver.Logger.{Logger}
use nixpkgs_llvm_ws.TestDriver.Machine.Shell.{Outside, Machine, unmade}
use nixpkgs_llvm_ws.TestDriver.Machine.Script.After.{IsSound}
use nixpkgs_llvm_ws.TestDriver.Driver.{Driver, start_all, join_all, cleanup}
use nixpkgs_llvm_ws.TestDriver.Driver.Names.{
  pythonize_name, has_between, is_identifier, is_identifier-pythonize_name,
}
use nixpkgs_llvm_ws.TestDriver.Driver.Fleet.{IsCalm, names, IsBooted, IsOff, IsClosed}
use nixpkgs_llvm_ws.TestDriver.Driver.Fleet.Together.{start_all-join_all, cleanup-IsClosed}
use nixpkgs_llvm_ws.TestDriver.Driver.Polls
use nixpkgs_llvm_ws.TestDriver.Driver.Polls.{with_poll}
use nixpkgs_llvm_ws.TestDriver.Driver.Polls.Stack.{with_poll-polling_conditions}
use nixpkgs_llvm_ws.TestDriver.Driver.Create.{
  Value, text, flag, nothing, create_machine, create_from_dict,
}
use nixpkgs_llvm_ws.TestDriver.Driver.Create.Legacy.{create_from_dict-create_machine}

not_empty : (c : Char) (s : String) → String.◌∷◌ c s ≢ ""
not_empty c s = λ e. cc

is_identifier-pythonize_name_example : is_identifier (pythonize_name "2nd-server") ≡ true
unfolding has_between nat_eq
is_identifier-pythonize_name_example =
    is_identifier-pythonize_name "2nd-server" (not_empty _ _) refl

-- The world counts what is done to it.
abbrev qemu : Outside
qemu = record {
  World = ℕ;
  shell_answer = λ text w. ("0\n" ∷ [], w + 1);
  create_sockets = λ w. (ok tt, w);
  run_qemu = λ reboots w. (ok 42, w + 1);
  accept_monitor = λ w. (ok tt, w);
  accept_shell = λ w. (ok ("Spawning backdoor root shell...\n" ∷ []), w);
  open_qmp = λ w. (ok tt, w);
  await_prompt = λ w. (ok tt, w);
  monitor = λ command w. ("(qemu) ", w + 1);
  wait_process = λ w. (ok tt, w);
  terminate = λ w. w;
  sleep = λ ms w. w;
  log = λ msg w. w;
  shlex_quote = λ s. s;
  b64decode = λ s. s;
}

abbrev tick : Action ℕ Error (Unit {0})
tick w = (ok tt, w + 1)

abbrev counter : Logger ℕ
counter = record {
  log = λ message attributes. tick;
  subtest = λ name attributes. pure tick;
  nested = λ message attributes. pure tick;
  info = λ message attributes. tick;
  warning = λ message attributes. tick;
  error = λ message attributes. tick;
  log_serial = λ message machine. tick;
  print_serial_logs = λ enable. tick;
}

counter-IsCalm : IsCalm qemu counter
counter-IsCalm message w = (tick, w, refl, (λ u. (u + 1, refl)))

abbrev machine_named : String → Machine qemu
machine_named name = record {
  name = name;
  booted = false;
  connected = false;
  pid = none;
  process = false;
  shell = unmade;
  monitor = unmade;
  world = 0;
}

abbrev driver : Driver qemu
driver = record {
  machines = machine_named "server" ∷ machine_named "client" ∷ [];
  race_timer = true;
  world = 0;
}

machine_named-IsSound : (name : String) → IsSound qemu (machine_named name)
machine_named-IsSound name = record {
  connected = refl;
  process = refl;
  pid = refl;
  shell = refl;
  monitor = refl;
  held = refl;
}

start_all-join_all_example :
    (e : Driver qemu) × (f : Driver qemu) × (start_all qemu counter driver ≡ (ok tt, e))
    × All (IsBooted qemu) e.machines
    × (join_all qemu counter e ≡ (ok tt, f))
    × All (IsOff qemu) f.machines
    × (names qemu f.machines ≡ names qemu driver.machines)
    × (f.race_timer ≡ false)
start_all-join_all_example =
    start_all-join_all qemu counter counter-IsCalm driver
      (
        (λ w. (tt, refl)),
        (λ reboots w. (42, refl)),
        (λ w. (tt, refl)),
        (λ w. ("Spawning backdoor root shell...\n" ∷ [], refl)),
        (λ w. (tt, refl)),
        (λ w. (tt, refl)),
      )
      (λ w. (tt, refl)) (machine_named-IsSound "server", (machine_named-IsSound "client", tt))

cleanup-IsClosed_example :
    (e : Driver qemu) × (cleanup qemu counter driver ≡ (ok tt, e))
    × (All (IsClosed qemu) e.machines
        × (names qemu e.machines ≡ names qemu driver.machines)
        × (e.race_timer ≡ false))
cleanup-IsClosed_example =
    cleanup-IsClosed qemu counter counter-IsCalm driver
      (machine_named-IsSound "server", (machine_named-IsSound "client", tt))

abbrev polls : Polls.State ℕ
polls = record {
  polling_conditions = 7 ∷ [];
  objects = λ i. record {
    settings = record { seconds_interval = 2; description = "up" };
    last_called = none;
    entry_count = 0;
  };
  rest = 0;
}

abbrev failing : Action (Polls.State ℕ) Error (Unit {0})
failing s = (err (assertion "down"), s)

with_poll-polling_conditions_example :
    ((with_poll 3 failing polls).0 ≡ err (assertion "down"))
    × ((with_poll 3 failing polls).1.polling_conditions ≡ 7 ∷ [])
with_poll-polling_conditions_example = with_poll-polling_conditions 3 failing polls (λ t. refl)

abbrev arguments : Dict String Value
arguments = ("startCommand", text "run-server-vm") ∷ ("name", text "web") ∷ []

create_from_dict-create_machine_example :
    (create_from_dict (λ v. "") (λ d. "") nothing (flag false) arguments ≡ (
      ok (record (create_machine "run-server-vm" (text "web") (flag false)) { warned = true }),
      [],
    ))
    × (create_from_dict (λ v. "") (λ d. "") nothing (flag false) []
        ≡ (err "Dictionary passed to create_machine must contain startCommand", []))
unfolding lookup string_eq
create_from_dict-create_machine_example =
    create_from_dict-create_machine (λ v. "") (λ d. "") "run-server-vm" arguments refl
      (refl, (refl, tt))
