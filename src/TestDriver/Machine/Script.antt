-- ===== src/TestDriver/Machine/Script.antt =====
-- A test script: calls of a machine in an order, where the script may catch what a call raises.
pub mod After
pub mod Starting
pub mod Steps
pub mod Loops
pub mod Execute
pub mod Conditions
pub mod Systemd
pub mod Screen
pub mod Sound
use nixpkgs_llvm_ws.Base.{ℕ, String, List, [], ◌∷◌, Bool, Option, done, ◌>>◌}
use nixpkgs_llvm_ws.TestDriver.Machine.Shell.{
  Outside, Machine, Call, start, connect, execute, send_monitor_command,
}
use nixpkgs_llvm_ws.TestDriver.Machine.Keys.{send_key, send_chars}
use nixpkgs_llvm_ws.TestDriver.Machine.Life.{wait_for_shutdown, shutdown, release, crash, reboot}
use nixpkgs_llvm_ws.TestDriver.Machine.Commands.{
  succeed, fail, wait_until_succeeds, wait_until_fails, wait_for_file, wait_for_open_port,
  wait_for_closed_port, wait_for_open_unix_socket,
}
use nixpkgs_llvm_ws.TestDriver.Machine.Units.{wait_for_unit, require_unit_state, switch_root}
use nixpkgs_llvm_ws.TestDriver.Machine.Devices.{
  Devices, guest_sleep, wait_until_tty_matches, wait_for_window, send_console,
  copy_from_host_via_shell, wait_for_text, wait_for_console_text, screenshot, start_job, stop_job,
  wait_for_x, dump_tty_contents, forward_port, block, unblock,
}

-- The calls of a test script, with their arguments. Those that only look at the machine, such as
-- `get_unit_info`, run their commands by `execute`, which is among them.
pub data Op : Type 0 where
  starts : Bool → Op
  connects waits_for_shutdown shuts_down releases crashes reboots switches_root : Op
  executes : String → Bool → Bool → Option ℕ → Op
  sends_key : String → Option ℕ → Bool → Op
  sends_monitor_command : String → Op
  types : List String → Option ℕ → Op
  starts_job stops_job : String → Option String → Op
  waits_for_x : ℕ → Op
  dumps_tty : String → Op
  forwards_port : ℕ → ℕ → Op
  blocks unblocks : Op
  succeeds : Option ℕ → List String → Op
  fails : Option ℕ → List String → Op
  waits_until_succeeds : String → ℕ → Op
  waits_until_fails : String → ℕ → Op
  waits_for_file : String → ℕ → Op
  waits_for_open_port : ℕ → String → ℕ → Op
  waits_for_closed_port : ℕ → String → ℕ → Op
  waits_for_open_unix_socket : String → Bool → ℕ → Op
  waits_for_unit : String → Option String → ℕ → Op
  requires_unit_state : String → String → Op
  sleeps : ℕ → Op
  waits_until_tty_matches : String → String → ℕ → Op
  waits_for_window : String → ℕ → Op
  sends_console : String → Op
  copies_from_host_via_shell : String → String → Op
  waits_for_text : String → String → ℕ → Op
  waits_for_console_text : String → ℕ → Op
  takes_screenshot : String → String → Op

module _ (O : Outside) (devices : Devices O) (callbacks : List (Call O (Unit {0}))) where
  unfoldable pub perform : Op → Call O (Unit {0})
  unfolding start connect wait_for_shutdown shutdown release crash reboot switch_root execute
      send_key send_monitor_command send_chars start_job stop_job wait_for_x dump_tty_contents
      forward_port block unblock succeed fail wait_until_succeeds wait_until_fails wait_for_file
      wait_for_open_port wait_for_closed_port wait_for_open_unix_socket wait_for_unit
      require_unit_state guest_sleep wait_until_tty_matches wait_for_window send_console
      copy_from_host_via_shell wait_for_text wait_for_console_text screenshot
  perform (Op.starts allow_reboot) = start O allow_reboot
  perform Op.connects = connect O
  perform Op.waits_for_shutdown = wait_for_shutdown O
  perform Op.shuts_down = shutdown O
  perform Op.releases = release O
  perform Op.crashes = crash O callbacks
  perform Op.reboots = reboot O callbacks
  perform Op.switches_root = switch_root O callbacks
  perform (Op.executes command check_return check_output timeout) =
      execute O callbacks command check_return check_output timeout >> done
  perform (Op.sends_key key delay logged) = send_key O callbacks key delay logged
  perform (Op.sends_monitor_command command) = send_monitor_command O callbacks command >> done
  perform (Op.types chars delay) = send_chars O callbacks chars delay
  perform (Op.starts_job jobname user) = start_job O callbacks jobname user >> done
  perform (Op.stops_job jobname user) = stop_job O callbacks jobname user >> done
  perform (Op.waits_for_x timeout) = wait_for_x O callbacks timeout
  perform (Op.dumps_tty tty) = dump_tty_contents O callbacks tty
  perform (Op.forwards_port host_port guest_port) = forward_port O callbacks host_port guest_port
  perform Op.blocks = block O callbacks
  perform Op.unblocks = unblock O callbacks
  perform (Op.succeeds timeout commands) = succeed O callbacks timeout commands >> done
  perform (Op.fails timeout commands) = fail O callbacks timeout commands >> done
  perform (Op.waits_until_succeeds command timeout) =
      wait_until_succeeds O callbacks command timeout >> done
  perform (Op.waits_until_fails command timeout) =
      wait_until_fails O callbacks command timeout >> done
  perform (Op.waits_for_file filename timeout) = wait_for_file O callbacks filename timeout
  perform (Op.waits_for_open_port port addr timeout) =
      wait_for_open_port O callbacks port addr timeout
  perform (Op.waits_for_closed_port port addr timeout) =
      wait_for_closed_port O callbacks port addr timeout
  perform (Op.waits_for_open_unix_socket addr is_datagram timeout) =
      wait_for_open_unix_socket O callbacks addr is_datagram timeout
  perform (Op.waits_for_unit unit user timeout) = wait_for_unit O callbacks unit user timeout
  perform (Op.requires_unit_state unit require_state) =
      require_unit_state O callbacks unit require_state
  perform (Op.sleeps secs) = guest_sleep O callbacks secs
  perform (Op.waits_until_tty_matches tty regexp timeout) =
      wait_until_tty_matches O devices callbacks tty regexp timeout
  perform (Op.waits_for_window regexp timeout) = wait_for_window O devices callbacks regexp timeout
  perform (Op.sends_console chars) = send_console O devices callbacks chars
  perform (Op.copies_from_host_via_shell source target) =
      copy_from_host_via_shell O devices callbacks source target
  perform (Op.waits_for_text path regex timeout) =
      wait_for_text O devices callbacks path regex timeout
  perform (Op.waits_for_console_text regex timeout) =
      wait_for_console_text O devices callbacks regex timeout
  perform (Op.takes_screenshot out_dir filename) = screenshot O devices callbacks out_dir filename

  -- A script goes on behind an exception that it catches.
  unfoldable pub perform_all : List Op → Machine O → Machine O
  unfolding perform
  perform_all [] m = m
  perform_all (op ∷ ops) m = perform_all ops (perform op m).1
