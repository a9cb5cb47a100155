-- ===== src/TestDriver/Machine/Script/Sound.antt =====
-- Every call of a test script keeps a machine sound.
use nixpkgs_llvm_ws.Base.{String, List, [], ◌∷◌, refl, true, false, none, some}
use nixpkgs_llvm_ws.Base.{ok, modify, done, ◌>>=◌, ◌>>◌}
use nixpkgs_llvm_ws.Base.Lists.{All}
use nixpkgs_llvm_ws.TestDriver.Machine.Shell.{
  Outside, Machine, Call, log, new_machine, send, connect, send_monitor_command, execute,
}
use nixpkgs_llvm_ws.TestDriver.Machine.Keys.{send_key}
use nixpkgs_llvm_ws.TestDriver.Machine.Life.{
  wait_for_shutdown, shutdown, crash, reboot, switch_over,
}
use nixpkgs_llvm_ws.TestDriver.Machine.Script.{Op, perform, perform_all}
use nixpkgs_llvm_ws.TestDriver.Machine.Script.After.{IsSound, Keeps, >>=-Keeps}
use nixpkgs_llvm_ws.TestDriver.Machine.Script.Starting.{start-Keeps, wait_for_shutdown-Keeps}
use nixpkgs_llvm_ws.TestDriver.Machine.Script.Steps.{
  chosen-IsSound, connect-Keeps, send-Keeps, log-Keeps, disconnected-Keeps, release-Keeps,
}
use nixpkgs_llvm_ws.TestDriver.Machine.Script.Execute.{
  send_monitor_command-Keeps, send_key-Keeps, execute-Keeps, >>-done-Keeps, send_chars-Keeps,
  start_job-Keeps, stop_job-Keeps, wait_for_x-Keeps, dump_tty_contents-Keeps, forward_port-Keeps,
  block-Keeps, unblock-Keeps,
}
use nixpkgs_llvm_ws.TestDriver.Machine.Devices.{Devices, start_job, stop_job}
use nixpkgs_llvm_ws.TestDriver.Machine.Commands.{
  succeed, fail, wait_until_succeeds, wait_until_fails,
}
use nixpkgs_llvm_ws.TestDriver.Machine.Units.{wait_for_unit, switch_root}
use nixpkgs_llvm_ws.TestDriver.Machine.Script.Conditions.{
  succeed-Keeps, fail-Keeps, wait_until_succeeds-Keeps, wait_until_fails-Keeps, wait_for_file-Keeps,
  wait_for_open_port-Keeps, wait_for_closed_port-Keeps, wait_for_open_unix_socket-Keeps,
}
use nixpkgs_llvm_ws.TestDriver.Machine.Script.Systemd.{
  wait_for_unit-Keeps, require_unit_state-Keeps,
}
use nixpkgs_llvm_ws.TestDriver.Machine.Script.Screen.{
  guest_sleep-Keeps, wait_until_tty_matches-Keeps, wait_for_window-Keeps, send_console-Keeps,
  copy_from_host_via_shell-Keeps, wait_for_text-Keeps, wait_for_console_text-Keeps,
  screenshot-Keeps,
}

module _ (O : Outside) where
  module _ (devices : Devices O) (callbacks : List (Call O (Unit {0})))
      (given : All (Keeps O) callbacks) where
    shutdown-Keeps : Keeps O (shutdown O)
    unfolding shutdown
    shutdown-Keeps m v =
        (chosen-IsSound O) m.booted ((send O "poweroff\n" >> wait_for_shutdown O) m) (ok tt, m)
          (>>=-Keeps O (send O "poweroff\n") (λ _. wait_for_shutdown O)
            ((send-Keeps O) "poweroff\n") (λ _. (wait_for_shutdown-Keeps O)) m v)
          v

    crash-Keeps : Keeps O (crash O callbacks)
    unfolding crash
    crash-Keeps m v =
        (chosen-IsSound O) m.booted
          ((log O "forced crash" >> send_monitor_command O callbacks "quit" >> wait_for_shutdown O)
            m)
          (ok tt, m)
          (>>=-Keeps O (log O "forced crash" >> send_monitor_command O callbacks "quit")
            (λ _. wait_for_shutdown O)
            (λ m v.
              send_monitor_command-Keeps O callbacks given "quit" (log O "forced crash" m).1
                ((log-Keeps O) "forced crash" m v))
            (λ _. (wait_for_shutdown-Keeps O)) m v)
          v

    reboot-Keeps : Keeps O (reboot O callbacks)
    unfolding reboot
    reboot-Keeps =
        >>=-Keeps O (send_key O callbacks "ctrl-alt-delete" (some 10) true)
          (λ _. modify (λ m. record m { connected = false }))
          (send_key-Keeps O callbacks given "ctrl-alt-delete" (some 10) true)
          (λ _. (disconnected-Keeps O))

    switch_over-Keeps : Keeps O (switch_over O callbacks)
    unfolding switch_over
    switch_over-Keeps =
        >>=-Keeps O
          (execute O callbacks
            "systemctl isolate --no-block initrd-switch-root.target 2>/dev/null >/dev/null" false
            false (some 900))
          (λ _. modify (λ m. record m { connected = false }) >>= λ _. connect O)
          (execute-Keeps O callbacks given
            "systemctl isolate --no-block initrd-switch-root.target 2>/dev/null >/dev/null" false
            false (some 900))
          (λ _.
            >>=-Keeps O (modify (λ m. record m { connected = false })) (λ _. connect O)
              (disconnected-Keeps O) (λ _. (connect-Keeps O)))

    switch_root-Keeps : Keeps O (switch_root O callbacks)
    unfolding switch_root
    switch_root-Keeps =
        >>=-Keeps O (wait_for_unit O callbacks "initrd.target" none 900)
          (λ _. switch_over O callbacks)
          (wait_for_unit-Keeps O callbacks given "initrd.target" none 900) (λ _. switch_over-Keeps)

    pub perform-Keeps : (op : Op) → Keeps O (perform O devices callbacks op)
    unfolding perform
    perform-Keeps (Op.starts allow_reboot) = (start-Keeps O) allow_reboot
    perform-Keeps Op.connects = (connect-Keeps O)
    perform-Keeps Op.waits_for_shutdown = (wait_for_shutdown-Keeps O)
    perform-Keeps Op.shuts_down = shutdown-Keeps
    perform-Keeps Op.releases = (release-Keeps O)
    perform-Keeps Op.crashes = crash-Keeps
    perform-Keeps Op.reboots = reboot-Keeps
    perform-Keeps Op.switches_root = switch_root-Keeps
    perform-Keeps (Op.executes command check_return check_output timeout) =
        >>=-Keeps O (execute O callbacks command check_return check_output timeout) (λ _. done)
          (execute-Keeps O callbacks given command check_return check_output timeout) (λ _ m v. v)
    perform-Keeps (Op.sends_key key delay logged) =
        send_key-Keeps O callbacks given key delay logged
    perform-Keeps (Op.sends_monitor_command command) =
        >>=-Keeps O (send_monitor_command O callbacks command) (λ _. done)
          (send_monitor_command-Keeps O callbacks given command) (λ _ m v. v)
    perform-Keeps (Op.types chars delay) = send_chars-Keeps O callbacks given chars delay
    perform-Keeps (Op.starts_job jobname user) =
        >>-done-Keeps O callbacks given (start_job O callbacks jobname user)
          (start_job-Keeps O callbacks given jobname user)
    perform-Keeps (Op.stops_job jobname user) =
        >>-done-Keeps O callbacks given (stop_job O callbacks jobname user)
          (stop_job-Keeps O callbacks given jobname user)
    perform-Keeps (Op.waits_for_x timeout) = wait_for_x-Keeps O callbacks given timeout
    perform-Keeps (Op.dumps_tty tty) = dump_tty_contents-Keeps O callbacks given tty
    perform-Keeps (Op.forwards_port host_port guest_port) =
        forward_port-Keeps O callbacks given host_port guest_port
    perform-Keeps Op.blocks = block-Keeps O callbacks given
    perform-Keeps Op.unblocks = unblock-Keeps O callbacks given
    perform-Keeps (Op.succeeds timeout commands) =
        >>-done-Keeps O callbacks given (succeed O callbacks timeout commands)
          (succeed-Keeps O callbacks given timeout commands)
    perform-Keeps (Op.fails timeout commands) =
        >>-done-Keeps O callbacks given (fail O callbacks timeout commands)
          (fail-Keeps O callbacks given timeout commands)
    perform-Keeps (Op.waits_until_succeeds command timeout) =
        >>-done-Keeps O callbacks given (wait_until_succeeds O callbacks command timeout)
          (wait_until_succeeds-Keeps O callbacks given command timeout)
    perform-Keeps (Op.waits_until_fails command timeout) =
        >>-done-Keeps O callbacks given (wait_until_fails O callbacks command timeout)
          (wait_until_fails-Keeps O callbacks given command timeout)
    perform-Keeps (Op.waits_for_file filename timeout) =
        wait_for_file-Keeps O callbacks given filename timeout
    perform-Keeps (Op.waits_for_open_port port addr timeout) =
        wait_for_open_port-Keeps O callbacks given port addr timeout
    perform-Keeps (Op.waits_for_closed_port port addr timeout) =
        wait_for_closed_port-Keeps O callbacks given port addr timeout
    perform-Keeps (Op.waits_for_open_unix_socket addr is_datagram timeout) =
        wait_for_open_unix_socket-Keeps O callbacks given addr is_datagram timeout
    perform-Keeps (Op.waits_for_unit unit user timeout) =
        wait_for_unit-Keeps O callbacks given unit user timeout
    perform-Keeps (Op.requires_unit_state unit require_state) =
        require_unit_state-Keeps O callbacks given unit require_state
    perform-Keeps (Op.sleeps secs) = guest_sleep-Keeps O devices callbacks given secs
    perform-Keeps (Op.waits_until_tty_matches tty regexp timeout) =
        wait_until_tty_matches-Keeps O devices callbacks given tty regexp timeout
    perform-Keeps (Op.waits_for_window regexp timeout) =
        wait_for_window-Keeps O devices callbacks given regexp timeout
    perform-Keeps (Op.sends_console chars) = send_console-Keeps O devices callbacks given chars
    perform-Keeps (Op.copies_from_host_via_shell source target) =
        copy_from_host_via_shell-Keeps O devices callbacks given source target
    perform-Keeps (Op.waits_for_text path regex timeout) =
        wait_for_text-Keeps O devices callbacks given path regex timeout
    perform-Keeps (Op.waits_for_console_text regex timeout) =
        wait_for_console_text-Keeps O devices callbacks given regex timeout
    perform-Keeps (Op.takes_screenshot out_dir filename) =
        screenshot-Keeps O devices callbacks given out_dir filename

    -- Let the callbacks keep a machine sound: a connected machine is booted, a booted machine has a
    -- process, a pid, a shell and a monitor, and a machine with a pid has a process, a shell and a
    -- monitor. Then a sound machine is sound after any sequence of the calls in `Op`, also where calls
    -- have raised, at whichever of their steps.
    pub perform_all-IsSound :
        (ops : List Op)
        → (m : Machine O) → IsSound O m
        → IsSound O (perform_all O devices callbacks ops m)
    unfolding perform_all
    perform_all-IsSound [] m v = v
    perform_all-IsSound (op ∷ ops) m v =
        perform_all-IsSound ops (perform O devices callbacks op m).1 (perform-Keeps op m v)

  pub new_machine-IsSound : (name : String) (w : O.World) → IsSound O (new_machine O name w)
  unfolding new_machine
  new_machine-IsSound name w = record {
    connected = refl;
    process = refl;
    pid = refl;
    shell = refl;
    monitor = refl;
    held = refl;
  }
