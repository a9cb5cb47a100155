-- ===== src/TestDriver/Machine/Script/Execute.antt =====
-- The calls that run commands or press keys keep a machine sound where its callbacks do.
use nixpkgs_llvm_ws.Base.{◌<>◌, ℕ, String, List, [], ◌∷◌, Bool, true, false, Option, some}
use nixpkgs_llvm_ws.Base.{modify, done, ◌>>=◌, ◌>>◌}
use nixpkgs_llvm_ws.Base.Lists.{All}
use nixpkgs_llvm_ws.TestDriver.Machine.Shell.{
  Outside, Call, log, send, connect, run_callbacks, monitor_command, send_monitor_command, collect,
  out_command, execute,
}
use nixpkgs_llvm_ws.TestDriver.Machine.Keys.{send_key, key_of, announced, paused}
use nixpkgs_llvm_ws.TestDriver.Machine.Script.After.{IsSound, Keeps, >>=-Keeps}
use nixpkgs_llvm_ws.TestDriver.Machine.Script.Steps.{
  connect-Keeps, send-Keeps, log-Keeps, monitor_command-Keeps, collect-Keeps, run_callbacks-Keeps,
  announced-Keeps, paused-Keeps,
}
use nixpkgs_llvm_ws.Base.{arith, for_each, if◌then◌else◌, pure, ◌>>◌, not}
use mathlib.Core.Option.{none}
use nixpkgs_llvm_ws.Base.Int.{ℤ, is_zero}
use nixpkgs_llvm_ws.Base.Decimal.{str}
use nixpkgs_llvm_ws.TestDriver.Retry.{retry}
use nixpkgs_llvm_ws.TestDriver.Machine.Script.Loops.{retry-Preserves}
use nixpkgs_llvm_ws.TestDriver.Machine.Keys.{send_chars}
use nixpkgs_llvm_ws.TestDriver.Machine.Commands.{pause}
use nixpkgs_llvm_ws.TestDriver.Machine.Units.{systemctl}
use nixpkgs_llvm_ws.TestDriver.Machine.Devices.{
  run, start_job, stop_job, check_x, wait_for_x, dump_tty_contents, forward_port, block, unblock,
}

module _ (O : Outside) where
  pub answered-Keeps {ρ} :
      {A : Type ρ} (b : Bool) (f g : Call O A)
      → Keeps O f
      → Keeps O g
      → Keeps O (if b then f else g)
  answered-Keeps true f g hf hg = hf
  answered-Keeps false f g hf hg = hg

  pub pause-Keeps : (seconds : ℕ) → Keeps O (modify (pause O seconds))
  pause-Keeps seconds m v = ground arith

  module _ (callbacks : List (Call O (Unit {0}))) (given : All (Keeps O) callbacks) where
    pub send_monitor_command-Keeps :
        (command : String) → Keeps O (send_monitor_command O callbacks command)
    unfolding send_monitor_command
    send_monitor_command-Keeps command =
        >>=-Keeps O (run_callbacks O callbacks) (λ _. monitor_command O command)
          ((run_callbacks-Keeps O) callbacks given) (λ _. (monitor_command-Keeps O) command)

    pub send_key-Keeps :
        (key : String) (delay : Option ℕ) (logged : Bool)
        → Keeps O (send_key O callbacks key delay logged)
    unfolding send_key
    send_key-Keeps key delay logged =
        >>=-Keeps O (announced O logged key)
          (λ _. send_monitor_command O callbacks ("sendkey " <> key_of key) >>= λ _. paused O delay)
          ((announced-Keeps O) logged key)
          (λ _.
            >>=-Keeps O (send_monitor_command O callbacks ("sendkey " <> key_of key))
              (λ _. paused O delay) (send_monitor_command-Keeps ("sendkey " <> key_of key))
              (λ _. (paused-Keeps O) delay))

    pub execute-Keeps :
        (command : String) (check_return check_output : Bool) (timeout : Option ℕ)
        → Keeps O (execute O callbacks command check_return check_output timeout)
    unfolding execute
    execute-Keeps command check_return check_output timeout =
        >>=-Keeps O (run_callbacks O callbacks)
          (λ _. connect O >>= λ _.
            send O (out_command O command timeout) >>= λ _. collect O check_return check_output)
          ((run_callbacks-Keeps O) callbacks given)
          (λ _.
            >>=-Keeps O (connect O)
              (λ _.
                send O (out_command O command timeout) >>= λ _. collect O check_return check_output)
              (connect-Keeps O)
              (λ _.
                >>=-Keeps O (send O (out_command O command timeout))
                  (λ _. collect O check_return check_output)
                  ((send-Keeps O) (out_command O command timeout))
                  (λ _. (collect-Keeps O) check_return check_output)))

    pub >>-done-Keeps {ρ} : {A : Type ρ} (f : Call O A) → Keeps O f → Keeps O (f >> done)
    >>-done-Keeps f hf = >>=-Keeps O f (λ _. done) hf (λ _ m v. v)

    pub send_chars-Keeps :
        (chars : List String) (delay : Option ℕ) → Keeps O (send_chars O callbacks chars delay)
    unfolding send_chars for_each
    send_chars-Keeps [] delay m v = v
    send_chars-Keeps (char ∷ chars) delay m v =
        >>=-Keeps O (send_key O callbacks char delay false)
          (λ _. send_chars O callbacks chars delay) (send_key-Keeps char delay false)
          (λ _. send_chars-Keeps chars delay) m v

    pub run-Keeps : (command : String) → Keeps O (run O callbacks command)
    run-Keeps command = execute-Keeps command true true (some 900)

    pub systemctl-Keeps :
        (q : String) (user : Option String) → Keeps O (systemctl O callbacks q user)
    unfolding systemctl
    systemctl-Keeps q none = run-Keeps _
    systemctl-Keeps q (some user) = run-Keeps _

    pub start_job-Keeps :
        (jobname : String) (user : Option String) → Keeps O (start_job O callbacks jobname user)
    unfolding start_job
    start_job-Keeps jobname user = systemctl-Keeps ("start " <> jobname) user

    pub stop_job-Keeps :
        (jobname : String) (user : Option String) → Keeps O (stop_job O callbacks jobname user)
    unfolding stop_job
    stop_job-Keeps jobname user = systemctl-Keeps ("stop " <> jobname) user

    check_x-Keeps : (last : Bool) → Keeps O (check_x O callbacks last)
    unfolding check_x
    check_x-Keeps last =
        let second : ℤ × String → Call O Bool = λ (status, output). pure (is_zero status) in
        let x0 : Call O Bool = run O callbacks "[ -e /tmp/.X11-unix/X0 ]" >>= second in
        >>=-Keeps O
          (run O callbacks
            "journalctl -b SYSLOG_IDENTIFIER=systemd | grep \"Reached target Current graphical\"")
          (λ (status, output). if not (is_zero status) then pure false else x0)
          (run-Keeps
            "journalctl -b SYSLOG_IDENTIFIER=systemd | grep \"Reached target Current graphical\"")
          (λ (status, output).
            answered-Keeps (not (is_zero status)) (pure false) x0 (λ m v. v)
              (>>=-Keeps O (run O callbacks "[ -e /tmp/.X11-unix/X0 ]") second
                (run-Keeps "[ -e /tmp/.X11-unix/X0 ]") (λ _ m v. v)))

    pub wait_for_x-Keeps : (timeout : ℕ) → Keeps O (wait_for_x O callbacks timeout)
    unfolding wait_for_x
    wait_for_x-Keeps timeout =
        >>=-Keeps O (log O "waiting for the X11 server")
          (λ _. retry (pause O) (check_x O callbacks) timeout)
          (log-Keeps O "waiting for the X11 server")
          (λ _.
            retry-Preserves (IsSound O) (pause O) (pause-Keeps 1) (check_x O callbacks)
              check_x-Keeps timeout)

    pub dump_tty_contents-Keeps : (tty : String) → Keeps O (dump_tty_contents O callbacks tty)
    unfolding dump_tty_contents
    dump_tty_contents-Keeps tty =
        >>-done-Keeps (run O callbacks ("fold -w 80 /dev/vcs" <> tty <> " | systemd-cat"))
          (run-Keeps ("fold -w 80 /dev/vcs" <> tty <> " | systemd-cat"))

    monitored-Keeps :
        (command : String) → Keeps O (send_monitor_command O callbacks command >> done)
    monitored-Keeps command =
        >>-done-Keeps (send_monitor_command O callbacks command)
          (send_monitor_command-Keeps command)

    pub forward_port-Keeps :
        (host_port guest_port : ℕ) → Keeps O (forward_port O callbacks host_port guest_port)
    unfolding forward_port
    forward_port-Keeps host_port guest_port =
        monitored-Keeps ("hostfwd_add tcp::" <> str host_port <> "-:" <> str guest_port)

    pub block-Keeps : Keeps O (block O callbacks)
    unfolding block
    block-Keeps = monitored-Keeps "set_link virtio-net-pci.1 off"

    pub unblock-Keeps : Keeps O (unblock O callbacks)
    unfolding unblock
    unblock-Keeps = monitored-Keeps "set_link virtio-net-pci.1 on"
