-- ===== src/TestDriver/Machine/Life.antt =====
-- The end of a machine's life: `wait_for_shutdown`, `shutdown`, `release`, `crash`, `reboot` and the
-- switch of `switch_root`.
use nixpkgs_llvm_ws.Base.{List, Bool, true, false, ◌&&◌, if◌then◌else◌, Option, none, some}
use nixpkgs_llvm_ws.Base.{ok, err, modify, ◌>>◌}
use nixpkgs_llvm_ws.TestDriver.Errors.{assertion}
use nixpkgs_llvm_ws.TestDriver.Machine.Shell.{
  Outside, Socket, unmade, shut, live, Call, outside, log, send, connect, execute,
  send_monitor_command,
}
use nixpkgs_llvm_ws.TestDriver.Machine.Keys.{send_key}

abbrev pub has {ℓ} : {A : Type ℓ} → Option A → Bool
has none = false
has (some _) = true

abbrev pub is_made {ℓ} : {A : Type ℓ} → Socket A → Bool
is_made unmade = false
is_made shut = true
is_made (live _) = true

module _ (O : Outside) where
  -- `self.process.wait()`, and what is reset behind it.
  unfoldable pub awaited : Call O (Unit {0})
  awaited =
      outside O O.wait_process
      >> modify (λ m. record m { pid = none; booted = false; connected = false })

  unfoldable pub wait_for_shutdown : Call O (Unit {0})
  unfolding awaited
  wait_for_shutdown m =
      if m.booted
      then if m.process then (log O "waiting for the VM to power off" >> awaited) m else (
        err (assertion ""),
        record m { world = O.log "waiting for the VM to power off" m.world },
      )
      else (ok tt, m)

  unfoldable pub shutdown : Call O (Unit {0})
  unfolding send wait_for_shutdown
  shutdown m = if m.booted then (send O "poweroff\n" >> wait_for_shutdown) m else (ok tt, m)

  -- The thread that is asserted too is made before the pid is set, and never reset.
  unfoldable pub release : Call O (Unit {0})
  release m = elim m.pid [
    | none ↦ (ok tt, m)
    | some pid ↦
        if m.process && is_made m.shell && is_made m.monitor
        then (
          ok tt,
          record m {
            shell = shut;
            monitor = shut;
            world = O.terminate (O.log "kill machine" m.world);
          },
        )
        else (err (assertion ""), record m { world = O.log "kill machine" m.world })
  ]

  module _ (callbacks : List (Call O (Unit {0}))) where
    unfoldable pub crash : Call O (Unit {0})
    unfolding send_monitor_command wait_for_shutdown
    crash m =
        if m.booted
        then (log O "forced crash" >> send_monitor_command O callbacks "quit" >> wait_for_shutdown)
            m
        else (ok tt, m)

    unfoldable pub reboot : Call O (Unit {0})
    unfolding send_key
    reboot = do
      send_key O callbacks "ctrl-alt-delete" (some 10) true
      modify (λ m. record m { connected = false })

    -- `switch_root`, behind the wait for `initrd.target`.
    unfoldable pub switch_over : Call O (Unit {0})
    unfolding execute connect
    switch_over = do
      execute O callbacks
          "systemctl isolate --no-block initrd-switch-root.target 2>/dev/null >/dev/null" false
          false (some 900)
      modify (λ m. record m { connected = false })
      connect O
