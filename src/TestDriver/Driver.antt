-- ===== src/TestDriver/Driver.antt =====
-- `class Driver` of nixos/lib/test-driver/test_driver/driver.py: the machines, started, ended and
-- released together, the run of a test script, and its subtests. The logger writes to the world
-- that all machines share, the one that QEMU and the guests stand in.
pub mod Names
pub mod Symbols
pub mod Polls
pub mod Create
pub mod Fleet
pub mod Subtest
use nixpkgs_llvm_ws.Base.{
  ℕ, String, ◌<>◌, List, [], ◌∷◌, Bool, true, false, if◌then◌else◌, Option, some,
}
use nixpkgs_llvm_ws.Base.{Action, Result, ok, err, done, modify, ◌>>=◌, ◌>>◌}
use nixpkgs_llvm_ws.Base.Decimal.{str}
use nixpkgs_llvm_ws.TestDriver.Errors.{Error}
use nixpkgs_llvm_ws.TestDriver.Logger.{Logger, Context}
use nixpkgs_llvm_ws.TestDriver.Machine.Shell.{Outside, Machine, Call, is_up, start, execute}
use nixpkgs_llvm_ws.TestDriver.Machine.Life.{wait_for_shutdown, release}

module _ (O : Outside) where
  -- What the driver keeps: its machines, and whether the timer that ends the test is running. A
  -- machine is given the world for each call, and hands it back.
  pub record Driver : Type 0 where
    pub machines : List (Machine O)
    pub race_timer : Bool
    pub world : O.World

  -- `for machine in self.machines:` with a call of each, up to the first that raises.
  unfoldable pub sweep :
      Call O (Unit {0})
      → List (Machine O)
      → O.World
      → Result Error (Unit {0}) × List (Machine O) × O.World
  sweep call [] w = (ok tt, [], w)
  sweep call (machine ∷ machines) w =
      let (r, m) = call (record machine { world = w }) in
      let (rest, ms, v) = sweep call machines m.world in
      elim r [ ok _ ↦ (rest, m ∷ ms, v) | err e ↦ (err e, m ∷ machines, m.world) ]

  unfoldable pub on_machines : Call O (Unit {0}) → Action Driver Error (Unit {0})
  unfolding sweep
  on_machines call d =
      let (r, ms, w) = sweep call d.machines d.world in (r, record d { machines = ms; world = w })

  -- A call of the logger.
  abbrev pub on_world {ρ} : {A : Type ρ} → Action O.World Error A → Action Driver Error A
  on_world act d = let (r, w) = act d.world in (r, record d { world = w })

  abbrev pub cancel_timer : Driver → Driver
  cancel_timer d = record d { race_timer = false }

  module _ (logger : Logger O.World) where
    -- `with self.logger.nested(msg): body`
    unfoldable pub nested : String → Action Driver Error (Unit {0}) → Action Driver Error (Unit {0})
    nested message body = do leave ← on_world (logger.nested message []); body; on_world leave

    unfoldable pub start_all : Action Driver Error (Unit {0})
    unfolding nested on_machines start
    start_all = nested "start all VMs" (on_machines (start O false))

    unfoldable pub join_all : Action Driver Error (Unit {0})
    unfolding nested on_machines wait_for_shutdown
    join_all =
        nested "wait for all VMs to finish"
          (on_machines (wait_for_shutdown O) >> modify cancel_timer)

    -- `__exit__`
    unfoldable pub cleanup : Action Driver Error (Unit {0})
    unfolding nested on_machines release
    cleanup = nested "cleanup" (modify cancel_timer >> on_machines (release O))

    -- `terminate_test`; the signal to the driver's own process is the caller's to give.
    unfoldable pub terminate_test : (O.World → O.World) → Action Driver Error (Unit {0})
    unfolding nested on_machines release
    terminate_test kill =
        nested "timeout reached; test terminating..."
          (on_machines (release O) >> on_world (λ w. (ok tt, kill w)))

    -- `run_tests`, for the test script as an action on the driver.
    module _ (callbacks : List (Call O (Unit {0}))) (global_timeout : ℕ)
        (script : Action Driver Error (Unit {0})) where
      unfoldable pub synced : Call O (Unit {0})
      unfolding is_up execute
      synced m =
          if is_up O m
          then (execute O callbacks "sync" true true (some 900) >> done) m
          else (ok tt, m)

      unfoldable pub test_script : Action Driver Error (Unit {0})
      unfolding nested
      test_script = nested "run the VM test script" script

      unfoldable pub run_tests : Action Driver Error (Unit {0})
      unfolding test_script synced on_machines
      run_tests = do
        on_world (
            logger.info ("Test will time out and terminate in " <> str global_timeout <> " seconds")
              [])
        modify (λ d. record d { race_timer = true })
        test_script
        on_machines synced
