-- ===== src/TestDriver/Logger/Script.antt =====
-- What a test script asks of a logger: calls and contexts, nested in any way, none of which raises.
use nixpkgs_llvm_ws.Base.{String, [], Bool}
use nixpkgs_llvm_ws.Base.{Action, done, ◌>>◌}
use nixpkgs_llvm_ws.TestDriver.Errors.{Error}
use nixpkgs_llvm_ws.TestDriver.Logger.{Logger, within}

mutual
  pub data Step : Type 0 where
    logs : String → Step
    warns : String → Step
    errs : String → Step
    prints : String → String → Step
    shows_serial : Bool → Step
    in_subtest : String → Steps → Step
    in_nested : String → Steps → Step

  pub data Steps : Type 0 where
    nil : Steps
    cons : Step → Steps → Steps

module _ {ℓ} {S : Type ℓ} (logger : Logger S) where
  unfoldable mutual
    unfolding within

    pub run_step : Step → Action S Error (Unit {0})
    run_step (Step.logs message) = logger.log message []
    run_step (Step.warns message) = logger.warning message []
    run_step (Step.errs message) = logger.error message []
    run_step (Step.prints message machine) = logger.log_serial message machine
    run_step (Step.shows_serial enable) = logger.print_serial_logs enable
    run_step (Step.in_subtest name steps) = within (logger.subtest name []) (run_steps steps)
    run_step (Step.in_nested message steps) = within (logger.nested message []) (run_steps steps)

    pub run_steps : Steps → Action S Error (Unit {0})
    run_steps nil = done
    run_steps (cons step steps) = run_step step >> run_steps steps
