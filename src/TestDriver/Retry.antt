-- ===== src/TestDriver/Retry.antt =====
-- `retry` of nixos/lib/test-driver/test_driver/machine.py, over a world in which time passes.
pub mod Attempts
pub mod Budget
use nixpkgs_llvm_ws.Base.{ℕ, zero, suc, String, ◌<>◌, Bool, true, false, not, if◌then◌else◌}
use nixpkgs_llvm_ws.Base.{Action, ok, err, pure, modify, raise_if, ◌>>=◌, ◌>>◌}
use nixpkgs_llvm_ws.Base.Decimal.{str}
use nixpkgs_llvm_ws.TestDriver.Errors.{Error, exception}

abbrev pub timed_out : ℕ → Error
timed_out timeout = exception ("action timed out after " <> str timeout <> " seconds")

module _ {ℓ} {W : Type ℓ} (sleep : ℕ → W → W) (fn : Bool → Action W Error Bool) where
  -- The `for` loop, which says whether it returned early.
  unfoldable pub poll : ℕ → Action W Error Bool
  poll zero = pure false
  poll (suc rounds) = do
    answer ← fn false
    if answer then pure true else (modify (sleep 1) >> poll rounds)

  unfoldable pub retry : ℕ → Action W Error (Unit {0})
  retry timeout = do
    returned ← poll timeout
    if returned then pure tt else do answer ← fn true; raise_if (not answer) (timed_out timeout)
