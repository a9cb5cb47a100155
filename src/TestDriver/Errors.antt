-- ===== src/TestDriver/Errors.antt =====
-- The exceptions that the test driver raises.
use Prim.Native.Nat.{ℕ}
use Prim.Native.String.{String}

-- `hangs` is no exception: it stands for a call that never returns.
pub data Error : Type 0 where
  exception : String → Error
  assertion : String → Error
  runtime : String → Error
  polling : String → Error
  unpack : Error
  value : Error
  timeout : Error
  os_error : Error
  hangs : Error
  key_error : String → Error
  -- `sys.exit`
  system_exit : ℕ → Error
