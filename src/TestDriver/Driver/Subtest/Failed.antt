-- ===== src/TestDriver/Driver/Subtest/Failed.antt =====
-- What the JUnit report holds of a subtest whose body raises.
use nixpkgs_llvm_ws.Base.{String, string_eq}
use nixpkgs_llvm_ws.TestDriver.Logger.Junit
use nixpkgs_llvm_ws.TestDriver.Logger.Junit.{State, with_case}

abbrev entered : String → State → State
entered name s = record s { tests = with_case name s.tests; current_subtest = name }
