-- ===== src/TestDriver/Machine/Commands.antt =====
-- The calls of a test script that run a command and look at its exit status.
pub mod Outcome
use nixpkgs_llvm_ws.Base.{
  ℕ, ◌*◌, String, ◌<>◌, List, [], ◌∷◌, Bool, true, false, not, if◌then◌else◌, Option, none, some,
}
use nixpkgs_llvm_ws.Base.{Action, Result, ok, err, pure, raise, gets, follow, ◌>>=◌, ◌>>◌}
use nixpkgs_llvm_ws.Base.Decimal.{str}
use nixpkgs_llvm_ws.Base.Int.{ℤ, is_zero, show}
use nixpkgs_llvm_ws.TestDriver.Errors.{Error, exception}
use nixpkgs_llvm_ws.TestDriver.Retry.{retry}
use nixpkgs_llvm_ws.TestDriver.Machine.Shell.{Outside, Machine, Call, log, execute}

module _ (O : Outside) where
  -- `with self.nested(msg):`, by the entry that it begins with.
  abbrev pub nested {ρ} : {A : Type ρ} → String → Call O A → Call O A
  nested msg body = log O msg >> body

  -- `time.sleep`, in seconds
  abbrev pub pause : ℕ → Machine O → Machine O
  pause seconds m = record m { world = O.sleep (seconds * 1000) m.world }

  -- A call that assigns the local variable of its caller.
  abbrev pub assigning {ρ} :
      {A : Type ρ} → Call O (A × String) → Action (Machine O × String) Error A
  assigning call (m, output) =
      let (r, u) = call m in elim r [ ok x ↦ (ok x.0, (u, x.1)) | err e ↦ (err e, (u, output)) ]

  -- The value of the local variable at the end.
  abbrev pub returning : Action (Machine O × String) Error (Unit {0}) → Call O String
  returning body m =
      let (r, (u, output)) = body (m, "") in elim r [ ok _ ↦ (ok output, u) | err e ↦ (err e, u) ]

  abbrev pub pause_with : ℕ → Machine O × String → Machine O × String
  pause_with seconds (m, output) = (pause seconds m, output)

  -- What `succeed` and `fail` do with the result of a command.
  unfoldable pub success_of : String → ℤ × String → Call O String
  unfolding show
  success_of command (status, out) =
      if is_zero status
      then pure out
      else log O ("output: " <> out)
        >> raise
            (exception ("command `" <> command <> "` failed (exit code " <> show status <> ")"))

  unfoldable pub failure_of : String → ℤ × String → Call O String
  failure_of command (status, out) =
      if is_zero status
      then raise (exception ("command `" <> command <> "` unexpectedly succeeded"))
      else pure out

  module _ (callbacks : List (Call O (Unit {0}))) where
    -- The bodies of the two loops, with the output of the command.
    unfoldable pub must_succeed : Option ℕ → String → Call O String
    unfolding execute success_of
    must_succeed timeout command =
        nested ("must succeed: " <> command)
          (execute O callbacks command true true timeout >>= success_of command)

    unfoldable pub must_fail : Option ℕ → String → Call O String
    unfolding execute failure_of
    must_fail timeout command =
        nested ("must fail: " <> command)
          (execute O callbacks command true true timeout >>= failure_of command)

    -- The two loops, from the output so far.
    unfoldable pub succeed_from : Option ℕ → String → List String → Call O String
    unfolding must_succeed
    succeed_from timeout output [] = pure output
    succeed_from timeout output (command ∷ commands) =
        must_succeed timeout command >>= λ out. succeed_from timeout (output <> out) commands

    unfoldable pub fail_from : Option ℕ → String → List String → Call O String
    unfolding must_fail
    fail_from timeout output [] = pure output
    fail_from timeout output (command ∷ commands) =
        must_fail timeout command >>= λ out. fail_from timeout (output <> out) commands

    unfoldable pub succeed : Option ℕ → List String → Call O String
    unfolding succeed_from
    succeed timeout commands = succeed_from timeout "" commands

    unfoldable pub fail : Option ℕ → List String → Call O String
    unfolding fail_from
    fail timeout commands = fail_from timeout "" commands

    -- `check_success` and `check_failure`
    unfoldable pub check_success : String → ℕ → Bool → Action (Machine O × String) Error Bool
    unfolding execute
    check_success command timeout last = do
      status ← assigning (execute O callbacks command true true (some timeout))
      pure (is_zero status)

    unfoldable pub check_failure : String → ℕ → Bool → Action (Machine O × String) Error Bool
    unfolding execute
    check_failure command timeout last = do
      status ← assigning (execute O callbacks command true true (some timeout))
      pure (not (is_zero status))

    unfoldable pub wait_until_succeeds : String → ℕ → Call O String
    unfolding check_success
    wait_until_succeeds command timeout =
        nested ("waiting for success: " <> command)
          (returning (retry pause_with (check_success command timeout) timeout))

    unfoldable pub wait_until_fails : String → ℕ → Call O String
    unfolding check_failure
    wait_until_fails command timeout =
        nested ("waiting for failure: " <> command)
          (returning (retry pause_with (check_failure command timeout) timeout))

    -- The exit status of a command, as the conditions below read it. Its timeout is the default.
    unfoldable pub exits : String → Call O Bool
    unfolding execute
    exits command = do
      (status, out) ← execute O callbacks command true true (some 900)
      pure (is_zero status)

    unfoldable pub wait_for_file : String → ℕ → Call O (Unit {0})
    unfolding exits
    wait_for_file filename timeout =
        nested ("waiting for file '" <> filename <> "'")
          (retry pause (λ last. exits ("test -e " <> filename)) timeout)

    unfoldable pub wait_for_open_port : ℕ → String → ℕ → Call O (Unit {0})
    unfolding exits str
    wait_for_open_port port addr timeout =
        nested ("waiting for TCP port " <> str port <> " on " <> addr)
          (retry pause (λ last. exits ("nc -z " <> addr <> " " <> str port)) timeout)

    unfoldable pub wait_for_open_unix_socket : String → Bool → ℕ → Call O (Unit {0})
    unfolding exits
    wait_for_open_unix_socket addr is_datagram timeout =
        nested
          ("waiting for UNIX-domain "
            <> (if is_datagram then "datagram" else "stream")
            <> " on '"
            <> addr
            <> "'")
          (retry pause
            (λ last. exits ("nc -z " <> (if is_datagram then "-uU" else "-U") <> " " <> addr))
            timeout)

    unfoldable pub wait_for_closed_port : ℕ → String → ℕ → Call O (Unit {0})
    unfolding exits str
    wait_for_closed_port port addr timeout =
        nested ("waiting for TCP port " <> str port <> " on " <> addr <> " to be closed") (
          retry pause
            (λ last. exits ("nc -z " <> addr <> " " <> str port) >>= λ is_open. pure (not is_open))
            timeout)
