-- ===== src/TestDriver/Machine/Script/Conditions.antt =====
-- The calls that run commands and wait for conditions keep a machine sound where its
-- callbacks do.
use nixpkgs_llvm_ws.Base.{◌<>◌, ℕ, String, List, [], ◌∷◌, Bool, true, not, Option, some}
use nixpkgs_llvm_ws.Base.{if◌then◌else◌, pure, raise, ok, err, Result, Action}
use nixpkgs_llvm_ws.Base.{◌>>=◌, string_eq}
use nixpkgs_llvm_ws.Base.Lists.{All}
use nixpkgs_llvm_ws.Base.Int.{ℤ, is_zero}
use nixpkgs_llvm_ws.Base.Decimal.{str}
use nixpkgs_llvm_ws.TestDriver.Errors.{Error}
use nixpkgs_llvm_ws.TestDriver.Retry.{retry}
use nixpkgs_llvm_ws.TestDriver.Machine.Shell.{Outside, Machine, Call, log, execute}
use nixpkgs_llvm_ws.TestDriver.Machine.Commands.{
  nested, pause, pause_with, assigning, returning, success_of, failure_of, must_succeed, must_fail,
  succeed_from, fail_from, succeed, fail, check_success, check_failure, wait_until_succeeds,
  wait_until_fails, exits, wait_for_file, wait_for_open_port, wait_for_open_unix_socket,
  wait_for_closed_port,
}
use nixpkgs_llvm_ws.TestDriver.Machine.Script.Loops.{Preserves, >>=-Preserves, retry-Preserves}
use nixpkgs_llvm_ws.TestDriver.Machine.Script.After.{IsSound, Keeps, >>=-Keeps}
use nixpkgs_llvm_ws.TestDriver.Machine.Script.Steps.{log-Keeps}
use nixpkgs_llvm_ws.TestDriver.Machine.Script.Execute.{answered-Keeps, pause-Keeps, execute-Keeps}

module _ (O : Outside) where
  pub nested-Keeps {ρ} :
      {A : Type ρ} (msg : String) (body : Call O A) → Keeps O body → Keeps O (nested O msg body)
  nested-Keeps msg body kept = >>=-Keeps O (log O msg) (λ _. body) (log-Keeps O msg) (λ _. kept)

  pub waited-Keeps :
      (msg : String) (fn : Bool → Call O Bool) (timeout : ℕ)
      → ((last : Bool) → Keeps O (fn last))
      → Keeps O (nested O msg (retry (pause O) fn timeout))
  waited-Keeps msg fn timeout given =
      nested-Keeps msg (retry (pause O) fn timeout)
        (retry-Preserves (IsSound O) (pause O) (pause-Keeps O 1) fn given timeout)

  success_of-Keeps : (command : String) (r : ℤ × String) → Keeps O (success_of O command r)
  unfolding success_of
  success_of-Keeps command (status, out) =
      answered-Keeps O (is_zero status) (pure out) _ (λ m v. v)
        (λ m v. log-Keeps O ("output: " <> out) m v)

  failure_of-Keeps : (command : String) (r : ℤ × String) → Keeps O (failure_of O command r)
  unfolding failure_of
  failure_of-Keeps command (status, out) =
      answered-Keeps O (is_zero status) (raise _) (pure out) (λ m v. v) (λ m v. v)

  -- With a local variable of the caller.
  abbrev KeepsBoth {ρ} : {A : Type ρ} → Action (Machine O × String) Error A → Type 0
  KeepsBoth f = Preserves (λ (s : Machine O × String). IsSound O s.0) f

  assigning-Keeps {ρ} :
      {A : Type ρ} (call : Call O (A × String)) → Keeps O call → KeepsBoth (assigning O call)
  assigning-Keeps {A} call kept (m, output) v = from (call m) (kept m v)
    where
      from :
          (x : Result Error (A × String) × Machine O)
          → IsSound O x.1
          → IsSound O
              (let (r, u) = x in
                elim r as (λ _. Result Error A × (Machine O × String)) [
                  | ok y ↦ (ok y.0, (u, y.1))
                  | err e ↦ (err e, (u, output))
                ]).1.0
      from (ok y, u) v = v
      from (err e, u) v = v

  returning-Keeps :
      (body : Action (Machine O × String) Error (Unit {0}))
      → KeepsBoth body
      → Keeps O (returning O body)
  returning-Keeps body kept m v = from (body (m, "")) (kept (m, "") v)
    where
      from :
          (x : Result Error (Unit {0}) × (Machine O × String))
          → IsSound O x.1.0
          → IsSound O
              (let (r, (u, output)) = x in
                elim r as (λ _. Result Error String × Machine O) [
                  | ok _ ↦ (ok output, u)
                  | err e ↦ (err e, u)
                ]).1
      from (ok y, (u, output)) v = v
      from (err e, (u, output)) v = v

  module _ (callbacks : List (Call O (Unit {0}))) (given : All (Keeps O) callbacks) where
    must_succeed-Keeps :
        (timeout : Option ℕ) (command : String) → Keeps O (must_succeed O callbacks timeout command)
    unfolding must_succeed
    must_succeed-Keeps timeout command =
        nested-Keeps ("must succeed: " <> command)
          (execute O callbacks command true true timeout >>= success_of O command)
          (>>=-Keeps O (execute O callbacks command true true timeout) (success_of O command)
            (execute-Keeps O callbacks given command true true timeout) (success_of-Keeps command))

    must_fail-Keeps :
        (timeout : Option ℕ) (command : String) → Keeps O (must_fail O callbacks timeout command)
    unfolding must_fail
    must_fail-Keeps timeout command =
        nested-Keeps ("must fail: " <> command)
          (execute O callbacks command true true timeout >>= failure_of O command)
          (>>=-Keeps O (execute O callbacks command true true timeout) (failure_of O command)
            (execute-Keeps O callbacks given command true true timeout) (failure_of-Keeps command))

    succeed_from-Keeps :
        (timeout : Option ℕ) (output : String) (commands : List String)
        → Keeps O (succeed_from O callbacks timeout output commands)
    unfolding succeed_from
    succeed_from-Keeps timeout output [] = λ m v. v
    succeed_from-Keeps timeout output (command ∷ commands) =
        >>=-Keeps O (must_succeed O callbacks timeout command)
          (λ out. succeed_from O callbacks timeout (output <> out) commands)
          (must_succeed-Keeps timeout command)
          (λ out. succeed_from-Keeps timeout (output <> out) commands)

    fail_from-Keeps :
        (timeout : Option ℕ) (output : String) (commands : List String)
        → Keeps O (fail_from O callbacks timeout output commands)
    unfolding fail_from
    fail_from-Keeps timeout output [] = λ m v. v
    fail_from-Keeps timeout output (command ∷ commands) =
        >>=-Keeps O (must_fail O callbacks timeout command)
          (λ out. fail_from O callbacks timeout (output <> out) commands)
          (must_fail-Keeps timeout command)
          (λ out. fail_from-Keeps timeout (output <> out) commands)

    pub succeed-Keeps :
        (timeout : Option ℕ) (commands : List String)
        → Keeps O (succeed O callbacks timeout commands)
    unfolding succeed
    succeed-Keeps timeout commands = succeed_from-Keeps timeout "" commands

    pub fail-Keeps :
        (timeout : Option ℕ) (commands : List String) → Keeps O (fail O callbacks timeout commands)
    unfolding fail
    fail-Keeps timeout commands = fail_from-Keeps timeout "" commands

    abbrev P : Machine O × String → Type 0
    P s = IsSound O s.0

    status-Keeps {ρ} :
        {A : Type ρ} (command : String) (timeout : ℕ) (g : ℤ → A)
        → KeepsBoth (
            assigning O (execute O callbacks command true true (some timeout)) >>= λ status.
            pure (g status))
    status-Keeps command timeout g =
        >>=-Preserves P (assigning O (execute O callbacks command true true (some timeout)))
          (λ status. pure (g status))
          (assigning-Keeps (execute O callbacks command true true (some timeout))
            (execute-Keeps O callbacks given command true true (some timeout)))
          (λ status s v. v)

    looped-Keeps :
        (msg : String) (fn : Bool → Action (Machine O × String) Error Bool) (timeout : ℕ)
        → ((last : Bool) → KeepsBoth (fn last))
        → Keeps O (nested O msg (returning O (retry (pause_with O) fn timeout)))
    looped-Keeps msg fn timeout kept =
        nested-Keeps msg (returning O (retry (pause_with O) fn timeout)) (
          returning-Keeps (retry (pause_with O) fn timeout)
            (retry-Preserves P (pause_with O) (λ s v. pause-Keeps O 1 s.0 v) fn kept timeout))

    pub wait_until_succeeds-Keeps :
        (command : String) (timeout : ℕ) → Keeps O (wait_until_succeeds O callbacks command timeout)
    unfolding wait_until_succeeds check_success
    wait_until_succeeds-Keeps command timeout =
        looped-Keeps ("waiting for success: " <> command)
          (check_success O callbacks command timeout) timeout
          (λ last. status-Keeps command timeout is_zero)

    pub wait_until_fails-Keeps :
        (command : String) (timeout : ℕ) → Keeps O (wait_until_fails O callbacks command timeout)
    unfolding wait_until_fails check_failure
    wait_until_fails-Keeps command timeout =
        looped-Keeps ("waiting for failure: " <> command)
          (check_failure O callbacks command timeout) timeout
          (λ last. status-Keeps command timeout (λ status. not (is_zero status)))

    exits-Keeps : (command : String) → Keeps O (exits O callbacks command)
    unfolding exits
    exits-Keeps command =
        >>=-Keeps O (execute O callbacks command true true (some 900)) _
          (execute-Keeps O callbacks given command true true (some 900)) (λ _ m v. v)

    pub wait_for_file-Keeps :
        (filename : String) (timeout : ℕ) → Keeps O (wait_for_file O callbacks filename timeout)
    unfolding wait_for_file
    wait_for_file-Keeps filename timeout =
        waited-Keeps _ (λ _. exits O callbacks ("test -e " <> filename)) timeout
          (λ _. exits-Keeps ("test -e " <> filename))

    pub wait_for_open_port-Keeps :
        (port : ℕ) (addr : String) (timeout : ℕ)
        → Keeps O (wait_for_open_port O callbacks port addr timeout)
    unfolding wait_for_open_port
    wait_for_open_port-Keeps port addr timeout =
        waited-Keeps _ (λ _. exits O callbacks ("nc -z " <> addr <> " " <> str port)) timeout
          (λ _. exits-Keeps ("nc -z " <> addr <> " " <> str port))

    pub wait_for_open_unix_socket-Keeps :
        (addr : String) (is_datagram : Bool) (timeout : ℕ)
        → Keeps O (wait_for_open_unix_socket O callbacks addr is_datagram timeout)
    unfolding wait_for_open_unix_socket
    wait_for_open_unix_socket-Keeps addr is_datagram timeout =
        let command = "nc -z " <> (if is_datagram then "-uU" else "-U") <> " " <> addr in
        waited-Keeps _ (λ _. exits O callbacks command) timeout (λ _. exits-Keeps command)

    pub wait_for_closed_port-Keeps :
        (port : ℕ) (addr : String) (timeout : ℕ)
        → Keeps O (wait_for_closed_port O callbacks port addr timeout)
    unfolding wait_for_closed_port
    wait_for_closed_port-Keeps port addr timeout =
        let command = "nc -z " <> addr <> " " <> str port in
        let negated : Bool → Call O Bool = λ is_open. pure (not is_open) in
        waited-Keeps _ (λ _. exits O callbacks command >>= negated) timeout
          (λ _. >>=-Keeps O (exits O callbacks command) negated (exits-Keeps command) (λ _ m v. v))
