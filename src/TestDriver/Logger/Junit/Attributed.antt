-- ===== src/TestDriver/Logger/Junit/Attributed.antt =====
-- Every message goes to the innermost subtest around it.
use text.Mathlib.TextLemmas.{nil-append}
use mathlib.Core.Path.{subst, subst⁻¹}
use nixpkgs_llvm_ws.Base.{
  String, ◌<>◌, ◌≡◌, refl, ◌∙◌, ap, Bool, true, false, ◌||◌, ◌&&◌, ◌==◌, string_eq, arith,
}
use nixpkgs_llvm_ws.Base.{Action, pure, done, ok, >>=-ok}
use nixpkgs_llvm_ws.Base.Dict.{lookup}
use nixpkgs_llvm_ws.TestDriver.Errors.{Error}
use nixpkgs_llvm_ws.TestDriver.Logger.{within-ok}
use nixpkgs_llvm_ws.TestDriver.Logger.Script.{Step, Steps, nil, cons, run_step, run_steps}
use nixpkgs_llvm_ws.TestDriver.Logger.Junit.{
  new_case, new_logger, State, to_stdout, to_stderr, log, error, print_serial_logs, with_case,
  subtest, nested, junit_logger,
}
use nixpkgs_llvm_ws.TestDriver.Logger.Junit.Cases.{
  case_of, has_case, line_if, Attributed, updated, on_case-updated, has_case-updated,
  written-Attributed, failed-Attributed, idle-Attributed, Attributed-trans, serial_if-Attributed,
  entered_self, left-Attributed,
}

mutual
  -- Whether serial logs are shown behind a step that began with `shown`.
  pub shown_after : Bool → Step → Bool
  shown_after shown (Step.logs message) = shown
  shown_after shown (Step.warns message) = shown
  shown_after shown (Step.errs message) = shown
  shown_after shown (Step.prints message machine) = shown
  shown_after shown (Step.shows_serial enable) = enable
  shown_after shown (Step.in_subtest name steps) = shown_at_end shown steps
  shown_after shown (Step.in_nested message steps) = shown_at_end shown steps

  pub shown_at_end : Bool → Steps → Bool
  shown_at_end shown nil = shown
  shown_at_end shown (cons step steps) = shown_at_end (shown_after shown step) steps

mutual
  -- The standard output of the case `k` that a step around which `current` is innermost adds.
  pub output_of : String → String → Bool → Step → String
  output_of k current shown (Step.logs message) = line_if (k == current) message
  output_of k current shown (Step.warns message) = line_if (k == current) message
  output_of k current shown (Step.errs message) = ""
  output_of k current shown (Step.prints message machine) =
      line_if (shown && k == current) (machine <> " # " <> message)
  output_of k current shown (Step.shows_serial enable) = ""
  output_of k current shown (Step.in_subtest name steps) = output_of_all k name shown steps
  output_of k current shown (Step.in_nested message steps) =
      line_if (k == current) message <> output_of_all k current shown steps

  pub output_of_all : String → String → Bool → Steps → String
  output_of_all k current shown nil = ""
  output_of_all k current shown (cons step steps) =
      output_of k current shown step <> output_of_all k current (shown_after shown step) steps

mutual
  -- Whether the case `k` fails in a step.
  pub fails_in : String → String → Step → Bool
  fails_in k current (Step.logs message) = false
  fails_in k current (Step.warns message) = false
  fails_in k current (Step.errs message) = k == current
  fails_in k current (Step.prints message machine) = false
  fails_in k current (Step.shows_serial enable) = false
  fails_in k current (Step.in_subtest name steps) = fails_in_any k name steps
  fails_in k current (Step.in_nested message steps) = fails_in_any k current steps

  pub fails_in_any : String → String → Steps → Bool
  fails_in_any k current nil = false
  fails_in_any k current (cons step steps) = fails_in k current step || fails_in_any k current steps

moved-Attributed :
    {current : String} {shown : Bool} (steps : Steps) (t u : State)
    → t.current_subtest ≡ current
    → t.print_serial_logs ≡ shown
    → Attributed
        (shown_at_end t.print_serial_logs steps)
        (λ k. output_of_all k t.current_subtest t.print_serial_logs steps)
        (λ k. fails_in_any k t.current_subtest steps)
        t
        u
    → Attributed
        (shown_at_end shown steps)
        (λ k. output_of_all k current shown steps)
        (λ k. fails_in_any k current steps)
        t
        u
moved-Attributed {current} steps t u c b x =
    subst
      (λ b.
        Attributed (shown_at_end b steps) (λ k. output_of_all k current b steps)
          (λ k. fails_in_any k current steps) t u)
      b
      (subst
        (λ c.
          Attributed (shown_at_end t.print_serial_logs steps)
            (λ k. output_of_all k c t.print_serial_logs steps) (λ k. fails_in_any k c steps) t u)
        c x)

-- A call that returns, with what it adds to the cases.
abbrev pub Adds :
    Action State Error (Unit {0}) → Bool → (String → String) → (String → Bool) → State → Type 0
Adds f shown output fails s = (t : State) × (f s ≡ (ok tt, t)) × Attributed shown output fails s t

mutual
  unfolding run_step shown_after output_of fails_in run_steps shown_at_end output_of_all
      fails_in_any subtest nested junit_logger log error print_serial_logs

  run_step-Attributed :
      (step : Step) (s : State)
      → has_case s.current_subtest s ≡ true
      → Adds
          (run_step junit_logger step)
          (shown_after s.print_serial_logs step)
          (λ k. output_of k s.current_subtest s.print_serial_logs step)
          (λ k. fails_in k s.current_subtest step)
          s
  run_step-Attributed (Step.logs message) s known = (
    updated (to_stdout message) s,
    on_case-updated (to_stdout message) s known,
    written-Attributed message s,
  )
  run_step-Attributed (Step.warns message) s known = (
    updated (to_stdout message) s,
    on_case-updated (to_stdout message) s known,
    written-Attributed message s,
  )
  run_step-Attributed (Step.errs message) s known = (
    updated (to_stderr message) s,
    on_case-updated (to_stderr message) s known,
    failed-Attributed message s,
  )
  run_step-Attributed (Step.prints message machine) s known =
      serial_if-Attributed s.print_serial_logs (machine <> " # " <> message) s known
  run_step-Attributed (Step.shows_serial enable) s known =
      (record s { print_serial_logs = enable }, refl, idle-Attributed enable s)
  run_step-Attributed (Step.in_subtest name steps) s known =
      let s1 : State = record s { tests = with_case name s.tests; current_subtest = name } in
      let (u, ran, added) = run_steps-Attributed steps s1 (entered_self name s) in
      (
        record u { current_subtest = s.current_subtest },
        within-ok (subtest name) (run_steps junit_logger steps) s refl ran refl,
        left-Attributed name s u added,
      )
  run_step-Attributed (Step.in_nested message steps) s known =
      let s1 = updated (to_stdout message) s in
      let (u, ran, added) =
        run_steps-Attributed steps s1
          (has_case-updated s.current_subtest (to_stdout message) s known) in
      (
        u,
        within-ok (nested message) (run_steps junit_logger steps) s
            (>>=-ok (log message) (λ _. pure done) s (on_case-updated (to_stdout message) s known))
            ran refl,
        Attributed-trans _ _ _ _ _ _ s s1 u (written-Attributed message s) added,
      )

  pub run_steps-Attributed :
      (steps : Steps) (s : State)
      → has_case s.current_subtest s ≡ true
      → Adds
          (run_steps junit_logger steps)
          (shown_at_end s.print_serial_logs steps)
          (λ k. output_of_all k s.current_subtest s.print_serial_logs steps)
          (λ k. fails_in_any k s.current_subtest steps)
          s
  run_steps-Attributed nil s known = (s, refl, idle-Attributed s.print_serial_logs s)
  run_steps-Attributed (cons step steps) s known =
      let (t, ran, added) = run_step-Attributed step s known in
      let known' =
        subst⁻¹ (λ c. has_case c t ≡ true) added.current (added.known s.current_subtest known) in
      let (u, rest, more) = run_steps-Attributed steps t known' in
      (
        u,
        >>=-ok (run_step junit_logger step) (λ _. run_steps junit_logger steps) s ran ∙ rest,
        Attributed-trans _ _ _ _ _ _ s t u added
            (moved-Attributed steps t u added.current added.serial more),
      )

main-known : has_case "main" new_logger ≡ true
unfolding new_logger lookup string_eq
main-known = refl

new_logger-case_of : (k : String) → case_of k new_logger ≡ new_case
unfolding new_logger lookup
new_logger-case_of k = ground arith

-- A test script that only logs runs to its end on a new logger. Then the current subtest is `main`
-- again, the standard output of each case is what was logged where it was the innermost subtest, and
-- just those cases have failed in which an error was logged.
pub run_steps-new_logger :
    (steps : Steps)
    → (t : State) × (run_steps junit_logger steps new_logger ≡ (ok tt, t))
      × (t.current_subtest ≡ "main")
      × ((k : String) → (case_of k t).stdout ≡ output_of_all k "main" true steps)
      × ((k : String) → (case_of k t).failure ≡ fails_in_any k "main" steps)
unfolding new_logger
run_steps-new_logger steps =
    let (t, ran, added) = run_steps-Attributed steps new_logger main-known in
    (
      t,
      ran,
      added.current,
      (λ k.
          added.stdout k
          ∙ ap (λ c. c.stdout <> output_of_all k "main" true steps) (new_logger-case_of k)
          ∙ nil-append (output_of_all k "main" true steps)),
      (λ k.
          added.failure k
          ∙ ap (λ c. c.failure || fails_in_any k "main" steps) (new_logger-case_of k)),
    )
