-- ===== src/TestDriver/Driver/Subtest.antt =====
-- `Driver.subtest`, over any logger.
pub mod Failed
use nixpkgs_llvm_ws.Base.{
  ==-self, String, ◌<>◌, List, [], ◌∷◌, ◌≡◌, refl, ◌∙◌, ap, Bool, true, false, if◌then◌else◌, arith,
  ◌==◌, string_eq, ◌||◌,
}
use nixpkgs_llvm_ws.Base.{
  Action, Result, ok, err, pure, raise, done, ◌>>=◌, ◌>>◌, >>=-ok, >>=-err, follow,
}
use nixpkgs_llvm_ws.Base.Lists.{All}
use nixpkgs_llvm_ws.TestDriver.Errors.{Error, system_exit, hangs}
use nixpkgs_llvm_ws.TestDriver.Logger.{Logger, Context, within, each, enter_all, composite_logger}
use nixpkgs_llvm_ws.TestDriver.Logger.Junit
use nixpkgs_llvm_ws.TestDriver.Logger.Junit.{State, junit_logger, on_case, to_stderr, with_case}
use nixpkgs_llvm_ws.TestDriver.Logger.Junit.Cases.{
  case_of, has_case, updated, on_case-updated, case_of-updated, entered_self,
}

-- `except Exception` catches all but the exit of the process, and a call that never returns.
unfoldable pub is_exception : Error → Bool
is_exception (system_exit n) = false
is_exception hangs = false
is_exception _ = true

-- `str` is the message of an exception.
module _ {ℓ} {S : Type ℓ} (logger : Logger S) (str : Error → String) where
  unfoldable pub failure_message : String → Error → String
  failure_message name e = "Test \"" <> name <> "\" failed with error: \"" <> str e <> "\""

  -- The clause `except Exception as e`
  unfoldable pub reported {ρ} : {A : Type ρ} → String → Result Error A × S → Result Error A × S
  unfolding is_exception failure_message
  reported name (ok a, s) = (ok a, s)
  reported name (err e, s) =
      if is_exception e then (logger.error (failure_message name e) [] >> raise e) s else (err e, s)

  unfoldable pub subtest {ρ} : {A : Type ρ} → String → Action S Error A → Action S Error A
  unfolding within reported
  subtest name body = within (logger.subtest name []) (λ s. reported name (body s))

-- A logger whose methods do not raise.
pub record Answers {ℓ} {S : Type ℓ} (logger : Logger S) : Type ℓ where
  pub subtest :
      (name : String) (s : S)
      → (leave : Action S Error (Unit {0})) × (t : S) × (logger.subtest name [] s ≡ (ok leave, t))
  pub error : (message : String) (s : S) → (t : S) × (logger.error message [] s ≡ (ok tt, t))

module _ {ℓ} {S : Type ℓ} where
  enter_all-subtest :
      (loggers : List (Logger S))
      → All Answers loggers
      → (name : String) (s : S)
      → (leave : Action S Error (Unit {0})) × (t : S) × (enter_all
            (λ logger. logger.subtest name [])
            loggers
            s
          ≡ (ok leave, t))
  unfolding enter_all
  enter_all-subtest [] given name s = (done, s, refl)
  enter_all-subtest (logger ∷ loggers) (answers, given) name s =
      let (leave, t, entered) = answers.subtest name s in
      let (others, u, rest) = enter_all-subtest loggers given name t in
      (
        others >> leave,
        u,
        >>=-ok (logger.subtest name [])
              (λ leave. enter_all (λ logger. logger.subtest name []) loggers >>= λ others.
                pure (others >> leave))
              s entered
            ∙ >>=-ok (enter_all (λ logger. logger.subtest name []) loggers)
                (λ others. pure (others >> leave)) t rest,
      )

  each-error :
      (loggers : List (Logger S))
      → All Answers loggers
      → (message : String) (s : S)
      → (t : S) × (each (λ logger. logger.error message []) loggers s ≡ (ok tt, t))
  unfolding each
  each-error [] given message s = (s, refl)
  each-error (logger ∷ loggers) (answers, given) message s =
      let (t, here) = answers.error message s in
      let (u, rest) = each-error loggers given message t in
      (
        u,
        >>=-ok (logger.error message []) (λ _. each (λ logger. logger.error message []) loggers) s
              here
            ∙ rest,
      )

  pub reported-err {ρ} :
      {A : Type ρ} (logger : Logger S) (str : Error → String) (name : String) (e : Error) (s : S)
      → is_exception e ≡ true
      → reported logger str {A = A} name (err e, s)
        ≡ (logger.error (failure_message logger str name e) [] >> raise {A = A} e) s
  unfolding reported
  reported-err logger str name e s raised = rw raised refl

  -- Let none of the loggers raise. Then a subtest of the composite logger whose body raises an
  -- exception ends with the exit of the process with status 1, and not with that exception.
  pub subtest-composite_logger {ρ} :
      {A : Type ρ} (loggers : List (Logger S)) (given : All Answers loggers) (str : Error → String)
      (name : String) (body : Action S Error A) (s : S)
      → ((t : S) → (e : Error) × (u : S) × (body t ≡ (err e, u)) × (is_exception e ≡ true))
      → (t : S) × (subtest (composite_logger loggers) str name body s ≡ (err (system_exit 1), t))
  unfolding subtest composite_logger within
  subtest-composite_logger {A} loggers given str name body s fails =
      let (leave, t, entered) = enter_all-subtest loggers given name s in
      let (e, u, failed, raised) = fails t in
      let message = failure_message (composite_logger loggers) str name e in
      let (v, told) = each-error loggers given message u in
      (
        v,
        >>=-ok (enter_all (λ logger. logger.subtest name []) loggers)
              (λ leave. (λ s. reported (composite_logger loggers) str name (body s)) >>= λ a.
                leave >>= λ _. pure a)
              s entered
            ∙ ap
                (λ x.
                  follow (λ a. leave >>= λ _. pure a)
                    (reported (composite_logger loggers) str name x))
                failed
            ∙ ap (follow (λ a. leave >>= λ _. pure a)) (
                reported-err (composite_logger loggers) str name e u raised
                ∙ ap (follow (λ _. raise e)) (ap (follow (λ _. raise (system_exit 1))) told)),
      )
