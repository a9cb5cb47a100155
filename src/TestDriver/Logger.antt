-- ===== src/TestDriver/Logger.antt =====
-- `AbstractLogger` and `CompositeLogger` of nixos/lib/test-driver/test_driver/logger.py. The colours of a
-- terminal and the library that writes XML are in the modules below.
pub mod Script
pub mod Junit
pub mod Xml
pub mod Terminal
use nixpkgs_llvm_ws.Base.{ℕ, String, List, [], ◌∷◌, Bool}
use nixpkgs_llvm_ws.Base.{Action, pure, raise, done, ok, ◌≡◌, ◌∙◌, >>=-ok, ◌>>=◌, ◌>>◌}
use nixpkgs_llvm_ws.Base.Dict.{Dict}
use nixpkgs_llvm_ws.TestDriver.Errors.{Error, system_exit}

abbrev pub Attributes : Type 0
Attributes = Dict String String

-- A context manager: entering it gives what is done when its body has returned. None of the loggers
-- has a `finally`, so nothing is done when the body raises.
abbrev pub Context {ℓ} : Type ℓ → Type ℓ
Context S = Action S Error (Action S Error (Unit {0}))

-- `with context: body`
unfoldable pub within {ℓ κ} :
    {S : Type ℓ} {A : Type κ} → Context S → Action S Error A → Action S Error A
within context body = context >>= λ leave. body >>= λ a. leave >>= λ _. pure a

pub within-ok {ℓ κ} :
    {S : Type ℓ} {A : Type κ} (context : Context S) (body : Action S Error A)
    {leave : Action S Error (Unit {0})} {a : A} (s : S) {t u v : S}
    → context s ≡ (ok leave, t)
    → body t ≡ (ok a, u)
    → leave u ≡ (ok tt, v)
    → within context body s ≡ (ok a, v)
unfolding within
within-ok context body {leave} {a} s {t} {u} entered returned left =
    >>=-ok context (λ leave. body >>= λ a. leave >>= λ _. pure a) s entered
    ∙ >>=-ok body (λ a. leave >>= λ _. pure a) t returned
    ∙ >>=-ok leave (λ _. pure a) u left

-- A logger, over the state that its calls write.
pub record Logger {ℓ} (S : Type ℓ) : Type ℓ where
  pub log : String → Attributes → Action S Error (Unit {0})
  pub subtest : String → Attributes → Context S
  pub nested : String → Attributes → Context S
  pub info : String → Attributes → Action S Error (Unit {0})
  pub warning : String → Attributes → Action S Error (Unit {0})
  pub error : String → Attributes → Action S Error (Unit {0})
  pub log_serial : String → String → Action S Error (Unit {0})
  pub print_serial_logs : Bool → Action S Error (Unit {0})

module _ {ℓ} {S : Type ℓ} where
  -- The loop of each method of the composite logger.
  unfoldable pub each :
      (Logger S → Action S Error (Unit {0})) → List (Logger S) → Action S Error (Unit {0})
  each f [] = done
  each f (logger ∷ loggers) = f logger >> each f loggers

  -- `ExitStack`: the contexts are left in the opposite order.
  unfoldable pub enter_all : (Logger S → Context S) → List (Logger S) → Context S
  enter_all f [] = pure done
  enter_all f (logger ∷ loggers) =
      f logger >>= λ leave. enter_all f loggers >>= λ others. pure (others >> leave)

  unfoldable pub composite_logger : List (Logger S) → Logger S
  unfolding each enter_all
  composite_logger logger_list = record {
    log = λ message attributes. each (λ logger. logger.log message attributes) logger_list;
    subtest = λ name attributes. enter_all (λ logger. logger.subtest name attributes) logger_list;
    nested =
        λ message attributes. enter_all (λ logger. logger.nested message attributes) logger_list;
    info = λ message attributes. each (λ logger. logger.info message attributes) logger_list;
    warning = λ message attributes. each (λ logger. logger.warning message attributes) logger_list;
    error = λ message attributes.
        each (λ logger. logger.error message attributes) logger_list >> raise (system_exit 1);
    log_serial = λ message machine. each (λ logger. logger.log_serial message machine) logger_list;
    print_serial_logs = λ enable. each (λ logger. logger.print_serial_logs enable) logger_list;
  }
