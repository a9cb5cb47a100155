-- ===== src/TestDriver/Polling.antt =====
-- `PollingCondition` of nixos/lib/test-driver/test_driver/polling_condition.py. Times are counted
-- in ticks of the monotonic clock; `last_called` is `none` for minus infinity. The condition is
-- an action on the whole world, so it may come back to the polling condition that calls it.
pub mod Throttle
use nixpkgs_llvm_ws.Base.{ℕ, ◌+◌, ◌-◌, String, ◌<>◌, Bool, true, false, not, ◌&&◌, ◌||◌, ltb}
use nixpkgs_llvm_ws.Base.{if◌then◌else◌, Option, none, some, ◌==◌, string_eq}
use nixpkgs_llvm_ws.Base.{Action, Result, ok, err, pure, raise, gets, modify, raise_if, ◌>>=◌, ◌>>◌}
use nixpkgs_llvm_ws.TestDriver.Errors.{Error, assertion, polling, hangs, system_exit}

-- The logger that the object holds, and two formats of the standard library.
pub record Tools {ℓ} (U : Type ℓ) : Type ℓ where
  pub info : String → U → U
  pub nested_begin : String → U → U
  pub nested_end : String → U → U
  pub two_decimals : ℕ → String
  pub repr : String → String

-- The fields that never change.
pub record Settings : Type 0 where
  pub seconds_interval : ℕ
  pub description : String

pub record World {ℓ} (U : Type ℓ) : Type ℓ where
  pub now : ℕ
  pub last_called : Option ℕ
  pub entry_count : ℕ
  pub rest : U

-- `__init__`: the description defaults to the condition's doc string, or to its name.
unfoldable pub new_settings : ℕ → Option String → Option String → String → Settings
new_settings interval (some given) doc name = record {
  seconds_interval = interval;
  description = given;
}
new_settings interval none none name = record { seconds_interval = interval; description = name }
new_settings interval none (some doc) name = record {
  seconds_interval = interval;
  description = if doc == "" then name else doc;
}

unfoldable pub new_world {ℓ} : {U : Type ℓ} → ℕ → U → World U
new_world now rest = record { now = now; last_called = none; entry_count = 0; rest = rest }

unfoldable pub status_message : Settings → Bool → String
status_message c status =
    "Polling condition " <> (if status then "succeeded" else "failed") <> ": " <> c.description

-- What `except Exception` lets through. A call that never returns is not caught either; what
-- the model then does behind it is never reached.
unfoldable pub escapes : Error → Bool
escapes (system_exit status) = true
escapes hangs = true
escapes _ = false

-- `try: res = condition()`, `except Exception: res = False` and `res is None or res`.
unfoldable pub answer_of : Result Error (Option Bool) → Result Error Bool
unfolding escapes
answer_of (ok none) = ok true
answer_of (ok (some b)) = ok b
answer_of (err e) = if escapes e then err e else ok false

module _ {ℓ} {U : Type ℓ} where
  unfoldable pub overdue : Settings → World U → Bool
  overdue c w = elim w.last_called [ none ↦ true | some t ↦ ltb (t + c.seconds_interval) w.now ]

  unfoldable pub entered : World U → Bool
  entered w = ltb 0 w.entry_count

  -- `__enter__`
  unfoldable pub enter : World U → World U
  enter w = record w { entry_count = w.entry_count + 1 }

  -- `__exit__`
  unfoldable pub exit : Action (World U) Error (Unit {0})
  unfolding entered
  exit w =
      if entered w
      then (ok tt, record w { entry_count = w.entry_count - 1; last_called = some w.now })
      else (err (assertion ""), w)

module _ {ℓ} {U : Type ℓ} (tools : Tools U) (c : Settings) where
  open tools use {info, nested_begin, nested_end, two_decimals, repr}

  unfoldable pub log : (U → U) → World U → World U
  log f w = record w { rest = f w.rest }

  unfoldable pub nested_message : String
  nested_message = "Checking polling condition " <> repr c.description

  unfoldable pub last_message : World U → String
  last_message w = elim w.last_called [
    | none ↦ "(not called yet)"
    | some t ↦ "Time since last: " <> two_decimals (w.now - t) <> "s"
  ]

  -- The two contexts of the `with` statement are entered.
  unfoldable pub opened : World U → World U
  unfolding log nested_message enter
  opened w = log (nested_begin nested_message) (enter w)

  -- The answer is logged, where there is one.
  unfoldable pub reported : Result Error Bool → World U → Result Error Bool × World U
  unfolding log status_message
  reported (ok res) u = (ok res, log (info (status_message c res)) u)
  reported (err e) u = (err e, u)

  -- A `with` statement leaves its contexts in the opposite order. The logger's context does nothing
  -- where it is left by an exception.
  unfoldable pub leave : Result Error Bool → World U → Result Error Bool × World U
  unfolding log exit
  leave (ok res) u = (exit >> pure res) (log (nested_end nested_message) u)
  leave (err e) u = (exit >> raise e) u

  module _ (condition : Action (World U) Error (Option Bool)) where
    -- The body of the `with` statement.
    unfoldable pub run_condition : World U → Result Error Bool × World U
    unfolding answer_of log last_message reported
    run_condition w =
        let (r, u) = condition (log (info (last_message w)) w) in reported (answer_of r) u

    unfoldable pub guarded : World U → Result Error Bool × World U
    unfolding leave
    guarded w = let (r, u) = run_condition (opened w) in leave r u

    unfoldable pub check : Bool → Action (World U) Error Bool
    unfolding overdue entered guarded
    check force w =
        if (entered w || not (overdue c w)) && not force then (ok true, w) else guarded w

    unfoldable pub maybe_raise : Action (World U) Error (Unit {0})
    unfolding check status_message
    maybe_raise = do res ← check false; raise_if (not res) (polling (status_message c false))
