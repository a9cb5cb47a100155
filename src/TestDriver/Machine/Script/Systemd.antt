-- ===== src/TestDriver/Machine/Script/Systemd.antt =====
-- The calls that ask systemd keep a machine sound where its callbacks do.
use nixpkgs_llvm_ws.Base.{◌<>◌, ℕ, String, List, Bool, not, Option, none, some}
use nixpkgs_llvm_ws.Base.{if◌then◌else◌, pure, raise, raise_if, done}
use nixpkgs_llvm_ws.Base.{arith, ◌==◌, string_eq}
use nixpkgs_llvm_ws.Base.Dict.{Dict}
use nixpkgs_llvm_ws.Base.Lists.{All}
use nixpkgs_llvm_ws.Base.Int.{is_zero}
use nixpkgs_llvm_ws.Base.Text.{has_text}
use nixpkgs_llvm_ws.TestDriver.Machine.Shell.{Outside, Call}
use nixpkgs_llvm_ws.TestDriver.Machine.Units.{
  line_pattern, invalid_output, systemctl, get_unit_info, property_of, get_unit_property,
  active_state, check_jobs, check_active, wait_for_unit, require_unit_state,
}
use nixpkgs_llvm_ws.TestDriver.Machine.Script.Loops.{raise_if-Preserves}
use nixpkgs_llvm_ws.TestDriver.Machine.Script.After.{IsSound, Keeps, >>=-Keeps}
use nixpkgs_llvm_ws.TestDriver.Machine.Script.Steps.{log-Keeps}
use nixpkgs_llvm_ws.TestDriver.Machine.Script.Execute.{answered-Keeps, systemctl-Keeps}
use nixpkgs_llvm_ws.TestDriver.Machine.Script.Conditions.{waited-Keeps}

module _ (O : Outside) where
  module _ (callbacks : List (Call O (Unit {0}))) (given : All (Keeps O) callbacks) where
    get_unit_info-Keeps :
        (unit : String) (user : Option String) → Keeps O (get_unit_info O callbacks unit user)
    unfolding get_unit_info
    get_unit_info-Keeps unit user =
        >>=-Keeps O (systemctl O callbacks ("--no-pager show \"" <> unit <> "\"") user) _
          (systemctl-Keeps O callbacks given _ user)
          (λ (status, lines). answered-Keeps O (not (is_zero status)) _ _ (λ m v. v) (λ m v. v))

    property_of-Keeps :
        (unit property lines : String) → Keeps O (property_of O callbacks unit property lines)
    unfolding property_of
    property_of-Keeps unit property lines = from (line_pattern lines)
      where
        from :
            (o : Option (String × String))
            → Keeps O (elim o as (λ _. Call O String) [
              | none ↦ raise (invalid_output O callbacks unit property lines)
              | some kv ↦
                  if kv.0 == property
                  then pure kv.1
                  else raise (invalid_output O callbacks unit property lines)
            ])
        from none = λ m v. v
        from (some kv) = answered-Keeps O (kv.0 == property) _ _ (λ m v. v) (λ m v. v)

    get_unit_property-Keeps :
        (unit property : String) (user : Option String)
        → Keeps O (get_unit_property O callbacks unit property user)
    unfolding get_unit_property
    get_unit_property-Keeps unit property user =
        >>=-Keeps O (systemctl O callbacks _ user) _ (systemctl-Keeps O callbacks given _ user)
          (λ (status, lines).
            answered-Keeps O (not (is_zero status)) _ _ (λ m v. v)
              (property_of-Keeps unit property lines))

    active_state-Keeps : (info : Dict String String) → Keeps O (active_state O callbacks info)
    active_state-Keeps info m v = ground arith

    check_jobs-Keeps :
        (unit : String) (user : Option String) → Keeps O (check_jobs O callbacks unit user)
    unfolding check_jobs
    check_jobs-Keeps unit user =
        >>=-Keeps O (systemctl O callbacks "list-jobs --full 2>&1" user) _
          (systemctl-Keeps O callbacks given "list-jobs --full 2>&1" user)
          (λ (status, jobs).
            answered-Keeps O (has_text "No jobs" jobs) _ _
              (>>=-Keeps O (get_unit_info O callbacks unit user) _ (get_unit_info-Keeps unit user)
                (λ info.
                  >>=-Keeps O (active_state O callbacks info) _ (active_state-Keeps info)
                    (λ now. raise_if-Preserves (IsSound O) (now == "inactive") _)))
              (λ m v. v))

    check_active-Keeps :
        (unit : String) (user : Option String) (last : Bool)
        → Keeps O (check_active O callbacks unit user last)
    unfolding check_active
    check_active-Keeps unit user last =
        >>=-Keeps O (get_unit_property O callbacks unit "ActiveState" user) _
          (get_unit_property-Keeps unit "ActiveState" user)
          (λ state.
            >>=-Keeps O (raise_if (state == "failed") _) _
              (raise_if-Preserves (IsSound O) (state == "failed") _)
              (λ _.
                >>=-Keeps O (if state == "inactive" then check_jobs O callbacks unit user else done)
                  _
                  (answered-Keeps O (state == "inactive") (check_jobs O callbacks unit user) done
                    (check_jobs-Keeps unit user) (λ m v. v))
                  (λ _ m v. v)))

    pub wait_for_unit-Keeps :
        (unit : String) (user : Option String) (timeout : ℕ)
        → Keeps O (wait_for_unit O callbacks unit user timeout)
    unfolding wait_for_unit
    wait_for_unit-Keeps unit user timeout =
        waited-Keeps O _ (check_active O callbacks unit user) timeout (check_active-Keeps unit user)

    pub require_unit_state-Keeps :
        (unit require_state : String) → Keeps O (require_unit_state O callbacks unit require_state)
    unfolding require_unit_state
    require_unit_state-Keeps unit require_state = λ m v.
        >>=-Keeps O (get_unit_info O callbacks unit none) _ (get_unit_info-Keeps unit none)
          (λ info.
            >>=-Keeps O (active_state O callbacks info) _ (active_state-Keeps info)
              (λ state. raise_if-Preserves (IsSound O) (not (state == require_state)) _))
          _ (log-Keeps O _ m v)
