-- ===== src/TestDriver/Driver/Create.antt =====
-- `Driver.create_machine`: the arguments that a new machine is made of, also from a single dictionary.
pub mod Legacy
use nixpkgs_llvm_ws.Base.{
  String, ◌<>◌, List, [], ◌∷◌, ◌≡◌, refl, Bool, true, false, not, ◌||◌, if◌then◌else◌, Option, none,
  some, ◌==◌, string_eq, contains, arith,
}
use mathlib.Core.Option
use nixpkgs_llvm_ws.Base.{Action, Result, ok, err}
use nixpkgs_llvm_ws.Base.Dict.{Dict, lookup, erase, keys}
use nixpkgs_llvm_ws.TestDriver.Machine.StartScript.{machine_name}

-- A value of Python, as far as the code looks at it.
pub data Value : Type 0 where
  text : String → Value
  flag : Bool → Value
  nothing : Value

-- `bool(v)`
unfoldable pub is_true : Value → Bool
unfolding string_eq
is_true (text s) = not (s == "")
is_true (flag b) = b
is_true nothing = false

unfoldable pub is_nothing : Value → Bool
is_nothing nothing = true
is_nothing _ = false

-- The arguments that go to `Machine`, and whether the use of a dictionary was warned about.
pub record Request : Type 0 where
  pub start_command : String
  pub name : Value
  pub keep_vm_state : Value
  pub warned : Bool

-- Behind the legacy arguments: `name or cmd.machine_name`.
unfoldable pub request : Bool → String → Value → Value → Request
unfolding is_true machine_name
request warned start_command name keep_vm_state = record {
  start_command = start_command;
  name = if is_true name then name else text (machine_name start_command);
  keep_vm_state = keep_vm_state;
  warned = warned;
}

-- From the other arguments
unfoldable pub create_machine : String → Value → Value → Request
unfolding request
create_machine start_command name keep_vm_state = request false start_command name keep_vm_state

-- `repr` of a value and of a dictionary are the library's.
module _ (repr : Value → String) (repr_dict : Dict String Value → String) where
  -- The last of the checks, and the machine.
  unfoldable pub popped : String → Dict String Value → Action (Dict String Value) String Request
  unfolding request lookup erase string_eq
  popped start_command args _ =
      let name = Option.get_or (lookup "name" args) nothing in
      let keep_vm_state = Option.get_or (lookup "keep_vm_state" args) (flag false) in
      let left = erase "keep_vm_state" (erase "name" args) in
      elim left [
        | [] ↦ (ok (request true start_command name keep_vm_state), [])
        | arg ∷ more ↦ (
          err ("Unsupported arguments passed to create_machine: " <> repr_dict (arg ∷ more)),
          arg ∷ more,
        )
      ]

  -- A dictionary as the argument. The caller's dictionary loses what is popped, and an error is the
  -- text of the `TypeError`.
  unfoldable pub create_from_dict : Value → Value → Action (Dict String Value) String Request
  unfolding is_true is_nothing popped lookup erase string_eq
  create_from_dict name keep_vm_state args =
      if not (is_nothing name) || is_true keep_vm_state
      then (err "Dictionary passed to create_machine must be the only argument", args)
      else elim (lookup "startCommand" args) [
        | none ↦ (err "Dictionary passed to create_machine must contain startCommand", args)
        | some (text start_command) ↦ popped start_command (erase "startCommand" args) args
        | some other ↦
            (err ("startCommand must be a string, got: " <> repr other), erase "startCommand" args)
      ]
