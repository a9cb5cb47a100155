-- ===== src/TestDriver/Machine/Units.antt =====
-- The calls on systemd units: `systemctl`, `get_unit_info`, `get_unit_property`, `wait_for_unit`,
-- `require_unit_state` and `switch_root`.
pub mod Property
use Prim.Native.Char.{Char, code}
use nixpkgs_llvm_ws.Base.{
  ℕ, String, ◌<>◌, List, [], ◌∷◌, Bool, true, false, not, ◌&&◌, ◌||◌, if◌then◌else◌, Option, none,
  some, ◌==◌, string_eq, nat_eq,
}
use nixpkgs_llvm_ws.Base.{Action, Result, ok, err, pure, raise, raise_if, follow, done, ◌>>=◌, ◌>>◌}
use nixpkgs_llvm_ws.Base.Dict.{Dict, lookup, insert}
use nixpkgs_llvm_ws.Base.Int.{ℤ, is_zero, show}
use nixpkgs_llvm_ws.Base.Text.{has_char, has_text}
use nixpkgs_llvm_ws.TestDriver.Errors.{Error, exception, assertion, key_error}
use nixpkgs_llvm_ws.TestDriver.Retry.{retry}
use nixpkgs_llvm_ws.TestDriver.Machine.Shell.{Outside, Machine, Call, log, execute}
use nixpkgs_llvm_ws.TestDriver.Machine.Commands.{nested, pause}
use nixpkgs_llvm_ws.TestDriver.Machine.Life.{switch_over}

-- `q.replace("'", "\\'")`
unfoldable pub escaped : String → String
escaped String.[] = ""
escaped (String.◌∷◌ c s) =
    let rest = escaped s in if code c == b'\'' then "\\'" <> rest else String.◌∷◌ c rest

-- A text up to its first `=`, and what follows.
unfoldable pub cut : String → Option (String × String)
cut String.[] = none
cut (String.◌∷◌ c s) =
    let rest = cut s in
    if code c == b'='
    then some ("", s)
    else elim rest [ none ↦ none | some kv ↦ some (String.◌∷◌ c kv.0, kv.1) ]

-- `$` also matches before a newline at the end.
unfoldable pub without_newline : String → String
without_newline String.[] = ""
without_newline (String.◌∷◌ c s) =
    let rest = without_newline s in if s == "" && code c == b'\n' then "" else String.◌∷◌ c rest

-- The groups of `^([^=]+)=(.*)$`.
unfoldable pub line_pattern : String → Option (String × String)
unfolding cut without_newline has_char string_eq nat_eq
line_pattern line = elim (cut line) [
  | none ↦ none
  | some kv ↦
      if kv.0 == "" || has_char b'\n' (without_newline kv.1)
      then none
      else some (kv.0, without_newline kv.1)
]

-- `lines.split("\n")`
unfoldable pub onto_first : Char → List String → List String
onto_first c [] = []
onto_first c (line ∷ lines) = String.◌∷◌ c line ∷ lines

unfoldable pub split_lines : String → List String
unfolding onto_first
split_lines String.[] = "" ∷ []
split_lines (String.◌∷◌ c s) =
    let rest = split_lines s in if code c == b'\n' then "" ∷ rest else onto_first c rest

-- `dict(…)` over the lines that match, where a later line replaces an earlier one.
unfoldable pub info_of : Dict String String → List String → Dict String String
unfolding line_pattern insert string_eq
info_of info [] = info
info_of info (line ∷ lines) = elim (line_pattern line) [
  | none ↦ info_of info lines
  | some kv ↦ info_of (insert kv.0 kv.1 info) lines
]

module _ (O : Outside) (callbacks : List (Call O (Unit {0}))) where
  unfoldable pub systemctl : String → Option String → Call O (ℤ × String)
  unfolding execute escaped
  systemctl q none = execute O callbacks ("systemctl " <> q) true true (some 900)
  systemctl q (some user) =
      execute O callbacks
        ("su -l "
          <> user
          <> " --shell /bin/sh -c "
          <> "$'XDG_RUNTIME_DIR=/run/user/`id -u` "
          <> "systemctl --user "
          <> escaped q
          <> "'")
        true true (some 900)

  abbrev pub under : Option String → String
  under none = ""
  under (some user) = " under user \"" <> user <> "\""

  unfoldable pub get_unit_info : String → Option String → Call O (Dict String String)
  unfolding systemctl show info_of split_lines
  get_unit_info unit user = do
    (status, lines) ← systemctl ("--no-pager show \"" <> unit <> "\"") user
    if not (is_zero status)
        then raise (
            exception (
              "retrieving systemctl info for unit \""
              <> unit
              <> "\""
              <> under user
              <> " failed with exit code "
              <> show status))
        else pure (info_of [] (split_lines lines))

  unfoldable pub invalid_output : String → String → String → Error
  invalid_output unit property lines = assertion (
      "systemctl show --property \"" <> property <> "\" \"" <> unit <> "\""
      <> "produced invalid output: " <> lines)

  -- The two assertions on what `systemctl show --property` printed.
  unfoldable pub property_of : String → String → String → Call O String
  unfolding line_pattern invalid_output string_eq
  property_of unit property lines = elim (line_pattern lines) [
    | none ↦ raise (invalid_output unit property lines)
    | some kv ↦ if kv.0 == property then pure kv.1 else raise (invalid_output unit property lines)
  ]

  unfoldable pub get_unit_property : String → String → Option String → Call O String
  unfolding systemctl show property_of
  get_unit_property unit property user = do
    (status, lines) ←
        systemctl ("--no-pager show \"" <> unit <> "\" --property=\"" <> property <> "\"") user
    if not (is_zero status)
        then raise (
            exception (
              "retrieving systemctl property \""
              <> property
              <> "\" for unit \""
              <> unit
              <> "\""
              <> under user
              <> " failed with exit code "
              <> show status))
        else property_of unit property lines

  -- `info["ActiveState"]`
  abbrev pub active_state : Dict String String → Call O String
  active_state info = elim (lookup "ActiveState" info) [
    | none ↦ raise (key_error "ActiveState")
    | some state ↦ pure state
  ]

  -- The test for an inactive unit without pending jobs.
  unfoldable pub check_jobs : String → Option String → Call O (Unit {0})
  unfolding systemctl get_unit_info lookup has_text string_eq
  check_jobs unit user = do
    (status, jobs) ← systemctl "list-jobs --full 2>&1" user
    if has_text "No jobs" jobs
        then (do
          info ← get_unit_info unit user
          now ← active_state info
          raise_if (now == "inactive")
              (exception ("unit \"" <> unit <> "\" is inactive and there are no pending jobs")))
        else done

  unfoldable pub check_active : String → Option String → Bool → Call O Bool
  unfolding get_unit_property check_jobs string_eq
  check_active unit user last = do
    state ← get_unit_property unit "ActiveState" user
    raise_if (state == "failed")
        (exception ("unit \"" <> unit <> "\" reached state \"" <> state <> "\""))
    (if state == "inactive" then check_jobs unit user else done)
    pure (state == "active")

  unfoldable pub wait_for_unit : String → Option String → ℕ → Call O (Unit {0})
  unfolding check_active
  wait_for_unit unit user timeout =
      nested O
        ("waiting for unit "
          <> unit
          <> (elim user [ none ↦ "" | some name ↦ " with user " <> name ]))
        (retry (pause O) (check_active unit user) timeout)

  unfoldable pub require_unit_state : String → String → Call O (Unit {0})
  unfolding get_unit_info lookup string_eq
  require_unit_state unit require_state =
      nested O ("checking if unit '" <> unit <> "' has reached state '" <> require_state <> "'") (do
        info ← get_unit_info unit none
        state ← active_state info
        raise_if (not (state == require_state)) (
            exception (
              "Expected unit '" <> unit <> "' to to be in state '" <> require_state
              <> "' but it is in state '" <> state <> "'")))

  unfoldable pub switch_root : Call O (Unit {0})
  unfolding wait_for_unit switch_over
  switch_root = wait_for_unit "initrd.target" none 900 >> switch_over O callbacks
