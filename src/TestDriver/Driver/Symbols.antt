-- ===== src/TestDriver/Driver/Symbols.antt =====
-- `Driver.test_symbols`: the names that a test script can use.
use nixpkgs_llvm_ws.Base.{
  ℕ, suc, String, ◌<>◌, List, [], ◌∷◌, ◌≡◌, refl, ◌∙◌, ap, if◌then◌else◌, Option, some, ◌==◌,
  string_eq,
}
use nixpkgs_llvm_ws.Base.Decimal.{str}
use nixpkgs_llvm_ws.Base.Dict.{Dict, lookup, insert, lookup-insert}
use nixpkgs_llvm_ws.TestDriver.Driver.Names.{pythonize_name}

-- What a name stands for: a function or value of the driver by its own name, or the machine or the
-- VLan at a place of its list.
pub data Symbol : Type 0 where
  general : String → Symbol
  machine_at : ℕ → Symbol
  vlan_at : ℕ → Symbol

-- Entries that are assigned one after the other.
unfoldable pub assign_all : Dict String Symbol → Dict String Symbol → Dict String Symbol
unfolding insert string_eq
assign_all d [] = d
assign_all d ((name, symbol) ∷ entries) = assign_all (insert name symbol d) entries

unfoldable pub general_symbols : List String → Dict String Symbol
general_symbols [] = []
general_symbols (name ∷ names) = (name, general name) ∷ general_symbols names

abbrev pub general_names : List String
general_names =
    "start_all" ∷ "test_script" ∷ "machines" ∷ "vlans" ∷ "driver" ∷ "log" ∷ "os" ∷ "create_machine"
    ∷ "subtest" ∷ "run_tests" ∷ "join_all" ∷ "retry" ∷ "serial_stdout_off" ∷ "serial_stdout_on"
    ∷ "polling_condition" ∷ "Machine" ∷ []

unfoldable pub machine_entries : ℕ → List String → Dict String Symbol
unfolding pythonize_name
machine_entries index [] = []
machine_entries index (name ∷ names) =
    (pythonize_name name, machine_at index) ∷ machine_entries (suc index) names

-- `machine` is the name of the machine where there is just one.
abbrev pub only_entry : List String → Dict String Symbol
only_entry [] = []
only_entry (name ∷ []) = ("machine", machine_at 0) ∷ []
only_entry (name ∷ other ∷ names) = []

unfoldable pub vlan_entries : ℕ → List ℕ → Dict String Symbol
unfolding str
vlan_entries index [] = []
vlan_entries index (nr ∷ vlans) = ("vlan" <> str nr, vlan_at index) ∷ vlan_entries (suc index) vlans

-- From the names of the machines and the numbers of the VLans.
unfoldable pub test_symbols : List String → List ℕ → Dict String Symbol
unfolding assign_all general_symbols machine_entries vlan_entries
test_symbols names vlans =
    assign_all
      (assign_all (assign_all (general_symbols general_names) (machine_entries 0 names))
        (only_entry names))
      (vlan_entries 0 vlans)

-- A name stands for what was assigned to it last.
abbrev pub last_of : String → Dict String Symbol → Option Symbol → Option Symbol
last_of name [] otherwise = otherwise
last_of name ((key, symbol) ∷ entries) otherwise =
    last_of name entries (if name == key then some symbol else otherwise)

lookup-assign_all :
    (name : String) (d entries : Dict String Symbol)
    → lookup name (assign_all d entries) ≡ last_of name entries (lookup name d)
unfolding assign_all
lookup-assign_all name d [] = refl
lookup-assign_all name d ((key, symbol) ∷ entries) =
    rw (← lookup-insert name key symbol d) (lookup-assign_all name (insert key symbol d) entries)

-- A name stands for the last VLan of this name, else for the only machine if it is `machine`, else
-- for the last machine whose name becomes this one, else for the driver's own symbol.
pub lookup-test_symbols :
    (name : String) (names : List String) (vlans : List ℕ)
    → lookup name (test_symbols names vlans)
      ≡ last_of name (vlan_entries 0 vlans) (
          last_of name
            (only_entry names)
            (last_of name (machine_entries 0 names) (lookup name (general_symbols general_names))))
unfolding test_symbols
lookup-test_symbols name names vlans =
    let general = general_symbols general_names in
    let machines = assign_all general (machine_entries 0 names) in
    lookup-assign_all name (assign_all machines (only_entry names)) (vlan_entries 0 vlans)
    ∙ ap (last_of name (vlan_entries 0 vlans)) (
        lookup-assign_all name machines (only_entry names)
        ∙ ap (last_of name (only_entry names))
            (lookup-assign_all name general (machine_entries 0 names)))
