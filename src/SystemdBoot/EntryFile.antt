-- ===== src/SystemdBoot/EntryFile.antt =====
-- `DiskEntry`: a boot entry, and the file that holds it.
pub mod Reread
use nixpkgs_llvm_ws.Base.{
  ℕ, List, [], ◌∷◌, ◌++◌, Bool, true, false, if◌then◌else◌, ◌==◌, nat_eq, Option, none, some,
}
use mathlib.Core.Option
use nixpkgs_llvm_ws.Base.Dict.{Dict, lookup, insert}
use nixpkgs_llvm_ws.SystemdBoot.Text.{Text, codes, text_eq, join_lines, split_lines}
use nixpkgs_llvm_ws.SystemdBoot.SortKey.{default_sort_key}

pub record Entry : Type 0 where
  pub profile : Option Text
  pub generation_number : ℕ
  pub specialisation : Option Text

pub record DiskEntry : Type 0 where
  pub entry : Entry
  pub default : Bool
  pub counters : Option Text
  pub title : Option Text
  pub description : Option Text
  pub kernel : Text
  pub initrd : Text
  pub kernel_params : Option Text
  pub machine_id : Option Text
  pub sort_key : Text

-- `line.split(' ', 1)` of a line with a space in it; `none` is the `ValueError` that `dict` raises for
-- one without.
unfoldable pub split_space : Text → Option (Text × Text)
split_space [] = none
split_space (c ∷ s) =
    let rest = split_space s in
    if c == 32 then some ([], s) else Option.map (λ (key, value). (c ∷ key, value)) rest

-- `dict(lines.split(' ', 1) for lines in data)`
unfoldable pub entry_map : Dict Text Text → List Text → Option (Dict Text Text)
unfolding split_space insert text_eq
entry_map d [] = some d
entry_map d (line ∷ lines) = elim (split_space line) [
  | none ↦ none
  | some (key, value) ↦ entry_map (insert key value d) lines
]

-- `if '' in data: data.remove('')`
unfoldable pub remove_empty : List Text → List Text
remove_empty [] = []
remove_empty ([] ∷ lines) = lines
remove_empty ((c ∷ l) ∷ lines) = (c ∷ l) ∷ remove_empty lines

pub data Parsed : Type 0 where
  parsed : DiskEntry → Parsed
  value_error : Parsed
  assertion_error : Parsed

-- The end of `DiskEntry.from_path`, from the map and what the file's name has given.
unfoldable pub from_map : Entry → Option Text → Dict Text Text → Parsed
unfolding lookup text_eq
from_map entry counters m = elim (lookup (codes "linux") m) [
  | none ↦ assertion_error
  | some kernel ↦ elim (lookup (codes "initrd") m) [
    | none ↦ assertion_error
    | some initrd ↦ parsed (record {
      entry = entry;
      default = elim (lookup (codes "sort-key") m) [ none ↦ false | some v ↦ v == codes "default" ];
      counters = counters;
      title = lookup (codes "title") m;
      description = lookup (codes "version") m;
      kernel = kernel;
      initrd = initrd;
      kernel_params = lookup (codes "options") m;
      machine_id = lookup (codes "machine-id") m;
      sort_key = Option.get_or (lookup (codes "sort_key") m) (codes "nixos");
    })
  ]
]

-- `DiskEntry.from_path`, behind the parts that it reads off the file's name.
unfoldable pub from_text : Entry → Option Text → Text → Parsed
unfolding split_lines remove_empty entry_map from_map
from_text entry counters text = elim (entry_map [] (remove_empty (split_lines text))) [
  | none ↦ value_error
  | some m ↦ from_map entry counters m
]

-- A line of `boot_entry` for a field that may be `None`; `filter` drops what is missing.
abbrev pub optional : Text → Option Text → List Text → List Text
optional label none lines = lines
optional label (some v) lines = (label ++ v) ∷ lines

-- The lines that `DiskEntry.write` joins, with the key for the default entry.
unfoldable pub boot_entry : DiskEntry → Text → List Text
boot_entry d default_key = optional (codes "title ") d.title (
    optional (codes "version ") d.description (
      (codes "linux " ++ d.kernel)
      ∷ (codes "initrd  " ++ d.initrd)
      ∷ optional (codes "options ") d.kernel_params (
          optional (codes "machine-id ") d.machine_id
            ((codes "sort-key " ++ (if d.default then default_key else d.sort_key)) ∷ []))))

-- What `DiskEntry.write` writes; `none` is the exception of a bad `sorted_first`.
unfoldable pub written : DiskEntry → Text → Option Text
unfolding boot_entry default_sort_key join_lines
written d sorted_first =
    Option.map (λ key. join_lines (boot_entry d key)) (default_sort_key sorted_first)
