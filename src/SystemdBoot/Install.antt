-- ===== src/SystemdBoot/Install.antt =====
-- What `install_bootloader` writes: an entry for each generation and for each of its specialisations, the
-- kernels and initrds, and the configuration of the loader.
pub mod Generation
pub mod Written
pub mod Covered
pub mod Complete
use mathlib.Core.Option
use nixpkgs_llvm_ws.Base.{
  ℕ, String, List, [], ◌∷◌, ◌++◌, Bool, true, false, not, ◌&&◌, ◌||◌, if◌then◌else◌, ◌==◌, contains,
  nat_eq, option_eq, Option, none, some,
}
use nixpkgs_llvm_ws.Base.{
  Action, Result, ok, err, pure, raise, done, modify, for_each, follow, ◌>>=◌, ◌>>◌,
}
use nixpkgs_llvm_ws.Base.Dict.{Dict, insert, lookup}
use nixpkgs_llvm_ws.Base.Decimal.{str}
use nixpkgs_llvm_ws.SystemdBoot.Text.{Text, codes, text_eq}
use nixpkgs_llvm_ws.SystemdBoot.SortKey.{lt_text}
use nixpkgs_llvm_ws.SystemdBoot.EntryFile.{Entry, DiskEntry, written}
use nixpkgs_llvm_ws.SystemdBoot.EntryName.{file_name}
use nixpkgs_llvm_ws.SystemdBoot.Generations.{SystemIdentifier}

-- The fields of a `BootSpec` but for its specialisations.
pub record Contents : Type 0 where
  pub init : Text
  pub initrd : Text
  pub kernel : Text
  pub kernel_params : List Text
  pub label : Text
  pub sort_key : Text
  pub initrd_secrets : Option Text

mutual
  pub data BootSpec : Type 0 where
    boot_spec : Contents → Specialisations → BootSpec

  -- A dict of boot specifications by their names.
  pub data Specialisations : Type 0 where
    nil : Specialisations
    cons : Text → BootSpec → Specialisations → Specialisations

abbrev pub contents : BootSpec → Contents
contents (boot_spec c specialisations) = c

abbrev pub specialisations_of : BootSpec → Specialisations
specialisations_of (boot_spec c specialisations) = specialisations

-- `keys()`
abbrev pub spec_names : Specialisations → List Text
spec_names nil = []
spec_names (cons name b rest) = name ∷ spec_names rest

unfoldable pub find_spec : Text → Specialisations → Option BootSpec
unfolding text_eq
find_spec name nil = none
find_spec name (cons key b rest) = if name == key then some b else find_spec name rest

-- What the profile directory holds for a generation: `EINVAL` is the error that is skipped.
pub data Stored : Type 0 where
  readable : BootSpec → Stored
  invalid : Stored
  unreadable : Stored

pub data Failure : Type 0 where
  exits : ℕ → Failure
  -- an `OSError` with `EINVAL`, and with any other number
  invalid_argument : Failure
  os_error : Failure
  bad_sort_key : Failure
  key_error : Text → Failure

-- The values that the build puts in, and what lies outside: the files of the store and of the profiles,
-- the tools that are run, and dates.
pub record Site : Type 0 where
  pub boot_mount_point : Text
  pub efi_sys_mount_point : Text
  pub nixos_dir : Text
  pub distro_name : Text
  pub counting_tries : Option Text
  pub timeout : Text
  pub editor : Bool
  pub console_mode : Text
  pub bootspec : Option String → ℕ → Stored
  -- the names of the directory of a store file, and of itself, behind its links
  pub located : Text → Text × Text
  -- a copy of a file: how it ends, and what the new file holds if it is there, also behind a failure
  pub copyfile : Text → Result Failure (Unit {0}) × Option Text
  -- whether a file can be written
  pub writes : Text → Result Failure (Unit {0})
  -- whether a tool that appends secrets to an initrd succeeds
  pub run_secrets : Text → Text → Bool
  -- the time of the directory of a generation, as a date
  pub build_date : Option String → ℕ → Option Text → Result Failure Text
  pub dirname : Text → Text

-- The files below the mount points, by their paths.
abbrev pub Files : Type 0
Files = Dict Text Text

abbrev pub Step : Type 0
Step = Action Files Failure (Unit {0})

-- `f"{x}" if x else ''` for a text that may be missing.
abbrev pub around : Text → Option Text → Text → Text
around before none after = []
around before (some []) after = []
around before (some (c ∷ t)) after = before ++ (c ∷ t) ++ after

abbrev pub lift {ρ} : {A : Type ρ} → Result Failure A → Action Files Failure A
lift r files = (r, files)

module _ (site : Site) where
  -- A file is written under another name and renamed.
  unfoldable pub put : Text → Text → Step
  unfolding insert text_eq
  put path text = lift (site.writes path) >> modify (insert path text)

  unfoldable pub entry_path : DiskEntry → Text
  unfolding file_name
  entry_path d = site.boot_mount_point ++ codes "/loader/entries/" ++ file_name d.entry d.counters

  -- `DiskEntry.write`: the temporary file is renamed over the entry's file.
  unfoldable pub write : Text → DiskEntry → Step
  unfolding written entry_path put
  write sorted_first d files = elim (written d sorted_first) [
    | none ↦ (err bad_sort_key, files)
    | some text ↦ put (entry_path d) text files
  ]

  -- `copy_from_file`: the path below the mount point. A file that is there already is left alone.
  unfoldable pub efi_path : Text → Text
  efi_path file =
      let (store_dir, suffix) = site.located file in
      site.nixos_dir ++ codes "/" ++ store_dir ++ codes "-" ++ suffix ++ codes ".efi"

  unfoldable pub copy_from_file : Text → Step
  unfolding efi_path lookup insert text_eq
  copy_from_file file files =
      let dest = site.boot_mount_point ++ efi_path file in
      elim (lookup dest files) [
        | none ↦
            let (r, copy) = site.copyfile file in
            (r, (elim copy [ none ↦ files | some t ↦ insert dest t files ]))
        | some _ ↦ (ok tt, files)
      ]

  unfoldable pub title : Option Text → Option Text → Text
  title profile specialisation =
      site.distro_name
      ++ around (codes " [") profile (codes "]")
      ++ around (codes " (") specialisation (codes ")")

  -- The secrets are appended to the initrd; a failure ends the process for the current generation only.
  unfoldable pub append_secrets : Bool → Contents → Step
  unfolding efi_path
  append_secrets current c = elim c.initrd_secrets [
    | none ↦ done
    | some tool ↦
        if site.run_secrets tool (site.boot_mount_point ++ efi_path c.initrd)
        then done
        else if current
        then raise (exits 1)
        else done
  ]

  unfoldable pub joined : List Text → Text
  joined [] = []
  joined (p ∷ []) = p
  joined (p ∷ q ∷ ps) = p ++ (32 ∷ joined (q ∷ ps))

  -- The entry that is written where none is on disk.
  unfoldable pub new_entry : Entry → Text → Text → Contents → Bool → DiskEntry
  unfolding title efi_path joined str
  new_entry entry machine_id date c current = record {
    entry = entry;
    default = current;
    counters = Option.map (λ tries. 43 ∷ tries) site.counting_tries;
    title = some (title entry.profile entry.specialisation);
    description = some (
        codes "Generation "
        ++ codes (str entry.generation_number)
        ++ codes " "
        ++ c.label
        ++ codes ", built on "
        ++ date);
    kernel = efi_path c.kernel;
    initrd = efi_path c.initrd;
    kernel_params = some (codes "init=" ++ c.init ++ codes " " ++ joined c.kernel_params);
    machine_id = some machine_id;
    sort_key = c.sort_key;
  }

  -- `entry == entry_on_disk.entry`
  unfoldable pub same_entry : Entry → Entry → Bool
  unfolding nat_eq text_eq
  same_entry a b =
      a.profile == b.profile
      && a.generation_number == b.generation_number
      && a.specialisation == b.specialisation

  -- The loop over the entries on disk: only the default status of one that is there already changes.
  unfoldable pub chosen : DiskEntry → List DiskEntry → DiskEntry
  unfolding same_entry
  chosen d [] = d
  chosen d (e ∷ entries) =
      if same_entry d.entry e.entry then record e { default = d.default } else chosen d entries
