-- ===== src/SystemdBoot/Install/Generation.antt =====
-- `write_entry`, `write_loader_conf` and the loops over the generations.
use mathlib.Core.Option
use nixpkgs_llvm_ws.Base.{
  String, List, [], ◌∷◌, ◌++◌, Bool, false, ◌&&◌, ◌||◌, if◌then◌else◌, ◌==◌, Option, none, some,
  ◌>>=◌, ◌>>◌,
}
use nixpkgs_llvm_ws.Base.{Action, Result, ok, err, pure, raise, done, for_each}
use nixpkgs_llvm_ws.SystemdBoot.Text.{Text, codes, text_eq}
use nixpkgs_llvm_ws.SystemdBoot.SortKey.{lt_text}
use nixpkgs_llvm_ws.SystemdBoot.EntryFile.{Entry, DiskEntry}
use nixpkgs_llvm_ws.SystemdBoot.Generations.{SystemIdentifier}
use nixpkgs_llvm_ws.SystemdBoot.Install.{
  Contents, BootSpec, contents, specialisations_of, spec_names, find_spec, Stored, readable,
  invalid, unreadable, Failure, invalid_argument, os_error, key_error, Site, Files, Step, lift, put,
  write, copy_from_file, append_secrets, new_entry, chosen,
}

-- `if specialisation: bootspec = bootspec.specialisations[specialisation]`
unfoldable pub selected : Option Text → BootSpec → Option BootSpec
unfolding find_spec
selected none b = some b
selected (some []) b = some b
selected (some (c ∷ name)) b = find_spec (c ∷ name) (specialisations_of b)

unfoldable pub entry_of : SystemIdentifier → Option Text → Entry
entry_of g specialisation = record {
  profile = Option.map codes g.profile;
  generation_number = g.generation;
  specialisation = specialisation;
}

-- `except OSError`: the error with `EINVAL` is printed, any other is raised again.
unfoldable pub caught : Result Failure (Unit {0}) × Files → Result Failure (Unit {0}) × Files
caught (ok u, files) = (ok u, files)
caught (err invalid_argument, files) = (ok tt, files)
caught (err e, files) = (err e, files)

-- The sort key of the specialisation is that of its generation.
unfoldable pub same_key : Text → BootSpec → Bool
unfolding find_spec text_eq
same_key name b = elim (find_spec name (specialisations_of b)) [
  | none ↦ false
  | some s ↦ (contents s).sort_key == (contents b).sort_key
]

module _ (site : Site) (machine_id : Text) (entries : List DiskEntry) where
  -- Behind the choice of the boot specification.
  unfoldable pub write_selected : SystemIdentifier → Option Text → Contents → Text → Bool → Step
  unfolding copy_from_file append_secrets new_entry chosen write entry_of
  write_selected g specialisation c sorted_first current =
      copy_from_file site c.kernel
      >> copy_from_file site c.initrd
      >> append_secrets site current c
      >> lift (site.build_date g.profile g.generation specialisation)
      >>= λ date. write site sorted_first (
          chosen site (new_entry site (entry_of g specialisation) machine_id date c current)
            entries)

  unfoldable pub write_entry : SystemIdentifier → Option Text → BootSpec → Text → Bool → Step
  unfolding selected write_selected
  write_entry g specialisation b sorted_first current = elim (selected specialisation b) [
    | none ↦ raise (key_error (elim specialisation [ none ↦ [] | some name ↦ name ]))
    | some s ↦ write_selected g specialisation (contents s) sorted_first current
  ]

  -- The lines of `loader.conf`, which is renamed into place.
  unfoldable pub loader_conf : Option String → Text
  unfolding text_eq
  loader_conf profile =
      (if site.timeout == [] then [] else codes "timeout " ++ site.timeout ++ codes "\n")
      ++ (elim profile [
        | none ↦ codes "default nixos-generation-*\n"
        | some p ↦
            if codes p == []
            then codes "default nixos-generation-*\n"
            else codes "default nixos-" ++ codes p ++ codes "-generation-*\n"
      ])
      ++ (if site.editor then [] else codes "editor 0\n")
      ++ codes "console-mode "
      ++ site.console_mode
      ++ codes "\n"

  unfoldable pub write_loader_conf : Option String → Step
  unfolding loader_conf put text_eq
  write_loader_conf profile =
      put site (site.efi_sys_mount_point ++ codes "/loader/loader.conf") (loader_conf profile)

  module _ (default_config sorted_first : Text) where
    -- The body of the loop, for a boot specification that could be read.
    unfoldable pub write_generation : SystemIdentifier → BootSpec → Step
    unfolding write_entry same_key write_loader_conf for_each text_eq
    write_generation g b =
        let is_default = site.dirname (contents b).init == default_config in
        write_entry g none b sorted_first is_default
        >> for_each
            (λ name. write_entry g (some name) b sorted_first (is_default && same_key name b))
            (spec_names (specialisations_of b))
        >> (if is_default then write_loader_conf g.profile else done)

    -- The body of the `try`.
    unfoldable pub write_tried : SystemIdentifier → Stored → Step
    unfolding write_generation
    write_tried g (readable b) = write_generation g b
    write_tried g invalid = raise invalid_argument
    write_tried g unreadable = raise os_error

    -- With `EINVAL` the rest of the generation is skipped, also where it is the writing of its files
    -- that failed.
    unfoldable pub write_stored : SystemIdentifier → Stored → Step
    unfolding write_tried caught
    write_stored g s files = caught (write_tried g s files)

    unfoldable pub write_generations : List SystemIdentifier → Step
    unfolding write_stored for_each
    write_generations gens =
        for_each (λ g. write_stored g (site.bootspec g.profile g.generation)) gens

  -- The loop that finds the first sort key.
  unfoldable pub find_sorted_first : Text → List SystemIdentifier → Action Files Failure Text
  unfolding lt_text text_eq
  find_sorted_first acc [] = pure acc
  find_sorted_first acc (g ∷ gens) = elim (site.bootspec g.profile g.generation) [
    | readable b ↦
        find_sorted_first
          (if lt_text (contents b).sort_key acc || acc == [] then (contents b).sort_key else acc)
          gens
    | invalid ↦ find_sorted_first acc gens
    | unreadable ↦ raise os_error
  ]

  -- The two loops of `install_bootloader`.
  unfoldable pub write_entries : Text → List SystemIdentifier → Step
  unfolding find_sorted_first write_generations
  write_entries default_config gens = find_sorted_first [] gens >>= λ sorted_first.
      write_generations default_config sorted_first gens
