-- ===== src/SystemdBoot/Install/Complete.antt =====
-- The entries behind the two loops of `install_bootloader`.
use nixpkgs_llvm_ws.Base.{List, [], ◌≡◌, ◌||◌, if◌then◌else◌, ◌==◌}
use nixpkgs_llvm_ws.Base.{ok}
use nixpkgs_llvm_ws.Base.Lists.{All}
use nixpkgs_llvm_ws.SystemdBoot.Text.{Text, text_eq}
use nixpkgs_llvm_ws.SystemdBoot.SortKey.{lt_text}
use nixpkgs_llvm_ws.SystemdBoot.EntryFile.{DiskEntry}
use nixpkgs_llvm_ws.SystemdBoot.Generations.{SystemIdentifier}
use nixpkgs_llvm_ws.SystemdBoot.Install.{
  contents, Stored, readable, invalid, unreadable, Site, Files,
}
use nixpkgs_llvm_ws.SystemdBoot.Install.Generation.{write_stored, find_sorted_first}
use nixpkgs_llvm_ws.SystemdBoot.Install.Written.{Returns, IsWorking}
use nixpkgs_llvm_ws.SystemdBoot.Install.Covered.{IsCovered}

module _ (site : Site) (machine_id : Text) (entries : List DiskEntry) where
  abbrev Finds : Text → List SystemIdentifier → (Text → Type 0) → Type 0
  Finds acc gens Q =
      (key : Text) × ((files : Files)
        → find_sorted_first site machine_id entries acc gens files ≡ (ok key, files))
      × Q key

  abbrev stored : SystemIdentifier → Stored
  stored g = site.bootspec g.profile g.generation

  abbrev next_key : Text → Stored → Text
  next_key acc (readable b) =
      if lt_text (contents b).sort_key acc || acc == [] then (contents b).sort_key else acc
  next_key acc invalid = acc
  next_key acc unreadable = acc

  abbrev AreSkipped : List SystemIdentifier → Type 0
  AreSkipped gens = All (λ g. stored g ≡ invalid) gens

  module _ (works : IsWorking site) (default_config : Text) where
    abbrev Covers : Text → SystemIdentifier → Type 0
    Covers key g =
        (files : Files)
        → Returns (write_stored site machine_id entries default_config key g (stored g))
            (IsCovered site g (stored g)) files
