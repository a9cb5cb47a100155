-- ===== src/SystemdBoot/Generations/Removal.antt =====
-- What `remove_old_entries` unlinks.
use nixpkgs_llvm_ws.Base.{
  String, ◌<>◌, List, [], ◌∷◌, ◌++◌, Bool, false, if◌then◌else◌, contains, string_eq, ◌≡◌, ◌≢◌,
  refl, ap, arith, nat_eq, option_eq,
}
use nixpkgs_llvm_ws.SystemdBoot.Generations.{
  SystemIdentifier, OnDisk, stale_entries, efi_file_path, stale_files, globbed, known_paths,
  remove_old_entries,
}

-- The paths of files, without those of directories.
abbrev pub file_paths : List (String × Bool) → List String
file_paths [] = []
file_paths ((path, is_dir) ∷ files) = if is_dir then file_paths files else path ∷ file_paths files

known_paths_apart :
    (mount_point nixos_dir : String)
    → ((s t : String) → (mount_point <> s) ≢ (nixos_dir <> t))
    → (name : String) (images : List (String × String))
    → contains (known_paths nixos_dir images) (mount_point <> "/efi/nixos/" <> name) ≡ false
unfolding known_paths efi_file_path
known_paths_apart mount_point nixos_dir apart name [] = refl
known_paths_apart mount_point nixos_dir apart name ((store_dir, suffix) ∷ images) = ground (
  arith,
  known_paths_apart mount_point nixos_dir apart name images,
  apart ("/efi/nixos/" <> name) ("/" <> store_dir <> "-" <> suffix <> ".efi"),
)

stale_files-globbed :
    (mount_point nixos_dir : String)
    → ((s t : String) → (mount_point <> s) ≢ (nixos_dir <> t))
    → (images : List (String × String)) (files : List (String × Bool))
    → stale_files (known_paths nixos_dir images) (globbed mount_point files)
      ≡ file_paths (globbed mount_point files)
unfolding stale_files globbed
stale_files-globbed mount_point nixos_dir apart images [] = refl
stale_files-globbed mount_point nixos_dir apart images ((name, is_dir) ∷ files) = ground (
  arith,
  stale_files-globbed mount_point nixos_dir apart images files,
  known_paths_apart mount_point nixos_dir apart name images,
)

-- Where no path below the mount point of the ESP begins with the directory of the images, which
-- `copy_from_file` returns without the mount point, every file in `efi/nixos` is unlinked, also
-- the kernels and initrds of the generations that are kept.
pub remove_old_entries_all :
    (mount_point nixos_dir : String)
    → ((s t : String) → (mount_point <> s) ≢ (nixos_dir <> t))
    → (gens : List SystemIdentifier) (images : List (String × String)) (entries : List OnDisk)
      (files : List (String × Bool))
    → remove_old_entries mount_point nixos_dir gens images entries files
      ≡ stale_entries gens entries ++ file_paths (globbed mount_point files)
unfolding remove_old_entries
remove_old_entries_all mount_point nixos_dir apart gens images entries files =
    ap (λ l. stale_entries gens entries ++ l)
      (stale_files-globbed mount_point nixos_dir apart images files)
