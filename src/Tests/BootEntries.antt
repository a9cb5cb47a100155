-- ===== src/Tests/BootEntries.antt =====
-- The names of boot entries, and the entries of two generations.
use nixpkgs_llvm_ws.Base.{ℕ, true, List, [], ◌∷◌, ◌≡◌, ◌≢◌, refl, none, some, nat_eq}
use nixpkgs_llvm_ws.Base.{ok}
use nixpkgs_llvm_ws.SystemdBoot.Text.{Text, codes}
use nixpkgs_llvm_ws.SystemdBoot.EntryFile.{Entry}
use nixpkgs_llvm_ws.SystemdBoot.EntryName.{entry_from_name, file_name}
use nixpkgs_llvm_ws.SystemdBoot.EntryName.Reread.{entry_from_name-file_name}
use nixpkgs_llvm_ws.SystemdBoot.Generations.{SystemIdentifier}
use nixpkgs_llvm_ws.SystemdBoot.Install.{boot_spec, Contents, nil, cons, readable, Site}

filled : (c : ℕ) (t : Text) → ◌≢◌ {A = Text} (c ∷ t) []
filled c t = λ e. cc

abbrev hardened : Entry
hardened = record {
  profile = some (codes "my-test");
  generation_number = 12;
  specialisation = some (codes "lts");
}

entry_from_name-file_name_example :
    entry_from_name (file_name hardened (some (codes "+3-1"))) ≡ some hardened
unfolding nat_eq
entry_from_name-file_name_example =
    entry_from_name-file_name hardened (some (codes "+3-1")) (filled _ _)
      (filled _ _, (refl, (refl, (refl, tt)))) tt (refl, (refl, (refl, (refl, tt))))

abbrev spec : Contents
spec = record {
  init = codes "/nix/store/abc-nixos/init";
  initrd = codes "/nix/store/def-initrd/initrd";
  kernel = codes "/nix/store/ghi-linux/bzImage";
  kernel_params = codes "quiet" ∷ [];
  label = codes "24.11";
  sort_key = codes "nixos";
  initrd_secrets = none;
}

abbrev site : Site
site = record {
  boot_mount_point = codes "/boot";
  efi_sys_mount_point = codes "/boot";
  nixos_dir = codes "/EFI/nixos";
  distro_name = codes "NixOS";
  counting_tries = none;
  timeout = codes "5";
  editor = true;
  console_mode = codes "keep";
  bootspec = λ profile n. readable (boot_spec spec (cons (codes "lts") (boot_spec spec nil) nil));
  located = λ file. (codes "def-initrd", codes "initrd");
  copyfile = λ file. (ok tt, some []);
  writes = λ path. ok tt;
  run_secrets = λ tool path. true;
  build_date = λ profile n specialisation. ok (codes "2024-11-01");
  dirname = λ file. codes "/nix/store/abc-nixos";
}

abbrev generations : List SystemIdentifier
generations =
    record { profile = none; generation = 12; specialisation = none }
    ∷ record { profile = some "test"; generation = 3; specialisation = none }
    ∷ []
