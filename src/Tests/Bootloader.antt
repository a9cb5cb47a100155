-- ===== src/Tests/Bootloader.antt =====
-- Boot entries and generations of one machine.
use text.Mathlib.TextLemmas.{cons-append, head-eq_of_cons-eq, tail-eq_of_cons-eq}
use mathlib.Core.Option
use nixpkgs_llvm_ws.Base.{
  ℕ, String, ◌<>◌, List, [], ◌∷◌, ◌++◌, ◌≡◌, ◌≢◌, ◌∙◌, refl, sym, ap, Bool, true, false, not, ◌&&◌,
  if◌then◌else◌, none, some, contains, ◌==◌, string_eq, nat_eq, option_eq, arith,
}
use Prim.Native.Nat.{min}
use Prim.Native.Char.{Char, code}
use nixpkgs_llvm_ws.Base.Lists.{All}
use nixpkgs_llvm_ws.SystemdBoot.Text.{Text, codes, IsLine, text_eq}
use nixpkgs_llvm_ws.SystemdBoot.SortKey.{default_sort_key, sorted_first, lt_text}
use nixpkgs_llvm_ws.SystemdBoot.SortKey.First.{default_sort_key_first}
use nixpkgs_llvm_ws.SystemdBoot.EntryFile.{DiskEntry, parsed, from_text, boot_entry, written}
use nixpkgs_llvm_ws.SystemdBoot.EntryFile.Reread.{from_text-written}
use nixpkgs_llvm_ws.SystemdBoot.Generations.{
  SystemIdentifier, OnDisk, get_generations, stale_entries, globbed, remove_old_entries,
}
use nixpkgs_llvm_ws.SystemdBoot.Generations.Limit.{Reads, get_generations_limit}
use nixpkgs_llvm_ws.SystemdBoot.Generations.Removal.{file_paths, remove_old_entries_all}

abbrev sort_keys : List Text
sort_keys = codes "nixos" ∷ codes "linux" ∷ []

not_empty : (c : ℕ) (s : Text) → (c ∷ s) ≢ []
not_empty c s = λ e. cc

default_sort_key_first_example :
    (contains sort_keys (sorted_first sort_keys) ≡ true)
    × All (λ j. lt_text (codes "linuw-default") j ≡ true) sort_keys
unfolding default_sort_key sorted_first nat_eq
default_sort_key_first_example =
    default_sort_key_first (codes "nixos") (codes "linux" ∷ []) (codes "linuw-default")
      (not_empty 110 (codes "ixos"), (not_empty 108 (codes "inux"), tt)) refl

-- A test for `IsLine`.
abbrev has_no_newline : Text → Bool
has_no_newline [] = true
has_no_newline (c ∷ s) = not (c == 10) && has_no_newline s

has_no_newline-All : (s : Text) → has_no_newline s ≡ true → All (λ c. (c == 10) ≡ false) s
has_no_newline-All [] h = tt
has_no_newline-All (c ∷ s) h = (ground arith, has_no_newline-All s (ground arith))

abbrev are_lines : List Text → Bool
are_lines [] = true
are_lines ([] ∷ ls) = false
are_lines ((c ∷ s) ∷ ls) = has_no_newline (c ∷ s) && are_lines ls

are_lines-All : (ls : List Text) → are_lines ls ≡ true → All IsLine ls
are_lines-All [] h = tt
are_lines-All ([] ∷ ls) h = ground arith
are_lines-All ((c ∷ s) ∷ ls) h =
    ((not_empty c s, has_no_newline-All (c ∷ s) (ground arith)), are_lines-All ls (ground arith))

abbrev generation_three : DiskEntry
generation_three = record {
  entry = record { profile = none; generation_number = 3; specialisation = none };
  default = true;
  counters = none;
  title = some (codes "NixOS");
  description = some (codes "Generation 3");
  kernel = codes "/EFI/nixos/k.efi";
  initrd = codes "/EFI/nixos/i.efi";
  kernel_params = some (codes "init=/nix/store/x/init");
  machine_id = none;
  sort_key = codes "custom";
}

from_text-written_example :
    Option.map
      (from_text generation_three.entry generation_three.counters)
      (written generation_three (codes "nixos"))
    ≡ some (
        parsed (record generation_three {
          default =
              (if generation_three.default
                then codes "nixor-default"
                else generation_three.sort_key)
              == codes "default";
          initrd = 32 ∷ generation_three.initrd;
          sort_key = codes "nixos";
        }))
unfolding default_sort_key boot_entry nat_eq
from_text-written_example =
    from_text-written generation_three (codes "nixos") (codes "nixor-default") refl
      (are_lines-All (boot_entry generation_three (codes "nixor-default")) refl)

-- What nix-env prints for three generations.
abbrev nix_env_lines : List String
nix_env_lines = "  1   2024-05-01 10:00:00" ∷ "  2   2024-05-02 10:00:00" ∷ " 10 (current)" ∷ []

get_generations_limit_example :
    (all front : List SystemIdentifier) × Reads none nix_env_lines all
    × (all
        ≡ front
          ++ (record { profile = none; generation = 2; specialisation = none }
              ∷ record { profile = none; generation = 10; specialisation = none }
              ∷ []))
    × (2 ≡ min 2 3)
unfolding get_generations nat_eq
get_generations_limit_example =
    get_generations_limit 2 none nix_env_lines
      (record { profile = none; generation = 2; specialisation = none }
        ∷ record { profile = none; generation = 10; specialisation = none }
        ∷ [])
      (omega arith) refl

abbrev kept : List SystemIdentifier
kept = record { profile = none; generation = 3; specialisation = none } ∷ []

abbrev on_disk : List OnDisk
on_disk =
    record { profile = none; generation_number = 2; path = "nixos-generation-2.conf" }
    ∷ record { profile = none; generation_number = 3; path = "nixos-generation-3.conf" }
    ∷ []

abbrev slash : Char
slash = "/"

abbrev small_b : Char
small_b = "b"

abbrev capital_e : Char
capital_e = "E"

-- `/boot` and `/EFI/nixos` differ in their second character.
apart : (s t : String) → ("/boot" <> s) ≢ ("/EFI/nixos" <> t)
apart s t = λ e.
    let tails =
      tail-eq_of_cons-eq (sym (cons-append slash "boot" s) ∙ e ∙ cons-append slash "EFI/nixos" t) in
    let heads =
      head-eq_of_cons-eq
        (sym (cons-append small_b "oot" s) ∙ tails ∙ cons-append capital_e "FI/nixos" t) in
    let codes_eq : ◌≡◌ {A = ℕ} 98 69 = ap code heads in omega arith

remove_old_entries_all_example :
    remove_old_entries "/boot" "/EFI/nixos" kept
      (("abc-linux", "bzImage") ∷ [])
      on_disk
      (("abc-linux-bzImage.efi", false) ∷ [])
    ≡ stale_entries kept on_disk
      ++ file_paths (globbed "/boot" (("abc-linux-bzImage.efi", false) ∷ []))
remove_old_entries_all_example =
    remove_old_entries_all "/boot" "/EFI/nixos" apart kept (("abc-linux", "bzImage") ∷ []) on_disk
      (("abc-linux-bzImage.efi", false) ∷ [])
