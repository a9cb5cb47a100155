-- ===== src/SystemdBoot/Generations.antt =====
-- The generations that get boot entries, and what is left of the old ones: `get_generations`,
-- `remove_old_entries`, and the names of directories and files.
pub mod Limit
pub mod Removal
use nixpkgs_llvm_ws.Base.{
  ℕ, zero, suc, ◌-◌, String, ◌<>◌, List, [], ◌∷◌, ◌++◌, Bool, true, false, not, ◌&&◌, ◌||◌,
  if◌then◌else◌, ◌==◌, contains, string_eq, nat_eq, option_eq, Option, none, some, Eq, ◌≡◌, ap,
}
use mathlib.Core.Option
use nixpkgs_llvm_ws.Base.Lists.{length, drop}
use nixpkgs_llvm_ws.Base.Decimal.{str, int}
use nixpkgs_llvm_ws.Base.Text.{join, lstrip, is_space}
use native.Mathlib.Decide.{ℕ_discrete}
use Prim.Native.Char.{code}

pub record SystemIdentifier : Type 0 where
  pub profile : Option String
  pub generation : ℕ
  pub specialisation : Option String

-- `xs[-n:]`: at 0 this is `xs[0:]`.
unfoldable pub last_of {ℓ} : {A : Type ℓ} → ℕ → List A → List A
last_of zero xs = xs
last_of (suc n) xs = drop (length xs - suc n) xs

-- `line.split()[0]` of a line that is not blank: the first word.
unfoldable pub first_word : String → String
first_word String.[] = ""
first_word (String.◌∷◌ c s) =
    let rest = first_word s in if is_space (code c) then "" else String.◌∷◌ c rest

-- The loop over the lines of nix-env; `none` is the exception for a line with no number.
unfoldable pub configurations : Option String → List String → Option (List SystemIdentifier)
unfolding first_word lstrip int
configurations profile [] = some []
configurations profile (line ∷ lines) = elim (int (first_word (lstrip is_space line))) [
  | none ↦ none
  | some n ↦
      Option.map
        (λ gens. record { profile = profile; generation = n; specialisation = none } ∷ gens)
        (configurations profile lines)
]

-- `get_generations`, from the lines that nix-env printed.
unfoldable pub get_generations : ℕ → Option String → List String → Option (List SystemIdentifier)
unfolding configurations last_of
get_generations limit profile lines = Option.map (last_of limit) (configurations profile lines)

-- `if profile:` takes `None` and the empty text alike.
unfoldable pub generation_dir : Option String → ℕ → String
unfolding str string_eq
generation_dir none generation = "/nix/var/nix/profiles/system-" <> str generation <> "-link"
generation_dir (some profile) generation =
    if profile == ""
    then "/nix/var/nix/profiles/system-" <> str generation <> "-link"
    else "/nix/var/nix/profiles/system-profiles/" <> profile <> "-" <> str generation <> "-link"

unfoldable pub system_dir : Option String → ℕ → Option String → String
unfolding generation_dir join string_eq
system_dir profile generation none = generation_dir profile generation
system_dir profile generation (some specialisation) =
    let d = generation_dir profile generation in
    if specialisation == "" then d else join (join d "specialisation") specialisation

-- `(profile, generation, None) in gens`
unfoldable pub is_known : Option String → ℕ → List SystemIdentifier → Bool
is_known profile generation [] = false
is_known profile generation (g ∷ gens) =
    g.profile == profile && g.generation == generation && g.specialisation == none
    || is_known profile generation gens

-- What `remove_old_entries` looks at of an entry on disk.
pub record OnDisk : Type 0 where
  pub profile : Option String
  pub generation_number : ℕ
  pub path : String

-- The entries that are unlinked.
unfoldable pub stale_entries : List SystemIdentifier → List OnDisk → List String
unfolding is_known
stale_entries gens [] = []
stale_entries gens (e ∷ es) =
    let rest = stale_entries gens es in
    if not (is_known e.profile e.generation_number gens) then e.path ∷ rest else rest

-- `copy_from_file(file, True)`: the name on the ESP of a store file, from the names of its directory
-- and of itself.
unfoldable pub efi_file_path : String → String → String → String
efi_file_path nixos_dir store_dir suffix = nixos_dir <> "/" <> store_dir <> "-" <> suffix <> ".efi"

-- The files in `efi/nixos` that are unlinked, from their paths and whether they are directories.
unfoldable pub stale_files : List String → List (String × Bool) → List String
stale_files known_paths [] = []
stale_files known_paths ((path, is_dir) ∷ files) =
    let rest = stale_files known_paths files in
    if not (contains known_paths path) && not is_dir then path ∷ rest else rest

-- `glob.iglob(f"{EFI_SYS_MOUNT_POINT}/efi/nixos/*")`, from the names in that directory.
unfoldable pub globbed : String → List (String × Bool) → List (String × Bool)
globbed mount_point [] = []
globbed mount_point ((name, is_dir) ∷ files) =
    (mount_point <> "/efi/nixos/" <> name, is_dir) ∷ globbed mount_point files

-- `known_paths`, from the store directory and file names of the kernels and initrds.
unfoldable pub known_paths : String → List (String × String) → List String
unfolding efi_file_path
known_paths nixos_dir [] = []
known_paths nixos_dir ((store_dir, suffix) ∷ files) =
    efi_file_path nixos_dir store_dir suffix ∷ known_paths nixos_dir files

-- The unlinked files of `remove_old_entries`, in order.
unfoldable pub remove_old_entries :
    String
    → String
    → List SystemIdentifier
    → List (String × String)
    → List OnDisk
    → List (String × Bool)
    → List String
unfolding known_paths stale_entries stale_files globbed
remove_old_entries mount_point nixos_dir gens images entries files =
    stale_entries gens entries
    ++ stale_files (known_paths nixos_dir images) (globbed mount_point files)
