-- ===== src/Tests/Documentation.antt =====
-- A small file of options, and a dump of one file.
use nixpkgs_llvm_ws.Base.{
  ℕ, ap, String, List, [], ◌∷◌, ◌≡◌, refl, false, ◌||◌, if◌then◌else◌, some, contains, ◌==◌,
  string_eq, nat_eq, Eq, ok,
}
use nixpkgs_llvm_ws.Base.Dict.{lookup}
use nixpkgs_llvm_ws.OptionsDoc.{
  Described, Declaration, path, link, declarations, Attrs, merge_attr, pivot, unpivot,
}
use nixpkgs_llvm_ws.OptionsDoc.Pivot.{pivoted, unpivot-pivot}
use nixpkgs_llvm_ws.OptionsDoc.Merge.{merge_attr-declarations}
use nixpkgs_llvm_ws.Composefs
use nixpkgs_llvm_ws.Composefs.{file, directory, Disk, Paths, add_entries, normalize_path}
use nixpkgs_llvm_ws.Composefs.Closed.{IsClosed, none-IsClosed, add_entries-IsClosed}

path_dec : Discrete (List String)
path_dec = hlevel string_eq.dec

abbrev path_eq : Eq (List String)
path_eq = record { dec = path_dec }

-- Options whose other attributes are texts.
abbrev enable : Described String
enable = record { loc = "services" ∷ "x" ∷ "enable" ∷ []; attrs = [] }

abbrev chosen : Described String
chosen = record { loc = "services" ∷ "x" ∷ "package" ∷ []; attrs = [] }

unpivot-pivot_example :
    unpivot (
      pivot ⦃path_eq = path_eq⦄
        (("services.x.enable", enable) ∷ ("services.x.package", chosen) ∷ []))
    ≡ ok (("services.x.enable", enable) ∷ ("services.x.package", chosen) ∷ [])
unfolding lookup string_eq path_dec pivoted
unpivot-pivot_example =
    unpivot-pivot ⦃path_eq = path_eq⦄
      (("services.x.enable", enable) ∷ ("services.x.package", chosen) ∷ []) (refl, (refl, tt))
      (refl, (refl, tt))

-- The injections of a declaration.
abbrev path_text : Declaration ℕ → String
path_text (path s) = s
path_text (link j) = ""

abbrev link_number : Declaration ℕ → ℕ
link_number (path s) = 0
link_number (link j) = j

declaration_dec : Discrete (Declaration ℕ)
declaration_dec (path s) (path t) = elim (string_eq.dec s t) [
  | yes p ↦ yes (ap path p)
  | no n ↦ no (λ q. n (ap path_text q))
]
declaration_dec (path s) (link j) = no (λ q. cc)
declaration_dec (link i) (path t) = no (λ q. cc)
declaration_dec (link i) (link j) = elim (nat_eq.dec i j) [
  | yes p ↦ yes (ap link p)
  | no n ↦ no (λ q. n (ap link_number q))
]

abbrev declaration_eq : Eq (Declaration ℕ)
declaration_eq = record { dec = declaration_dec }

abbrev declared : Attrs ℕ
declared = ("declarations", declarations (path "a.nix" ∷ [])) ∷ []

merge_attr-declarations_example :
    (decls : List (Declaration ℕ)) × (next : Attrs ℕ) × (merge_attr
        ⦃declaration_eq = declaration_eq⦄ declared "declarations"
        (declarations (path "b.nix" ∷ []))
      ≡ ok next)
    × ((x : Declaration ℕ)
        → contains ⦃e = declaration_eq⦄ decls x ≡ (
            contains ⦃e = declaration_eq⦄ (path "a.nix" ∷ []) x
            || contains ⦃e = declaration_eq⦄ (path "b.nix" ∷ []) x))
    × ((key : String)
        → lookup key next
          ≡ (if key == "declarations" then some (declarations decls) else lookup key declared))
unfolding lookup string_eq
merge_attr-declarations_example =
    merge_attr-declarations ⦃declaration_eq = declaration_eq⦄ declared (path "a.nix" ∷ [])
      (path "b.nix" ∷ []) refl

abbrev disk : Disk
disk = record {
  isdir = λ p. false;
  st_size = λ p. 7;
  glob = λ p. [];
  basename = λ p. p;
  normpath = λ p. p;
}

abbrev config : List Composefs.Attrs
config =
    record { target = "/etc/x/y"; source = "/nix/store/y"; mode = "0644"; uid = "0"; gid = "0" }
    ∷ []

abbrev dump : Paths
dump =
    (
      "/etc/x/y",
      record {
        path = "/etc/x/y";
        size = 7;
        filetype = file;
        mode = "0644";
        uid = "0";
        gid = "0";
        payload = "etc/x/y";
      },
    )
    ∷ (
      "/etc",
      record {
        path = "/etc";
        size = 4096;
        filetype = directory;
        mode = "0755";
        uid = "0";
        gid = "0";
        payload = "-";
      },
    )
    ∷ (
      "/etc/x",
      record {
        path = "/etc/x";
        size = 4096;
        filetype = directory;
        mode = "0755";
        uid = "0";
        gid = "0";
        payload = "-";
      },
    )
    ∷ []

add_entries-IsClosed_example : IsClosed dump
unfolding add_entries Composefs.before_slashes
add_entries-IsClosed_example = add_entries-IsClosed disk config [] dump none-IsClosed refl
