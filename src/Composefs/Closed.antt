-- ===== src/Composefs/Closed.antt =====
-- Every directory above a path of the dump is a path of the dump.
use nixpkgs_llvm_ws.Base.{
  sym, Bool-cases, inl, inr, String, ◌<>◌, List, [], ◌∷◌, ◌≡◌, refl, Bool, true, false, ◌||◌,
  if◌then◌else◌, none, some, ◌==◌, string_eq, nat_eq, contains, Result, ok, err, arith,
}
use nixpkgs_llvm_ws.Base.Lists.{All}
use nixpkgs_llvm_ws.Base.Dict.{insert, lookup, lookup-insert}
use nixpkgs_llvm_ws.Composefs.{
  leading_directories, Paths, Attrs, ComposefsPath, add_directories, directory_path,
  add_leading_directories, add_path, Disk, add_globbed, add_entry, add_entries, Error, new_path,
  symlink, normalize_path, entry_path,
}
use nixpkgs_llvm_ws.Base.Text.{has_char}
use nixpkgs_llvm_ws.Composefs.Prefixes.{above, above-nested, All-imp, All-contains, contains-All}

-- The paths of the dump, and that all directories above a path are among them.
abbrev pub is_path : Paths → String → Bool
is_path paths p = elim (lookup p paths) [ none ↦ false | some _ ↦ true ]

pub IsClosed : Paths → Type 0
IsClosed paths = (p : String) → is_path paths p ≡ true → All (λ d. is_path paths d ≡ true) (above p)

is_path-insert :
    (p k : String) (v : ComposefsPath) (paths : Paths)
    → is_path (insert k v paths) p ≡ (p == k || is_path paths p)
is_path-insert p k v paths = let e = lookup-insert p k v paths in ground arith

is_path-add_directories :
    (attrs : Attrs) (components : List String) (paths : Paths) (p : String)
    → is_path (add_directories attrs components paths) p
      ≡ (contains components p || is_path paths p)
unfolding add_directories
is_path-add_directories attrs [] paths p = refl
is_path-add_directories attrs (k ∷ ks) paths p =
    let rest = is_path-add_directories attrs ks (insert k (directory_path attrs k) paths) p in
    let first = is_path-insert p k (directory_path attrs k) paths in ground arith

above-eq :
    (target : String) (components : List String)
    → leading_directories target ≡ ok components
    → components ≡ above target
unfolding leading_directories
above-eq String.[] components h = ground arith
above-eq (String.◌∷◌ c s) components h = ground arith

add_path-eq :
    (target : String) (v : ComposefsPath) (attrs : Attrs) (paths next : Paths)
    → add_path target v attrs paths ≡ ok next
    → next ≡ add_directories attrs (above target) (insert target v paths)
unfolding add_path add_leading_directories leading_directories
add_path-eq String.[] v attrs paths next h = ground arith
add_path-eq (String.◌∷◌ c s) v attrs paths next h = ground arith

-- The paths of the new dict: the old ones, the target, and the directories above it.
is_path-add_path :
    (target : String) (v : ComposefsPath) (attrs : Attrs) (paths next : Paths) (p : String)
    → add_path target v attrs paths ≡ ok next
    → is_path next p ≡ (contains (above target) p || p == target || is_path paths p)
is_path-add_path target v attrs paths next p h =
    let added = is_path-add_directories attrs (above target) (insert target v paths) p in
    let inserted = is_path-insert p target v paths in
    rw (add_path-eq target v attrs paths next h) (ground arith)

add_path-IsClosed :
    (target : String) (v : ComposefsPath) (attrs : Attrs) (paths next : Paths)
    → IsClosed paths
    → add_path target v attrs paths ≡ ok next
    → IsClosed next
unfolding IsClosed
add_path-IsClosed target v attrs paths next closed h p e =
    let now = is_path-add_path target v attrs paths next p h in
    let grown : (d : String) → is_path paths d ≡ true → is_path next d ≡ true =
      λ d old. let n = is_path-add_path target v attrs paths next d h in ground arith in
    let directories : All (λ d. is_path next d ≡ true) (above target) =
      All-imp (λ d c. let n = is_path-add_path target v attrs paths next d h in ground arith)
        (above target) (contains-All (above target) (above target) (λ y c. c)) in
    elim (Bool-cases (contains (above target) p)) [
      | inl c ↦
          All-contains (λ p. All (λ d. is_path next d ≡ true) (above p)) (above target) p
            (above-nested (λ d. is_path next d ≡ true) target directories) c
      | inr c ↦ elim (string_eq.dec p target) [
        | yes q ↦ rw q directories
        | no n ↦ All-imp grown (above p) (closed p (ground arith))
      ]
    ]

after :
    (r : Result Error Paths) (k : Paths → Result Error Paths) (next : Paths)
    → (elim r [ err e ↦ err e | ok n ↦ k n ]) ≡ ok next
    → (n : Paths) × (r ≡ ok n) × (k n ≡ ok next)
after (ok n) k next h = (n, refl, h)
after (err e) k next h = ground arith

module _ (disk : Disk) where
  add_globbed-IsClosed :
      (attrs : Attrs) (sources : List String) (paths next : Paths)
      → IsClosed paths
      → add_globbed disk attrs sources paths ≡ ok next
      → IsClosed next
  unfolding add_globbed
  add_globbed-IsClosed attrs [] paths next closed h =
      let same : paths ≡ next = ground arith in rw (sym same) closed
  add_globbed-IsClosed attrs (source ∷ sources) paths next closed h =
      let target = attrs.target <> "/" <> disk.basename source in
      let v = new_path attrs (some target) 100 symlink "0777" source in
      let (n, first, rest) =
        after (add_path target v attrs paths) (add_globbed disk attrs sources) next h in
      add_globbed-IsClosed attrs sources n next
        (add_path-IsClosed target v attrs paths n closed first) rest

  chosen-IsClosed :
      (globbed : Bool) (attrs : Attrs) (sources : List String) (v : ComposefsPath)
      (paths next : Paths)
      → IsClosed paths
      → (if globbed
          then add_globbed disk attrs sources paths
          else add_path attrs.target v attrs paths)
        ≡ ok next
      → IsClosed next
  chosen-IsClosed true attrs sources v paths next closed h =
      add_globbed-IsClosed attrs sources paths next closed h
  chosen-IsClosed false attrs sources v paths next closed h =
      add_path-IsClosed attrs.target v attrs paths next closed h

  add_entry-IsClosed :
      (given : Attrs) (paths next : Paths)
      → IsClosed paths
      → add_entry disk given paths ≡ ok next
      → IsClosed next
  unfolding add_entry
  add_entry-IsClosed given paths next closed h =
      let attrs = record given { target = normalize_path disk given.target } in
      chosen-IsClosed (has_char b'*' given.source) attrs (disk.glob given.source)
        (entry_path disk attrs) paths next closed h

  -- Take a dict of paths in which every directory above a path is a path. If the loop of `main`
  -- gets through a configuration from there, then the same holds of the resulting dict.
  pub add_entries-IsClosed :
      (config : List Attrs) (paths next : Paths)
      → IsClosed paths
      → add_entries disk config paths ≡ ok next
      → IsClosed next
  unfolding add_entries
  add_entries-IsClosed [] paths next closed h =
      let same : paths ≡ next = ground arith in rw (sym same) closed
  add_entries-IsClosed (attrs ∷ config) paths next closed h =
      let (n, first, rest) = after (add_entry disk attrs paths) (add_entries disk config) next h in
      add_entries-IsClosed config n next (add_entry-IsClosed attrs paths n closed first) rest

pub none-IsClosed : IsClosed []
unfolding IsClosed lookup
none-IsClosed p e = ground arith
