-- ===== src/Composefs.antt =====
-- nixos/modules/system/etc/build-composefs-dump.py: the dump that describes the files of an image.
-- Targets are normalised, so that `pathlib` leaves them as they are.
pub mod Prefixes
pub mod Closed
use nixpkgs_llvm_ws.Base.{
  ℕ, String, ◌<>◌, List, [], ◌∷◌, ◌++◌, Bool, true, false, not, ◌&&◌, ◌||◌, if◌then◌else◌, Option,
  none, some, ◌==◌, string_eq, nat_eq, map, Result, ok, err,
}
use Prim.Native.Char.{code}
use nixpkgs_llvm_ws.Base.Decimal.{str}
use nixpkgs_llvm_ws.Base.Dict.{Dict, insert}
use nixpkgs_llvm_ws.Base.Text.{has_char, lstrip}

pub data FileType : Type 0 where
  directory file symlink : FileType

unfoldable pub value : FileType → String
value directory = "4"
value file = "10"
value symlink = "12"

-- An entry of the configuration.
pub record Attrs : Type 0 where
  pub target : String
  pub source : String
  pub mode : String
  pub uid : String
  pub gid : String

pub record ComposefsPath : Type 0 where
  pub path : String
  pub size : ℕ
  pub filetype : FileType
  pub mode : String
  pub uid : String
  pub gid : String
  pub payload : String

-- `__init__`, by the path that is given, or by the target.
unfoldable pub new_path : Attrs → Option String → ℕ → FileType → String → String → ComposefsPath
new_path attrs path size filetype mode payload = record {
  path = elim path [ none ↦ attrs.target | some given ↦ given ];
  size = size;
  filetype = filetype;
  mode = mode;
  uid = attrs.uid;
  gid = attrs.gid;
  payload = payload;
}

-- The class's constants stand for `nlink`, `rdev`, `mtime`, `content` and `digest`.
unfoldable pub write_line : ComposefsPath → String
unfolding value str
write_line p =
    p.path
    <> " "
    <> str p.size
    <> " "
    <> value p.filetype
    <> p.mode
    <> " "
    <> "1"
    <> " "
    <> p.uid
    <> " "
    <> p.gid
    <> " "
    <> "0"
    <> " "
    <> "1.0"
    <> " "
    <> p.payload
    <> " "
    <> "-"
    <> " "
    <> "-"

abbrev pub is_slash : ℕ → Bool
is_slash c = c == b'/'

-- What stands before each slash of a text.
unfoldable pub before_slashes : String → List String
before_slashes String.[] = []
before_slashes (String.◌∷◌ c s) =
    let rest = map (λ p. String.◌∷◌ c p) (before_slashes s) in
    if code c == b'/' then "" ∷ rest else rest

pub data Error : Type 0 where
  index_error : Error

-- The root stands before the first slash of an absolute path. `/`, `.` and the empty text have no
-- parents, and `del parents[0]` raises. A path is taken to be as pathlib writes it: repeated slashes, one
-- at the end and components `.` are not dropped here.
unfoldable pub leading_directories : String → Result Error (List String)
unfolding string_eq
leading_directories String.[] = err index_error
leading_directories (String.◌∷◌ c s) =
    if s == "" && (code c == b'/' || code c == b'.')
    then err index_error
    else ok (map (λ p. String.◌∷◌ c p) (before_slashes s))

abbrev pub Paths : Type 0
Paths = Dict String ComposefsPath

unfoldable pub directory_path : Attrs → String → ComposefsPath
unfolding new_path
directory_path attrs component = new_path attrs (some component) 4096 directory "0755" "-"

-- The loop of `add_leading_directories`.
unfoldable pub add_directories : Attrs → List String → Paths → Paths
unfolding directory_path insert string_eq
add_directories attrs [] paths = paths
add_directories attrs (component ∷ components) paths =
    add_directories attrs components (insert component (directory_path attrs component) paths)

unfoldable pub add_leading_directories : String → Attrs → Paths → Result Error Paths
unfolding leading_directories add_directories
add_leading_directories target attrs paths = elim (leading_directories target) [
  | err e ↦ err e
  | ok components ↦ ok (add_directories attrs components paths)
]

-- A path goes into the dict, and then its leading directories.
unfoldable pub add_path : String → ComposefsPath → Attrs → Paths → Result Error Paths
unfolding add_leading_directories insert string_eq
add_path target composefs_path attrs paths =
    add_leading_directories target attrs (insert target composefs_path paths)

-- What the file system says of the sources, and `os.path.normpath`.
pub record Disk : Type 0 where
  pub isdir : String → Bool
  pub st_size : String → ℕ
  pub glob : String → List String
  pub basename : String → String
  pub normpath : String → String

module _ (disk : Disk) where
  unfoldable pub normalize_path : String → String
  unfolding lstrip nat_eq
  normalize_path path = "/" <> lstrip is_slash (disk.normpath path)

  -- The sources of a path with globbing.
  unfoldable pub add_globbed : Attrs → List String → Paths → Result Error Paths
  unfolding add_path new_path
  add_globbed attrs [] paths = ok paths
  add_globbed attrs (glob_source ∷ sources) paths =
      let glob_target = attrs.target <> "/" <> disk.basename glob_source in
      elim (add_path glob_target (new_path attrs (some glob_target) 100 symlink "0777" glob_source)
        attrs paths) [ err e ↦ err e | ok next ↦ add_globbed attrs sources next ]

  -- The path of an entry without globbing.
  unfoldable pub entry_path : Attrs → ComposefsPath
  unfolding new_path lstrip string_eq nat_eq
  entry_path attrs =
      if attrs.mode == "symlink" || attrs.mode == "direct-symlink"
      then new_path attrs none 100 symlink "0777" attrs.source
      else if disk.isdir attrs.source
      then new_path attrs none 4096 directory attrs.mode attrs.source
      else new_path attrs none (disk.st_size attrs.source) file attrs.mode
          (lstrip is_slash attrs.target)

  -- One round of the loop of `main`.
  unfoldable pub add_entry : Attrs → Paths → Result Error Paths
  unfolding normalize_path add_globbed entry_path add_path has_char
  add_entry given paths =
      let attrs = record given { target = normalize_path given.target } in
      if has_char b'*' attrs.source
      then add_globbed attrs (disk.glob attrs.source) paths
      else add_path attrs.target (entry_path attrs) attrs paths

  unfoldable pub add_entries : List Attrs → Paths → Result Error Paths
  unfolding add_entry
  add_entries [] paths = ok paths
  add_entries (attrs ∷ config) paths = elim (add_entry attrs paths) [
    | err e ↦ err e
    | ok next ↦ add_entries config next
  ]
