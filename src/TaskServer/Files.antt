-- ===== src/TaskServer/Files.antt =====
-- The paths of the Taskserver's data directory, the marks of what was created by hand, and what the
-- tool reads from files.
pub mod Marks
pub mod KeyBlock
use nixpkgs_llvm_ws.Base.{String, ◌<>◌, List, [], ◌∷◌, ◌++◌, Bool, true, false, ◌&&◌, ◌||◌, ◌==◌}
use nixpkgs_llvm_ws.Base.{nat_eq, string_eq, if◌then◌else◌, Option, none, some}
use nixpkgs_llvm_ws.Base.{Action, ok, err, pure, raise, modify, done, ◌>>=◌, ◌>>◌, arith}
use nixpkgs_llvm_ws.Base.Text.{join, join_all, lstrip, strip, starts_with, after_prefix, is_space}
use nixpkgs_llvm_ws.TaskServer.Host.{Host, Config, Error, os_error}

-- `"".join(buf)`
unfoldable pub concat : List String → String
concat [] = ""
concat (s ∷ ss) = s <> concat ss

unfoldable pub is_key_line : String → String → Bool
unfolding lstrip nat_eq starts_with
is_key_line line match =
    starts_with line "---" && starts_with (lstrip (λ c. c == b'-' || c == 32) line) match

-- The loop of `getkey`, from the lines that are left and those that it has kept.
unfoldable pub getkey_loop : List String → List String → Option String
unfolding is_key_line concat
getkey_loop [] buf = none
getkey_loop (line ∷ lines) [] =
    getkey_loop lines (if is_key_line line "BEGIN" then line ∷ [] else [])
getkey_loop (line ∷ lines) (b ∷ buf) =
    let kept = b ∷ (buf ++ (line ∷ [])) in
    let rest = getkey_loop lines kept in if is_key_line line "END" then some (concat kept) else rest

-- `RE_CONFIGUSER.match(line)`, and the stripped group: white space, `user`, white space, `=`.
unfoldable pub config_user : String → Option String
unfolding lstrip nat_eq strip after_prefix
config_user line = elim (after_prefix "user" (lstrip is_space line)) [
  | none ↦ none
  | some rest ↦ elim (after_prefix "=" (lstrip is_space rest)) [
    | none ↦ none
    | some value ↦ some (strip is_space value)
  ]
]

-- The loop of `fetch_username` over the lines of a file.
unfoldable pub first_user : List String → Option String
unfolding config_user
first_user [] = none
first_user (line ∷ lines) = elim (config_user line) [
  | some user ↦ some user
  | none ↦ first_user lines
]

module _ (H : Host) (cfg : Config) where
  unfoldable pub mkpath : List String → String
  unfolding join_all
  mkpath args = join_all cfg.taskd_data_dir ("orgs" ∷ args)

  unfoldable pub mark_path : List String → String
  unfolding mkpath
  mark_path path = join (mkpath path) ".imperative"

  unfoldable pub mark_imperative : List String → Action H.World Error (Unit {0})
  unfolding mark_path
  mark_imperative path = H.touch (mark_path path)

  -- The loop, from the components that are already in `full_path`.
  unfoldable pub marked_below : List String → List String → H.World → Bool
  unfolding mark_path
  marked_below full_path [] w = false
  marked_below full_path (component ∷ path) w =
      let full = full_path ++ (component ∷ []) in
      H.exists (mark_path full) w || marked_below full path w

  unfoldable pub is_imperative : List String → H.World → Bool
  unfolding marked_below
  is_imperative path w = marked_below [] path w

  unfoldable pub fetch_username : String → String → Action H.World Error (Option String)
  unfolding mkpath first_user
  fetch_username org key = do
    ls ← H.lines (mkpath (org ∷ "users" ∷ key ∷ "config" ∷ []))
    pure (first_user ls)

  unfoldable pub getkey : List String → Action H.World Error String
  unfolding getkey_loop join_all
  getkey args =
      let path = join_all cfg.taskd_data_dir ("keys" ∷ args) in
      (H.lines path >>= λ ls. elim (getkey_loop ls []) [
        | some key ↦ pure key
        | none ↦ raise (os_error ("Unable to get key from " <> path <> "."))
      ])

  -- `taskd_cmd`
  unfoldable pub taskd_cmd : String → List String → Action H.World Error String
  taskd_cmd cmd args =
      H.check_output_as_user (cfg.taskd_command ∷ cmd ∷ "--data" ∷ cfg.taskd_data_dir ∷ args)

  -- `certtool_cmd`
  unfoldable pub certtool_cmd : List String → Action H.World Error String
  certtool_cmd args = H.check_output_as_group (cfg.certtool_command ∷ args)

  unfoldable pub label : String → Action H.World Error (Unit {0})
  label msg w = if H.is_terminal w then (ok tt, H.stderr (msg <> "\n") w) else (ok tt, w)
