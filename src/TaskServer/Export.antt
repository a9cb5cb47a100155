-- ===== src/TaskServer/Export.antt =====
-- `User.export`: the shell commands that a client runs to take over the credentials of a user.
pub mod Quoting
use nixpkgs_llvm_ws.Base.{List, [], ◌∷◌, ◌++◌, Action, pure, ◌>>=◌}
use nixpkgs_llvm_ws.Base.Text.{join}
use nixpkgs_llvm_ws.TaskServer.Host.{Host, Config, Error}
use nixpkgs_llvm_ws.TaskServer.Files.{getkey}
use Prim.Native.Char.{Char, code}
use nixpkgs_llvm_ws.Base.{String, ◌<>◌, Bool, true, not, ◌&&◌, ◌||◌, leb, ◌==◌, nat_eq, ℕ}
use nixpkgs_llvm_ws.Base.{if◌then◌else◌, ◌≡◌, refl}

-- `"\n".join(lines)`
unfoldable pub join_lines : List String → String
join_lines [] = ""
join_lines (l ∷ []) = l
join_lines (l ∷ m ∷ ls) = l <> "\n" <> join_lines (m ∷ ls)

-- `c in string.ascii_letters + string.digits + "/-_."`
unfoldable pub allow_unquoted : ℕ → Bool
allow_unquoted c =
    leb b'a' c && leb c b'z'
    || leb b'A' c && leb c b'Z'
    || leb b'0' c && leb c b'9'
    || c == b'/'
    || c == b'-'
    || c == b'_'
    || c == b'.'

-- `all((c in allow_unquoted) for c in s)`
unfoldable pub all_unquoted : String → Bool
all_unquoted String.[] = true
all_unquoted (String.◌∷◌ c s) = allow_unquoted (code c) && all_unquoted s

abbrev pub apostrophe : Char
apostrophe = "'"

abbrev pub backslash : Char
backslash = "\\"

-- `s.replace("'", r"'\''")`
unfoldable pub escape_apostrophes : String → String
escape_apostrophes String.[] = ""
escape_apostrophes (String.◌∷◌ c s) =
    let rest = escape_apostrophes s in
    if code c == b'\''
    then String.◌∷◌ apostrophe
        (String.◌∷◌ backslash (String.◌∷◌ apostrophe (String.◌∷◌ apostrophe rest)))
    else String.◌∷◌ c rest

unfoldable pub credentials_word : String → String
unfolding all_unquoted allow_unquoted escape_apostrophes
credentials_word credentials =
    if not (all_unquoted credentials)
    then String.◌∷◌ apostrophe (escape_apostrophes credentials <> "'")
    else credentials

-- `'/'.join([org, name, key])`
unfoldable pub credentials_of : String → String → String → String
credentials_of org name key = org <> "/" <> name <> "/" <> key

unfoldable pub mktaskkey : String → String → String → String
mktaskkey cfg path keydata =
    "cat > \"" <> path <> "\" <<EOF\n" <> keydata <> "EOF" <> "\n" <> "task config taskd." <> cfg
    <> " -- \"" <> path <> "\""

quoted_example : credentials_word (credentials_of "org" "o'neil" "k") ≡ "'org/o'\\''neil/k'"
unfolding credentials_word credentials_of nat_eq
quoted_example = refl

module _ (H : Host) (cfg : Config) where
  -- `script` of an automatic configuration: the keys are written into the client's directory.
  unfoldable pub key_script : String → String → Action H.World Error (List String)
  unfolding getkey mktaskkey join
  key_script org name = do
    pubcert ← getkey H cfg (org ∷ name ∷ "public.cert" ∷ [])
    privkey ← getkey H cfg (org ∷ name ∷ "private.key" ∷ [])
    cacert ← getkey H cfg ("ca.cert" ∷ [])
    pure (
        "umask 0077"
        ∷ "mkdir -p \"${TASKDATA:-$HOME/.task}/keys\""
        ∷ mktaskkey "certificate" (join "${TASKDATA:-$HOME/.task}/keys" "public.cert") pubcert
        ∷ mktaskkey "key" (join "${TASKDATA:-$HOME/.task}/keys" "private.key") privkey
        ∷ mktaskkey "ca" (join "${TASKDATA:-$HOME/.task}/keys" "ca.cert") cacert
        ∷ [])

  -- `export` of the user with this organisation, name and key.
  unfoldable pub export : String → String → String → Action H.World Error String
  unfolding key_script credentials_word credentials_of join_lines
  export org name key = do
    script ← (if cfg.is_auto_config then key_script org name else pure [])
    pure (
        join_lines (
          script
          ++ ("task config taskd.credentials -- " <> credentials_word (credentials_of org name key))
            ∷ [])
        <> "\n")
