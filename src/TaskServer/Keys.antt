-- ===== src/TaskServer/Keys.antt =====
-- `generate_key` and `revoke_key`: the certificates of a user.
use nixpkgs_llvm_ws.Base.{String, ◌<>◌, List, [], ◌∷◌, map, if◌then◌else◌}
use nixpkgs_llvm_ws.Base.{Action, Result, ok, err, raise, done, for_each, ◌>>=◌, ◌>>◌}
use nixpkgs_llvm_ws.Base.Text.{join, join_all}
use nixpkgs_llvm_ws.TaskServer.Host.{Host, Config, Error, os_error}
use nixpkgs_llvm_ws.TaskServer.Files.{certtool_cmd, concat}

-- `except: cleanup; raise`. A cleanup that raises replaces the exception.
unfoldable pub rethrow {ℓ} :
    {W : Type ℓ}
    → Action W Error (Unit {0})
    → Result Error (Unit {0}) × W
    → Result Error (Unit {0}) × W
rethrow cleanup (ok tt, w) = (ok tt, w)
rethrow cleanup (err e, w) = (cleanup >> raise e) w

-- What `create_template` writes.
unfoldable pub template_text : List String → String
unfolding concat
template_text contents = concat (map (λ l. l <> "\n") contents)

module _ (H : Host) (cfg : Config) where
  abbrev pub ca_key : String
  ca_key = join_all cfg.taskd_data_dir ("keys" ∷ "ca.key" ∷ [])

  abbrev pub ca_cert : String
  ca_cert = join_all cfg.taskd_data_dir ("keys" ∷ "ca.cert" ∷ [])

  abbrev pub crl_file : String
  crl_file = join_all cfg.taskd_data_dir ("keys" ∷ "server.crl" ∷ [])

  -- `os.path.join(TASKD_DATA_DIR, "keys", org, user)`
  unfoldable pub user_dir : String → String → String
  unfolding join join_all
  user_dir org user = join (join (join cfg.taskd_data_dir "keys") org) user

  base_dir : String → Action H.World Error (Unit {0})
  base_dir bd = do H.makedirs bd; H.chmod bd "750"; H.chown bd

  -- The body of the `try` statement.
  unfoldable pub make_key : String → String → Action H.World Error (Unit {0})
  unfolding base_dir for_each certtool_cmd user_dir join template_text
  make_key org user =
      let keysdir = join cfg.taskd_data_dir "keys" in
      let orgdir = join keysdir org in
      let userdir = user_dir org user in
      let privkey = join userdir "private.key" in
      let pubcert = join userdir "public.cert" in
      let template_data =
        ("organization = " <> org)
        ∷ ("cn = " <> cfg.fqdn)
        ∷ ("expiration_days = " <> cfg.client_expiration)
        ∷ "tls_www_client"
        ∷ "encryption_key"
        ∷ "signing_key"
        ∷ [] in
      do
        for_each base_dir (keysdir ∷ orgdir ∷ userdir ∷ [])
        certtool_cmd H cfg ("-p" ∷ "--bits" ∷ cfg.cert_bits ∷ "--outfile" ∷ privkey ∷ [])
        H.chmod privkey "640"
        template ← H.temporary (template_text template_data)
        certtool_cmd H cfg (
            "-c" ∷ "--load-privkey" ∷ privkey ∷ "--load-ca-privkey" ∷ ca_key
            ∷ "--load-ca-certificate" ∷ ca_cert ∷ "--template" ∷ template ∷ "--outfile" ∷ pubcert
            ∷ [])
        done

  unfoldable pub generate_key : String → String → Action H.World Error (Unit {0})
  unfolding make_key rethrow user_dir
  generate_key org user w =
      let userdir = user_dir org user in
      if cfg.is_auto_config
      then if H.exists userdir w
        then (err (os_error ("Keyfile directory for " <> user <> " already exists.")), w)
        else rethrow (H.rmtree userdir) (make_key org user w)
      else (
        ok tt,
        H.stderr
            ("Automatic PKI handling is disabled, you need to manually issue a client certificate for user "
              <> user <> ".\n")
            w,
      )

  unfoldable pub revoke_key : String → String → Action H.World Error (Unit {0})
  unfolding user_dir certtool_cmd template_text
  revoke_key org user w =
      let basedir = user_dir org user in
      if H.exists basedir w
      then (do
        template ← H.temporary (template_text (("expiration_days = " <> cfg.crl_expiration) ∷ []))
        old ← H.read crl_file
        oldcrl ← H.temporary old
        certtool_cmd H cfg (
            "--generate-crl"
            ∷ "--load-crl"
            ∷ oldcrl
            ∷ "--load-ca-privkey"
            ∷ ca_key
            ∷ "--load-ca-certificate"
            ∷ ca_cert
            ∷ "--load-certificate"
            ∷ join basedir "public.cert"
            ∷ "--template"
            ∷ template
            ∷ "--outfile"
            ∷ crl_file
            ∷ [])
        H.rmtree basedir)
          w
      else (err (os_error ("Keyfile directory for " <> user <> " doesn't exist.")), w)
