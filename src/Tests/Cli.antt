-- ===== src/Tests/Cli.antt =====
-- A Taskserver whose files are known by their paths.
use nixpkgs_llvm_ws.Base.{
  String, List, [], ◌∷◌, ◌≡◌, refl, ◌∙◌, sym, ap, true, false, contains, ◌||◌, ==-self, string_eq,
  nat_eq, some,
}
use nixpkgs_llvm_ws.Base.{ok}
use nixpkgs_llvm_ws.TaskServer.Host.{Host, Config}
use nixpkgs_llvm_ws.TaskServer.Files.{mkpath}
use nixpkgs_llvm_ws.TaskServer.Manager
use nixpkgs_llvm_ws.TaskServer.Manager.{process_org}
use nixpkgs_llvm_ws.TaskServer.Cli.{add_org}
use nixpkgs_llvm_ws.TaskServer.Cli.Imperative.{add_org-del_org}

abbrev host : Host
host = record {
  World = List String;
  exists = λ path w. contains w path;
  listdir = λ path w. (ok [], w);
  lines = λ path w. (ok [], w);
  read = λ path w. (ok "", w);
  touch = λ path w. (ok tt, path ∷ w);
  makedirs = λ path w. (ok tt, w);
  chmod = λ path mode w. (ok tt, w);
  chown = λ path w. (ok tt, w);
  rmtree = λ path w. (ok tt, w);
  temporary = λ text w. (ok "template", w);
  check_output_as_group = λ command w. (ok "", w);
  check_output_as_user = λ command w. (ok "", w);
  stderr = λ text w. w;
  stdout = λ text w. w;
  is_terminal = λ w. false;
}

abbrev settings : Config
settings = record {
  is_auto_config = true;
  certtool_command = "certtool";
  cert_bits = "4096";
  client_expiration = "365";
  crl_expiration = "365";
  taskd_command = "taskd";
  taskd_data_dir = "/var/lib/taskserver";
  fqdn = "localhost";
}

host-touched :
    (path : String) (w v : List String) → host.touch path w ≡ (ok tt, v) → host.exists path v ≡ true
host-touched path w v made =
    sym (ap (λ x. contains x.1 path) made)
    ∙ ap (λ b. b || contains w path) (==-self {A = String} path)

abbrev behind : Manager.State host settings
behind = record {
  ignore_imperative = true;
  lazy_orgs = some [];
  world = (add_org host settings "acme" []).1;
}

add_org-del_org_example :
    (host.exists (mkpath host settings ("acme" ∷ [])) [] ≡ false)
    × (Manager.del_org host settings "acme" behind ≡ (ok tt, behind))
    × (process_org host settings (λ l. l) [] "acme" behind ≡ (ok tt, behind))
unfolding add_org
add_org-del_org_example =
    add_org-del_org host settings host-touched "acme" [] behind [] refl refl refl (λ l. l) []
