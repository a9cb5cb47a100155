-- ===== src/Tests/TaskServer.antt =====
-- A Taskserver on which every call succeeds, with the texts that the commands print.
use nixpkgs_llvm_ws.Base.{
  String, List, [], ◌∷◌, ◌++◌, ◌≡◌, ◌↔◌, refl, Bool, true, false, not, ◌&&◌, if◌then◌else◌, some,
  contains, string_eq, nat_eq,
}
use nixpkgs_llvm_ws.Base.{Action, ok, err}
use nixpkgs_llvm_ws.Base.Dict.{Dict, keys, lookup, erase}
use nixpkgs_llvm_ws.TaskServer.Host.{Host, Config, Error, called_process}
use nixpkgs_llvm_ws.TaskServer.Export.{credentials_word}
use nixpkgs_llvm_ws.TaskServer.Export.Quoting.{shell_word, shell_word-credentials_word}
use nixpkgs_llvm_ws.TaskServer.Files.{taskd_cmd, getkey_loop, concat, is_imperative, mark_path}
use nixpkgs_llvm_ws.TaskServer.Files.KeyBlock.{IsBlock, getkey_loop_iff}
use nixpkgs_llvm_ws.TaskServer.Files.Marks.{is_imperative_iff}
use nixpkgs_llvm_ws.TaskServer.Keys.{generate_key, revoke_key}
use nixpkgs_llvm_ws.TaskServer.Organisation
use nixpkgs_llvm_ws.TaskServer.Organisation.{
  User, Group, Organisation, add_user, del_user, del_group,
}
use nixpkgs_llvm_ws.TaskServer.Organisation.Cache.{Added, add_user-Added, del_user-lookup}
use nixpkgs_llvm_ws.TaskServer.Reconcile.{add_or_delete}
use nixpkgs_llvm_ws.TaskServer.Reconcile.Reached.{add_or_delete_reached}
use nixpkgs_llvm_ws.TaskServer.Manager
use nixpkgs_llvm_ws.TaskServer.Manager.{OrgData, add_org, del_org, process_json}
use nixpkgs_llvm_ws.TaskServer.Manager.Names.{has_org}
use nixpkgs_llvm_ws.TaskServer.Manager.Declared.{process_json_declared, organisations}

shell_word-credentials_word_example :
    shell_word (credentials_word "org/o'neil/key") ≡ some "org/o'neil/key"
shell_word-credentials_word_example = shell_word-credentials_word "org/o'neil/key"

getkey_loop_iff_example :
    (getkey_loop ("-----BEGIN X-----\n" ∷ "a\n" ∷ "-----END X-----\n" ∷ []) []
      ≡ some "-----BEGIN X-----\na\n-----END X-----\n")
    ↔ ((block : List String) × IsBlock
          ("-----BEGIN X-----\n" ∷ "a\n" ∷ "-----END X-----\n" ∷ [])
          block
        × ("-----BEGIN X-----\na\n-----END X-----\n" ≡ concat block))
getkey_loop_iff_example =
    getkey_loop_iff ("-----BEGIN X-----\n" ∷ "a\n" ∷ "-----END X-----\n" ∷ [])
      "-----BEGIN X-----\na\n-----END X-----\n"

-- The state counts nothing but the calls of commands.
abbrev host : Bool → (List String → Action (List String) Error String) → Host
host present run = record {
  World = List String;
  exists = λ path w. present;
  listdir = λ path w. (ok [], w);
  lines = λ path w. (ok [], w);
  read = λ path w. (ok "", w);
  touch = λ path w. (ok tt, w);
  makedirs = λ path w. (ok tt, w);
  chmod = λ path mode w. (ok tt, w);
  chown = λ path w. (ok tt, w);
  rmtree = λ path w. (ok tt, "rmtree" ∷ w);
  temporary = λ text w. (ok "template", w);
  check_output_as_group = run;
  check_output_as_user = run;
  stderr = λ text w. w;
  stdout = λ text w. w;
  is_terminal = λ w. false;
}

abbrev works : Host
works = host false (λ command w. (ok "New user key: 0123\n", "command" ∷ w))

abbrev breaks : Host
breaks = host false (λ command w. (err called_process, w))

abbrev populated : Host
populated = host true (λ command w. (ok "", "command" ∷ w))

abbrev settings : Bool → Config
settings is_auto = record {
  is_auto_config = is_auto;
  certtool_command = "certtool";
  cert_bits = "4096";
  client_expiration = "365";
  crl_expiration = "365";
  taskd_command = "taskd";
  taskd_data_dir = "/var/lib/taskserver";
  fqdn = "localhost";
}

is_imperative_iff_example : (is_imperative works (settings true) ("acme" ∷ []) [] ≡ true) ↔ (
    (front : List String) × (c : String) × (back : List String) × (("acme" ∷ [])
      ≡ front ++ (c ∷ back))
    × (works.exists (mark_path works (settings true) (front ++ (c ∷ []))) [] ≡ true))
is_imperative_iff_example = is_imperative_iff works (settings true) [] ("acme" ∷ [])

abbrev acme : Organisation
acme = record {
  name = "acme";
  ignore_imperative = false;
  lazy_users = some (("bob", record { org = "acme"; name = "bob"; key = "77" }) ∷ []);
  lazy_groups = some (("staff", record { org = "acme"; name = "staff" }) ∷ []);
}

abbrev users_of_acme : Dict String User
users_of_acme = ("bob", record { org = "acme"; name = "bob"; key = "77" }) ∷ []

abbrev in_acme : Organisation.State works (settings false)
in_acme = record { org = acme; world = [] }

add_user-Added_example :
    let (r, t) = add_user works (settings false) "eve" in_acme in
    Added works (settings false) "eve" acme users_of_acme (r, t.org)
add_user-Added_example = add_user-Added works (settings false) "eve" in_acme users_of_acme refl

abbrev at_acme : Organisation.State populated (settings true)
at_acme = record { org = acme; world = [] }

del_user-lookup_example : (del_user populated (settings true) "bob" at_acme).1.org ≡ record acme {
  lazy_users = some (
      if acme.ignore_imperative
        && is_imperative populated (settings true) ("acme" ∷ "users" ∷ "77" ∷ []) []
      then users_of_acme
      else erase "bob" users_of_acme);
}
unfolding del_user lookup string_eq revoke_key
del_user-lookup_example =
    del_user-lookup populated (settings true) "bob" at_acme
      (del_user populated (settings true) "bob" at_acme).1 users_of_acme
      (record { org = "acme"; name = "bob"; key = "77" }) refl refl refl

abbrev umbrella : Organisation
umbrella = record {
  name = "umbrella";
  ignore_imperative = false;
  lazy_users = some [];
  lazy_groups = some [];
}

-- A manager that knows of one organisation, and a file that declares another.
abbrev before : Manager.State works (settings false)
before = record {
  ignore_imperative = true;
  lazy_orgs = some (("umbrella", umbrella) ∷ []);
  world = [];
}

abbrev declared_orgs : Dict String OrgData
declared_orgs = ("initech", record { users = "peter" ∷ []; groups = [] }) ∷ []

unmarked : (k : String) (w : List String) → is_imperative works (settings false) (k ∷ []) w ≡ false
unfolding is_imperative
unmarked k w = refl

process_json_declared_example :
    has_org works
      (settings false)
      (process_json works (settings false) (λ xs. xs) declared_orgs before).1
      "initech"
    ≡ contains (keys declared_orgs) "initech"
unfolding process_json string_eq del_org is_imperative Organisation.users Organisation.groups
    taskd_cmd add_org erase add_user generate_key
process_json_declared_example =
    process_json_declared works (settings false) unmarked (λ xs. xs) (λ xs k. refl) declared_orgs
      before (process_json works (settings false) (λ xs. xs) declared_orgs before).1 refl "initech"

abbrev after_update : Manager.State works (settings false)
after_update =
    (add_or_delete (λ xs. xs) (add_org works (settings false)) (del_org works (settings false))
      ("umbrella" ∷ []) ("initech" ∷ []) before).1

add_or_delete_reached_example :
    ((organisations works (settings false) unmarked).IsValid after_update)
    × ((j : String) → has_org works (settings false) after_update j ≡ contains ("initech" ∷ []) j)
    × ((j : String)
        → contains ("initech" ∷ []) j
          ≡ (contains ("initech" ∷ []) j && not (contains ("umbrella" ∷ []) j)))
    × ((j : String)
        → contains ("umbrella" ∷ []) j
          ≡ (contains ("umbrella" ∷ []) j && not (contains ("initech" ∷ []) j)))
unfolding add_or_delete add_org del_org string_eq organisations is_imperative Organisation.users
    Organisation.groups taskd_cmd erase
add_or_delete_reached_example =
    add_or_delete_reached (add_org works (settings false)) (del_org works (settings false))
      (organisations works (settings false) unmarked) (λ xs. xs) (λ xs k. refl) ("umbrella" ∷ [])
      ("initech" ∷ []) before after_update ("initech" ∷ []) ("umbrella" ∷ [])
      ((("umbrella", umbrella) ∷ []), refl) (λ j. refl) refl
