-- ===== src/TaskServer/Cli.antt =====
-- The command line of the Taskserver's helper tool: `cli` and its commands, but for `process-json`. A
-- command that ends without an exception exits with the status 0.
pub mod Imperative
use nixpkgs_llvm_ws.Base.{
  String, ◌<>◌, List, [], ◌∷◌, Bool, true, false, not, if◌then◌else◌, Option, none, some, string_eq,
}
use nixpkgs_llvm_ws.Base.{Action, ok, err, pure, raise, raise_if, done, for_each, ◌>>=◌, ◌>>◌}
use nixpkgs_llvm_ws.Base.Dict.{Dict, keys, values}
use nixpkgs_llvm_ws.TaskServer.Host.{Host, Config, Error, exit, fail}
use nixpkgs_llvm_ws.TaskServer.Files.{mkpath, mark_imperative, taskd_cmd, label}
use nixpkgs_llvm_ws.TaskServer.Keys.{ca_key, ca_cert, crl_file}
use nixpkgs_llvm_ws.TaskServer.Export.{export}
use nixpkgs_llvm_ws.TaskServer.Organisation
use nixpkgs_llvm_ws.TaskServer.Organisation.{Organisation, User, Group}
use nixpkgs_llvm_ws.TaskServer.Manager

module _ (H : Host) (cfg : Config) where
  abbrev pub Command {ρ} : Type ρ → Type ρ
  Command A = Action H.World Error A

  unfoldable pub check_path : String → Command (Unit {0})
  check_path path w =
      if H.exists path w
      then (ok tt, w)
      else (err (fail ("CA setup not done or incomplete, missing file " <> path <> ".")), w)

  -- The group `cli`, in front of each command.
  unfoldable pub cli : Command (Unit {0})
  unfolding check_path for_each
  cli =
      if cfg.is_auto_config
      then for_each check_path (ca_key H cfg ∷ ca_cert H cfg ∷ crl_file H cfg ∷ [])
      else done

  -- A new manager object.
  abbrev pub with_manager {ρ} :
      {A : Type ρ} → Bool → Action (Manager.State H cfg) Error A → Command A
  with_manager ignore f w =
      let (r, s) = f (record { ignore_imperative = ignore; lazy_orgs = none; world = w }) in
      (r, s.world)

  -- `OrganisationType.convert`
  unfoldable pub convert : String → Command Organisation
  unfolding Manager.get_org
  convert value = with_manager false (Manager.get_org H cfg value) >>= λ org. elim org [
    | none ↦ raise (fail ("Organisation " <> value <> " does not exist."))
    | some o ↦ pure o
  ]

  -- A command with an argument of that type.
  abbrev pub with_organisation {ρ} :
      {A : Type ρ} → String → (Organisation → Action (Organisation.State H cfg) Error A) → Command A
  with_organisation value f =
      convert value >>= λ o w. let (r, s) = f o (record { org = o; world = w }) in (r, s.world)

  abbrev pub on_world {ρ} : {A : Type ρ} → Command A → Action (Organisation.State H cfg) Error A
  on_world = Organisation.on_world H cfg

  abbrev write_line : String → Command (Unit {0})
  write_line text w = (ok tt, H.stdout (text <> "\n") w)

  -- `click.echo(msg, err=True)`
  abbrev echo : String → Command (Unit {0})
  echo text w = (ok tt, H.stderr (text <> "\n") w)

  unfoldable pub list_users : String → Command (Unit {0})
  unfolding convert label for_each Organisation.users
  list_users organisation = with_organisation organisation (λ o.
      on_world (label H cfg ("The following users exists for " <> o.name <> ":"))
      >> (Organisation.users H cfg >>= λ us.
          on_world (for_each (λ user. write_line (User.name user)) (values us))))

  unfoldable pub list_groups : String → Command (Unit {0})
  unfolding convert label for_each Organisation.groups
  list_groups organisation = with_organisation organisation (λ o.
      on_world (label H cfg ("The following users exists for " <> o.name <> ":"))
      >> (Organisation.groups H cfg >>= λ gs.
          on_world (for_each (λ group. write_line (Group.name group)) (values gs))))

  -- The loop goes over the names, and a text has no attribute `name`.
  unfoldable pub list_orgs : Command (Unit {0})
  unfolding label Manager.orgs
  list_orgs =
      label H cfg "The following organisations exist:"
      >> (with_manager false (Manager.orgs H cfg) >>= λ os. elim (keys os) [
        | [] ↦ done
        | org ∷ rest ↦ raise Error.attribute
      ])

  -- `userobj.name` of `None`, and `user.key` of a text, are no attributes.
  unfoldable pub get_uuid : String → String → Command (Unit {0})
  unfolding convert label Organisation.get_user
  get_uuid organisation user = with_organisation organisation (λ o.
      Organisation.get_user H cfg user >>= λ userobj. elim userobj [
        | none ↦ raise Error.attribute
        | some u ↦
            on_world (label H cfg ("User " <> u.name <> " has the following UUID:"))
            >> raise Error.attribute
      ])

  unfoldable pub export_user : String → String → Command (Unit {0})
  unfolding convert export Organisation.get_user
  export_user organisation user = with_organisation organisation (λ o.
      Organisation.get_user H cfg user >>= λ userobj. elim userobj [
        | none ↦
            raise (exit ("User " <> user <> " doesn't exist in organisation " <> o.name <> "."))
        | some u ↦ on_world (export H cfg u.org u.name u.key >>= λ text w. (ok tt, H.stdout text w))
      ])

  unfoldable pub add_org : String → Command (Unit {0})
  unfolding mkpath taskd_cmd mark_imperative
  add_org name w =
      if H.exists (mkpath H cfg (name ∷ [])) w
      then (err (exit ("Organisation with name " <> name <> " already exists.")), w)
      else (taskd_cmd H cfg "add" ("org" ∷ name ∷ []) >> mark_imperative H cfg (name ∷ [])) w

  unfoldable pub del_org : String → Command (Unit {0})
  unfolding Manager.del_org
  del_org name =
      with_manager false (Manager.del_org H cfg name)
      >> echo (
          "Organisation " <> name
          <> " deleted. Be sure to restart the Taskserver using 'systemctl restart taskserver.service' in order for the certificate revocation to apply.")

  -- The message shows the organisation by its `repr`.
  module _ (repr : Organisation → String) where
    unfoldable pub add_user : String → String → Command (Unit {0})
    unfolding convert mark_imperative Organisation.add_user
    add_user organisation user = with_organisation organisation (λ o.
        Organisation.add_user H cfg user >>= λ userobj. elim userobj [
          | none ↦
              raise (exit ("User " <> user <> " already exists in organisation " <> repr o <> "."))
          | some u ↦ on_world (mark_imperative H cfg (o.name ∷ "users" ∷ User.key u ∷ []))
        ])

    unfoldable pub add_group : String → String → Command (Unit {0})
    unfolding convert mark_imperative Organisation.add_group
    add_group organisation group = with_organisation organisation (λ o.
        Organisation.add_group H cfg group >>= λ groupobj. elim groupobj [
          | none ↦
              raise
                (exit ("Group " <> group <> " already exists in organisation " <> repr o <> "."))
          | some g ↦ on_world (mark_imperative H cfg (o.name ∷ "groups" ∷ Group.name g ∷ []))
        ])

  unfoldable pub del_user : String → String → Command (Unit {0})
  unfolding convert Organisation.del_user
  del_user organisation user =
      with_organisation organisation (λ o. Organisation.del_user H cfg user)
      >> echo (
          "User " <> user
          <> " deleted. Be sure to restart the Taskserver using 'systemctl restart taskserver.service' in order for the certificate revocation to apply.")

  -- `click(…)` calls a module.
  unfoldable pub del_group : String → String → Command (Unit {0})
  unfolding convert Organisation.del_group
  del_group organisation group =
      with_organisation organisation (λ o. Organisation.del_group H cfg group) >> raise Error.type
