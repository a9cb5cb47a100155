-- ===== src/TaskServer/Manager.antt =====
-- `class Manager` and `process_json`: the organisations, and the set that a JSON file declares.
pub mod Names
pub mod Declared
use mathlib.Core.Option
use nixpkgs_llvm_ws.Base.{String, List, [], ◌∷◌, Bool, true, false, ◌&&◌, contains, if◌then◌else◌}
use nixpkgs_llvm_ws.Base.{string_eq, Option, none, some}
use nixpkgs_llvm_ws.Base.{Action, Result, ok, err, pure, raise, modify, done, for_each, ◌>>=◌, ◌>>◌}
use nixpkgs_llvm_ws.Base.Dict.{Dict, keys, lookup, insert, erase}
use nixpkgs_llvm_ws.TaskServer.Host.{Host, Config, Error, key_error}
use nixpkgs_llvm_ws.TaskServer.Files.{mkpath, is_imperative, taskd_cmd}
use nixpkgs_llvm_ws.TaskServer.Organisation
use nixpkgs_llvm_ws.TaskServer.Organisation.{Organisation, new_organisation}
use nixpkgs_llvm_ws.TaskServer.Reconcile.{add_or_delete}

-- The JSON value of an organisation.
pub record OrgData : Type 0 where
  pub users : List String
  pub groups : List String

module _ (H : Host) (cfg : Config) where
  -- A manager object, and the machine. `none` while `orgs` has not been read.
  pub record State : Type 0 where
    pub ignore_imperative : Bool
    pub lazy_orgs : Option (Dict String Organisation)
    pub world : H.World

  abbrev pub on_world {ρ} : {A : Type ρ} → Action H.World Error A → Action State Error A
  on_world f s = let (r, w) = f s.world in (r, record s { world = w })

  -- The loop of `orgs`.
  unfoldable pub read_orgs :
      Bool → List String → Dict String Organisation → Dict String Organisation
  unfolding new_organisation insert
  read_orgs ignore [] result = result
  read_orgs ignore (org ∷ rest) result =
      read_orgs ignore rest (insert org (new_organisation org ignore) result)

  unfoldable pub orgs : Action State Error (Dict String Organisation)
  unfolding read_orgs mkpath
  orgs s = elim s.lazy_orgs [
    | some d ↦ (ok d, s)
    | none ↦
        (do
          names ← on_world (H.listdir (mkpath H cfg []))
          modify (λ t. record t { lazy_orgs = some (read_orgs s.ignore_imperative names []) })
          pure (read_orgs s.ignore_imperative names []))
          s
  ]

  unfoldable pub get_org : String → Action State Error (Option Organisation)
  unfolding orgs
  get_org name = do d ← orgs; pure (lookup name d)

  -- A call on an organisation that the cache holds. The object is shared, so what the call writes,
  -- also before it raises, is seen through the cache.
  unfoldable pub on_org {ρ} :
      {A : Type ρ} → String → Action (Organisation.State H cfg) Error A → Action State Error A
  unfolding lookup
  on_org name f s = elim s.lazy_orgs [
    | none ↦ (err Error.attribute, s)
    | some d ↦ elim (lookup name d) [
      | none ↦ (err (key_error name), s)
      | some o ↦
          let (r, t) = f (record { org = o; world = s.world }) in
          (r, record s { lazy_orgs = some (insert name (t.org) d); world = t.world })
    ]
  ]

  unfoldable pub keep_org : String → Organisation → State → State
  keep_org name o s = record s { lazy_orgs = Option.map (insert name o) s.lazy_orgs }

  unfoldable pub drop_org : String → State → State
  drop_org name s = record s { lazy_orgs = Option.map (erase name) s.lazy_orgs }

  unfoldable pub add_org : String → Action State Error (Option Organisation)
  unfolding orgs new_organisation keep_org
  add_org name = do
    d ← orgs
    if contains (keys d) name then pure none else (λ s.
        (do
          on_world (taskd_cmd H cfg "add" ("org" ∷ name ∷ []))
          modify (keep_org name (new_organisation name s.ignore_imperative))
          pure (some (new_organisation name s.ignore_imperative)))
          s)

  -- The two loops of `del_org`.
  abbrev pub clear_users : String → Action State Error (Unit {0})
  clear_users name = do
    us ← on_org name (Organisation.users H cfg)
    for_each (λ user. on_org name (Organisation.del_user H cfg user)) (keys us)

  abbrev pub clear_groups : String → Action State Error (Unit {0})
  clear_groups name = do
    gs ← on_org name (Organisation.groups H cfg)
    for_each (λ group. on_org name (Organisation.del_group H cfg group)) (keys gs)

  unfoldable pub clear_org : String → Action State Error (Unit {0})
  unfolding on_org
  clear_org name = clear_users name >> clear_groups name

  unfoldable pub remove_org : String → Action State Error (Unit {0})
  unfolding clear_org drop_org
  remove_org name s =
      if s.ignore_imperative && is_imperative H cfg (name ∷ []) s.world
      then (ok tt, s)
      else (do
        clear_org name
        on_world (taskd_cmd H cfg "remove" ("org" ∷ name ∷ []))
        modify (drop_org name))
          s

  unfoldable pub del_org : String → Action State Error (Unit {0})
  unfolding get_org remove_org
  del_org name = do org ← get_org name; elim org [ none ↦ done | some _ ↦ remove_org name ]

  module _ (iterate : List String → List String) where
    -- `add_or_delete` on the users, and on the groups, of an organisation that the manager holds.
    abbrev pub update_users :
        String
        → Dict String Organisation.User
        → OrgData
        → Action State Error (List String × List String)
    update_users name us o = on_org name (
        add_or_delete iterate (Organisation.add_user H cfg) (Organisation.del_user H cfg) (keys us)
          o.users)

    abbrev pub update_groups :
        String
        → OrgData
        → Dict String Organisation.Group
        → Action State Error (List String × List String)
    update_groups name o gs = on_org name (
        add_or_delete iterate (Organisation.add_group H cfg) (Organisation.del_group H cfg)
          (keys gs) o.groups)

    -- From `data[org.name]` on: `none` is a missing key.
    abbrev pub update_org :
        String → Option OrgData → Dict String Organisation.User → Action State Error (Unit {0})
    update_org name none us = raise (key_error name)
    update_org name (some o) us =
        update_users name us o
        >> (on_org name (Organisation.groups H cfg) >>= λ gs. update_groups name o gs >> done)

    -- The body of the last loop of `process_json`.
    unfoldable pub process_org : Dict String OrgData → String → Action State Error (Unit {0})
    unfolding add_or_delete on_org
    process_org declared name s =
        if is_imperative H cfg (name ∷ []) s.world
        then (ok tt, s)
        else (on_org name (Organisation.users H cfg) >>= update_org name (lookup name declared)) s

    unfoldable pub process_json : Dict String OrgData → Action State Error (Unit {0})
    unfolding orgs process_org add_or_delete
    process_json declared = do
      old ← orgs
      add_or_delete iterate add_org del_org (keys old) (keys declared)
      held ← orgs
      for_each (process_org declared) (keys held)
