-- ===== src/TaskServer/Organisation.antt =====
-- `class Organisation`, with the users and the groups that it reads when they are first asked for and
-- then keeps (`lazyprop`).
pub mod Cache
use Prim.Native.Char.{code}
use nixpkgs_llvm_ws.Base.{String, ◌<>◌, List, [], ◌∷◌, Bool, true, false, not, ◌&&◌, contains, ◌==◌}
use nixpkgs_llvm_ws.Base.{nat_eq, string_eq, if◌then◌else◌, Option, none, some}
use nixpkgs_llvm_ws.Base.{Action, Result, ok, err, pure, gets, raise, modify, done, ◌>>=◌, ◌>>◌}
use mathlib.Core.Option
use nixpkgs_llvm_ws.Base.Dict.{Dict, keys, lookup, insert, erase}
use nixpkgs_llvm_ws.Base.Text.{after_prefix}
use nixpkgs_llvm_ws.TaskServer.Host.{Host, Config, Error, taskd_error, key_error}
use nixpkgs_llvm_ws.TaskServer.Files.{mkpath, is_imperative, fetch_username, taskd_cmd}
use nixpkgs_llvm_ws.TaskServer.Keys.{generate_key, revoke_key}

pub record User : Type 0 where
  pub org : String
  pub name : String
  pub key : String

pub record Group : Type 0 where
  pub org : String
  pub name : String

-- `none` while the property has not been read.
pub record Organisation : Type 0 where
  pub name : String
  pub ignore_imperative : Bool
  pub lazy_users : Option (Dict String User)
  pub lazy_groups : Option (Dict String Group)

unfoldable pub new_organisation : String → Bool → Organisation
new_organisation name ignore = record {
  name = name;
  ignore_imperative = ignore;
  lazy_users = none;
  lazy_groups = none;
}

unfoldable pub first_line : String → String
first_line String.[] = ""
first_line (String.◌∷◌ c s) =
    let rest = first_line s in if code c == b'\n' then "" else String.◌∷◌ c rest

-- `RE_USERKEY.search(output)`: the first place where `New user key: ` has text behind it in its line.
unfoldable pub user_key : String → Option String
unfolding first_line after_prefix nat_eq
user_key String.[] = none
user_key (String.◌∷◌ c s) =
    let later = user_key s in
    elim (after_prefix "New user key: " (String.◌∷◌ c s)) [
      | none ↦ later
      | some rest ↦ if first_line rest == "" then later else some (first_line rest)
    ]

module _ (H : Host) (cfg : Config) where
  -- An organisation object, and the machine.
  pub record State : Type 0 where
    pub org : Organisation
    pub world : H.World

  -- A call that does not touch the object.
  abbrev pub on_world {ρ} : {A : Type ρ} → Action H.World Error A → Action State Error A
  on_world f s = let (r, w) = f s.world in (r, record s { world = w })

  -- The loop of `users`.
  unfoldable pub read_users :
      String → List String → Dict String User → Action H.World Error (Dict String User)
  read_users org [] result = pure result
  read_users org (key ∷ rest) result = do
    user ← fetch_username H cfg org key
    read_users org rest (elim user [
      | none ↦ result
      | some name ↦ insert name (record { org = org; name = name; key = key }) result
    ])

  unfoldable pub users : Action State Error (Dict String User)
  unfolding read_users mkpath fetch_username insert
  users s = elim s.org.lazy_users [
    | some d ↦ (ok d, s)
    | none ↦
        (do
          names ← on_world (H.listdir (mkpath H cfg (s.org.name ∷ "users" ∷ [])))
          d ← on_world (read_users s.org.name names [])
          modify (λ t. record t { org = record (t.org) { lazy_users = some d } })
          pure d)
          s
  ]

  -- The loop of `groups`.
  unfoldable pub read_groups : String → List String → Dict String Group → Dict String Group
  read_groups org [] result = result
  read_groups org (group ∷ rest) result =
      read_groups org rest (insert group (record { org = org; name = group }) result)

  unfoldable pub groups : Action State Error (Dict String Group)
  unfolding read_groups mkpath insert
  groups s = elim s.org.lazy_groups [
    | some d ↦ (ok d, s)
    | none ↦
        (do
          names ← on_world (H.listdir (mkpath H cfg (s.org.name ∷ "groups" ∷ [])))
          modify (λ t. record t {
            org = record (t.org) { lazy_groups = some (read_groups s.org.name names []) };
          })
          pure (read_groups s.org.name names []))
          s
  ]

  -- `self.get_user(name)`
  unfoldable pub get_user : String → Action State Error (Option User)
  unfolding users
  get_user name = do d ← users; pure (lookup name d)

  unfoldable pub get_group : String → Action State Error (Option Group)
  unfolding groups
  get_group name = do d ← groups; pure (lookup name d)

  -- `self._lazy_users[name] = user` and `del self._lazy_users[name]`, once the users have been read.
  unfoldable pub keep_user : String → User → State → State
  keep_user name user s = record s {
    org = record (s.org) { lazy_users = Option.map (insert name user) s.org.lazy_users };
  }

  unfoldable pub drop_user : String → State → State
  drop_user name s = record s {
    org = record (s.org) { lazy_users = Option.map (erase name) s.org.lazy_users };
  }

  unfoldable pub keep_group : String → Group → State → State
  keep_group name group s = record s {
    org = record (s.org) { lazy_groups = Option.map (insert name group) s.org.lazy_groups };
  }

  -- `ignore_imperative and is_imperative(…)`
  abbrev skips : List String → State → Bool
  skips path s = s.org.ignore_imperative && is_imperative H cfg path s.world

  create_user : String → Action State Error (Option User)
  unfolding keep_user user_key
  create_user name s =
      (do
        output ← on_world (taskd_cmd H cfg "add" ("user" ∷ s.org.name ∷ name ∷ []))
        elim (user_key output) [
          | none ↦ raise (taskd_error ("Unable to find key while creating user " <> name <> "."))
          | some key ↦ (do
            on_world (generate_key H cfg s.org.name name)
            modify (keep_user name (record { org = s.org.name; name = name; key = key }))
            pure (some (record { org = s.org.name; name = name; key = key })))
        ])
        s

  unfoldable pub add_user : String → Action State Error (Option User)
  unfolding users create_user
  add_user name s =
      if skips (s.org.name ∷ []) s
      then (ok none, s)
      else (do d ← users; if contains (keys d) name then pure none else create_user name) s

  -- `if name in …`: the user is there.
  remove_user : String → User → Action State Error (Unit {0})
  unfolding drop_user mkpath
  remove_user name user s =
      if skips (s.org.name ∷ "users" ∷ user.key ∷ []) s
      then (ok tt, s)
      else (do
        on_world (H.rmtree (mkpath H cfg (s.org.name ∷ "users" ∷ user.key ∷ [])))
        on_world (revoke_key H cfg s.org.name name)
        modify (drop_user name))
          s

  unfoldable pub del_user : String → Action State Error (Unit {0})
  unfolding users remove_user
  del_user name = do
    d ← users
    elim (lookup name d) [ none ↦ done | some user ↦ remove_user name user ]

  create_group : String → Action State Error (Option Group)
  unfolding keep_group
  create_group name s =
      (do
        on_world (taskd_cmd H cfg "add" ("group" ∷ s.org.name ∷ name ∷ []))
        modify (keep_group name (record { org = s.org.name; name = name }))
        pure (some (record { org = s.org.name; name = name })))
        s

  unfoldable pub add_group : String → Action State Error (Option Group)
  unfolding groups create_group
  add_group name s =
      if skips (s.org.name ∷ []) s
      then (ok none, s)
      else (do d ← groups; if contains (keys d) name then pure none else create_group name) s

  -- `del self._lazy_groups[name]`: an object whose groups were never read has no such attribute.
  drop_group : String → Action State Error (Unit {0})
  drop_group name s = elim s.org.lazy_groups [
    | none ↦ (err Error.attribute, s)
    | some d ↦ elim (lookup name d) [
      | none ↦ (err (key_error name), s)
      | some _ ↦ (ok tt, record s { org = record (s.org) { lazy_groups = some (erase name d) } })
    ]
  ]

  -- The test looks among the users.
  unfoldable pub del_group : String → Action State Error (Unit {0})
  unfolding users drop_group
  del_group name = do
    d ← users
    if contains (keys d) name
        then (λ s.
            if skips (s.org.name ∷ "groups" ∷ name ∷ []) s
            then (ok tt, s)
            else (do
              on_world (taskd_cmd H cfg "remove" ("group" ∷ s.org.name ∷ name ∷ []))
              drop_group name)
                s)
        else done
