-- ===== src/TaskServer/Organisation/Cache.antt =====
-- What the calls of an organisation leave in its cached users and groups.
use mathlib.Core.Option
use nixpkgs_llvm_ws.Base.{
  String, ◌≡◌, refl, ◌&&◌, if◌then◌else◌, ◌==◌, string_eq, inl, inr, arith, Result, ok, err,
}
use nixpkgs_llvm_ws.Base.{Option, none, some, Bool-cases, Option-cases, [], ◌∷◌}
use nixpkgs_llvm_ws.Base.Dict.{Dict, lookup, insert, erase, lookup-insert, contains-keys}
use nixpkgs_llvm_ws.TaskServer.Host.{Host, Config, Error}
use nixpkgs_llvm_ws.TaskServer.Files.{is_imperative}
use nixpkgs_llvm_ws.TaskServer.Organisation.{
  User, Organisation, State, users, create_user, add_user, remove_user, del_user, keep_user,
  drop_user,
}

module _ (H : Host) (cfg : Config) where
  -- Once they have been read, the users are at hand.
  users_cached :
      (s : State H cfg) (d : Dict String User)
      → s.org.lazy_users ≡ some d
      → users H cfg s ≡ (ok d, s)
  unfolding users
  users_cached s d cached = ground arith

  create_user_ok :
      (name : String) (s t : State H cfg) {r : Option User}
      → create_user H cfg name s ≡ (ok r, t)
      → (u : User) × (r ≡ some u)
        × (u.org ≡ s.org.name)
        × (u.name ≡ name)
        × (t.org ≡ record (s.org) { lazy_users = Option.map (insert name u) s.org.lazy_users })
  unfolding create_user keep_user
  create_user_ok name s t h = ground arith

  create_user_err :
      (name : String) (s t : State H cfg) {e : Error}
      → create_user H cfg name s ≡ (err e, t)
      → t.org ≡ s.org
  unfolding create_user keep_user
  create_user_err name s t h = ground arith

  -- What a call that may add a user leaves, by its result.
  abbrev pub Added :
      String → Organisation → Dict String User → Result Error (Option User) × Organisation → Type 0
  Added name o d (ok (some u), o') =
      (u.org ≡ o.name)
      × (u.name ≡ name)
      × (lookup name d ≡ none)
      × (o'.lazy_users ≡ some (insert name u d))
      × ((j : String) → lookup j (insert name u d) ≡ (if j == name then some u else lookup j d))
  Added name o d (ok none, o') = o' ≡ o
  Added name o d (err e, o') = o' ≡ o

  create_user-Added :
      (name : String) (s : State H cfg) (d : Dict String User)
      (x : Result Error (Option User) × State H cfg)
      → s.org.lazy_users ≡ some d
      → lookup name d ≡ none
      → create_user H cfg name s ≡ x
      → Added name s.org d (x.0, x.1.org)
  create_user-Added name s d (ok (some u), t) cached fresh h =
      let (v, same, o, n, e) = create_user_ok name s t h in
      (ground arith, ground arith, fresh, ground arith, λ j. lookup-insert j name u d)
  create_user-Added name s d (ok none, t) cached fresh h =
      let (v, same, _, _, _) = create_user_ok name s t h in cc
  create_user-Added name s d (err e, t) cached fresh h = create_user_err name s t h

  -- Where the users had been read, `add_user` returns a new user only for a name that was free in the
  -- cache, and then the cache has that user under the name and is otherwise as before. If the call
  -- returns `None` or raises, then the object is unchanged.
  pub add_user-Added :
      (name : String) (s : State H cfg) (d : Dict String User)
      → s.org.lazy_users ≡ some d
      → let (r, t) = add_user H cfg name s in Added name s.org d (r, t.org)
  unfolding add_user
  add_user-Added name s d cached =
      elim (Bool-cases (s.org.ignore_imperative && is_imperative H cfg (s.org.name ∷ []) s.world)) [
        | inl skip ↦ rw skip refl
        | inr go ↦ elim (Option-cases (lookup name d)) [
          | inl fresh ↦
              rw (go, users_cached s d cached, contains-keys d name, fresh)
                (create_user-Added name s d (create_user H cfg name s) cached fresh refl)
          | inr (u, there) ↦ rw (go, users_cached s d cached, contains-keys d name, there) refl
        ]
      ]

  -- If `del_user` returns for a cached user, then the user has left the cache and nothing else
  -- has, but for one that the tool leaves to be managed by hand: then nothing has changed.
  pub del_user-lookup :
      (name : String) (s t : State H cfg) (d : Dict String User) (u : User)
      → s.org.lazy_users ≡ some d
      → lookup name d ≡ some u
      → del_user H cfg name s ≡ (ok tt, t)
      → t.org ≡ record (s.org) {
        lazy_users = some (
            if s.org.ignore_imperative
              && is_imperative H cfg (s.org.name ∷ "users" ∷ u.key ∷ []) s.world
            then d
            else erase name d);
      }
  unfolding del_user users remove_user drop_user
  del_user-lookup name s t d u cached there h = ground arith
