-- ===== src/TaskServer/Manager/Declared.antt =====
-- `process_json` reaches the declared organisations.
use nixpkgs_llvm_ws.Base.{String, List, [], ◌∷◌, false, contains, ◌≡◌, refl, ◌∙◌, ap, sym, arith}
use nixpkgs_llvm_ws.Base.{string_eq, Option, none, some, inl, inr, Bool-cases}
use nixpkgs_llvm_ws.Base.{ok, done, for_each, ◌>>=◌, ◌>>◌, >>=-eq-ok}
use nixpkgs_llvm_ws.Base.Dict.{Dict, keys, lookup}
use nixpkgs_llvm_ws.TaskServer.Host.{Host, Config}
use nixpkgs_llvm_ws.TaskServer.Files.{is_imperative}
use nixpkgs_llvm_ws.TaskServer.Organisation
use nixpkgs_llvm_ws.TaskServer.Organisation.{Organisation, User, Group}
use nixpkgs_llvm_ws.TaskServer.Reconcile.{add_or_delete}
use nixpkgs_llvm_ws.TaskServer.Reconcile.Reached.{Collection, add_or_delete_reached}
use nixpkgs_llvm_ws.TaskServer.Manager.{
  State, OrgData, update_org, update_users, update_groups, orgs, on_org, add_org, del_org,
  process_org, process_json,
}
use nixpkgs_llvm_ws.TaskServer.Manager.Names.{
  IsRead, has_org, orgs_read, KeepsNames, >>=-KeepsNames, for_each-KeepsNames, on_org-KeepsNames,
  add_org_law, del_org_law,
}

module _ (H : Host) (cfg : Config)
    (unmarked : (k : String) (w : H.World) → is_imperative H cfg (k ∷ []) w ≡ false) where
  unfoldable pub organisations : Collection (add_org H cfg) (del_org H cfg)
  organisations = record {
    IsValid = IsRead H cfg;
    has = has_org H cfg;
    add_law = add_org_law H cfg;
    del_law = del_org_law H cfg unmarked;
  }

  orgs-IsRead :
      (s u : State H cfg) (d : Dict String Organisation)
      → orgs H cfg s ≡ (ok d, u)
      → u.lazy_orgs ≡ some d
  unfolding orgs
  orgs-IsRead s u d h = ground arith

  orgs-KeepsNames : KeepsNames H cfg (orgs H cfg)
  orgs-KeepsNames s (d, e) = rw (orgs_read H cfg s d e) ((d, e), λ j. refl)

  module _ (iterate : List String → List String) where
    users_kept :
        (name : String) (us : Dict String User) (o : OrgData)
        → KeepsNames H cfg (update_users H cfg iterate name us o)
    users_kept name us o = on_org-KeepsNames H cfg name (
        add_or_delete iterate (Organisation.add_user H cfg) (Organisation.del_user H cfg) (keys us)
          o.users)

    groups_kept :
        (name : String) (o : OrgData) (gs : Dict String Group)
        → KeepsNames H cfg (update_groups H cfg iterate name o gs)
    groups_kept name o gs = on_org-KeepsNames H cfg name (
        add_or_delete iterate (Organisation.add_group H cfg) (Organisation.del_group H cfg)
          (keys gs) o.groups)

    update_org-KeepsNames :
        (name : String) (o : Option OrgData) (us : Dict String User)
        → KeepsNames H cfg (update_org H cfg iterate name o us)
    update_org-KeepsNames name none us s v = (v, λ j. refl)
    update_org-KeepsNames name (some o) us s v =
        >>=-KeepsNames H cfg (update_users H cfg iterate name us o)
          (λ _. on_org H cfg name (Organisation.groups H cfg) >>= λ gs.
            update_groups H cfg iterate name o gs >> done)
          (users_kept name us o)
          (λ _.
            >>=-KeepsNames H cfg (on_org H cfg name (Organisation.groups H cfg))
              (λ gs. update_groups H cfg iterate name o gs >> done)
              (on_org-KeepsNames H cfg name (Organisation.groups H cfg))
              (λ gs.
                >>=-KeepsNames H cfg (update_groups H cfg iterate name o gs) (λ _. done)
                  (groups_kept name o gs) (λ _ s v. (v, λ j. refl))))
          s v

    process_org-KeepsNames :
        (declared : Dict String OrgData) (name : String)
        → KeepsNames H cfg (process_org H cfg iterate declared name)
    unfolding process_org
    process_org-KeepsNames declared name s v =
        elim (Bool-cases (is_imperative H cfg (name ∷ []) s.world)) [
          | inl mine ↦ rw mine (v, λ j. refl)
          | inr other ↦ rw other (
              >>=-KeepsNames H cfg (on_org H cfg name (Organisation.users H cfg))
                (update_org H cfg iterate name (lookup name declared))
                (on_org-KeepsNames H cfg name (Organisation.users H cfg))
                (update_org-KeepsNames name (lookup name declared)) s v)
        ]

    -- Where nothing is marked as managed by hand, and in whatever order sets are gone through: if
    -- `process_json` returns, then the manager holds organisations of just the declared names.
    pub process_json_declared :
        ((xs : List String) (k : String) → contains (iterate xs) k ≡ contains xs k)
        → (declared : Dict String OrgData) (s t : State H cfg)
        → process_json H cfg iterate declared s ≡ (ok tt, t)
        → (j : String) → has_org H cfg t j ≡ contains (keys declared) j
    unfolding process_json organisations
    process_json_declared same declared s t h j =
        let update = λ (old : Dict String Organisation).
          add_or_delete iterate (add_org H cfg) (del_org H cfg) (keys old) (keys declared) in
        let loop =
          orgs H cfg >>= λ held. for_each (process_org H cfg iterate declared) (keys held) in
        let (old, u, read, h') = >>=-eq-ok (orgs H cfg) (λ old. update old >> loop) s h in
        let ((adds, dels), v, updated, looped) = >>=-eq-ok (update old) (λ _. loop) u h' in
        let e = orgs-IsRead s u old read in
        let (v-read, names, _, _) =
          add_or_delete_reached (add_org H cfg) (del_org H cfg) organisations iterate same
            (keys old) (keys declared) u v adds dels (old, e)
            (λ j. ap (λ x. elim x [ none ↦ false | some d ↦ contains (keys d) j ]) e) updated in
        let (_, kept) =
          >>=-KeepsNames H cfg (orgs H cfg)
            (λ held. for_each (process_org H cfg iterate declared) (keys held)) orgs-KeepsNames
            (λ held.
              for_each-KeepsNames H cfg (process_org H cfg iterate declared)
                (process_org-KeepsNames declared) (keys held))
            v v-read in
        ap (λ x. has_org H cfg (x.1) j) (sym looped) ∙ kept j ∙ names j
