-- ===== src/TaskServer/Cli/Imperative.antt =====
-- What was added by hand stays when the declared organisations are processed.
use nixpkgs_llvm_ws.Base.{
  String, List, [], ◌∷◌, ◌≡◌, refl, ◌∙◌, sym, true, false, some, inl, inr, Bool-cases, arith,
}
use nixpkgs_llvm_ws.Base.{ok, ◌>>◌, >>=-eq-ok}
use nixpkgs_llvm_ws.TaskServer.Host.{Host, Config}
use nixpkgs_llvm_ws.TaskServer.Files.{
  mkpath, mark_path, mark_imperative, marked_below, is_imperative, taskd_cmd,
}
use nixpkgs_llvm_ws.TaskServer.Manager
use nixpkgs_llvm_ws.TaskServer.Manager.{OrgData, process_org}
use nixpkgs_llvm_ws.Base.Dict.{Dict}
use nixpkgs_llvm_ws.TaskServer.Organisation.{Organisation}
use nixpkgs_llvm_ws.TaskServer.Cli.{add_org}

module _ (H : Host) (cfg : Config)
    (touched : (path : String) (w v : H.World)
      → H.touch path w ≡ (ok tt, v)
      → H.exists path v ≡ true) where
  is_imperative-touch :
      (name : String) (w v : H.World)
      → mark_imperative H cfg (name ∷ []) w ≡ (ok tt, v)
      → is_imperative H cfg (name ∷ []) v ≡ true
  unfolding mark_imperative is_imperative marked_below
  is_imperative-touch name w v marked =
      let there = touched (mark_path H cfg (name ∷ [])) w v marked in ground arith

  add_org-marked :
      (name : String) (w v : H.World)
      → add_org H cfg name w ≡ (ok tt, v)
      → (H.exists (mkpath H cfg (name ∷ [])) w ≡ false) × (is_imperative H cfg (name ∷ []) v ≡ true)
  unfolding add_org
  add_org-marked name w v ran = elim (Bool-cases (H.exists (mkpath H cfg (name ∷ [])) w)) [
    | inl there ↦ absurd (refused there)
    | inr fresh ↦
        let (output, u, added, marked) =
          >>=-eq-ok (taskd_cmd H cfg "add" ("org" ∷ name ∷ []))
            (λ _. mark_imperative H cfg (name ∷ [])) w (goes_on fresh) in
        (fresh, is_imperative-touch name u v marked)
  ]
    where
      refused : H.exists (mkpath H cfg (name ∷ [])) w ≡ true → ⊥
      refused there = ground arith

      goes_on :
          H.exists (mkpath H cfg (name ∷ [])) w ≡ false
          → (taskd_cmd H cfg "add" ("org" ∷ name ∷ []) >> mark_imperative H cfg (name ∷ [])) w
            ≡ (ok tt, v)
      goes_on fresh = sym (rw (add_org, fresh) refl) ∙ ran

  -- Where `touch` makes a file, an organisation that the command `org add` has added was not there
  -- before. A manager that ignores what was added by hand then does not delete it, and the update from
  -- a JSON file leaves its users and groups alone.
  pub add_org-del_org :
      (name : String) (w : H.World) (s : Manager.State H cfg) (d : Dict String Organisation)
      → add_org H cfg name w ≡ (ok tt, s.world)
      → s.ignore_imperative ≡ true
      → s.lazy_orgs ≡ some d
      → (iterate : List String → List String) (declared : Dict String OrgData)
      → (H.exists (mkpath H cfg (name ∷ [])) w ≡ false)
        × (Manager.del_org H cfg name s ≡ (ok tt, s))
        × (process_org H cfg iterate declared name s ≡ (ok tt, s))
  unfolding Manager.del_org Manager.remove_org Manager.get_org Manager.orgs process_org
  add_org-del_org name w s d ran ignores cached iterate declared =
      let (fresh, marked) = add_org-marked name w s.world ran in (fresh, ground arith, ground arith)
