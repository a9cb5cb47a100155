-- ===== src/TaskServer/Manager/Names.antt =====
-- What the calls of the manager do to the names of its organisations.
use nixpkgs_llvm_ws.Base.{
  Option, String, List, [], ◌∷◌, Bool, false, not, ◌&&◌, ◌||◌, contains, ◌==◌, ◌≡◌, refl, ◌∙◌, ap,
  sym, ◌⊎◌, arith,
}
use nixpkgs_llvm_ws.Base.{string_eq, none, some, Option-cases, inl, inr}
use nixpkgs_llvm_ws.Base.{Action, Result, ok, err, modify, for_each, follow, ◌>>=◌, ◌>>◌, >>=-eq-ok}
use nixpkgs_llvm_ws.Base.Dict.{
  Dict, keys, lookup, insert, erase, contains-keys, lookup-insert, lookup-erase,
}
use nixpkgs_llvm_ws.TaskServer.Host.{Host, Config, Error}
use nixpkgs_llvm_ws.TaskServer.Files.{is_imperative, taskd_cmd}
use nixpkgs_llvm_ws.TaskServer.Organisation
use nixpkgs_llvm_ws.TaskServer.Organisation.{Organisation, new_organisation}
use nixpkgs_llvm_ws.TaskServer.Manager.{
  State, orgs, on_world, on_org, keep_org, drop_org, add_org, clear_org, clear_users, clear_groups,
  remove_org, del_org, get_org,
}

module _ (H : Host) (cfg : Config) where
  -- The organisations have been read.
  abbrev pub IsRead : State H cfg → Type 0
  IsRead s = (d : Dict String Organisation) × (s.lazy_orgs ≡ some d)

  abbrev pub has_org : State H cfg → String → Bool
  has_org s k = elim s.lazy_orgs [ none ↦ false | some d ↦ contains (keys d) k ]

  -- A call after which the manager holds organisations of the same names.
  abbrev pub KeepsNames {ρ} : {A : Type ρ} → Action (State H cfg) Error A → Type 0
  KeepsNames f =
      (s : State H cfg)
      → IsRead s
      → IsRead (f s).1 × ((j : String) → has_org (f s).1 j ≡ has_org s j)

  pub >>=-KeepsNames {ρ σ} :
      {A : Type ρ} {B : Type σ} (m : Action (State H cfg) Error A)
      (f : A → Action (State H cfg) Error B)
      → KeepsNames m
      → ((a : A) → KeepsNames (f a))
      → KeepsNames (m >>= f)
  >>=-KeepsNames {A} m f hm hf s v = go (m s) (hm s v)
    where
      go :
          (x : Result Error A × State H cfg)
          → IsRead x.1 × ((j : String) → has_org x.1 j ≡ has_org s j)
          → IsRead (follow f x).1 × ((j : String) → has_org (follow f x).1 j ≡ has_org s j)
      go (ok a, u) (v', same) = let (v'', more) = hf a u v' in (v'', λ j. more j ∙ same j)
      go (err e, u) h = h

  pub for_each-KeepsNames :
      (f : String → Action (State H cfg) Error (Unit {0}))
      → ((x : String) → KeepsNames (f x))
      → (xs : List String) → KeepsNames (for_each f xs)
  unfolding for_each
  for_each-KeepsNames f hf [] s v = (v, λ j. refl)
  for_each-KeepsNames f hf (x ∷ xs) s v =
      >>=-KeepsNames (f x) (λ _. for_each f xs) (hf x) (λ _. for_each-KeepsNames f hf xs) s v

  -- What a call on an organisation leaves of the manager.
  on_org_state {ρ} :
      {A : Type ρ} (name : String) (f : Action (Organisation.State H cfg) Error A) (s : State H cfg)
      (d : Dict String Organisation)
      → s.lazy_orgs ≡ some d
      → ((on_org H cfg name f s).1 ≡ s)
        ⊎ ((o : Organisation) × (o' : Organisation) × (w : H.World) × (lookup name d ≡ some o)
            × ((on_org H cfg name f s).1
                ≡ record s { lazy_orgs = some (insert name o' d); world = w }))
  unfolding on_org
  on_org_state name f s d e = elim (Option-cases (lookup name d)) [
    | inl absent ↦ inl (ground arith)
    | inr (o, there) ↦
        let t = (f (record { org = o; world = s.world })).1 in
        inr (o, t.org, t.world, there, ground arith)
  ]

  pub on_org-KeepsNames {ρ} :
      {A : Type ρ} (name : String) (f : Action (Organisation.State H cfg) Error A)
      → KeepsNames (on_org H cfg name f)
  on_org-KeepsNames name f s (d, e) = elim (on_org_state name f s d e) [
    | inl same ↦ rw same ((d, e), λ j. refl)
    | inr (o, o', w, there, changed) ↦ rw changed (
      (insert name o' d, refl),
      λ j. rw (e, contains-keys) (ground (arith, contains-keys d j, lookup-insert j name o' d)),
    )
  ]

  clear_org-KeepsNames : (name : String) → KeepsNames (clear_org H cfg name)
  unfolding clear_org
  clear_org-KeepsNames name =
      >>=-KeepsNames (clear_users H cfg name) (λ _. clear_groups H cfg name)
        (>>=-KeepsNames (on_org H cfg name (Organisation.users H cfg))
          (λ us. for_each (λ user. on_org H cfg name (Organisation.del_user H cfg user)) (keys us))
          (on_org-KeepsNames name (Organisation.users H cfg))
          (λ us.
            for_each-KeepsNames (λ user. on_org H cfg name (Organisation.del_user H cfg user))
              (λ user. on_org-KeepsNames name (Organisation.del_user H cfg user)) (keys us)))
        (λ _.
          >>=-KeepsNames (on_org H cfg name (Organisation.groups H cfg))
            (λ gs.
              for_each (λ group. on_org H cfg name (Organisation.del_group H cfg group)) (keys gs))
            (on_org-KeepsNames name (Organisation.groups H cfg))
            (λ gs.
              for_each-KeepsNames (λ group. on_org H cfg name (Organisation.del_group H cfg group))
                (λ group. on_org-KeepsNames name (Organisation.del_group H cfg group)) (keys gs)))

  pub orgs_read :
      (s : State H cfg) (d : Dict String Organisation)
      → s.lazy_orgs ≡ some d
      → orgs H cfg s ≡ (ok d, s)
  unfolding orgs
  orgs_read s d e = ground arith

  has_org-insert :
      (s t : State H cfg) (k : String) (o : Organisation) (d : Dict String Organisation)
      → s.lazy_orgs ≡ some d
      → t.lazy_orgs ≡ some (insert k o d)
      → (j : String) → has_org t j ≡ (j == k || has_org s j)
  has_org-insert s t k o d e e' j =
      ground (arith, contains-keys d j, contains-keys (insert k o d) j, lookup-insert j k o d)

  has_org-erase :
      (s t : State H cfg) (k : String) (d : Dict String Organisation)
      → s.lazy_orgs ≡ some d
      → t.lazy_orgs ≡ some (erase k d)
      → (j : String) → has_org t j ≡ (not (j == k) && has_org s j)
  has_org-erase s t k d e e' j =
      ground (arith, contains-keys d j, contains-keys (erase k d) j, lookup-erase j k d)

  add_org_new :
      (k : String) (s t : State H cfg) (a : Option Organisation) (d : Dict String Organisation)
      → s.lazy_orgs ≡ some d
      → lookup k d ≡ none
      → add_org H cfg k s ≡ (ok a, t)
      → t.lazy_orgs ≡ some (insert k (new_organisation k s.ignore_imperative) d)
  unfolding add_org keep_org
  add_org_new k s t a d e fresh h = ground (arith, contains-keys d k, orgs_read s d e)

  add_org_old :
      (k : String) (s t : State H cfg) (a : Option Organisation) (d : Dict String Organisation)
      (o : Organisation)
      → s.lazy_orgs ≡ some d
      → lookup k d ≡ some o
      → add_org H cfg k s ≡ (ok a, t)
      → t ≡ s
  unfolding add_org keep_org
  add_org_old k s t a d o e there h = ground (arith, contains-keys d k, orgs_read s d e)

  -- If `add_org` returns, the new names are the old ones and this.
  pub add_org_law :
      (k : String) (s t : State H cfg) (a : Option Organisation)
      → IsRead s
      → add_org H cfg k s ≡ (ok a, t)
      → IsRead t × ((j : String) → has_org t j ≡ (j == k || has_org s j))
  add_org_law k s t a (d, e) h = elim (Option-cases (lookup k d)) [
    | inl fresh ↦
        let new = add_org_new k s t a d e fresh h in
        (
          (insert k (new_organisation k s.ignore_imperative) d, new),
          has_org-insert s t k (new_organisation k s.ignore_imperative) d e new,
        )
    | inr (o, there) ↦
        let same = add_org_old k s t a d o e there h in
        (
          (d, ap (λ x. x.lazy_orgs) same ∙ e),
          λ j. ap (λ x. has_org x j) same ∙ ground (arith, contains-keys d j),
        )
  ]

  -- If `remove_org` returns, and the organisation is not managed by hand, its name is gone.
  remove_org_law :
      (k : String) (s t : State H cfg)
      → ((w : H.World) → is_imperative H cfg (k ∷ []) w ≡ false)
      → IsRead s
      → remove_org H cfg k s ≡ (ok tt, t)
      → IsRead t × ((j : String) → has_org t j ≡ (not (j == k) && has_org s j))
  unfolding remove_org drop_org
  remove_org_law k s t unmarked v h =
      let act =
        on_world H cfg (taskd_cmd H cfg "remove" ("org" ∷ k ∷ [])) >> modify (drop_org H cfg k) in
      let h' : (clear_org H cfg k >> act) s ≡ (ok tt, t) = ground (arith, unmarked s.world) in
      let (_, u, cleared, rest) = >>=-eq-ok (clear_org H cfg k) (λ _. act) s h' in
      let e : (clear_org H cfg k s).1 ≡ u = ap (λ x. x.1) cleared in
      let ((d, read), same) = clear_org-KeepsNames k s v in
      let read' : u.lazy_orgs ≡ some d = ap (λ x. x.lazy_orgs) (sym e) ∙ read in
      let new : t.lazy_orgs ≡ some (erase k d) = ground arith in
      (
        (erase k d, new),
        λ j.
            has_org-erase u t k d read' new j
            ∙ ap (λ b. not (j == k) && b) (ap (λ x. has_org x j) (sym e) ∙ same j),
      )

  pub del_org_law :
      ((k : String) (w : H.World) → is_imperative H cfg (k ∷ []) w ≡ false)
      → (k : String) (s t : State H cfg) (b : Unit {0}) → IsRead s
      → del_org H cfg k s ≡ (ok b, t)
      → IsRead t × ((j : String) → has_org t j ≡ (not (j == k) && has_org s j))
  unfolding del_org get_org
  del_org_law unmarked k s t b (d, e) h = elim (Option-cases (lookup k d)) [
    | inl absent ↦
        let same : t ≡ s = ground (arith, orgs_read s d e) in
        (
          (d, ap (λ x. x.lazy_orgs) same ∙ e),
          λ j. ap (λ x. has_org x j) same ∙ ground (arith, contains-keys d j),
        )
    | inr (o, there) ↦ remove_org_law k s t (unmarked k) (d, e) (ground (arith, orgs_read s d e))
  ]
