-- ===== src/SystemdBoot/Install/Covered.antt =====
-- Every generation whose boot specification can be read gets its entries.
use nixpkgs_llvm_ws.Base.{
  Option, ap, ==-self, List, [], ◌∷◌, ◌≡◌, refl, Bool, true, false, ◌&&◌, if◌then◌else◌, ◌==◌, none,
  some, ◌>>◌,
}
use nixpkgs_llvm_ws.Base.{done, for_each, nat_eq, option_eq}
use nixpkgs_llvm_ws.Base.Lists.{All}
use nixpkgs_llvm_ws.SystemdBoot.Text.{Text, text_eq}
use nixpkgs_llvm_ws.SystemdBoot.EntryFile.{DiskEntry}
use nixpkgs_llvm_ws.SystemdBoot.Generations.{SystemIdentifier}
use nixpkgs_llvm_ws.SystemdBoot.Install.{
  BootSpec, Specialisations, contents, specialisations_of, spec_names, find_spec, Stored, readable,
  invalid, unreadable, Site, Files, Step, nil, cons,
}
use nixpkgs_llvm_ws.SystemdBoot.Install.Generation.{
  selected, entry_of, same_key, write_entry, write_loader_conf, write_generation, caught,
  write_tried, write_stored,
}
use nixpkgs_llvm_ws.SystemdBoot.Install.Written.{
  Extends, Returns, >>-Returns, for_each-Returns, IsKey, IsWorking, HasEntry, HasEntry-Extends,
  write_selected-Returns, write_loader_conf-Returns,
}

pub All-map {ℓ κ ρ} :
    {A : Type ℓ} {P : A → Type κ} {Q : A → Type ρ}
    → ((x : A) → P x → Q x)
    → (xs : List A) → All P xs
    → All Q xs
All-map f [] all = tt
All-map f (x ∷ xs) (here, there) = (f x here, All-map f xs there)

abbrev Found : Specialisations → Text → Type 0
Found specs name = (s : BootSpec) × (find_spec name specs ≡ some s)

found_if :
    (b : Bool) (s : BootSpec) (o : Option BootSpec)
    → (t : BootSpec) × (o ≡ some t)
    → (t : BootSpec) × ((if b then some s else o) ≡ some t)
found_if true s o found = (s, refl)
found_if false s o found = found

find_spec-here : (key : Text) (b : BootSpec) (rest : Specialisations) → Found (cons key b rest) key
unfolding find_spec
find_spec-here key b rest = (b, rw (find_spec, ==-self {A = Text} key) refl)

-- A name among the keys is found.
find_spec-names : (specs : Specialisations) → All (Found specs) (spec_names specs)
unfolding find_spec
find_spec-names nil = tt
find_spec-names (cons key b rest) = (
  find_spec-here key b rest,
  All-map (λ name found. found_if (name == key) b (find_spec name rest) found) (spec_names rest)
      (find_spec-names rest),
)

selected-Found :
    (b : BootSpec) (name : Text)
    → Found (specialisations_of b) name
    → (s : BootSpec) × (selected (some name) b ≡ some s)
unfolding selected
selected-Found b [] found = (b, refl)
selected-Found b (c ∷ name) found = found

selected-none : (b : BootSpec) → selected none b ≡ some b
unfolding selected
selected-none b = refl

module _ (site : Site) where
  -- What the files have for a generation.
  abbrev pub IsCovered : SystemIdentifier → Stored → Files → Type 0
  IsCovered g (readable b) files =
      HasEntry site (entry_of g none) files
      × All (λ name. HasEntry site (entry_of g (some name)) files)
          (spec_names (specialisations_of b))
  IsCovered g invalid files = Unit
  IsCovered g unreadable files = Unit

  abbrev pub AreCovered : List SystemIdentifier → Files → Type 0
  AreCovered gens files = All (λ g. IsCovered g (site.bootspec g.profile g.generation) files) gens

  -- A boot specification that is not there is so for the reason that is skipped.
  abbrev pub IsLegible : Stored → Type 0
  IsLegible (readable b) = IsKey (contents b).sort_key
  IsLegible invalid = Unit
  IsLegible unreadable = ⊥

  abbrev pub AreLegible : List SystemIdentifier → Type 0
  AreLegible gens = All (λ g. IsLegible (site.bootspec g.profile g.generation)) gens

  All-Extends :
      (g : SystemIdentifier) (names : List Text) (a b : Files)
      → Extends a b
      → All (λ name. HasEntry site (entry_of g (some name)) a) names
      → All (λ name. HasEntry site (entry_of g (some name)) b) names
  All-Extends g [] a b grows all = tt
  All-Extends g (name ∷ names) a b grows (here, there) = (
    HasEntry-Extends site (entry_of g (some name)) a b grows here,
    All-Extends g names a b grows there,
  )

  pub IsCovered-Extends :
      (g : SystemIdentifier) (s : Stored) (a b : Files)
      → Extends a b
      → IsCovered g s a
      → IsCovered g s b
  IsCovered-Extends g (readable s) a b grows (here, there) = (
    HasEntry-Extends site (entry_of g none) a b grows here,
    All-Extends g (spec_names (specialisations_of s)) a b grows there,
  )
  IsCovered-Extends g invalid a b grows h = tt
  IsCovered-Extends g unreadable a b grows h = tt

  caught-Returns :
      (body : Step) (Q : Files → Type 0) (files : Files)
      → Returns body Q files
      → Returns (λ files. caught (body files)) Q files
  unfolding caught
  caught-Returns body Q files (after, ran, grows, q) = (after, ap caught ran, grows, q)

  module _ (machine_id : Text) (entries : List DiskEntry) (works : IsWorking site) where
    write_entry-Returns :
        (g : SystemIdentifier) (specialisation : Option Text) (b s : BootSpec) (key : Text)
        (current : Bool)
        → IsKey key
        → selected specialisation b ≡ some s
        → (files : Files)
        → Returns
            (write_entry site machine_id entries g specialisation b key current)
            (HasEntry site (entry_of g specialisation))
            files
    unfolding write_entry
    write_entry-Returns g specialisation b s key current valid e files =
        rw (write_entry, e)
          (write_selected-Returns site machine_id entries works g specialisation (contents s) key
            current valid files)

    loader_if :
        (g : SystemIdentifier) (b : Bool) (files : Files)
        → Returns
            (if b then write_loader_conf site machine_id entries g.profile else done)
            (λ _. Unit)
            files
    loader_if g true files = write_loader_conf-Returns site machine_id entries works g.profile files
    loader_if g false files = (files, refl, (λ p h. h), tt)

    module _ (default_config key : Text) (valid : IsKey key) where
      write_generation-Returns :
          (g : SystemIdentifier) (b : BootSpec) (files : Files)
          → Returns
              (write_generation site machine_id entries default_config key g b)
              (IsCovered g (readable b))
              files
      unfolding write_generation
      write_generation-Returns g b files =
          let is_default = site.dirname (contents b).init == default_config in
          let step : Text → Step = λ name.
            write_entry site machine_id entries g (some name) b key
              (is_default && same_key name b) in
          let names = spec_names (specialisations_of b) in
          let first = write_entry site machine_id entries g none b key is_default in
          let each =
            for_each-Returns step (λ name. HasEntry site (entry_of g (some name)))
              (λ name. HasEntry-Extends site (entry_of g (some name))) names
              (All-map
                (λ name found.
                  let (s, e) = selected-Found b name found in
                  write_entry-Returns g (some name) b s key (is_default && same_key name b) valid e)
                names (find_spec-names (specialisations_of b))) in
          let written =
            >>-Returns first (for_each step names) (HasEntry site (entry_of g none))
              (λ after. All (λ name. HasEntry site (entry_of g (some name)) after) names) files
              (HasEntry-Extends site (entry_of g none))
              (write_entry-Returns g none b b key is_default valid (selected-none b) files) each in
          let (after, ran, grows, (covered, _)) =
            >>-Returns (first >> for_each step names)
              (if is_default then write_loader_conf site machine_id entries g.profile else done)
              (IsCovered g (readable b)) (λ _. Unit) files (IsCovered-Extends g (readable b))
              written (loader_if g is_default) in
          (after, ran, grows, covered)

      pub write_stored-Returns :
          (g : SystemIdentifier) (s : Stored)
          → IsLegible s
          → (files : Files)
          → Returns
              (write_stored site machine_id entries default_config key g s)
              (IsCovered g s)
              files
      unfolding write_stored write_tried caught
      write_stored-Returns g (readable b) legible files =
          caught-Returns (write_generation site machine_id entries default_config key g b)
            (IsCovered g (readable b)) files (write_generation-Returns g b files)
      write_stored-Returns g invalid legible files = (files, refl, (λ p h. h), tt)
      write_stored-Returns g unreadable legible files = absurd legible
