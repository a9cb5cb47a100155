-- ===== src/SystemdBoot/Install/Written.antt =====
-- Steps that return and remove no file, and what the writing of one entry leaves.
use mathlib.Core.Option
use nixpkgs_llvm_ws.Base.{
  ==-self, ℕ, String, List, [], ◌∷◌, ◌++◌, ◌≡◌, ◌≢◌, refl, sym, ◌∙◌, ap, Bool, true, false, ◌||◌,
  if◌then◌else◌, ◌==◌, Option, none, some, ◌>>◌, arith, >>=-ok,
}
use nixpkgs_llvm_ws.Base.{ok, for_each, nat_eq, option_eq, Option-cases, inl, inr}
use nixpkgs_llvm_ws.Base.Lists.{All}
use nixpkgs_llvm_ws.Base.Dict.{insert, lookup, lookup-insert}
use nixpkgs_llvm_ws.SystemdBoot.Text.{Text, codes, text_eq, join_lines}
use nixpkgs_llvm_ws.SystemdBoot.SortKey.{default_sort_key}
use nixpkgs_llvm_ws.SystemdBoot.EntryFile.{Entry, DiskEntry, written, boot_entry}
use nixpkgs_llvm_ws.SystemdBoot.EntryName.{file_name}
use nixpkgs_llvm_ws.SystemdBoot.Generations.{SystemIdentifier}
use nixpkgs_llvm_ws.SystemdBoot.Install.{
  Contents, Site, Files, Step, put, entry_path, write, efi_path, copy_from_file, append_secrets,
  new_entry, same_entry, chosen,
}
use nixpkgs_llvm_ws.SystemdBoot.Install.Generation.{
  entry_of, write_selected, write_loader_conf, loader_conf,
}

abbrev pub has : Text → Files → Bool
has p files = elim (lookup p files) [ none ↦ false | some _ ↦ true ]

abbrev pub Extends : Files → Files → Type 0
Extends files after = (p : Text) → has p files ≡ true → has p after ≡ true

has-insert : (p q v : Text) (files : Files) → has p (insert q v files) ≡ (p == q || has p files)
has-insert p q v files = let e = lookup-insert p q v files in ground arith

insert-Extends : (q v : Text) (files : Files) → Extends files (insert q v files)
insert-Extends q v files p h = has-insert p q v files ∙ ground arith

-- A step that returns, removes no file, and leaves what `Q` says.
abbrev pub Returns : Step → (Files → Type 0) → Files → Type 0
Returns step Q files =
    (after : Files) × (step files ≡ (ok tt, after)) × Extends files after × Q after

pub >>-Returns :
    (f g : Step) (P Q : Files → Type 0) (files : Files)
    → ((a b : Files) → Extends a b → P a → P b)
    → Returns f P files
    → ((after : Files) → Returns g Q after)
    → Returns (f >> g) (λ after. P after × Q after) files
>>-Returns f g P Q files stays (mid, ran, grows, p) next =
    let (after, rest, grows', q) = next mid in
    (
      after,
      >>=-ok f (λ _. g) files ran ∙ rest,
      (λ x h. grows' x (grows x h)),
      (stays mid after grows' p, q),
    )

pub for_each-Returns {ℓ} :
    {A : Type ℓ} (f : A → Step) (Q : A → Files → Type 0)
    → ((x : A) (a b : Files) → Extends a b → Q x a → Q x b)
    → (xs : List A) → All (λ x. (files : Files) → Returns (f x) (Q x) files) xs
    → (files : Files) → Returns (for_each f xs) (λ after. All (λ x. Q x after) xs) files
unfolding for_each
for_each-Returns f Q stays [] given files = (files, refl, (λ p h. h), tt)
for_each-Returns f Q stays (x ∷ xs) (here, there) files =
    let (mid, ran, grows, q) = here files in
    let (after, rest, grows', qs) = for_each-Returns f Q stays xs there mid in
    (
      after,
      >>=-ok (f x) (λ _. for_each f xs) files ran ∙ rest,
      (λ p h. grows' p (grows p h)),
      (stays x mid after grows' q, qs),
    )

-- A sort key that the key of the default entry can be made from.
abbrev pub IsKey : Text → Type 0
IsKey key = default_sort_key key ≢ none

module _ (site : Site) where
  -- The file of an entry is there, with some counters in its name.
  abbrev pub HasEntry : Entry → Files → Type 0
  HasEntry entry files =
      (k : Option Text) × (has
          (site.boot_mount_point ++ codes "/loader/entries/" ++ file_name entry k) files
        ≡ true)

  pub HasEntry-Extends :
      (entry : Entry) (a b : Files) → Extends a b → HasEntry entry a → HasEntry entry b
  HasEntry-Extends entry a b grows (k, h) = (k, grows _ h)

  written-some :
      (d : DiskEntry) (key : Text) → IsKey key → (text : Text) × (written d key ≡ some text)
  unfolding written
  written-some d key valid = elim (Option-cases (default_sort_key key)) [
    | inl nothing ↦ absurd (valid nothing)
    | inr (k, e) ↦
        (join_lines (boot_entry d k), ap (Option.map (λ key. join_lines (boot_entry d key))) e)
  ]

  -- Every file can be read and written, every directory has a time, and the tools that append secrets
  -- succeed.
  pub record IsWorking : Type 0 where
    pub reads : (file : Text) → (text : Text) × (site.copyfile file ≡ (ok tt, some text))
    pub can_write : (path : Text) → site.writes path ≡ ok tt
    pub dates :
        (profile : Option String) (generation : ℕ) (specialisation : Option Text)
        → (date : Text) × (site.build_date profile generation specialisation ≡ ok date)
    pub appends : (tool path : Text) → site.run_secrets tool path ≡ true

  put-Returns :
      IsWorking
      → (path text : Text) (files : Files)
      → put site path text files ≡ (ok tt, insert path text files)
  unfolding put
  put-Returns works path text files = rw (works.can_write path) refl

  pub write-Returns :
      IsWorking
      → (key : Text) (d : DiskEntry) (entry : Entry) (files : Files) → IsKey key
      → d.entry ≡ entry
      → Returns (write site key d) (HasEntry entry) files
  unfolding write entry_path
  write-Returns works key d entry files valid same =
      let (text, e) = written-some d key valid in
      let path = entry_path site d in
      (
        insert path text files,
        rw (write, e) (put-Returns works path text files),
        insert-Extends path text files,
        (
          d.counters,
          ap
                (λ x.
                  has (site.boot_mount_point ++ codes "/loader/entries/" ++ file_name x d.counters)
                    (insert path text files))
                (sym same)
              ∙ has-insert path path text files
              ∙ ap (λ b. b || has path files) (==-self {A = Text} path),
        ),
      )

  same_entry-eq : (a b : Entry) → same_entry site a b ≡ true → b ≡ a
  unfolding same_entry
  same_entry-eq a b h =
      let profile : a.profile ≡ b.profile = ground arith in
      let number : a.generation_number ≡ b.generation_number = ground arith in
      let specialisation : a.specialisation ≡ b.specialisation = ground arith in cc

  chosen_if :
      (d e : DiskEntry) (rest : DiskEntry) (b : Bool)
      → (b ≡ true → e.entry ≡ d.entry)
      → rest.entry ≡ d.entry
      → (if b then record e { default = d.default } else rest).entry ≡ d.entry
  chosen_if d e rest true same later = same refl
  chosen_if d e rest false same later = later

  chosen-entry :
      (d : DiskEntry) (entries : List DiskEntry) → (chosen site d entries).entry ≡ d.entry
  unfolding chosen
  chosen-entry d [] = refl
  chosen-entry d (e ∷ entries) =
      chosen_if d e (chosen site d entries) (same_entry site d.entry e.entry)
        (same_entry-eq d.entry e.entry) (chosen-entry d entries)

  entry-new_entry :
      (entry : Entry) (machine_id date : Text) (c : Contents) (current : Bool)
      → (new_entry site entry machine_id date c current).entry ≡ entry
  unfolding new_entry
  entry-new_entry entry machine_id date c current = refl

  copy_from_file-Returns :
      IsWorking
      → (file : Text) (files : Files) → Returns (copy_from_file site file) (λ _. Unit) files
  unfolding copy_from_file
  copy_from_file-Returns works file files =
      let dest = site.boot_mount_point ++ efi_path site file in
      elim (Option-cases (lookup dest files)) [
        | inl e ↦
            let (text, found) = works.reads file in
            (
              insert dest text files,
              rw (copy_from_file, e, found) refl,
              insert-Extends dest text files,
              tt,
            )
        | inr (t, e) ↦ (files, rw (copy_from_file, e) refl, (λ p h. h), tt)
      ]

  append_secrets-done :
      IsWorking
      → (current : Bool) (c : Contents) (files : Files)
      → append_secrets site current c files ≡ (ok tt, files)
  unfolding append_secrets
  append_secrets-done works current c files = elim (Option-cases c.initrd_secrets) [
    | inl e ↦ rw (append_secrets, e) refl
    | inr (t, e) ↦
        rw (append_secrets, e, works.appends t (site.boot_mount_point ++ efi_path site c.initrd))
          refl
  ]

  module _ (machine_id : Text) (entries : List DiskEntry) (works : IsWorking) where
    pub write_selected-Returns :
        (g : SystemIdentifier) (specialisation : Option Text) (c : Contents) (key : Text)
        (current : Bool)
        → IsKey key
        → (files : Files)
        → Returns
            (write_selected site machine_id entries g specialisation c key current)
            (HasEntry (entry_of g specialisation))
            files
    unfolding write_selected
    write_selected-Returns g specialisation c key current valid files =
        let (kernel, copied, grows, _) = copy_from_file-Returns works c.kernel files in
        let (mid, copied', grows', _) = copy_from_file-Returns works c.initrd kernel in
        let (date, dated) = works.dates g.profile g.generation specialisation in
        let d = new_entry site (entry_of g specialisation) machine_id date c current in
        let (after, ran, grows'', q) =
          write-Returns works key (chosen site d entries) (entry_of g specialisation) mid valid (
            chosen-entry d entries
            ∙ entry-new_entry (entry_of g specialisation) machine_id date c current) in
        (
          after,
          rw (copied, copied', append_secrets-done works current c mid, dated) ran,
          (λ p h. grows'' p (grows' p (grows p h))),
          q,
        )

    pub write_loader_conf-Returns :
        (profile : Option String) (files : Files)
        → Returns (write_loader_conf site machine_id entries profile) (λ _. Unit) files
    unfolding write_loader_conf
    write_loader_conf-Returns profile files =
        let path = site.efi_sys_mount_point ++ codes "/loader/loader.conf" in
        let text = loader_conf site machine_id entries profile in
        (
          insert path text files,
          put-Returns works path text files,
          insert-Extends path text files,
          tt,
        )
