-- ===== src/SystemdBoot/EntryFile/Reread.antt =====
-- What comes back when a boot entry is read from the file that was written for it.
use nixpkgs_llvm_ws.Base.{
  ℕ, List, [], ◌∷◌, ◌++◌, false, if◌then◌else◌, ◌==◌, nat_eq, Option, none, some, ◌≡◌, ◌≢◌, refl,
  arith, ap, ◌∙◌,
}
use mathlib.Core.Option
use nixpkgs_llvm_ws.Base.Lists.{All}
use nixpkgs_llvm_ws.SystemdBoot.Text.{
  Text, codes, text_eq, join_lines, split_lines, onto_first, IsLine,
}
use nixpkgs_llvm_ws.SystemdBoot.SortKey.{default_sort_key}
use nixpkgs_llvm_ws.SystemdBoot.EntryFile.{
  Entry, DiskEntry, Parsed, parsed, entry_map, remove_empty, from_map, from_text, optional,
  boot_entry, written,
}

split_lines_line :
    (l s : Text) → All (λ c. (c == 10) ≡ false) l → split_lines (l ++ (10 ∷ s)) ≡ l ∷ split_lines s
unfolding split_lines onto_first nat_eq
split_lines_line [] s h = refl
split_lines_line (c ∷ l) s (x, h) = rw (x, split_lines_line l s h) refl

split_lines_last :
    (c : ℕ) (l : Text) → All (λ c. (c == 10) ≡ false) (c ∷ l) → split_lines (c ∷ l) ≡ (c ∷ l) ∷ []
unfolding split_lines onto_first
split_lines_last c [] (x, h) = rw x refl
split_lines_last c (d ∷ l) (x, h) = rw (x, split_lines_last d l h) refl

-- Lines without line ends in them, the last not empty, come back from the text that joins them.
pub split_lines-join_lines :
    (l : Text) (ls : List Text) → All IsLine (l ∷ ls) → split_lines (join_lines (l ∷ ls)) ≡ l ∷ ls
unfolding join_lines
split_lines-join_lines [] ls ((ne, _), _) = absurd (ne refl)
split_lines-join_lines (c ∷ l) [] ((ne, h), _) = split_lines_last c l h
split_lines-join_lines (c ∷ l) (m ∷ ls) ((ne, h), hs) =
    split_lines_line (c ∷ l) _ h ∙ ap (λ x. (c ∷ l) ∷ x) (split_lines-join_lines m ls hs)

remove_empty_lem : (ls : List Text) → All IsLine ls → remove_empty ls ≡ ls
unfolding remove_empty
remove_empty_lem [] h = refl
remove_empty_lem ([] ∷ ls) ((ne, _), _) = absurd (ne refl)
remove_empty_lem ((c ∷ l) ∷ ls) (_, h) = ap (λ x. (c ∷ l) ∷ x) (remove_empty_lem ls h)

-- The map that the lines of an entry give.
reread_map :
    (entry : Entry) (counters : Option Text) (title description params machine_id : Option Text)
    (kernel initrd key : Text)
    → Option.map (from_map entry counters) (
        entry_map [] (
          optional (codes "title ") title (
            optional (codes "version ") description (
              (codes "linux " ++ kernel)
              ∷ (codes "initrd  " ++ initrd)
              ∷ optional
                  (codes "options ")
                  params
                  (optional (codes "machine-id ") machine_id ((codes "sort-key " ++ key) ∷ []))))))
      ≡ some (
          parsed (record {
            entry = entry;
            default = key == codes "default";
            counters = counters;
            title = title;
            description = description;
            kernel = kernel;
            initrd = 32 ∷ initrd;
            kernel_params = params;
            machine_id = machine_id;
            sort_key = codes "nixos";
          }))
unfolding entry_map from_map nat_eq
reread_map entry counters none none none none kernel initrd key = refl
reread_map entry counters none none none (some m) kernel initrd key = refl
reread_map entry counters none none (some p) none kernel initrd key = refl
reread_map entry counters none none (some p) (some m) kernel initrd key = refl
reread_map entry counters none (some d) none none kernel initrd key = refl
reread_map entry counters none (some d) none (some m) kernel initrd key = refl
reread_map entry counters none (some d) (some p) none kernel initrd key = refl
reread_map entry counters none (some d) (some p) (some m) kernel initrd key = refl
reread_map entry counters (some t) none none none kernel initrd key = refl
reread_map entry counters (some t) none none (some m) kernel initrd key = refl
reread_map entry counters (some t) none (some p) none kernel initrd key = refl
reread_map entry counters (some t) none (some p) (some m) kernel initrd key = refl
reread_map entry counters (some t) (some d) none none kernel initrd key = refl
reread_map entry counters (some t) (some d) none (some m) kernel initrd key = refl
reread_map entry counters (some t) (some d) (some p) none kernel initrd key = refl
reread_map entry counters (some t) (some d) (some p) (some m) kernel initrd key = refl

split_lines-join_lines_ne :
    (ls : List Text) → ls ≢ [] → All IsLine ls → split_lines (join_lines ls) ≡ ls
split_lines-join_lines_ne [] ne h = absurd (ne refl)
split_lines-join_lines_ne (l ∷ ls) ne h = split_lines-join_lines l ls h

cons-ne-nil : (l : Text) (ls : List Text) → ◌≢◌ {A = List Text} (l ∷ ls) []
cons-ne-nil l ls e = cc

optional-ne-nil :
    (label : Text) (o : Option Text) (ls : List Text) → ls ≢ [] → optional label o ls ≢ []
optional-ne-nil label none ls ne = ne
optional-ne-nil label (some v) ls ne = cons-ne-nil _ ls

boot_entry-ne-nil : (d : DiskEntry) (key : Text) → boot_entry d key ≢ []
unfolding boot_entry
boot_entry-ne-nil d key = optional-ne-nil (codes "title ") d.title _ (
    optional-ne-nil (codes "version ") d.description _ (
      cons-ne-nil (codes "linux " ++ d.kernel) (
        (codes "initrd  " ++ d.initrd)
        ∷ optional (codes "options ") d.kernel_params (
            optional (codes "machine-id ") d.machine_id
              ((codes "sort-key " ++ (if d.default then key else d.sort_key)) ∷ [])))))

boot_entry-map :
    (d : DiskEntry) (key : Text)
    → Option.map (from_map d.entry d.counters) (entry_map [] (boot_entry d key))
      ≡ some (
          parsed (record d {
            default = (if d.default then key else d.sort_key) == codes "default";
            initrd = 32 ∷ d.initrd;
            sort_key = codes "nixos";
          }))
unfolding boot_entry
boot_entry-map d key =
    reread_map d.entry d.counters d.title d.description d.kernel_params d.machine_id d.kernel
      d.initrd (if d.default then key else d.sort_key)

-- Reading goes through the map that the lines give.
from_text-map :
    (entry : Entry) (counters : Option Text) (text : Text) (p : Parsed)
    → Option.map (from_map entry counters) (entry_map [] (remove_empty (split_lines text))) ≡ some p
    → from_text entry counters text ≡ p
unfolding from_text
from_text-map entry counters text p h = ground arith

-- Let a boot entry be written, with a key for the default entry, in lines that are not empty and
-- hold no line end. Read again, it keeps its kernel, its title, its version, its options and its
-- machine id; its initrd has a space more in front, its sort key is `nixos`, and it is the default
-- just when the sort key in the file is the word `default`.
pub from_text-written :
    (d : DiskEntry) (sorted_first key : Text)
    → default_sort_key sorted_first ≡ some key
    → All IsLine (boot_entry d key)
    → Option.map (from_text d.entry d.counters) (written d sorted_first)
      ≡ some (
          parsed (record d {
            default = (if d.default then key else d.sort_key) == codes "default";
            initrd = 32 ∷ d.initrd;
            sort_key = codes "nixos";
          }))
unfolding written
from_text-written d sorted_first key h lines = rw h (
    ap some (
      from_text-map d.entry d.counters (join_lines (boot_entry d key)) _ (
        rw (split_lines-join_lines_ne _ (boot_entry-ne-nil d key) lines, remove_empty_lem _ lines)
          (boot_entry-map d key))))
