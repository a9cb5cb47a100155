-- ===== src/SystemdBoot/EntryName/Reread.antt =====
-- The name of a boot entry's file, read back.
use mathlib.Core.Option
use mathlib.Core.List.{append_assoc}
use nixpkgs_llvm_ws.Base.{
  ℕ, [], ◌∷◌, ◌++◌, ◌≡◌, ◌≢◌, refl, ◌∙◌, ap, true, false, ◌==◌, nat_eq, Option, none, some,
}
use nixpkgs_llvm_ws.Base.Lists.{All}
use nixpkgs_llvm_ws.Base.Decimal.{str}
use nixpkgs_llvm_ws.Base.Decimal.Read.{int-str}
use nixpkgs_llvm_ws.SystemdBoot.Text.{Text, codes, text_eq}
use nixpkgs_llvm_ws.SystemdBoot.EntryFile.{Entry}
use nixpkgs_llvm_ws.SystemdBoot.EntryName.{
  is_alnum, ends_with, entry_from_name, join_pieces, file_name,
}
use nixpkgs_llvm_ws.SystemdBoot.EntryName.Matching.{ends_with-append}
use nixpkgs_llvm_ws.SystemdBoot.EntryName.Parts.{value-int, IsTail}
use nixpkgs_llvm_ws.SystemdBoot.EntryName.Built.{
  IsPlain, built, none-IsRead, some-IsRead, entry_from_name-built,
}

abbrev pub IsFilled : Option Text → Type 0
IsFilled none = Unit
IsFilled (some p) = p ≢ []

abbrev pub IsWord : Option Text → Type 0
IsWord none = Unit
IsWord (some s) = (s ≢ []) × All (λ c. is_alnum c ≡ true) s

-- Counters begin with `+`, and have no `g`.
abbrev pub IsCounters : Option Text → Type 0
IsCounters none = Unit
IsCounters (some []) = Unit
IsCounters (some (c ∷ k)) = (c ≡ 43) × All (λ d. (103 == d) ≡ false) k

abbrev spec_part : Option Text → Text
spec_part none = []
spec_part (some s) = codes "-specialisation-" ++ s

no_g-append :
    (k : Text)
    → All (λ d. (103 == d) ≡ false) k
    → All (λ d. (103 == d) ≡ false) (k ++ codes ".conf")
unfolding nat_eq
no_g-append [] all = (refl, (refl, (refl, (refl, (refl, tt)))))
no_g-append (c ∷ k) (here, there) = (here, no_g-append k there)

conf-IsTail : IsTail 46 (codes "conf")
unfolding nat_eq ends_with text_eq
conf-IsTail = record {
  plain = refl;
  dash = refl;
  word = (refl, (refl, (refl, (refl, (refl, (refl, (refl, (refl, (refl, (refl, tt))))))))));
  no_g = (refl, (refl, (refl, (refl, (refl, tt)))));
  conf = refl;
}

plus-IsTail : (k : Text) → All (λ d. (103 == d) ≡ false) k → IsTail 43 (k ++ codes ".conf")
unfolding nat_eq
plus-IsTail k all = record {
  plain = refl;
  dash = refl;
  word = (refl, (refl, (refl, (refl, (refl, (refl, (refl, (refl, (refl, (refl, tt))))))))));
  no_g = (refl, no_g-append k all);
  conf = ends_with-append (43 ∷ k) (codes ".conf");
}

counters-IsTail :
    (k : Option Text)
    → IsCounters k
    → (c : ℕ) × (t : Text) × (Option.get_or k [] ++ codes ".conf" ≡ c ∷ t) × IsTail c t
counters-IsTail none h = (46, codes "conf", refl, conf-IsTail)
counters-IsTail (some []) h = (46, codes "conf", refl, conf-IsTail)
counters-IsTail (some (c ∷ k)) (plus, all) =
    (43, k ++ codes ".conf", ap (λ d. d ∷ (k ++ codes ".conf")) plus, plus-IsTail k all)

file_name_lem :
    (profile : Option Text) (n : ℕ) (specialisation k : Option Text)
    → IsFilled profile
    → IsWord specialisation
    → file_name
        (record { profile = profile; generation_number = n; specialisation = specialisation })
        k
      ≡ built profile
          (codes (str n) ++ (spec_part specialisation ++ (Option.get_or k [] ++ codes ".conf")))
unfolding file_name join_pieces
file_name_lem none n none k filled word = refl
file_name_lem none n (some []) k filled (word, _) = absurd (word refl)
file_name_lem none n (some (c ∷ s)) k filled word =
    ap (λ x. codes "nixos-generation-" ++ x)
      (append_assoc (codes (str n)) (codes "-specialisation-" ++ (c ∷ s))
        (Option.get_or k [] ++ codes ".conf"))
file_name_lem (some []) n specialisation k filled word = absurd (filled refl)
file_name_lem (some (d ∷ p)) n none k filled word =
    ap (λ x. codes "nixos-" ++ (d ∷ x))
      (append_assoc p (codes "-generation-" ++ codes (str n)) (Option.get_or k [] ++ codes ".conf"))
file_name_lem (some (d ∷ p)) n (some []) k filled (word, _) = absurd (word refl)
file_name_lem (some (d ∷ p)) n (some (c ∷ s)) k filled word =
    ap (λ x. codes "nixos-" ++ (d ∷ x))
      (append_assoc p
        (codes "-generation-" ++ (codes (str n) ++ (codes "-specialisation-" ++ (c ∷ s))))
        (Option.get_or k [] ++ codes ".conf"))
    ∙ ap (λ x. codes "nixos-" ++ (d ∷ (p ++ (codes "-generation-" ++ x))))
        (append_assoc (codes (str n)) (codes "-specialisation-" ++ (c ∷ s))
          (Option.get_or k [] ++ codes ".conf"))

reread :
    (profile specialisation k : Option Text) (n : ℕ)
    → IsFilled profile
    → IsWord specialisation
    → IsPlain profile specialisation
    → IsCounters k
    → entry_from_name (
        built profile
          (codes (str n) ++ (spec_part specialisation ++ (Option.get_or k [] ++ codes ".conf"))))
      ≡ some (record { profile = profile; generation_number = n; specialisation = specialisation })
reread profile none k n filled word plain counters =
    let (d, ds, digits_of, value_of, digits) = value-int n (str n) (int-str n) in
    let (c, t, ends, tail) = counters-IsTail k counters in
    rw (ends, digits_of)
      (entry_from_name-built d ds digits (c ∷ t) none profile
          (none-IsRead d ds digits c t tail profile plain)
        ∙ ap
            (λ v. some (record { profile = profile; generation_number = v; specialisation = none }))
            value_of)
reread profile (some s) k n filled word plain counters =
    let (d, ds, digits_of, value_of, digits) = value-int n (str n) (int-str n) in
    let (c, t, ends, tail) = counters-IsTail k counters in
    rw (ends, digits_of)
      (entry_from_name-built d ds digits (codes "-specialisation-" ++ s ++ (c ∷ t)) (some s) profile
          (some-IsRead d ds digits c t tail profile s word)
        ∙ ap
            (λ v.
              some (record { profile = profile; generation_number = v; specialisation = some s }))
            value_of)

-- Let an entry have no profile or one that is not empty, no specialisation or one of ASCII letters and
-- digits, and counters that begin with `+` and have no `g` in them. Let its profile have no dash where it has no
-- specialisation. Then the patterns read the entry back from the name of its file.
pub entry_from_name-file_name :
    (e : Entry) (k : Option Text)
    → IsFilled e.profile
    → IsWord e.specialisation
    → IsPlain e.profile e.specialisation
    → IsCounters k
    → entry_from_name (file_name e k) ≡ some e
entry_from_name-file_name e k filled word plain counters =
    ap entry_from_name (file_name_lem e.profile e.generation_number e.specialisation k filled word)
    ∙ reread e.profile e.specialisation k e.generation_number filled word plain counters
